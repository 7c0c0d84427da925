-- ===== src/Tests/PolicyTests.antt =====
-- internal/broker/policy/policy_test.go, internal/broker/authn: runs, and the theorems on policies and
-- identities at concrete data.
use certplane.Base.{◌≡◌, ◌≢◌, ◌↔◌, ◌+◌, ◌*◌, refl, true, none, some, List, [], ◌∷◌, ok}
use certplane.Base.Int.{pos}
use certplane.Base.Text.{
  codes, Text, text_eq, text_ltb, elem, trim_space, trim_suffix, trim_prefix, to_lower,
  contains_any, contains_text, has_prefix, has_suffix, has_code, count_code,
}
use certplane.Base.Text.Split.{split}
use certplane.Base.Sort.{sort}
use certplane.Base.Dict.{lookup, insert, keys}
use certplane.Clock.{hour}
use certplane.Dnsname.{canonical_list, is_valid_wildcard}
use certplane.Authn.{identity_from_request}
use certplane.Authn.Identity.{PeerVouches, identity_from_request_iff}
use certplane.Policy.{CompiledPolicy, CompiledProfile, CompiledHost}
use certplane.Policy.Hash.{
  sorted_map_keys, compute_profile_hash, compute_policy_hash, hash_canonical,
}
use certplane.Policy.Compile.{
  compile, compile_profile, compile_host, compile_hosts, compile_profiles, validate_profile_type,
}
use certplane.Policy.Compile.Sound.{IsSound, compile-IsSound, authorize-known_profile}
use certplane.Policy.Authorize.{authorize, AuthorizeError}
use certplane.Policy.Authorize.Decision.{IsAllowed, accepted, authorize_iff}
use certplane.Policy.Manager as Watched
use certplane.Policy.Manager.{
  Manager, PolicyFile, Tick, decoded, watch, new_manager, load, reload, or_zero_time,
}
use certplane.Policy.Manager.Watching.{
  HoldsCompiled, last_of, loads, watch-HoldsCompiled, watch-loads,
}
use certplane.Tests.Data.{digest, config, policy, profile, web, agent, csr, client, today}

abbrev compiled_profile : CompiledProfile
compiled_profile = record {
  name = web;
  type = codes "wildcard";
  dns_names = codes "*.example.org" ∷ [];
  acme = record { challenge = codes "dns-01"; credentials = codes "cf" };
  renew_before = pos (720 * hour);
  hash = [];
}

abbrev compiled_host : CompiledHost
compiled_host = record { name = codes "node"; identity = agent; profiles = (web, true) ∷ [] }

abbrev compiled : CompiledPolicy
compiled = record {
  version = pos 1;
  profiles = (web, compiled_profile) ∷ [];
  hosts_by_name = (codes "node", compiled_host) ∷ [];
  hosts_by_identity = (agent, compiled_host) ∷ [];
  hash = [];
  loaded_at = today;
}

compile_run : compile digest today config ≡ ok compiled
unfolding compile compile_profiles compile_hosts compile_profile compile_host validate_profile_type
    is_valid_wildcard sorted_map_keys compute_profile_hash compute_policy_hash hash_canonical
    canonical_list text_eq text_ltb trim_space trim_suffix trim_prefix to_lower contains_any
    contains_text has_prefix has_suffix has_code count_code split elem sort lookup insert keys
compile_run = refl

compile-IsSound_example : IsSound compiled
compile-IsSound_example = compile-IsSound digest today config compile_run

authorize-known_profile_example :
    (authorize compiled agent (codes "api") (some csr)).error ≢ some AuthorizeError.unknown_profile
authorize-known_profile_example =
    authorize-known_profile compiled agent (codes "api") (some csr)
      (compile-IsSound digest today config compile_run)

authorize_iff_example :
    (authorize policy agent web (some csr) ≡ accepted profile)
    ↔ IsAllowed policy agent web csr profile
authorize_iff_example = authorize_iff policy agent web csr profile

identity_from_request_iff_example :
    (identity_from_request (today + hour) (some (some client ∷ [])) ≡ ok agent)
    ↔ PeerVouches (today + hour) (some (some client ∷ [])) agent
identity_from_request_iff_example =
    identity_from_request_iff (today + hour) (some (some client ∷ [])) agent

abbrev path : Text
path = codes "policy.yaml"

abbrev manager : Manager
manager = record { path = path; current = some compiled }

-- A file that cannot be read, and one that cannot be decoded.
abbrev ticks : List Tick
ticks =
    record { stat = none; file = Watched.unreadable }
    ∷ record { stat = some (today + hour); file = Watched.malformed }
    ∷ []

new_manager_run : new_manager digest path (decoded today config) ≡ ok manager
unfolding new_manager reload load compile compile_profiles compile_hosts compile_profile
    compile_host validate_profile_type is_valid_wildcard sorted_map_keys compute_profile_hash
    compute_policy_hash hash_canonical canonical_list text_eq text_ltb trim_space trim_suffix
    trim_prefix to_lower contains_any contains_text has_prefix has_suffix has_code count_code split
    elem sort lookup insert keys
new_manager_run = refl

watch-HoldsCompiled_example : HoldsCompiled digest (watch digest manager (some today) ticks).manager
watch-HoldsCompiled_example =
    watch-HoldsCompiled digest path (decoded today config) (some today) ticks new_manager_run

watch-loads_example :
    (watch digest manager (some today) ticks).manager.current
    ≡ last_of (loads digest (or_zero_time digest (some today)) ticks) (some compiled)
watch-loads_example = watch-loads digest manager (some today) ticks
