-- ===== src/Policy/Compile.antt =====
-- internal/broker/policy/compile.go: the validation of a policy file and its compiled form.
pub mod Profiles
pub mod Hosts
pub mod Identities
pub mod Sound
use certplane.Base.{
  Bool, true, false, not, ◌&&◌, Option, none, some, List, [], ◌∷◌, Result, ok, err, ◌>>=◌, ◌>>◌,
  refuse, map_err, if◌then◌else◌, ◌==◌, length, ◌*◌,
}
use certplane.Base.Int.{ℤ, pos, is_zero, ltb_ℤ, leb_ℤ}
use certplane.Base.Text.{Text, codes, text_eq, is_empty, trim_space}
use certplane.Base.Dict.{Dict, lookup, insert}
use certplane.Clock.{Time, hour, Duration}
use certplane.Dnsname
use certplane.Dnsname.{canonical_list, is_valid_wildcard}
use certplane.Policy.{
  current_version, AcmeProfile, Profile, Host, Config, CompiledAcmeProfile, CompiledProfile,
  ProfileSet, CompiledHost, CompiledPolicy,
}
use certplane.Policy.Hash.{
  Digest, HashError, sorted_map_keys, or_zero, compute_profile_hash, compute_policy_hash,
}

pub data ProfileError : Type 0 where
  name_required type_required names_required challenge_required : ProfileError
  bad_names : Dnsname.Error → ProfileError
  non_wildcard_name wildcard_name : Text → ProfileError
  wildcard_challenge multi_san_challenge : ProfileError
  unsupported_type : Text → ProfileError
  negative_renew_before : ProfileError
  hashing_profile : HashError → ProfileError

pub data CompileError : Type 0 where
  unsupported_version : ℤ → CompileError
  no_profiles no_hosts host_name_required : CompileError
  in_profile : Text → ProfileError → CompileError
  identity_required no_profile_reference empty_reference : Text → CompileError
  unknown_reference : Text → Text → CompileError
  duplicate_identity : Text → CompileError
  hashing_policy : HashError → CompileError

-- `30 * 24 * time.Hour`
abbrev pub default_renew_before : Duration
default_renew_before = pos (720 * hour)

-- The first name that is no wildcard, and the first that is one.
find_non_wildcard : List Text → Option ProfileError
find_non_wildcard [] = none
find_non_wildcard (name ∷ names) =
    let rest = find_non_wildcard names in
    if is_valid_wildcard name then rest else some (non_wildcard_name name)

find_wildcard : List Text → Option ProfileError
find_wildcard [] = none
find_wildcard (name ∷ names) =
    let rest = find_wildcard names in
    if is_valid_wildcard name then some (wildcard_name name) else rest

-- A profile whose names are all right has to use the DNS challenge.
require_dns_01 :
    Option ProfileError → CompiledAcmeProfile → ProfileError → Result ProfileError (Unit {0})
require_dns_01 (some e) acme wrong = err e
require_dns_01 none acme wrong = refuse (not (text_eq acme.challenge (codes "dns-01"))) wrong

unfoldable pub validate_profile_type :
    Text → List Text → CompiledAcmeProfile → Result ProfileError (Unit {0})
unfolding find_non_wildcard find_wildcard require_dns_01
validate_profile_type type names acme =
    if is_empty acme.challenge
    then err challenge_required
    else if text_eq type (codes "wildcard")
    then require_dns_01 (find_non_wildcard names) acme wildcard_challenge
    else if text_eq type (codes "multi_san")
    then require_dns_01 (find_wildcard names) acme multi_san_challenge
    else err (unsupported_type type)

compiled_acme : AcmeProfile → CompiledAcmeProfile
compiled_acme raw = record {
  challenge = trim_space raw.challenge;
  credentials = trim_space raw.credentials;
}

abbrev is_none_left : List Text → Bool
is_none_left [] = true
is_none_left (x ∷ xs) = false

or_default : Duration → Duration
or_default d = if is_zero d then default_renew_before else d

module _ (d : Digest) where
  unfoldable pub compile_profile : Text → Profile → Result ProfileError CompiledProfile
  unfolding compiled_acme or_default
  compile_profile name raw = do
    refuse (is_empty (trim_space name)) name_required
    refuse (is_empty (trim_space raw.type)) type_required
    names ← map_err bad_names (canonical_list raw.dns_names)
    refuse (is_none_left names) names_required
    validate_profile_type (trim_space raw.type) names (compiled_acme raw.acme)
    refuse (ltb_ℤ (or_default raw.renew_before) (pos 0)) negative_renew_before
    let profile : CompiledProfile = record {
      name = trim_space name;
      type = trim_space raw.type;
      dns_names = names;
      acme = compiled_acme raw.acme;
      renew_before = or_default raw.renew_before;
      hash = [];
    }
    hash ← map_err hashing_profile (compute_profile_hash d profile)
    ok (record profile { hash = hash })

-- The zero value of a profile that the file lacks.
abbrev pub zero_raw_profile : Profile
zero_raw_profile = record {
  type = [];
  dns_names = [];
  acme = record { challenge = []; credentials = [] };
  renew_before = pos 0;
}

abbrev pub zero_raw_host : Host
zero_raw_host = record { identity = []; profiles = [] }

-- The loop over the profiles that a host names.
reference_profiles :
    Text → List Text → Dict CompiledProfile → ProfileSet → Result CompileError ProfileSet
reference_profiles host [] profiles allowed = ok allowed
reference_profiles host (reference ∷ references) profiles allowed =
    let name = trim_space reference in
    let rest = reference_profiles host references profiles (insert name true allowed) in
    if is_empty name
    then err (empty_reference host)
    else elim (lookup name profiles) [ none ↦ err (unknown_reference host name) | some p ↦ rest ]

unfoldable pub compile_host : Text → Host → Dict CompiledProfile → Result CompileError CompiledHost
unfolding reference_profiles
compile_host key raw profiles = do
  let name = trim_space key
  refuse (is_empty name) host_name_required
  let identity = trim_space raw.identity
  refuse (is_empty identity) (identity_required name)
  refuse (is_none_left raw.profiles) (no_profile_reference name)
  allowed ← reference_profiles name raw.profiles profiles []
  ok (record { name = name; identity = identity; profiles = allowed })

-- The two maps of hosts that the second loop fills.
pub record HostMaps : Type 0 where
  pub by_name : Dict CompiledHost
  pub by_identity : Dict CompiledHost

abbrev pub is_known : Option CompiledHost → Bool
is_known none = false
is_known (some h) = true

unfoldable pub compile_hosts :
    List Text → Dict Host → Dict CompiledProfile → HostMaps → Result CompileError HostMaps
compile_hosts [] hosts profiles maps = ok maps
compile_hosts (name ∷ names) hosts profiles maps = do
  host ← compile_host name (or_zero zero_raw_host (lookup name hosts)) profiles
  refuse (is_known (lookup host.identity maps.by_identity)) (duplicate_identity host.identity)
  compile_hosts names hosts profiles (record {
    by_name = insert name host maps.by_name;
    by_identity = insert host.identity host maps.by_identity;
  })

abbrev is_empty_dict {ℓ} : {V : Type ℓ} → Dict V → Bool
is_empty_dict [] = true
is_empty_dict (e ∷ m) = false

or_current : ℤ → ℤ
or_current v = if is_zero v then current_version else v

module _ (d : Digest) where
  unfoldable pub compile_profiles :
      List Text → Dict Profile → Dict CompiledProfile → Result CompileError (Dict CompiledProfile)
  compile_profiles [] raw profiles = ok profiles
  compile_profiles (name ∷ names) raw profiles = do
    profile ←
        map_err (in_profile name)
          (compile_profile d name (or_zero zero_raw_profile (lookup name raw)))
    compile_profiles names raw (insert name profile profiles)

  -- `now` is the clock's answer for `LoadedAt`.
  unfoldable pub compile : Time → Config → Result CompileError CompiledPolicy
  unfolding or_current
  compile now cfg = do
    let version = or_current cfg.version
    refuse (not (leb_ℤ version current_version && leb_ℤ current_version version))
        (unsupported_version version)
    refuse (is_empty_dict cfg.profiles) no_profiles
    refuse (is_empty_dict cfg.hosts) no_hosts
    profiles ← compile_profiles (sorted_map_keys cfg.profiles) cfg.profiles []
    maps ←
        compile_hosts (sorted_map_keys cfg.hosts) cfg.hosts profiles
          (record { by_name = []; by_identity = [] })
    let compiled : CompiledPolicy = record {
      version = version;
      profiles = profiles;
      hosts_by_name = maps.by_name;
      hosts_by_identity = maps.by_identity;
      hash = [];
      loaded_at = now;
    }
    hash ← map_err hashing_policy (compute_policy_hash d compiled)
    ok (record compiled { hash = hash })
