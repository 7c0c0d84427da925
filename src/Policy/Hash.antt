-- ===== src/Policy/Hash.antt =====
-- internal/broker/policy/hash.go: what the hashes of a profile and of a policy are taken of. The
-- JSON encoder, SHA-256 in hexadecimal and the print of a duration are the fields of `Digest`.
use certplane.Base.{Option, none, some, List, [], ◌∷◌, Result, ok, err}
use certplane.Base.Int.{ℤ}
use certplane.Base.Text.{Text}
use certplane.Base.Dict.{Dict, lookup, keys}
use certplane.Base.Sort.{sort}
use certplane.Clock.{Duration}
use certplane.Policy.{CompiledAcmeProfile, CompiledProfile, CompiledHost, CompiledPolicy}

pub record ProfileHashInput : Type 0 where
  pub type : Text
  pub dns_names : List Text
  pub acme : CompiledAcmeProfile
  pub renew_before : Text

pub record ProfileHashRecord : Type 0 where
  pub name : Text
  pub hash : Text

pub record HostHashRecord : Type 0 where
  pub name : Text
  pub identity : Text
  pub profiles : List Text

pub record PolicyHashInput : Type 0 where
  pub version : ℤ
  pub profiles : List ProfileHashRecord
  pub hosts : List HostHashRecord

-- The two types that `hashCanonical` is called at.
pub data HashInput : Type 0 where
  profile_input : ProfileHashInput → HashInput
  policy_input : PolicyHashInput → HashInput

pub record Digest : Type 0 where
  pub duration_string : Duration → Text
  pub marshal : HashInput → Option Text
  pub sha256_hex : Text → Text

-- `sortedMapKeys`
unfoldable pub sorted_map_keys {ℓ} : {V : Type ℓ} → Dict V → List Text
sorted_map_keys m = sort (keys m)

pub data HashError : Type 0 where
  marshaling : HashError

module _ (d : Digest) where
  unfoldable pub hash_canonical : HashInput → Result HashError Text
  hash_canonical value = elim (d.marshal value) [
    | none ↦ err marshaling
    | some text ↦ ok (d.sha256_hex text)
  ]

  unfoldable pub profile_hash_input : CompiledProfile → ProfileHashInput
  profile_hash_input p = record {
    type = p.type;
    dns_names = p.dns_names;
    acme = p.acme;
    renew_before = d.duration_string p.renew_before;
  }

  unfoldable pub compute_profile_hash : CompiledProfile → Result HashError Text
  unfolding hash_canonical profile_hash_input
  compute_profile_hash p = hash_canonical (profile_input (profile_hash_input p))

-- The value of a missing key is the zero value.
abbrev pub zero_profile : CompiledProfile
zero_profile = record {
  name = [];
  type = [];
  dns_names = [];
  acme = record { challenge = []; credentials = [] };
  renew_before = ℤ.pos 0;
  hash = [];
}

abbrev pub zero_host : CompiledHost
zero_host = record { name = []; identity = []; profiles = [] }

-- `m[k]`
abbrev pub or_zero {ℓ} : {V : Type ℓ} → V → Option V → V
or_zero zero none = zero
or_zero zero (some v) = v

-- The loops over the sorted names.
profile_records : List Text → Dict CompiledProfile → List ProfileHashRecord
profile_records [] profiles = []
profile_records (name ∷ names) profiles =
    let p = or_zero zero_profile (lookup name profiles) in
    record { name = p.name; hash = p.hash } ∷ profile_records names profiles

host_records : List Text → Dict CompiledHost → List HostHashRecord
host_records [] hosts = []
host_records (name ∷ names) hosts =
    let h = or_zero zero_host (lookup name hosts) in
    record { name = h.name; identity = h.identity; profiles = sort (keys h.profiles) }
    ∷ host_records names hosts

unfoldable pub policy_hash_input : CompiledPolicy → PolicyHashInput
unfolding profile_records host_records sorted_map_keys
policy_hash_input p = record {
  version = p.version;
  profiles = profile_records (sorted_map_keys p.profiles) p.profiles;
  hosts = host_records (sorted_map_keys p.hosts_by_name) p.hosts_by_name;
}

unfoldable pub compute_policy_hash : Digest → CompiledPolicy → Result HashError Text
unfolding policy_hash_input hash_canonical
compute_policy_hash d p = hash_canonical d (policy_input (policy_hash_input p))
