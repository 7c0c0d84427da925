-- ===== src/Policy.antt =====
-- internal/broker/policy/types.go: the policy file as it is read and as it is compiled. The children
-- model hash.go (Hash), compile.go (Compile), authorize.go (Authorize) and manager.go (Manager).
pub mod Hash
pub mod Compile
pub mod Authorize
pub mod Manager
use certplane.Base.{ℕ, Bool, true, false, Option, none, some, List, [], ◌∷◌}
use certplane.Base.Int.{ℤ, pos}
use certplane.Base.Text.{Text}
use certplane.Base.Dict.{Dict, lookup, insert, keys}
use certplane.Clock.{Time, Duration}

abbrev pub current_version : ℤ
current_version = pos 1

pub record AcmeProfile : Type 0 where
  pub challenge : Text
  pub credentials : Text

pub record Profile : Type 0 where
  pub type : Text
  pub dns_names : List Text
  pub acme : AcmeProfile
  pub renew_before : Duration

pub record Host : Type 0 where
  pub identity : Text
  pub profiles : List Text

pub record Config : Type 0 where
  pub version : ℤ
  pub profiles : Dict Profile
  pub hosts : Dict Host

pub record CompiledAcmeProfile : Type 0 where
  pub challenge : Text
  pub credentials : Text

pub record CompiledProfile : Type 0 where
  pub name : Text
  pub type : Text
  pub dns_names : List Text
  pub acme : CompiledAcmeProfile
  pub renew_before : Duration
  pub hash : Text

abbrev pub ProfileSet : Type 0
ProfileSet = Dict Bool

-- The value of a missing key is `false`.
abbrev pub or_false : Option Bool → Bool
or_false (some b) = b
or_false none = false

unfoldable pub contains : ProfileSet → Text → Bool
contains s name = or_false (lookup name s)

new_profile_set_from : List Text → ProfileSet → ProfileSet
new_profile_set_from [] set = set
new_profile_set_from (name ∷ names) set = new_profile_set_from names (insert name true set)

unfoldable pub new_profile_set : List Text → ProfileSet
unfolding new_profile_set_from
new_profile_set names = new_profile_set_from names []

-- The keys, in the order in which the map hands them out.
unfoldable pub names : ProfileSet → List Text
names s = keys s

pub record CompiledHost : Type 0 where
  pub name : Text
  pub identity : Text
  pub profiles : ProfileSet

unfoldable pub allows_profile : CompiledHost → Text → Bool
unfolding contains
allows_profile h name = contains h.profiles name

pub record CompiledPolicy : Type 0 where
  pub version : ℤ
  pub profiles : Dict CompiledProfile
  pub hosts_by_name : Dict CompiledHost
  pub hosts_by_identity : Dict CompiledHost
  pub hash : Text
  pub loaded_at : Time
