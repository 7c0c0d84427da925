-- ===== src/Policy/Authorize.antt =====
-- internal/broker/policy/authorize.go: may an identity have a certificate of a profile for the names
-- of a signing request? The profile can come back beside an error.
pub mod Decision
use certplane.Base.{
  ℕ, Bool, true, false, not, Option, none, some, List, [], ◌∷◌, ◌&&◌, Result, ok, err,
  if◌then◌else◌, ◌==◌, length,
}
use certplane.Base.Text.{Text, text_eq}
use certplane.Base.Dict.{lookup}
use certplane.Dnsname
use certplane.Dnsname.{canonical_list}
use certplane.Pki.{CertificateRequest}
use certplane.Policy.{CompiledPolicy, CompiledProfile, CompiledHost, allows_profile}

-- The sentinel errors of the package; `invalid_csr` wraps the reason, if there is one.
pub data AuthorizeError : Type 0 where
  unknown_identity unknown_profile profile_not_allowed csr_names_mismatch : AuthorizeError
  invalid_csr : Option Dnsname.Error → AuthorizeError

-- The two results of `Authorize`.
pub record Decided : Type 0 where
  pub profile : Option CompiledProfile
  pub error : Option AuthorizeError

abbrev pub denied : AuthorizeError → Decided
denied e = record { profile = none; error = some e }

-- The loop that compares two slices of one length.
same_strings : List Text → List Text → Bool
same_strings [] ys = true
same_strings (x ∷ xs) [] = false
same_strings (x ∷ xs) (y ∷ ys) = text_eq x y && same_strings xs ys

unfoldable pub same_string_set : List Text → List Text → Bool
unfolding same_strings
same_string_set a b = if not (length a == length b) then false else same_strings a b

-- The last step, with the canonical names of the request or their error.
compare_names : CompiledProfile → Result Dnsname.Error (List Text) → Decided
compare_names profile (err e) = record {
  profile = some profile;
  error = some (invalid_csr (some e));
}
compare_names profile (ok csr_names) =
    if not (same_string_set csr_names profile.dns_names)
    then record { profile = some profile; error = some csr_names_mismatch }
    else record { profile = some profile; error = none }

authorize_names : Option CompiledProfile → CertificateRequest → Decided
authorize_names none csr = denied unknown_profile
authorize_names (some profile) csr = compare_names profile (canonical_list csr.dns_names)

authorize_host : Option CompiledHost → CompiledPolicy → Text → CertificateRequest → Decided
authorize_host none p profile_name csr = denied unknown_identity
authorize_host (some host) p profile_name csr =
    if not (allows_profile host profile_name)
    then denied profile_not_allowed
    else authorize_names (lookup profile_name p.profiles) csr

unfoldable pub authorize : CompiledPolicy → Text → Text → Option CertificateRequest → Decided
unfolding authorize_host authorize_names compare_names
authorize p identity profile_name none = denied (invalid_csr none)
authorize p identity profile_name (some csr) =
    authorize_host (lookup identity p.hosts_by_identity) p profile_name csr
