-- ===== src/Policy/Authorize/Decision.antt =====
-- When a request is authorized.
use certplane.Base.{
  ◌≡◌, refl, ap, ◌↔◌, true, Option, none, some, List, [], ◌∷◌, ok, err, arith, length, Bool-cases,
  inl, inr, Result,
}
use certplane.Base.Text.{Text}
use certplane.Base.Text.Laws.{text_eq_iff, text_eq_refl}
use certplane.Base.Dict.{lookup}
use certplane.Dnsname
use certplane.Dnsname.{canonical_list}
use certplane.Pki.{CertificateRequest}
use certplane.Policy.{CompiledPolicy, CompiledProfile, CompiledHost, allows_profile}
use certplane.Policy.Authorize.{
  Decided, same_strings, same_string_set, compare_names, authorize_names, authorize_host, authorize,
}

same_strings_sound :
    (xs ys : List Text) → length xs ≡ length ys → same_strings xs ys ≡ true → xs ≡ ys
unfolding same_strings
same_strings_sound [] [] n h = refl
same_strings_sound [] (y ∷ ys) n h = absurd (omega arith)
same_strings_sound (x ∷ xs) [] n h = cc
same_strings_sound (x ∷ xs) (y ∷ ys) n h =
    ground (arith, text_eq_iff x y, same_strings_sound xs ys (omega arith))

same_strings_refl : (xs : List Text) → same_strings xs xs ≡ true
unfolding same_strings
same_strings_refl [] = refl
same_strings_refl (x ∷ xs) = ground (arith, text_eq_refl x, same_strings_refl xs)

-- Two slices are the same set in the sense of the code exactly when they are one sequence.
pub same_string_set_iff : (xs ys : List Text) → (same_string_set xs ys ≡ true) ↔ (xs ≡ ys)
unfolding same_string_set
same_string_set_iff xs ys = (
  (λ h. ground (arith, same_strings_sound xs ys)),
  (λ e. rw e (ground (arith, same_strings_refl ys))),
)

-- What an accepted request has shown.
pub record IsAllowed (p : CompiledPolicy) (identity name : Text) (csr : CertificateRequest)
    (profile : CompiledProfile) : Type 0 where
  pub host : CompiledHost
  pub known : lookup identity p.hosts_by_identity ≡ some host
  pub allowed : allows_profile host name ≡ true
  pub found : lookup name p.profiles ≡ some profile
  pub exact : canonical_list csr.dns_names ≡ ok profile.dns_names

abbrev pub accepted : CompiledProfile → Decided
accepted profile = record { profile = some profile; error = none }

compare_names-accepted :
    (q pr : CompiledProfile) (r : Result Dnsname.Error (List Text))
    → compare_names q r ≡ accepted pr
    → (q ≡ pr) × (r ≡ ok pr.dns_names)
unfolding compare_names
compare_names-accepted q pr (err e) h = cc
compare_names-accepted q pr (ok names) h = elim (Bool-cases (same_string_set names q.dns_names)) [
  | inl e ↦
      let same : q ≡ pr = ground arith in
      (same, rw (← same) (ap ok ((same_string_set_iff names q.dns_names).0 e)))
  | inr e ↦ cc (rw e at h)
]

authorize_names-accepted :
    (o : Option CompiledProfile) (csr : CertificateRequest) (pr : CompiledProfile)
    → authorize_names o csr ≡ accepted pr
    → (o ≡ some pr) × (canonical_list csr.dns_names ≡ ok pr.dns_names)
unfolding authorize_names
authorize_names-accepted none csr pr h = cc
authorize_names-accepted (some q) csr pr h =
    let (same, exact) = compare_names-accepted q pr _ h in (ap some same, exact)

authorize_host-accepted :
    (o : Option CompiledHost) (p : CompiledPolicy) (name : Text) (csr : CertificateRequest)
    (pr : CompiledProfile)
    → authorize_host o p name csr ≡ accepted pr
    → (host : CompiledHost) × (o ≡ some host)
      × (allows_profile host name ≡ true)
      × (authorize_names (lookup name p.profiles) csr ≡ accepted pr)
unfolding authorize_host
authorize_host-accepted none p name csr pr h = cc
authorize_host-accepted (some host) p name csr pr h = (host, refl, ground arith, ground arith)

authorize_sound :
    (p : CompiledPolicy) (identity name : Text) (csr : CertificateRequest) (pr : CompiledProfile)
    → authorize p identity name (some csr) ≡ accepted pr
    → IsAllowed p identity name csr pr
unfolding authorize
authorize_sound p identity name csr pr h =
    let (host, known, allowed, rest) = authorize_host-accepted _ p name csr pr h in
    let (found, exact) = authorize_names-accepted _ csr pr rest in
    record { host = host; known = known; allowed = allowed; found = found; exact = exact }

authorize_complete :
    (p : CompiledPolicy) (identity name : Text) (csr : CertificateRequest) (pr : CompiledProfile)
    → IsAllowed p identity name csr pr
    → authorize p identity name (some csr) ≡ accepted pr
unfolding authorize
authorize_complete p identity name csr pr a = ground (
  arith,
  a.known,
  a.allowed,
  a.found,
  a.exact,
  (same_string_set_iff pr.dns_names pr.dns_names).1 refl,
)

-- A request is accepted with a profile exactly when the identity is that of a host, the host may use
-- the profile, the policy has it, and the canonical names of the request are the profile's names.
pub authorize_iff :
    (p : CompiledPolicy) (identity name : Text) (csr : CertificateRequest) (pr : CompiledProfile)
    → (authorize p identity name (some csr) ≡ accepted pr) ↔ IsAllowed p identity name csr pr
authorize_iff p identity name csr pr =
    (authorize_sound p identity name csr pr, authorize_complete p identity name csr pr)

-- A decision without an error comes with a profile.
abbrev HasProfile : Decided → Type 0
HasProfile d = d.error ≡ none → (pr : CompiledProfile) × (d ≡ accepted pr)

compare_names-HasProfile :
    (q : CompiledProfile) (r : Result Dnsname.Error (List Text)) → HasProfile (compare_names q r)
unfolding compare_names
compare_names-HasProfile q (err e) = λ h. cc
compare_names-HasProfile q (ok names) = elim (Bool-cases (same_string_set names q.dns_names)) [
  | inl e ↦ rw e (λ h. (q, refl))
  | inr e ↦ rw e (λ h. cc)
]

authorize_names-HasProfile :
    (o : Option CompiledProfile) (csr : CertificateRequest) → HasProfile (authorize_names o csr)
unfolding authorize_names
authorize_names-HasProfile none csr h = cc
authorize_names-HasProfile (some q) csr h = compare_names-HasProfile q _ h

authorize_host-HasProfile :
    (o : Option CompiledHost) (p : CompiledPolicy) (name : Text) (csr : CertificateRequest)
    → HasProfile (authorize_host o p name csr)
unfolding authorize_host
authorize_host-HasProfile none p name csr = λ h. cc
authorize_host-HasProfile (some host) p name csr = elim (Bool-cases (allows_profile host name)) [
  | inl e ↦ rw e (authorize_names-HasProfile _ csr)
  | inr e ↦ rw e (λ h. cc)
]

pub authorize-allows :
    (p : CompiledPolicy) (identity name : Text) (csr : CertificateRequest)
    → (authorize p identity name (some csr)).error ≡ none
    → (pr : CompiledProfile) × (authorize p identity name (some csr) ≡ accepted pr)
      × IsAllowed p identity name csr pr
unfolding authorize
authorize-allows p identity name csr h =
    let (pr, e) = authorize_host-HasProfile _ p name csr h in
    (pr, e, authorize_sound p identity name csr pr e)
