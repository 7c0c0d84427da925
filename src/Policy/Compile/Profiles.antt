-- ===== src/Policy/Compile/Profiles.antt =====
-- What a compiled profile guarantees.
use certplane.Base.{
  ◌≡◌, ◌≢◌, refl, ◌∙◌, ap, ◌⊎◌, inl, inr, true, false, Option, none, some, List, [], ◌∷◌, ok,
  ok-injective, Result-cases, arith, All, Bool-cases,
}
use mathlib.Core.Path.{subst}
use certplane.Clock.{Duration}
use certplane.Base.Int.{pos, negsuc, ltb_ℤ}
use certplane.Base.Text.{Text, codes, text_eq, is_empty, trim_space}
use certplane.Base.Text.Laws.{text_eq_iff}
use certplane.Base.Dict.{Dict, lookup, insert, Entries, Entries-insert}
use certplane.Dnsname.{canonical_list, is_valid_wildcard}
use certplane.Dnsname.Lists.{canonical_list_idem}
use certplane.Policy.{Profile, CompiledProfile, CompiledAcmeProfile}
use certplane.Policy.Hash.{Digest, or_zero}
use certplane.Policy.Compile.{
  ProfileError, find_non_wildcard, find_wildcard, require_dns_01, validate_profile_type,
  compile_profile, compile_profiles, or_default, zero_raw_profile, is_none_left,
}

-- The two types of profiles, and the names that they may have.
abbrev pub HasTypedNames : Text → List Text → Type 0
HasTypedNames type names =
    ((type ≡ codes "wildcard") × All (λ n. is_valid_wildcard n ≡ true) names)
    ⊎ ((type ≡ codes "multi_san") × All (λ n. is_valid_wildcard n ≡ false) names)

pub record IsSoundProfile (key : Text) (p : CompiledProfile) : Type 0 where
  pub named : p.name ≡ trim_space key
  pub nonempty : is_empty p.name ≡ false
  pub typed : HasTypedNames p.type p.dns_names
  pub some_name : p.dns_names ≢ []
  pub canonical_names : canonical_list p.dns_names ≡ ok p.dns_names
  pub challenge : p.acme.challenge ≡ codes "dns-01"
  pub renews : ltb_ℤ (pos 0) p.renew_before ≡ true

find_non_wildcard-none :
    (names : List Text)
    → find_non_wildcard names ≡ none
    → All (λ n. is_valid_wildcard n ≡ true) names
unfolding find_non_wildcard
find_non_wildcard-none [] h = tt
find_non_wildcard-none (n ∷ ns) h = elim (Bool-cases (is_valid_wildcard n)) [
  | inl e ↦ (e, find_non_wildcard-none ns (rw e at h))
  | inr e ↦ cc (rw e at h)
]

find_wildcard-none :
    (names : List Text) → find_wildcard names ≡ none → All (λ n. is_valid_wildcard n ≡ false) names
unfolding find_wildcard
find_wildcard-none [] h = tt
find_wildcard-none (n ∷ ns) h = elim (Bool-cases (is_valid_wildcard n)) [
  | inl e ↦ cc (rw e at h)
  | inr e ↦ (e, find_wildcard-none ns (rw e at h))
]

require_dns_01-ok :
    (o : Option ProfileError) (acme : CompiledAcmeProfile) (wrong : ProfileError)
    → require_dns_01 o acme wrong ≡ ok tt
    → (o ≡ none) × (acme.challenge ≡ codes "dns-01")
unfolding require_dns_01
require_dns_01-ok (some e) acme wrong h = cc
require_dns_01-ok none acme wrong h =
    (refl, (text_eq_iff acme.challenge (codes "dns-01")).0 (ground arith))

validate_profile_type-ok :
    (type : Text) (names : List Text) (acme : CompiledAcmeProfile)
    → validate_profile_type type names acme ≡ ok tt
    → HasTypedNames type names × (acme.challenge ≡ codes "dns-01")
unfolding validate_profile_type
validate_profile_type-ok type names acme h = elim (Bool-cases (is_empty acme.challenge)) [
  | inl e ↦ cc (rw e at h)
  | inr filled ↦ elim (Bool-cases (text_eq type (codes "wildcard"))) [
    | inl e ↦
        let (fine, challenge) =
          require_dns_01-ok (find_non_wildcard names) acme _ (rw (filled, e) at h) in
        (inl ((text_eq_iff type _).0 e, find_non_wildcard-none names fine), challenge)
    | inr other ↦ elim (Bool-cases (text_eq type (codes "multi_san"))) [
      | inl e ↦
          let (fine, challenge) =
            require_dns_01-ok (find_wildcard names) acme _ (rw (filled, other, e) at h) in
          (inr ((text_eq_iff type _).0 e, find_wildcard-none names fine), challenge)
      | inr e ↦ cc (rw (filled, other, e) at h)
    ]
  ]
]

-- What the steps of `compileProfile` have shown when it succeeds.
module _ (d : Digest) where
  record Steps (key : Text) (raw : Profile) (p : CompiledProfile) : Type 0 where
    key_filled : is_empty (trim_space key) ≡ false
    names_run : canonical_list raw.dns_names ≡ ok p.dns_names
    some_name : is_none_left p.dns_names ≡ false
    type_run : validate_profile_type p.type p.dns_names p.acme ≡ ok tt
    not_negative : ltb_ℤ (or_default raw.renew_before) (pos 0) ≡ false
    renew_run : p.renew_before ≡ or_default raw.renew_before
    named : p.name ≡ trim_space key

  steps :
      (key : Text) (raw : Profile) {p : CompiledProfile}
      → compile_profile d key raw ≡ ok p
      → Steps key raw p
  unfolding compile_profile
  steps key raw h = record {
    key_filled = ground arith;
    names_run = ground arith;
    some_name = ground arith;
    type_run = ground arith;
    not_negative = ground arith;
    renew_run = ground arith;
    named = ground arith;
  }

  default_positive :
      (r : Duration) → ltb_ℤ (or_default r) (pos 0) ≡ false → ltb_ℤ (pos 0) (or_default r) ≡ true
  unfolding or_default
  default_positive (pos n) h = ground arith
  default_positive (negsuc n) h = ground arith

  -- A profile that compiles has names that are canonical and of its type, the DNS challenge, and a
  -- positive renewal time.
  pub compile_profile-IsSound :
      (key : Text) (raw : Profile) {p : CompiledProfile}
      → compile_profile d key raw ≡ ok p
      → IsSoundProfile key p
  compile_profile-IsSound key raw {p} h =
      let s = steps key raw h in
      let (typed, challenge) = validate_profile_type-ok p.type p.dns_names p.acme s.type_run in
      record {
        named = s.named;
        nonempty = rw s.named s.key_filled;
        typed = typed;
        some_name = λ e. cc (ap is_none_left e ∙ refl);
        canonical_names = canonical_list_idem raw.dns_names s.names_run;
        challenge = challenge;
        renews = rw s.renew_run (default_positive raw.renew_before s.not_negative);
      }

  abbrev pub SoundProfiles : Dict CompiledProfile → Type 0
  SoundProfiles = Entries IsSoundProfile

  pub compile_profiles_sound :
      (names : List Text) (raw : Dict Profile) (acc : Dict CompiledProfile)
      {ps : Dict CompiledProfile}
      → SoundProfiles acc
      → compile_profiles d names raw acc ≡ ok ps
      → SoundProfiles ps
  unfolding compile_profiles
  compile_profiles_sound [] raw acc {ps} s h = subst SoundProfiles (ok-injective h) s
  compile_profiles_sound (n ∷ names) raw acc s h =
      elim (Result-cases (compile_profile d n (or_zero zero_raw_profile (lookup n raw)))) [
        | inr (e, bad) ↦ cc (rw (bad, compile_profiles) at h)
        | inl (p, run) ↦
            compile_profiles_sound names raw (insert n p acc)
              (Entries-insert IsSoundProfile n p acc (compile_profile-IsSound n _ run) s)
              (rw (run, compile_profiles) at h)
      ]
