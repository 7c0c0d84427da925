-- ===== src/Policy/Compile/Hosts.antt =====
-- What a compiled host guarantees: its profiles exist, and no other host has its identity.
use mathlib.Core.Path.{subst}
use certplane.Base.{
  ◌≡◌, refl, inl, inr, true, some, List, [], ◌∷◌, ok, arith, Bool-cases, Option-cases, Result-cases,
  ok-injective,
}
use certplane.Base.Text.{Text, text_eq, is_empty, trim_space}
use certplane.Base.Text.Laws.{text_eq_iff}
use certplane.Base.Dict.{Dict, lookup, insert, lookup-insert, Entries, Entries-insert}
use certplane.Policy.{Host, CompiledProfile, CompiledHost, ProfileSet, contains}
use certplane.Policy.Hash.{or_zero}
use certplane.Policy.Compile.{
  reference_profiles, compile_host, compile_hosts, HostMaps, zero_raw_host, is_known,
}

module _ (profiles : Dict CompiledProfile) where
  -- Every profile of the set is one of the policy.
  abbrev pub Refers : ProfileSet → Type 0
  Refers set =
      (n : Text) → contains set n ≡ true → (p : CompiledProfile) × (lookup n profiles ≡ some p)

  Refers-insert :
      (n : Text) (p : CompiledProfile) (set : ProfileSet)
      → lookup n profiles ≡ some p
      → Refers set
      → Refers (insert n true set)
  unfolding contains
  Refers-insert n p set found old k h = elim (Bool-cases (text_eq n k)) [
    | inl e ↦ (p, rw (← (text_eq_iff n k).0 e) found)
    | inr e ↦ old k (rw e at (rw lookup-insert at h))
  ]

  reference_profiles-Refers :
      (host : Text) (names : List Text) (allowed : ProfileSet) {set : ProfileSet}
      → Refers allowed
      → reference_profiles host names profiles allowed ≡ ok set
      → Refers set
  unfolding reference_profiles
  reference_profiles-Refers host [] allowed r h = subst Refers (ok-injective h) r
  reference_profiles-Refers host (n ∷ names) allowed r h =
      elim (Bool-cases (is_empty (trim_space n))) [
        | inl e ↦ cc (rw e at h)
        | inr e ↦ elim (Option-cases (lookup (trim_space n) profiles)) [
          | inl missing ↦ cc (rw (e, missing, reference_profiles) at h)
          | inr (p, found) ↦
              reference_profiles-Refers host names (insert (trim_space n) true allowed)
                (Refers-insert (trim_space n) p allowed found r)
                (rw (e, found, reference_profiles) at h)
        ]
      ]

  compile_host-Refers :
      (key : Text) (raw : Host) {h : CompiledHost}
      → compile_host key raw profiles ≡ ok h
      → Refers h.profiles
  unfolding compile_host
  compile_host-Refers key raw run =
      elim (Result-cases (reference_profiles (trim_space key) raw.profiles profiles [])) [
        | inr (e, bad) ↦ ground arith
        | inl (set, good) ↦
            subst Refers (ground arith)
              (reference_profiles-Refers (trim_space key) raw.profiles [] none_yet good)
      ]
    where
      none_yet : Refers []
      none_yet n h = unfold contains lookup in cc

  -- A host stands under its identity, and all profiles that it may use exist.
  pub record IsSoundHost (identity : Text) (h : CompiledHost) : Type 0 where
    pub owns : h.identity ≡ identity
    pub refers : Refers h.profiles

  pub compile_hosts_sound :
      (names : List Text) (raw : Dict Host) (maps : HostMaps) {out : HostMaps}
      → Entries IsSoundHost maps.by_identity
      → compile_hosts names raw profiles maps ≡ ok out
      → Entries IsSoundHost out.by_identity
  unfolding compile_hosts
  compile_hosts_sound [] raw maps s h =
      subst (λ (m : HostMaps). Entries IsSoundHost m.by_identity) (ok-injective h) s
  compile_hosts_sound (n ∷ names) raw maps s h =
      elim (Result-cases (compile_host n (or_zero zero_raw_host (lookup n raw)) profiles)) [
        | inr (e, bad) ↦ cc (rw (bad, compile_hosts) at h)
        | inl (host, run) ↦
            let h' = rw (run, compile_hosts) at h in
            elim (Bool-cases (is_known (lookup host.identity maps.by_identity))) [
              | inl twice ↦ cc (rw twice at h')
              | inr new ↦
                  compile_hosts_sound names raw _
                    (Entries-insert IsSoundHost host.identity host maps.by_identity
                      (record { owns = refl; refers = compile_host-Refers n _ run }) s)
                    (rw new at h')
            ]
      ]
