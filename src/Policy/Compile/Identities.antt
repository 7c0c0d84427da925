-- ===== src/Policy/Compile/Identities.antt =====
-- No two hosts of a compiled policy have one identity.
use mathlib.Core.Path.{subst}
use certplane.Base.{
  ◌≡◌, refl, sym, ◌∙◌, ap, inl, inr, false, Option, none, some, List, [], ◌∷◌, ok, Bool-cases,
  Result-cases, ok-injective,
}
use certplane.Base.Text.{Text, text_eq}
use certplane.Base.Text.Laws.{text_eq_iff}
use certplane.Base.Dict.{
  Dict, lookup, insert, lookup-insert, lookup-insert_self, lookup-insert_cases,
}
use certplane.Policy.{Host, CompiledProfile, CompiledHost}
use certplane.Policy.Hash.{or_zero}
use certplane.Policy.Compile.{compile_host, compile_hosts, HostMaps, zero_raw_host, is_known}

-- The two maps hold the same hosts, and a name is determined by the identity of its host.
pub record Agree (maps : HostMaps) : Type 0 where
  pub listed :
      (k : Text) (h : CompiledHost)
      → lookup k maps.by_name ≡ some h
      → lookup h.identity maps.by_identity ≡ some h
  pub apart :
      (j k : Text) (g h : CompiledHost)
      → lookup j maps.by_name ≡ some g
      → lookup k maps.by_name ≡ some h
      → g.identity ≡ h.identity
      → j ≡ k

abbrev add_host : Text → CompiledHost → HostMaps → HostMaps
add_host n host maps = record {
  by_name = insert n host maps.by_name;
  by_identity = insert host.identity host maps.by_identity;
}

not_known : (o : Option CompiledHost) → is_known o ≡ false → o ≡ none
not_known none h = refl
not_known (some x) h = cc

module _ (n : Text) (host : CompiledHost) (maps : HostMaps) (agree : Agree maps)
    (new : lookup host.identity maps.by_identity ≡ none) where
  other_identity :
      (k : Text) (h : CompiledHost)
      → lookup k maps.by_name ≡ some h
      → host.identity ≡ h.identity
      → ⊥
  other_identity k h found same =
      cc (agree.listed k h found, ap (λ i. lookup i maps.by_identity) same)

  add_host-listed :
      (k : Text) (h : CompiledHost)
      → lookup k (insert n host maps.by_name) ≡ some h
      → lookup h.identity (insert host.identity host maps.by_identity) ≡ some h
  add_host-listed k h found = elim (lookup-insert_cases n k host maps.by_name found) [
    | inl (e, same) ↦
        subst
          (λ (g : CompiledHost).
            lookup g.identity (insert host.identity host maps.by_identity) ≡ some g)
          same (lookup-insert_self host.identity host maps.by_identity)
    | inr before ↦ elim (Bool-cases (text_eq host.identity h.identity)) [
      | inl e ↦ absurd (other_identity k h before ((text_eq_iff host.identity h.identity).0 e))
      | inr e ↦ rw lookup-insert (rw e (agree.listed k h before))
    ]
  ]

  add_host-apart :
      (j k : Text) (g h : CompiledHost)
      → lookup j (insert n host maps.by_name) ≡ some g
      → lookup k (insert n host maps.by_name) ≡ some h
      → g.identity ≡ h.identity
      → j ≡ k
  add_host-apart j k g h fj fk same = elim (lookup-insert_cases n j host maps.by_name fj) [
    | inl (ej, gj) ↦ elim (lookup-insert_cases n k host maps.by_name fk) [
      | inl (ek, gk) ↦ cc
      | inr bk ↦ absurd (other_identity k h bk (ap (λ (x : CompiledHost). x.identity) gj ∙ same))
    ]
    | inr bj ↦ elim (lookup-insert_cases n k host maps.by_name fk) [
      | inl (ek, gk) ↦
          absurd (other_identity j g bj (ap (λ (x : CompiledHost). x.identity) gk ∙ sym same))
      | inr bk ↦ agree.apart j k g h bj bk same
    ]
  ]

  add_host-Agree : Agree (add_host n host maps)
  add_host-Agree = record { listed = add_host-listed; apart = add_host-apart }

pub compile_hosts-Agree :
    (names : List Text) (raw : Dict Host) (profiles : Dict CompiledProfile) (maps : HostMaps)
    {out : HostMaps}
    → Agree maps
    → compile_hosts names raw profiles maps ≡ ok out
    → Agree out
unfolding compile_hosts
compile_hosts-Agree [] raw profiles maps s h = subst Agree (ok-injective h) s
compile_hosts-Agree (n ∷ names) raw profiles maps s h =
    elim (Result-cases (compile_host n (or_zero zero_raw_host (lookup n raw)) profiles)) [
      | inr (e, bad) ↦ cc (rw (bad, compile_hosts) at h)
      | inl (host, run) ↦
          let h' = rw (run, compile_hosts) at h in
          elim (Bool-cases (is_known (lookup host.identity maps.by_identity))) [
            | inl twice ↦ cc (rw twice at h')
            | inr new ↦
                compile_hosts-Agree names raw profiles (add_host n host maps)
                  (add_host-Agree n host maps s (not_known _ new)) (rw new at h')
          ]
    ]
