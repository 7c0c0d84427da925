-- ===== src/Base/Dict.antt =====
-- `map[string]V` as an association list in which a write replaces the entry of its key.
use mathlib.Core.Path.{◌≡◌, refl, subst₂}
use mathlib.Core.Logic.{◌⊎◌, inl, inr}
use mathlib.Core.Bool.{true, false}
use mathlib.Core.List.{List, [], ◌∷◌}
use mathlib.Core.Option.{Option, none, some}
use native.Mathlib.Omega.{arith}
use certplane.Base.Tests.{if◌then◌else◌, Bool-cases}
use certplane.Base.Text.{Text, text_eq, elem}
use certplane.Base.Text.Laws.{text_eq_iff, text_eq_refl}

abbrev pub Dict {ℓ} : Type ℓ → Type ℓ
Dict V = List (Text × V)

module _ {ℓ} {V : Type ℓ} where
  -- `v, ok := m[k]`
  unfoldable pub lookup : Text → Dict V → Option V
  lookup k [] = none
  lookup k ((j, v) ∷ m) = if text_eq j k then some v else lookup k m

  -- `m[k] = v`
  unfoldable pub insert : Text → V → Dict V → Dict V
  insert k v [] = (k, v) ∷ []
  insert k v ((j, w) ∷ m) = if text_eq j k then (k, v) ∷ m else (j, w) ∷ insert k v m

  -- `delete(m, k)`
  unfoldable pub delete : Text → Dict V → Dict V
  delete k [] = []
  delete k ((j, w) ∷ m) = let rest = delete k m in if text_eq j k then rest else (j, w) ∷ rest

  -- The keys, in the order of the entries.
  unfoldable pub keys : Dict V → List Text
  keys [] = []
  keys ((j, w) ∷ m) = j ∷ keys m

  pub lookup-insert :
      (k j : Text) (v : V) (m : Dict V)
      → lookup j (insert k v m) ≡ (if text_eq k j then some v else lookup j m)
  unfolding lookup insert
  lookup-insert k j v [] = refl
  lookup-insert k j v ((i, w) ∷ m) =
      ground (arith, text_eq_iff k j, text_eq_iff i k, text_eq_iff i j, lookup-insert k j v m)

  pub lookup-insert_self : (k : Text) (v : V) (m : Dict V) → lookup k (insert k v m) ≡ some v
  lookup-insert_self k v m = simp (lookup-insert, text_eq_refl)

  pub lookup-delete_self : (k : Text) (m : Dict V) → lookup k (delete k m) ≡ none
  unfolding lookup delete
  lookup-delete_self k [] = refl
  lookup-delete_self k ((j, w) ∷ m) = ground (arith, lookup-delete_self k m)

  pub lookup-delete_other :
      (k j : Text) (m : Dict V) → text_eq k j ≡ false → lookup j (delete k m) ≡ lookup j m
  unfolding lookup delete
  lookup-delete_other k j [] h = refl
  lookup-delete_other k j ((i, w) ∷ m) h =
      ground (arith, text_eq_iff k j, text_eq_iff i k, text_eq_iff i j, lookup-delete_other k j m h)

  pub elem-keys : (k : Text) (m : Dict V) {v : V} → lookup k m ≡ some v → elem k (keys m) ≡ true
  unfolding lookup keys elem
  elem-keys k [] h = cc
  elem-keys k ((j, w) ∷ m) {v} h =
      ground (arith, elem-keys k m {v = v}, text_eq_iff j k, text_eq_iff k j)

  pub lookup-insert_cases :
      (k j : Text) (v : V) (m : Dict V) {w : V}
      → lookup j (insert k v m) ≡ some w
      → ((k ≡ j) × (v ≡ w)) ⊎ (lookup j m ≡ some w)
  lookup-insert_cases k j v m h = elim (Bool-cases (text_eq k j)) [
    | inl e ↦ inl ((text_eq_iff k j).0 e, cc (rw e at (rw lookup-insert at h)))
    | inr e ↦ inr (rw e at (rw lookup-insert at h))
  ]

-- A property of all entries.
abbrev pub Entries {ℓ κ} : {V : Type ℓ} → (Text → V → Type κ) → Dict V → Type (ℓ ⊔ κ)
Entries {V} P m = (k : Text) (v : V) → lookup k m ≡ some v → P k v

pub Entries-nil {ℓ κ} : {V : Type ℓ} (P : Text → V → Type κ) → Entries P []
unfolding lookup
Entries-nil P k v h = cc

pub Entries-insert {ℓ κ} :
    {V : Type ℓ} (P : Text → V → Type κ) (k : Text) (v : V) (m : Dict V)
    → P k v
    → Entries P m
    → Entries P (insert k v m)
Entries-insert P k v m new old j w h = elim (lookup-insert_cases k j v m h) [
  | inl (same, found) ↦ subst₂ P same found new
  | inr before ↦ old j w before
]
