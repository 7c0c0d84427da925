-- ===== src/Base/Text/Split.antt =====
-- `strings.Split` and `strings.Join` at one code point.
use Prim.Native.Nat.{ℕ}
use mathlib.Core.Bool.{true, false}
use mathlib.Core.Path.{◌≡◌, refl, sym, ap, subst, ◌∙◌}
use mathlib.Core.Logic.{◌≢◌, inl, inr}
use mathlib.Core.List.{List, [], ◌∷◌, ◌++◌, reverse, reverse-cons, reverse-reverse}
use native.Mathlib.Omega.{arith}
use certplane.Base.Tests.{◌==◌, if◌then◌else◌, Bool-cases, ==_iff}
use certplane.Base.Lists.{All}
use certplane.Base.Text.{Text, is_empty, has_prefix, trim_suffix}

-- A code point put in front of the first part.
abbrev pub put_front : ℕ → List Text → List Text
put_front c [] = (c ∷ []) ∷ []
put_front c (p ∷ ps) = (c ∷ p) ∷ ps

-- `strings.Split`
unfoldable pub split : Text → ℕ → List Text
split [] sep = [] ∷ []
split (c ∷ s) sep = let rest = split s sep in if c == sep then [] ∷ rest else put_front c rest

abbrev pub join_behind : List Text → Text → Text
join_behind [] sep = []
join_behind (p ∷ ps) sep = sep ++ (p ++ join_behind ps sep)

-- `strings.Join`
unfoldable pub join : List Text → Text → Text
join [] sep = []
join (p ∷ ps) sep = p ++ join_behind ps sep

pub split-ne-nil : (s : Text) (sep : ℕ) → split s sep ≢ []
unfolding split
split-ne-nil [] sep = cc
split-ne-nil (c ∷ s) sep =
    elim (split s sep) as (λ r. (if c == sep then [] ∷ r else put_front c r) ≢ []) [
      | [] ↦ ground arith
      | p ∷ ps ↦ ground arith
    ]

put_front-parts :
    (P : ℕ → Type 0) (c : ℕ) (r : List Text) → All (All P) (put_front c r) → P c × All (All P) r
put_front-parts P c [] ((pc, _), _) = (pc, tt)
put_front-parts P c (p ∷ ps) ((pc, hp), h) = (pc, (hp, h))

-- Every code point is the separator or stands in a part.
pub All-split : (P : ℕ → Type 0) (s : Text) (sep : ℕ) → P sep → All (All P) (split s sep) → All P s
unfolding split
All-split P [] sep psep h = tt
All-split P (c ∷ s) sep psep h = elim (Bool-cases (c == sep)) [
  | inl e ↦ (subst P (sym ((==_iff c sep).0 e)) psep, All-split P s sep psep (rw e at h).1)
  | inr e ↦
      let (pc, rest) = put_front-parts P c (split s sep) (rw e at h) in
      (pc, All-split P s sep psep rest)
]

put_front-append :
    (c : ℕ) (ps qs : List Text) → ps ≢ [] → put_front c (ps ++ qs) ≡ put_front c ps ++ qs
put_front-append c [] qs h = absurd (h refl)
put_front-append c (p ∷ ps) qs h = refl

-- A separator at the end leaves an empty last part.
pub split-append_sep : (s : Text) (sep : ℕ) → split (s ++ (sep ∷ [])) sep ≡ split s sep ++ ([] ∷ [])
unfolding split
split-append_sep [] sep = ground arith
split-append_sep (c ∷ s) sep =
    rw (split-append_sep s sep)
      (ground (arith, put_front-append c (split s sep) ([] ∷ []) (split-ne-nil s sep)))

abbrev pub IsFilled : Text → Type 0
IsFilled p = is_empty p ≡ false

last-not-IsFilled : (ps : List Text) → All IsFilled (ps ++ ([] ∷ [])) → ⊥
last-not-IsFilled [] (h, _) = cc
last-not-IsFilled (p ∷ ps) (_, h) = last-not-IsFilled ps h

-- A text whose parts are filled does not end in the separator.
pub trim_suffix-filled :
    (s : Text) (sep : ℕ) → All IsFilled (split s sep) → trim_suffix s (sep ∷ []) ≡ s
unfolding trim_suffix
trim_suffix-filled s sep h = elim (Bool-cases (has_prefix (reverse s) (sep ∷ []))) [
  | inl e ↦ absurd (ends (reverse s) refl e)
  | inr e ↦ rw e (reverse-reverse s)
]
  where
    ends : (r : Text) → reverse s ≡ r → has_prefix r (sep ∷ []) ≡ true → ⊥
    ends [] e k = cc
    ends (d ∷ r) e k =
        let at_end : d ≡ sep = ground arith in
        let shape : s ≡ reverse r ++ (sep ∷ []) =
          sym (reverse-reverse s)
          ∙ ap reverse e
          ∙ reverse-cons d r
          ∙ ap (λ x. reverse r ++ (x ∷ [])) at_end in
        last-not-IsFilled (split (reverse r) sep)
          (rw (split-append_sep (reverse r) sep) at (rw shape at h))
