-- ===== src/Ratelimit/Window.antt =====
-- Pruned slices against the full history: what a slice still holds of the last hour.
use certplane.Base.{
  ℕ, ◌+◌, ◌≤◌, ◌≡◌, refl, ◌∙◌, ap, Bool, List, [], ◌∷◌, ◌++◌, arith, length, if◌then◌else◌, ltb,
  inl, inr, Bool-cases,
}
use certplane.Base.Int.{pos, ltb_ℤ}
use certplane.Base.Text.{Text, text_eq}
use certplane.Base.Text.Laws.{text_eq_iff, text_eq_refl}
use certplane.Base.Dict.{Dict, insert, lookup-insert}
use certplane.Clock.{Time, hour, hour_before}
use certplane.Ratelimit.{prune, slice}

-- The times that lie less than an hour before `now`.
abbrev pub is_recent : Time → Time → Bool
is_recent now t = ltb now (t + hour)

abbrev pub within : Time → List Time → ℕ
within now [] = 0
within now (t ∷ ts) = (if is_recent now t then 1 else 0) + within now ts

after_hour_before : (now t : Time) → ltb_ℤ (hour_before now) (pos t) ≡ is_recent now t
after_hour_before now t = ground arith

pub length-prune :
    (now : Time) (ts : List Time) → length (prune ts (hour_before now)) ≡ within now ts
unfolding prune
length-prune now [] = refl
length-prune now (t ∷ ts) = ground (arith, after_hour_before now t, length-prune now ts)

-- Pruning at an earlier time loses nothing that counts later.
pub within-prune :
    (now later : Time) (ts : List Time)
    → now ≤ later
    → within later (prune ts (hour_before now)) ≡ within later ts
unfolding prune
within-prune now later [] h = refl
within-prune now later (t ∷ ts) h =
    ground (arith, after_hour_before now t, within-prune now later ts)

pub within-append :
    (now : Time) (ts us : List Time) → within now (ts ++ us) ≡ within now ts + within now us
within-append now [] us = omega arith
within-append now (t ∷ ts) us = omega (arith, within-append now ts us)

-- The slices count, from a time on, what the histories count.
abbrev pub Tracks : Dict (List Time) → (Text → List Time) → Time → Type 0
Tracks m history last =
    (k : Text) (now : Time) → last ≤ now → within now (slice m k) ≡ within now (history k)

-- A history with one more time under one key.
abbrev pub extend : (Text → List Time) → Text → Time → Text → List Time
extend history k t j = if text_eq k j then t ∷ history j else history j

pub slice-insert :
    (k j : Text) (ts : List Time) (m : Dict (List Time))
    → slice (insert k ts m) j ≡ (if text_eq k j then ts else slice m j)
slice-insert k j ts m = elim (Bool-cases (text_eq k j)) [
  | inl e ↦ rw (lookup-insert, e)
  | inr e ↦ rw (lookup-insert, e)
]

-- Pruning a slice keeps the count from the present on.
pub Tracks-prune :
    (m : Dict (List Time)) (history : Text → List Time) (last now : Time) (k : Text)
    → Tracks m history last
    → last ≤ now
    → Tracks (insert k (prune (slice m k) (hour_before now)) m) history now
Tracks-prune m history last now k tracks later j t h = elim (Bool-cases (text_eq k j)) [
  | inl e ↦ rw slice-insert (
      rw e (
        within-prune now t (slice m k) h
        ∙ tracks k t (omega arith)
        ∙ ap (λ i. within t (history i)) ((text_eq_iff k j).0 e)))
  | inr e ↦ rw slice-insert (rw e (tracks j t (omega arith)))
]

-- Appending the present to a slice counts it.
pub Tracks-append :
    (m : Dict (List Time)) (history : Text → List Time) (now : Time) (k : Text)
    → Tracks m history now
    → Tracks (insert k (slice m k ++ (now ∷ [])) m) (extend history k now) now
Tracks-append m history now k tracks j t h = elim (Bool-cases (text_eq k j)) [
  | inl e ↦
      let same = ap (λ i. within t (history i)) ((text_eq_iff k j).0 e) in
      rw slice-insert
        (rw e (within-append t (slice m k) (now ∷ []) ∙ omega (arith, tracks k t h, same)))
  | inr e ↦ rw slice-insert (rw e (tracks j t h))
]

-- The length of a pruned slice is the number of recent times of the history.
pub length-pruned :
    (m : Dict (List Time)) (history : Text → List Time) (last now : Time) (k : Text)
    → Tracks m history last
    → last ≤ now
    → length (slice (insert k (prune (slice m k) (hour_before now)) m) k) ≡ within now (history k)
length-pruned m history last now k tracks later =
    rw slice-insert (rw text_eq_refl (length-prune now (slice m k) ∙ tracks k now later))
