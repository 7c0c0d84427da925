-- ===== src/Base/Text/Join.antt =====
-- Splitting a join gives the parts back.
use Prim.Native.Nat.{ℕ}
use mathlib.Core.Path.{◌≡◌, refl, ap, ◌∙◌}
use mathlib.Core.Bool.{false}
use mathlib.Core.List.{List, [], ◌∷◌, ◌++◌, append-nil}
use native.Mathlib.Omega.{arith}
use certplane.Base.Tests.{◌==◌}
use certplane.Base.Lists.{All}
use certplane.Base.Text.{Text}
use certplane.Base.Text.Split.{split, put_front, join, join_behind}

abbrev pub Lacks : ℕ → Text → Type 0
Lacks sep = All (λ c. (c == sep) ≡ false)

abbrev put_all : Text → List Text → List Text
put_all [] ps = ps
put_all (c ∷ s) ps = put_front c (put_all s ps)

put_all-cons : (s p : Text) (ps : List Text) → put_all s (p ∷ ps) ≡ (s ++ p) ∷ ps
put_all-cons [] p ps = refl
put_all-cons (c ∷ s) p ps = rw (put_all-cons s p ps)

split-append : (sep : ℕ) (s t : Text) → Lacks sep s → split (s ++ t) sep ≡ put_all s (split t sep)
unfolding split
split-append sep [] t h = refl
split-append sep (c ∷ s) t (hc, h) = rw hc (ap (put_front c) (split-append sep s t h))

split-sep : (sep : ℕ) (t : Text) → split (sep ∷ t) sep ≡ [] ∷ split t sep
unfolding split
split-sep sep t = ground arith

split-join_behind :
    (sep : ℕ) (p : Text) (ps : List Text)
    → Lacks sep p
    → All (Lacks sep) ps
    → split (p ++ join_behind ps (sep ∷ [])) sep ≡ p ∷ ps
split-join_behind sep p [] hp h =
    split-append sep p [] hp ∙ unfold split in (put_all-cons p [] [] ∙ rw append-nil)
split-join_behind sep p (q ∷ qs) hp (hq, h) =
    split-append sep p _ hp
    ∙ ap (put_all p) (split-sep sep _ ∙ ap (λ r. [] ∷ r) (split-join_behind sep q qs hq h))
    ∙ put_all-cons p [] (q ∷ qs)
    ∙ rw append-nil

pub split-join :
    (sep : ℕ) (p : Text) (ps : List Text)
    → Lacks sep p
    → All (Lacks sep) ps
    → split (join (p ∷ ps) (sep ∷ [])) sep ≡ p ∷ ps
split-join sep p ps hp h = unfold join in split-join_behind sep p ps hp h
