-- ===== src/Base/Sort.antt =====
-- `sort.Strings`, and lists in strictly ascending order. The order is total and antisymmetric, so
-- every sorting algorithm gives the same list; insertion is the one that is written out.
use mathlib.Core.Path.{◌≡◌, refl, sym, ◌∙◌, ap₂}
use mathlib.Core.Logic.{inl, inr}
use mathlib.Core.Bool.{true, false, ◌||◌}
use mathlib.Core.List.{List, [], ◌∷◌, ◌++◌}
use native.Mathlib.Omega.{arith}
use certplane.Base.Tests.{if◌then◌else◌, Bool-cases, Bool-ext}
use certplane.Base.Lists.{All, All-map}
use certplane.Base.Text.{Text, text_eq, text_ltb, elem}
use certplane.Base.Text.Laws.{
  text_eq_iff, text_ltb_irrefl, text_ltb_trans, text_ltb_total, elem_self, elem-append,
}

unfoldable pub insert_text : Text → List Text → List Text
insert_text s [] = s ∷ []
insert_text s (t ∷ ts) =
    let rest = insert_text s ts in if text_ltb t s then t ∷ rest else s ∷ t ∷ ts

-- `sort.Strings`
unfoldable pub sort : List Text → List Text
unfolding insert_text
sort [] = []
sort (s ∷ ts) = insert_text s (sort ts)

abbrev pub Above : Text → List Text → Type 0
Above s = All (λ t. text_ltb s t ≡ true)

abbrev pub IsAscending : List Text → Type 0
IsAscending [] = Unit
IsAscending (s ∷ ts) = Above s ts × IsAscending ts

-- No text stands twice.
abbrev pub IsDistinct : List Text → Type 0
IsDistinct [] = Unit
IsDistinct (s ∷ ts) = (elem s ts ≡ false) × IsDistinct ts

Above-trans : (s t : Text) (ts : List Text) → text_ltb s t ≡ true → Above t ts → Above s ts
Above-trans s t ts h = All-map _ _ ts (λ u. text_ltb_trans s t u h)

elem-insert_text :
    (n s : Text) (ts : List Text) → elem n (insert_text s ts) ≡ (text_eq n s || elem n ts)
unfolding insert_text elem
elem-insert_text n s [] = refl
elem-insert_text n s (t ∷ ts) = ground (arith, elem-insert_text n s ts)

-- Sorting keeps the items.
pub elem-sort : (n : Text) (ts : List Text) → elem n (sort ts) ≡ elem n ts
unfolding sort elem
elem-sort n [] = refl
elem-sort n (t ∷ ts) = ground (arith, elem-insert_text n t (sort ts), elem-sort n ts)

Above-insert_text :
    (a s : Text) (ts : List Text) → text_ltb a s ≡ true → Above a ts → Above a (insert_text s ts)
unfolding insert_text
Above-insert_text a s [] h k = (h, tt)
Above-insert_text a s (t ∷ ts) h (ht, k) = ground (arith, Above-insert_text a s ts h k)

insert_text-IsAscending :
    (s : Text) (ts : List Text)
    → elem s ts ≡ false
    → IsAscending ts
    → IsAscending (insert_text s ts)
unfolding insert_text elem
insert_text-IsAscending s [] h k = (tt, tt)
insert_text-IsAscending s (t ∷ ts) h (above, k) = elim (Bool-cases (text_ltb t s)) [
  | inl e ↦ rw e (Above-insert_text t s ts e above, insert_text-IsAscending s ts (ground arith) k)
  | inr e ↦ elim (Bool-cases (text_ltb s t)) [
    | inl below ↦ rw e ((below, Above-trans s t ts below above), (above, k))
    | inr same ↦ absurd (ground (arith, text_ltb_total s t same e, text_eq_iff s t))
  ]
]

-- Distinct texts are sorted into strictly ascending order.
pub sort-IsAscending : (ts : List Text) → IsDistinct ts → IsAscending (sort ts)
unfolding sort
sort-IsAscending [] h = tt
sort-IsAscending (t ∷ ts) (new, h) =
    insert_text-IsAscending t (sort ts) (rw elem-sort new) (sort-IsAscending ts h)

pub Above-not_elem : (s : Text) (ts : List Text) → Above s ts → elem s ts ≡ false
unfolding elem
Above-not_elem s [] h = refl
Above-not_elem s (t ∷ ts) (ht, h) =
    ground (arith, Above-not_elem s ts h, text_eq_iff s t, text_ltb_irrefl s)

elem-Above : (s n : Text) (ts : List Text) → Above s ts → elem n ts ≡ true → text_ltb s n ≡ true
unfolding elem
elem-Above s n [] h k = cc
elem-Above s n (t ∷ ts) (ht, h) k = ground (arith, elem-Above s n ts h, text_eq_iff n t)

-- Sorting an ascending list changes nothing.
pub sort-IsAscending_id : (ts : List Text) → IsAscending ts → sort ts ≡ ts
unfolding sort
sort-IsAscending_id [] h = refl
sort-IsAscending_id (t ∷ ts) (above, h) = rw (sort-IsAscending_id ts h) (front t ts above)
  where
    front : (s : Text) (us : List Text) → Above s us → insert_text s us ≡ s ∷ us
    front s [] k = refl
    front s (u ∷ us) (ku, k) = ground (arith, text_ltb_irrefl s, text_ltb_trans s u s ku)

-- The head of an ascending list is not above an item of another that has the same items.
head-not-Above :
    (t u : Text) (us : List Text) → Above u us → elem t (u ∷ us) ≡ true → text_ltb t u ≡ false
unfolding elem
head-not-Above t u us above h = elim (Bool-cases (text_eq t u)) [
  | inl e ↦ rw ((text_eq_iff t u).0 e) (text_ltb_irrefl u)
  | inr e ↦
      let below = elem-Above u t us above (rw e at h) in
      ground (arith, text_ltb_trans t u t, text_ltb_irrefl t)
]

elem-tail :
    (n t : Text) (ts us : List Text)
    → Above t ts
    → elem n (t ∷ ts) ≡ elem n (t ∷ us)
    → elem n ts ≡ true
    → elem n us ≡ true
unfolding elem
elem-tail n t ts us above h k = ground (arith, text_eq_iff n t, Above-not_elem t ts above)

-- Two ascending lists with the same items are one list.
pub IsAscending-ext :
    (ts us : List Text)
    → IsAscending ts
    → IsAscending us
    → ((n : Text) → elem n ts ≡ elem n us)
    → ts ≡ us
IsAscending-ext [] [] h k e = refl
IsAscending-ext [] (u ∷ us) h k e = unfold elem in cc (e u, elem_self u us)
IsAscending-ext (t ∷ ts) [] h k e = unfold elem in cc (e t, elem_self t ts)
IsAscending-ext (t ∷ ts) (u ∷ us) (ht, h) (hu, k) e =
    let same : t ≡ u =
      text_ltb_total t u (head-not-Above t u us hu (sym (e t) ∙ elem_self t ts))
        (head-not-Above u t ts ht (e u ∙ elem_self u us)) in
    let e' : (n : Text) → elem n (t ∷ ts) ≡ elem n (t ∷ us) = rw (← same) at e in
    let hu' : Above t us = rw (← same) at hu in
    ap₂ ◌∷◌ same (
      IsAscending-ext ts us h k
        λ n. Bool-ext _ _ (elem-tail n t ts us ht (e' n)) (elem-tail n t us ts hu' (sym (e' n))))

pub IsAscending-IsDistinct : (ts : List Text) → IsAscending ts → IsDistinct ts
IsAscending-IsDistinct [] h = tt
IsAscending-IsDistinct (t ∷ ts) (above, h) =
    (Above-not_elem t ts above, IsAscending-IsDistinct ts h)

-- Texts behind distinct ones that are not among them.
pub IsDistinct-append_one :
    (ts : List Text) (s : Text) → IsDistinct ts → elem s ts ≡ false → IsDistinct (ts ++ (s ∷ []))
unfolding elem
IsDistinct-append_one [] s h k = (refl, tt)
IsDistinct-append_one (t ∷ ts) s (new, h) k = (
  elem-append t ts (s ∷ []) ∙ ground (arith, text_eq_iff s t, text_eq_iff t s),
  IsDistinct-append_one ts s h (ground arith),
)

-- What holds of every member holds of all items.
pub All-of_elem {κ} :
    (P : Text → Type κ) (ts : List Text) → ((n : Text) → elem n ts ≡ true → P n) → All P ts
All-of_elem P [] h = tt
All-of_elem P (t ∷ ts) h =
    (h t (elem_self t ts), All-of_elem P ts (λ n k. h n (unfold elem in ground arith)))
