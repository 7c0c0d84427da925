-- ===== src/Dnsname/Sets.antt =====
-- `EqualSet` compares the sets of the canonical names.
use certplane.Base.{
  ◌≡◌, refl, sym, ◌∙◌, ap, ◌↔◌, true, none, List, [], ◌∷◌, ok, err, arith, ap, Result,
}
use certplane.Base.Text.{Text}
use certplane.Base.Text.Laws.{text_eq_iff, text_eq_refl}
use certplane.Dnsname.{Error, canonical_list, same_items, equal_canonical, equal_set}
use certplane.Dnsname.Lists.{has_form, first_error, canonical_list_iff, canonical_list-gives}

same_items_sound : (xs ys : List Text) → same_items xs ys ≡ true → xs ≡ ys
unfolding same_items
same_items_sound [] [] h = refl
same_items_sound [] (b ∷ ys) h = cc
same_items_sound (a ∷ xs) [] h = cc
same_items_sound (a ∷ xs) (b ∷ ys) h = ground (arith, text_eq_iff a b, same_items_sound xs ys)

same_items_refl : (xs : List Text) → same_items xs xs ≡ true
unfolding same_items
same_items_refl [] = refl
same_items_refl (x ∷ xs) = ground (arith, text_eq_refl x, same_items_refl xs)

equal_set_lem :
    (a b : List Text) → equal_set a b ≡ equal_canonical (canonical_list a) (canonical_list b)
unfolding equal_set
equal_set_lem a b = refl

-- The two results are one list.
equal_canonical_sound :
    (ra rb : Result Error (List Text))
    → equal_canonical ra rb ≡ true
    → (us : List Text) × (ra ≡ ok us) × (rb ≡ ok us)
equal_canonical_sound (ok xs) (ok ys) h =
    (xs, refl, ap ok (sym (same_items_sound xs ys (ground arith))))
equal_canonical_sound (ok xs) (err e) h = cc
equal_canonical_sound (err e) rb h = cc

equal_canonical_refl : (us : List Text) → equal_canonical (ok us) (ok us) ≡ true
equal_canonical_refl us = ground (arith, same_items_refl us)

-- The comparison decides whether all names of both lists have canonical forms and the forms are
-- the same: order and repetitions do not count.
pub equal_set_iff :
    (a b : List Text)
    → (equal_set a b ≡ true) ↔ (
        (first_error a ≡ none)
        × (first_error b ≡ none)
        × ((n : Text) → has_form n a ≡ has_form n b))
equal_set_iff a b = (
  (λ h.
      let (us, ra, rb) = equal_canonical_sound _ _ (sym (equal_set_lem a b) ∙ h) in
      let (fine_a, _, members_a) = (canonical_list_iff a us).0 ra in
      let (fine_b, _, members_b) = (canonical_list_iff b us).0 rb in
      (fine_a, fine_b, λ n. sym (members_a n) ∙ members_b n)),
  (λ (fine_a, fine_b, same).
      let (us, ra, ascending, members) = canonical_list-gives a fine_a in
      let rb = (canonical_list_iff b us).1 (fine_b, ascending, λ n. members n ∙ same n) in
      equal_set_lem a b ∙ rw (ra, rb) (equal_canonical_refl us)),
)
