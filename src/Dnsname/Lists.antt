-- ===== src/Dnsname/Lists.antt =====
-- `CanonicalList` returns the set of the canonical names in ascending order, or the first error.
use certplane.Base.{
  ◌≡◌, ◌↔◌, refl, sym, ◌∙◌, ap, Bool, true, false, ◌||◌, Option, none, some, List, [], ◌∷◌, ◌++◌,
  ok, err, ◌>>=◌, arith, All, Result-cases, Option-cases, Bool-cases, inl, inr,
}
use certplane.Base.Text.{Text, text_eq, elem}
use certplane.Base.Text.Laws.{text_eq_iff, elem-append}
use certplane.Base.Sort.{
  sort, IsAscending, IsDistinct, elem-sort, sort-IsAscending, IsAscending-ext,
  IsDistinct-append_one, All-of_elem,
}
use certplane.Dnsname.{Error, canonical, collect, canonical_list}
use certplane.Dnsname.Names.{canonical_idem}

-- `n` is the canonical form of a name of the list.
unfoldable pub has_form : Text → List Text → Bool
has_form n [] = false
has_form n (s ∷ ss) = elim (canonical s) [ ok m ↦ text_eq n m | err e ↦ false ] || has_form n ss

-- The error of the first name that has no canonical form.
unfoldable pub first_error : List Text → Option Error
first_error [] = none
first_error (s ∷ ss) =
    let rest = first_error ss in elim (canonical s) [ ok m ↦ rest | err e ↦ some e ]

abbrev SameSet : List Text → List Text → Type 0
SameSet ts us = (n : Text) → elem n ts ≡ elem n us

collect-fails :
    (ss seen out : List Text) {e : Error} → first_error ss ≡ some e → collect ss seen out ≡ err e
unfolding collect first_error
collect-fails [] seen out h = cc
collect-fails (s ∷ ss) seen out h = elim (Result-cases (canonical s)) [
  | inr (x, bad) ↦ rw bad (ground arith)
  | inl (c, good) ↦ rw good (collect-fails ss _ _ (rw (good, first_error) at h))
]

-- The loop keeps `seen` and `out` as one set without repetitions, and adds the forms of the names.
abbrev Gathers : List Text → List Text → List Text → Type 0
Gathers ss seen out =
    (us : List Text) × (collect ss seen out ≡ ok us)
    × IsDistinct us
    × ((n : Text) → elem n us ≡ (elem n out || has_form n ss))

-- A form that is in the set already, and one that is put behind it.
old_form :
    (c n : Text) (out us : List Text) (b : Bool)
    → elem c out ≡ true
    → elem n us ≡ (elem n out || b)
    → elem n us ≡ (elem n out || (text_eq n c || b))
old_form c n out us b old h = elim (Bool-cases (text_eq n c)) [
  | inl e ↦
      let o : elem n out ≡ true = ap (λ x. elem x out) ((text_eq_iff n c).0 e) ∙ old in ground arith
  | inr e ↦ rw e h
]

new_form :
    (c n : Text) (out us : List Text) (b : Bool)
    → elem n us ≡ (elem n (out ++ (c ∷ [])) || b)
    → elem n us ≡ (elem n out || (text_eq n c || b))
unfolding elem
new_form c n out us b h = ground (arith, elem-append n out (c ∷ []))

new_seen :
    (c : Text) (seen out : List Text) → SameSet seen out → SameSet (c ∷ seen) (out ++ (c ∷ []))
unfolding elem
new_seen c seen out same n = ground (arith, elem-append n out (c ∷ []), same n)

collect-gives :
    (ss seen out : List Text)
    → first_error ss ≡ none
    → SameSet seen out
    → IsDistinct out
    → Gathers ss seen out
unfolding collect first_error has_form
collect-gives [] seen out fine same h = (out, refl, h, λ n. ground arith)
collect-gives (s ∷ ss) seen out fine same h = elim (Result-cases (canonical s)) [
  | inr (e, bad) ↦ cc (rw (bad, first_error) at fine)
  | inl (c, good) ↦
      let fine' : first_error ss ≡ none = rw (good, first_error) at fine in
      elim (Bool-cases (elem c seen)) [
        | inl old ↦
            let (us, run, distinct, members) = collect-gives ss seen out fine' same h in
            (
              us,
              rw (good, collect) (rw old run),
              distinct,
              λ n.
                  rw (good, has_form)
                    (old_form c n out us (has_form n ss) (sym (same c) ∙ old) (members n)),
            )
        | inr new ↦
            let (us, run, distinct, members) =
              collect-gives ss (c ∷ seen) (out ++ (c ∷ [])) fine' (new_seen c seen out same)
                (IsDistinct-append_one out c h (sym (same c) ∙ new)) in
            (
              us,
              rw (good, collect) (rw new run),
              distinct,
              λ n. rw (good, has_form) (new_form c n out us (has_form n ss) (members n)),
            )
      ]
]

canonical_list_lem :
    (ss : List Text) → canonical_list ss ≡ (collect ss [] [] >>= λ out. ok (sort out))
unfolding canonical_list
canonical_list_lem ss = refl

-- What a list of names with no error gives: the set of their canonical forms, in ascending order.
pub canonical_list-gives :
    (ss : List Text)
    → first_error ss ≡ none
    → (us : List Text) × (canonical_list ss ≡ ok us)
      × IsAscending us
      × ((n : Text) → elem n us ≡ has_form n ss)
canonical_list-gives ss fine =
    let (us, run, distinct, members) = collect-gives ss [] [] fine (λ n. refl) tt in
    (
      sort us,
      canonical_list_lem ss ∙ rw run,
      sort-IsAscending us distinct,
      λ n. elem-sort n us ∙ members n ∙ unfold elem in refl,
    )

pub canonical_list-fails :
    (ss : List Text) {e : Error} → first_error ss ≡ some e → canonical_list ss ≡ err e
canonical_list-fails ss h = canonical_list_lem ss ∙ rw (collect-fails ss [] [] h)

-- `CanonicalList` succeeds with `us` exactly when every name has a canonical form and `us` is the
-- strictly ascending list of these forms.
pub canonical_list_iff :
    (ss us : List Text)
    → (canonical_list ss ≡ ok us)
      ↔ ((first_error ss ≡ none) × IsAscending us × ((n : Text) → elem n us ≡ has_form n ss))
canonical_list_iff ss us = (succeeds, meets)
  where
    Meets : Type 0
    Meets = (first_error ss ≡ none) × IsAscending us × ((n : Text) → elem n us ≡ has_form n ss)

    succeeds : canonical_list ss ≡ ok us → Meets
    succeeds h = elim (Option-cases (first_error ss)) [
      | inl fine ↦
          let (vs, run, ascending, members) = canonical_list-gives ss fine in
          let same : vs ≡ us = cc in (fine, rw same at ascending, rw same at members)
      | inr (e, bad) ↦ cc (canonical_list-fails ss bad)
    ]

    meets : Meets → canonical_list ss ≡ ok us
    meets (fine, ascending, members) =
        let (vs, run, ascending', members') = canonical_list-gives ss fine in
        run ∙ ap ok (IsAscending-ext vs us ascending' ascending (λ n. members' n ∙ sym (members n)))

has_form-canonical : (n : Text) (ss : List Text) → has_form n ss ≡ true → canonical n ≡ ok n
unfolding has_form
has_form-canonical n [] h = cc
has_form-canonical n (s ∷ ss) h = elim (Result-cases (canonical s)) [
  | inr (e, bad) ↦ has_form-canonical n ss (rw (bad, has_form) at h)
  | inl (c, good) ↦ elim (Bool-cases (text_eq n c)) [
    | inl e ↦ canonical_idem s (good ∙ ap ok (sym ((text_eq_iff n c).0 e)))
    | inr e ↦ has_form-canonical n ss (rw e at (rw (good, has_form) at h))
  ]
]

abbrev IsFixed : Text → Type 0
IsFixed n = canonical n ≡ ok n

fixed-no_error : (us : List Text) → All IsFixed us → first_error us ≡ none
unfolding first_error
fixed-no_error [] h = refl
fixed-no_error (u ∷ us) (hu, h) = rw (hu, first_error) (fixed-no_error us h)

fixed-has_form : (n : Text) (us : List Text) → All IsFixed us → elem n us ≡ has_form n us
unfolding has_form elem
fixed-has_form n [] h = refl
fixed-has_form n (u ∷ us) (hu, h) = rw (hu, has_form, fixed-has_form n us h)

-- A canonical list is its own canonical list.
pub canonical_list_idem :
    (ss : List Text) {us : List Text} → canonical_list ss ≡ ok us → canonical_list us ≡ ok us
canonical_list_idem ss {us} h =
    let (fine, ascending, members) = (canonical_list_iff ss us).0 h in
    let fixed = All-of_elem IsFixed us (λ n k. has_form-canonical n ss (sym (members n) ∙ k)) in
    (canonical_list_iff us us).1
      (fixed-no_error us fixed, ascending, λ n. fixed-has_form n us fixed)
