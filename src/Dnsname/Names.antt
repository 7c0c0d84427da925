-- ===== src/Dnsname/Names.antt =====
-- What `Canonical` returns: names that pass the tests of the code, label by label. HostNames says the same
-- without them.
use certplane.Base.{
  ℕ, ◌≤◌, ◌≡◌, refl, ◌∙◌, ap, sym, ◌↔◌, ◌⊎◌, inl, inr, Bool, true, false, not, ◌&&◌, ◌||◌, none,
  List, [], ◌∷◌, ok, arith, All, All-map, length, Bool-cases, Option-cases, ltb, ◌==◌,
}
use certplane.Base.Text.{
  Text, codes, text_eq, is_empty, is_space, lower, to_lower, has_code, contains_any, contains_text,
  has_prefix, has_suffix,
}
use certplane.Base.Text.Laws.{trim_space-IsSolid, text_eq_iff}
use certplane.Base.Text.Split.{split, put_front, All-split, IsFilled, trim_suffix-filled}
use certplane.Dnsname.{
  is_label_char, check_runes, check_label, check_labels, is_ascii, normalize, check_name,
  is_valid_wildcard, canonical,
}

abbrev pub IsLabelChar : ℕ → Type 0
IsLabelChar r = is_label_char r ≡ true

-- A label that is no wildcard.
pub record IsPlain (l : Text) : Type 0 where
  pub filled : is_empty l ≡ false
  pub fits : length l ≤ 63
  pub front : has_prefix l (codes "-") ≡ false
  pub back : has_suffix l (codes "-") ≡ false
  pub chars : All IsLabelChar l

abbrev pub IsLabel : Text → Type 0
IsLabel l = (l ≡ codes "*") ⊎ IsPlain l

pub record IsCanonical (n : Text) : Type 0 where
  pub labels : All IsLabel (split n b'.')
  pub two : 2 ≤ length (split n b'.')
  pub star : contains_text n (codes "*") ≡ true → is_valid_wildcard n ≡ true

check_runes-eq-none : (l rs : Text) → check_runes l rs ≡ none → All IsLabelChar rs
unfolding check_runes
check_runes-eq-none l [] h = tt
check_runes-eq-none l (r ∷ rs) h = elim (Bool-cases (is_label_char r)) [
  | inl e ↦ (e, check_runes-eq-none l rs (rw e at h))
  | inr e ↦ cc (rw e at h)
]

check_runes-of_chars : (l rs : Text) → All IsLabelChar rs → check_runes l rs ≡ none
unfolding check_runes
check_runes-of_chars l [] h = refl
check_runes-of_chars l (r ∷ rs) (e, h) = rw e (check_runes-of_chars l rs h)

check_label-eq-none : (n l : Text) → check_label n l ≡ none → IsLabel l
unfolding check_label
check_label-eq-none n l h = elim (Bool-cases (text_eq l (codes "*"))) [
  | inl e ↦ inl ((text_eq_iff l (codes "*")).0 e)
  | inr e ↦ inr (record {
    filled = ground arith;
    fits = ground arith;
    front = ground arith;
    back = ground arith;
    chars = check_runes-eq-none l l (ground arith);
  })
]

check_label-IsLabel : (n l : Text) → IsLabel l → check_label n l ≡ none
unfolding check_label text_eq
check_label-IsLabel n l (inl e) = rw e
check_label-IsLabel n l (inr p) = ground (arith, check_runes-of_chars l l p.chars)

check_labels-eq-none : (n : Text) (ls : List Text) → check_labels n ls ≡ none → All IsLabel ls
unfolding check_labels
check_labels-eq-none n [] h = tt
check_labels-eq-none n (l ∷ ls) h = elim (Option-cases (check_label n l)) [
  | inl e ↦ (check_label-eq-none n l e, check_labels-eq-none n ls (rw (e, check_labels) at h))
  | inr (x, e) ↦ cc (rw (e, check_labels) at h)
]

check_labels-IsLabel : (n : Text) (ls : List Text) → All IsLabel ls → check_labels n ls ≡ none
unfolding check_labels
check_labels-IsLabel n [] h = refl
check_labels-IsLabel n (l ∷ ls) (hl, h) =
    rw (check_label-IsLabel n l hl, check_labels) (check_labels-IsLabel n ls h)

-- A canonical name is made of these.
abbrev is_name_char : ℕ → Bool
is_name_char c = is_label_char c || c == b'.' || c == b'*'

IsLabel-chars : (l : Text) → IsLabel l → All (λ c. is_name_char c ≡ true) l
IsLabel-chars l (inl e) = rw e (refl, tt)
IsLabel-chars l (inr p) = All-map _ _ l (λ c h. ground arith) p.chars

IsLabel-IsFilled : (l : Text) → IsLabel l → IsFilled l
IsLabel-IsFilled l (inl e) = rw e
IsLabel-IsFilled l (inr p) = p.filled

name_chars : (n : Text) → All IsLabel (split n b'.') → All (λ c. is_name_char c ≡ true) n
name_chars n h = All-split _ n b'.' refl (All-map _ _ (split n b'.') IsLabel-chars h)

char-not_space : (c : ℕ) → is_name_char c ≡ true → is_space c ≡ false
unfolding is_space
char-not_space c h = ground arith

char-lower : (c : ℕ) → is_name_char c ≡ true → lower c ≡ c
unfolding lower
char-lower c h = ground arith

map-lower : (n : Text) → All (λ c. is_name_char c ≡ true) n → to_lower n ≡ n
unfolding to_lower
map-lower [] h = refl
map-lower (c ∷ n) (hc, h) = cc (char-lower c hc, map-lower n h)

-- A name with good labels is left alone by the normalization.
normalize-labels : (n : Text) → All IsLabel (split n b'.') → normalize n ≡ n
unfolding normalize
normalize-labels n h = rw (trim_space-IsSolid n (All-map _ _ n char-not_space (name_chars n h))) (
    rw (trim_suffix-filled n b'.' (All-map _ _ (split n b'.') IsLabel-IsFilled h))
      (map-lower n (name_chars n h)))

-- What the tests of the code are worth on a name with good labels.
chars-is_ascii : (n : Text) → All (λ c. is_name_char c ≡ true) n → is_ascii n ≡ true
unfolding is_ascii
chars-is_ascii [] h = refl
chars-is_ascii (c ∷ n) (hc, h) = ground (arith, chars-is_ascii n h)

chars-no_blank :
    (n : Text) → All (λ c. is_name_char c ≡ true) n → contains_any n (codes " \t\n\r") ≡ false
unfolding contains_any has_code
chars-no_blank [] h = refl
chars-no_blank (c ∷ n) (hc, h) = ground (arith, chars-no_blank n h)

abbrev TailFilled : List Text → Type 0
TailFilled [] = Unit
TailFilled (p ∷ ps) = All IsFilled ps

TailFilled-put_front : (c : ℕ) (ps : List Text) → TailFilled (put_front c ps) → TailFilled ps
TailFilled-put_front c [] h = tt
TailFilled-put_front c (p ∷ ps) h = h

All-TailFilled : (ps : List Text) → All IsFilled ps → TailFilled ps
All-TailFilled [] h = tt
All-TailFilled (p ∷ ps) (_, h) = h

-- A text whose parts are filled does not begin with the separator.
filled-front : (n : Text) → All IsFilled (split n b'.') → has_prefix n (codes ".") ≡ false
unfolding split has_prefix
filled-front [] h = refl
filled-front (c ∷ n) h = elim (Bool-cases (c == b'.')) [ inl e ↦ cc (rw e at h).0 | inr e ↦ rw e ]

filled-no_dots : (n : Text) → TailFilled (split n b'.') → contains_text n (codes "..") ≡ false
unfolding split contains_text has_prefix
filled-no_dots [] h = refl
filled-no_dots (c ∷ n) h = elim (Bool-cases (c == b'.')) [
  | inl e ↦
      let k : All IsFilled (split n b'.') = rw e at h in
      rw e (ground (arith, filled-front n k, filled-no_dots n (All-TailFilled _ k)))
  | inr e ↦ rw e (filled-no_dots n (TailFilled-put_front c _ (rw e at h)))
]

check_name-tests :
    (n : Text) {m : Text}
    → check_name n ≡ ok m
    → (m ≡ n)
      × (check_labels n (split n b'.') ≡ none)
      × (ltb (length (split n b'.')) 2 ≡ false)
      × ((contains_text n (codes "*") && not (is_valid_wildcard n)) ≡ false)
unfolding check_name
check_name-tests n h = ground arith

-- The tests return the name that they are given, or an error.
check_name-eq-ok : (n : Text) {m : Text} → check_name n ≡ ok m → (m ≡ n) × IsCanonical n
check_name-eq-ok n h =
    let (same, labels, two, star) = check_name-tests n h in
    (
      same,
      record {
        labels = check_labels-eq-none n (split n b'.') labels;
        two = ground arith;
        star = λ starred. ground arith;
      },
    )

two-not_empty : (n : Text) → 2 ≤ length (split n b'.') → is_empty n ≡ false
unfolding split
two-not_empty [] h = absurd (omega arith)
two-not_empty (c ∷ n) h = refl

check_name-IsCanonical : (n : Text) → IsCanonical n → check_name n ≡ ok n
unfolding check_name
check_name-IsCanonical n c =
    let chars = name_chars n c.labels in
    let filled = All-map _ _ (split n b'.') IsLabel-IsFilled c.labels in
    ground (
      arith,
      two-not_empty n c.two,
      chars-no_blank n chars,
      filled-no_dots n (All-TailFilled _ filled),
      chars-is_ascii n chars,
      check_labels-IsLabel n (split n b'.') c.labels,
      c.star,
    )

canonical_lem : (s : Text) → canonical s ≡ check_name (normalize s)
unfolding canonical
canonical_lem s = refl

-- A name is accepted with the result `n` exactly when its normalization is `n`, and `n` is a
-- sequence of two or more good labels in which a star stands only as a valid wildcard.
pub canonical_good : (s n : Text) → (canonical s ≡ ok n) ↔ ((normalize s ≡ n) × IsCanonical n)
canonical_good s n = (
  (λ h.
      let (same, good) = check_name-eq-ok (normalize s) (sym (canonical_lem s) ∙ h) in
      (sym same, rw same good)),
  (λ h. canonical_lem s ∙ ap check_name h.0 ∙ check_name-IsCanonical n h.1),
)

-- A canonical name is its own canonical form.
pub canonical_idem : (s : Text) {n : Text} → canonical s ≡ ok n → canonical n ≡ ok n
canonical_idem s {n} h =
    let good = ((canonical_good s n).0 h).1 in
    (canonical_good n n).1 (normalize-labels n good.labels, good)
