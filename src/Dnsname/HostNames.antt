-- ===== src/Dnsname/HostNames.antt =====
-- The names that `Canonical` returns, described without its tests: a host name of plain labels, or a
-- wildcard, whose first label is a star.
use mathlib.Core.Path.{subst}
use certplane.Base.{
  ℕ, ◌+◌, ◌≤◌, ◌≡◌, ◌≢◌, refl, sym, ap, ◌∙◌, ◌↔◌, ◌⊎◌, inl, inr, true, false, ◌&&◌, List, [], ◌∷◌,
  ok, arith, All, All-map, length, Bool-cases, ◌==◌, leb,
}
use certplane.Base.Text.{
  Text, codes, is_empty, trim_space, trim_suffix, to_lower, contains_text, has_prefix, has_suffix,
  trim_prefix, behind, count_code,
}
use certplane.Base.Text.Split.{split, put_front, All-split}
use certplane.Dnsname.{normalize, is_valid_wildcard, two_labels, canonical}
use certplane.Dnsname.Names.{IsLabelChar, IsPlain, IsLabel, IsCanonical, canonical_good}

-- A lower-case letter, a digit or a hyphen.
abbrev pub IsLdh : ℕ → Type 0
IsLdh r = ((97 ≤ r) × (r ≤ 122)) ⊎ (((48 ≤ r) × (r ≤ 57)) ⊎ (r ≡ 45))

-- A label of 1 to 63 such characters, with no hyphen at its ends.
pub record IsHostLabel (l : Text) : Type 0 where
  pub filled : l ≢ []
  pub fits : length l ≤ 63
  pub front : has_prefix l (codes "-") ≡ false
  pub back : has_suffix l (codes "-") ≡ false
  pub chars : All IsLdh l

-- Two or more labels; in a wildcard, two or more behind the star.
pub data IsHostName (n : Text) : Type 0 where
  plain : 2 ≤ length (split n b'.') → All IsHostLabel (split n b'.') → IsHostName n
  wildcard :
      (rest : List Text)
      → split n b'.' ≡ codes "*" ∷ rest
      → 2 ≤ length rest
      → All IsHostLabel rest
      → IsHostName n

IsLdh-of_char : (r : ℕ) → IsLabelChar r → IsLdh r
IsLdh-of_char r h = elim (Bool-cases (leb 97 r && leb r 122)) [
  | inl e ↦ inl (ground arith, ground arith)
  | inr e ↦ elim (Bool-cases (leb 48 r && leb r 57)) [
    | inl d ↦ inr (inl (ground arith, ground arith))
    | inr d ↦ inr (inr (ground arith))
  ]
]

char-of_ldh : (r : ℕ) → IsLdh r → IsLabelChar r
char-of_ldh r (inl (a, b)) = ground arith
char-of_ldh r (inr (inl (a, b))) = ground arith
char-of_ldh r (inr (inr e)) = ground arith

-- Not a star.
abbrev IsOther : ℕ → Type 0
IsOther c = (c == b'*') ≡ false

label-IsHostLabel : (l : Text) → IsPlain l → IsHostLabel l
label-IsHostLabel l p = record {
  filled = λ e. absurd (cc (rw e at p.filled));
  fits = p.fits;
  front = p.front;
  back = p.back;
  chars = All-map _ _ l IsLdh-of_char p.chars;
}

filled-text : (l : Text) → l ≢ [] → is_empty l ≡ false
filled-text [] h = absurd (h refl)
filled-text (c ∷ l) h = refl

host-IsPlain : (l : Text) → IsHostLabel l → IsPlain l
host-IsPlain l h = record {
  filled = filled-text l h.filled;
  fits = h.fits;
  front = h.front;
  back = h.back;
  chars = All-map _ _ l char-of_ldh h.chars;
}

-- Labels without a star are plain.
others-plain : (ls : List Text) → All IsLabel ls → All (All IsOther) ls → All IsHostLabel ls
others-plain [] h o = tt
others-plain (l ∷ ls) (inl e, h) (o, os) = absurd (cc (rw e at o).0)
others-plain (l ∷ ls) (inr p, h) (o, os) = (label-IsHostLabel l p, others-plain ls h os)

split-All : (P : ℕ → Type 0) (s : Text) (sep : ℕ) → All P s → All (All P) (split s sep)
unfolding split
split-All P [] sep h = (tt, tt)
split-All P (c ∷ s) sep (pc, h) = elim (Bool-cases (c == sep)) [
  | inl e ↦ rw e (tt, split-All P s sep h)
  | inr e ↦ rw e (put_front-All P c (split s sep) pc (split-All P s sep h))
]
  where
    put_front-All :
        (P : ℕ → Type 0) (c : ℕ) (r : List Text) → P c → All (All P) r → All (All P) (put_front c r)
    put_front-All P c [] pc h = ((pc, tt), tt)
    put_front-All P c (p ∷ ps) pc (hp, h) = ((pc, hp), h)

no_star-others : (n : Text) → contains_text n (codes "*") ≡ false → All IsOther n
unfolding contains_text has_prefix
no_star-others [] h = tt
no_star-others (c ∷ n) h = (ground (arith, h), no_star-others n (ground (arith, h)))

others-no_star : (n : Text) → All IsOther n → contains_text n (codes "*") ≡ false
unfolding contains_text has_prefix
others-no_star [] h = refl
others-no_star (c ∷ n) (o, h) = ground (arith, o, others-no_star n h)

count-others : (n : Text) → count_code n b'*' ≡ 0 → All IsOther n
unfolding count_code
count-others [] h = tt
count-others (c ∷ n) h = elim (Bool-cases (c == b'*')) [
  | inl e ↦ absurd (omega (arith, (rw e at h)))
  | inr e ↦ (e, count-others n (none_of (rw e at h)))
]
  where
    none_of : {k : ℕ} → 0 + k ≡ 0 → k ≡ 0
    none_of h = omega (arith, h)

others-count : (n : Text) → All IsOther n → count_code n b'*' ≡ 0
unfolding count_code
others-count [] h = refl
others-count (c ∷ n) (o, h) = rw (o, others-count n h) refl

host-others : (l : Text) → IsHostLabel l → All IsOther l
host-others l h = All-map _ _ l (λ c k. other c (char-of_ldh c k)) h.chars
  where
    other : (c : ℕ) → IsLabelChar c → IsOther c
    other c h = ground arith

hosts-others : (n : Text) → All IsHostLabel (split n b'.') → All IsOther n
hosts-others n h = All-split IsOther n b'.' refl (All-map _ _ (split n b'.') host-others h)

-- The shape of a valid wildcard: a star, a dot and a name of two labels or more without a star.
wildcard-shape :
    (n : Text)
    → is_valid_wildcard n ≡ true
    → (r : Text) × ((n ≡ b'*' ∷ b'.' ∷ r) × ((count_code r b'*' ≡ 0) × (2 ≤ length (split r b'.'))))
unfolding is_valid_wildcard has_prefix trim_prefix behind count_code
wildcard-shape [] h = absurd (cc h)
wildcard-shape (a ∷ []) h = absurd (ground (arith, h))
wildcard-shape (a ∷ b ∷ r) h =
    let star : a ≡ b'*' = ground (arith, h) in
    let dot : b ≡ b'.' = ground (arith, h) in
    (
      r,
      (
        ap (λ x. x ∷ b ∷ r) star ∙ ap (λ x. b'*' ∷ x ∷ r) dot,
        (ground (arith, h), two-length (split r b'.') (ground (arith, h))),
      ),
    )
  where
    two-length : (ls : List Text) → two_labels ls ≡ true → 2 ≤ length ls
    two-length [] h = absurd (cc h)
    two-length (l ∷ []) h = absurd (cc h)
    two-length (l ∷ m ∷ ls) h = omega arith

split-star : (r : Text) → split (b'*' ∷ b'.' ∷ r) b'.' ≡ codes "*" ∷ split r b'.'
unfolding split
split-star r = refl

good-IsHostName : (n : Text) → IsCanonical n → IsHostName n
good-IsHostName n c = elim (Bool-cases (contains_text n (codes "*"))) [
  | inr e ↦
      plain c.two
        (others-plain (split n b'.') c.labels (split-All IsOther n b'.' (no_star-others n e)))
  | inl e ↦
      let (r, (shape, (none_left, two))) = wildcard-shape n (c.star e) in
      let parts : split n b'.' ≡ codes "*" ∷ split r b'.' =
        ap (λ x. split x b'.') shape ∙ split-star r in
      let labels : All IsLabel (codes "*" ∷ split r b'.') = subst (All IsLabel) parts c.labels in
      wildcard (split r b'.') parts two
        (others-plain (split r b'.') labels.1 (split-All IsOther r b'.' (count-others r none_left)))
]

-- A name whose first label is a star begins with a star and a dot.
star-shape :
    (n : Text) (rest : List Text)
    → split n b'.' ≡ codes "*" ∷ rest
    → 2 ≤ length rest
    → (r : Text) × ((n ≡ b'*' ∷ b'.' ∷ r) × (split r b'.' ≡ rest))
unfolding split
star-shape [] rest h two = absurd (cc h)
star-shape (c ∷ []) rest h two = elim (Bool-cases (c == b'.')) [
  | inl e ↦ absurd (cc (rw e at h))
  | inr e ↦
      let none_left : [] ≡ rest = cc (rw e at h) in
      absurd (omega (arith, two, ap (λ (ls : List Text). length ls) none_left))
]
star-shape (c ∷ d ∷ r) rest h two = elim (Bool-cases (c == b'.')) [
  | inl e ↦ absurd (cc (rw e at h))
  | inr e ↦ elim (Bool-cases (d == b'.')) [
    | inl f ↦
        let k : (c ∷ []) ∷ split r b'.' ≡ codes "*" ∷ rest = rw (e, f) at h in
        let star : c ≡ b'*' = cc k in
        let dot : d ≡ b'.' = ground (arith, f) in
        (r, (ap (λ x. x ∷ d ∷ r) star ∙ ap (λ x. b'*' ∷ x ∷ r) dot, cc k))
    | inr f ↦ absurd (long_label c d (split r b'.') rest (rw (e, f) at h))
  ]
]
  where
    long_label :
        (c d : ℕ) (ls rest : List Text) → put_front c (put_front d ls) ≡ codes "*" ∷ rest → ⊥
    long_label c d [] rest h = absurd (cc h)
    long_label c d (l ∷ ls) rest h = absurd (cc h)

-- A name of good labels is valid as a wildcard when a star and a dot stand before a plain name.
shape-wildcard :
    (r : Text)
    → 2 ≤ length (split r b'.')
    → All IsHostLabel (split r b'.')
    → is_valid_wildcard (b'*' ∷ b'.' ∷ r) ≡ true
unfolding is_valid_wildcard has_prefix trim_prefix behind count_code
shape-wildcard r two h =
    let none_left = others-count r (hosts-others r h) in
    ground (arith, none_left, two-filled (split r b'.') two h)
  where
    two-filled : (ls : List Text) → 2 ≤ length ls → All IsHostLabel ls → two_labels ls ≡ true
    two-filled [] two h = absurd (omega (arith, two))
    two-filled (l ∷ []) two h = absurd (omega (arith, two))
    two-filled (l ∷ m ∷ ls) two (a, (b, h)) =
        ground (arith, filled-text l a.filled, filled-text m b.filled)

labels-of_hosts : (ls : List Text) → All IsHostLabel ls → All IsLabel ls
labels-of_hosts ls h = All-map _ _ ls (λ l k. inr (host-IsPlain l k)) h

host-IsCanonical : (n : Text) → IsHostName n → IsCanonical n
host-IsCanonical n (plain two h) = record {
  labels = labels-of_hosts (split n b'.') h;
  two = two;
  star = λ e. absurd (cc (e, others-no_star n (hosts-others n h)));
}
host-IsCanonical n (wildcard rest parts two h) =
    let (r, (shape, same)) = star-shape n rest parts two in
    let two' : 2 ≤ length (split r b'.') =
      subst (λ (ls : List Text). 2 ≤ length ls) (sym same) two in
    let h' = subst (All IsHostLabel) (sym same) h in
    record {
      labels = subst (All IsLabel) (sym parts) (inl refl, labels-of_hosts rest h);
      two = omega (arith, two, ap (λ (ls : List Text). length ls) parts);
      star = λ e. ap is_valid_wildcard shape ∙ shape-wildcard r two' h';
    }

-- A text is accepted with the result `n` exactly when `n` is the text without white space around it,
-- without a dot at its end, and in lower case; and `n` consists of two or more labels, or of a star and
-- two or more labels: of 1 to 63 lower-case letters, digits and hyphens, with no hyphen at their ends.
pub canonical_iff :
    (s n : Text)
    → (canonical s ≡ ok n)
      ↔ ((to_lower (trim_suffix (trim_space s) (codes ".")) ≡ n) × IsHostName n)
unfolding normalize
canonical_iff s n = (
  (λ h. let (same, good) = (canonical_good s n).0 h in (same, good-IsHostName n good)),
  (λ h. (canonical_good s n).1 (h.0, host-IsCanonical n h.1)),
)
