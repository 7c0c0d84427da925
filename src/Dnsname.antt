-- ===== src/Dnsname.antt =====
-- internal/dnsname/dnsname.go: canonical DNS names, sorted lists of them, and the comparison of two
-- lists as sets. The children prove what a canonical name is (Names), that canonical lists are
-- normal forms (Lists) and what the comparison decides (Sets).
pub mod Names
pub mod HostNames
pub mod Lists
pub mod Sets
use certplane.Base.{
  ℕ, Bool, true, false, not, ◌&&◌, ◌||◌, Option, none, some, List, [], ◌∷◌, ◌++◌, Result, ok, err,
  ◌>>=◌, ltb, leb, ◌==◌, if◌then◌else◌, length,
}
use certplane.Base.Text.{
  Text, codes, text_eq, is_empty, trim_space, trim_suffix, trim_prefix, to_lower, contains_any,
  contains_text, has_prefix, has_suffix, has_code, count_code, elem,
}
use certplane.Base.Text.Split.{split}
use certplane.Base.Sort.{sort}

pub data Error : Type 0 where
  empty_name : Error
  whitespace empty_label not_ascii invalid_wildcard too_few_labels : Text → Error
  label_too_long label_hyphen : Text → Error
  invalid_character : Text → ℕ → Error

-- `len(labels) >= 2 && labels[0] != "" && labels[1] != ""`
abbrev two_labels : List Text → Bool
two_labels (a ∷ b ∷ rest) = not (is_empty a) && not (is_empty b)
two_labels _ = false

unfoldable pub is_valid_wildcard : Text → Bool
is_valid_wildcard name =
    if not (has_prefix name (codes "*."))
    then false
    else if not (count_code name b'*' == 1)
    then false
    else two_labels (split (trim_prefix name (codes "*.")) b'.')

-- The characters that a label may hold.
abbrev pub is_label_char : ℕ → Bool
is_label_char r = (leb b'a' r && leb r b'z') || (leb b'0' r && leb r b'9') || r == b'-'

-- The loop over the runes of a label.
check_runes : Text → Text → Option Error
check_runes label [] = none
check_runes label (r ∷ rs) =
    let rest = check_runes label rs in
    if is_label_char r then rest else some (invalid_character label r)

-- The body of the loop over the labels.
check_label : Text → Text → Option Error
check_label name label =
    if is_empty label
    then some (empty_label name)
    else if ltb 63 (length label)
    then some (label_too_long label)
    else if text_eq label (codes "*")
    then none
    else if has_prefix label (codes "-") || has_suffix label (codes "-")
    then some (label_hyphen label)
    else check_runes label label

check_labels : Text → List Text → Option Error
check_labels name [] = none
check_labels name (label ∷ labels) =
    let rest = check_labels name labels in
    elim (check_label name label) [ some e ↦ some e | none ↦ rest ]

-- `for _, r := range name { if r > 127 … }`
is_ascii : Text → Bool
is_ascii [] = true
is_ascii (r ∷ rs) = leb r 127 && is_ascii rs

-- The first three statements: white space, one dot at the end, and capitals are taken away.
unfoldable pub normalize : Text → Text
normalize name = to_lower (trim_suffix (trim_space name) (codes "."))

-- The tests that follow.
check_name : Text → Result Error Text
check_name name =
    if is_empty name
    then err empty_name
    else if contains_any name (codes " \t\n\r")
    then err (whitespace name)
    else if contains_text name (codes "..")
    then err (empty_label name)
    else if not (is_ascii name)
    then err (not_ascii name)
    else if contains_text name (codes "*") && not (is_valid_wildcard name)
    then err (invalid_wildcard name)
    else if ltb (length (split name b'.')) 2
    then err (too_few_labels name)
    else elim (check_labels name (split name b'.')) [ some e ↦ err e | none ↦ ok name ]

unfoldable pub canonical : Text → Result Error Text
unfolding normalize check_name check_labels check_label check_runes is_ascii is_valid_wildcard
canonical name = check_name (normalize name)

-- The loop of `CanonicalList`, over the names that are left, the set `seen` and the slice `out`.
collect : List Text → List Text → List Text → Result Error (List Text)
collect [] seen out = ok out
collect (name ∷ names) seen out = do
  c ← canonical name
  collect names (if elem c seen then seen else c ∷ seen)
      (if elem c seen then out else out ++ c ∷ [])

unfoldable pub canonical_list : List Text → Result Error (List Text)
unfolding collect canonical
canonical_list names = do out ← collect names [] []; ok (sort out)

-- The loop that compares two slices of one length index by index.
unfoldable pub same_items : List Text → List Text → Bool
same_items [] [] = true
same_items (a ∷ xs) (b ∷ ys) = text_eq a b && same_items xs ys
same_items _ _ = false

abbrev equal_canonical : Result Error (List Text) → Result Error (List Text) → Bool
equal_canonical (ok ca) (ok cb) = if not (length ca == length cb) then false else same_items ca cb
equal_canonical _ _ = false

unfoldable pub equal_set : List Text → List Text → Bool
unfolding canonical_list same_items
equal_set a b = equal_canonical (canonical_list a) (canonical_list b)
