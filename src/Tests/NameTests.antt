-- ===== src/Tests/NameTests.antt =====
-- internal/dnsname/dnsname_test.go, further runs, and the theorems on names and times at concrete data.
use certplane.Base.{◌≡◌, ◌↔◌, refl, true, none, [], ◌∷◌, ok, err}
use certplane.Base.Text.{
  codes, Text, text_eq, text_ltb, elem, trim_space, trim_suffix, trim_prefix, to_lower,
  contains_any, contains_text, has_prefix, has_suffix, count_code,
}
use certplane.Base.Text.Split.{split}
use certplane.Base.Sort.{sort, IsAscending}
use certplane.Dnsname
use certplane.Dnsname.{canonical, canonical_list, equal_set, normalize}
use certplane.Dnsname.HostNames.{IsHostName, canonical_iff}
use certplane.Dnsname.Lists.{first_error, has_form, canonical_list_iff}
use certplane.Dnsname.Sets.{equal_set_iff}

canonical_run : canonical (codes "API.WHISPER.CL.") ≡ ok (codes "api.whisper.cl")
unfolding canonical text_eq trim_space trim_suffix to_lower contains_any contains_text has_prefix
    has_suffix count_code split
canonical_run = refl

canonical_run_wildcard : canonical (codes " *.whisper.cl") ≡ ok (codes "*.whisper.cl")
unfolding canonical text_eq trim_space trim_suffix trim_prefix to_lower contains_any contains_text
    has_prefix has_suffix count_code split
canonical_run_wildcard = refl

canonical_run_star : canonical (codes "a.*.cl") ≡ err (Dnsname.invalid_wildcard (codes "a.*.cl"))
unfolding canonical text_eq trim_space trim_suffix to_lower contains_any contains_text has_prefix
    has_suffix count_code split
canonical_run_star = refl

-- The Kelvin sign becomes a `k` before the test for ASCII.
canonical_run_kelvin : canonical (0x212A ∷ codes ".example.org") ≡ ok (codes "k.example.org")
unfolding canonical text_eq trim_space trim_suffix to_lower contains_any contains_text has_prefix
    has_suffix count_code split
canonical_run_kelvin = refl

canonical_list_run :
    canonical_list (codes "b.cl" ∷ codes "A.cl." ∷ codes "a.cl" ∷ [])
    ≡ ok (codes "a.cl" ∷ codes "b.cl" ∷ [])
unfolding canonical_list text_eq trim_space trim_suffix to_lower contains_any contains_text
    has_prefix has_suffix count_code split elem sort text_ltb
canonical_list_run = refl

canonical_iff_example : (canonical (codes "API.WHISPER.CL.") ≡ ok (codes "api.whisper.cl")) ↔ (
    (to_lower (trim_suffix (trim_space (codes "API.WHISPER.CL.")) (codes "."))
      ≡ codes "api.whisper.cl")
    × IsHostName (codes "api.whisper.cl"))
canonical_iff_example = canonical_iff (codes "API.WHISPER.CL.") (codes "api.whisper.cl")

canonical_list_iff_example :
    (canonical_list (codes "b.cl" ∷ codes "A.cl." ∷ []) ≡ ok (codes "a.cl" ∷ codes "b.cl" ∷ [])) ↔ (
      (first_error (codes "b.cl" ∷ codes "A.cl." ∷ []) ≡ none)
      × IsAscending (codes "a.cl" ∷ codes "b.cl" ∷ [])
      × ((n : Text)
          → elem n (codes "a.cl" ∷ codes "b.cl" ∷ [])
            ≡ has_form n (codes "b.cl" ∷ codes "A.cl." ∷ [])))
canonical_list_iff_example =
    canonical_list_iff (codes "b.cl" ∷ codes "A.cl." ∷ []) (codes "a.cl" ∷ codes "b.cl" ∷ [])

equal_set_iff_example :
    (equal_set (codes "a.cl" ∷ []) (codes "A.cl." ∷ codes "a.cl" ∷ []) ≡ true) ↔ (
      (first_error (codes "a.cl" ∷ []) ≡ none)
      × (first_error (codes "A.cl." ∷ codes "a.cl" ∷ []) ≡ none)
      × ((n : Text)
          → has_form n (codes "a.cl" ∷ []) ≡ has_form n (codes "A.cl." ∷ codes "a.cl" ∷ [])))
equal_set_iff_example = equal_set_iff (codes "a.cl" ∷ []) (codes "A.cl." ∷ codes "a.cl" ∷ [])
