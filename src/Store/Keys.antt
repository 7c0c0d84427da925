-- ===== src/Store/Keys.antt =====
-- Keys whose fields hold no NUL are told apart by their texts.
use certplane.Base.{◌≡◌, refl, sym, ◌∙◌, ap, [], ◌∷◌, All, arith}
use certplane.Base.Text.{Text}
use certplane.Base.Text.Split.{split}
use certplane.Base.Text.Join.{Lacks, split-join}
use certplane.Store.{CertificateCacheKey, fields, key_string}
use certplane.Ratelimit.{profile_key}

-- No field holds a NUL.
abbrev pub IsPlainKey : CertificateCacheKey → Type 0
IsPlainKey k = All (Lacks 0) (fields k)

split-key_string : (k : CertificateCacheKey) → IsPlainKey k → split (key_string k) 0 ≡ fields k
unfolding key_string
split-key_string k (h, hs) = split-join 0 k.identity _ h hs

-- Two keys with no NUL in their fields have one text only if they are one key.
pub key_string_inj :
    (a b : CertificateCacheKey) → IsPlainKey a → IsPlainKey b → key_string a ≡ key_string b → a ≡ b
key_string_inj a b ha hb e =
    let same : fields a ≡ fields b =
      sym (split-key_string a ha) ∙ ap (λ s. split s 0) e ∙ split-key_string b hb in
    ground arith

-- The text of an identity and a profile determines both, if no identity holds a NUL.
pub profile_key_inj :
    (i j p q : Text) → Lacks 0 i → Lacks 0 j → profile_key i p ≡ profile_key j q → (i ≡ j) × (p ≡ q)
unfolding profile_key
profile_key_inj [] [] p q hi hj e = (refl, cc)
profile_key_inj [] (c ∷ j) p q hi (hc, hj) e = ground arith
profile_key_inj (c ∷ i) [] p q (hc, hi) hj e = ground arith
profile_key_inj (c ∷ i) (x ∷ j) p q (hc, hi) (hx, hj) e =
    let (same, rest) = profile_key_inj i j p q hi hj (cc) in (cc, rest)
