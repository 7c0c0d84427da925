-- ===== src/Store/File/Promise.antt =====
-- The file store keeps the promise of a certificate store.
use certplane.Base.{
  ◌≡◌, refl, sym, ap, ◌∙◌, ◌⊎◌, inl, inr, Option, none, some, ok, if◌then◌else◌, Bool-cases,
  Bool-ext, Result-cases, Option-cases,
}
use certplane.Base.Text.{Text, text_eq}
use certplane.Base.Text.Laws.{text_eq_iff}
use certplane.Base.Dict.{Dict, lookup, insert, lookup-insert}
use certplane.Clock.{Time, Duration}
use certplane.Pki.{Bundle}
use certplane.Store.{CertificateCacheKey, key_string, CacheEntry, StoreError, marshaling, writing}
use certplane.Store.Keys.{IsPlainKey, key_string_inj}
use certplane.Store.Contract.{CertificateStore, IsStore, key_eq, key_eq_iff, written}
use certplane.Store.File.{
  CacheFormat, stored, SaveOutcome, done, before_rename, after_rename, FileStore, load_locked,
  entries_of, write_document, marshaled, save_locked, fresh_entry, new_entry, get_valid_certificate,
  put_certificate,
}

-- What the code relies on: a map that is marshaled is read back as a map with the same entries.
pub record IsCacheFormat (f : CacheFormat) : Type 0 where
  pub read_back :
      (m : Dict CacheEntry) (doc : f.Document)
      → f.marshal m ≡ some doc
      → (m' : Dict CacheEntry) × ((f.unmarshal doc ≡ some m')
          × ((q : Text) → lookup q m' ≡ lookup q m))

abbrev pub file_store : CacheFormat → CertificateStore
file_store f = record {
  State = FileStore f.Document;
  get = get_valid_certificate f;
  put = put_certificate f;
}

abbrev pub same_bundle : Bundle → Bundle
same_bundle b = b

-- The texts of plain keys are equal exactly when the keys are.
text_eq-key_string :
    (k j : CertificateCacheKey)
    → IsPlainKey k
    → IsPlainKey j
    → text_eq (key_string k) (key_string j) ≡ key_eq k j
text_eq-key_string k j hk hj =
    Bool-ext _ _
      (λ h.
        (key_eq_iff k j).1
          (key_string_inj k j hk hj ((text_eq_iff (key_string k) (key_string j)).0 h)))
      (λ h. (text_eq_iff (key_string k) (key_string j)).1 (ap key_string ((key_eq_iff k j).0 h)))

module _ (f : CacheFormat) where
  get_lem :
      (t : Time) (j : CertificateCacheKey) (renew : Duration) (s : FileStore f.Document)
      (m : Dict CacheEntry)
      → load_locked f s.file ≡ ok m
      → get_valid_certificate f t j renew s ≡ fresh_entry t renew (lookup (key_string j) m)
  unfolding get_valid_certificate
  get_lem t j renew s m h = rw h refl

  found :
      (now t : Time) (k j : CertificateCacheKey) (b : Bundle) (renew : Duration)
      (s : FileStore f.Document) (m : Dict CacheEntry)
      → IsPlainKey k
      → IsPlainKey j
      → load_locked f s.file ≡ ok m
      → fresh_entry t renew (
          if text_eq (key_string k) (key_string j)
          then some (new_entry now k b m)
          else lookup (key_string j) m)
        ≡ written (file_store f) same_bundle t k j b renew s
  unfolding fresh_entry new_entry
  found now t k j b renew s m hk hj h =
      rw (text_eq-key_string k j hk hj) (elim (Bool-cases (key_eq k j)) [
        | inl e ↦ rw e refl
        | inr e ↦ rw e (sym (get_lem t j renew s m h))
      ])

  module _ (p : IsCacheFormat f) where
    -- The file with one more entry.
    get-insert :
        (now t : Time) (k j : CertificateCacheKey) (b : Bundle) (renew : Duration)
        (s s' : FileStore f.Document) (m : Dict CacheEntry) (doc : f.Document)
        → IsPlainKey k
        → IsPlainKey j
        → load_locked f s.file ≡ ok m
        → f.marshal (insert (key_string k) (new_entry now k b m) m) ≡ some doc
        → s'.file ≡ stored doc
        → get_valid_certificate f t j renew s' ≡ written (file_store f) same_bundle t k j b renew s
    get-insert now t k j b renew s s' m doc hk hj h d there =
        let (m', (read, same)) =
          p.read_back (insert (key_string k) (new_entry now k b m) m) doc d in
        get_lem t j renew s' m' (ap (load_locked f) there ∙ loaded doc m' read)
        ∙ ap (fresh_entry t renew) (
            same (key_string j)
            ∙ lookup-insert (key_string k) (key_string j) (new_entry now k b m) m)
        ∙ found now t k j b renew s m hk hj h
      where
        loaded :
            (doc : f.Document) (m' : Dict CacheEntry)
            → f.unmarshal doc ≡ some m'
            → load_locked f (stored doc) ≡ ok m'
        loaded doc m' read = unfold load_locked in ap entries_of read

    -- What a write has done, seen through the next read.
    data Outcome (t : Time) (k j : CertificateCacheKey) (b : Bundle) (renew : Duration)
        (s : FileStore f.Document) : Option StoreError × FileStore f.Document → Type 0 where
      succeeded :
          {s' : FileStore f.Document}
          → get_valid_certificate f t j renew s'
            ≡ written (file_store f) same_bundle t k j b renew s
          → Outcome t k j b renew s (none, s')
      failed :
          (e : StoreError) {s' : FileStore f.Document}
          → (get_valid_certificate f t j renew s' ≡ get_valid_certificate f t j renew s)
            ⊎ (get_valid_certificate f t j renew s'
                ≡ written (file_store f) same_bundle t k j b renew s)
          → Outcome t k j b renew s (some e, s')

    write-Outcome :
        (now t : Time) (k j : CertificateCacheKey) (b : Bundle) (renew : Duration)
        (s : FileStore f.Document) (m : Dict CacheEntry) (doc : f.Document)
        → IsPlainKey k
        → IsPlainKey j
        → load_locked f s.file ≡ ok m
        → f.marshal (insert (key_string k) (new_entry now k b m) m) ≡ some doc
        → (o : SaveOutcome) → Outcome t k j b renew s (write_document f o doc s)
    unfolding write_document
    write-Outcome now t k j b renew s m doc hk hj h d done =
        succeeded (get-insert now t k j b renew s _ m doc hk hj h d refl)
    write-Outcome now t k j b renew s m doc hk hj h d before_rename = failed writing (inl refl)
    write-Outcome now t k j b renew s m doc hk hj h d after_rename =
        failed writing (inr (get-insert now t k j b renew s _ m doc hk hj h d refl))

    save-Outcome :
        (now t : Time) (k j : CertificateCacheKey) (b : Bundle) (renew : Duration)
        (s : FileStore f.Document) (m : Dict CacheEntry)
        → IsPlainKey k
        → IsPlainKey j
        → load_locked f s.file ≡ ok m
        → Outcome t k j b renew s (save_locked f (insert (key_string k) (new_entry now k b m) m) s)
    unfolding save_locked marshaled
    save-Outcome now t k j b renew s m hk hj h =
        elim (Option-cases (f.marshal (insert (key_string k) (new_entry now k b m) m))) [
          | inl n ↦ rw n (failed marshaling (inl refl))
          | inr (doc, d) ↦ rw d (write-Outcome now t k j b renew s m doc hk hj h d s.next_save)
        ]

    Outcome-none :
        (t : Time) (k j : CertificateCacheKey) (b : Bundle) (renew : Duration)
        (s : FileStore f.Document) {r : Option StoreError × FileStore f.Document}
        → Outcome t k j b renew s r
        → r.0 ≡ none
        → get_valid_certificate f t j renew r.1 ≡ written (file_store f) same_bundle t k j b renew s
    Outcome-none t k j b renew s (succeeded g) h = g
    Outcome-none t k j b renew s (failed e g) h = cc

    Outcome-some :
        (t : Time) (k j : CertificateCacheKey) (b : Bundle) (renew : Duration)
        (s : FileStore f.Document) {r : Option StoreError × FileStore f.Document} {e : StoreError}
        → Outcome t k j b renew s r
        → r.0 ≡ some e
        → (get_valid_certificate f t j renew r.1 ≡ get_valid_certificate f t j renew s)
          ⊎ (get_valid_certificate f t j renew r.1
              ≡ written (file_store f) same_bundle t k j b renew s)
    Outcome-some t k j b renew s (succeeded g) h = cc
    Outcome-some t k j b renew s (failed e' g) h = g

    put-outcome :
        (now t : Time) (k j : CertificateCacheKey) (b : Bundle) (renew : Duration)
        (s : FileStore f.Document)
        → IsPlainKey k
        → IsPlainKey j
        → Outcome t k j b renew s (put_certificate f now k b s)
    unfolding put_certificate
    put-outcome now t k j b renew s hk hj = elim (Result-cases (load_locked f s.file)) [
      | inr (e, h) ↦ rw h (failed e (inl refl))
      | inl (m, h) ↦ rw h (save-Outcome now t k j b renew s m hk hj h)
    ]

-- Every state of the file store is a good one, and it takes every bundle: one that the encoder refuses
-- is an outcome of the write.
abbrev pub AnyState : {D : Type 0} → FileStore D → Type 0
AnyState s = Unit

abbrev pub AnyBundle : Time → Bundle → Type 0
AnyBundle now b = Unit

-- If JSON reads a map that it has written back with the same entries, the file store is a certificate
-- store: for keys with no NUL in their fields, a write that succeeds is found while it is fresh and
-- changes no other key, and a write that fails has happened whole or has not happened.
pub file_store-IsStore :
    (f : CacheFormat) → IsCacheFormat f → IsStore (file_store f) same_bundle AnyState AnyBundle
file_store-IsStore f p = record {
  put-IsValid = λ now k b s c h. tt;
  get-put = λ now t k j b renew s c v hk hj h.
      Outcome-none f p t k j b renew s (put-outcome f p now t k j b renew s hk hj) h;
  get-put_fails = λ now t k j b renew s c v hk hj h.
      Outcome-some f p t k j b renew s (put-outcome f p now t k j b renew s hk hj) h;
}
