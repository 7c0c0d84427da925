-- ===== src/Store/Sqlite/Promise.antt =====
-- The SQLite store keeps the promise of a certificate store, in whole seconds.
use certplane.Base.{
  false, ◌≡◌, refl, sym, ap, ◌∙◌, inl, inr, none, some, Result, ok, ◌>>=◌, arith, All, Bool-cases,
}
use certplane.Clock.{Time, Duration, truncate}
use certplane.Pki.{Bundle}
use certplane.Store.{CertificateCacheKey, StoreError}
use certplane.Store.Contract.{CertificateStore, IsStore, key_eq, key_eq_iff, if_fresh, written}
use certplane.Store.Sqlite.{
  Rfc3339, IsRfc3339, CertificateCacheRow, SqliteStore, row_key, find_row,
  read_certificate_cache_row, upsert, cache_entry, get_valid_certificate, new_row, put_certificate,
}
use certplane.Store.Sqlite.Rows.{
  whole_seconds, Datable, HasCreated, find-upsert_other, find-upsert_same, upsert-HasCreated,
  cache_entry-new_row, parse_required_time-format,
}

abbrev pub sqlite_store : Rfc3339 → CertificateStore
sqlite_store l = record {
  State = SqliteStore;
  get = get_valid_certificate l;
  put = put_certificate l;
}

-- The bundle of a row that was read.
abbrev fresh_row :
    Rfc3339 → Time → Duration → Result StoreError CertificateCacheRow → Result StoreError Bundle
fresh_row l t renew row = row >>= λ r. cache_entry l r >>= λ entry. if_fresh t renew entry.bundle

module _ (l : Rfc3339) (p : IsRfc3339 l) where
  -- The database answers reads, and the times of creation can be read.
  abbrev pub IsReadable : SqliteStore → Type 0
  IsReadable s = (s.read_fails ≡ false) × All (HasCreated l p) s.rows

  get_lem :
      (t : Time) (j : CertificateCacheKey) (renew : Duration) (s : SqliteStore)
      → s.read_fails ≡ false
      → get_valid_certificate l t j renew s ≡ fresh_row l t renew (find_row j s.rows)
  unfolding get_valid_certificate read_certificate_cache_row
  get_lem t j renew s h = rw h refl

  new-HasCreated :
      (now : Time) (k : CertificateCacheKey) (b : Bundle)
      → Datable now b
      → HasCreated l p (new_row l now k b)
  unfolding new_row
  new-HasCreated now k b d = (truncate now, parse_required_time-format l p now d.2)

  row_key-new_row :
      (now : Time) (k : CertificateCacheKey) (b : Bundle) → row_key (new_row l now k b) ≡ k
  unfolding new_row
  row_key-new_row now k b = refl

  put_IsReadable :
      (now : Time) (k : CertificateCacheKey) (b : Bundle) (s : SqliteStore)
      → Datable now b
      → IsReadable s
      → IsReadable (put_certificate l now k b s).1
  unfolding put_certificate
  put_IsReadable now k b s d (r, rows) = elim (Bool-cases s.write_fails) [
    | inl e ↦ rw e (r, rows)
    | inr e ↦
        rw e (r, upsert-HasCreated l p (new_row l now k b) s.rows (new-HasCreated now k b d) rows)
  ]

  -- What is read behind an insertion.
  found :
      (now t : Time) (k j : CertificateCacheKey) (b : Bundle) (renew : Duration) (s : SqliteStore)
      → Datable now b
      → IsReadable s
      → fresh_row l t renew (find_row j (upsert (new_row l now k b) s.rows))
        ≡ written (sqlite_store l) whole_seconds t k j b renew s
  found now t k j b renew s d (r, rows) =
      let row = new_row l now k b in
      elim (Bool-cases (key_eq k j)) [
        | inl e ↦
            let (c, (here, (t', read))) =
              find-upsert_same l p row s.rows (new-HasCreated now k b d) rows in
            let at_j : find_row j (upsert row s.rows) ≡ ok (record row { created_at = c }) =
              ap (λ x. find_row x (upsert row s.rows))
                (sym (row_key-new_row now k b ∙ (key_eq_iff k j).0 e))
              ∙ here in
            rw e (
              ap (fresh_row l t renew) at_j
              ∙ ap (λ x. x >>= λ entry. if_fresh t renew entry.bundle)
                  (cache_entry-new_row l p now k b c t' d read))
        | inr e ↦
            let other : key_eq (row_key row) j ≡ false =
              ap (λ x. key_eq x j) (row_key-new_row now k b) ∙ e in
            rw e (
              ap (fresh_row l t renew) (find-upsert_other row j s.rows other)
              ∙ sym (get_lem t j renew s r))
      ]

  put-rows :
      (now : Time) (k : CertificateCacheKey) (b : Bundle) (s : SqliteStore)
      → s.write_fails ≡ false
      → (put_certificate l now k b s).1 ≡ record s { rows = upsert (new_row l now k b) s.rows }
  unfolding put_certificate
  put-rows now k b s h = ground arith

  get-put_lem :
      (now t : Time) (k j : CertificateCacheKey) (b : Bundle) (renew : Duration) (s : SqliteStore)
      → Datable now b
      → IsReadable s
      → s.write_fails ≡ false
      → get_valid_certificate l t j renew (put_certificate l now k b s).1
        ≡ written (sqlite_store l) whole_seconds t k j b renew s
  get-put_lem now t k j b renew s d v h =
      ap (get_valid_certificate l t j renew) (put-rows now k b s h)
      ∙ get_lem t j renew (record s { rows = upsert (new_row l now k b) s.rows }) v.0
      ∙ found now t k j b renew s d v

  put-none :
      (now : Time) (k : CertificateCacheKey) (b : Bundle) (s : SqliteStore)
      → (put_certificate l now k b s).0 ≡ none
      → s.write_fails ≡ false
  unfolding put_certificate
  put-none now k b s h = ground arith

  put-some :
      (now : Time) (k : CertificateCacheKey) (b : Bundle) (s : SqliteStore) {e : StoreError}
      → (put_certificate l now k b s).0 ≡ some e
      → (put_certificate l now k b s).1 ≡ s
  unfolding put_certificate
  put-some now k b s h = ground arith

  -- The SQLite store is a certificate store that keeps bundles in whole seconds, while the database
  -- answers reads and the times of creation in it can be read, if the layout of the times is as
  -- documented and the times lie before the year 10000: a write that succeeds is found while it is
  -- fresh and changes no other key, and a write that fails has not happened.
  pub sqlite_store-IsStore : IsStore (sqlite_store l) whole_seconds IsReadable Datable
  sqlite_store-IsStore = record {
    put-IsValid = put_IsReadable;
    get-put = λ now t k j b renew s d v hk hj h.
        get-put_lem now t k j b renew s d v (put-none now k b s h);
    get-put_fails = λ now t k j b renew s d v hk hj h.
        inl (ap (λ x. get_valid_certificate l t j renew x) (put-some now k b s h));
  }
