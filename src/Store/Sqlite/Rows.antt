-- ===== src/Store/Sqlite/Rows.antt =====
-- Rows that are found behind an insertion, and what they are decoded to.
use certplane.Base.{
  ◌<◌, false, ◌≡◌, refl, ap, ◌∙◌, inl, inr, List, [], ◌∷◌, ok, All, if◌then◌else◌, Bool-cases,
}
use certplane.Base.Text.{Text}
use certplane.Clock.{Time, truncate}
use certplane.Pki.{Bundle}
use certplane.Store.{CertificateCacheKey}
use certplane.Store.Contract.{key_eq, key_eq_iff}
use certplane.Store.Sqlite.{
  year_10000, Rfc3339, IsRfc3339, CertificateCacheRow, row_key, find_row, upsert, parsed_time,
  parse_required_time, cache_entry, new_row,
}

-- The times of a bundle without the fractions of their seconds.
abbrev pub whole_seconds : Bundle → Bundle
whole_seconds b = record b { not_before = truncate b.not_before; not_after = truncate b.not_after }

find_row-skip :
    (x : CertificateCacheRow) (xs : List CertificateCacheRow) (k : CertificateCacheKey)
    → key_eq (row_key x) k ≡ false
    → find_row k (x ∷ xs) ≡ find_row k xs
unfolding find_row
find_row-skip x xs k e = rw e refl

pub find-upsert_other :
    (r : CertificateCacheRow) (j : CertificateCacheKey) (rows : List CertificateCacheRow)
    → key_eq (row_key r) j ≡ false
    → find_row j (upsert r rows) ≡ find_row j rows
unfolding find_row upsert
find-upsert_other r j [] h = rw h refl
find-upsert_other r j (x ∷ xs) h = elim (Bool-cases (key_eq (row_key x) (row_key r))) [
  | inl e ↦
      let other : key_eq (row_key x) j ≡ false =
        ap (λ k. key_eq k j) ((key_eq_iff (row_key x) (row_key r)).0 e) ∙ h in
      rw (e, h, other) refl
  | inr e ↦ rw e (ap (λ z. if key_eq (row_key x) j then ok x else z) (find-upsert_other r j xs h))
]

-- The times that a write prints lie before the year 10000.
abbrev pub Datable : Time → Bundle → Type 0
Datable now b = (b.not_before < year_10000) × (b.not_after < year_10000) × (now < year_10000)

module _ (l : Rfc3339) (p : IsRfc3339 l) where
  -- The time of creation can be read.
  abbrev pub HasCreated : CertificateCacheRow → Type 0
  HasCreated r = (t : Time) × (parse_required_time l r.created_at ≡ ok t)

  pub parse_required_time-format :
      (t : Time) → t < year_10000 → parse_required_time l (l.format t) ≡ ok (truncate t)
  unfolding parse_required_time parsed_time
  parse_required_time-format t h = rw (p.filled t h) (rw (p.parse_format t h) refl)

  pub find-upsert_same :
      (r : CertificateCacheRow) (rows : List CertificateCacheRow)
      → HasCreated r
      → All HasCreated rows
      → (c : Text) × ((find_row (row_key r) (upsert r rows) ≡ ok (record r { created_at = c }))
          × ((t : Time) × (parse_required_time l c ≡ ok t)))
  unfolding find_row upsert
  find-upsert_same r [] new old =
      (r.created_at, (rw ((key_eq_iff (row_key r) (row_key r)).1 refl) refl, new))
  find-upsert_same r (x ∷ xs) new (hx, hs) = elim (Bool-cases (key_eq (row_key x) (row_key r))) [
    | inl e ↦ (x.created_at, (rw (e, (key_eq_iff (row_key r) (row_key r)).1 refl) refl, hx))
    | inr e ↦
        let (c, (found, read)) = find-upsert_same r xs new hs in
        (c, (rw e (find_row-skip x _ (row_key r) e ∙ found), read))
  ]

  pub upsert-HasCreated :
      (r : CertificateCacheRow) (rows : List CertificateCacheRow)
      → HasCreated r
      → All HasCreated rows
      → All HasCreated (upsert r rows)
  unfolding upsert
  upsert-HasCreated r [] new old = (new, tt)
  upsert-HasCreated r (x ∷ xs) new (hx, hs) = elim (Bool-cases (key_eq (row_key x) (row_key r))) [
    | inl e ↦ rw e (hx, hs)
    | inr e ↦ rw e (hx, upsert-HasCreated r xs new hs)
  ]

  -- A row that was written is decoded to the bundle in whole seconds.
  pub cache_entry-new_row :
      (now : Time) (k : CertificateCacheKey) (b : Bundle) (c : Text) (t : Time)
      → Datable now b
      → parse_required_time l c ≡ ok t
      → cache_entry l (record (new_row l now k b) { created_at = c })
        ≡ ok (record {
          key = k;
          bundle = whole_seconds b;
          created_at = t;
          updated_at = truncate now;
        })
  unfolding cache_entry new_row
  cache_entry-new_row now k b c t (before, after, written) h =
      rw
        (
          parse_required_time-format b.not_before before,
          parse_required_time-format b.not_after after,
          h,
          parse_required_time-format now written,
        )
        refl
