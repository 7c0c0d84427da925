-- ===== src/Store/Sqlite.antt =====
-- internal/broker/store/sqlite_cache.go and sqlite_values.go: the certificates in a table of SQLite.
-- The table is its rows in their order, of which no two have one key; how the database answers reads
-- and writes is part of the state. The layout RFC 3339 of package time is the record `Rfc3339`.
pub mod Rows
pub mod Promise
use certplane.Base.{
  ◌<◌, ◌*◌, Bool, true, false, ◌≡◌, Option, none, some, List, [], ◌∷◌, Result, ok, err, ◌>>=◌,
  if◌then◌else◌,
}
use certplane.Base.Text.{Text, is_empty, text_ltb}
use certplane.Clock.{Time, Duration, second, truncate, is_zero_time}
use certplane.Pki.{Bundle}
use certplane.Store.{
  CertificateCacheKey, CacheEntry, StoreError, cache_miss, reading, writing, decoding,
}
use certplane.Store.Contract.{key_eq, if_fresh}

-- `t.UTC().Format(time.RFC3339)`, and `time.Parse` with that layout.
pub record Rfc3339 : Type 0 where
  pub format : Time → Text
  pub parse : Text → Option Time

-- January 1 of year 10000: the layout has four digits for a year.
abbrev pub year_10000 : Time
year_10000 = 3_652_059 * 86_400 * second

-- What the code relies on: a time before the year 10000 is printed as a text that is not empty, and
-- read back without the fraction of its second.
pub record IsRfc3339 (l : Rfc3339) : Type 0 where
  pub filled : (t : Time) → t < year_10000 → is_empty (l.format t) ≡ false
  pub parse_format : (t : Time) → t < year_10000 → l.parse (l.format t) ≡ some (truncate t)

-- `certificateCacheRow`
pub record CertificateCacheRow : Type 0 where
  pub identity : Text
  pub profile_name : Text
  pub profile_hash : Text
  pub public_key_sha256 : Text
  pub issuer_name : Text
  pub issuer_directory : Text
  pub issuer_account_key_id : Text
  pub cert_pem : Text
  pub chain_pem : Text
  pub full_chain_pem : Text
  pub leaf_serial_number : Text
  pub not_before : Text
  pub not_after : Text
  pub created_at : Text
  pub updated_at : Text

pub record SqliteStore : Type 0 where
  pub rows : List CertificateCacheRow
  pub read_fails : Bool
  pub write_fails : Bool

abbrev pub row_key : CertificateCacheRow → CertificateCacheKey
row_key r = record {
  identity = r.identity;
  profile_name = r.profile_name;
  profile_hash = r.profile_hash;
  public_key_sha256 = r.public_key_sha256;
  issuer_name = r.issuer_name;
  issuer_directory = r.issuer_directory;
  issuer_account_key_id = r.issuer_account_key_id;
}

-- `SELECT … WHERE … LIMIT 1`, where a row that is missing is a miss.
pub find_row :
    CertificateCacheKey → List CertificateCacheRow → Result StoreError CertificateCacheRow
find_row key [] = err cache_miss
find_row key (r ∷ rs) = if key_eq (row_key r) key then ok r else find_row key rs

unfoldable pub read_certificate_cache_row :
    CertificateCacheKey → SqliteStore → Result StoreError CertificateCacheRow
unfolding find_row
read_certificate_cache_row key s = if s.read_fails then err reading else find_row key s.rows

-- `INSERT … ON CONFLICT … DO UPDATE SET …`: a row of the same key is replaced, all but the time of
-- its creation.
pub upsert : CertificateCacheRow → List CertificateCacheRow → List CertificateCacheRow
upsert r [] = r ∷ []
upsert r (x ∷ xs) =
    if key_eq (row_key x) (row_key r)
    then record r { created_at = x.created_at } ∷ xs
    else x ∷ upsert r xs

-- `ORDER BY updated_at DESC`; rows of one time keep their order here.
insert_latest : CertificateCacheRow → List CertificateCacheRow → List CertificateCacheRow
insert_latest r [] = r ∷ []
insert_latest r (x ∷ xs) =
    if text_ltb r.updated_at x.updated_at then x ∷ insert_latest r xs else r ∷ x ∷ xs

latest_first : List CertificateCacheRow → List CertificateCacheRow
latest_first [] = []
latest_first (r ∷ rs) = insert_latest r (latest_first rs)

-- `nullableTime`, `nullableString` and `stringFromNull`, where `none` is NULL.
unfoldable pub nullable_string : Text → Option Text
nullable_string value = if is_empty value then none else some value

unfoldable pub string_from_null : Option Text → Text
string_from_null none = []
string_from_null (some value) = value

module _ (l : Rfc3339) where
  unfoldable pub nullable_time : Option Time → Option Text
  nullable_time none = none
  nullable_time (some t) = if is_zero_time t then none else some (l.format t)

  parsed_time : Option Time → Result StoreError Time
  parsed_time none = err decoding
  parsed_time (some t) = ok t

  unfoldable pub parse_required_time : Text → Result StoreError Time
  unfolding parsed_time
  parse_required_time value = if is_empty value then err decoding else parsed_time (l.parse value)

  parsed_optional : Option Time → Result StoreError (Option Time)
  parsed_optional none = err decoding
  parsed_optional (some t) = ok (some t)

  unfoldable pub parse_optional_time : Option Text → Result StoreError (Option Time)
  unfolding parsed_optional
  parse_optional_time none = ok none
  parse_optional_time (some value) =
      if is_empty value then ok none else parsed_optional (l.parse value)

  -- `cacheEntry`
  unfoldable pub cache_entry : CertificateCacheRow → Result StoreError CacheEntry
  cache_entry r = do
    not_before ← parse_required_time r.not_before
    not_after ← parse_required_time r.not_after
    created_at ← parse_required_time r.created_at
    updated_at ← parse_required_time r.updated_at
    ok (record {
      key = row_key r;
      bundle = record {
        cert_pem = r.cert_pem;
        chain_pem = r.chain_pem;
        full_chain_pem = r.full_chain_pem;
        leaf_serial_number = r.leaf_serial_number;
        not_before = not_before;
        not_after = not_after;
      };
      created_at = created_at;
      updated_at = updated_at;
    })

  unfoldable pub get_valid_certificate :
      Time → CertificateCacheKey → Duration → SqliteStore → Result StoreError Bundle
  get_valid_certificate now key renew_before s = do
    row ← read_certificate_cache_row key s
    entry ← cache_entry row
    if_fresh now renew_before entry.bundle

  -- The values of the insertion, in the order of the columns.
  pub new_row : Time → CertificateCacheKey → Bundle → CertificateCacheRow
  new_row now key bundle = record {
    identity = key.identity;
    profile_name = key.profile_name;
    profile_hash = key.profile_hash;
    public_key_sha256 = key.public_key_sha256;
    issuer_name = key.issuer_name;
    issuer_directory = key.issuer_directory;
    issuer_account_key_id = key.issuer_account_key_id;
    cert_pem = bundle.cert_pem;
    chain_pem = bundle.chain_pem;
    full_chain_pem = bundle.full_chain_pem;
    leaf_serial_number = bundle.leaf_serial_number;
    not_before = l.format bundle.not_before;
    not_after = l.format bundle.not_after;
    created_at = l.format now;
    updated_at = l.format now;
  }

  unfoldable pub put_certificate :
      Time → CertificateCacheKey → Bundle → SqliteStore → Option StoreError × SqliteStore
  unfolding new_row upsert
  put_certificate now key bundle s =
      if s.write_fails
      then (some writing, s)
      else (none, record s { rows = upsert (new_row now key bundle) s.rows })

  -- The loop over the rows.
  decode_rows : List CertificateCacheRow → Result StoreError (List CacheEntry)
  decode_rows [] = ok []
  decode_rows (r ∷ rs) = do entry ← cache_entry r; entries ← decode_rows rs; ok (entry ∷ entries)

  unfoldable pub list : SqliteStore → Result StoreError (List CacheEntry)
  unfolding decode_rows latest_first insert_latest
  list s = if s.read_fails then err reading else decode_rows (latest_first s.rows)
