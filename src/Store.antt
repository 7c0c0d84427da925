-- ===== src/Store.antt =====
-- internal/broker/store: the key of a cached certificate (cache.go), what a certificate store
-- promises to the broker (Contract), and the two stores that keep the promise: a JSON
-- file (File) and a table of SQLite (Sqlite).
pub mod Keys
pub mod Contract
pub mod File
pub mod Json
pub mod Sqlite
pub mod Events
pub mod Migrations
use certplane.Base.{Bool, ◌&&◌, List, [], ◌∷◌}
use certplane.Base.Text.{Text, text_eq}
use certplane.Base.Text.Split.{join}
use certplane.Pki.{Bundle}
use certplane.Clock.{Time}

pub record CertificateCacheKey : Type 0 where
  pub identity : Text
  pub profile_name : Text
  pub profile_hash : Text
  pub public_key_sha256 : Text
  pub issuer_name : Text
  pub issuer_directory : Text
  pub issuer_account_key_id : Text

abbrev pub fields : CertificateCacheKey → List Text
fields k =
    k.identity ∷ k.profile_name ∷ k.profile_hash ∷ k.public_key_sha256 ∷ k.issuer_name
    ∷ k.issuer_directory ∷ k.issuer_account_key_id ∷ []

-- `CertificateCacheKey.String`: the fields, with NUL between them.
unfoldable pub key_string : CertificateCacheKey → Text
key_string k = join (fields k) (0 ∷ [])

pub record CacheEntry : Type 0 where
  pub key : CertificateCacheKey
  pub bundle : Bundle
  pub created_at : Time
  pub updated_at : Time

-- `ErrCacheMiss`, and the failures of the file system, the encoders and the database.
pub data StoreError : Type 0 where
  cache_miss nil_bundle : StoreError
  reading parsing marshaling writing decoding : StoreError
