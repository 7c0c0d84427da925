-- ===== src/Tests/StoreTests.antt =====
-- internal/broker/store/cache_test.go, internal/broker/audit/recorder_test.go: runs, and the theorems
-- on keys and logs at concrete data.
use certplane.Base.{◌≡◌, refl, arith, [], false}
use certplane.Base.Text.{Text, codes}
use certplane.Base.Text.Join.{Lacks}
use certplane.Audit.Recorders.{LogFile, file_record}
use certplane.Store.{CertificateCacheKey}
use certplane.Store.Keys.{IsPlainKey}
use certplane.Store.Contract.{IsStore}
use certplane.Store.Sqlite.Rows.{whole_seconds, Datable}
use certplane.Store.Sqlite.Promise.{sqlite_store, IsReadable, sqlite_store-IsStore}
use certplane.Tests.Data.{agent, web, event, layout, layout-IsRfc3339}

abbrev key : Text → CertificateCacheKey
key hash = record {
  identity = agent;
  profile_name = web;
  profile_hash = hash;
  public_key_sha256 = codes "key";
  issuer_name = codes "acme";
  issuer_directory = codes "directory";
  issuer_account_key_id = [];
}

key-IsPlainKey : IsPlainKey (key (codes "h1"))
key-IsPlainKey = ground arith

agent-Lacks : Lacks 0 agent
agent-Lacks = ground arith

abbrev log : LogFile
log = record {
  lines = [];
  mkdir_fails = false;
  open_fails = false;
  encode_fails = false;
  sync_fails = false;
  close_fails = false;
}

record_run : (file_record event log).0 ≡ []
unfolding file_record
record_run = refl

sqlite_store-IsStore_example :
    IsStore (sqlite_store layout) whole_seconds (IsReadable layout layout-IsRfc3339) Datable
sqlite_store-IsStore_example = sqlite_store-IsStore layout layout-IsRfc3339
