-- ===== src/Store/File.antt =====
-- internal/broker/store/cache.go: the certificates in one JSON file, a map from the texts of the
-- keys. The mutex makes the operations a sequence. The document in the file, and how the next
-- atomic write will end, are part of the state; JSON is the record `CacheFormat`.
pub mod Promise
use certplane.Base.{
  Bool, true, false, Option, none, some, List, [], ◌∷◌, Result, ok, err, ◌>>=◌, if◌then◌else◌, ◌-◌,
  ltb, length, drop, ◌&&◌, ◌==◌, ◌++◌, map,
}
use certplane.Base.Int.{ℤ, pos, ltb_ℤ, leb_ℤ, pos_part}
use certplane.Base.Text.{Text}
use certplane.Base.Dict.{Dict, lookup, insert}
use certplane.Clock.{Time, Duration, is_zero_time}
use certplane.Pki.{Bundle}
use certplane.Audit.Recorders.{LogFile, Recorder, RecordError, opening, syncing}
use certplane.Store.{
  CertificateCacheKey, key_string, CacheEntry, StoreError, cache_miss, reading, parsing, marshaling,
  writing,
}
use certplane.Store.Contract.{if_fresh}

-- `json.MarshalIndent` and `json.Unmarshal` at the map of the entries, with the documents they work on.
pub record CacheFormat : Type 1 where
  pub Document : Type 0
  pub marshal : Dict CacheEntry → Option Document
  pub unmarshal : Document → Option (Dict CacheEntry)

-- The file at `path`: absent, unreadable, or a document.
pub data CacheFile (D : Type 0) : Type 0 where
  absent unreadable : CacheFile D
  stored : D → CacheFile D

-- How a write ends: done, failed before the rename, or failed in the synchronisation of the directory
-- behind the rename.
pub data SaveOutcome : Type 0 where
  done before_rename after_rename : SaveOutcome

pub record FileStore (D : Type 0) : Type 0 where
  pub file : CacheFile D
  pub next_save : SaveOutcome

-- The creation time of an entry; that of a missing entry is the zero time.
abbrev created : Option CacheEntry → Time
created none = 0
created (some entry) = entry.created_at

new_entry : Time → CertificateCacheKey → Bundle → Dict CacheEntry → CacheEntry
new_entry now key bundle entries =
    let created_at = created (lookup (key_string key) entries) in
    record {
      key = key;
      bundle = bundle;
      created_at = if is_zero_time created_at then now else created_at;
      updated_at = now;
    }

fresh_entry : Time → Duration → Option CacheEntry → Result StoreError Bundle
fresh_entry now renew_before none = err cache_miss
fresh_entry now renew_before (some entry) = if_fresh now renew_before entry.bundle

-- The entries, in the order in which the map hands them out.
values : Dict CacheEntry → List CacheEntry
values [] = []
values ((k, entry) ∷ entries) = entry ∷ values entries

-- The JSON `null` gives the map that is nil, for which an empty one is put.
abbrev entries_of : Option (Dict CacheEntry) → Result StoreError (Dict CacheEntry)
entries_of none = err parsing
entries_of (some entries) = ok entries

module _ (f : CacheFormat) where
  unfoldable pub load_locked : CacheFile f.Document → Result StoreError (Dict CacheEntry)
  load_locked absent = ok []
  load_locked unreadable = err reading
  load_locked (stored doc) = entries_of (f.unmarshal doc)

  -- `WriteFileAtomic` of the document.
  write_document :
      SaveOutcome → f.Document → FileStore f.Document → Option StoreError × FileStore f.Document
  write_document done doc s = (none, record s { file = stored doc })
  write_document before_rename doc s = (some writing, s)
  write_document after_rename doc s = (some writing, record s { file = stored doc })

  marshaled : Option f.Document → FileStore f.Document → Option StoreError × FileStore f.Document
  unfolding write_document
  marshaled none s = (some marshaling, s)
  marshaled (some doc) s = write_document s.next_save doc s

  unfoldable pub save_locked :
      Dict CacheEntry → FileStore f.Document → Option StoreError × FileStore f.Document
  unfolding marshaled
  save_locked entries s = marshaled (f.marshal entries) s

  unfoldable pub get_valid_certificate :
      Time → CertificateCacheKey → Duration → FileStore f.Document → Result StoreError Bundle
  unfolding load_locked fresh_entry
  get_valid_certificate now key renew_before s = do
    entries ← load_locked s.file
    fresh_entry now renew_before (lookup (key_string key) entries)

  put_entries :
      Time
      → CertificateCacheKey
      → Bundle
      → Result StoreError (Dict CacheEntry)
      → FileStore f.Document
      → Option StoreError × FileStore f.Document
  put_entries now key bundle (err e) s = (some e, s)
  put_entries now key bundle (ok entries) s =
      save_locked (insert (key_string key) (new_entry now key bundle entries) entries) s

  unfoldable pub put_certificate :
      Time
      → CertificateCacheKey
      → Bundle
      → FileStore f.Document
      → Option StoreError × FileStore f.Document
  unfolding put_entries new_entry load_locked save_locked
  put_certificate now key bundle s = put_entries now key bundle (load_locked s.file) s

  unfoldable pub list : FileStore f.Document → Result StoreError (List CacheEntry)
  unfolding load_locked values
  list s = do entries ← load_locked s.file; ok (values entries)

-- `FileStore.Record` appends to the log beside the cache. The error of the deferred close is lost.
unfoldable pub file_store_record : Recorder LogFile
file_store_record event f =
    if f.open_fails
    then (opening ∷ [], f)
    else if f.encode_fails
    then (RecordError.writing ∷ [], f)
    else (if f.sync_fails then syncing ∷ [] else [], record f { lines = f.lines ++ (event ∷ []) })

-- The audit log as a file of lines: it is missing, cannot be opened, fails while it is scanned (also
-- at a line that is too long for the scanner), or is read.
pub data LogLines : Type 0 where
  missing unopened unscanned : LogLines
  scanned : List Text → LogLines

-- The lines that are left when there is a limit.
abbrev pub last_lines : ℤ → List Text → List Text
last_lines limit lines =
    if ltb_ℤ (pos 0) limit && ltb_ℤ limit (pos (length lines))
    then drop (length lines - pos_part limit) lines
    else lines

-- `WriteAuditEvents`: the lines that it prints, to a writer that does not fail.
unfoldable pub write_audit_events : LogLines → ℤ → Result StoreError (List Text)
write_audit_events missing limit = ok []
write_audit_events unopened limit = err reading
write_audit_events unscanned limit = err reading
write_audit_events (scanned lines) limit = ok (last_lines limit lines)
