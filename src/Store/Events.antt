-- ===== src/Store/Events.antt =====
-- internal/broker/store/sqlite_audit.go: the audit events in a table of SQLite.
-- The table is its rows in the order of their insertion, of which no two have one event id; how the
-- database answers reads and writes is part of the state. `none` is NULL.
pub mod Decoded
pub mod Order
pub mod Listed
use certplane.Base.{
  ℕ, zero, suc, take, Bool, true, false, ◌≡◌, Option, none, some, List, [], ◌∷◌, ◌++◌, ◌||◌, Result,
  ok, err, ◌>>=◌, if◌then◌else◌,
}
use certplane.Base.Int.{ℤ, pos, negsuc}
use certplane.Base.Text.{Text, codes, is_empty, text_eq, text_ltb}
use certplane.Base.Dict.{Dict}
use certplane.Clock.{Time}
use certplane.Audit.{Event}
use certplane.Audit.Names.{
  event_type_text, event_type_of, severity_text, severity_of, decision_text, decision_of,
  reason_text, reason_of,
}
use certplane.Audit.Recorders.{Recorder, RecordError}
use certplane.Store.Json.{Codec, Json, encode_json, decode_json}
use certplane.Store.{StoreError, reading, writing, decoding}
use certplane.Store.Sqlite.{
  Rfc3339, nullable_string, string_from_null, nullable_time, parse_required_time,
  parse_optional_time,
}

-- `auditEventRow`
pub record AuditEventRow : Type 0 where
  pub event_id : Text
  pub request_id : Text
  pub timestamp : Text
  pub type : Text
  pub severity : Text
  pub decision : Text
  pub identity : Option Text
  pub profile_name : Option Text
  pub profile_hash : Option Text
  pub policy_hash : Option Text
  pub reason_code : Option Text
  pub reason : Option Text
  pub error : Option Text
  pub source_ip : Option Text
  pub user_agent : Option Text
  pub csr_sha256 : Option Text
  pub csr_public_key_sha256 : Option Text
  pub csr_dns_names_json : Option Text
  pub expected_names_json : Option Text
  pub issuer_name : Option Text
  pub issuer_directory : Option Text
  pub acme_order_url : Option Text
  pub leaf_serial_number : Option Text
  pub cert_not_before : Option Text
  pub cert_not_after : Option Text
  pub cache_result : Option Text
  pub metadata_json : Option Text

pub record AuditTable : Type 0 where
  pub rows : List AuditEventRow
  pub read_fails : Bool
  pub write_fails : Bool

-- `INSERT` where the column `event_id` is `UNIQUE`.
pub has_event : Text → List AuditEventRow → Bool
has_event id [] = false
has_event id (r ∷ rs) = text_eq id r.event_id || has_event id rs

pub insert_row : AuditEventRow → AuditTable → List RecordError × AuditTable
insert_row row t =
    if t.write_fails || has_event row.event_id t.rows
    then (RecordError.recording ∷ [], t)
    else ([], record t { rows = t.rows ++ (row ∷ []) })

pub record_result : Result RecordError AuditEventRow → AuditTable → List RecordError × AuditTable
unfolding insert_row has_event
record_result (err e) t = (e ∷ [], t)
record_result (ok row) t = insert_row row t

-- `ORDER BY timestamp DESC`. SQL leaves the order of the rows of one time open; the one that was
-- inserted last comes first here.
pub insert_newest : AuditEventRow → List AuditEventRow → List AuditEventRow
insert_newest r [] = r ∷ []
insert_newest r (x ∷ xs) =
    if text_ltb x.timestamp r.timestamp then r ∷ x ∷ xs else x ∷ insert_newest r xs

pub newest_first : List AuditEventRow → List AuditEventRow
newest_first [] = []
newest_first (r ∷ rs) = insert_newest r (newest_first rs)

-- `if limit <= 0 { limit = 100 }`. The slice of that capacity is taken to fit into memory.
unfoldable pub limit_or_default : ℤ → ℕ
limit_or_default (pos zero) = 100
limit_or_default (pos (suc n)) = suc n
limit_or_default (negsuc n) = 100

module _ (l : Rfc3339) (j : Json) where
  -- The values of the insertion, in the order of the columns.
  abbrev pub insertion : Event → Option Text → Option Text → Option Text → AuditEventRow
  insertion event csr_names expected_names metadata = record {
    event_id = event.event_id;
    request_id = event.request_id;
    timestamp = l.format event.timestamp;
    type = event_type_text event.type;
    severity = severity_text event.severity;
    decision = decision_text event.decision;
    identity = nullable_string event.identity;
    profile_name = nullable_string event.profile_name;
    profile_hash = nullable_string event.profile_hash;
    policy_hash = nullable_string event.policy_hash;
    reason_code = nullable_string (reason_text event.reason_code);
    reason = nullable_string event.reason;
    error = nullable_string event.error;
    source_ip = nullable_string event.source_ip;
    user_agent = nullable_string event.user_agent;
    csr_sha256 = nullable_string event.csr_sha256;
    csr_public_key_sha256 = nullable_string event.csr_public_key_sha256;
    csr_dns_names_json = csr_names;
    expected_names_json = expected_names;
    issuer_name = nullable_string event.issuer_name;
    issuer_directory = nullable_string event.issuer_directory;
    acme_order_url = nullable_string event.acme_order_url;
    leaf_serial_number = nullable_string event.cert_serial_number;
    cert_not_before = nullable_time l event.cert_not_before;
    cert_not_after = nullable_time l event.cert_not_after;
    cache_result = nullable_string event.cache_result;
    metadata_json = metadata;
  }

  unfoldable pub new_audit_row : Event → Result RecordError AuditEventRow
  new_audit_row event = do
    csr_names ← encode_json j.names event.csr_dns_names
    expected_names ← encode_json j.names event.expected_dns_names
    metadata ← encode_json j.metadata event.metadata
    ok (insertion event csr_names expected_names metadata)

  -- `Record`
  unfoldable pub record_event : Recorder AuditTable
  unfolding record_result
  record_event event t = record_result (new_audit_row event) t

  -- `auditEvent`
  unfoldable pub audit_event : AuditEventRow → Result StoreError Event
  audit_event r = do
    timestamp ← parse_required_time l r.timestamp
    cert_not_before ← parse_optional_time l r.cert_not_before
    cert_not_after ← parse_optional_time l r.cert_not_after
    csr_dns_names ← decode_json j.names r.csr_dns_names_json []
    expected_dns_names ← decode_json j.names r.expected_names_json []
    metadata ← decode_json j.metadata r.metadata_json []
    ok (record {
      event_id = r.event_id;
      request_id = r.request_id;
      timestamp = timestamp;
      type = event_type_of r.type;
      severity = severity_of r.severity;
      decision = decision_of r.decision;
      identity = string_from_null r.identity;
      profile_name = string_from_null r.profile_name;
      profile_hash = string_from_null r.profile_hash;
      policy_hash = string_from_null r.policy_hash;
      reason_code = reason_of (string_from_null r.reason_code);
      reason = string_from_null r.reason;
      error = string_from_null r.error;
      source_ip = string_from_null r.source_ip;
      user_agent = string_from_null r.user_agent;
      csr_sha256 = string_from_null r.csr_sha256;
      csr_public_key_sha256 = string_from_null r.csr_public_key_sha256;
      issuer_name = string_from_null r.issuer_name;
      issuer_directory = string_from_null r.issuer_directory;
      acme_order_url = string_from_null r.acme_order_url;
      cert_serial_number = string_from_null r.leaf_serial_number;
      cert_not_before = cert_not_before;
      cert_not_after = cert_not_after;
      cache_result = string_from_null r.cache_result;
      csr_dns_names = csr_dns_names;
      expected_dns_names = expected_dns_names;
      metadata = metadata;
    })

  -- The loop over the rows.
  unfoldable pub decode_events : List AuditEventRow → Result StoreError (List Event)
  decode_events [] = ok []
  decode_events (r ∷ rs) = do event ← audit_event r; events ← decode_events rs; ok (event ∷ events)

  unfoldable pub list_audit_events : ℤ → AuditTable → Result StoreError (List Event)
  unfolding newest_first insert_newest limit_or_default
  list_audit_events limit t =
      if t.read_fails
      then err reading
      else decode_events (take (limit_or_default limit) (newest_first t.rows))

-- The loop of `WriteAuditEvents`: the encoder writes one line for an event, or fails, which
-- is `true`. What was written before a failure stays written.
unfoldable pub encode_events :
    {W : Type 0} → (Event → W → Bool × W) → List Event → W → Option StoreError × W
encode_events encode [] w = (none, w)
encode_events encode (event ∷ events) w =
    let (failed, w') = encode event w in
    let rest = encode_events encode events w' in if failed then (some writing, w') else rest

listed :
    {W : Type 0}
    → (Event → W → Bool × W)
    → Result StoreError (List Event)
    → W
    → Option StoreError × W
unfolding encode_events
listed encode (err e) w = (some e, w)
listed encode (ok events) w = encode_events encode events w

unfoldable pub write_audit_events :
    {W : Type 0}
    → Rfc3339
    → Json
    → (Event → W → Bool × W)
    → ℤ
    → AuditTable
    → W
    → Option StoreError × W
unfolding listed
write_audit_events l j encode limit t w = listed encode (list_audit_events l j limit t) w
