-- ===== src/Tests/EventTests.antt =====
-- internal/broker/store/sqlite_audit.go and internal/fileutil/lock.go: runs, and the theorems at
-- concrete data.
use mathlib.Core.List.{Perm}
use certplane.Base.{
  ℕ, ◌+◌, ◌≢◌, ◌⊎◌, ◌≡◌, refl, arith, false, Option, none, some, List, [], ◌∷◌, ◌++◌, map, ok, take,
  ap, sym,
}
use certplane.Base.Int.{pos}
use certplane.Base.Text.{Text, codes, text_eq, text_ltb, elem}
use certplane.Clock.{second, truncate}
use certplane.Audit.{Event}
use certplane.Audit.Names.{
  event_type_of, severity_of, decision_of, reason_of, event_type_text, severity_text, decision_text,
  reason_text,
}
use certplane.Audit.Recorders.{RecordError}
use certplane.Store.Sqlite.{
  nullable_string, string_from_null, nullable_time, parse_required_time, parse_optional_time,
}
use certplane.Store.Json.{Json, IsCodec, null, encode_json, decode_json}
use certplane.Store.Events.{
  AuditEventRow, insertion, audit_event, decode_events, AuditTable, record_event, list_audit_events,
  new_audit_row,
}
use certplane.Store.Events.Decoded.{stored, IsRecordable}
use certplane.Store.Events.Order.{IsLatestFirst}
use certplane.Store.Events.Listed.{
  IsOrdered, IsTableOf, IsLimit, list_audit_events-latest, record_event_roundtrip,
}
use certplane.Tests.Data.{today, layout, layout-IsRfc3339, event}

-- Lists of one name and empty maps are marshaled; a nil list is `null`.
abbrev one_name : List Text → Option Text
one_name [] = some null
one_name (n ∷ ns) = some (b'"' ∷ n)

abbrev read_name : Text → Option (List Text)
read_name [] = none
read_name (c ∷ s) = some (s ∷ [])

abbrev json : Json
json = record {
  names = record { marshal = one_name; unmarshal = read_name };
  metadata = record { marshal = λ m. some null; unmarshal = λ s. some [] };
}

abbrev IsOne : List Text → Type 0
IsOne ns = (n : Text) × (ns ≡ n ∷ [])

name_text : (a : List Text) (s n : Text) → a ≡ n ∷ [] → one_name a ≡ some s → s ≡ b'"' ∷ n
name_text a s n one h = cc (rw one at h)

names-IsCodec : IsCodec IsOne [] json.names
unfolding text_eq
names-IsCodec = record {
  filled = λ a s (n, one) h. rw (name_text a s n one h) refl;
  null_zero = λ a s (n, one) h k. absurd (cc (rw (name_text a s n one h) at k));
  unmarshal_marshal = λ a s (n, one) h. rw (name_text a s n one h, one) refl;
}

metadata-IsCodec : IsCodec (λ m. m ≡ []) [] json.metadata
metadata-IsCodec = record {
  filled = λ a s none_there h. cc h;
  null_zero = λ a s none_there h k. none_there;
  unmarshal_marshal = λ a s none_there h. ap some (sym none_there);
}

abbrev first : Event
first = record event { csr_dns_names = codes "a" ∷ []; expected_dns_names = codes "a" ∷ [] }

-- A second later.
abbrev second_event : Event
second_event = record first { event_id = codes "evt_2"; timestamp = today + second }

first-IsRecordable : IsRecordable first
first-IsRecordable = record {
  type = tt;
  severity = tt;
  decision = tt;
  reason_code = tt;
  timestamp = omega arith;
  cert_not_before = tt;
  cert_not_after = tt;
}

layout-IsOrdered : IsOrdered layout
unfolding truncate text_ltb
layout-IsOrdered = record { ltb_format = λ t u ht hu. ground arith }

abbrev empty_table : AuditTable
empty_table = record { rows = []; read_fails = false; write_fails = false }

record_event_roundtrip_example :
    (((record_event layout json first empty_table).0 ≢ [])
      × ((record_event layout json first empty_table).1 ≡ empty_table))
    ⊎ (((record_event layout json first empty_table).0 ≡ [])
        × IsTableOf layout json ([] ++ (first ∷ [])) (record_event layout json first empty_table).1)
record_event_roundtrip_example =
    record_event_roundtrip layout layout-IsRfc3339 json IsOne (λ m. m ≡ []) names-IsCodec
      metadata-IsCodec [] first empty_table (tt, tt) first-IsRecordable
      ((codes "a", refl), ((codes "a", refl), refl))

abbrev row : Event → AuditEventRow
row e = insertion layout json e (some (b'"' ∷ codes "a")) (some (b'"' ∷ codes "a")) none

abbrev table : AuditTable
table = record { rows = row first ∷ row second_event ∷ []; read_fails = false; write_fails = false }

record_run :
    record_event layout json second_event (record_event layout json first empty_table).1
    ≡ ([], table)
unfolding record_event new_audit_row encode_json nullable_string nullable_time text_eq
record_run = refl

-- A second event with the same id is refused.
record_run_twice : (record_event layout json first table).0 ≡ RecordError.recording ∷ []
unfolding record_event new_audit_row encode_json nullable_string nullable_time text_eq
record_run_twice = refl

table-IsTableOf : IsTableOf layout json (first ∷ second_event ∷ []) table
unfolding audit_event decode_json parse_required_time parse_optional_time nullable_string
    string_from_null nullable_time event_type_of severity_of decision_of reason_of event_type_text
    severity_text decision_text reason_text truncate elem text_eq
table-IsTableOf = (
  ((refl, (refl, (refl, omega arith))), ((refl, (refl, (refl, omega arith))), tt)),
  (refl, (refl, tt)),
)

list_audit_events-latest_example :
    (ordered : List Event) × (Perm (first ∷ second_event ∷ []) ordered
      × (IsLatestFirst ordered
          × ((n : ℕ) × (IsLimit (pos 1) n
                × (list_audit_events layout json (pos 1) table
                    ≡ ok (map stored (take n ordered)))))))
list_audit_events-latest_example =
    list_audit_events-latest layout json layout-IsOrdered (first ∷ second_event ∷ []) table (pos 1)
      table-IsTableOf refl

list_run : list_audit_events layout json (pos 1) table ≡ ok (stored second_event ∷ [])
unfolding list_audit_events audit_event decode_json parse_required_time parse_optional_time
    nullable_string string_from_null nullable_time event_type_of severity_of decision_of reason_of
    event_type_text severity_text decision_text reason_text truncate text_eq text_ltb decode_events
list_run = refl
