-- ===== src/Store/Events/Decoded.antt =====
-- An event that was recorded is decoded again, its times in whole seconds.
use certplane.Base.{
  ◌<◌, false, ◌||◌, ◌≢◌, ◌⊎◌, ◌≡◌, refl, sym, ap, ◌∙◌, inl, inr, Option, none, some, List, [], ◌∷◌,
  ◌++◌, ok, if◌then◌else◌, arith, Result-cases, Option-cases, Bool-cases, ok-injective,
}
use certplane.Base.Text.{Text, text_eq}
use certplane.Base.Dict.{Dict}
use certplane.Clock.{Time, truncate, is_zero_time}
use certplane.Audit.{Event}
use certplane.Audit.Names.{
  IsEventType, IsSeverity, IsDecision, IsReason, event_type_of_text, severity_of_text,
  decision_of_text, reason_of_text,
}
use certplane.Store.Json.{Codec, Json, IsCodec, null, encode_json, decode_json}
use certplane.Store.Sqlite.{
  year_10000, Rfc3339, IsRfc3339, nullable_string, string_from_null, nullable_time,
  parse_optional_time,
}
use certplane.Store.Sqlite.Rows.{parse_required_time-format}
use certplane.Store.Events.{
  AuditEventRow, AuditTable, has_event, insertion, new_audit_row, record_event, audit_event,
  record_result, insert_row,
}

-- A time that a column keeps: whole seconds, and no zero time.
abbrev pub stored_time : Option Time → Option Time
stored_time none = none
stored_time (some t) = if is_zero_time t then none else some (truncate t)

-- The event that a row keeps.
abbrev pub stored : Event → Event
stored e = record e {
  timestamp = truncate e.timestamp;
  cert_not_before = stored_time e.cert_not_before;
  cert_not_after = stored_time e.cert_not_after;
}

abbrev pub Before10000 : Option Time → Type 0
Before10000 none = Unit
Before10000 (some t) = t < year_10000

-- The strings of the event are constants of the package, and its times lie before the year 10000.
pub record IsRecordable (e : Event) : Type 0 where
  pub type : IsEventType e.type
  pub severity : IsSeverity e.severity
  pub decision : IsDecision e.decision
  pub reason_code : IsReason e.reason_code
  pub timestamp : e.timestamp < year_10000
  pub cert_not_before : Before10000 e.cert_not_before
  pub cert_not_after : Before10000 e.cert_not_after

string-nullable_string : (s : Text) → string_from_null (nullable_string s) ≡ s
unfolding string_from_null nullable_string
string-nullable_string [] = refl
string-nullable_string (c ∷ s) = refl

encode_json-some :
    {A : Type 0} (c : Codec A) (a : A) (v : Option Text)
    → encode_json c a ≡ ok v
    → (s : Text) × ((c.marshal a ≡ some s) × (v ≡ (if text_eq s null then none else some s)))
unfolding encode_json
encode_json-some c a v h = elim (Option-cases (c.marshal a)) [
  | inl e ↦ absurd (cc (rw e at h))
  | inr (s, e) ↦ (s, (e, sym (ok-injective (rw e at h))))
]

decode-encode :
    {A : Type 0} (P : A → Type 0) (c : Codec A) (z : A) (p : IsCodec P z c) (a : A)
    (v : Option Text)
    → P a
    → encode_json c a ≡ ok v
    → decode_json c v z ≡ ok a
unfolding decode_json
decode-encode P c z p a v pa h =
    let (s, (e, w)) = encode_json-some c a v h in
    elim (Bool-cases (text_eq s null)) [
      | inl n ↦ rw w (rw n (ap ok (sym (p.null_zero a s pa e n))))
      | inr n ↦ rw w (rw n (rw (p.filled a s pa e) (rw (p.unmarshal_marshal a s pa e) refl)))
    ]

module _ (l : Rfc3339) (p : IsRfc3339 l) where
  parse-nullable_time :
      (v : Option Time)
      → Before10000 v
      → parse_optional_time l (nullable_time l v) ≡ ok (stored_time v)
  unfolding parse_optional_time nullable_time
  parse-nullable_time none h = refl
  parse-nullable_time (some t) h = elim (Bool-cases (is_zero_time t)) [
    | inl e ↦ rw e refl
    | inr e ↦ rw e (rw (p.filled t h) (rw (p.parse_format t h) refl))
  ]

  module _ (j : Json) where
    audit_event-insertion :
        (e : Event) (names expected metadata : Option Text)
        → IsRecordable e
        → decode_json j.names names [] ≡ ok e.csr_dns_names
        → decode_json j.names expected [] ≡ ok e.expected_dns_names
        → decode_json j.metadata metadata [] ≡ ok e.metadata
        → audit_event l j (insertion l j e names expected metadata) ≡ ok (stored e)
    unfolding audit_event
    audit_event-insertion e names expected metadata r hn he hm =
        rw
          (
            parse_required_time-format l p e.timestamp r.timestamp,
            parse-nullable_time e.cert_not_before r.cert_not_before,
            parse-nullable_time e.cert_not_after r.cert_not_after,
            hn,
            he,
            hm,
          )
          (simp (
            string-nullable_string,
            event_type_of_text e.type r.type,
            severity_of_text e.severity r.severity,
            decision_of_text e.decision r.decision,
            reason_of_text e.reason_code r.reason_code,
          ))

    new_audit_row-ok :
        (e : Event) (row : AuditEventRow)
        → new_audit_row l j e ≡ ok row
        → (names : Option Text) × ((expected : Option Text) × ((metadata : Option Text)
              × ((encode_json j.names e.csr_dns_names ≡ ok names)
                  × ((encode_json j.names e.expected_dns_names ≡ ok expected)
                      × ((encode_json j.metadata e.metadata ≡ ok metadata)
                          × (row ≡ insertion l j e names expected metadata))))))
    unfolding new_audit_row
    new_audit_row-ok e row h = elim (Result-cases (encode_json j.names e.csr_dns_names)) [
      | inr (x, a) ↦ absurd (cc (rw a at h))
      | inl (names, a) ↦ elim (Result-cases (encode_json j.names e.expected_dns_names)) [
        | inr (x, b) ↦ absurd (cc (rw (a, b) at h))
        | inl (expected, b) ↦ elim (Result-cases (encode_json j.metadata e.metadata)) [
          | inr (x, c) ↦ absurd (cc (rw (a, b, c) at h))
          | inl (metadata, c) ↦
              (names, (expected, (metadata, (a, (b, (c, sym (ok-injective (rw (a, b, c) at h))))))))
        ]
      ]
    ]

    -- The columns by which the rows are told apart and ordered.
    pub new_audit_row_columns :
        (e : Event) (row : AuditEventRow)
        → new_audit_row l j e ≡ ok row
        → (row.event_id ≡ e.event_id) × (row.timestamp ≡ l.format e.timestamp)
    new_audit_row_columns e row h =
        let (names, (expected, (metadata, (a, (b, (c, same)))))) = new_audit_row-ok e row h in
        (ap (λ (r : AuditEventRow). r.event_id) same, ap (λ (r : AuditEventRow). r.timestamp) same)

    -- A recording fails and leaves the table as it is, or adds a row with a new id.
    pub record_event_cases :
        (e : Event) (t : AuditTable)
        → (((record_event l j e t).0 ≢ []) × ((record_event l j e t).1 ≡ t))
          ⊎ ((row : AuditEventRow) × ((new_audit_row l j e ≡ ok row)
                × ((has_event row.event_id t.rows ≡ false)
                    × (record_event l j e t ≡ ([], record t { rows = t.rows ++ (row ∷ []) })))))
    unfolding record_event
    record_event_cases e t = elim (Result-cases (new_audit_row l j e)) [
      | inr (x, a) ↦ inl (rw a ((λ h. cc h), refl))
      | inl (row, a) ↦ elim (Bool-cases (t.write_fails || has_event row.event_id t.rows)) [
        | inl b ↦ inl (rw (a, record_result, insert_row, b) ((λ h. cc h), refl))
        | inr b ↦ inr (row, (a, (ground arith, rw (a, record_result, insert_row, b) refl)))
      ]
    ]

    module _ (P : List Text → Type 0) (Q : Dict Text → Type 0) (pn : IsCodec P [] j.names)
        (pm : IsCodec Q [] j.metadata) where
      -- JSON keeps the lists and the map of the event.
      abbrev pub IsEncodable : Event → Type 0
      IsEncodable e = P e.csr_dns_names × (P e.expected_dns_names × Q e.metadata)

      pub new_audit_row_decoded :
          (e : Event) (row : AuditEventRow)
          → IsRecordable e
          → IsEncodable e
          → new_audit_row l j e ≡ ok row
          → audit_event l j row ≡ ok (stored e)
      new_audit_row_decoded e row r (hn, (he, hm)) h =
          let (names, (expected, (metadata, (a, (b, (c, same)))))) = new_audit_row-ok e row h in
          ap (audit_event l j) same
          ∙ audit_event-insertion e names expected metadata r
              (decode-encode P j.names [] pn e.csr_dns_names names hn a)
              (decode-encode P j.names [] pn e.expected_dns_names expected he b)
              (decode-encode Q j.metadata [] pm e.metadata metadata hm c)
