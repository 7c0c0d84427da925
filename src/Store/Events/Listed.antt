-- ===== src/Store/Events/Listed.antt =====
-- What the table lists: the latest of the events that were recorded.

use certplane.Base.{
  ℕ, zero, suc, ◌<◌, true, arith, false, ◌≢◌, ◌⊎◌, ◌≡◌, refl, sym, ap, ◌∙◌, inl, inr, List, [], ◌∷◌,
  ◌++◌, map, ok, take, ltb, Bool-cases,
}
use mathlib.Core.List.{Perm}
use certplane.Base.Int.{ℤ, pos, negsuc, leb_ℤ}
use certplane.Base.Text.{Text, elem, text_ltb}
use certplane.Base.Sort.{IsDistinct, IsDistinct-append_one}
use certplane.Base.Dict.{Dict}
use certplane.Clock.{Time, truncate}
use certplane.Audit.{Event}
use certplane.Store.Json.{Json, IsCodec}
use certplane.Store.Sqlite.{year_10000, Rfc3339, IsRfc3339}
use certplane.Store.Events.{
  AuditEventRow, AuditTable, has_event, record_event, audit_event, insert_newest, newest_first,
  limit_or_default, decode_events, list_audit_events,
}
use certplane.Store.Events.Order.{
  IsLatestFirst, insert_event, order, order-Perm, order-IsLatestFirst,
}
use certplane.Store.Events.Decoded.{
  stored, IsRecordable, IsEncodable, new_audit_row_decoded, record_event_cases,
  new_audit_row_columns,
}

-- What the code relies on: before the year 10000 the order of the printed times is the order of their
-- seconds.
pub record IsOrdered (l : Rfc3339) : Type 0 where
  pub ltb_format :
      (t u : Time)
      → t < year_10000
      → u < year_10000
      → text_ltb (l.format t) (l.format u) ≡ ltb (truncate t) (truncate u)

-- The ids of the events of a log.
abbrev pub ids : List Event → List Text
ids [] = []
ids (e ∷ es) = e.event_id ∷ ids es

ids-append_one : (es : List Event) (e : Event) → ids (es ++ (e ∷ [])) ≡ ids es ++ (e.event_id ∷ [])
ids-append_one [] e = refl
ids-append_one (x ∷ es) e = ap (λ is. x.event_id ∷ is) (ids-append_one es e)

-- The number of events that a listing with `limit` shows at most.
abbrev pub IsLimit : ℤ → ℕ → Type 0
IsLimit limit n =
    (leb_ℤ limit (pos 0) ≡ true → n ≡ 100) × (leb_ℤ limit (pos 0) ≡ false → limit ≡ pos n)

limit_or_default-IsLimit : (limit : ℤ) → IsLimit limit (limit_or_default limit)
unfolding limit_or_default
limit_or_default-IsLimit (pos zero) = (λ h. refl, λ h. absurd (ground (arith, h)))
limit_or_default-IsLimit (pos (suc n)) = (λ h. absurd (ground (arith, h)), λ h. refl)
limit_or_default-IsLimit (negsuc n) = (λ h. refl, λ h. absurd (ground (arith, h)))

module _ (l : Rfc3339) (j : Json) where
  -- A row keeps an event.
  abbrev pub Keeps : Event → AuditEventRow → Type 0
  Keeps e row =
      (audit_event l j row ≡ ok (stored e))
      × ((row.event_id ≡ e.event_id)
          × ((row.timestamp ≡ l.format e.timestamp) × (e.timestamp < year_10000)))

  -- The rows keep the events one by one, in their order.
  abbrev pub Holds : List Event → List AuditEventRow → Type 0
  Holds [] [] = Unit
  Holds [] (r ∷ rs) = ⊥
  Holds (e ∷ es) [] = ⊥
  Holds (e ∷ es) (r ∷ rs) = Keeps e r × Holds es rs

  -- The table of a log of events: a row for each, and no id twice.
  abbrev pub IsTableOf : List Event → AuditTable → Type 0
  IsTableOf es t = Holds es t.rows × IsDistinct (ids es)

  Holds-append_one :
      (es : List Event) (rs : List AuditEventRow) (e : Event) (r : AuditEventRow)
      → Holds es rs
      → Keeps e r
      → Holds (es ++ (e ∷ [])) (rs ++ (r ∷ []))
  Holds-append_one [] [] e r h k = (k, tt)
  Holds-append_one [] (r' ∷ rs) e r h k = absurd h
  Holds-append_one (e' ∷ es) [] e r h k = absurd h
  Holds-append_one (e' ∷ es) (r' ∷ rs) e r (h', h) k = (h', Holds-append_one es rs e r h k)

  Holds-has_event :
      (es : List Event) (rs : List AuditEventRow) (id : Text)
      → Holds es rs
      → has_event id rs ≡ elem id (ids es)
  unfolding has_event elem
  Holds-has_event [] [] id h = refl
  Holds-has_event [] (r ∷ rs) id h = absurd h
  Holds-has_event (e ∷ es) [] id h = absurd h
  Holds-has_event (e ∷ es) (r ∷ rs) id (k, h) = rw (k.1.0, Holds-has_event es rs id h) (refl)

  Holds-take :
      (n : ℕ) (es : List Event) (rs : List AuditEventRow)
      → Holds es rs
      → Holds (take n es) (take n rs)
  Holds-take zero es rs h = tt
  Holds-take (suc n) [] [] h = tt
  Holds-take (suc n) [] (r ∷ rs) h = absurd h
  Holds-take (suc n) (e ∷ es) [] h = absurd h
  Holds-take (suc n) (e ∷ es) (r ∷ rs) (k, h) = (k, Holds-take n es rs h)

  decode_events-Holds :
      (es : List Event) (rs : List AuditEventRow)
      → Holds es rs
      → decode_events l j rs ≡ ok (map stored es)
  unfolding decode_events
  decode_events-Holds [] [] h = refl
  decode_events-Holds [] (r ∷ rs) h = absurd h
  decode_events-Holds (e ∷ es) [] h = absurd h
  decode_events-Holds (e ∷ es) (r ∷ rs) (k, h) = rw k.0 (rw (decode_events-Holds es rs h) refl)

  module _ (o : IsOrdered l) where
    insert_newest-Holds :
        (e : Event) (r : AuditEventRow) (es : List Event) (rs : List AuditEventRow)
        → Keeps e r
        → Holds es rs
        → Holds (insert_event e es) (insert_newest r rs)
    unfolding insert_event insert_newest
    insert_newest-Holds e r [] [] k h = (k, tt)
    insert_newest-Holds e r [] (r' ∷ rs) k h = absurd h
    insert_newest-Holds e r (e' ∷ es) [] k h = absurd h
    insert_newest-Holds e r (e' ∷ es) (r' ∷ rs) k (k', h) =
        let same : text_ltb r'.timestamp r.timestamp
            ≡ ltb (truncate e'.timestamp) (truncate e.timestamp) =
          ap (λ x. text_ltb x r.timestamp) k'.1.1.0
          ∙ ap (text_ltb (l.format e'.timestamp)) k.1.1.0
          ∙ o.ltb_format e'.timestamp e.timestamp k'.1.1.1 k.1.1.1 in
        elim (Bool-cases (ltb (truncate e'.timestamp) (truncate e.timestamp))) [
          | inl a ↦ rw (same, a) (k, (k', h))
          | inr a ↦ rw (same, a) (k', insert_newest-Holds e r es rs k h)
        ]

    newest_first-Holds :
        (es : List Event) (rs : List AuditEventRow)
        → Holds es rs
        → Holds (order es) (newest_first rs)
    unfolding order newest_first
    newest_first-Holds [] [] h = tt
    newest_first-Holds [] (r ∷ rs) h = absurd h
    newest_first-Holds (e ∷ es) [] h = absurd h
    newest_first-Holds (e ∷ es) (r ∷ rs) (k, h) =
        insert_newest-Holds e r (order es) (newest_first rs) k (newest_first-Holds es rs h)

    -- From the table of a log of events, while the database answers reads, and if the printed times
    -- are ordered as the seconds they stand for, a listing gives the first `limit` events of the log,
    -- or 100 where the limit is not positive, when the log is ordered from the latest event to the
    -- earliest: as they were recorded, but for the fractions of seconds and zero times.
    pub list_audit_events-latest :
        (es : List Event) (t : AuditTable) (limit : ℤ)
        → IsTableOf es t
        → t.read_fails ≡ false
        → (ordered : List Event) × (Perm es ordered
            × (IsLatestFirst ordered
                × ((n : ℕ) × (IsLimit limit n
                      × (list_audit_events l j limit t ≡ ok (map stored (take n ordered)))))))
    unfolding list_audit_events
    list_audit_events-latest es t limit (h, d) readable = (
      order es,
      (
        order-Perm es,
        (
          order-IsLatestFirst es,
          (
            limit_or_default limit,
            (
              limit_or_default-IsLimit limit,
              rw readable (
                  decode_events-Holds (take (limit_or_default limit) (order es)) _ (
                    Holds-take (limit_or_default limit) (order es) (newest_first t.rows)
                      (newest_first-Holds es t.rows h))),
            ),
          ),
        ),
      ),
    )

module _ (l : Rfc3339) (p : IsRfc3339 l) (j : Json) (P : List Text → Type 0)
    (Q : Dict Text → Type 0) (pn : IsCodec P [] j.names) (pm : IsCodec Q [] j.metadata) where
  -- The layout of the times and the codecs of JSON being as documented, an event whose strings are
  -- constants of the package, whose times lie before the year 10000 and whose lists and map JSON keeps
  -- is either recorded without an error, which makes the table that of the log with the event behind
  -- it, read back but for the fractions of seconds and zero times, and its id was new; or the
  -- recording reports an error and the table is what it was.
  pub record_event_roundtrip :
      (es : List Event) (e : Event) (t : AuditTable)
      → IsTableOf l j es t
      → IsRecordable e
      → IsEncodable l p j P Q pn pm e
      → (((record_event l j e t).0 ≢ []) × ((record_event l j e t).1 ≡ t))
        ⊎ (((record_event l j e t).0 ≡ [])
            × IsTableOf l j (es ++ (e ∷ [])) (record_event l j e t).1)
  record_event_roundtrip es e t (h, d) r c = elim (record_event_cases l p j e t) [
    | inl failed ↦ inl failed
    | inr (row, (made, (new, done))) ↦
        let (id, time) = new_audit_row_columns l p j e row made in
        let keeps : Keeps l j e row =
          (new_audit_row_decoded l p j P Q pn pm e row r c made, (id, (time, r.timestamp))) in
        let fresh : elem e.event_id (ids es) ≡ false =
          sym (Holds-has_event l j es t.rows e.event_id h)
          ∙ ap (λ i. has_event i t.rows) (sym id)
          ∙ new in
        inr (
          rw done (
            refl,
            (
              Holds-append_one l j es t.rows e row h keeps,
              rw (ids-append_one es e) (IsDistinct-append_one (ids es) e.event_id d fresh),
            ),
          ))
  ]
