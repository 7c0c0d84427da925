-- ===== src/Store/Events/Order.antt =====
-- Events from the latest to the earliest, what `ORDER BY timestamp DESC` asks for.
use mathlib.Core.List.{Perm}
use mathlib.Core.List.Perm
use certplane.Base.{
  ◌≤◌, inl, inr, List, [], ◌∷◌, if◌then◌else◌, arith, All, All-map, ltb, Bool-cases,
}
use certplane.Clock.{truncate}
use certplane.Audit.{Event}

-- No event is later than one before it, in whole seconds.
abbrev pub IsLatestFirst : List Event → Type 0
IsLatestFirst [] = Unit
IsLatestFirst (e ∷ es) =
    All (λ later. truncate later.timestamp ≤ truncate e.timestamp) es × IsLatestFirst es

unfoldable pub insert_event : Event → List Event → List Event
insert_event e [] = e ∷ []
insert_event e (x ∷ xs) =
    if ltb (truncate x.timestamp) (truncate e.timestamp) then e ∷ x ∷ xs else x ∷ insert_event e xs

unfoldable pub order : List Event → List Event
unfolding insert_event
order [] = []
order (e ∷ es) = insert_event e (order es)

insert_event-Perm : (e : Event) (es : List Event) → Perm (e ∷ es) (insert_event e es)
unfolding insert_event
insert_event-Perm e [] = Perm.rfl
insert_event-Perm e (x ∷ xs) =
    elim (Bool-cases (ltb (truncate x.timestamp) (truncate e.timestamp))) [
      | inl h ↦ rw h Perm.rfl
      | inr h ↦ rw h (Perm.trans (Perm.swap x e xs) (Perm.cons x (insert_event-Perm e xs)))
    ]

pub order-Perm : (es : List Event) → Perm es (order es)
unfolding order
order-Perm [] = Perm.rfl
order-Perm (e ∷ es) = Perm.trans (Perm.cons e (order-Perm es)) (insert_event-Perm e (order es))

insert_event-All :
    (P : Event → Type 0) (e : Event) (es : List Event) → P e → All P es → All P (insert_event e es)
unfolding insert_event
insert_event-All P e [] h k = (h, tt)
insert_event-All P e (x ∷ xs) h (hx, k) =
    elim (Bool-cases (ltb (truncate x.timestamp) (truncate e.timestamp))) [
      | inl a ↦ rw a (h, (hx, k))
      | inr a ↦ rw a (hx, insert_event-All P e xs h k)
    ]

insert_event-IsLatestFirst :
    (e : Event) (es : List Event) → IsLatestFirst es → IsLatestFirst (insert_event e es)
unfolding insert_event
insert_event-IsLatestFirst e [] h = (tt, tt)
insert_event-IsLatestFirst e (x ∷ xs) (hx, h) =
    elim (Bool-cases (ltb (truncate x.timestamp) (truncate e.timestamp))) [
      | inl a ↦
          let below : truncate x.timestamp ≤ truncate e.timestamp = ground arith in
          rw a ((below, All-map _ _ xs (λ y k. ground arith) hx), (hx, h))
      | inr a ↦ rw a (insert_event-All _ e xs (ground arith) hx, insert_event-IsLatestFirst e xs h)
    ]

pub order-IsLatestFirst : (es : List Event) → IsLatestFirst (order es)
unfolding order
order-IsLatestFirst [] = tt
order-IsLatestFirst (e ∷ es) = insert_event-IsLatestFirst e (order es) (order-IsLatestFirst es)
