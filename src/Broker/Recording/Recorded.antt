-- ===== src/Broker/Recording/Recorded.antt =====
-- Audit events are built and recorded without any other effect, and keep what they say of the request.
use certplane.Base.{
  Bool, true, false, ◌≡◌, refl, ◌∙◌, inl, inr, Option, none, some, [], ◌∷◌, ap, arith, Bool-cases,
  Option-cases, Result-cases,
}
use certplane.Base.Text.{Text, codes, is_empty, text_eq}
use certplane.Clock.{Time, is_zero_time}
use certplane.Dnsname.{canonical_list}
use certplane.Pki.{CertificateRequest}
use certplane.Policy.{CompiledPolicy, CompiledProfile}
use certplane.Audit.{Event, EventType, Severity, Decision, Reason}
use certplane.Broker.{
  Context, Failure, IssuedResult, drew_id, clock_read, recorded, Trace, Server, World, act,
}
use certplane.Broker.Effects.{
  Silent-drew_id, Silent-clock_read, Silent-recorded, Quiet, Quiet-trans, Quiet-trace, Quiet-refl,
}
use certplane.Broker.Recording.{
  audit_event, issued_event, new_audit_event, with_csr_pem, with_public_key, issued_type,
  with_context, with_policy, with_profile, with_csr, fill_id, fill_time, normalize_audit_event,
  log_event, record_event, audit_barrier,
}

pub Quiet-act_clock_read : {S : Type 0} (w : World S) → Quiet w (act clock_read w)
Quiet-act_clock_read w = Quiet-trace w _ (Silent-clock_read w.trace)

pub Quiet-act_drew_id : {S : Type 0} (w : World S) → Quiet w (act drew_id w)
Quiet-act_drew_id w = Quiet-trace w _ (Silent-drew_id w.trace)

module _ {S : Type 0} (s : Server) where
  pub audit_event-Quiet :
      (c : Context) (t : EventType) (v : Severity) (d : Decision) (r : Reason) (f : Option Failure)
      (w : World S)
      → Quiet w (audit_event s c t v d r f w).1
  unfolding audit_event
  audit_event-Quiet c t v d r f w =
      Quiet-trans (Quiet-act_drew_id w) (Quiet-act_clock_read (act drew_id w))

  pub issued_event-Quiet :
      (c : Context) (i : IssuedResult) (w : World S) → Quiet w (issued_event s c i w).1
  unfolding issued_event audit_event
  issued_event-Quiet c i w =
      Quiet-trans (Quiet-act_drew_id w) (Quiet-act_clock_read (act drew_id w))

  fill_id-Quiet : (id prefix : Text) (w : World S) → Quiet w (fill_id s id prefix w).1
  unfolding fill_id
  fill_id-Quiet id prefix w = elim (Bool-cases (is_empty id)) [
    | inl e ↦ rw e (Quiet-act_drew_id w)
    | inr e ↦ rw e Quiet-refl
  ]

  fill_time-Quiet : (t : Time) (w : World S) → Quiet w (fill_time s t w).1
  unfolding fill_time
  fill_time-Quiet t w = elim (Bool-cases (is_zero_time t)) [
    | inl e ↦ rw e (Quiet-act_clock_read w)
    | inr e ↦ rw e Quiet-refl
  ]

  normalize-Quiet : (e : Event) (w : World S) → Quiet w (normalize_audit_event s e w).1
  unfolding normalize_audit_event
  normalize-Quiet e w =
      Quiet-trans (fill_id-Quiet e.event_id (codes "evt_") w)
        (Quiet-trans (fill_id-Quiet e.request_id (codes "req_") _) (fill_time-Quiet e.timestamp _))

  log_event-Quiet : (ew : Event × World S) → Quiet ew.1 (log_event s ew).1
  unfolding log_event
  log_event-Quiet (e, w) = elim (Option-cases s.records) [
    | inl r ↦ rw r Quiet-refl
    | inr (recorder, r) ↦ rw r (Quiet-trace w _ (Silent-recorded w.trace e (recorder w.trace e)))
  ]

  pub record_event-Quiet : (ew : Event × World S) → Quiet ew.1 (record_event s ew).1
  unfolding record_event
  record_event-Quiet (e, w) =
      Quiet-trans (normalize-Quiet e w) (log_event-Quiet (normalize_audit_event s e w))

  pub audit_barrier-Quiet : (ew : Event × World S) → Quiet ew.1 (audit_barrier s ew).1
  unfolding audit_barrier
  audit_barrier-Quiet ew = record_event-Quiet ew

-- What an event says of a request: its type, the identity and the profile, the hashes of the policy and
-- the profile, and the fingerprint of the key.
abbrev pub Heading : Type 0
Heading = EventType × Text × Text × Text × Text × Text

abbrev pub heading : Event → Heading
heading e =
    (e.type, e.identity, e.profile_name, e.policy_hash, e.profile_hash, e.csr_public_key_sha256)

abbrev policy_hash_of : Option CompiledPolicy → Text
policy_hash_of none = []
policy_hash_of (some p) = p.hash

abbrev profile_hash_of : Option CompiledProfile → Text
profile_hash_of none = []
profile_hash_of (some p) = p.hash

-- What an event of the type `t` says of the request of `c`.
abbrev pub heading_of : EventType → Context → Heading
heading_of t c = (
  t,
  c.identity,
  c.profile_name,
  policy_hash_of c.policy,
  profile_hash_of c.profile,
  c.public_key_fp,
)

with_csr_pem-heading :
    (s : Server) (pem : Text) (e : Event) → heading (with_csr_pem s pem e) ≡ heading e
with_csr_pem-heading s pem e = elim (Bool-cases (is_empty pem)) [
  | inl h ↦ rw h refl
  | inr h ↦ rw h refl
]

with_public_key-heading :
    (s : Server) (fp : Text) (e : Event)
    → e.csr_public_key_sha256 ≡ []
    → heading (with_public_key s fp e)
      ≡ (e.type, e.identity, e.profile_name, e.policy_hash, e.profile_hash, fp)
with_public_key-heading s [] e h = rw h refl
with_public_key-heading s (x ∷ fp) e h = refl

with_csr-heading :
    (s : Server) (o : Option CertificateRequest) (e : Event) → heading (with_csr s o e) ≡ heading e
unfolding with_csr
with_csr-heading s none e = refl
with_csr-heading s (some csr) e = elim (Result-cases (canonical_list csr.dns_names)) [
  | inl (a, h) ↦ rw (h, with_csr) refl
  | inr (x, h) ↦ rw (h, with_csr) refl
]

with_policy-heading :
    (o : Option CompiledPolicy) (e : Event)
    → e.policy_hash ≡ []
    → heading (with_policy o e) ≡ (
      e.type,
      e.identity,
      e.profile_name,
      policy_hash_of o,
      e.profile_hash,
      e.csr_public_key_sha256,
    )
with_policy-heading none e h = rw h refl
with_policy-heading (some p) e h = refl

with_profile-heading :
    (o : Option CompiledProfile) (e : Event)
    → e.profile_hash ≡ []
    → heading (with_profile o e) ≡ (
      e.type,
      e.identity,
      e.profile_name,
      e.policy_hash,
      profile_hash_of o,
      e.csr_public_key_sha256,
    )
with_profile-heading none e h = rw h refl
with_profile-heading (some p) e h = refl

with_context-heading :
    (s : Server) (c : Context) (e : Event)
    → e.policy_hash ≡ []
    → e.profile_hash ≡ []
    → e.csr_public_key_sha256 ≡ []
    → heading (with_context s c e) ≡ (
      e.type,
      e.identity,
      e.profile_name,
      policy_hash_of c.policy,
      profile_hash_of c.profile,
      c.public_key_fp,
    )
unfolding with_context
with_context-heading s c e p q k =
    let h1 = with_policy-heading c.policy e p in
    let h2 =
      with_profile-heading c.profile (with_policy c.policy e) (ap (λ (h : Heading). h.4) h1 ∙ q) in
    let h3 = with_csr_pem-heading s c.csr_pem (with_profile c.profile (with_policy c.policy e)) in
    let h4 =
      with_public_key-heading s c.public_key_fp
        (with_csr_pem s c.csr_pem (with_profile c.profile (with_policy c.policy e)))
        (ap (λ (h : Heading). h.5) (h3 ∙ h2) ∙ ap (λ (h : Heading). h.5) h1 ∙ k) in
    with_csr-heading s c.csr _
    ∙ h4
    ∙ ap (λ (h : Heading). (h.0, h.1, h.2, h.3, h.4, c.public_key_fp)) (h3 ∙ h2)
    ∙ ap (λ (h : Heading). (h.0, h.1, h.2, h.3, profile_hash_of c.profile, c.public_key_fp)) h1

-- The last action of the trace `tr` is that the recorder has taken an event of the type `t` about the
-- request of `c`; unless there is no recorder or the mode is not `fail_closed`.
pub data Logged (s : Server) (c : Context) (t : EventType) (tr : Trace) : Type 0 where
  not_closed : text_eq s.failure_mode (codes "fail_closed") ≡ false → Logged s c t tr
  no_recorder : s.records ≡ none → Logged s c t tr
  taken :
      (recorder : Trace → Event → Bool) (before : Trace) (e : Event)
      → s.records ≡ some recorder
      → heading e ≡ heading_of t c
      → recorder before e ≡ true
      → tr ≡ recorded e true ∷ before
      → Logged s c t tr

module _ {S : Type 0} (s : Server) where
  pub audit_event-heading :
      (c : Context) (t : EventType) (v : Severity) (d : Decision) (r : Reason) (f : Option Failure)
      (w : World S)
      → heading (audit_event s c t v d r f w).0 ≡ heading_of t c
  unfolding audit_event new_audit_event
  audit_event-heading c t v d r f w = with_context-heading s c _ refl refl refl

  log_event-true :
      (ew : Event × World S) (recorder : Trace → Event → Bool)
      → s.records ≡ some recorder
      → (log_event s ew).0 ≡ true
      → (recorder ew.1.trace ew.0 ≡ true)
        × ((log_event s ew).1.trace ≡ recorded ew.0 true ∷ ew.1.trace)
  unfolding log_event
  log_event-true (e, w) recorder r h =
      let accepted : recorder w.trace e ≡ true = rw r at h in
      rw r (accepted, ap (λ b. recorded e b ∷ w.trace) accepted)

  record_event-true :
      (ew : Event × World S) (recorder : Trace → Event → Bool)
      → s.records ≡ some recorder
      → (record_event s ew).0 ≡ true
      → (before : Trace) × ((e : Event) × ((heading e ≡ heading ew.0)
            × ((recorder before e ≡ true)
                × ((record_event s ew).1.trace ≡ recorded e true ∷ before))))
  unfolding record_event normalize_audit_event
  record_event-true (e, w) recorder r h = (_, (_, (refl, log_event-true _ recorder r h)))

  -- Behind the barrier, the event is logged.
  pub audit_barrier-Logged :
      (c : Context) (ew : Event × World S) (t : EventType)
      → heading ew.0 ≡ heading_of t c
      → (audit_barrier s ew).0 ≡ true
      → Logged s c t (audit_barrier s ew).1.trace
  unfolding audit_barrier
  audit_barrier-Logged c ew t same h =
      elim (Bool-cases (text_eq s.failure_mode (codes "fail_closed"))) [
        | inr lax ↦ not_closed lax
        | inl closed ↦
            let done : (record_event s ew).0 ≡ true = ground arith in
            elim (Option-cases s.records) [
              | inl r ↦ no_recorder r
              | inr (recorder, r) ↦
                  let (before, (e, (kept, (accepted, last)))) =
                    record_event-true ew recorder r done in
                  taken recorder before e r (kept ∙ same) accepted last
            ]
      ]

  pub issued_event-heading :
      (c : Context) (i : IssuedResult) (w : World S)
      → heading (issued_event s c i w).0
        ≡ heading_of (issued_type (text_eq i.cache (codes "hit"))) c
  unfolding issued_event
  issued_event-heading c i w = audit_event-heading c _ _ _ _ none w
