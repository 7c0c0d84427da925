-- ===== src/Broker/Recording.antt =====
-- internal/broker/issue_audit.go: the audit events of a request, and how they are recorded.
pub mod Recorded
use certplane.Base.{
  ℕ, Bool, true, false, not, ◌&&◌, Option, none, some, List, [], ◌∷◌, Result, ok, err,
  if◌then◌else◌,
}
use certplane.Base.Text.{Text, codes, is_empty, text_eq}
use certplane.Base.Dict.{Dict, insert}
use certplane.Clock.{Time, is_zero_time}
use certplane.Dnsname.{canonical_list}
use certplane.Pki.{CertificateRequest}
use certplane.Pki.Csr.{csr_fingerprint}
use certplane.Policy.{CompiledPolicy, CompiledProfile}
use certplane.Audit.{Event, EventType, Severity, Decision, Reason}
use certplane.Broker.{
  Request, IssuedResult, Context, Failure, names_refused, Action, drew_id, clock_read, recorded,
  responded, Server, World, act,
}

-- `auditEventBase`
pub record AuditEventBase : Type 0 where
  pub request_id : Text
  pub type : EventType
  pub severity : Severity
  pub decision : Decision
  pub reason : Reason
  pub identity : Text
  pub profile : Text
  pub error : Option Failure
  pub request : Request

abbrev pub or_empty : Option Text → Text
or_empty none = []
or_empty (some t) = t

-- `withMetadata`
unfoldable pub with_metadata : Dict Text → Text → Text → Dict Text
with_metadata metadata key value = insert key value metadata

-- The fields that the context adds to an event, one function per `if`.
abbrev pub with_policy : Option CompiledPolicy → Event → Event
with_policy none e = e
with_policy (some p) e = record e { policy_hash = p.hash }

abbrev pub with_profile : Option CompiledProfile → Event → Event
with_profile none e = e
with_profile (some p) e = record e { profile_hash = p.hash; expected_dns_names = p.dns_names }

abbrev pub issued_type : Bool → EventType
issued_type hit = if hit then EventType.certificate_cache_hit else EventType.certificate_issued

module _ (s : Server) where
  -- `sourceIP`
  unfoldable pub source_ip : Request → Text
  source_ip r = elim (s.split_host_port r.remote_addr) [ none ↦ r.remote_addr | some host ↦ host ]

  abbrev pub with_csr_pem : Text → Event → Event
  with_csr_pem pem e =
      if is_empty pem then e else record e { csr_sha256 = csr_fingerprint s.crypto pem }

  abbrev pub with_public_key : Text → Event → Event
  with_public_key fp e = if is_empty fp then e else record e { csr_public_key_sha256 = fp }

  unfoldable pub with_csr : Option CertificateRequest → Event → Event
  unfolding with_metadata
  with_csr none e = e
  with_csr (some csr) e = elim (canonical_list csr.dns_names) [
    | err why ↦ record e {
      metadata =
          with_metadata e.metadata (codes "csr_dns_names_error") (s.error_text (names_refused why));
    }
    | ok names ↦ record e { csr_dns_names = names }
  ]

  unfoldable pub error_of : Option Failure → Text
  error_of none = []
  error_of (some why) = s.error_text why

  unfoldable pub with_context : Context → Event → Event
  unfolding with_csr
  with_context c e = with_csr c.csr (
      with_public_key c.public_key_fp
        (with_csr_pem c.csr_pem (with_profile c.profile (with_policy c.policy e))))

module _ {S : Type 0} (s : Server) where
  -- `newAuditEvent` draws an identifier, of which an error is ignored, and reads the clock.
  unfoldable pub new_audit_event : AuditEventBase → World S → Event × World S
  unfolding source_ip error_of
  new_audit_event base w = (
    record {
      event_id = or_empty (s.new_id w.trace (codes "evt_"));
      request_id = base.request_id;
      timestamp = s.now (drew_id ∷ w.trace);
      type = base.type;
      severity = base.severity;
      decision = base.decision;
      identity = base.identity;
      profile_name = base.profile;
      profile_hash = [];
      policy_hash = [];
      reason_code = base.reason;
      reason = error_of s base.error;
      error = error_of s base.error;
      source_ip = source_ip s base.request;
      user_agent = base.request.user_agent;
      csr_sha256 = [];
      csr_public_key_sha256 = [];
      csr_dns_names = [];
      expected_dns_names = [];
      issuer_name = [];
      issuer_directory = [];
      acme_order_url = [];
      cert_serial_number = [];
      cert_not_before = none;
      cert_not_after = none;
      cache_result = [];
      metadata = [];
    },
    act clock_read (act drew_id w),
  )

  -- `auditEvent`
  unfoldable pub audit_event :
      Context
      → EventType
      → Severity
      → Decision
      → Reason
      → Option Failure
      → World S
      → Event × World S
  unfolding new_audit_event with_context
  audit_event c type severity decision reason error w =
      let (e, w') =
        new_audit_event
          (record {
            request_id = c.request_id;
            type = type;
            severity = severity;
            decision = decision;
            reason = reason;
            identity = c.identity;
            profile = c.profile_name;
            error = error;
            request = c.request;
          })
          w in
      (with_context s c e, w')

  -- `issuedEvent`
  unfoldable pub issued_event : Context → IssuedResult → World S → Event × World S
  unfolding audit_event
  issued_event c issued w =
      let hit = text_eq issued.cache (codes "hit") in
      let (e, w') =
        audit_event c (issued_type hit) Severity.info
          (if hit then Decision.cache_hit else Decision.issue)
          (if hit then Reason.cache_hit else Reason.cache_miss) none w in
      (
        record e {
          issuer_name = s.issuer_name;
          issuer_directory = s.issuer_directory;
          cert_serial_number = issued.bundle.leaf_serial_number;
          cert_not_before = some issued.bundle.not_before;
          cert_not_after = some issued.bundle.not_after;
          cache_result = issued.cache;
        },
        w',
      )

  -- An identifier that is empty is drawn again.
  fill_id : Text → Text → World S → Text × World S
  fill_id id prefix w =
      if is_empty id then (or_empty (s.new_id w.trace prefix), act drew_id w) else (id, w)

  fill_time : Time → World S → Time × World S
  fill_time t w = if is_zero_time t then (s.now w.trace, act clock_read w) else (t, w)

  -- `normalizeAuditEvent`
  unfoldable pub normalize_audit_event : Event → World S → Event × World S
  unfolding fill_id fill_time
  normalize_audit_event e w =
      let (event_id, w1) = fill_id e.event_id (codes "evt_") w in
      let (request_id, w2) = fill_id e.request_id (codes "req_") w1 in
      let (timestamp, w3) = fill_time e.timestamp w2 in
      (record e { event_id = event_id; request_id = request_id; timestamp = timestamp }, w3)

  log_event : Event × World S → Bool × World S
  log_event (e, w) = elim s.records [
    | none ↦ (true, w)
    | some recorder ↦ (recorder w.trace e, act (recorded e (recorder w.trace e)) w)
  ]

  -- `record`: `true` is the nil error.
  unfoldable pub record_event : Event × World S → Bool × World S
  unfolding normalize_audit_event log_event
  record_event (e, w) = log_event (normalize_audit_event e w)

  -- `auditBarrier`: `true` is the nil error.
  unfoldable pub audit_barrier : Event × World S → Bool × World S
  unfolding record_event
  audit_barrier ew =
      let (done, w) = record_event ew in
      (not (not done && text_eq s.failure_mode (codes "fail_closed")), w)
