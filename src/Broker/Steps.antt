-- ===== src/Broker/Steps.antt =====
-- internal/broker/issue.go: the steps of the handler before the certificate. A step that returns
-- `none` has written a response, and the handler returns.
pub mod Outcomes
use certplane.Base.{
  ℕ, Bool, true, false, not, ◌||◌, Option, none, some, List, [], ◌∷◌, Result, ok, err,
  if◌then◌else◌, ltb, length,
}
use certplane.Base.Text.{Text, codes, is_empty}
use certplane.Clock.{Time}
use certplane.Pki.{CertificateRequest}
use certplane.Pki.Csr.{CsrError, parse_csr_pem, public_key_fingerprint}
use certplane.Policy.{CompiledPolicy, CompiledProfile}
use certplane.Policy.Authorize.{
  AuthorizeError, unknown_identity, unknown_profile, profile_not_allowed, csr_names_mismatch,
  invalid_csr, Decided, authorize,
}
use certplane.Ratelimit.{Limiter, LimitError, allow}
use certplane.Authn.{AuthError, identity_from_request}
use certplane.Audit.{Event, EventType, Severity, Decision, Reason}
use certplane.Broker.{
  Request, IssueBody, Context, Failure, unauthenticated, body_unreadable, malformed,
  fields_required, policy_not_loaded, csr_refused, policy_refused, limited, Action, clock_read,
  responded, panicked, Reply, error_reply, Server, World, act,
}
use certplane.Broker.Recording.{audit_event, record_event, audit_barrier}

abbrev pub max_issue_request_body_bytes : ℕ
max_issue_request_body_bytes = 65_536

-- `auditReasonForPolicyError`
unfoldable pub audit_reason_for_policy_error : AuthorizeError → Reason
audit_reason_for_policy_error unknown_identity = Reason.unknown_identity
audit_reason_for_policy_error unknown_profile = Reason.unknown_profile
audit_reason_for_policy_error csr_names_mismatch = Reason.csr_names_mismatch
audit_reason_for_policy_error (invalid_csr why) = Reason.invalid_csr
audit_reason_for_policy_error profile_not_allowed = Reason.profile_not_allowed

-- `if profile != nil { reqCtx.Profile = profile }`
abbrev pub set_profile : Option CompiledProfile → Context → Context
set_profile none c = c
set_profile (some p) c = record c { profile = some p }

-- `writeError`
unfoldable pub write_error : {S : Type 0} → ℕ → Text → World S → World S
write_error status message w = act (responded status (error_reply message)) w

-- The steps in their order: the next one runs if the last one returned true.
infixl 5 ◌▹◌
unfoldable pub ◌▹◌ :
    {S A B : Type 0} → Option A × World S → (A → World S → Option B × World S) → Option B × World S
(none, w) ▹ k = (none, w)
(some a, w) ▹ k = k a w

module _ {S : Type 0} (s : Server) where
  -- An event that is recorded, whether or not the recorder fails, and an error to the client.
  unfoldable pub answer_error : {A : Type 0} → Event × World S → ℕ → Text → Option A × World S
  unfolding write_error
  answer_error ew status message = (none, write_error status message (record_event s ew).1)

  -- `denyBadRequest`
  unfoldable pub deny_bad_request :
      Context → Reason → Failure → Text → World S → Option Context × World S
  deny_bad_request c reason why message w =
      answer_error
        (audit_event s c EventType.certificate_denied Severity.warn Decision.deny reason (some why)
          w)
        400 message

  authenticated : Context → Result AuthError Text → World S → Option Context × World S
  authenticated c (err e) w =
      answer_error
        (audit_event s c EventType.certificate_denied Severity.warn Decision.deny
          Reason.invalid_client_certificate (some (unauthenticated e)) w)
        401 (codes "unauthorized")
  authenticated c (ok identity) w =
      let c' : Context = record c { identity = identity } in
      (
        some c',
        (record_event s (
            audit_event s c' EventType.certificate_request_received Severity.info Decision.allow
              Reason.ok none w)).1,
      )

  -- The clock is read for the validity of the client certificate.
  unfoldable pub authenticate_issue_request : Context → World S → Option Context × World S
  unfolding authenticated
  authenticate_issue_request c w =
      authenticated c (identity_from_request (s.now w.trace) c.request.peers) (act clock_read w)

  parsed_csr : Context → Result CsrError CertificateRequest → World S → Option Context × World S
  parsed_csr c (err e) w =
      deny_bad_request c Reason.invalid_csr (csr_refused e) (codes "invalid csr") w
  parsed_csr c (ok csr) w = (some (record c { csr = some csr }), w)

  parsed_body : Context → Option IssueBody → World S → Option Context × World S
  unfolding parsed_csr
  parsed_body c none w =
      deny_bad_request c Reason.invalid_request malformed (codes "invalid request") w
  parsed_body c (some req) w =
      if is_empty req.profile || is_empty req.csr_pem
      then deny_bad_request (record c { profile_name = req.profile }) Reason.invalid_request
          fields_required (codes "invalid request") w
      else parsed_csr (record c { profile_name = req.profile; csr_pem = req.csr_pem })
          (parse_csr_pem s.crypto req.csr_pem) w

  unfoldable pub parse_issue_request : Context → World S → Option Context × World S
  unfolding parsed_body
  parse_issue_request c w =
      if c.request.body_fails || ltb max_issue_request_body_bytes (length c.request.body)
      then deny_bad_request c Reason.invalid_request body_unreadable (codes "invalid request") w
      else parsed_body c (s.unmarshal c.request.body) w

  decided :
      Context → Option CompiledProfile → Option AuthorizeError → World S → Option Context × World S
  decided c profile none w = (some (record c { profile = profile }), w)
  decided c profile (some e) w =
      answer_error
        (audit_event s (set_profile profile c) EventType.certificate_denied Severity.warn
          Decision.deny (audit_reason_for_policy_error e) (some (policy_refused e)) w)
        403 (codes "forbidden")

  under_policy : Context → Option CompiledPolicy → World S → Option Context × World S
  unfolding decided
  under_policy c none w =
      answer_error
        (audit_event s c EventType.certificate_issue_failed Severity.error Decision.error
          Reason.issuer_failed (some policy_not_loaded) w)
        503 (codes "policy not loaded")
  under_policy c (some pol) w =
      let d = authorize pol c.identity c.profile_name c.csr in
      decided (record c { policy = some pol }) d.profile d.error w

  unfoldable pub authorize_issue_request : Context → World S → Option Context × World S
  unfolding under_policy
  authorize_issue_request c w = under_policy c w.manager.current w

  fingerprinted : Context → Result CsrError Text → World S → Option Context × World S
  fingerprinted c (err e) w =
      deny_bad_request c Reason.invalid_csr (csr_refused e) (codes "invalid csr") w
  fingerprinted c (ok fp) w = (some (record c { public_key_fp = fp }), w)

  -- A request that is nil is dereferenced.
  unfoldable pub attach_public_key_fingerprint : Context → World S → Option Context × World S
  unfolding fingerprinted
  attach_public_key_fingerprint c w = elim c.csr [
    | none ↦ (none, act panicked w)
    | some csr ↦ fingerprinted c (public_key_fingerprint s.crypto csr.public_key) w
  ]

  -- Behind the barrier, or an error to the client.
  unfoldable pub behind_barrier : {A : Type 0} → A → Bool × World S → Option A × World S
  behind_barrier a (true, w) = (some a, w)
  behind_barrier a (false, w) = (none, write_error 503 (codes "audit unavailable") w)

  unfoldable pub record_authorized_issue : Context → World S → Option Context × World S
  unfolding behind_barrier
  record_authorized_issue c w = behind_barrier c (
      audit_barrier s (
        audit_event s c EventType.certificate_authorized Severity.info Decision.allow Reason.ok none
          w))

  within_limit : Context → Limiter × Option LimitError → World S → Option Context × World S
  within_limit c (l, none) w = (some c, record w { rate_limiter = l })
  within_limit c (l, some e) w =
      answer_error
        (audit_event s c EventType.certificate_denied Severity.warn Decision.deny
          Reason.rate_limited (some (limited e)) (record w { rate_limiter = l }))
        429 (codes "rate limited")

  unfoldable pub check_issue_rate_limit : Context → World S → Option Context × World S
  unfolding within_limit
  check_issue_rate_limit c w =
      within_limit c (allow w.rate_limiter (s.now w.trace) c.identity c.profile_name)
        (act clock_read w)
