-- ===== src/Audit/Names.antt =====
-- internal/broker/audit/event.go: the strings of the constants, and the values that strings stand for.
use certplane.Base.{◌≡◌, refl, Option, none, some, [], ◌∷◌}
use certplane.Base.Text.{Text, codes, text_eq}
use certplane.Base.Dict.{Dict, lookup}
use certplane.Audit.{EventType, Severity, Decision, Reason}

or_else : {A : Type 0} → Option A → A → A
or_else none d = d
or_else (some a) d = a

-- `string(x)` of a value of the type, and `audit.EventType(s)`.
unfoldable pub event_type_text : EventType → Text
event_type_text EventType.broker_started = codes "broker_started"
event_type_text EventType.policy_loaded = codes "policy_loaded"
event_type_text EventType.policy_reload_failed = codes "policy_reload_failed"
event_type_text EventType.certificate_request_received = codes "certificate_request_received"
event_type_text EventType.certificate_authorized = codes "certificate_authorized"
event_type_text EventType.certificate_denied = codes "certificate_denied"
event_type_text EventType.certificate_cache_hit = codes "certificate_cache_hit"
event_type_text EventType.certificate_cache_miss = codes "certificate_cache_miss"
event_type_text EventType.certificate_issued = codes "certificate_issued"
event_type_text EventType.certificate_issue_failed = codes "certificate_issue_failed"
event_type_text (EventType.other s) = s

event_type_names : Dict EventType
event_type_names =
    (codes "broker_started", EventType.broker_started)
    ∷ (codes "policy_loaded", EventType.policy_loaded)
    ∷ (codes "policy_reload_failed", EventType.policy_reload_failed)
    ∷ (codes "certificate_request_received", EventType.certificate_request_received)
    ∷ (codes "certificate_authorized", EventType.certificate_authorized)
    ∷ (codes "certificate_denied", EventType.certificate_denied)
    ∷ (codes "certificate_cache_hit", EventType.certificate_cache_hit)
    ∷ (codes "certificate_cache_miss", EventType.certificate_cache_miss)
    ∷ (codes "certificate_issued", EventType.certificate_issued)
    ∷ (codes "certificate_issue_failed", EventType.certificate_issue_failed)
    ∷ []

unfoldable pub event_type_of : Text → EventType
unfolding event_type_names or_else lookup text_eq
event_type_of s = or_else (lookup s event_type_names) (EventType.other s)

-- One of the constants.
abbrev pub IsEventType : EventType → Type 0
IsEventType (EventType.other s) = ⊥
IsEventType _ = Unit

pub event_type_of_text : (x : EventType) → IsEventType x → event_type_of (event_type_text x) ≡ x
unfolding event_type_of event_type_text
event_type_of_text EventType.broker_started h = refl
event_type_of_text EventType.policy_loaded h = refl
event_type_of_text EventType.policy_reload_failed h = refl
event_type_of_text EventType.certificate_request_received h = refl
event_type_of_text EventType.certificate_authorized h = refl
event_type_of_text EventType.certificate_denied h = refl
event_type_of_text EventType.certificate_cache_hit h = refl
event_type_of_text EventType.certificate_cache_miss h = refl
event_type_of_text EventType.certificate_issued h = refl
event_type_of_text EventType.certificate_issue_failed h = refl
event_type_of_text (EventType.other s) h = absurd h

-- `string(x)` of a value of the type, and `audit.Severity(s)`.
unfoldable pub severity_text : Severity → Text
severity_text Severity.info = codes "info"
severity_text Severity.warn = codes "warn"
severity_text Severity.error = codes "error"
severity_text (Severity.other s) = s

severity_names : Dict Severity
severity_names =
    (codes "info", Severity.info)
    ∷ (codes "warn", Severity.warn)
    ∷ (codes "error", Severity.error)
    ∷ []

unfoldable pub severity_of : Text → Severity
unfolding severity_names or_else lookup text_eq
severity_of s = or_else (lookup s severity_names) (Severity.other s)

-- One of the constants.
abbrev pub IsSeverity : Severity → Type 0
IsSeverity (Severity.other s) = ⊥
IsSeverity _ = Unit

pub severity_of_text : (x : Severity) → IsSeverity x → severity_of (severity_text x) ≡ x
unfolding severity_of severity_text
severity_of_text Severity.info h = refl
severity_of_text Severity.warn h = refl
severity_of_text Severity.error h = refl
severity_of_text (Severity.other s) h = absurd h

-- `string(x)` of a value of the type, and `audit.Decision(s)`.
unfoldable pub decision_text : Decision → Text
decision_text Decision.allow = codes "allow"
decision_text Decision.deny = codes "deny"
decision_text Decision.issue = codes "issue"
decision_text Decision.cache_hit = codes "cache_hit"
decision_text Decision.cache_miss = codes "cache_miss"
decision_text Decision.error = codes "error"
decision_text (Decision.other s) = s

decision_names : Dict Decision
decision_names =
    (codes "allow", Decision.allow)
    ∷ (codes "deny", Decision.deny)
    ∷ (codes "issue", Decision.issue)
    ∷ (codes "cache_hit", Decision.cache_hit)
    ∷ (codes "cache_miss", Decision.cache_miss)
    ∷ (codes "error", Decision.error)
    ∷ []

unfoldable pub decision_of : Text → Decision
unfolding decision_names or_else lookup text_eq
decision_of s = or_else (lookup s decision_names) (Decision.other s)

-- One of the constants.
abbrev pub IsDecision : Decision → Type 0
IsDecision (Decision.other s) = ⊥
IsDecision _ = Unit

pub decision_of_text : (x : Decision) → IsDecision x → decision_of (decision_text x) ≡ x
unfolding decision_of decision_text
decision_of_text Decision.allow h = refl
decision_of_text Decision.deny h = refl
decision_of_text Decision.issue h = refl
decision_of_text Decision.cache_hit h = refl
decision_of_text Decision.cache_miss h = refl
decision_of_text Decision.error h = refl
decision_of_text (Decision.other s) h = absurd h

-- The reasons are untyped string constants.
unfoldable pub reason_text : Reason → Text
reason_text Reason.ok = codes "ok"
reason_text Reason.no_client_certificate = codes "no_client_certificate"
reason_text Reason.invalid_client_certificate = codes "invalid_client_certificate"
reason_text Reason.unknown_identity = codes "unknown_identity"
reason_text Reason.profile_not_allowed = codes "profile_not_allowed"
reason_text Reason.unknown_profile = codes "unknown_profile"
reason_text Reason.invalid_request = codes "invalid_request"
reason_text Reason.invalid_csr = codes "invalid_csr"
reason_text Reason.csr_names_mismatch = codes "csr_names_mismatch"
reason_text Reason.rate_limited = codes "rate_limited"
reason_text Reason.cache_hit = codes "cache_hit"
reason_text Reason.cache_miss = codes "cache_miss"
reason_text Reason.issuer_failed = codes "issuer_failed"
reason_text (Reason.other s) = s

reason_names : Dict Reason
reason_names =
    (codes "ok", Reason.ok)
    ∷ (codes "no_client_certificate", Reason.no_client_certificate)
    ∷ (codes "invalid_client_certificate", Reason.invalid_client_certificate)
    ∷ (codes "unknown_identity", Reason.unknown_identity)
    ∷ (codes "profile_not_allowed", Reason.profile_not_allowed)
    ∷ (codes "unknown_profile", Reason.unknown_profile)
    ∷ (codes "invalid_request", Reason.invalid_request)
    ∷ (codes "invalid_csr", Reason.invalid_csr)
    ∷ (codes "csr_names_mismatch", Reason.csr_names_mismatch)
    ∷ (codes "rate_limited", Reason.rate_limited)
    ∷ (codes "cache_hit", Reason.cache_hit)
    ∷ (codes "cache_miss", Reason.cache_miss)
    ∷ (codes "issuer_failed", Reason.issuer_failed)
    ∷ []

unfoldable pub reason_of : Text → Reason
unfolding reason_names or_else lookup text_eq
reason_of s = or_else (lookup s reason_names) (Reason.other s)

-- One of the constants.
abbrev pub IsReason : Reason → Type 0
IsReason (Reason.other s) = ⊥
IsReason _ = Unit

pub reason_of_text : (x : Reason) → IsReason x → reason_of (reason_text x) ≡ x
unfolding reason_of reason_text
reason_of_text Reason.ok h = refl
reason_of_text Reason.no_client_certificate h = refl
reason_of_text Reason.invalid_client_certificate h = refl
reason_of_text Reason.unknown_identity h = refl
reason_of_text Reason.profile_not_allowed h = refl
reason_of_text Reason.unknown_profile h = refl
reason_of_text Reason.invalid_request h = refl
reason_of_text Reason.invalid_csr h = refl
reason_of_text Reason.csr_names_mismatch h = refl
reason_of_text Reason.rate_limited h = refl
reason_of_text Reason.cache_hit h = refl
reason_of_text Reason.cache_miss h = refl
reason_of_text Reason.issuer_failed h = refl
reason_of_text (Reason.other s) h = absurd h
