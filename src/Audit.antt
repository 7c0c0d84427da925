-- ===== src/Audit.antt =====
-- internal/broker/audit/event.go: the audit events. An empty text and `none` stand for a field that
-- is not set. A type that is a string in Go is an enumeration of the constants of the file, and `other`
-- for any other string. The children model recorder.go, and the conversions from and to strings.
pub mod Recorders
pub mod Names
use certplane.Base.{ℕ, Option, List}
use certplane.Base.Text.{Text}
use certplane.Base.Dict.{Dict}
use certplane.Clock.{Time}

pub data Severity : Type 0 where
  info warn error : Severity
  other : Text → Severity

pub data EventType : Type 0 where
  broker_started policy_loaded policy_reload_failed : EventType
  certificate_request_received certificate_authorized certificate_denied : EventType
  certificate_cache_hit certificate_cache_miss certificate_issued certificate_issue_failed :
      EventType
  other : Text → EventType

pub data Decision : Type 0 where
  allow deny issue cache_hit cache_miss error : Decision
  other : Text → Decision

pub data Reason : Type 0 where
  ok no_client_certificate invalid_client_certificate unknown_identity : Reason
  profile_not_allowed unknown_profile invalid_request invalid_csr csr_names_mismatch : Reason
  rate_limited cache_hit cache_miss issuer_failed : Reason
  other : Text → Reason

pub record Event : Type 0 where
  pub event_id : Text
  pub request_id : Text
  pub timestamp : Time
  pub type : EventType
  pub severity : Severity
  pub decision : Decision
  pub identity : Text
  pub profile_name : Text
  pub profile_hash : Text
  pub policy_hash : Text
  pub reason_code : Reason
  pub reason : Text
  pub error : Text
  pub source_ip : Text
  pub user_agent : Text
  pub csr_sha256 : Text
  pub csr_public_key_sha256 : Text
  pub csr_dns_names : List Text
  pub expected_dns_names : List Text
  pub issuer_name : Text
  pub issuer_directory : Text
  pub acme_order_url : Text
  pub cert_serial_number : Text
  pub cert_not_before : Option Time
  pub cert_not_after : Option Time
  pub cache_result : Text
  pub metadata : Dict Text
