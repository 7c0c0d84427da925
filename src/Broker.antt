-- ===== src/Broker.antt =====
-- internal/broker: the handler of POST /v1/certificates. The types of issue_types.go, issuer.go and
-- server.go, and the world that a request acts on; Recording models issue_audit.go, Steps and Handler
-- model issue.go. All that happens outside the process is a trace of actions, the latest first, and
-- what the outside answers is a function of that trace.
pub mod Recording
pub mod Steps
pub mod Issuing
pub mod Handler
pub mod Effects
pub mod Http
pub mod Listen
use certplane.Base.{ℕ, Bool, Option, List, [], ◌∷◌, Result}
use certplane.Base.Text.{Text}
use certplane.Clock.{Time}
use certplane.Dnsname
use certplane.Pki.{Bundle, CertificateRequest}
use certplane.Pki.Csr.{Crypto, CsrError}
use certplane.Policy.{CompiledPolicy, CompiledProfile}
use certplane.Policy.Authorize.{AuthorizeError}
use certplane.Policy.Manager.{Manager}
use certplane.Ratelimit.{Limiter, LimitError}
use certplane.Authn.{AuthError, Peers}
use certplane.Audit.{Event}
use certplane.Store.{StoreError}

-- `http.Request`, as far as it is read: the body is its bytes, or fails to be read.
pub record Request : Type 0 where
  pub peers : Peers
  pub body : Text
  pub body_fails : Bool
  pub remote_addr : Text
  pub user_agent : Text

-- `issueRequest`
pub record IssueBody : Type 0 where
  pub profile : Text
  pub csr_pem : Text

-- `issueResponse`
pub record IssueResponse : Type 0 where
  pub cert_pem : Text
  pub chain_pem : Text
  pub full_chain_pem : Text
  pub serial_number : Text
  pub not_before : Text
  pub not_after : Text
  pub cache : Text

-- `issuedResult`
pub record IssuedResult : Type 0 where
  pub bundle : Bundle
  pub cache : Text

-- `certificateRequestContext`; empty texts and `none` are the zero values.
pub record Context : Type 0 where
  pub request_id : Text
  pub request : Request
  pub identity : Text
  pub profile_name : Text
  pub policy : Option CompiledPolicy
  pub profile : Option CompiledProfile
  pub csr : Option CertificateRequest
  pub csr_pem : Text
  pub public_key_fp : Text

-- `issuer.IssueRequest`
pub record IssueRequest : Type 0 where
  pub profile_name : Text
  pub dns_names : List Text
  pub csr_pem : Text
  pub acme_challenge : Text
  pub acme_credentials_name : Text

-- The errors that reach an audit event.
pub data Failure : Type 0 where
  unauthenticated : AuthError → Failure
  body_unreadable malformed fields_required policy_not_loaded unexpected_type : Failure
  csr_refused : CsrError → Failure
  policy_refused : AuthorizeError → Failure
  limited : LimitError → Failure
  store_failed : StoreError → Failure
  issuer_failed : Text → Failure
  names_refused : Dnsname.Error → Failure

-- The body of a response.
pub data Reply : Type 0 where
  error_reply : Text → Reply
  issued_reply : IssueResponse → Reply

-- What the process does outside of its memory; an event is recorded or the recorder fails.
pub data Action : Type 0 where
  drew_id clock_read panicked : Action
  recorded : Event → Bool → Action
  asked : IssueRequest → Action
  responded : ℕ → Reply → Action

abbrev pub Trace : Type 0
Trace = List Action

-- A result of the single flight: `flightGroup.Do` hands out `any`.
pub data FlightResult : Type 0 where
  an_issued_result : IssuedResult → FlightResult
  another_type : FlightResult

-- `Server`: what a request only reads, with the libraries and the outside. `in_flight` is the result
-- of another call under the same key that is in flight, if there is one; `records` is `none` for a
-- recorder that is nil.
pub record Server : Type 0 where
  pub failure_mode : Text
  pub issuer_name : Text
  pub issuer_directory : Text
  pub issuer_account_key_id : Text
  pub crypto : Crypto
  pub new_id : Trace → Text → Option Text
  pub now : Trace → Time
  pub records : Option (Trace → Event → Bool)
  pub issue : Trace → IssueRequest → Result Text Bundle
  pub in_flight : Trace → Text → Option (Result Failure FlightResult)
  pub unmarshal : Text → Option IssueBody
  pub split_host_port : Text → Option Text
  pub rfc3339 : Time → Text
  pub error_text : Failure → Text

-- `Server`: what a request changes, with the trace.
pub record World (S : Type 0) : Type 0 where
  pub manager : Manager
  pub rate_limiter : Limiter
  pub store : S
  pub trace : Trace

abbrev pub act : {S : Type 0} → Action → World S → World S
act a w = record w { trace = a ∷ w.trace }
