-- ===== src/Broker/Listen.antt =====
-- internal/broker/http.go: `ListenAndServe`, from the first audit event to the last request. The library
-- net/http serves the calls of clients until the context ends, or fails. It runs them concurrently;
-- here they come one after the other, in the order of `calls`.
pub mod Listened
use certplane.Base.{Bool, Option, none, some, List, [], ◌∷◌, Result, ok, err, if◌then◌else◌}
use certplane.Base.Text.{Text}
use certplane.Audit.{Event, EventType, Severity, Decision, Reason}
use certplane.Store.Contract.{CertificateStore}
use certplane.Settings.Broker.{BrokerConfig}
use certplane.Broker.{Request, Server, World}
use certplane.Broker.Recording.{record_event}
use certplane.Broker.Handler.{issue_certificate}
use certplane.Broker.Http.{
  HttpServer, ServerError, serving, http_server, Route, to_issue, to_healthz, to_readyz,
  method_not_allowed, not_found, route,
}

-- The call of a client.
pub record ClientCall : Type 0 where
  pub method : Text
  pub path : Text
  pub request : Request

-- The event of `ListenAndServe`, whose other fields are the zero values.
abbrev pub started_event : Event
started_event = record {
  event_id = [];
  request_id = [];
  timestamp = 0;
  type = EventType.broker_started;
  severity = Severity.info;
  decision = Decision.allow;
  identity = [];
  profile_name = [];
  profile_hash = [];
  policy_hash = [];
  reason_code = Reason.ok;
  reason = [];
  error = [];
  source_ip = [];
  user_agent = [];
  csr_sha256 = [];
  csr_public_key_sha256 = [];
  csr_dns_names = [];
  expected_dns_names = [];
  issuer_name = [];
  issuer_directory = [];
  acme_order_url = [];
  cert_serial_number = [];
  cert_not_before = none;
  cert_not_after = none;
  cache_result = [];
  metadata = [];
}

module _ (C : CertificateStore) (s : Server) where
  -- Only the issue handler changes anything; `healthz` and `readyz` read, and net/http answers the rest.
  handle : Route → Request → World C.State → World C.State
  handle to_issue r w = issue_certificate C s r w
  handle to_healthz r w = w
  handle to_readyz r w = w
  handle method_not_allowed r w = w
  handle not_found r w = w

  unfoldable pub serve_calls : List ClientCall → World C.State → World C.State
  unfolding handle
  serve_calls [] w = w
  serve_calls (c ∷ cs) w = serve_calls cs (handle (route c.method c.path) c.request w)

  -- `closed` tells that the server ends by `http.ErrServerClosed`.
  unfoldable pub listen :
      List ClientCall
      → Bool
      → Result ServerError HttpServer
      → World C.State
      → Option ServerError × World C.State
  unfolding serve_calls
  listen calls closed (err e) w = (some e, w)
  listen calls closed (ok server) w = (
    if closed then none else some serving,
    serve_calls calls (record_event s (started_event, w)).1,
  )

  -- `ListenAndServe`
  unfoldable pub listen_and_serve :
      (Text → Option Text)
      → (Text → Bool)
      → BrokerConfig
      → List ClientCall
      → Bool
      → World C.State
      → Option ServerError × World C.State
  unfolding listen
  listen_and_serve read_file append_certs cfg calls closed w =
      listen calls closed (http_server read_file append_certs cfg) w
