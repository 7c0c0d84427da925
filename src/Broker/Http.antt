-- ===== src/Broker/Http.antt =====
-- internal/broker/http.go and `NewServer` of server.go: the HTTPS server around the handler. The
-- library net/http answers on a connection by the table of `route`; `HttpServer` is the record that it
-- is given.
use certplane.Base.{
  ℕ, Bool, not, ◌||◌, Option, none, some, [], ◌∷◌, ◌++◌, Result, ok, err, ◌>>=◌, ◌>>◌, refuse,
  if◌then◌else◌,
}
use certplane.Base.Text.{Text, codes, text_eq}
use certplane.Clock.{Duration}
use certplane.Policy.Manager.{Manager}
use certplane.Ratelimit.{Limiter, new}
use certplane.Settings.Broker.{BrokerConfig}

pub data ServerError : Type 0 where
  reading_ca_bundle no_certificates serving : ServerError

-- `tls.VersionTLS12` and `tls.VersionTLS13`
pub data TlsVersion : Type 0 where
  tls12 tls13 : TlsVersion

-- What is done with the certificates of clients: `tls.RequireAndVerifyClientCert`, or another type.
pub data ClientAuth : Type 0 where
  require_and_verify_client_cert another_client_auth : ClientAuth

-- `http.Server` with its TLS configuration; a pool is the bundle that it was made of.
pub record HttpServer : Type 0 where
  pub address : Text
  pub read_header_timeout : Duration
  pub read_timeout : Duration
  pub write_timeout : Duration
  pub idle_timeout : Duration
  pub min_version : TlsVersion
  pub client_auth : ClientAuth
  pub client_cas : Text

-- `tlsMinVersion`
unfoldable pub tls_min_version : Text → TlsVersion
tls_min_version version = if text_eq version (codes "1.3") then tls13 else tls12

ca_bundle : Option Text → Result ServerError Text
ca_bundle none = err reading_ca_bundle
ca_bundle (some text) = ok text

-- `loadCertPool`, where `append_certs` tells whether a bundle has a certificate.
unfoldable pub load_cert_pool :
    (Text → Option Text) → (Text → Bool) → Text → Result ServerError Text
unfolding ca_bundle
load_cert_pool read_file append_certs path = do
  text ← ca_bundle (read_file path)
  refuse (not (append_certs text)) no_certificates
  ok text

-- `HTTPServer`
unfoldable pub http_server :
    (Text → Option Text) → (Text → Bool) → BrokerConfig → Result ServerError HttpServer
http_server read_file append_certs cfg = do
  agent_ca_pool ← load_cert_pool read_file append_certs cfg.server.agent_ca_bundle
  ok (record {
    address = cfg.server.address;
    read_header_timeout = cfg.server.read_header_timeout;
    read_timeout = cfg.server.read_timeout;
    write_timeout = cfg.server.write_timeout;
    idle_timeout = cfg.server.idle_timeout;
    min_version = tls_min_version cfg.server.tls.min_version;
    client_auth = require_and_verify_client_cert;
    client_cas = agent_ca_pool;
  })

-- Where the multiplexer sends a request. A pattern of the method GET takes HEAD too.
pub data Route : Type 0 where
  to_healthz to_readyz to_issue method_not_allowed not_found : Route

is_get : Text → Bool
is_get method = text_eq method (codes "GET") || text_eq method (codes "HEAD")

unfoldable pub route : Text → Text → Route
unfolding is_get
route method path =
    if text_eq path (codes "/healthz")
    then (if is_get method then to_healthz else method_not_allowed)
    else if text_eq path (codes "/readyz")
    then (if is_get method then to_readyz else method_not_allowed)
    else if text_eq path (codes "/v1/certificates")
    then (if text_eq method (codes "POST") then to_issue else method_not_allowed)
    else not_found

-- A status code and a body.
pub record TextResponse : Type 0 where
  pub status : ℕ
  pub body : Text

abbrev newline : Text
newline = 10 ∷ []

-- `healthz` and `readyz`
unfoldable pub healthz : TextResponse
healthz = record { status = 200; body = codes "ok" ++ newline }

unfoldable pub readyz : Manager → TextResponse
readyz m = elim m.current [
  | none ↦ record { status = 503; body = codes "policy not loaded" ++ newline }
  | some policy ↦ record { status = 200; body = codes "ready" ++ newline }
]

-- The limiter of `NewServer`.
unfoldable pub server_limiter : BrokerConfig → Limiter
server_limiter cfg =
    new cfg.rate_limits.per_identity_per_hour cfg.rate_limits.per_identity_profile_per_hour
