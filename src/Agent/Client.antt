-- ===== src/Agent/Client.antt =====
-- internal/agent/client.go: the agent's client of the broker. crypto/tls, crypto/x509 and encoding/json
-- are fields of `ClientLibraries`, and the broker behind the network is a function of the request.
pub mod Answered
use certplane.Base.{
  ℕ, zero, suc, Bool, true, false, ◌||◌, not, ltb, leb, Option, none, some, Result, ok, err, ◌>>=◌,
  ◌>>◌, refuse, ◌++◌, take,
}
use certplane.Base.Text.{Text, codes, trim_space}
use certplane.Clock.{Time, Duration}
use certplane.Pki.{Bundle}
use certplane.Store.Sqlite.{Rfc3339}
use certplane.Settings.Agent.{AgentConfig}
use certplane.Broker.{IssueBody, IssueResponse}
use certplane.Agent.{Disk, AgentError, read_file, loading_key_pair, no_ca_certificates}

-- An HTTP request, and what comes back; the body may fail to be read.
pub record HttpRequest : Type 0 where
  pub method : Text
  pub url : Text
  pub content_type : Text
  pub body : Text

pub record HttpResponse : Type 0 where
  pub status_code : ℕ
  pub body : Text
  pub body_fails : Bool

-- `BrokerClient` with its transport: the key pair it shows, the roots it trusts and its timeout.
pub record BrokerClient : Type 0 where
  pub base_url : Text
  pub key_pair : Text
  pub root_cas : Text
  pub timeout : Duration

-- `x509_key_pair` reads a certificate and its key in PEM, `append_certs` tells whether a bundle has a
-- certificate, `accepts_url` whether `http.NewRequest` takes a URL.
pub record ClientLibraries : Type 0 where
  pub x509_key_pair : Text → Text → Option Text
  pub append_certs : Text → Bool
  pub accepts_url : Text → Bool
  pub marshal_request : IssueBody → Option Text
  pub unmarshal_response : Text → Option IssueResponse

pub data ClientError : Type 0 where
  marshaling_request bad_url calling reading_response parsing_response : ClientError
  parsing_not_before parsing_not_after : ClientError
  broker_returned : ℕ → Text → ClientError

abbrev pub require_client : {E A : Type 0} → E → Option A → Result E A
require_client e none = err e
require_client e (some a) = ok a

-- `io.LimitReader(resp.Body, 2<<20)`
abbrev pub max_body : ℕ
max_body = 2_097_152

-- `NewBrokerClient`
unfoldable pub new_broker_client :
    ClientLibraries → AgentConfig → Disk → Result AgentError BrokerClient
new_broker_client x cfg d = do
  cert_pem ← read_file cfg.identity.cert d
  key_pem ← read_file cfg.identity.key d
  pair ← require_client loading_key_pair (x.x509_key_pair cert_pem key_pem)
  ca_data ← read_file cfg.broker.server_ca_bundle d
  refuse (not (x.append_certs ca_data)) no_ca_certificates
  ok (record {
    base_url = cfg.broker.url;
    key_pair = pair;
    root_cas = ca_data;
    timeout = cfg.broker.timeout;
  })

-- The response as a bundle.
unfoldable pub decode_response :
    ClientLibraries → Rfc3339 → HttpResponse → Result ClientError Bundle
decode_response x l resp = do
  refuse resp.body_fails reading_response
  let body = take max_body resp.body
  refuse (ltb resp.status_code 200 || leb 300 resp.status_code)
      (broker_returned resp.status_code (trim_space body))
  out ← require_client parsing_response (x.unmarshal_response body)
  not_before ← require_client parsing_not_before (l.parse out.not_before)
  not_after ← require_client parsing_not_after (l.parse out.not_after)
  ok (record {
    cert_pem = out.cert_pem;
    chain_pem = out.chain_pem;
    full_chain_pem = out.full_chain_pem;
    leaf_serial_number = out.serial_number;
    not_before = not_before;
    not_after = not_after;
  })

-- `Issue`, where `send` is what the network and the broker make of a request.
unfoldable pub issue :
    ClientLibraries
    → Rfc3339
    → (BrokerClient → HttpRequest → Option HttpResponse)
    → BrokerClient
    → Text
    → Text
    → Result ClientError Bundle
issue x l send c profile csr_pem = do
  payload ←
      require_client marshaling_request
        (x.marshal_request (record { profile = profile; csr_pem = csr_pem }))
  let url = c.base_url ++ codes "/v1/certificates"
  refuse (not (x.accepts_url url)) bad_url
  resp ← require_client calling (
      send c (record {
        method = codes "POST";
        url = url;
        content_type = codes "application/json";
        body = payload;
      }))
  decode_response x l resp
