-- ===== src/Agent/Run.antt =====
-- internal/agent/run.go: `Run`, which takes the lock, renews the identity and looks after the
-- certificates in their order. The clock is read once, `now`; the client of the broker, the private
-- keys and the reload command are put together here.
pub mod ReadKeys
pub mod InOrder
pub mod Reported
pub mod Checked
pub mod Ready
pub mod Accepted
use certplane.Base.{
  Bool, true, false, Option, none, some, List, [], ◌∷◌, Result, ok, err, ◌>>=◌, ◌>>◌, refuse,
  map_err, not,
}
use certplane.Base.Text.{Text}
use certplane.Clock.{Time}
use certplane.Pki.Csr.{Crypto}
use certplane.Pki.Cert.{X509}
use certplane.Pki.Key.{
  KeyFormats, KeyError, EcdsaKey, parse_private_key_pem, generate_ecdsa_key,
  marshal_private_key_pem,
}
use certplane.Ca.{IdentityCa}
use certplane.Store.Sqlite.{Rfc3339}
use certplane.Settings.Agent.{AgentConfig, CertConfig}
use certplane.Agent.{
  Disk, AgentError, Outside, PrivateKey, file_exists, ensure_service_certificate, no_identity,
}
use certplane.Agent.Lock.{under_lock}
use certplane.Agent.Client.{
  ClientLibraries, ClientError, BrokerClient, HttpRequest, HttpResponse, new_broker_client, issue,
}
use certplane.Agent.Identity.{renew_identity_if_needed}

-- The libraries and the outside that a run is given.
pub record Platform : Type 0 where
  pub crypto : PrivateKey → Crypto
  pub x509 : X509
  pub key_formats : KeyFormats
  pub client_libraries : ClientLibraries
  pub rfc3339 : Rfc3339
  pub send : BrokerClient → HttpRequest → Option HttpResponse
  pub run_reload : Text → Bool
  pub client_error_text : ClientError → Text
  pub ca : IdentityCa

public_part : Result KeyError Text → Option Text
public_part (err e) = none
public_part (ok public) = some public

saved_form : Result KeyError PrivateKey → Option PrivateKey
saved_form (err e) = none
saved_form (ok key) = some key

-- A new key in PEM, as `EnsureECDSAPrivateKey` makes it.
unfoldable pub make_key : KeyFormats → Result KeyError PrivateKey
make_key f = do
  key ← generate_ecdsa_key f
  pem ← marshal_private_key_pem f key
  ok (record { pem = pem; public = key.public })

-- The outside that a certificate is looked after with, for a client of the broker.
unfoldable pub outside : Platform → BrokerClient → Outside
unfolding public_part saved_form
outside p client = record {
  crypto = p.crypto;
  x509 = p.x509;
  parse_key = λ pem. public_part (parse_private_key_pem p.key_formats pem);
  new_key = saved_form (make_key p.key_formats);
  issue = λ profile csr_pem.
      map_err p.client_error_text
        (issue p.client_libraries p.rfc3339 p.send client profile csr_pem);
  run_reload = p.run_reload;
}

-- What comes next, if there was no error.
pub and_then :
    Option AgentError × Disk → (Disk → Option AgentError × Disk) → Option AgentError × Disk
and_then (some e, d) next = (some e, d)
and_then (none, d) next = next d

-- The loop over the certificates: the first error ends it.
unfoldable pub ensure_certificates :
    Outside → Time → List CertConfig → Disk → Option AgentError × Disk
unfolding and_then
ensure_certificates o now [] d = (none, d)
ensure_certificates o now (c ∷ cs) d =
    and_then (ensure_service_certificate o now c d) (ensure_certificates o now cs)

-- The tests that come before any change of the disk.
unfoldable pub ready_client : Platform → AgentConfig → Disk → Result AgentError BrokerClient
ready_client p cfg d = do
  exists ← file_exists cfg.identity.cert d
  refuse (not exists) no_identity
  new_broker_client p.client_libraries cfg d

with_client :
    Platform → Time → AgentConfig → Result AgentError BrokerClient → Disk → Option AgentError × Disk
unfolding and_then
with_client p now cfg (err e) d = (some e, d)
with_client p now cfg (ok client) d =
    and_then (renew_identity_if_needed (outside p client) p.ca now cfg d)
      (ensure_certificates (outside p client) now cfg.certificates)

-- The body of `Run`, behind the lock.
unfoldable pub run_locked : Platform → Time → AgentConfig → Disk → Option AgentError × Disk
unfolding with_client
run_locked p now cfg d = with_client p now cfg (ready_client p cfg d) d

-- `Run`; `lock_path` is `agent.lock` in the directory of the state.
unfoldable pub run : Platform → Text → Text → Time → AgentConfig → Disk → Option AgentError × Disk
run p lock_path pid now cfg d = under_lock lock_path pid (run_locked p now cfg) d
