-- ===== src/Agent/Identity.antt =====
-- internal/agent/renew.go and enroll.go: the identity of the agent. The clock is read once, `now`.
pub mod Enrolled
pub mod Renewed
use certplane.Base.{
  Bool, true, false, Option, none, some, Result, ok, err, ◌>>=◌, ◌>>◌, refuse, map_err,
  if◌then◌else◌,
}
use certplane.Base.Text.{Text, is_empty, trim_space}
use certplane.Clock.{Time}
use certplane.Pki.{Certificate}
use certplane.Pki.Csr.{generate_identity_csr}
use certplane.Pki.Cert.{parse_certificate_pem, expires_within, is_expired}
use certplane.Ca.{IdentityCa, IdentityCertificate, EnrollmentRequest, RenewalRequest}
use certplane.Settings.Agent.{AgentConfig}
use certplane.Agent.{
  Disk, AgentError, Outside, PrivateKey, read_file, file_exists, write_file_atomic, read_key,
  ensure_ecdsa_private_key, bad_certificate, generating_csr, identity_exists, empty_token,
  identity_expired, renewing, enrolling, remove_failed,
}
use certplane.Agent.Lock.{Removal, removed, not_there, not_removed, remove_file, under_lock}

-- The files that a renewal reads.
pub record IdentityFiles : Type 0 where
  pub cert_data : Text
  pub key_data : Text
  pub root_ca_data : Text
  pub cert : Certificate

module _ (o : Outside) (ca : IdentityCa) where
  unfoldable pub read_identity : AgentConfig → Disk → Result AgentError IdentityFiles
  read_identity cfg d = do
    cert_data ← read_file cfg.identity.cert d
    key_data ← read_file cfg.identity.key d
    root_ca_data ← read_file cfg.identity.issuer_ca_bundle d
    cert ← map_err bad_certificate (parse_certificate_pem o.x509 cert_data)
    ok (record {
      cert_data = cert_data;
      key_data = key_data;
      root_ca_data = root_ca_data;
      cert = cert;
    })

  write_renewed : AgentConfig → Result Text IdentityCertificate → Disk → Option AgentError × Disk
  write_renewed cfg (err e) d = (some (renewing e), d)
  write_renewed cfg (ok renewed) d = write_file_atomic cfg.identity.cert renewed.cert_pem d

  renew_read :
      Time → AgentConfig → Result AgentError IdentityFiles → Disk → Option AgentError × Disk
  unfolding write_renewed
  renew_read now cfg (err e) d = (some e, d)
  renew_read now cfg (ok f) d =
      if is_expired now f.cert
      then (some identity_expired, d)
      else if expires_within now f.cert cfg.identity.renew_before
      then write_renewed cfg
          (ca.renew (record {
            cert_pem = f.cert_data;
            key_pem = f.key_data;
            issuer_ca_pem = f.root_ca_data;
          }))
          d
      else (none, d)

  -- `RenewIdentityIfNeeded`
  unfoldable pub renew_identity_if_needed : Time → AgentConfig → Disk → Option AgentError × Disk
  unfolding renew_read
  renew_identity_if_needed now cfg d = renew_read now cfg (read_identity cfg d) d

  -- The answer of the identity provider to a request with the persisted key and the token.
  unfoldable pub ask_identity : AgentConfig → Disk → Result AgentError IdentityCertificate
  ask_identity cfg d = do
    key ← read_key o cfg.identity.key d
    token_data ← read_file cfg.identity.bootstrap_token d
    refuse (is_empty (trim_space token_data)) empty_token
    csr_pem ← map_err generating_csr (generate_identity_csr (o.crypto key) cfg.identity.name)
    map_err enrolling (ca.enroll (record { csr_pem = csr_pem; token = trim_space token_data }))

  token_removed : Removal × Disk → Option AgentError × Disk
  token_removed (removed, d) = (none, d)
  token_removed (not_there, d) = (some remove_failed, d)
  token_removed (not_removed, d) = (some remove_failed, d)

  remove_token : AgentConfig → Option AgentError × Disk → Option AgentError × Disk
  unfolding token_removed
  remove_token cfg (some e, d) = (some e, d)
  remove_token cfg (none, d) = token_removed (remove_file cfg.identity.bootstrap_token d)

  write_identity :
      AgentConfig → Result AgentError IdentityCertificate → Disk → Option AgentError × Disk
  unfolding remove_token
  write_identity cfg (err e) d = (some e, d)
  write_identity cfg (ok identity) d =
      remove_token cfg (write_file_atomic cfg.identity.cert identity.cert_pem d)

  with_identity_key : AgentConfig → Result AgentError PrivateKey × Disk → Option AgentError × Disk
  unfolding write_identity
  with_identity_key cfg (err e, d) = (some e, d)
  with_identity_key cfg (ok key, d) = write_identity cfg (ask_identity cfg d) d

  not_enrolled : AgentConfig → Result AgentError Bool → Disk → Option AgentError × Disk
  unfolding with_identity_key
  not_enrolled cfg (err e) d = (some e, d)
  not_enrolled cfg (ok true) d = (some identity_exists, d)
  not_enrolled cfg (ok false) d =
      with_identity_key cfg (ensure_ecdsa_private_key o cfg.identity.key d)

  -- The body of `Enroll`, behind the lock.
  unfoldable pub enroll_locked : AgentConfig → Disk → Option AgentError × Disk
  unfolding not_enrolled
  enroll_locked cfg d = not_enrolled cfg (file_exists cfg.identity.cert d) d

  -- `Enroll`; `lock_path` is `agent.lock` in the directory of the state.
  unfoldable pub enroll : Text → Text → AgentConfig → Disk → Option AgentError × Disk
  enroll lock_path pid cfg d = under_lock lock_path pid (enroll_locked cfg) d
