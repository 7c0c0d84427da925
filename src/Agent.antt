-- ===== src/Agent.antt =====
-- internal/agent/run.go: the agent looks after one certificate. internal/fileutil/fs.go,
-- internal/pki/key.go and bundle.go are what it does with the disk. The disk is a map from paths to
-- contents, with what the next reads and writes of a path answer; temporary files are left out.
pub mod Lock
pub mod Client
pub mod Identity
pub mod Run
pub mod Check
pub mod Install
pub mod Touched
pub mod Stale
use certplane.Base.{
  Bool, true, false, not, Option, none, some, Result, ok, err, ◌>>=◌, ◌>>◌, refuse, map_err,
  if◌then◌else◌, List,
}
use certplane.Base.Text.{Text, codes, text_eq, is_empty, trim_space}
use certplane.Base.Dict.{Dict, lookup, insert}
use certplane.Clock.{Time}
use certplane.Pki.{Bundle, Certificate}
use certplane.Pki.Csr.{Crypto, CsrError, PemBlock, generate_service_csr}
use certplane.Pki.Cert.{
  X509, CertError, parse_certificate_pem, certificate_matches_private_key,
  certificate_has_exact_dns_names, expires_within,
}
use certplane.Settings.Agent.{CertConfig}

-- How an atomic write ends: done, failed before the rename, or failed behind it.
pub data WriteOutcome : Type 0 where
  written before_rename after_rename : WriteOutcome

pub record Disk : Type 0 where
  pub files : Dict Text
  pub broken : Text → Bool
  pub writes : Text → WriteOutcome
  pub mkdir_fails : Text → Bool
  pub create_fails : Text → Bool
  pub close_fails : Text → Bool
  pub remove_fails : Text → Bool

pub data AgentError : Type 0 where
  stat_failed read_failed write_failed parsing_key generating_key reload_failed : AgentError
  bad_certificate bad_issued : CertError → AgentError
  generating_csr : CsrError → AgentError
  requesting : Text → AgentError
  creating_lock_directory lock_exists creating_lock closing_lock remove_failed : AgentError
  no_identity identity_exists empty_token identity_expired : AgentError
  loading_key_pair no_ca_certificates : AgentError
  renewing enrolling : Text → AgentError

abbrev pub is_there : Option Text → Bool
is_there none = false
is_there (some t) = true

unfoldable pub file_exists : Text → Disk → Result AgentError Bool
file_exists path d = if d.broken path then err stat_failed else ok (is_there (lookup path d.files))

abbrev pub content : Option Text → Result AgentError Text
content none = err read_failed
content (some t) = ok t

-- `os.ReadFile`
unfoldable pub read_file : Text → Disk → Result AgentError Text
read_file path d = if d.broken path then err read_failed else content (lookup path d.files)

pub outcome_of : WriteOutcome → Text → Text → Disk → Option AgentError × Disk
outcome_of written path text d = (none, record d { files = insert path text d.files })
outcome_of before_rename path text d = (some write_failed, d)
outcome_of after_rename path text d =
    (some write_failed, record d { files = insert path text d.files })

-- `WriteFileAtomic`
unfoldable pub write_file_atomic : Text → Text → Disk → Option AgentError × Disk
unfolding outcome_of
write_file_atomic path text d = outcome_of (d.writes path) path text d

-- The next write, if the last one has succeeded.
and_write : Option AgentError × Disk → Text → Text → Option AgentError × Disk
and_write (some e, d) path text = (some e, d)
and_write (none, d) path text = write_file_atomic path text d

-- `WriteToDisk`
unfoldable pub write_to_disk : Bundle → Text → Text → Text → Disk → Option AgentError × Disk
unfolding and_write
write_to_disk b cert_path chain_path full_chain_path d =
    and_write (and_write (write_file_atomic cert_path b.cert_pem d) chain_path b.chain_pem)
      full_chain_path b.full_chain_pem

-- A private key: its PEM text and its public part.
pub record PrivateKey : Type 0 where
  pub pem : Text
  pub public : Text

-- The outside of the agent. `parse_key` is the public part of a private key in PEM, `new_key` what
-- `GenerateECDSAKey` and `MarshalPrivateKeyPEM` give, `issue` the answer of the broker to a profile
-- and a request, and `run_reload` whether the reload command succeeds.
pub record Outside : Type 0 where
  pub crypto : PrivateKey → Crypto
  pub x509 : X509
  pub parse_key : Text → Option Text
  pub new_key : Option PrivateKey
  pub issue : Text → Text → Result Text Bundle
  pub run_reload : Text → Bool

module _ (o : Outside) where
  parsed_key : Text → Option Text → Result AgentError PrivateKey
  parsed_key pem none = err parsing_key
  parsed_key pem (some public) = ok (record { pem = pem; public = public })

  unfoldable pub read_key : Text → Disk → Result AgentError PrivateKey
  unfolding parsed_key
  read_key path d = do pem ← read_file path d; parsed_key pem (o.parse_key pem)

  saved_key : PrivateKey → Option AgentError × Disk → Result AgentError PrivateKey × Disk
  saved_key key (some e, d) = (err e, d)
  saved_key key (none, d) = (ok key, d)

  save_key : Option PrivateKey → Text → Disk → Result AgentError PrivateKey × Disk
  unfolding saved_key
  save_key none path d = (err generating_key, d)
  save_key (some key) path d = saved_key key (write_file_atomic path key.pem d)

  found_key : Result AgentError Bool → Text → Disk → Result AgentError PrivateKey × Disk
  unfolding read_key save_key
  found_key (err e) path d = (err e, d)
  found_key (ok true) path d = (read_key path d, d)
  found_key (ok false) path d = save_key o.new_key path d

  -- `EnsureECDSAPrivateKey`
  unfoldable pub ensure_ecdsa_private_key : Text → Disk → Result AgentError PrivateKey × Disk
  unfolding found_key
  ensure_ecdsa_private_key path d = found_key (file_exists path d) path d

  -- The certificate that is there: `true` if it can be kept.
  keep_existing : Time → CertConfig → PrivateKey → Disk → Bool → Result AgentError Bool
  keep_existing now c key d false = ok false
  keep_existing now c key d true = do
    pem ← read_file c.cert d
    cert ← map_err bad_certificate (parse_certificate_pem o.x509 pem)
    map_err bad_certificate (certificate_matches_private_key o.x509 cert key.public)
    ok (not (expires_within now cert c.renew_before))

  unfoldable pub check_existing : Time → CertConfig → PrivateKey → Disk → Result AgentError Bool
  unfolding keep_existing
  check_existing now c key d = do exists ← file_exists c.cert d; keep_existing now c key d exists

  -- A bundle of the broker that has passed the tests of the agent.
  unfoldable pub obtain_bundle : CertConfig → PrivateKey → Result AgentError Bundle
  obtain_bundle c key = do
    csr_pem ← map_err generating_csr (generate_service_csr (o.crypto key) c.dns_names)
    b ← map_err requesting (o.issue c.profile csr_pem)
    cert ← map_err bad_issued (parse_certificate_pem o.x509 b.cert_pem)
    map_err bad_issued (certificate_matches_private_key o.x509 cert key.public)
    map_err bad_issued (certificate_has_exact_dns_names cert c.dns_names)
    ok b

  reloaded : CertConfig → Option AgentError × Disk → Option AgentError × Disk
  reloaded c (some e, d) = (some e, d)
  reloaded c (none, d) =
      if is_empty (trim_space c.reload_command)
      then (none, d)
      else (if o.run_reload c.reload_command then none else some reload_failed, d)

  install : CertConfig → Result AgentError Bundle → Disk → Option AgentError × Disk
  unfolding reloaded
  install c (err e) d = (some e, d)
  install c (ok b) d = reloaded c (write_to_disk b c.cert c.chain c.full_chain d)

  with_existing : CertConfig → PrivateKey → Result AgentError Bool → Disk → Option AgentError × Disk
  unfolding install
  with_existing c key (err e) d = (some e, d)
  with_existing c key (ok true) d = (none, d)
  with_existing c key (ok false) d = install c (obtain_bundle c key) d

  with_key : Time → CertConfig → Result AgentError PrivateKey × Disk → Option AgentError × Disk
  unfolding with_existing
  with_key now c (err e, d) = (some e, d)
  with_key now c (ok key, d) = with_existing c key (check_existing now c key d) d

  -- `ensureServiceCertificate`. The test whether the key is there, which comes first, answers as the
  -- one in `EnsureECDSAPrivateKey` does, and only chooses a line of the log.
  unfoldable pub ensure_service_certificate : Time → CertConfig → Disk → Option AgentError × Disk
  unfolding with_key
  ensure_service_certificate now c d = with_key now c (ensure_ecdsa_private_key c.key d)
