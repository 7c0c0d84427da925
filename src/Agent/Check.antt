-- ===== src/Agent/Check.antt =====
-- internal/agent/check.go: `Check`, which only reads.
use certplane.Base.{
  Bool, false, not, ◌&&◌, List, [], ◌∷◌, Result, ok, ◌>>=◌, ◌>>◌, refuse, map_err, if◌then◌else◌,
}
use certplane.Base.Text.{Text}
use certplane.Base.Dict.{lookup}
use certplane.Pki.Cert.{X509, CertError, parse_certificate_pem, certificate_matches_private_key}
use certplane.Pki.Key.{KeyFormats, KeyError, parse_private_key_pem}
use certplane.Settings.Agent.{AgentConfig, CertConfig}
use certplane.Agent.{Disk, AgentError, is_there, read_file}

pub data CheckError : Type 0 where
  identity_key_missing identity_cert_missing reading_key reading_cert : CheckError
  parsing_key : KeyError → CheckError
  parsing_cert mismatch : CertError → CheckError

abbrev pub as_check : {A : Type 0} → CheckError → Result AgentError A → Result CheckError A
as_check e r = map_err (λ _. e) r

-- `os.Stat`
unfoldable pub stat : Text → Disk → Bool
stat path d = if d.broken path then false else is_there (lookup path d.files)

module _ (x : X509) (f : KeyFormats) where
  -- A certificate that is there belongs to the key.
  check_there : CertConfig → Text → Disk → Result CheckError (Unit {0})
  check_there c public d = do
    cert_data ← as_check reading_cert (read_file c.cert d)
    cert ← map_err parsing_cert (parse_certificate_pem x cert_data)
    map_err mismatch (certificate_matches_private_key x cert public)

  -- One round of the loop: a certificate that is not there is passed over.
  unfoldable pub check_certificate : CertConfig → Disk → Result CheckError (Unit {0})
  unfolding check_there
  check_certificate c d = do
    key_data ← as_check reading_key (read_file c.key d)
    public ← map_err parsing_key (parse_private_key_pem f key_data)
    if not (d.broken c.cert) && not (is_there (lookup c.cert d.files))
        then ok tt
        else check_there c public d

  unfoldable pub check_certificates : List CertConfig → Disk → Result CheckError (Unit {0})
  check_certificates [] d = ok tt
  check_certificates (c ∷ cs) d = do check_certificate c d; check_certificates cs d

  -- `Check`
  unfoldable pub check : AgentConfig → Disk → Result CheckError (Unit {0})
  check cfg d = do
    refuse (not (stat cfg.identity.key d)) identity_key_missing
    refuse (not (stat cfg.identity.cert d)) identity_cert_missing
    check_certificates cfg.certificates d
