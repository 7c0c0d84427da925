-- ===== src/Pki/Cert.antt =====
-- internal/pki/cert.go: certificates in PEM, and the tests on their keys, names and times. What
-- encoding/pem and crypto/x509 answer are the fields of `X509`.
use certplane.Base.{
  Bool, not, Option, none, some, Result, ok, err, ◌>>=◌, ◌>>◌, refuse, map_err, ltb, List,
}
use certplane.Base.Int.{leb_ℤ}
use certplane.Base.Text.{Text, codes, text_eq}
use certplane.Clock.{Time, Duration, until}
use certplane.Dnsname
use certplane.Dnsname.{canonical_list, equal_set}
use certplane.Pki.{Certificate}
use certplane.Pki.Csr.{PemBlock}

pub record X509 : Type 0 where
  pub pem_decode : Text → Option PemBlock
  pub parse_certificate : Text → Option Certificate
  pub marshal_public_key : Text → Option Text

pub data CertError : Type 0 where
  no_pem_block parsing marshaling_certificate_key marshaling_private_key key_mismatch
        names_mismatch :
      CertError
  unexpected_type : Text → CertError
  canonicalizing_actual canonicalizing_expected : Dnsname.Error → CertError

abbrev pub require_cert : {A : Type 0} → CertError → Option A → Result CertError A
require_cert e none = err e
require_cert e (some a) = ok a

-- `ExpiresWithin` and `IsExpired`, at the time `now`.
unfoldable pub expires_within : Time → Certificate → Duration → Bool
expires_within now cert d = leb_ℤ (until now cert.not_after) d

unfoldable pub is_expired : Time → Certificate → Bool
is_expired now cert = ltb cert.not_after now

-- `CertificateHasExactDNSNames`
unfoldable pub certificate_has_exact_dns_names :
    Certificate → List Text → Result CertError (Unit {0})
certificate_has_exact_dns_names cert expected = do
  actual ← map_err canonicalizing_actual (canonical_list cert.dns_names)
  exp ← map_err canonicalizing_expected (canonical_list expected)
  refuse (not (equal_set actual exp)) names_mismatch

module _ (x : X509) where
  unfoldable pub parse_certificate_pem : Text → Result CertError Certificate
  parse_certificate_pem pem = do
    block ← require_cert no_pem_block (x.pem_decode pem)
    refuse (not (text_eq block.type (codes "CERTIFICATE"))) (unexpected_type block.type)
    require_cert parsing (x.parse_certificate block.bytes)

  -- `CertificateMatchesPrivateKey`, for the public part of the private key.
  unfoldable pub certificate_matches_private_key : Certificate → Text → Result CertError (Unit {0})
  certificate_matches_private_key cert public = do
    cert_der ← require_cert marshaling_certificate_key (x.marshal_public_key cert.public_key)
    key_der ← require_cert marshaling_private_key (x.marshal_public_key public)
    refuse (not (text_eq cert_der key_der)) key_mismatch
