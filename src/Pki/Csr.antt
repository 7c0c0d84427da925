-- ===== src/Pki/Csr.antt =====
-- internal/pki/csr.go: signing requests, and the fingerprints of keys and requests. What encoding/pem,
-- crypto/x509 and crypto/sha256 answer are the fields of `Crypto`.
use certplane.Base.{
  Bool, not, Option, none, some, List, [], ◌∷◌, Result, ok, err, ◌>>=◌, ◌>>◌, refuse, map_err,
}
use certplane.Base.Text.{Text, codes, text_eq, is_empty, trim_space}
use certplane.Dnsname
use certplane.Dnsname.{canonical_list}
use certplane.Pki.{CertificateRequest}

pub record PemBlock : Type 0 where
  pub type : Text
  pub bytes : Text

-- The template that a request is created of.
pub record Template : Type 0 where
  pub common_name : Text
  pub dns_names : List Text

pub record Crypto : Type 0 where
  pub pem_decode : Text → Option PemBlock
  pub pem_encode : PemBlock → Text
  pub parse_certificate_request : Text → Option CertificateRequest
  pub check_signature : CertificateRequest → Bool
  pub marshal_public_key : Text → Option Text
  pub sha256_hex : Text → Text
  pub create_certificate_request : Template → Option Text

pub data CsrError : Type 0 where
  no_pem_block parsing invalid_signature marshaling_key no_identity no_dns_name creating : CsrError
  unexpected_type : Text → CsrError
  canonicalizing : Dnsname.Error → CsrError

abbrev pub csr_type : Text
csr_type = codes "CERTIFICATE REQUEST"

-- `if x == nil { return nil, err }`
abbrev pub require : {A : Type 0} → CsrError → Option A → Result CsrError A
require e none = err e
require e (some a) = ok a

module _ (x : Crypto) where
  unfoldable pub parse_csr_pem : Text → Result CsrError CertificateRequest
  parse_csr_pem data_bytes = do
    block ← require no_pem_block (x.pem_decode data_bytes)
    refuse (not (text_eq block.type csr_type)) (unexpected_type block.type)
    csr ← require parsing (x.parse_certificate_request block.bytes)
    refuse (not (x.check_signature csr)) invalid_signature
    ok csr

  unfoldable pub public_key_fingerprint : Text → Result CsrError Text
  public_key_fingerprint public_key = do
    der ← require marshaling_key (x.marshal_public_key public_key)
    ok (x.sha256_hex der)

  unfoldable pub csr_fingerprint : Text → Text
  csr_fingerprint csr_pem = x.sha256_hex csr_pem

  unfoldable pub create_csr : Template → Result CsrError Text
  create_csr tpl = do
    der ← require creating (x.create_certificate_request tpl)
    ok (x.pem_encode (record { type = csr_type; bytes = der }))

  -- The private key is part of what `create_certificate_request` stands for.
  unfoldable pub generate_identity_csr : Text → Result CsrError Text
  generate_identity_csr identity = do
    refuse (is_empty (trim_space identity)) no_identity
    create_csr (record { common_name = trim_space identity; dns_names = [] })

  service_template : List Text → Result CsrError Template
  service_template [] = err no_dns_name
  service_template (name ∷ names) = ok (record { common_name = name; dns_names = name ∷ names })

  unfoldable pub generate_service_csr : List Text → Result CsrError Text
  unfolding service_template
  generate_service_csr names = do
    canonical ← map_err canonicalizing (canonical_list names)
    tpl ← service_template canonical
    create_csr tpl
