-- ===== src/Pki.antt =====
-- internal/pki: the certificate bundle that the broker hands out, and what the code reads of the
-- types of crypto/x509.
pub mod Csr
pub mod Cert
pub mod Key
pub mod Serial
use certplane.Base.{Bool, Option, List}
use certplane.Base.Int.{ℤ}
use certplane.Base.Text.{Text}
use certplane.Clock.{Time}

-- `pki.Bundle`
pub record Bundle : Type 0 where
  pub cert_pem : Text
  pub chain_pem : Text
  pub full_chain_pem : Text
  pub leaf_serial_number : Text
  pub not_before : Time
  pub not_after : Time

-- `x509.CertificateRequest`: a public key is named by a text.
pub record CertificateRequest : Type 0 where
  pub dns_names : List Text
  pub public_key : Text

-- `x509.ExtKeyUsage`: the usage that the broker asks for, and the others.
pub data ExtKeyUsage : Type 0 where
  client_auth other_usage : ExtKeyUsage

-- `x509.Certificate`; `raw` is its DER encoding, and a serial number may be nil.
pub record Certificate : Type 0 where
  pub raw : Text
  pub serial_number : Option ℤ
  pub common_name : Text
  pub dns_names : List Text
  pub public_key : Text
  pub is_ca : Bool
  pub not_before : Time
  pub not_after : Time
  pub ext_key_usage : List ExtKeyUsage
