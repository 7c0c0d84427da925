-- ===== src/Ca.antt =====
-- internal/ca/identity.go: what the agent asks of an identity provider. The child models the provider
-- of internal/ca/providers/stepca.
pub mod StepCa
use certplane.Base.{Result}
use certplane.Base.Text.{Text}
use certplane.Clock.{Time}
use certplane.Pki.{Certificate}

pub record EnrollmentRequest : Type 0 where
  pub csr_pem : Text
  pub token : Text

pub record RenewalRequest : Type 0 where
  pub cert_pem : Text
  pub key_pem : Text
  pub issuer_ca_pem : Text

pub record IdentityCertificate : Type 0 where
  pub certificate : Certificate
  pub cert_pem : Text
  pub chain_pem : Text
  pub not_before : Time
  pub not_after : Time

-- `IdentityCA`: an enroller and a renewer, whose errors are texts.
pub record IdentityCa : Type 0 where
  pub enroll : EnrollmentRequest → Result Text IdentityCertificate
  pub renew : RenewalRequest → Result Text IdentityCertificate
