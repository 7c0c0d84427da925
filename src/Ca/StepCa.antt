-- ===== src/Ca/StepCa.antt =====
-- internal/ca/providers/stepca/provider.go: the identity provider of step-ca. The library of step with
-- the server behind it, crypto/tls and encoding/pem are the record `Step`.
pub mod Chain
use certplane.Base.{
  Bool, true, false, not, ◌&&◌, ◌||◌, Option, none, some, List, [], ◌∷◌, ◌++◌, Result, ok, err,
  ◌>>=◌, ◌>>◌, refuse, map_err, if◌then◌else◌,
}
use certplane.Base.Text.{Text, codes, is_empty, text_eq, trim_space}
use certplane.Clock.{Duration}
use certplane.Pki.{Certificate, CertificateRequest}
use certplane.Pki.Csr.{Crypto, CsrError, PemBlock, parse_csr_pem}
use certplane.Settings.{default_int, seconds}
use certplane.Ca.{EnrollmentRequest, RenewalRequest, IdentityCertificate, IdentityCa}

-- `Config`
pub record StepConfig : Type 0 where
  pub url : Text
  pub fingerprint : Text
  pub root_ca_path : Text
  pub timeout : Duration

-- The options that a client is made with; a TLS certificate is named by a text.
pub data ClientOption : Type 0 where
  with_timeout : Duration → ClientOption
  with_certificate with_root_file with_root_sha256 : Text → ClientOption

pub record StepClient : Type 0 where
  pub url : Text
  pub options : List ClientOption

-- `SignResponse`: certificates that may be nil.
pub record SignResponse : Type 0 where
  pub server_pem : Option Certificate
  pub ca_pem : Option Certificate
  pub cert_chain : List (Option Certificate)

-- Whether a client is made, a key pair of PEM texts, what the server answers to a signing request with
-- a token and to a renewal (with no response at all as `none`), and PEM.
pub record Step : Type 0 where
  pub makes_client : StepClient → Bool
  pub x509_key_pair : Text → Text → Option Text
  pub sign : StepClient → CertificateRequest → Text → Option (Option SignResponse)
  pub renew : StepClient → Option (Option SignResponse)
  pub pem_encode : PemBlock → Text

-- `Provider`
pub record StepProvider : Type 0 where
  pub cfg : StepConfig
  pub client : StepClient

pub data StepError : Type 0 where
  no_url no_trust creating_client creating_renewal_client empty_token invalid_signature : StepError
  no_cert_or_key loading_key_pair signing renewing nil_response no_leaf : StepError
  parsing_csr : CsrError → StepError

abbrev pub require_step : {A : Type 0} → StepError → Option A → Result StepError A
require_step e none = err e
require_step e (some a) = ok a

-- The root that a client trusts: the file comes before the fingerprint.
unfoldable pub root_option : StepConfig → ClientOption
root_option cfg =
    if is_empty cfg.root_ca_path
    then with_root_sha256 cfg.fingerprint
    else with_root_file cfg.root_ca_path

-- A certificate of a list that is there.
first_certificate : List (Option Certificate) → Option Certificate
first_certificate [] = none
first_certificate (c ∷ cs) = c

-- The leaf: the server's certificate, or the first one of the chain.
unfoldable pub leaf_of : SignResponse → Option Certificate
unfolding first_certificate
leaf_of r = elim r.server_pem [ none ↦ first_certificate r.cert_chain | some c ↦ some c ]

module _ (s : Step) where
  -- `certToPEM`
  unfoldable pub cert_to_pem : Certificate → Text
  cert_to_pem c = s.pem_encode (record { type = codes "CERTIFICATE"; bytes = c.raw })

  -- The loop over the chain, which leaves out the leaf.
  unfoldable pub append_chain : Certificate → List (Option Certificate) → Text
  append_chain leaf [] = []
  append_chain leaf (none ∷ cs) = append_chain leaf cs
  append_chain leaf (some c ∷ cs) =
      let rest = append_chain leaf cs in
      if text_eq c.raw leaf.raw then rest else cert_to_pem c ++ rest

  pub ca_text : Option Certificate → Text
  ca_text none = []
  ca_text (some c) = cert_to_pem c

  -- `identityFromSignResponse`
  unfoldable pub identity_from_sign_response :
      Option SignResponse → Result StepError IdentityCertificate
  unfolding ca_text
  identity_from_sign_response response = do
    r ← require_step nil_response response
    leaf ← require_step no_leaf (leaf_of r)
    ok (record {
      certificate = leaf;
      cert_pem = cert_to_pem leaf;
      chain_pem = ca_text r.ca_pem ++ append_chain leaf r.cert_chain;
      not_before = leaf.not_before;
      not_after = leaf.not_after;
    })

  -- `newClient` and `newClientWithCertificate`
  unfoldable pub new_step_client : StepConfig → Result StepError StepClient
  new_step_client cfg = do
    let client : StepClient = record {
      url = cfg.url;
      options = with_timeout cfg.timeout ∷ root_option cfg ∷ [];
    }
    refuse (not (s.makes_client client)) creating_client
    ok client

  unfoldable pub new_step_client_with_certificate : StepConfig → Text → Result StepError StepClient
  new_step_client_with_certificate cfg cert = do
    let client : StepClient = record {
      url = cfg.url;
      options = with_timeout cfg.timeout ∷ with_certificate cert ∷ root_option cfg ∷ [];
    }
    refuse (not (s.makes_client client)) creating_renewal_client
    ok client

  -- `New`
  unfoldable pub new_provider : StepConfig → Result StepError StepProvider
  new_provider cfg0 = do
    refuse (is_empty cfg0.url) no_url
    refuse (is_empty cfg0.fingerprint && is_empty cfg0.root_ca_path) no_trust
    let cfg : StepConfig = record cfg0 { timeout = default_int cfg0.timeout (seconds 10) }
    client ← new_step_client cfg
    ok (record { cfg = cfg; client = client })

  -- `Enroll`
  unfoldable pub step_enroll :
      Crypto → StepProvider → EnrollmentRequest → Result StepError IdentityCertificate
  step_enroll crypto p req = do
    let token = trim_space req.token
    refuse (is_empty token) empty_token
    csr ← map_err parsing_csr (parse_csr_pem crypto req.csr_pem)
    refuse (not (crypto.check_signature csr)) invalid_signature
    response ← require_step signing (s.sign p.client csr token)
    identity_from_sign_response response

  -- `Renew`
  unfoldable pub step_renew : StepProvider → RenewalRequest → Result StepError IdentityCertificate
  step_renew p req = do
    refuse (is_empty req.cert_pem || is_empty req.key_pem) no_cert_or_key
    tls_cert ← require_step loading_key_pair (s.x509_key_pair req.cert_pem req.key_pem)
    client ← new_step_client_with_certificate p.cfg tls_cert
    response ← require_step renewing (s.renew client)
    identity_from_sign_response response

  -- The provider as the identity provider of the agent; `text` prints an error.
  unfoldable pub step_ca : Crypto → (StepError → Text) → StepProvider → IdentityCa
  step_ca crypto text p = record {
    enroll = λ req. map_err text (step_enroll crypto p req);
    renew = λ req. map_err text (step_renew p req);
  }
