-- ===== src/Acme.antt =====
-- internal/broker/issuer/acme/acme.go: the issuer that asks an ACME server for certificates. The
-- library lego with the server behind it is the record `Lego`.
pub mod Account
pub mod Stable
pub mod Issued
use certplane.Base.{
  Bool, true, false, not, ◌||◌, Option, none, some, List, [], ◌∷◌, ◌++◌, Result, ok, err, ◌>>=◌,
  ◌>>◌, refuse, map_err, if◌then◌else◌,
}
use certplane.Base.Text.{Text, codes, is_empty, text_eq, to_lower}
use certplane.Clock.{Duration}
use certplane.Pki.{Bundle, CertificateRequest}
use certplane.Pki.Csr.{Crypto, CsrError, parse_csr_pem}
use certplane.Pki.Cert.{X509, CertError, parse_certificate_pem}
use certplane.Pki.Key.{AnyKey}
use certplane.Pki.Serial.{serial_string}
use certplane.Secrets.{Provider, SecretError}
use certplane.Settings.{default_text}
use certplane.Broker.{IssueRequest}

-- `HTTPReqConfig` and `Config`
pub record HttpreqConfig : Type 0 where
  pub endpoint : Text
  pub mode : Text
  pub username_secret : Text
  pub password_secret : Text
  pub propagation_timeout : Duration
  pub polling_interval : Duration
  pub http_timeout : Duration
  pub recursive_nameservers : List Text

pub record AcmeIssuerConfig : Type 0 where
  pub directory_url : Text
  pub account_email : Text
  pub account_key : Text
  pub dns_provider : Text
  pub preferred_chain : Text
  pub httpreq : HttpreqConfig

-- `accountUser`; a registration is its URI.
pub record AccountUser : Type 0 where
  pub email : Text
  pub registration : Option Text
  pub key : AnyKey

-- `Issuer`; `none` is a provider of secrets that is nil.
pub record Issuer : Type 0 where
  pub cfg : AcmeIssuerConfig
  pub secrets : Option Provider
  pub user : AccountUser

-- The settings of the two DNS providers of lego.
pub record HttpreqSettings : Type 0 where
  pub endpoint : Text
  pub mode : Text
  pub username : Text
  pub password : Text
  pub propagation_timeout : Duration
  pub polling_interval : Duration
  pub http_timeout : Duration

pub data DnsProvider : Type 0 where
  cloudflare : Text → DnsProvider
  httpreq : HttpreqSettings → List Text → DnsProvider

-- `lego.Client`, by the directory and the account it is made with.
pub record LegoClient : Type 0 where
  pub directory : Text
  pub user : AccountUser

-- `certificate.Resource`
pub record Resource : Type 0 where
  pub certificate : Text
  pub issuer_certificate : Text

-- What lego answers: whether it makes a client, a registration, a DNS provider, and takes it; and what
-- the server gives for a signing request, which may be no resource at all.
pub record Lego : Type 0 where
  pub makes_client : LegoClient → Bool
  pub register : LegoClient → Option Text
  pub parses_url : Text → Bool
  pub makes_provider : DnsProvider → Bool
  pub takes_provider : LegoClient → DnsProvider → Bool
  pub obtain : LegoClient → DnsProvider → CertificateRequest → Text → Option (Option Resource)

pub data AcmeError : Type 0 where
  no_directory no_email no_account_key creating_client registering : AcmeError
  unsupported_challenge no_secrets no_credentials_name unsupported_provider : AcmeError
  parsing_endpoint creating_provider setting_provider obtaining empty_resource : AcmeError
  reading_key not_pem unsupported_key generating_key marshaling_key writing_key : AcmeError
  resolving : SecretError → AcmeError
  parsing_csr : CsrError → AcmeError
  parsing_certificate : CertError → AcmeError

abbrev pub require_acme : {A : Type 0} → AcmeError → Option A → Result AcmeError A
require_acme e none = err e
require_acme e (some a) = ok a

-- `AccountKeyID`
unfoldable pub account_key_id : Issuer → Text
account_key_id i = elim i.user.registration [
  | none ↦ i.cfg.account_email
  | some uri ↦ if is_empty uri then i.cfg.account_email else uri
]

module _ (lego : Lego) where
  -- `newClient`
  unfoldable pub new_client : Issuer → Result AcmeError LegoClient
  new_client i = do
    let client : LegoClient = record { directory = i.cfg.directory_url; user = i.user }
    refuse (not (lego.makes_client client)) creating_client
    ok client

  -- A secret that is named, or an empty text where none is.
  unfoldable pub optional_secret : Option Provider → Text → Result AcmeError Text
  optional_secret secrets name =
      if is_empty name
      then ok []
      else (require_acme no_secrets secrets >>= λ get. map_err resolving (get name))

  -- `httpreqProvider`
  unfoldable pub httpreq_provider : Issuer → Result AcmeError HttpreqSettings
  httpreq_provider i = do
    let c = i.cfg.httpreq
    refuse (not (lego.parses_url c.endpoint)) parsing_endpoint
    username ← optional_secret i.secrets c.username_secret
    password ← optional_secret i.secrets c.password_secret
    ok (record {
      endpoint = c.endpoint;
      mode = c.mode;
      username = username;
      password = password;
      propagation_timeout = c.propagation_timeout;
      polling_interval = c.polling_interval;
      http_timeout = c.http_timeout;
    })

  -- The case `cloudflare`.
  unfoldable pub cloudflare_provider : Issuer → IssueRequest → Result AcmeError DnsProvider
  cloudflare_provider i req = do
    get ← require_acme no_secrets i.secrets
    refuse (is_empty req.acme_credentials_name) no_credentials_name
    token ← map_err resolving (get req.acme_credentials_name)
    ok (cloudflare token)

  pub choose_provider : Issuer → IssueRequest → Result AcmeError DnsProvider
  choose_provider i req =
      if text_eq (to_lower i.cfg.dns_provider) (codes "cloudflare")
      then cloudflare_provider i req
      else if text_eq (to_lower i.cfg.dns_provider) (codes "httpreq")
      then (httpreq_provider i >>= λ s. ok (httpreq s i.cfg.httpreq.recursive_nameservers))
      else err unsupported_provider

  -- `configureDNSProvider`: the provider that the client solves challenges with. The propagation is
  -- checked at the nameservers of the configuration, if there are any.
  unfoldable pub configure_dns_provider :
      Issuer → LegoClient → IssueRequest → Result AcmeError DnsProvider
  unfolding choose_provider
  configure_dns_provider i client req = do
    provider ← choose_provider i req
    refuse (not (lego.makes_provider provider)) creating_provider
    refuse (not (lego.takes_provider client provider)) setting_provider
    ok provider

  -- What is made of a certificate and its issuer.
  unfoldable pub bundle_of : X509 → Resource → Result AcmeError Bundle
  bundle_of x r = do
    refuse (is_empty r.certificate) empty_resource
    cert ← map_err parsing_certificate (parse_certificate_pem x r.certificate)
    ok (record {
      cert_pem = r.certificate;
      chain_pem = r.issuer_certificate;
      full_chain_pem = r.certificate ++ r.issuer_certificate;
      leaf_serial_number = serial_string cert.serial_number;
      not_before = cert.not_before;
      not_after = cert.not_after;
    })

  -- `Issue`
  unfoldable pub issue : Crypto → X509 → Issuer → IssueRequest → Result AcmeError Bundle
  issue crypto x i req = do
    refuse (not (text_eq req.acme_challenge (codes "dns-01"))) unsupported_challenge
    client ← new_client i
    provider ← configure_dns_provider i client req
    csr ← map_err parsing_csr (parse_csr_pem crypto req.csr_pem)
    obtained ← require_acme obtaining (lego.obtain client provider csr i.cfg.preferred_chain)
    resource ← require_acme empty_resource obtained
    bundle_of x resource
