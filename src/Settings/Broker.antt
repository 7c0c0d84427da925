-- ===== src/Settings/Broker.antt =====
-- config/broker.go: the broker's configuration.
pub mod Usable
use certplane.Base.{
  ℕ, Bool, true, false, not, ◌&&◌, ◌||◌, Option, none, some, List, [], ◌∷◌, ◌++◌, map,
  if◌then◌else◌,
}
use certplane.Base.Int.{ℤ, pos, negsuc, leb_ℤ, ltb_ℤ}
use certplane.Base.Text.{Text, codes, is_empty, text_eq, elem}
use certplane.Clock.{Duration}
use certplane.Settings.{check, default_text, default_int, seconds, not_positive}
use certplane.Settings.Logging.{
  LoggingConfig, LoggingError, apply_logging_defaults, validate_logging,
}

pub record ServerTlsConfig : Type 0 where
  pub cert : Text
  pub key : Text
  pub min_version : Text

pub record BrokerServerConfig : Type 0 where
  pub address : Text
  pub tls : ServerTlsConfig
  pub agent_ca_bundle : Text
  pub read_header_timeout : Duration
  pub read_timeout : Duration
  pub write_timeout : Duration
  pub idle_timeout : Duration

pub record BrokerPolicyConfig : Type 0 where
  pub path : Text
  pub watch : Bool

pub record HttpReqAcmeConfig : Type 0 where
  pub endpoint : Text
  pub mode : Text
  pub username_secret : Text
  pub password_secret : Text
  pub propagation_timeout : Duration
  pub polling_interval : Duration
  pub http_timeout : Duration
  pub recursive_nameservers : List Text

pub record AcmeConfig : Type 0 where
  pub directory_url : Text
  pub account_email : Text
  pub account_key : Text
  pub dns_provider : Text
  pub preferred_chain : Text
  pub httpreq : HttpReqAcmeConfig

pub record IssuerConfig : Type 0 where
  pub provider : Text
  pub acme : AcmeConfig

pub record VaultConfig : Type 0 where
  pub address : Text
  pub token : Text
  pub token_file : Text
  pub mount_path : Text
  pub kv_version : ℤ
  pub key : Text
  pub timeout : Duration
  pub namespace : Text

pub record SecretsConfig : Type 0 where
  pub provider : Text
  pub vault : VaultConfig

pub record StoreConfig : Type 0 where
  pub driver : Text
  pub path : Text

pub record AuditConfig : Type 0 where
  pub enabled : Option Bool
  pub failure_mode : Text
  pub mirror_to_log : Bool

pub record RateLimitsConfig : Type 0 where
  pub per_identity_per_hour : ℤ
  pub per_identity_profile_per_hour : ℤ

pub record BrokerConfig : Type 0 where
  pub server : BrokerServerConfig
  pub policy : BrokerPolicyConfig
  pub issuer : IssuerConfig
  pub secrets : SecretsConfig
  pub store : StoreConfig
  pub audit : AuditConfig
  pub rate_limits : RateLimitsConfig
  pub logging : LoggingConfig

-- The defaults, one function for each part of the configuration.
server_defaults : BrokerServerConfig → BrokerServerConfig
server_defaults c = record c {
  address = default_text c.address (codes ":8443");
  tls = record c.tls { min_version = default_text c.tls.min_version (codes "1.2") };
  read_header_timeout = default_int c.read_header_timeout (seconds 5);
  read_timeout = default_int c.read_timeout (seconds 10);
  write_timeout = default_int c.write_timeout (seconds 60);
  idle_timeout = default_int c.idle_timeout (seconds 120);
}

httpreq_defaults : HttpReqAcmeConfig → HttpReqAcmeConfig
httpreq_defaults c = record c {
  propagation_timeout = default_int c.propagation_timeout (seconds 30);
  polling_interval = default_int c.polling_interval (seconds 2);
  http_timeout = default_int c.http_timeout (seconds 10);
}

issuer_defaults : IssuerConfig → IssuerConfig
unfolding httpreq_defaults
issuer_defaults c = record {
  provider = default_text c.provider (codes "acme");
  acme = record c.acme { httpreq = httpreq_defaults c.acme.httpreq };
}

vault_defaults : VaultConfig → VaultConfig
vault_defaults c = record c {
  mount_path = default_text c.mount_path (codes "secret");
  kv_version = default_int c.kv_version (pos 2);
  key = default_text c.key (codes "value");
  timeout = default_int c.timeout (seconds 10);
}

unfoldable pub apply_broker_defaults : BrokerConfig → BrokerConfig
unfolding server_defaults issuer_defaults vault_defaults apply_logging_defaults
apply_broker_defaults c = record {
  server = server_defaults c.server;
  policy = c.policy;
  issuer = issuer_defaults c.issuer;
  secrets = record {
    provider = default_text c.secrets.provider (codes "env");
    vault = vault_defaults c.secrets.vault;
  };
  store = record {
    driver = default_text c.store.driver (codes "sqlite");
    path = default_text c.store.path (codes "/var/lib/certplane/broker.db");
  };
  audit = record c.audit { failure_mode = default_text c.audit.failure_mode (codes "fail_open") };
  rate_limits = record {
    per_identity_per_hour = default_int c.rate_limits.per_identity_per_hour (pos 50);
    per_identity_profile_per_hour =
        default_int c.rate_limits.per_identity_profile_per_hour (pos 20);
  };
  logging = apply_logging_defaults (codes "info") (codes "json") (codes "stdout") c.logging;
}

-- `AuditEnabled`
unfoldable pub audit_enabled : BrokerConfig → Bool
audit_enabled c = elim c.audit.enabled [ none ↦ true | some b ↦ b ]

pub data BrokerConfigError : Type 0 where
  cert_required key_required agent_ca_bundle_required bad_min_version bad_server_timeouts :
      BrokerConfigError
  policy_path_required directory_url_required bad_directory_url account_email_required :
      BrokerConfigError
  account_key_required dns_provider_required endpoint_required bad_endpoint bad_mode :
      BrokerConfigError
  bad_httpreq_timeouts bad_dns_provider bad_issuer_provider vault_address_required :
      BrokerConfigError
  bad_kv_version bad_secrets_provider store_path_required bad_store_driver : BrokerConfigError
  bad_failure_mode negative_per_identity negative_per_identity_profile : BrokerConfigError
  logging_refused : List LoggingError → BrokerConfigError

-- `if err := c.Logging.Validate(); err != nil`, of which the joined error is one error.
abbrev logging_errors : List LoggingError → List BrokerConfigError
logging_errors [] = []
logging_errors (e ∷ es) = logging_refused (e ∷ es) ∷ []

-- `parses` is whether `url.ParseRequestURI` accepts a text.
module _ (parses : Text → Bool) where
  validate_server : BrokerServerConfig → List BrokerConfigError
  validate_server c =
      check (is_empty c.tls.cert) cert_required
      ++ check (is_empty c.tls.key) key_required
      ++ check (is_empty c.agent_ca_bundle) agent_ca_bundle_required
      ++ check (not (elem c.tls.min_version (codes "1.2" ∷ codes "1.3" ∷ []))) bad_min_version
      ++ check
          (not_positive c.read_header_timeout
            || not_positive c.read_timeout
            || not_positive c.write_timeout
            || not_positive c.idle_timeout)
          bad_server_timeouts

  -- A text that is required, and is a URL if it is there.
  abbrev check_url : Text → BrokerConfigError → BrokerConfigError → List BrokerConfigError
  check_url url required bad = if is_empty url then required ∷ [] else check (not (parses url)) bad

  validate_httpreq : HttpReqAcmeConfig → List BrokerConfigError
  validate_httpreq c =
      check_url c.endpoint endpoint_required bad_endpoint
      ++ check (not (is_empty c.mode) && not (text_eq c.mode (codes "RAW"))) bad_mode
      ++ check
          (not_positive c.propagation_timeout
            || not_positive c.polling_interval
            || not_positive c.http_timeout)
          bad_httpreq_timeouts

  validate_dns_provider : AcmeConfig → List BrokerConfigError
  unfolding validate_httpreq
  validate_dns_provider c =
      if text_eq c.dns_provider (codes "cloudflare")
      then []
      else if text_eq c.dns_provider (codes "httpreq")
      then validate_httpreq c.httpreq
      else bad_dns_provider ∷ []

  validate_issuer : IssuerConfig → List BrokerConfigError
  unfolding validate_dns_provider
  validate_issuer c =
      if text_eq c.provider (codes "acme")
      then check_url c.acme.directory_url directory_url_required bad_directory_url
        ++ check (is_empty c.acme.account_email) account_email_required
        ++ check (is_empty c.acme.account_key) account_key_required
        ++ check (is_empty c.acme.dns_provider) dns_provider_required
        ++ validate_dns_provider c.acme
      else bad_issuer_provider ∷ []

  validate_secrets : SecretsConfig → List BrokerConfigError
  validate_secrets c =
      if elem c.provider (codes "env" ∷ codes "file" ∷ [])
      then []
      else if elem c.provider (codes "vault" ∷ codes "openbao" ∷ [])
      then check (is_empty c.vault.address) vault_address_required
        ++ check (ltb_ℤ c.vault.kv_version (pos 1) || ltb_ℤ (pos 2) c.vault.kv_version)
            bad_kv_version
      else bad_secrets_provider ∷ []

  validate_store : StoreConfig → List BrokerConfigError
  validate_store c =
      if elem c.driver (codes "sqlite" ∷ codes "file" ∷ [])
      then check (is_empty c.path) store_path_required
      else bad_store_driver ∷ []

  unfoldable pub validate_broker : BrokerConfig → List BrokerConfigError
  unfolding validate_server validate_issuer validate_secrets validate_store
  validate_broker c =
      validate_server c.server
      ++ check (is_empty c.policy.path) policy_path_required
      ++ validate_issuer c.issuer
      ++ validate_secrets c.secrets
      ++ validate_store c.store
      ++ check (not (elem c.audit.failure_mode (codes "fail_open" ∷ codes "fail_closed" ∷ [])))
          bad_failure_mode
      ++ check (ltb_ℤ c.rate_limits.per_identity_per_hour (pos 0)) negative_per_identity
      ++ check (ltb_ℤ c.rate_limits.per_identity_profile_per_hour (pos 0))
          negative_per_identity_profile
      ++ logging_errors (validate_logging c.logging)
