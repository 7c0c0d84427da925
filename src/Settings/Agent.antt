-- ===== src/Settings/Agent.antt =====
-- config/agent.go: the agent's configuration.
pub mod Usable
use certplane.Base.{
  ℕ, suc, ◌*◌, Bool, true, false, not, ◌&&◌, ◌||◌, Option, none, some, List, [], ◌∷◌, ◌++◌, map,
  Result, ok, err, if◌then◌else◌, length, ◌==◌,
}
use certplane.Base.Int.{ℤ, pos}
use certplane.Base.Text.{Text, codes, is_empty, text_eq, elem}
use certplane.Clock.{Duration, hour}
use certplane.Dnsname
use certplane.Dnsname.{canonical_list}
use certplane.Settings.{check, default_text, default_int, seconds, not_positive}
use certplane.Settings.Logging.{
  LoggingConfig, LoggingError, apply_logging_defaults, validate_logging,
}

pub record StepCaConfig : Type 0 where
  pub url : Text
  pub fingerprint : Text
  pub root_ca_bundle : Text
  pub timeout : Duration

pub record AgentIdentityConfig : Type 0 where
  pub name : Text
  pub provider : Text
  pub cert : Text
  pub key : Text
  pub issuer_ca_bundle : Text
  pub bootstrap_token : Text
  pub renew_before : Duration
  pub warn_before : Duration
  pub step_ca : StepCaConfig

pub record AgentBrokerConfig : Type 0 where
  pub url : Text
  pub server_ca_bundle : Text
  pub timeout : Duration

pub record CertConfig : Type 0 where
  pub name : Text
  pub profile : Text
  pub dns_names : List Text
  pub key : Text
  pub cert : Text
  pub chain : Text
  pub full_chain : Text
  pub reload_command : Text
  pub reload_timeout : Duration
  pub renew_before : Duration

pub record AgentConfig : Type 0 where
  pub state_dir : Text
  pub identity : AgentIdentityConfig
  pub broker : AgentBrokerConfig
  pub certificates : List CertConfig
  pub logging : LoggingConfig

abbrev pub hours : ℕ → Duration
hours n = pos (n * hour)

unfoldable pub identity_defaults : AgentIdentityConfig → AgentIdentityConfig
identity_defaults c = record c {
  provider = default_text c.provider (codes "step-ca");
  renew_before = default_int c.renew_before (hours 8);
  warn_before = default_int c.warn_before (hours 24);
  step_ca = record c.step_ca { timeout = default_int c.step_ca.timeout (seconds 10) };
}

-- The loop over the certificates.
certificate_defaults : List CertConfig → List CertConfig
certificate_defaults [] = []
certificate_defaults (c ∷ cs) =
    record c {
      renew_before = default_int c.renew_before (hours 720);
      reload_timeout = default_int c.reload_timeout (seconds 30);
    }
    ∷ certificate_defaults cs

unfoldable pub apply_agent_defaults : AgentConfig → AgentConfig
unfolding identity_defaults certificate_defaults apply_logging_defaults
apply_agent_defaults c = record {
  state_dir = default_text c.state_dir (codes "/var/lib/certplane/agent");
  identity = identity_defaults c.identity;
  broker = record c.broker { timeout = default_int c.broker.timeout (seconds 30) };
  certificates = certificate_defaults c.certificates;
  logging = apply_logging_defaults (codes "info") (codes "text") (codes "stderr") c.logging;
}

-- How an error calls a certificate: by its name, or by its index.
pub data Label : Type 0 where
  named : Text → Label
  at_index : ℕ → Label

pub data AgentConfigError : Type 0 where
  identity_name_required identity_pair_required issuer_ca_bundle_required : AgentConfigError
  bad_identity_renew_before bad_identity_warn_before step_ca_url_required bad_step_ca_url :
      AgentConfigError
  step_ca_root_required bad_identity_provider broker_url_required bad_broker_url : AgentConfigError
  server_ca_bundle_required bad_broker_timeout no_certificate : AgentConfigError
  name_required : ℕ → AgentConfigError
  duplicate_name : Text → AgentConfigError
  profile_required dns_names_required files_required same_files : Label → AgentConfigError
  bad_renew_before bad_reload_timeout : Label → AgentConfigError
  bad_dns_names : Label → Dnsname.Error → AgentConfigError
  logging_refused : List LoggingError → AgentConfigError

abbrev logging_errors : List LoggingError → List AgentConfigError
logging_errors [] = []
logging_errors (e ∷ es) = logging_refused (e ∷ es) ∷ []

-- The errors of the names of a certificate.
validate_dns_names : Label → List Text → List AgentConfigError
validate_dns_names label [] = dns_names_required label ∷ []
validate_dns_names label (n ∷ ns) = elim (canonical_list (n ∷ ns)) [
  | err e ↦ bad_dns_names label e ∷ []
  | ok names ↦ []
]

-- `parses` is whether `url.ParseRequestURI` accepts a text, `clean` is `filepath.Clean`.
module _ (parses : Text → Bool) (clean : Text → Text) where
  validate_identity : AgentIdentityConfig → List AgentConfigError
  validate_identity c =
      check (is_empty c.name) identity_name_required
      ++ check (is_empty c.cert || is_empty c.key) identity_pair_required
      ++ check (is_empty c.issuer_ca_bundle) issuer_ca_bundle_required
      ++ check (not_positive c.renew_before) bad_identity_renew_before
      ++ check (not_positive c.warn_before) bad_identity_warn_before
      ++ (if text_eq c.provider (codes "step-ca")
          then check (is_empty c.step_ca.url) step_ca_url_required
            ++ check (not (parses c.step_ca.url)) bad_step_ca_url
            ++ check (is_empty c.step_ca.fingerprint && is_empty c.step_ca.root_ca_bundle)
                step_ca_root_required
          else bad_identity_provider ∷ [])

  validate_agent_broker : AgentBrokerConfig → List AgentConfigError
  validate_agent_broker c =
      (if is_empty c.url
        then broker_url_required ∷ []
        else check (not (parses c.url)) bad_broker_url)
      ++ check (is_empty c.server_ca_bundle) server_ca_bundle_required
      ++ check (not_positive c.timeout) bad_broker_timeout

  abbrev label_of : ℕ → Text → Label
  label_of i name = if is_empty name then at_index i else named name

  -- The body of the loop, with the names seen so far.
  unfoldable pub validate_certificate : ℕ → List Text → CertConfig → List AgentConfigError
  unfolding validate_dns_names
  validate_certificate i seen c =
      let label = label_of i c.name in
      check (is_empty c.name) (name_required i)
      ++ check (not (is_empty c.name) && elem c.name seen) (duplicate_name c.name)
      ++ check (is_empty c.profile) (profile_required label)
      ++ validate_dns_names label c.dns_names
      ++ check (is_empty c.key || is_empty c.cert || is_empty c.chain || is_empty c.full_chain)
          (files_required label)
      ++ check
          (not (is_empty c.key) && not (is_empty c.cert) && text_eq (clean c.key) (clean c.cert))
          (same_files label)
      ++ check (not_positive c.renew_before) (bad_renew_before label)
      ++ check (not (is_empty c.reload_command) && not_positive c.reload_timeout)
          (bad_reload_timeout label)

  abbrev note_name : Text → List Text → List Text
  note_name name seen = if is_empty name then seen else name ∷ seen

  -- The loop; `i` is the index.
  validate_certificates : List CertConfig → ℕ → List Text → List AgentConfigError
  validate_certificates [] i seen = []
  validate_certificates (c ∷ cs) i seen =
      validate_certificate i seen c ++ validate_certificates cs (suc i) (note_name c.name seen)

  unfoldable pub validate_agent : AgentConfig → List AgentConfigError
  unfolding validate_identity validate_agent_broker validate_certificates
  validate_agent c =
      validate_identity c.identity
      ++ validate_agent_broker c.broker
      ++ check (length c.certificates == 0) no_certificate
      ++ validate_certificates c.certificates 0 []
      ++ logging_errors (validate_logging c.logging)
