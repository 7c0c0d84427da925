-- ===== src/Tests/SettingsTests.antt =====
-- config: runs of the loaders, and their theorems at concrete data.
use certplane.Base.{◌≡◌, refl, Bool, true, false, none, [], ◌∷◌, map, ok, All, length, ◌==◌}
use certplane.Base.Int.{pos}
use certplane.Base.Text.{
  Text, codes, text_eq, elem, trim_space, trim_suffix, to_lower, contains_any, contains_text,
  has_prefix, has_suffix, has_code, count_code,
}
use certplane.Base.Text.Split.{split}
use certplane.Base.Sort.{sort, IsDistinct}
use certplane.Dnsname.{canonical_list}
use certplane.Settings.Logging.{LoggingConfig, apply_logging_defaults, validate_logging}
use certplane.Settings.Broker.{BrokerConfig, apply_broker_defaults, validate_broker}
use certplane.Settings.Broker.Usable as BrokerUsable
use certplane.Settings.Agent.{
  AgentConfig, CertConfig, apply_agent_defaults, validate_agent, validate_certificate,
  identity_defaults,
}
use certplane.Settings.Agent.Usable.{IsUsable, name_of}
use certplane.Settings.Loading.{decoded, load_broker, load_agent, load_yaml}
use certplane.Settings.Loading.Loaded.{
  Limits, load_broker-IsUsable, load_broker-Limits, load_agent-IsUsable,
}
use certplane.Tests.Data.{agent, web}

abbrev no_logging : LoggingConfig
no_logging = record { level = []; format = []; destination = [] }

abbrev pub broker : BrokerConfig
broker = record {
  server = record {
    address = [];
    tls = record { cert = codes "cert.pem"; key = codes "key.pem"; min_version = [] };
    agent_ca_bundle = codes "agents.pem";
    read_header_timeout = pos 0;
    read_timeout = pos 0;
    write_timeout = pos 0;
    idle_timeout = pos 0;
  };
  policy = record { path = codes "policy.yaml"; watch = true };
  issuer = record {
    provider = [];
    acme = record {
      directory_url = codes "https://acme";
      account_email = codes "a@b";
      account_key = codes "account.pem";
      dns_provider = codes "cloudflare";
      preferred_chain = [];
      httpreq = record {
        endpoint = [];
        mode = [];
        username_secret = [];
        password_secret = [];
        propagation_timeout = pos 0;
        polling_interval = pos 0;
        http_timeout = pos 0;
        recursive_nameservers = [];
      };
    };
  };
  secrets = record {
    provider = [];
    vault = record {
      address = [];
      token = [];
      token_file = [];
      mount_path = [];
      kv_version = pos 0;
      key = [];
      timeout = pos 0;
      namespace = [];
    };
  };
  store = record { driver = []; path = [] };
  audit = record { enabled = none; failure_mode = []; mirror_to_log = false };
  rate_limits = record { per_identity_per_hour = pos 0; per_identity_profile_per_hour = pos 0 };
  logging = no_logging;
}

abbrev pub parses : Text → Bool
parses t = true

load_broker_run : load_broker parses (decoded broker) ≡ ok (apply_broker_defaults broker)
unfolding load_broker load_yaml apply_broker_defaults validate_broker apply_logging_defaults
    validate_logging elem text_eq
load_broker_run = refl

load_broker-IsUsable_example : BrokerUsable.IsUsable parses (apply_broker_defaults broker)
load_broker-IsUsable_example =
    load_broker-IsUsable parses (decoded broker) (apply_broker_defaults broker) load_broker_run

load_broker-Limits_example : Limits (apply_broker_defaults broker)
load_broker-Limits_example =
    load_broker-Limits parses (decoded broker) (apply_broker_defaults broker) load_broker_run

abbrev certificate : CertConfig
certificate = record {
  name = web;
  profile = web;
  dns_names = codes "a.example.org" ∷ [];
  key = codes "web.key";
  cert = codes "web.crt";
  chain = codes "chain.pem";
  full_chain = codes "fullchain.pem";
  reload_command = [];
  reload_timeout = pos 0;
  renew_before = pos 0;
}

abbrev agent_config : AgentConfig
agent_config = record {
  state_dir = [];
  identity = record {
    name = agent;
    provider = [];
    cert = codes "id.crt";
    key = codes "id.key";
    issuer_ca_bundle = codes "ca.pem";
    bootstrap_token = [];
    renew_before = pos 0;
    warn_before = pos 0;
    step_ca = record {
      url = codes "https://ca";
      fingerprint = codes "f";
      root_ca_bundle = [];
      timeout = pos 0;
    };
  };
  broker = record {
    url = codes "https://broker";
    server_ca_bundle = codes "broker.pem";
    timeout = pos 0;
  };
  certificates = certificate ∷ record certificate { name = codes "api" } ∷ [];
  logging = no_logging;
}

abbrev clean : Text → Text
clean t = t

load_agent_run :
    load_agent parses clean (decoded agent_config) ≡ ok (apply_agent_defaults agent_config)
unfolding load_agent load_yaml apply_agent_defaults validate_agent validate_certificate
    apply_logging_defaults validate_logging identity_defaults canonical_list elem sort text_eq
    trim_space trim_suffix to_lower contains_any contains_text has_prefix has_suffix has_code
    count_code split
load_agent_run = refl

load_agent-IsUsable_example :
    ((length (apply_agent_defaults agent_config).certificates == 0) ≡ false)
    × (All (IsUsable clean) (apply_agent_defaults agent_config).certificates
        × IsDistinct (map name_of (apply_agent_defaults agent_config).certificates))
load_agent-IsUsable_example =
    load_agent-IsUsable parses clean (decoded agent_config) (apply_agent_defaults agent_config)
      load_agent_run
