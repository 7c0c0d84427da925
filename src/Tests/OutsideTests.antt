-- ===== src/Tests/OutsideTests.antt =====
-- internal/secrets, internal/broker/issuer/acme, internal/ca/providers/stepca, the migrations and
-- cmd/broker: runs, and the theorems at concrete data.
use certplane.Base.{Result, All, ◌≡◌, refl, Bool, true, false, Option, none, some, [], ◌∷◌, ok, err}
use certplane.Base.Int.{pos}
use certplane.Base.Text.{Text, codes, text_eq, to_lower, trim_space, elem}
use certplane.Base.Dict.{lookup, insert}
use certplane.Pki.{Bundle, Certificate}
use certplane.Pki.Csr.{parse_csr_pem}
use certplane.Pki.Cert.{X509, parse_certificate_pem}
use certplane.Pki.Key.{signer}
use certplane.Pki.Serial.{serial_string}
use certplane.Policy.Manager.{decoded}
use certplane.Policy.Manager.Watching.{HoldsCompiled}
use certplane.Secrets.{FileRead, holds}
use certplane.Secrets.Vault.{
  VaultServer, VaultProvider, a_string, vault_get, read_vault, trim_slashes, trim_right_slashes,
  trim_left_slashes,
}
use certplane.Broker.{IssueRequest}
use certplane.Broker.Http.{to_issue, method_not_allowed, route}
use certplane.Acme.{
  Issuer, Lego, issue, new_client, configure_dns_provider, cloudflare_provider, bundle_of,
}
use certplane.Acme.Account.{load_or_create_account_key, create_account_key, new_account_key}
use certplane.Acme.Stable.{load_or_create_account_key_stable}
use certplane.Acme.Issued.{IsIssued, issue-IsIssued}
use certplane.Agent.{write_file_atomic}
use certplane.Ca.{IdentityCertificate}
use certplane.Ca.StepCa.{Step, SignResponse}
use certplane.Store.Migrations.{
  Statement, commit, Schema, sqlite_migrations, migrate, ensure_migration_table,
  migration_already_applied, apply_migration, migrations_loop, has_version,
}
use certplane.Store.Migrations.Migrated.{Migrated, Has, IsComplete, migrate-once}
use certplane.Settings.Loading
use certplane.Settings.Broker.Usable.{IsUsable}
use certplane.Commands.{CommandError, Site, Machine, Started, prepare, run_serve}
use certplane.Commands.Serving.{StoreReady, run_serve_ready}
use certplane.Settings.Loading.{load_broker, load_yaml}
use certplane.Settings.Broker.{apply_broker_defaults, validate_broker}
use certplane.Settings.Logging.{apply_logging_defaults, validate_logging}
use certplane.Policy.Manager.{new_manager, load, reload}
use certplane.Policy.Compile.{
  compile, compile_profiles, compile_hosts, compile_profile, compile_host, validate_profile_type,
}
use certplane.Dnsname.{is_valid_wildcard, canonical_list}
use certplane.Policy.Hash.{
  sorted_map_keys, compute_profile_hash, compute_policy_hash, hash_canonical,
}
use certplane.Base.Text.{
  text_ltb, trim_suffix, trim_prefix, contains_any, contains_text, has_prefix, has_suffix, has_code,
  count_code,
}
use certplane.Base.Text.Split.{split}
use certplane.Base.Sort.{sort}
use certplane.Base.Dict.{keys}
use certplane.Commands.{
  load_broker_config, build_secrets_provider, open_broker_store, build_issuer, acme_config,
}
use certplane.Store.Migrations.{new_sqlite_store}
use certplane.Acme.Account.{new_issuer}
use certplane.Tests.SettingsTests.{broker, parses}
use certplane.Tests.DiskData.{empty_disk, formats, formats-IsKeyFormats, leaf}
use certplane.Tests.Data.{today, web, name_a, crypto, client, digest, config}

-- A provider of Vault with one secret, which has white space around it.
abbrev vault : VaultServer
vault = record {
  kv1 = λ c mount name. ok none;
  kv2 = λ c mount name. ok (some ((codes "value", a_string (codes " secret ")) ∷ []));
}

abbrev vault_provider : VaultProvider
vault_provider = record {
  cfg = record {
    address = codes "https://vault";
    token = codes "t";
    token_file = [];
    mount_path = codes "secret";
    kv_version = pos 2;
    key = codes "value";
    timeout = pos 0;
    namespace = [];
  };
  client = record {
    address = codes "https://vault";
    token = codes "t";
    namespace = [];
    timeout = pos 0;
  };
}

vault_run : vault_get vault vault_provider (codes "/cf/") ≡ ok (codes "secret")
unfolding vault_get read_vault trim_slashes trim_right_slashes trim_left_slashes trim_space lookup
    text_eq
vault_run = refl

abbrev lookup_env : Text → Option Text
lookup_env name = some []

abbrev read_secret : Text → FileRead
read_secret path = holds (codes " ")

-- An ACME server that answers every request.
abbrev lego : Lego
lego = record {
  makes_client = λ c. true;
  register = λ c. some (codes "https://acme/1");
  parses_url = λ t. true;
  makes_provider = λ p. true;
  takes_provider = λ c p. true;
  obtain = λ c p r chain.
      some (some (record { certificate = codes "leaf"; issuer_certificate = codes "ca" }));
}

abbrev x509 : X509
x509 = record {
  pem_decode = λ t. some (record { type = codes "CERTIFICATE"; bytes = t });
  parse_certificate = λ t. some leaf;
  marshal_public_key = λ k. some k;
}

abbrev issuer : Issuer
issuer = record {
  cfg = record {
    directory_url = codes "https://acme";
    account_email = codes "a@b";
    account_key = codes "account.pem";
    dns_provider = codes "Cloudflare";
    preferred_chain = [];
    httpreq = record {
      endpoint = [];
      mode = [];
      username_secret = [];
      password_secret = [];
      propagation_timeout = pos 0;
      polling_interval = pos 0;
      http_timeout = pos 0;
      recursive_nameservers = [];
    };
  };
  secrets = some (vault_get vault vault_provider);
  user = record { email = codes "a@b"; registration = none; key = signer (codes "pub") };
}

abbrev issue_request : IssueRequest
issue_request = record {
  profile_name = web;
  dns_names = name_a ∷ [];
  csr_pem = codes "csr";
  acme_challenge = codes "dns-01";
  acme_credentials_name = codes "cf";
}

abbrev acme_bundle : Bundle
acme_bundle = record {
  cert_pem = codes "leaf";
  chain_pem = codes "ca";
  full_chain_pem = codes "leafca";
  leaf_serial_number = codes "2a";
  not_before = leaf.not_before;
  not_after = leaf.not_after;
}

issue_run : issue lego crypto x509 issuer issue_request ≡ ok acme_bundle
unfolding issue new_client configure_dns_provider cloudflare_provider bundle_of vault_get read_vault
    trim_slashes trim_right_slashes trim_left_slashes trim_space lookup text_eq to_lower
    parse_csr_pem parse_certificate_pem serial_string
issue_run = refl

issue-IsIssued_example : IsIssued lego crypto x509 issuer issue_request acme_bundle
issue-IsIssued_example = issue-IsIssued lego crypto x509 issuer issue_request acme_bundle issue_run

created_run :
    (load_or_create_account_key formats (codes "account.pem") empty_disk).0
    ≡ ok (signer (codes "pub"))
unfolding load_or_create_account_key create_account_key new_account_key write_file_atomic lookup
    insert text_eq
created_run = refl

load_or_create_account_key_stable_example :
    load_or_create_account_key formats
      (codes "account.pem")
      (load_or_create_account_key formats (codes "account.pem") empty_disk).1
    ≡ (
      ok (signer (codes "pub")),
      (load_or_create_account_key formats (codes "account.pem") empty_disk).1,
    )
load_or_create_account_key_stable_example =
    load_or_create_account_key_stable formats formats-IsKeyFormats (codes "account.pem") empty_disk
      (signer (codes "pub")) created_run

abbrev step : Step
step = record {
  makes_client = λ c. true;
  x509_key_pair = λ c k. some k;
  sign = λ c r token. none;
  renew = λ c. none;
  pem_encode = λ b. b.bytes;
}

abbrev ca : Certificate
ca = record client { raw = codes "ca der" }

-- What step-ca answers: the leaf, its issuer, and the chain of both.
abbrev sign_response : SignResponse
sign_response = record {
  server_pem = some leaf;
  ca_pem = some ca;
  cert_chain = some leaf ∷ some ca ∷ [];
}

-- The issuer stands in the chain twice.
abbrev identity : IdentityCertificate
identity = record {
  certificate = leaf;
  cert_pem = leaf.raw;
  chain_pem = codes "ca derca der";
  not_before = leaf.not_before;
  not_after = leaf.not_after;
}

-- A database without tables, and a run that fails at its commit.
abbrev no_schema : Schema
no_schema = record { tables = []; indexes = []; applied = [] }

abbrev no_faults : Statement → Bool
no_faults st = false

abbrev commit_fails : Statement → Bool
commit_fails commit = true
commit_fails _ = false

no_schema-IsComplete : IsComplete sqlite_migrations no_schema
unfolding has_version
no_schema-IsComplete = (λ h. absurd (cc h), tt)

migrate-once_example :
    Migrated sqlite_migrations no_schema (migrate no_faults sqlite_migrations no_schema)
    × ((migrate no_faults sqlite_migrations no_schema).0 ≡ none
        → All (Has (migrate no_faults sqlite_migrations no_schema).1) sqlite_migrations
          × ((g : Statement → Bool)
              → (migrate g sqlite_migrations (migrate no_faults sqlite_migrations no_schema).1).1
                ≡ (migrate no_faults sqlite_migrations no_schema).1))
migrate-once_example =
    migrate-once no_faults sqlite_migrations no_schema (tt, tt) no_schema-IsComplete

migrate_run : (migrate no_faults sqlite_migrations no_schema).0 ≡ none
unfolding migrate ensure_migration_table migrations_loop migration_already_applied apply_migration
    has_version elem text_eq
migrate_run = refl

rollback_run : (migrate commit_fails sqlite_migrations no_schema).1 ≡ no_schema
unfolding migrate ensure_migration_table migrations_loop migration_already_applied apply_migration
    has_version elem text_eq
rollback_run = refl

abbrev site : Site
site = record {
  parses = parses;
  config_file = λ path. Loading.decoded broker;
  policy_file = λ path. decoded today config;
  digest = digest;
  lookup_env = lookup_env;
  getenv = λ name. [];
  read_secret = read_secret;
  makes_vault_client = λ a. true;
  vault = vault;
  opening = record { mkdir_fails = false; open_fails = false };
  faults = no_faults;
  key_formats = formats;
  lego = lego;
}

abbrev machine : Machine
machine = record { disk = empty_disk; schema = no_schema }

run_serve_ready_example :
    ((st : Started)
      → (run_serve site (codes "broker.yaml") machine).0 ≡ ok st
      → (IsUsable site.parses st.cfg × HoldsCompiled site.digest st.manager)
        × StoreReady site st.cfg st.store (run_serve site (codes "broker.yaml") machine).1.schema)
    × ((e : CommandError)
        → prepare site (codes "broker.yaml") ≡ err e
        → run_serve site (codes "broker.yaml") machine ≡ (err e, machine))
run_serve_ready_example = run_serve_ready site (codes "broker.yaml") machine no_schema-IsComplete

abbrev is_started : Result CommandError Started → Bool
is_started (ok st) = true
is_started (err e) = false

-- The broker reaches its server.
serve_run : is_started (run_serve site (codes "broker.yaml") machine).0 ≡ true
unfolding run_serve prepare load_broker_config load_broker load_yaml apply_broker_defaults
    validate_broker apply_logging_defaults validate_logging elem text_eq new_manager load compile
    compile_profiles compile_hosts compile_profile compile_host validate_profile_type
    is_valid_wildcard sorted_map_keys compute_profile_hash compute_policy_hash hash_canonical
    canonical_list text_ltb trim_space trim_suffix trim_prefix to_lower contains_any contains_text
    has_prefix has_suffix has_code count_code split sort lookup insert keys build_secrets_provider
    open_broker_store new_sqlite_store migrate ensure_migration_table migrations_loop
    migration_already_applied apply_migration has_version build_issuer new_issuer acme_config
    load_or_create_account_key create_account_key new_account_key write_file_atomic new_client
    reload
serve_run = refl

issue_route_run : route (codes "POST") (codes "/v1/certificates") ≡ to_issue
unfolding route text_eq
issue_route_run = refl

get_route_run : route (codes "GET") (codes "/v1/certificates") ≡ method_not_allowed
unfolding route text_eq
get_route_run = refl
