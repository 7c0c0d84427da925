-- ===== src/Commands.antt =====
-- cmd/broker/common.go, serve.go and policy.go: how the broker is put together. The libraries and the
-- outside are the record `Site`; what a start changes, the disk and the database, is `Machine`.
pub mod Serving
use certplane.Base.{
  Bool, true, false, not, ◌||◌, Option, none, some, List, [], ◌∷◌, Result, ok, err, ◌>>=◌, ◌>>◌,
  refuse, map_err, if◌then◌else◌,
}
use certplane.Base.Text.{Text, codes, text_eq, is_empty}
use certplane.Pki.Key.{KeyFormats}
use certplane.Policy.{CompiledPolicy}
use certplane.Policy.Hash.{Digest}
use certplane.Policy.Manager.{PolicyFile, LoadError, Manager, load, new_manager}
use certplane.Audit.Recorders.{Recorder, discard_record, new_multi_recorder, multi_record}
use certplane.Store.Migrations.{MigrationError, Opening, Faults, Schema, new_sqlite_store}
use certplane.Secrets.{Provider, FileRead, env_get, file_get, new_file_provider}
use certplane.Secrets.Vault.{
  VaultProviderConfig, VaultServer, VaultNewError, VaultProvider, new_vault_provider, vault_get,
}
use certplane.Acme.{AcmeError, AcmeIssuerConfig, Issuer, Lego}
use certplane.Acme.Account.{new_issuer}
use certplane.Agent.{Disk}
use certplane.Settings.Broker.{
  BrokerConfig, BrokerConfigError, SecretsConfig, AcmeConfig, audit_enabled,
}
use certplane.Settings.Loading
use certplane.Settings.Loading.{ConfigFile, load_broker}

pub data CommandError : Type 0 where
  config_required policy_required unknown_store_driver unknown_secrets_provider : CommandError
  unknown_issuer_provider : CommandError
  loading_config : Loading.LoadError BrokerConfigError → CommandError
  loading_policy : LoadError → CommandError
  opening_store : MigrationError → CommandError
  making_vault : VaultNewError → CommandError
  making_issuer : AcmeError → CommandError

pub record Site : Type 0 where
  pub parses : Text → Bool
  pub config_file : Text → ConfigFile BrokerConfig
  pub policy_file : Text → PolicyFile
  pub digest : Digest
  pub lookup_env : Text → Option Text
  pub getenv : Text → Text
  pub read_secret : Text → FileRead
  pub makes_vault_client : Text → Bool
  pub vault : VaultServer
  pub opening : Opening
  pub faults : Faults
  pub key_formats : KeyFormats
  pub lego : Lego

pub record Machine : Type 0 where
  pub disk : Disk
  pub schema : Schema

-- The store by its driver.
pub data OpenedStore : Type 0 where
  a_sqlite_store a_file_store : Text → OpenedStore

-- `loadBrokerConfig`
unfoldable pub load_broker_config : Site → Text → Result CommandError BrokerConfig
load_broker_config s path = do
  refuse (is_empty path) config_required
  map_err loading_config (load_broker s.parses (s.config_file path))

pub opened : Text → Option MigrationError × Schema → Result CommandError OpenedStore × Schema
opened path (some e, schema) = (err (opening_store e), schema)
opened path (none, schema) = (ok (a_sqlite_store path), schema)

-- `openBrokerStore`
unfoldable pub open_broker_store :
    Site → BrokerConfig → Schema → Result CommandError OpenedStore × Schema
unfolding opened
open_broker_store s cfg schema =
    if text_eq cfg.store.driver (codes "sqlite")
    then opened cfg.store.path (new_sqlite_store s.opening s.faults cfg.store.path schema)
    else if text_eq cfg.store.driver (codes "file")
    then (ok (a_file_store cfg.store.path), schema)
    else (err unknown_store_driver, schema)

-- `buildAuditRecorder`, with the recorder of the store and that of the standard output.
unfoldable pub build_audit_recorder :
    {S : Type 0} → BrokerConfig → Recorder S → Recorder S → Recorder S
build_audit_recorder cfg store_recorder stdout_recorder =
    if not (audit_enabled cfg)
    then discard_record
    else if cfg.audit.mirror_to_log
    then multi_record (new_multi_recorder (some store_recorder ∷ some stdout_recorder ∷ []))
    else store_recorder

-- The configuration that Vault is given.
unfoldable pub vault_config : SecretsConfig → VaultProviderConfig
vault_config c = record {
  address = c.vault.address;
  token = c.vault.token;
  token_file = c.vault.token_file;
  mount_path = c.vault.mount_path;
  kv_version = c.vault.kv_version;
  key = c.vault.key;
  timeout = c.vault.timeout;
  namespace = c.vault.namespace;
}

-- `buildSecretsProvider`
unfoldable pub build_secrets_provider : Site → BrokerConfig → Result CommandError Provider
build_secrets_provider s cfg =
    if text_eq cfg.secrets.provider (codes "env")
    then ok (env_get s.lookup_env)
    else if text_eq cfg.secrets.provider (codes "file")
    then ok (file_get s.read_secret new_file_provider)
    else if text_eq cfg.secrets.provider (codes "vault")
        || text_eq cfg.secrets.provider (codes "openbao")
    then (map_err making_vault (
          new_vault_provider s.getenv s.read_secret s.makes_vault_client (vault_config cfg.secrets))
        >>= λ p. ok (vault_get s.vault p))
    else err unknown_secrets_provider

-- The configuration that the issuer is given.
unfoldable pub acme_config : AcmeConfig → AcmeIssuerConfig
acme_config c = record {
  directory_url = c.directory_url;
  account_email = c.account_email;
  account_key = c.account_key;
  dns_provider = c.dns_provider;
  preferred_chain = c.preferred_chain;
  httpreq = record {
    endpoint = c.httpreq.endpoint;
    mode = c.httpreq.mode;
    username_secret = c.httpreq.username_secret;
    password_secret = c.httpreq.password_secret;
    propagation_timeout = c.httpreq.propagation_timeout;
    polling_interval = c.httpreq.polling_interval;
    http_timeout = c.httpreq.http_timeout;
    recursive_nameservers = c.httpreq.recursive_nameservers;
  };
}

pub made : Result AcmeError Issuer × Disk → Result CommandError Issuer × Disk
made (r, d) = (map_err making_issuer r, d)

-- `buildIssuer`
unfoldable pub build_issuer :
    Site → BrokerConfig → Provider → Disk → Result CommandError Issuer × Disk
unfolding made
build_issuer s cfg secrets d =
    if text_eq cfg.issuer.provider (codes "acme")
    then made (new_issuer s.key_formats s.lego (acme_config cfg.issuer.acme) (some secrets) d)
    else (err unknown_issuer_provider, d)

-- What the server is started with.
pub record Started : Type 0 where
  pub cfg : BrokerConfig
  pub manager : Manager
  pub store : OpenedStore
  pub issuer : Issuer
  pub watches : Bool

-- The parts that only read: the configuration, the policy and the provider of secrets.
pub record Prepared : Type 0 where
  pub cfg : BrokerConfig
  pub manager : Manager
  pub secrets : Provider

unfoldable pub prepare : Site → Text → Result CommandError Prepared
prepare s path = do
  cfg ← load_broker_config s path
  manager ←
      map_err loading_policy (new_manager s.digest cfg.policy.path (s.policy_file cfg.policy.path))
  secrets ← build_secrets_provider s cfg
  ok (record { cfg = cfg; manager = manager; secrets = secrets })

pub with_issuer :
    Prepared
    → OpenedStore
    → Schema
    → Result CommandError Issuer × Disk
    → Result CommandError Started × Machine
with_issuer p store schema (err e, d) = (err e, record { disk = d; schema = schema })
with_issuer p store schema (ok issuer, d) = (
  ok (record {
    cfg = p.cfg;
    manager = p.manager;
    store = store;
    issuer = issuer;
    watches = p.cfg.policy.watch;
  }),
  record { disk = d; schema = schema },
)

pub with_store :
    Site
    → Prepared
    → Disk
    → Result CommandError OpenedStore × Schema
    → Result CommandError Started × Machine
unfolding with_issuer
with_store s p d (err e, schema) = (err e, record { disk = d; schema = schema })
with_store s p d (ok store, schema) = with_issuer p store schema (build_issuer s p.cfg p.secrets d)

pub with_prepared :
    Site → Result CommandError Prepared → Machine → Result CommandError Started × Machine
unfolding with_store
with_prepared s (err e) m = (err e, m)
with_prepared s (ok p) m = with_store s p m.disk (open_broker_store s p.cfg m.schema)

-- `runServe`, up to the server that is then started.
unfoldable pub run_serve : Site → Text → Machine → Result CommandError Started × Machine
unfolding with_prepared
run_serve s path m = with_prepared s (prepare s path) m

-- `runPolicyValidate`, whose output is a line with the hash of the policy that is returned.
unfoldable pub run_policy_validate : Site → Text → Result CommandError CompiledPolicy
run_policy_validate s path = do
  refuse (is_empty path) policy_required
  map_err loading_policy (load s.digest (s.policy_file path))
