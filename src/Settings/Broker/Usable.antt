-- ===== src/Settings/Broker/Usable.antt =====
-- What a valid configuration gives the broker.
use certplane.Base.{Bool, true, false, ◌||◌, ◌≡◌, refl, inl, inr, List, [], ◌∷◌, arith, Bool-cases}
use certplane.Base.Text.Laws.{text_eq_iff}
use certplane.Base.Int.{pos, ltb_ℤ}
use certplane.Base.Text.{Text, codes, is_empty, text_eq, elem}
use certplane.Settings.{not_positive, check-last, check-nil, ++-nil}
use certplane.Settings.Logging.{LoggingError, validate_logging}
use certplane.Settings.Broker.{
  BrokerConfigError, check_url, validate_dns_provider, validate_httpreq, AcmeConfig, SecretsConfig,
  BrokerConfig, StoreConfig, IssuerConfig, validate_broker, validate_server, validate_secrets,
  validate_store, validate_issuer, logging_errors,
}

-- The ACME issuer has a directory that is a URL, an account with its key, and one of the two DNS
-- providers; that of HTTP requests has an endpoint that is a URL, a known mode and positive time limits.
pub record IsAcme (parses : Text → Bool) (c : AcmeConfig) : Type 0 where
  pub directory : (is_empty c.directory_url ≡ false) × (parses c.directory_url ≡ true)
  pub account : (is_empty c.account_email ≡ false) × (is_empty c.account_key ≡ false)
  pub dns : elem c.dns_provider (codes "cloudflare" ∷ codes "httpreq" ∷ []) ≡ true
  pub endpoint :
      text_eq c.dns_provider (codes "httpreq") ≡ true
      → (is_empty c.httpreq.endpoint ≡ false) × (parses c.httpreq.endpoint ≡ true)
  pub raw :
      text_eq c.dns_provider (codes "httpreq") ≡ true
      → (is_empty c.httpreq.mode || text_eq c.httpreq.mode (codes "RAW")) ≡ true
  pub limits :
      text_eq c.dns_provider (codes "httpreq") ≡ true
      → (not_positive c.httpreq.propagation_timeout
          || not_positive c.httpreq.polling_interval
          || not_positive c.httpreq.http_timeout)
        ≡ false

-- The provider of secrets is a known one, and a Vault has an address and the version 1 or 2.
pub record IsProvided (c : SecretsConfig) : Type 0 where
  pub known :
      elem c.provider (codes "env" ∷ codes "file" ∷ codes "vault" ∷ codes "openbao" ∷ []) ≡ true
  pub vault :
      elem c.provider (codes "env" ∷ codes "file" ∷ []) ≡ false
      → (is_empty c.vault.address ≡ false)
        × ((ltb_ℤ c.vault.kv_version (pos 1) || ltb_ℤ (pos 2) c.vault.kv_version) ≡ false)

-- The modes of the audit log are the two known ones, the limits are not negative, the time limits of
-- the server are positive, its key pair, the bundle of the agents and the policy are named, TLS is at
-- least 1.2, the store has a known driver and a path, and issuer, secrets and logging are in order.
pub record IsUsable (parses : Text → Bool) (c : BrokerConfig) : Type 0 where
  pub mode : elem c.audit.failure_mode (codes "fail_open" ∷ codes "fail_closed" ∷ []) ≡ true
  pub per_identity : ltb_ℤ c.rate_limits.per_identity_per_hour (pos 0) ≡ false
  pub per_identity_profile : ltb_ℤ c.rate_limits.per_identity_profile_per_hour (pos 0) ≡ false
  pub has_policy : is_empty c.policy.path ≡ false
  pub has_cert : is_empty c.server.tls.cert ≡ false
  pub has_key : is_empty c.server.tls.key ≡ false
  pub has_agent_ca : is_empty c.server.agent_ca_bundle ≡ false
  pub min_version : elem c.server.tls.min_version (codes "1.2" ∷ codes "1.3" ∷ []) ≡ true
  pub timeouts :
      (not_positive c.server.read_header_timeout
        || not_positive c.server.read_timeout
        || not_positive c.server.write_timeout
        || not_positive c.server.idle_timeout)
      ≡ false
  pub issuer : text_eq c.issuer.provider (codes "acme") ≡ true
  pub acme : IsAcme parses c.issuer.acme
  pub secrets : IsProvided c.secrets
  pub logging : validate_logging c.logging ≡ []
  pub driver : elem c.store.driver (codes "sqlite" ∷ codes "file" ∷ []) ≡ true
  pub has_store : is_empty c.store.path ≡ false

logging_errors-nil : (es : List LoggingError) → logging_errors es ≡ [] → es ≡ []
logging_errors-nil [] h = refl
logging_errors-nil (e ∷ es) h = absurd (cc h)

-- No text is both names.
cloudflare_other :
    (t : Text)
    → text_eq t (codes "cloudflare") ≡ true
    → text_eq t (codes "httpreq") ≡ true
    → {A : Type 0} → A
unfolding text_eq
cloudflare_other t e r =
    let same = (text_eq_iff t (codes "cloudflare")).0 e in absurd (cc (rw same at r))

validate_store-nil :
    (parses : Text → Bool) (c : StoreConfig)
    → validate_store parses c ≡ []
    → (elem c.driver (codes "sqlite" ∷ codes "file" ∷ []) ≡ true) × (is_empty c.path ≡ false)
unfolding validate_store
validate_store-nil parses c h = (ground arith, ground arith)

check_url-nil :
    (parses : Text → Bool) (url : Text) (required bad : BrokerConfigError)
    → check_url parses url required bad ≡ []
    → (is_empty url ≡ false) × (parses url ≡ true)
check_url-nil parses url required bad h = (ground arith, ground arith)

validate_dns_provider-nil :
    (parses : Text → Bool) (c : AcmeConfig)
    → validate_dns_provider parses c ≡ []
    → (elem c.dns_provider (codes "cloudflare" ∷ codes "httpreq" ∷ []) ≡ true)
      × (text_eq c.dns_provider (codes "httpreq") ≡ true
          → ((is_empty c.httpreq.endpoint ≡ false) × (parses c.httpreq.endpoint ≡ true))
            × (((is_empty c.httpreq.mode || text_eq c.httpreq.mode (codes "RAW")) ≡ true)
                × ((not_positive c.httpreq.propagation_timeout
                      || not_positive c.httpreq.polling_interval
                      || not_positive c.httpreq.http_timeout)
                    ≡ false)))
unfolding validate_dns_provider validate_httpreq elem
validate_dns_provider-nil parses c h =
    elim (Bool-cases (text_eq c.dns_provider (codes "cloudflare"))) [
      | inl e ↦ (ground (arith, e), λ r. cloudflare_other c.dns_provider e r)
      | inr e ↦ elim (Bool-cases (text_eq c.dns_provider (codes "httpreq"))) [
        | inr n ↦ absurd (cc (rw (e, n) at h))
        | inl n ↦ (
          ground (arith, n),
          λ r.
              let (h1, t) = check-last _ _ _ (rw (e, n) at h) in
              let (h2, m) = check-last _ _ _ h1 in
              (check_url-nil parses c.httpreq.endpoint _ _ h2, (ground (arith, m), t)),
        )
      ]
    ]

validate_issuer-nil :
    (parses : Text → Bool) (c : IssuerConfig)
    → validate_issuer parses c ≡ []
    → (text_eq c.provider (codes "acme") ≡ true) × IsAcme parses c.acme
unfolding validate_issuer
validate_issuer-nil parses c h = elim (Bool-cases (text_eq c.provider (codes "acme"))) [
  | inr e ↦ absurd (cc (rw e at h))
  | inl e ↦
      let (h1, d) = ++-nil _ (validate_dns_provider parses c.acme) (rw e at h) in
      let (h2, n) = check-last _ _ _ h1 in
      let (h3, k) = check-last _ _ _ h2 in
      let (h4, m) = check-last _ _ _ h3 in
      let (known, rest) = validate_dns_provider-nil parses c.acme d in
      (
        e,
        record {
          directory = check_url-nil parses c.acme.directory_url _ _ h4;
          account = (m, k);
          dns = known;
          endpoint = λ r. (rest r).0;
          raw = λ r. (rest r).1.0;
          limits = λ r. (rest r).1.1;
        },
      )
]

validate_secrets-nil :
    (parses : Text → Bool) (c : SecretsConfig) → validate_secrets parses c ≡ [] → IsProvided c
unfolding validate_secrets elem
validate_secrets-nil parses c h =
    elim (Bool-cases (elem c.provider (codes "env" ∷ codes "file" ∷ []))) [
      | inl e ↦ record { known = ground (arith, e); vault = λ v. absurd (cc (e, v)) }
      | inr e ↦ elim (Bool-cases (elem c.provider (codes "vault" ∷ codes "openbao" ∷ []))) [
        | inr n ↦ absurd (cc (rw (e, n) at h))
        | inl n ↦
            let (h1, k) = check-last _ _ _ (rw (e, n) at h) in
            let a = check-nil _ _ h1 in record { known = ground (arith, n); vault = λ v. (a, k) }
      ]
    ]

module _ (parses : Text → Bool) where
  pub validate_broker-IsUsable :
      (c : BrokerConfig) → validate_broker parses c ≡ [] → IsUsable parses c
  unfolding validate_broker validate_server
  validate_broker-IsUsable c h =
      let (h1, l) = ++-nil _ (logging_errors (validate_logging c.logging)) h in
      let (h2, p) = check-last _ _ _ h1 in
      let (h3, i) = check-last _ _ _ h2 in
      let (h4, m) = check-last _ _ _ h3 in
      let (h5, st) = ++-nil _ (validate_store parses c.store) h4 in
      let (h6, se) = ++-nil _ (validate_secrets parses c.secrets) h5 in
      let (h7, is) = ++-nil _ (validate_issuer parses c.issuer) h6 in
      let (h8, po) = check-last _ _ _ h7 in
      let (s1, t) = check-last _ _ _ h8 in
      let (s2, v) = check-last _ _ _ s1 in
      let (s3, a) = check-last _ _ _ s2 in
      let (s4, k) = check-last _ _ _ s3 in
      let (driver, path) = validate_store-nil parses c.store st in
      record {
        mode = ground arith;
        per_identity = i;
        per_identity_profile = p;
        has_policy = po;
        has_cert = check-nil _ _ s4;
        has_key = k;
        has_agent_ca = a;
        min_version = ground arith;
        timeouts = t;
        issuer = (validate_issuer-nil parses c.issuer is).0;
        acme = (validate_issuer-nil parses c.issuer is).1;
        secrets = validate_secrets-nil parses c.secrets se;
        logging = logging_errors-nil (validate_logging c.logging) l;
        driver = driver;
        has_store = path;
      }
