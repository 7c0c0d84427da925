-- ===== src/Lib.antt =====
-- A verification library for Certplane: a broker that hands out certificates to agents by a policy.
--
-- The parts of the program, and the files that model them (paths from the root of the repository):
--   * internal/dnsname/dnsname.go: Dnsname. `Canonical`, `CanonicalList` and `EqualSet` are
--     `canonical`, `canonical_list` and `equal_set`.
--   * internal/broker/policy: Policy (types.go), Policy/Hash (hash.go), Policy/Compile (compile.go),
--     Policy/Authorize (authorize.go), Policy/Manager (load.go, manager.go). The policy file comes in
--     decoded; JSON, SHA-256 and the print of a duration are the record `Digest`.
--   * internal/broker/ratelimit/limiter.go: Ratelimit. `Allow` is `allow`, with the clock's answer.
--   * internal/broker/authn/mtls.go: Authn.
--   * internal/broker/audit: Audit (event.go), Audit/Names (the texts of its constants) and
--     Audit/Recorders (recorder.go).
--   * internal/broker/store/cache.go: Store (the key), Store/Contract (the interface
--     `CertificateStore` with the laws of a store), Store/File (`FileStore`).
--   * internal/broker/store/sqlite_cache.go and sqlite_values.go: Store/Sqlite, the table as a list of
--     rows; the layout of its times is the record `Rfc3339`. internal/broker/store/sqlite_audit.go:
--     Store/Events, with Store/Json for the columns that hold JSON. internal/broker/store/sqlite.go and
--     sqlite_migrations.go: Store/Migrations, over a schema of tables, indexes and versions.
--   * internal/broker/issue.go, issue_types.go, issue_audit.go, responses.go, server.go and
--     issuer/issuer.go: Broker (the types and the world), Broker/Recording (audit events),
--     Broker/Steps (the steps before the certificate), Broker/Issuing (cache, issuer and single
--     flight) and Broker/Handler (`issueCertificate`).
--   * internal/broker/http.go and server.go: Broker/Http, the routes and the handlers beside the issue
--     handler, and Broker/Listen, `ListenAndServe` over a sequence of calls.
--   * internal/broker/issuer/acme: Acme, with the library lego and the ACME server as the record `Lego`.
--   * internal/pki: Pki (the types), Pki/Csr (csr.go), Pki/Cert (cert.go), Pki/Key (key.go) and
--     Pki/Serial (`SerialString`).
--   * internal/agent: Agent (`ensureServiceCertificate` of run.go, with internal/fileutil/fs.go,
--     `EnsureECDSAPrivateKey` of internal/pki/key.go and `WriteToDisk` of bundle.go), Agent/Run (`Run`),
--     Agent/Identity (enroll.go, renew.go), Agent/Check (check.go), Agent/Client (client.go), over a
--     map from paths to contents. internal/fileutil/lock.go: Agent/Lock.
--   * internal/ca: Ca (the interface) and Ca/StepCa (providers/stepca), with the library of step-ca and its
--     server as the record `Step`.
--   * internal/secrets: Secrets (the providers of the environment and of files) and Secrets/Vault, with
--     the server of Vault as the record `VaultServer`.
--   * cmd/broker: Commands, from the files of the configuration up to the server.
--   * config: Settings, with Settings/Logging, Settings/Broker, Settings/Agent and Settings/Loading.
--   * Base and Clock hold what the code uses of Go's language and standard library: texts as lists of
--     code points, maps as association lists, sorting, signed integers, times and durations.
--
-- How they interact: the handler authenticates a request (Authn), parses it (Pki/Csr), asks the
-- policy in force (Policy/Manager, Policy/Authorize), records (Broker/Recording), asks the limiter
-- (Ratelimit), and takes the certificate from the store (Store/Contract) or from the issuer. A step
-- takes a context and a world and gives a context or none, `none` when it has written a response.
-- The world holds the policy manager, the limiter, the store and the trace of all actions outside of
-- the process; the answers of the outside (clock, identifiers, recorder, issuer, calls in flight)
-- are functions of that trace, the fields of `Server`.
--
-- The agent takes its lock (Agent/Lock), makes a client of the broker (Agent/Client), renews its
-- identity (Agent/Identity, over Ca) and looks after its certificates in their order; Agent/Check reads
-- the same disk. The commands of the broker load the configuration (Settings), compile the policy,
-- open the store (Store/Migrations) and build the issuer (Acme, whose secrets come from Secrets).
--
-- Parameters: what the code asks of libraries and of other processes are records of functions,
-- `Json`, `CacheFormat`, `Crypto`, `X509`, `KeyFormats`, `ClientLibraries`, `Rfc3339`, `Digest`,
-- `Step`, `Lego`, `VaultServer`, `Platform` and `Site`. Where a theorem needs more of them than
-- that they are functions, it is a hypothesis of the theorem, as that decoding inverts encoding.
--
-- Bounds: the loops are structural, but for the digits of a serial number, whose fuel is the number and
-- one more: a division by sixteen makes a positive number smaller. Durations are signed and saturate as
-- int64 does in `Time.Sub`; times are unbounded counts of nanoseconds since Go's zero time. Mutexes make
-- the operations of the limiter, the store and the manager sequences, and so they are modelled.
--
-- Not modelled: net/http, with the concurrency of its calls; cobra with its flags, and the
-- commands of the agent and of the listings, which call what is modelled and print it; the logs; the
-- identifiers of events (ulid), which are answers of the outside; the names of temporary files; the
-- text of SQL, of which the model has the effect; the closing of databases; the tags of the fields in
-- JSON, so that broker and agent share one type of response; the texts of errors, which are
-- constructors here.
pub mod Base
pub mod Dnsname
pub mod Clock
pub mod Pki
pub mod Policy
pub mod Ratelimit
pub mod Authn
pub mod Audit
pub mod Store
pub mod Broker
pub mod Settings
pub mod Agent
pub mod Ca
pub mod Secrets
pub mod Commands
pub mod Acme
mod Tests
