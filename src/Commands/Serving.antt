-- ===== src/Commands/Serving.antt =====
-- What has been made sure before the server is started.
use certplane.Base.{
  All, true, ◌≡◌, refl, ap, ◌∙◌, inl, inr, Option, none, some, Result, ok, err, Bool-cases,
  Result-cases, ok-injective,
}
use certplane.Base.Text.{Text, codes, text_eq, is_empty}
use certplane.Policy.Manager.{Manager, new_manager}
use certplane.Policy.Manager.Watching.{HoldsCompiled, new_manager-HoldsCompiled}
use certplane.Store.Migrations.{
  MigrationError, Schema, sqlite_migrations, migrate, new_sqlite_store,
}
use certplane.Store.Migrations.Migrated.{IsMigrated, Has, IsComplete, migrate-Migrated, migrate-Has}
use certplane.Acme.{Issuer}
use certplane.Agent.{Disk}
use certplane.Settings.Broker.{BrokerConfig}
use certplane.Settings.Broker.Usable.{IsUsable}
use certplane.Settings.Loading.{load_broker}
use certplane.Settings.Loading.Loaded.{load_broker-IsUsable}
use certplane.Commands.{
  CommandError, Site, Machine, OpenedStore, a_sqlite_store, a_file_store, load_broker_config,
  opened, open_broker_store, build_secrets_provider, build_issuer, Started, Prepared, prepare,
  with_issuer, with_store, with_prepared, run_serve,
}

module _ (s : Site) where
  load_broker_config-IsUsable :
      (path : Text) (cfg : BrokerConfig)
      → load_broker_config s path ≡ ok cfg
      → IsUsable s.parses cfg
  unfolding load_broker_config
  load_broker_config-IsUsable path cfg h = elim (Bool-cases (is_empty path)) [
    | inl e ↦ absurd (cc (rw e at h))
    | inr e ↦ elim (Result-cases (load_broker s.parses (s.config_file path))) [
      | inr (x, l) ↦ absurd (cc (rw (e, l) at h))
      | inl (c, l) ↦
          load_broker-IsUsable s.parses (s.config_file path) cfg
            (l ∙ ap ok (ok-injective (rw (e, l) at h)))
    ]
  ]

  -- The configuration is usable and the manager holds a compiled policy.
  abbrev pub IsPrepared : BrokerConfig → Manager → Type 0
  IsPrepared cfg manager = IsUsable s.parses cfg × HoldsCompiled s.digest manager

  prepare-IsPrepared :
      (path : Text) (p : Prepared) → prepare s path ≡ ok p → IsPrepared p.cfg p.manager
  unfolding prepare
  prepare-IsPrepared path p h = elim (Result-cases (load_broker_config s path)) [
    | inr (x, c) ↦ absurd (cc (rw c at h))
    | inl (cfg, c) ↦
        elim (Result-cases (new_manager s.digest cfg.policy.path (s.policy_file cfg.policy.path))) [
          | inr (x, n) ↦ absurd (cc (rw (c, n) at h))
          | inl (m, n) ↦ elim (Result-cases (build_secrets_provider s cfg)) [
            | inr (x, b) ↦ absurd (cc (rw (c, n, b) at h))
            | inl (secrets, b) ↦ rw (← ok-injective (rw (c, n, b) at h)) (
              load_broker_config-IsUsable path cfg c,
              new_manager-HoldsCompiled s.digest cfg.policy.path (s.policy_file cfg.policy.path) n,
            )
          ]
        ]
  ]

  -- The schema is on the last version, and has the tables and indexes of all migrations.
  abbrev pub IsLatest : Schema → Type 0
  IsLatest schema = IsMigrated sqlite_migrations schema × All (Has schema) sqlite_migrations

  new_sqlite_store-IsLatest :
      (path : Text) (schema : Schema)
      → IsComplete sqlite_migrations schema
      → (new_sqlite_store s.opening s.faults path schema).0 ≡ none
      → IsLatest (new_sqlite_store s.opening s.faults path schema).1
  unfolding new_sqlite_store
  new_sqlite_store-IsLatest path schema complete h = elim (Bool-cases (is_empty path)) [
    | inl e ↦ absurd (cc (rw e at h))
    | inr e ↦ elim (Bool-cases s.opening.mkdir_fails) [
      | inl m ↦ absurd (cc (rw (e, m) at h))
      | inr m ↦ elim (Bool-cases s.opening.open_fails) [
        | inl o ↦ absurd (cc (rw (e, m, o) at h))
        | inr o ↦ rw (e, m, o) (migrated (rw (e, m, o) at h))
      ]
    ]
  ]
    where
      migrated :
          (migrate s.faults sqlite_migrations schema).0 ≡ none
          → IsLatest (migrate s.faults sqlite_migrations schema).1
      migrated k = elim (migrate-Migrated s.faults sqlite_migrations schema) [
        | inl ((x, failed), same) ↦ absurd (cc (failed, k))
        | inr (done, (ext, m)) ↦
            (m, migrate-Has s.faults sqlite_migrations schema (tt, tt) complete k)
      ]

  -- The store is the one that the configuration names, and a database is on the last version.
  abbrev pub StoreReady : BrokerConfig → OpenedStore → Schema → Type 0
  StoreReady cfg (a_sqlite_store path) schema =
      (text_eq cfg.store.driver (codes "sqlite") ≡ true)
      × ((path ≡ cfg.store.path) × IsLatest schema)
  StoreReady cfg (a_file_store path) schema =
      (text_eq cfg.store.driver (codes "file") ≡ true) × (path ≡ cfg.store.path)

  opened-StoreReady :
      (cfg : BrokerConfig) (r : Option MigrationError × Schema) (store : OpenedStore)
      → text_eq cfg.store.driver (codes "sqlite") ≡ true
      → (r.0 ≡ none → IsLatest r.1)
      → (opened cfg.store.path r).0 ≡ ok store
      → StoreReady cfg store (opened cfg.store.path r).1
  unfolding opened
  opened-StoreReady cfg (some e, schema) store d m h = absurd (cc h)
  opened-StoreReady cfg (none, schema) store d m h = rw (← ok-injective h) (d, (refl, m refl))

  open_broker_store-StoreReady :
      (cfg : BrokerConfig) (schema : Schema) (store : OpenedStore)
      → IsComplete sqlite_migrations schema
      → (open_broker_store s cfg schema).0 ≡ ok store
      → StoreReady cfg store (open_broker_store s cfg schema).1
  unfolding open_broker_store
  open_broker_store-StoreReady cfg schema store complete h =
      elim (Bool-cases (text_eq cfg.store.driver (codes "sqlite"))) [
        | inl e ↦ rw e (
            opened-StoreReady cfg (new_sqlite_store s.opening s.faults cfg.store.path schema) store
              e (new_sqlite_store-IsLatest cfg.store.path schema complete) (rw e at h))
        | inr e ↦ elim (Bool-cases (text_eq cfg.store.driver (codes "file"))) [
          | inl f ↦ rw (e, f) (rw (← ok-injective (rw (e, f) at h)) (f, refl))
          | inr f ↦ absurd (cc (rw (e, f) at h))
        ]
      ]

  -- What a server that is started rests on.
  record Ready (r : Result CommandError Started × Machine) : Type 0 where
    ready :
        (st : Started)
        → r.0 ≡ ok st
        → IsPrepared st.cfg st.manager × StoreReady st.cfg st.store r.1.schema

  with_issuer-Ready :
      (p : Prepared) (store : OpenedStore) (schema : Schema) (r : Result CommandError Issuer × Disk)
      → IsPrepared p.cfg p.manager
      → StoreReady p.cfg store schema
      → Ready (with_issuer p store schema r)
  unfolding with_issuer
  with_issuer-Ready p store schema (err e, d) i t = record { ready = λ st h. absurd (cc h) }
  with_issuer-Ready p store schema (ok issuer, d) i t = record {
    ready = λ st h. rw (← ok-injective h) (i, t);
  }

  with_store-Ready :
      (p : Prepared) (d : Disk) (r : Result CommandError OpenedStore × Schema)
      → IsPrepared p.cfg p.manager
      → ((store : OpenedStore) → r.0 ≡ ok store → StoreReady p.cfg store r.1)
      → Ready (with_store s p d r)
  unfolding with_store
  with_store-Ready p d (err e, schema) i t = record { ready = λ st h. absurd (cc h) }
  with_store-Ready p d (ok store, schema) i t =
      with_issuer-Ready p store schema (build_issuer s p.cfg p.secrets d) i (t store refl)

  with_prepared-Ready :
      (path : Text) (r : Result CommandError Prepared) (m : Machine)
      → prepare s path ≡ r
      → IsComplete sqlite_migrations m.schema
      → Ready (with_prepared s r m)
  unfolding with_prepared
  with_prepared-Ready path (err e) m same complete = record { ready = λ st h. absurd (cc h) }
  with_prepared-Ready path (ok p) m same complete =
      with_store-Ready p m.disk (open_broker_store s p.cfg m.schema)
        (prepare-IsPrepared path p same)
        (λ store h. open_broker_store-StoreReady p.cfg m.schema store complete h)

  run_serve-Ready :
      (path : Text) (m : Machine)
      → IsComplete sqlite_migrations m.schema
      → Ready (run_serve s path m)
  unfolding run_serve
  run_serve-Ready path m complete = with_prepared-Ready path (prepare s path) m refl complete

  run_serve-err :
      (path : Text) (m : Machine) (e : CommandError)
      → prepare s path ≡ err e
      → run_serve s path m ≡ (err e, m)
  unfolding run_serve with_prepared
  run_serve-err path m e h = rw h refl

  -- Where the database has what its recorded versions create: a broker that reaches its server has a
  -- usable configuration, a manager that holds a compiled policy, and the store of the configuration's
  -- driver and path; a SQLite store is on the last version of its schema, with all its tables and
  -- indexes. If the configuration, the policy
  -- or the provider of secrets fails, then neither the account key nor the database is touched.
  pub run_serve_ready :
      (path : Text) (m : Machine)
      → IsComplete sqlite_migrations m.schema
      → ((st : Started)
          → (run_serve s path m).0 ≡ ok st
          → (IsUsable s.parses st.cfg × HoldsCompiled s.digest st.manager)
            × StoreReady st.cfg st.store (run_serve s path m).1.schema)
        × ((e : CommandError) → prepare s path ≡ err e → run_serve s path m ≡ (err e, m))
  run_serve_ready path m complete = ((run_serve-Ready path m complete).ready, run_serve-err path m)
