-- ===== src/Store/Migrations/Migrated.antt =====
-- A migration happens as a whole or not at all, and a second one changes nothing.
use certplane.Base.{
  ℕ, true, ◌≡◌, ◌⊎◌, refl, sym, ap, ◌∙◌, inl, inr, Option, none, some, List, [], ◌∷◌, ◌++◌, ok, All,
  All-map, ◌==◌, false, arith, Bool-cases, Result-cases, ok-injective,
}
use certplane.Base.Text.{Text, elem}
use certplane.Base.Text.Laws.{elem-append, text_eq_refl}
use certplane.Store.Migrations.{
  begin, ensure, commit, check, apply, recording_of, starting, SqliteMigration, Schema, Faults,
  MigrationError, migrations_table, create_missing, ensure_migration_table, has_version,
  migration_already_applied, apply_migration, one_migration, migrations_loop, transaction, migrate,
}

create_missing-keeps :
    (ns there : List Text) (q : Text)
    → elem q there ≡ true
    → elem q (create_missing ns there) ≡ true
unfolding create_missing
create_missing-keeps [] there q h = h
create_missing-keeps (n ∷ ns) there q h = elim (Bool-cases (elem n there)) [
  | inl e ↦ rw e (create_missing-keeps ns there q h)
  | inr e ↦ rw e (
      create_missing-keeps ns (there ++ (n ∷ [])) q
        (elem-append q there (n ∷ []) ∙ ground (arith, h)))
]

create_missing-one : (n : Text) (there : List Text) → elem n (create_missing (n ∷ []) there) ≡ true
unfolding create_missing elem
create_missing-one n there = elim (Bool-cases (elem n there)) [
  | inl e ↦ rw e e
  | inr e ↦ rw e (elem-append n there (n ∷ []) ∙ ground (arith, text_eq_refl n))
]

create_missing-there :
    (n : Text) (there : List Text) → elem n there ≡ true → create_missing (n ∷ []) there ≡ there
unfolding create_missing
create_missing-there n there h = rw h refl

has_version-append :
    (v : ℕ) (rows more : List (ℕ × Text))
    → has_version v rows ≡ true
    → has_version v (rows ++ more) ≡ true
unfolding has_version
has_version-append v [] more h = cc h
has_version-append v ((w, n) ∷ rows) more h = ground (arith, has_version-append v rows more, h)

has_version-last :
    (v : ℕ) (n : Text) (rows : List (ℕ × Text)) → has_version v (rows ++ ((v, n) ∷ [])) ≡ true
unfolding has_version
has_version-last v n [] = ground arith
has_version-last v n ((w, m) ∷ rows) = ground (arith, has_version-last v n rows)

-- A schema `s'` that has all that `s` has.
pub record Extends (s s' : Schema) : Type 0 where
  pub tables : (q : Text) → elem q s.tables ≡ true → elem q s'.tables ≡ true
  pub indexes : (q : Text) → elem q s.indexes ≡ true → elem q s'.indexes ≡ true
  pub applied : (v : ℕ) → has_version v s.applied ≡ true → has_version v s'.applied ≡ true

Extends-refl : (s : Schema) → Extends s s
Extends-refl s = record { tables = λ q h. h; indexes = λ q h. h; applied = λ v h. h }

Extends-trans : (s t u : Schema) → Extends s t → Extends t u → Extends s u
Extends-trans s t u a b = record {
  tables = λ q h. b.tables q (a.tables q h);
  indexes = λ q h. b.indexes q (a.indexes q h);
  applied = λ v h. b.applied v (a.applied v h);
}

apply_migration-ok :
    (f : Faults) (m : SqliteMigration) (s s' : Schema)
    → apply_migration f m s ≡ ok s'
    → Extends s s' × (has_version m.version s'.applied ≡ true)
unfolding apply_migration
apply_migration-ok f m s s' h = elim (Bool-cases (f (apply m.version))) [
  | inl e ↦ absurd (cc (rw e at h))
  | inr e ↦ elim (Bool-cases (f (recording_of m.version))) [
    | inl r ↦ absurd (cc (rw (e, r) at h))
    | inr r ↦ rw (← ok-injective (rw (e, r) at h)) (
      record {
        tables = λ q k. create_missing-keeps m.tables s.tables q k;
        indexes = λ q k. create_missing-keeps m.indexes s.indexes q k;
        applied = λ v k. has_version-append v s.applied ((m.version, m.name) ∷ []) k;
      },
      has_version-last m.version m.name s.applied,
    )
  ]
]

-- The loop keeps what is there and records every version.
migrations_loop-ok :
    (f : Faults) (ms : List SqliteMigration) (s s' : Schema)
    → migrations_loop f ms s ≡ ok s'
    → Extends s s' × All (λ m. has_version m.version s'.applied ≡ true) ms
unfolding migrations_loop migration_already_applied one_migration
migrations_loop-ok f [] s s' h = rw (← ok-injective h) (Extends-refl s, tt)
migrations_loop-ok f (m ∷ ms) s s' h = elim (Bool-cases (f (check m.version))) [
  | inl e ↦ absurd (cc (rw e at h))
  | inr e ↦ elim (Bool-cases (has_version m.version s.applied)) [
    | inl v ↦
        let (ext, all) = migrations_loop-ok f ms s s' (rw (e, v) at h) in
        (ext, (ext.applied m.version v, all))
    | inr v ↦ elim (Result-cases (apply_migration f m s)) [
      | inr (x, a) ↦ absurd (cc (rw (e, v, a) at h))
      | inl (t, a) ↦
          let (first, done) = apply_migration-ok f m s t a in
          let (ext, all) = migrations_loop-ok f ms t s' (rw (e, v, a) at h) in
          (Extends-trans s t s' first ext, (ext.applied m.version done, all))
    ]
  ]
]

create_missing-created :
    (ns there : List Text) → All (λ n. elem n (create_missing ns there) ≡ true) ns
unfolding create_missing
create_missing-created [] there = tt
create_missing-created (n ∷ ns) there = (
  create_missing-keeps ns (create_missing (n ∷ []) there) n (create_missing-one n there),
  create_missing-created ns (create_missing (n ∷ []) there),
)

-- The schema has what the migration creates.
pub record Has (s : Schema) (m : SqliteMigration) : Type 0 where
  pub tables : All (λ n. elem n s.tables ≡ true) m.tables
  pub indexes : All (λ n. elem n s.indexes ≡ true) m.indexes

Has-Extends : (s t : Schema) (m : SqliteMigration) → Extends s t → Has s m → Has t m
Has-Extends s t m x h = record {
  tables = All-map _ _ m.tables (λ n k. x.tables n k) h.tables;
  indexes = All-map _ _ m.indexes (λ n k. x.indexes n k) h.indexes;
}

-- No two migrations have one version.
abbrev pub DistinctVersions : List SqliteMigration → Type 0
DistinctVersions [] = Unit
DistinctVersions (m ∷ ms) =
    All (λ (k : SqliteMigration). (k.version == m.version) ≡ false) ms × DistinctVersions ms

-- What a recorded version creates is there.
abbrev pub IsComplete : List SqliteMigration → Schema → Type 0
IsComplete ms s = All (λ (m : SqliteMigration). has_version m.version s.applied ≡ true → Has s m) ms

apply_migration-Has :
    (f : Faults) (m : SqliteMigration) (s s' : Schema)
    → apply_migration f m s ≡ ok s'
    → Has s' m × (s'.applied ≡ s.applied ++ ((m.version, m.name) ∷ []))
unfolding apply_migration
apply_migration-Has f m s s' h = elim (Bool-cases (f (apply m.version))) [
  | inl e ↦ absurd (cc (rw e at h))
  | inr e ↦ elim (Bool-cases (f (recording_of m.version))) [
    | inl r ↦ absurd (cc (rw (e, r) at h))
    | inr r ↦ rw (← ok-injective (rw (e, r) at h)) (
      record {
        tables = create_missing-created m.tables s.tables;
        indexes = create_missing-created m.indexes s.indexes;
      },
      refl,
    )
  ]
]

has_version-other :
    (v w : ℕ) (n : Text) (rows : List (ℕ × Text))
    → (v == w) ≡ false
    → has_version v (rows ++ ((w, n) ∷ [])) ≡ true
    → has_version v rows ≡ true
unfolding has_version
has_version-other v w n [] d h = ground (arith, d, h)
has_version-other v w n ((u, k) ∷ rows) d h = ground (arith, has_version-other v w n rows d, h)

apply_migration-IsComplete :
    (f : Faults) (m : SqliteMigration) (ms : List SqliteMigration) (s t : Schema)
    → apply_migration f m s ≡ ok t
    → All (λ (k : SqliteMigration). (k.version == m.version) ≡ false) ms
    → IsComplete ms s
    → IsComplete ms t
apply_migration-IsComplete f m [] s t a d c = tt
apply_migration-IsComplete f m (k ∷ ms) s t a (d, ds) (c, cs) =
    let (has, rows) = apply_migration-Has f m s t a in
    (
      λ h. Has-Extends s t k (apply_migration-ok f m s t a).0 (
          c (
            has_version-other k.version m.version m.name s.applied d
              (ap (has_version k.version) (sym rows) ∙ h))),
      apply_migration-IsComplete f m ms s t a ds cs,
    )

-- On a complete schema the loop creates all that is missing.
migrations_loop-Has :
    (f : Faults) (ms : List SqliteMigration) (s s' : Schema)
    → migrations_loop f ms s ≡ ok s'
    → DistinctVersions ms
    → IsComplete ms s
    → All (Has s') ms
unfolding migrations_loop migration_already_applied one_migration
migrations_loop-Has f [] s s' h d c = tt
migrations_loop-Has f (m ∷ ms) s s' h (apart, d) (c, cs) = elim (Bool-cases (f (check m.version))) [
  | inl e ↦ absurd (cc (rw e at h))
  | inr e ↦ elim (Bool-cases (has_version m.version s.applied)) [
    | inl v ↦
        let rest = rw (e, v) at h in
        (
          Has-Extends s s' m (migrations_loop-ok f ms s s' rest).0 (c v),
          migrations_loop-Has f ms s s' rest d cs,
        )
    | inr v ↦ elim (Result-cases (apply_migration f m s)) [
      | inr (x, a) ↦ absurd (cc (rw (e, v, a) at h))
      | inl (t, a) ↦
          let rest = rw (e, v, a) at h in
          (
            Has-Extends t s' m (migrations_loop-ok f ms t s' rest).0
                (apply_migration-Has f m s t a).0,
            migrations_loop-Has f ms t s' rest d (apply_migration-IsComplete f m ms s t a apart cs),
          )
    ]
  ]
]

-- Where every version is recorded the loop changes nothing.
migrations_loop-done :
    (f : Faults) (ms : List SqliteMigration) (s s' : Schema)
    → All (λ m. has_version m.version s.applied ≡ true) ms
    → migrations_loop f ms s ≡ ok s'
    → s' ≡ s
unfolding migrations_loop migration_already_applied one_migration
migrations_loop-done f [] s s' a h = sym (ok-injective h)
migrations_loop-done f (m ∷ ms) s s' (v, a) h = elim (Bool-cases (f (check m.version))) [
  | inl e ↦ absurd (cc (rw e at h))
  | inr e ↦ migrations_loop-done f ms s s' a (rw (e, v) at h)
]

-- A schema on which all migrations have been done.
abbrev pub IsMigrated : List SqliteMigration → Schema → Type 0
IsMigrated ms s =
    (elem migrations_table s.tables ≡ true) × All (λ m. has_version m.version s.applied ≡ true) ms

transaction-ok :
    (f : Faults) (ms : List SqliteMigration) (s s' : Schema)
    → transaction f ms s ≡ ok s'
    → Extends s s' × IsMigrated ms s'
unfolding transaction ensure_migration_table
transaction-ok f ms s s' h = elim (Bool-cases (f ensure)) [
  | inl e ↦ absurd (cc (rw e at h))
  | inr e ↦
      let t : Schema = record s { tables = create_missing (migrations_table ∷ []) s.tables } in
      elim (Result-cases (migrations_loop f ms t)) [
        | inr (x, m) ↦ absurd (cc (rw (e, m) at h))
        | inl (u, m) ↦ elim (Bool-cases (f commit)) [
          | inl c ↦ absurd (cc (rw (e, m, c) at h))
          | inr c ↦
              let (ext, all) = migrations_loop-ok f ms t u m in
              let first : Extends s t = record {
                tables = λ q k. create_missing-keeps (migrations_table ∷ []) s.tables q k;
                indexes = λ q k. k;
                applied = λ v k. k;
              } in
              rw (← ok-injective (rw (e, m, c) at h)) (
                Extends-trans s t u first ext,
                (ext.tables migrations_table (create_missing-one migrations_table s.tables), all),
              )
        ]
      ]
]

-- The table of the migrations does not matter to what a migration has created.
IsComplete-ensured :
    (ms : List SqliteMigration) (s t : Schema)
    → Extends s t
    → t.applied ≡ s.applied
    → IsComplete ms s
    → IsComplete ms t
IsComplete-ensured [] s t x same c = tt
IsComplete-ensured (m ∷ ms) s t x same (c, cs) = (
  λ h. Has-Extends s t m x (c (ap (has_version m.version) (sym same) ∙ h)),
  IsComplete-ensured ms s t x same cs,
)

ensured-Extends :
    (s : Schema) → Extends s (record s { tables = create_missing (migrations_table ∷ []) s.tables })
ensured-Extends s = record {
  tables = λ q k. create_missing-keeps (migrations_table ∷ []) s.tables q k;
  indexes = λ q k. k;
  applied = λ v k. k;
}

transaction-Has :
    (f : Faults) (ms : List SqliteMigration) (s s' : Schema)
    → transaction f ms s ≡ ok s'
    → DistinctVersions ms
    → IsComplete ms s
    → All (Has s') ms
unfolding transaction ensure_migration_table
transaction-Has f ms s s' h d c = elim (Bool-cases (f ensure)) [
  | inl e ↦ absurd (cc (rw e at h))
  | inr e ↦
      let t : Schema = record s { tables = create_missing (migrations_table ∷ []) s.tables } in
      elim (Result-cases (migrations_loop f ms t)) [
        | inr (x, m) ↦ absurd (cc (rw (e, m) at h))
        | inl (u, m) ↦ elim (Bool-cases (f commit)) [
          | inl k ↦ absurd (cc (rw (e, m, k) at h))
          | inr k ↦ rw (← ok-injective (rw (e, m, k) at h)) (
              migrations_loop-Has f ms t u m d
                (IsComplete-ensured ms s t (ensured-Extends s) refl c))
        ]
      ]
]

-- A migration of a complete schema that reports no error leaves all that the migrations create.
pub migrate-Has :
    (f : Faults) (ms : List SqliteMigration) (s : Schema)
    → DistinctVersions ms
    → IsComplete ms s
    → (migrate f ms s).0 ≡ none
    → All (Has (migrate f ms s).1) ms
unfolding migrate
migrate-Has f ms s d c h = elim (Bool-cases (f begin)) [
  | inl b ↦ absurd (cc (rw b at h))
  | inr b ↦ elim (Result-cases (transaction f ms s)) [
    | inr (x, e) ↦ absurd (cc (rw (b, e) at h))
    | inl (t, e) ↦ rw (b, e) (transaction-Has f ms s t e d c)
  ]
]

transaction-done :
    (f : Faults) (ms : List SqliteMigration) (s s' : Schema)
    → IsMigrated ms s
    → transaction f ms s ≡ ok s'
    → s' ≡ s
unfolding transaction ensure_migration_table
transaction-done f ms s s' (there, all) h = elim (Bool-cases (f ensure)) [
  | inl e ↦ absurd (cc (rw e at h))
  | inr e ↦
      let t : Schema = record s { tables = create_missing (migrations_table ∷ []) s.tables } in
      let same : t ≡ s =
        ap (λ ts. record s { tables = ts })
          (create_missing-there migrations_table s.tables there) in
      elim (Result-cases (migrations_loop f ms t)) [
        | inr (x, m) ↦ absurd (cc (rw (e, m) at h))
        | inl (u, m) ↦ elim (Bool-cases (f commit)) [
          | inl c ↦ absurd (cc (rw (e, m, c) at h))
          | inr c ↦
              sym (ok-injective (rw (e, m, c) at h)) ∙ migrations_loop-done f ms t u all m ∙ same
        ]
      ]
]

-- What a migration leaves behind.
abbrev pub Migrated : List SqliteMigration → Schema → Option MigrationError × Schema → Type 0
Migrated ms s r =
    (((e : MigrationError) × (r.0 ≡ some e)) × (r.1 ≡ s))
    ⊎ ((r.0 ≡ none) × (Extends s r.1 × IsMigrated ms r.1))

pub migrate-Migrated :
    (f : Faults) (ms : List SqliteMigration) (s : Schema) → Migrated ms s (migrate f ms s)
unfolding migrate
migrate-Migrated f ms s = elim (Bool-cases (f begin)) [
  | inl b ↦ rw b (inl ((starting, refl), refl))
  | inr b ↦ elim (Result-cases (transaction f ms s)) [
    | inr (x, e) ↦ rw (b, e) (inl ((x, refl), refl))
    | inl (t, e) ↦ rw (b, e) (inr (refl, transaction-ok f ms s t e))
  ]
]

migrated-unchanged :
    (f : Faults) (ms : List SqliteMigration) (s : Schema) → IsMigrated ms s → (migrate f ms s).1 ≡ s
unfolding migrate
migrated-unchanged f ms s h = elim (Bool-cases (f begin)) [
  | inl b ↦ rw b refl
  | inr b ↦ elim (Result-cases (transaction f ms s)) [
    | inr (x, e) ↦ rw (b, e) refl
    | inl (t, e) ↦ rw (b, e) (transaction-done f ms s t h e)
  ]
]

-- Where no two migrations have one version and the schema has what its recorded versions create:
-- whatever fails, a migration either reports an error and leaves the schema as it was, or reports none,
-- keeps all tables, indexes and recorded versions, has recorded every migration, and has created the
-- tables and indexes of all of them; and then every later migration, whatever fails in it, leaves the
-- schema as it is.
pub migrate-once :
    (f : Faults) (ms : List SqliteMigration) (s : Schema)
    → DistinctVersions ms
    → IsComplete ms s
    → Migrated ms s (migrate f ms s)
      × ((migrate f ms s).0 ≡ none
          → All (Has (migrate f ms s).1) ms
            × ((g : Faults) → (migrate g ms (migrate f ms s).1).1 ≡ (migrate f ms s).1))
migrate-once f ms s d c = (
  migrate-Migrated f ms s,
  λ h. (
    migrate-Has f ms s d c h,
    λ g. elim (migrate-Migrated f ms s) [
      | inl ((e, failed), same) ↦ absurd (cc (failed, h))
      | inr (done, (ext, m)) ↦ migrated-unchanged g ms (migrate f ms s).1 m
    ],
  ),
)
