-- ===== src/Agent/Lock/Exclusion.antt =====
-- Agents that share a lock file: their steps, in any order, and that at most one holds the lock. No one
-- else removes the file.
use certplane.Base.{
  ◌≤◌, true, false, ◌≡◌, sym, ap, ◌∙◌, ◌⊎◌, inl, inr, List, [], ◌∷◌, ◌++◌, Result, ok, err, arith,
  length, Bool-cases,
}
use certplane.Base.Text.{Text}
use certplane.Base.Dict.{lookup, lookup-insert_self}
use certplane.Agent.{Disk, AgentError, is_there}
use certplane.Agent.Lock.{Lock, acquire_lock, release_lock}

-- The disk that the processes share, and those that hold the lock.
pub record System : Type 0 where
  pub disk : Disk
  pub holders : List Text

module _ (path : Text) where
  -- One step: a process takes the lock or is refused, a holder releases it or dies, or someone does
  -- anything to the disk that leaves the lock file alone.
  pub data Step : System → System → Type 0 where
    acquired :
        (s : System) (pid : Text) (lock : Lock) (d : Disk)
        → acquire_lock path pid s.disk ≡ (ok lock, d)
        → Step s (record { disk = d; holders = pid ∷ s.holders })
    refused :
        (s : System) (pid : Text) (e : AgentError) (d : Disk)
        → acquire_lock path pid s.disk ≡ (err e, d)
        → Step s (record s { disk = d })
    released :
        (s : System) (before after : List Text) (pid : Text)
        → s.holders ≡ before ++ (pid ∷ after)
        → Step s (record {
          disk = (release_lock (record { path = path }) s.disk).1;
          holders = before ++ after;
        })
    died :
        (s : System) (before after : List Text) (pid : Text)
        → s.holders ≡ before ++ (pid ∷ after)
        → Step s (record s { holders = before ++ after })
    worked :
        (s : System) (d : Disk)
        → lookup path d.files ≡ lookup path s.disk.files
        → Step s (record s { disk = d })

  pub data Steps : System → System → Type 0 where
    start : (s : System) → Steps s s
    then_step : (s s' s'' : System) → Steps s s' → Step s' s'' → Steps s s''

  -- No one holds the lock, or one process does and the file is there.
  abbrev Guarded : System → Type 0
  Guarded s =
      (s.holders ≡ [])
      ⊎ ((pid : Text) × ((s.holders ≡ pid ∷ []) × (is_there (lookup path s.disk.files) ≡ true)))

  acquire_lock-ok :
      (pid : Text) (lock : Lock) (d d' : Disk)
      → acquire_lock path pid d ≡ (ok lock, d')
      → (is_there (lookup path d.files) ≡ false) × (is_there (lookup path d'.files) ≡ true)
  unfolding acquire_lock
  acquire_lock-ok pid lock d d' h = elim (Bool-cases (d.mkdir_fails path)) [
    | inl e ↦ absurd (cc (rw e at h))
    | inr e ↦ elim (Bool-cases (is_there (lookup path d.files))) [
      | inl t ↦ absurd (cc (rw (e, t) at h))
      | inr t ↦ elim (Bool-cases (d.create_fails path)) [
        | inl c ↦ absurd (cc (rw (e, t, c) at h))
        | inr c ↦ (
          t,
          ap (λ (r : Result AgentError Lock × Disk). is_there (lookup path r.1.files))
                (sym (rw (e, t, c) at h))
              ∙ ap is_there (lookup-insert_self path pid d.files),
        )
      ]
    ]
  ]

  acquire_lock-err :
      (pid : Text) (e : AgentError) (d d' : Disk) → acquire_lock path pid d ≡ (err e, d') → d' ≡ d
  unfolding acquire_lock
  acquire_lock-err pid e d d' h = ground (arith, h)

  emptied :
      (before after : List Text) (pid holder : Text)
      → before ++ (pid ∷ after) ≡ holder ∷ []
      → before ++ after ≡ []
  emptied [] after pid holder h = cc h
  emptied (b ∷ []) after pid holder h = cc h
  emptied (b ∷ c ∷ before) after pid holder h = cc h

  not_empty :
      (before after : List Text) (pid : Text) {P : Type 0} → before ++ (pid ∷ after) ≡ [] → P
  not_empty [] after pid h = cc h
  not_empty (b ∷ before) after pid h = cc h

  left :
      (s : System) (before after : List Text) (pid : Text)
      → Guarded s
      → s.holders ≡ before ++ (pid ∷ after)
      → before ++ after ≡ []
  left s before after pid (inl none_holds) h = not_empty before after pid (sym h ∙ none_holds)
  left s before after pid (inr (holder, (one, _))) h = emptied before after pid holder (sym h ∙ one)

  Step-Guarded : {s s' : System} → Step s s' → Guarded s → Guarded s'
  Step-Guarded (acquired s pid lock d h) (inl none_holds) =
      inr (pid, (ap (λ hs. pid ∷ hs) none_holds, (acquire_lock-ok pid lock s.disk d h).1))
  Step-Guarded (acquired s pid lock d h) (inr (holder, (one, there))) =
      cc (there, (acquire_lock-ok pid lock s.disk d h).0)
  Step-Guarded (refused s pid e d h) (inl none_holds) = inl none_holds
  Step-Guarded (refused s pid e d h) (inr (holder, (one, there))) = inr (
    holder,
    (
      one,
      ap (λ (x : Disk). is_there (lookup path x.files)) (acquire_lock-err pid e s.disk d h) ∙ there,
    ),
  )
  Step-Guarded (released s before after pid h) g = inl (left s before after pid g h)
  Step-Guarded (died s before after pid h) g = inl (left s before after pid g h)
  Step-Guarded (worked s d h) (inl none_holds) = inl none_holds
  Step-Guarded (worked s d h) (inr (holder, (one, there))) =
      inr (holder, (one, ap is_there h ∙ there))

  Steps-Guarded : {s s' : System} → Steps s s' → Guarded s → Guarded s'
  Steps-Guarded (start s) g = g
  Steps-Guarded (then_step s s' s'' before last) g = Step-Guarded last (Steps-Guarded before g)

  -- From a disk whose lock no one holds, whether the lock file is there or not, however processes
  -- take the lock, are refused, release it, die, or work on other files: at most one holds the lock.
  pub one_holder : (s s' : System) → s.holders ≡ [] → Steps s s' → length s'.holders ≤ 1
  one_holder s s' h r = elim (Steps-Guarded r (inl h)) [
    | inl e ↦ rw e (omega arith)
    | inr (pid, (e, _)) ↦ rw e (omega arith)
  ]

  -- The lock file is there and no one holds the lock.
  abbrev pub IsStale : System → Type 0
  IsStale s = (s.holders ≡ []) × (is_there (lookup path s.disk.files) ≡ true)

  Step-IsStale : {s s' : System} → Step s s' → IsStale s → IsStale s'
  Step-IsStale (acquired s pid lock d h) (_, there) =
      cc (there, (acquire_lock-ok pid lock s.disk d h).0)
  Step-IsStale (refused s pid e d h) (none_holds, there) = (
    none_holds,
    ap (λ (x : Disk). is_there (lookup path x.files)) (acquire_lock-err pid e s.disk d h) ∙ there,
  )
  Step-IsStale (released s before after pid h) (none_holds, _) =
      not_empty before after pid (sym h ∙ none_holds)
  Step-IsStale (died s before after pid h) (none_holds, _) =
      not_empty before after pid (sym h ∙ none_holds)
  Step-IsStale (worked s d h) (none_holds, there) = (none_holds, ap is_there h ∙ there)

  -- A lock file that is left behind by a process that died stays: no step gives the lock to any
  -- process again, until something other than these steps removes the file.
  pub never_retaken : {s s' : System} → Steps s s' → IsStale s → IsStale s'
  never_retaken (start s) h = h
  never_retaken (then_step s t s' before last) h = Step-IsStale last (never_retaken before h)
