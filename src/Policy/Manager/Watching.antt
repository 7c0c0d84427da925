-- ===== src/Policy/Manager/Watching.antt =====
-- Which policy is in force while the file is watched.
use certplane.Base.{
  true, false, ◌≡◌, refl, ap, ◌∙◌, ◌≤◌, Option, none, some, List, [], ◌∷◌, ok, err, arith, All, ltb,
  Result-cases, Option-cases, inl, inr, Bool-cases, Result,
}
use certplane.Base.Text.{Text}
use certplane.Clock.{Time}
use certplane.Policy.{Config, CompiledPolicy}
use certplane.Policy.Hash.{Digest}
use certplane.Policy.Compile.{compile}
use certplane.Policy.Manager.{
  Manager, PolicyFile, Tick, Watcher, LoadError, unreadable, malformed, decoded, load, reload,
  new_manager, tick, watch_from, watch, or_zero_time,
}

-- The last of the policies that were loaded, or else the one before them.
abbrev pub last_of : List CompiledPolicy → Option CompiledPolicy → Option CompiledPolicy
last_of [] before = before
last_of (p ∷ ps) before = last_of ps (some p)

module _ (d : Digest) where
  abbrev succeeded : Result LoadError CompiledPolicy → List CompiledPolicy → List CompiledPolicy
  succeeded (ok p) ps = p ∷ ps
  succeeded (err e) ps = ps

  -- The policies that the ticks load: those of the files that are newer than every file that was
  -- looked at before, as far as they compile.
  unfoldable pub loads : Time → List Tick → List CompiledPolicy
  loads last [] = []
  loads last (t ∷ ticks) = elim t.stat [
    | none ↦ loads last ticks
    | some mod_time ↦ elim (ltb last mod_time) [
      | true ↦ succeeded (load d t.file) (loads mod_time ticks)
      | false ↦ loads last ticks
    ]
  ]

  watch_from-loads :
      (w : Watcher) (ticks : List Tick)
      → (watch_from d w ticks).manager.current ≡ last_of (loads w.last_mod ticks) w.manager.current
  unfolding watch_from tick loads
  watch_from-loads w [] = refl
  watch_from-loads w (t ∷ ticks) = ground (arith, watch_from-loads (tick d w t) ticks)

  -- While the file is watched, the policy in force is the last one that was loaded, and before that
  -- the manager's: a file that is unreadable, malformed or refused never takes it away.
  pub watch-loads :
      (m : Manager) (stat : Option Time) (ticks : List Tick)
      → (watch d m stat ticks).manager.current
        ≡ last_of (loads (or_zero_time d stat) ticks) m.current
  unfolding watch
  watch-loads m stat ticks = watch_from-loads _ ticks

  abbrev pub IsCompiled : CompiledPolicy → Type 0
  IsCompiled p = (now : Time) × (cfg : Config) × (compile d now cfg ≡ ok p)

  -- A manager that holds a policy, which is the compiled form of a file.
  abbrev pub HoldsCompiled : Manager → Type 0
  HoldsCompiled m = (p : CompiledPolicy) × (m.current ≡ some p) × IsCompiled p

  load-IsCompiled : (file : PolicyFile) {p : CompiledPolicy} → load d file ≡ ok p → IsCompiled p
  unfolding load
  load-IsCompiled unreadable h = cc
  load-IsCompiled malformed h = cc
  load-IsCompiled (decoded now cfg) h = (now, cfg, ground arith)

  reload-HoldsCompiled :
      (m : Manager) (file : PolicyFile) → HoldsCompiled m → HoldsCompiled (reload d m file).0
  unfolding reload
  reload-HoldsCompiled m file h = elim (Result-cases (load d file)) [
    | inl (p, good) ↦ rw (good, reload) (p, refl, load-IsCompiled file good)
    | inr (e, bad) ↦ rw (bad, reload) h
  ]

  tick-HoldsCompiled :
      (w : Watcher) (t : Tick) → HoldsCompiled w.manager → HoldsCompiled (tick d w t).manager
  unfolding tick
  tick-HoldsCompiled w t h = elim (Option-cases t.stat) [
    | inl e ↦ rw (e, tick) h
    | inr (mod_time, e) ↦ elim (Bool-cases (ltb w.last_mod mod_time)) [
      | inl newer ↦ rw (e, newer, tick) (reload-HoldsCompiled w.manager t.file h)
      | inr seen ↦ rw (e, seen, tick) h
    ]
  ]

  watch_from-HoldsCompiled :
      (w : Watcher) (ticks : List Tick)
      → HoldsCompiled w.manager
      → HoldsCompiled (watch_from d w ticks).manager
  unfolding watch_from
  watch_from-HoldsCompiled w [] h = h
  watch_from-HoldsCompiled w (t ∷ ticks) h =
      watch_from-HoldsCompiled (tick d w t) ticks (tick-HoldsCompiled w t h)

  pub new_manager-HoldsCompiled :
      (path : Text) (file : PolicyFile) {m : Manager}
      → new_manager d path file ≡ ok m
      → HoldsCompiled m
  unfolding new_manager
  new_manager-HoldsCompiled path file h = elim (Result-cases (load d file)) [
    | inl (p, good) ↦ (p, ground arith, load-IsCompiled file good)
    | inr (e, bad) ↦ ground arith
  ]

  -- A manager that could be made holds the compiled form of a policy file, and still does after
  -- any ticks of the watch loop, whatever the file is at each of them.
  pub watch-HoldsCompiled :
      (path : Text) (file : PolicyFile) {m : Manager} (stat : Option Time) (ticks : List Tick)
      → new_manager d path file ≡ ok m
      → HoldsCompiled (watch d m stat ticks).manager
  unfolding watch
  watch-HoldsCompiled path file stat ticks h =
      watch_from-HoldsCompiled _ ticks (new_manager-HoldsCompiled path file h)

  abbrev pub NotNewer : Time → Tick → Type 0
  NotNewer last t = (mod_time : Time) → t.stat ≡ some mod_time → mod_time ≤ last

  tick-NotNewer : (w : Watcher) (t : Tick) → NotNewer w.last_mod t → tick d w t ≡ w
  unfolding tick
  tick-NotNewer w t h = elim (Option-cases t.stat) [
    | inl e ↦ rw (e, tick)
    | inr (mod_time, e) ↦ let old = h mod_time e in ground arith
  ]

  watch_from-NotNewer :
      (w : Watcher) (ticks : List Tick) → All (NotNewer w.last_mod) ticks → watch_from d w ticks ≡ w
  unfolding watch_from
  watch_from-NotNewer w [] h = refl
  watch_from-NotNewer w (t ∷ ticks) (ht, h) =
      ap (λ v. watch_from d v ticks) (tick-NotNewer w t ht) ∙ watch_from-NotNewer w ticks h

  -- A file that was replaced between the load and the start of the watch loop is never loaded, if
  -- its modification time stays what the loop finds at its start: the manager is left as it was.
  pub watch_missed :
      (m : Manager) (last : Time) (ticks : List Tick)
      → All (NotNewer last) ticks
      → (watch d m (some last) ticks).manager ≡ m
  unfolding watch
  watch_missed m last ticks h = ap (λ (w : Watcher). w.manager) (watch_from-NotNewer _ ticks h)
