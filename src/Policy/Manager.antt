-- ===== src/Policy/Manager.antt =====
-- internal/broker/policy/load.go and manager.go: the policy in force, and the loop that reloads it.
-- What the file system and the YAML decoder answer comes in as data.
pub mod Watching
use certplane.Base.{
  Bool, not, Option, none, some, List, [], ◌∷◌, Result, ok, err, map_err, if◌then◌else◌, ltb,
}
use certplane.Base.Text.{Text}
use certplane.Clock.{Time}
use certplane.Policy.{Config, CompiledPolicy}
use certplane.Policy.Hash.{Digest}
use certplane.Policy.Compile.{CompileError, compile}

-- The policy file at one moment, with the clock at which it is compiled.
pub data PolicyFile : Type 0 where
  unreadable malformed : PolicyFile
  decoded : Time → Config → PolicyFile

pub data LoadError : Type 0 where
  reading parsing : LoadError
  compiling : CompileError → LoadError

pub record Manager : Type 0 where
  pub path : Text
  pub current : Option CompiledPolicy

-- One tick of the watch loop: the answer of `os.Stat`, a modification time or an error, and the
-- file that a reload finds.
pub record Tick : Type 0 where
  pub stat : Option Time
  pub file : PolicyFile

pub record Watcher : Type 0 where
  pub manager : Manager
  pub last_mod : Time

module _ (d : Digest) where
  unfoldable pub load : PolicyFile → Result LoadError CompiledPolicy
  load unreadable = err reading
  load malformed = err parsing
  load (decoded now cfg) = map_err compiling (compile d now cfg)

  -- `Reload` keeps the policy in force when it fails.
  unfoldable pub reload : Manager → PolicyFile → Manager × Option LoadError
  unfolding load
  reload m file = elim (load file) [
    | err e ↦ (m, some e)
    | ok policy ↦ (record m { current = some policy }, none)
  ]

  new_manager_from : Manager × Option LoadError → Result LoadError Manager
  new_manager_from (m, some e) = err e
  new_manager_from (m, none) = ok m

  unfoldable pub new_manager : Text → PolicyFile → Result LoadError Manager
  unfolding reload new_manager_from
  new_manager path file = new_manager_from (reload (record { path = path; current = none }) file)

  -- The body of the loop for `<-ticker.C`.
  unfoldable pub tick : Watcher → Tick → Watcher
  unfolding reload
  tick w t = elim t.stat [
    | none ↦ w
    | some mod_time ↦
        if not (ltb w.last_mod mod_time)
        then w
        else record { manager = (reload w.manager t.file).0; last_mod = mod_time }
  ]

  -- The loop over the ticks that come before the context is done.
  watch_from : Watcher → List Tick → Watcher
  watch_from w [] = w
  watch_from w (t ∷ ticks) = watch_from (tick w t) ticks

  -- The zero time stands for a modification time that cannot be read at the start.
  abbrev pub or_zero_time : Option Time → Time
  or_zero_time none = 0
  or_zero_time (some t) = t

  unfoldable pub watch : Manager → Option Time → List Tick → Watcher
  unfolding watch_from tick
  watch m stat ticks = watch_from (record { manager = m; last_mod = or_zero_time stat }) ticks

-- `Current`
abbrev pub current : Manager → Option CompiledPolicy
current m = m.current
