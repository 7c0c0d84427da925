-- ===== src/Tests/LockTests.antt =====
-- internal/fileutil/lock.go: two agents at one lock, and the theorems at them.
use certplane.Base.{◌≤◌, ◌≡◌, refl, [], ◌∷◌, ok, err, length}
use certplane.Base.Text.{Text, codes, text_eq}
use certplane.Base.Dict.{lookup, insert}
use certplane.Agent.{Disk, lock_exists}
use certplane.Agent.Lock.{acquire_lock}
use certplane.Agent.Lock.Exclusion.{
  System, Steps, start, then_step, acquired, refused, IsStale, one_holder, never_retaken,
}
use certplane.Tests.DiskData.{empty_disk}

abbrev pub lock_path : Text
lock_path = codes "agent.lock"

abbrev locked : Disk
locked = record empty_disk { files = (lock_path, codes "1") ∷ [] }

abbrev held : System
held = record { disk = locked; holders = codes "1" ∷ [] }

take_run :
    acquire_lock lock_path (codes "1") empty_disk ≡ (ok (record { path = lock_path }), locked)
unfolding acquire_lock lookup insert
take_run = refl

refuse_run : acquire_lock lock_path (codes "2") locked ≡ (err lock_exists, locked)
unfolding acquire_lock lookup text_eq
refuse_run = refl

-- One agent takes the lock, the other is refused.
taken_and_refused : Steps lock_path (record { disk = empty_disk; holders = [] }) held
taken_and_refused =
    then_step _ held held (then_step _ _ held (start _) (acquired _ (codes "1") _ locked take_run))
      (refused held (codes "2") lock_exists locked refuse_run)

one_holder_example : length held.holders ≤ 1
one_holder_example =
    one_holder lock_path (record { disk = empty_disk; holders = [] }) held refl taken_and_refused

-- The holder dies, and the next agent is refused.
abbrev stale : System
stale = record { disk = locked; holders = [] }

stale-IsStale : IsStale lock_path stale
unfolding lookup text_eq
stale-IsStale = (refl, refl)

never_retaken_example : IsStale lock_path stale
never_retaken_example =
    never_retaken lock_path
      (then_step stale stale stale (start stale)
        (refused stale (codes "2") lock_exists locked refuse_run))
      stale-IsStale
