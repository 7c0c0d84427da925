-- ===== src/Clock/Laws.antt =====
-- The comparison of a remaining time with a duration, which the caches and the agent make.
use certplane.Base.{◌+◌, ◌<◌, ◌≤◌, ◌≡◌, ◌↔◌, true, arith}
use certplane.Base.Int.{leb_ℤ, pos_part, neg_part}
use certplane.Clock.{Time, Duration, max_duration, until}

-- For a duration below the largest one, the saturating test `time.Until(t) <= d` says exactly
-- that `t` is at most `d` after `now`.
pub until_le_iff :
    (now t : Time) (d : Duration)
    → pos_part d < max_duration
    → neg_part d ≤ max_duration
    → (leb_ℤ (until now t) d ≡ true) ↔ (t + neg_part d ≤ now + pos_part d)
unfolding until
until_le_iff now t d h k = (λ e. ground arith, λ e. ground arith)
