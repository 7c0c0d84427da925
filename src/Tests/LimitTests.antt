-- ===== src/Tests/LimitTests.antt =====
-- internal/broker/ratelimit: runs of the limiter, and its theorems at concrete data.
use certplane.Base.{◌≡◌, ◌+◌, refl, arith, List, [], ◌∷◌}
use certplane.Base.Int.{pos}
use certplane.Base.Text.{codes, text_eq}
use certplane.Base.Dict.{lookup, insert}
use certplane.Clock.{hour}
use certplane.Ratelimit.{new, allow, prune, prune_both, append_both, profile_key}
use certplane.Ratelimit.Bound.{
  Call, IsMonotone, serve, Respects, times_of, identity_of, key_of, serve-Respects,
}
use certplane.Tests.Data.{today, agent, web}

-- Three calls within an hour.
abbrev calls : List Call
calls =
    record { now = today; identity = agent; profile = web }
    ∷ record { now = today + 1; identity = agent; profile = codes "api" }
    ∷ record { now = today + 2; identity = agent; profile = web }
    ∷ []

abbrev next : Call
next = record { now = today + hour + 1; identity = agent; profile = web }

calls-IsMonotone : IsMonotone 0 calls
calls-IsMonotone = (ground arith, (ground arith, (ground arith, tt)))

-- The third call is refused at a limit of two.
serve_run :
    times_of identity_of (serve (new (pos 2) (pos 0)) calls []).1 agent ≡ (today + 1) ∷ today ∷ []
unfolding serve new allow prune prune_both append_both profile_key lookup insert text_eq
serve_run = refl

serve-Respects_example :
    Respects (pos 2) (times_of identity_of (serve (new (pos 2) (pos 1)) calls []).1 agent)
    × Respects (pos 1) (times_of key_of (serve (new (pos 2) (pos 1)) calls []).1 agent)
serve-Respects_example = serve-Respects (pos 2) (pos 1) calls agent calls-IsMonotone
