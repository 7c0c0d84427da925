-- ===== src/Ratelimit.antt =====
-- internal/broker/ratelimit/limiter.go: a sliding window of one hour for each identity and for each
-- identity and profile. The mutex makes the calls of `Allow` a sequence; `now` is the clock's answer.
pub mod Window
pub mod Bound
use certplane.Base.{
  ℕ, Bool, true, false, not, ◌&&◌, Option, none, some, List, [], ◌∷◌, ◌++◌, if◌then◌else◌, length,
}
use certplane.Base.Int.{ℤ, pos, ltb_ℤ, leb_ℤ}
use certplane.Base.Text.{Text}
use certplane.Base.Dict.{Dict, lookup, insert}
use certplane.Clock.{Time, hour_before}

pub record Limiter : Type 0 where
  pub per_identity : ℤ
  pub per_identity_profile : ℤ
  pub identity : Dict (List Time)
  pub profile : Dict (List Time)

pub data LimitError : Type 0 where
  identity_exceeded : Text → LimitError
  profile_exceeded : Text → Text → LimitError

-- `New`
unfoldable pub new : ℤ → ℤ → Limiter
new per_identity per_identity_profile = record {
  per_identity = per_identity;
  per_identity_profile = per_identity_profile;
  identity = [];
  profile = [];
}

-- `prune` keeps the times after a point, in their order.
unfoldable pub prune : List Time → ℤ → List Time
prune [] after = []
prune (t ∷ ts) after = let rest = prune ts after in if ltb_ℤ after (pos t) then t ∷ rest else rest

-- `m[k]`: the slice of a missing key is empty.
abbrev pub or_nil : Option (List Time) → List Time
or_nil none = []
or_nil (some ts) = ts

abbrev pub slice : Dict (List Time) → Text → List Time
slice m k = or_nil (lookup k m)

-- `identity + "\x00" + profile`
unfoldable pub profile_key : Text → Text → Text
profile_key identity profile = identity ++ (0 ∷ profile)

-- `limit > 0 && len(times) >= limit`
abbrev pub is_full : ℤ → List Time → Bool
is_full limit times = ltb_ℤ (pos 0) limit && leb_ℤ limit (pos (length times))

-- Both slices are pruned and written back, whether or not the call is allowed.
unfoldable pub prune_both : Limiter → Time → Text → Text → Limiter
prune_both l now identity key = record l {
  identity = insert identity (prune (slice l.identity identity) (hour_before now)) l.identity;
  profile = insert key (prune (slice l.profile key) (hour_before now)) l.profile;
}

unfoldable pub append_both : Limiter → Time → Text → Text → Limiter
append_both l now identity key = record l {
  identity = insert identity (slice l.identity identity ++ (now ∷ [])) l.identity;
  profile = insert key (slice l.profile key ++ (now ∷ [])) l.profile;
}

unfoldable pub allow : Limiter → Time → Text → Text → Limiter × Option LimitError
allow l now identity profile =
    let key = profile_key identity profile in
    let pruned = prune_both l now identity key in
    if is_full pruned.per_identity (slice pruned.identity identity)
    then (pruned, some (identity_exceeded identity))
    else if is_full pruned.per_identity_profile (slice pruned.profile key)
    then (pruned, some (profile_exceeded identity profile))
    else (append_both pruned now identity key, none)
