-- ===== src/Ratelimit/Bound.antt =====
-- No identity, and no identity with a profile, is granted more than its limit within an hour.
use mathlib.Core.Path.{subst}
use certplane.Base.{
  ℕ, ◌≤◌, ◌≡◌, refl, Bool, true, false, ◌&&◌, Option, none, some, List, [], ◌∷◌, arith, length,
  if◌then◌else◌, inl, inr, Bool-cases,
}
use certplane.Base.Int.{ℤ, pos, ltb_ℤ, leb_ℤ}
use certplane.Base.Text.{Text, text_eq}
use certplane.Base.Text.Laws.{text_eq_iff}
use certplane.Base.Dict.{lookup, insert}
use certplane.Clock.{Time}
use certplane.Ratelimit.{
  Limiter, LimitError, new, slice, profile_key, is_full, prune_both, append_both, allow,
}
use certplane.Ratelimit.Window.{within, Tracks, Tracks-prune, Tracks-append, length-pruned}

pub record Call : Type 0 where
  pub now : Time
  pub identity : Text
  pub profile : Text

abbrev pub key_of : Call → Text
key_of c = profile_key c.identity c.profile

abbrev pub identity_of : Call → Text
identity_of c = c.identity

-- The times of the granted calls that `f` gives a key, the latest first.
abbrev pub times_of : (Call → Text) → List Call → Text → List Time
times_of f [] k = []
times_of f (c ∷ calls) k =
    if text_eq (f c) k then c.now ∷ times_of f calls k else times_of f calls k

abbrev pub is_granted : Option LimitError → Bool
is_granted none = true
is_granted (some e) = false

-- The calls in the order of the mutex, with the granted ones, the latest first.
unfoldable pub serve : Limiter → List Call → List Call → Limiter × List Call
serve l [] granted = (l, granted)
serve l (c ∷ calls) granted =
    let (l', e) = allow l c.now c.identity c.profile in
    serve l' calls (if is_granted e then c ∷ granted else granted)

-- The clock does not run backwards.
abbrev pub IsMonotone : Time → List Call → Type 0
IsMonotone last [] = Unit
IsMonotone last (c ∷ calls) = (last ≤ c.now) × IsMonotone c.now calls

-- Each time has fewer than `limit` others in the hour before it, if there is a limit.
abbrev pub Respects : ℤ → List Time → Type 0
Respects limit [] = Unit
Respects limit (t ∷ ts) =
    (ltb_ℤ (pos 0) limit ≡ true → ltb_ℤ (pos (within t ts)) limit ≡ true) × Respects limit ts

record Inv (i j : ℤ) (l : Limiter) (granted : List Call) (last : Time) : Type 0 where
  limit_identity : l.per_identity ≡ i
  limit_profile : l.per_identity_profile ≡ j
  identities : Tracks l.identity (times_of identity_of granted) last
  keys : Tracks l.profile (times_of key_of granted) last
  by_identity : (k : Text) → Respects i (times_of identity_of granted k)
  by_key : (k : Text) → Respects j (times_of key_of granted k)

not_full :
    (limit : ℤ) (ts : List Time) (n : ℕ)
    → length ts ≡ n
    → is_full limit ts ≡ false
    → ltb_ℤ (pos 0) limit ≡ true
    → ltb_ℤ (pos n) limit ≡ true
not_full limit ts n e h k = ground arith

Respects-extend :
    (f : Call → Text) (limit : ℤ) (granted : List Call) (c : Call) (k : Text)
    → (ltb_ℤ (pos 0) limit ≡ true
        → ltb_ℤ (pos (within c.now (times_of f granted (f c)))) limit ≡ true)
    → Respects limit (times_of f granted k)
    → Respects limit (times_of f (c ∷ granted) k)
Respects-extend f limit granted c k fresh old = elim (Bool-cases (text_eq (f c) k)) [
  | inl e ↦
      let same = (text_eq_iff (f c) k).0 e in
      rw e (
        λ h.
            subst (λ j. ltb_ℤ (pos (within c.now (times_of f granted j))) limit ≡ true) same
              (fresh h),
        old,
      )
  | inr e ↦ rw e old
]

module _ (i j : ℤ) (c : Call) where
  abbrev pruned : Limiter → Limiter
  pruned l = prune_both l c.now c.identity (key_of c)

  -- Pruning keeps the invariant, and leaves slices as long as the recent history.
  pruned-Inv :
      (l : Limiter) (granted : List Call) (last : Time)
      → Inv i j l granted last
      → last ≤ c.now
      → Inv i j (pruned l) granted c.now
  unfolding prune_both
  pruned-Inv l granted last inv later = record {
    limit_identity = inv.limit_identity;
    limit_profile = inv.limit_profile;
    identities = Tracks-prune l.identity _ last c.now c.identity inv.identities later;
    keys = Tracks-prune l.profile _ last c.now (key_of c) inv.keys later;
    by_identity = inv.by_identity;
    by_key = inv.by_key;
  }

  -- A call that neither limit forbids is granted.
  append-Inv :
      (l : Limiter) (granted : List Call)
      → Inv i j l granted c.now
      → length (slice l.identity c.identity)
        ≡ within c.now (times_of identity_of granted c.identity)
      → length (slice l.profile (key_of c)) ≡ within c.now (times_of key_of granted (key_of c))
      → is_full l.per_identity (slice l.identity c.identity) ≡ false
      → is_full l.per_identity_profile (slice l.profile (key_of c)) ≡ false
      → Inv i j (append_both l c.now c.identity (key_of c)) (c ∷ granted) c.now
  unfolding append_both
  append-Inv l granted inv mine paired room_i room_j = record {
    limit_identity = inv.limit_identity;
    limit_profile = inv.limit_profile;
    identities = Tracks-append l.identity _ c.now c.identity inv.identities;
    keys = Tracks-append l.profile _ c.now (key_of c) inv.keys;
    by_identity = λ k.
        Respects-extend identity_of i granted c k
          (not_full i _ _ mine (rw inv.limit_identity at room_i)) (inv.by_identity k);
    by_key = λ k.
        Respects-extend key_of j granted c k
          (not_full j _ _ paired (rw inv.limit_profile at room_j)) (inv.by_key k);
  }

  abbrev grant : Option LimitError → List Call → List Call
  grant e granted = if is_granted e then c ∷ granted else granted

  allow-Inv :
      (l : Limiter) (granted : List Call) (last : Time)
      → Inv i j l granted last
      → last ≤ c.now
      → let r = allow l c.now c.identity c.profile in Inv i j r.0 (grant r.1 granted) c.now
  unfolding allow prune_both insert
  allow-Inv l granted last inv later =
      let p = pruned l in
      let inv' = pruned-Inv l granted last inv later in
      elim (Bool-cases (is_full p.per_identity (slice p.identity c.identity))) [
        | inl full ↦ rw full inv'
        | inr room_i ↦
            elim (Bool-cases (is_full p.per_identity_profile (slice p.profile (key_of c)))) [
              | inl full ↦ rw (room_i, full) inv'
              | inr room_j ↦
                  rw (room_i, room_j)
                    (append-Inv p granted inv'
                      (length-pruned l.identity _ last c.now c.identity inv.identities later)
                      (length-pruned l.profile _ last c.now (key_of c) inv.keys later) room_i
                      room_j)
            ]
      ]

-- The time of the last call.
abbrev pub end : Time → List Call → Time
end last [] = last
end last (c ∷ calls) = end c.now calls

serve-Inv :
    (i j : ℤ) (calls : List Call) (l : Limiter) (granted : List Call) (last : Time)
    → Inv i j l granted last
    → IsMonotone last calls
    → Inv i j (serve l calls granted).0 (serve l calls granted).1 (end last calls)
unfolding serve
serve-Inv i j [] l granted last inv mono = inv
serve-Inv i j (c ∷ calls) l granted last inv (later, mono) =
    serve-Inv i j calls _ _ c.now (allow-Inv i j c l granted last inv later) mono

new-Inv : (i j : ℤ) → Inv i j (new i j) [] 0
unfolding new lookup
new-Inv i j = record {
  limit_identity = refl;
  limit_profile = refl;
  identities = λ k now h. refl;
  keys = λ k now h. refl;
  by_identity = λ k. tt;
  by_key = λ k. tt;
}

-- Of the calls that a new limiter serves, with a clock that does not run backwards, each granted one
-- has fewer granted calls of the same identity in the hour before it than the limit of identities,
-- and fewer of the same identity and profile than the limit of profiles, where a limit is positive.
pub serve-Respects :
    (i j : ℤ) (calls : List Call) (k : Text)
    → IsMonotone 0 calls
    → Respects i (times_of identity_of (serve (new i j) calls []).1 k)
      × Respects j (times_of key_of (serve (new i j) calls []).1 k)
serve-Respects i j calls k mono =
    let inv = serve-Inv i j calls (new i j) [] 0 (new-Inv i j) mono in
    (inv.by_identity k, inv.by_key k)

abbrev pub is_used_up : ℤ → ℕ → Bool
is_used_up limit n = ltb_ℤ (pos 0) limit && leb_ℤ limit (pos n)
