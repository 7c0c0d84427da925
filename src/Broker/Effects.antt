-- ===== src/Broker/Effects.antt =====
-- What a part of the handler has done to the world: nothing that counts, or one response.
use certplane.Base.{ℕ, suc, Bool, ◌≡◌, refl, ◌∙◌, List, [], ◌∷◌}
use certplane.Audit.{Event}
use certplane.Broker.{
  Action, act, drew_id, clock_read, panicked, recorded, asked, responded, Trace, Reply,
  IssueRequest, World,
}

-- The requests to the issuer, the responses to the client, and the panics of a trace.
unfoldable pub requests : Trace → List IssueRequest
requests [] = []
requests (drew_id ∷ t) = requests t
requests (clock_read ∷ t) = requests t
requests (panicked ∷ t) = requests t
requests (recorded e b ∷ t) = requests t
requests (asked r ∷ t) = r ∷ requests t
requests (responded n b ∷ t) = requests t

unfoldable pub responses : Trace → List (ℕ × Reply)
responses [] = []
responses (drew_id ∷ t) = responses t
responses (clock_read ∷ t) = responses t
responses (panicked ∷ t) = responses t
responses (recorded e b ∷ t) = responses t
responses (asked r ∷ t) = responses t
responses (responded n b ∷ t) = (n, b) ∷ responses t

unfoldable pub panics : Trace → ℕ
panics [] = 0
panics (drew_id ∷ t) = panics t
panics (clock_read ∷ t) = panics t
panics (panicked ∷ t) = suc (panics t)
panics (recorded e b ∷ t) = panics t
panics (asked r ∷ t) = panics t
panics (responded n b ∷ t) = panics t

-- The trace `t'` is what has become of `t`: actions are only added.
pub data Later (t : Trace) : Trace → Type 0 where
  later_same : Later t t
  later_more : (a : Action) (t' : Trace) → Later t t' → Later t (a ∷ t')

pub Later-trans : {a b c : Trace} → Later a b → Later b c → Later a c
Later-trans x later_same = x
Later-trans x (later_more a t' y) = later_more a t' (Later-trans x y)

-- The world `w'` comes after `w`, with the same limiter.
pub record After {S : Type 0} (w w' : World S) : Type 0 where
  pub later : Later w.trace w'.trace
  pub limiter : w'.rate_limiter ≡ w.rate_limiter

pub After-trans : {S : Type 0} {a b c : World S} → After a b → After b c → After a c
After-trans x y = record { later = Later-trans x.later y.later; limiter = y.limiter ∙ x.limiter }

pub After-act : {S : Type 0} (a : Action) (w : World S) → After w (act a w)
After-act a w = record { later = later_more a w.trace later_same; limiter = refl }

-- Neither the client nor the issuer has heard anything, and nothing has panicked.
pub record Silent (t t' : Trace) : Type 0 where
  pub later : Later t t'
  pub asks : requests t' ≡ requests t
  pub answers : responses t' ≡ responses t
  pub sound : panics t' ≡ panics t

-- The policy, the limiter and the store are left alone, too.
pub record Quiet {S : Type 0} (w w' : World S) : Type 0 where
  pub silent : Silent w.trace w'.trace
  pub manager : w'.manager ≡ w.manager
  pub limiter : w'.rate_limiter ≡ w.rate_limiter
  pub store : w'.store ≡ w.store

pub Silent-trans : {a b c : Trace} → Silent a b → Silent b c → Silent a c
Silent-trans x y = record {
  later = Later-trans x.later y.later;
  asks = y.asks ∙ x.asks;
  answers = y.answers ∙ x.answers;
  sound = y.sound ∙ x.sound;
}

pub Silent-refl : {a : Trace} → Silent a a
Silent-refl = record { later = later_same; asks = refl; answers = refl; sound = refl }

pub Silent-drew_id : (t : Trace) → Silent t (drew_id ∷ t)
unfolding requests responses panics
Silent-drew_id t = record {
  later = later_more drew_id t later_same;
  asks = refl;
  answers = refl;
  sound = refl;
}

pub Silent-clock_read : (t : Trace) → Silent t (clock_read ∷ t)
unfolding requests responses panics
Silent-clock_read t = record {
  later = later_more clock_read t later_same;
  asks = refl;
  answers = refl;
  sound = refl;
}

pub Silent-recorded : (t : Trace) (e : Event) (b : Bool) → Silent t (recorded e b ∷ t)
unfolding requests responses panics
Silent-recorded t e b = record {
  later = later_more (recorded e b) t later_same;
  asks = refl;
  answers = refl;
  sound = refl;
}

pub Quiet-trans : {S : Type 0} {a b c : World S} → Quiet a b → Quiet b c → Quiet a c
Quiet-trans x y = record {
  silent = Silent-trans x.silent y.silent;
  manager = y.manager ∙ x.manager;
  limiter = y.limiter ∙ x.limiter;
  store = y.store ∙ x.store;
}

-- A change of the trace alone.
pub Quiet-trace :
    {S : Type 0} (w : World S) (t : Trace) → Silent w.trace t → Quiet w (record w { trace = t })
Quiet-trace w t h = record { silent = h; manager = refl; limiter = refl; store = refl }

pub Quiet-refl : {S : Type 0} {w : World S} → Quiet w w
Quiet-refl = record { silent = Silent-refl; manager = refl; limiter = refl; store = refl }

pub Quiet-After : {S : Type 0} {w w' : World S} → Quiet w w' → After w w'
Quiet-After q = record { later = q.silent.later; limiter = q.limiter }
