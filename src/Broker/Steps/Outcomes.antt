-- ===== src/Broker/Steps/Outcomes.antt =====
-- How the steps before the certificate end: with what they have established, or with one error
-- response and nothing else.
pub mod Requests
pub mod Decisions
use certplane.Base.{
  ℕ, Bool, true, false, ◌≡◌, refl, sym, ap, ◌∙◌, Option, none, some, List, [], ◌∷◌, ◌==◌,
}
use certplane.Base.Text.{Text}
use certplane.Policy.Manager.{Manager}
use certplane.Audit.{Event, EventType, Severity, Decision, Reason}
use certplane.Broker.{
  Context, Failure, Action, responded, Trace, Reply, error_reply, Server, World, act,
}
use certplane.Broker.Effects.{Silent, Silent-trans, Quiet, Quiet-trans, requests, responses, panics}
use certplane.Broker.Recording.{audit_event, record_event}
use certplane.Broker.Recording.Recorded.{audit_event-Quiet, record_event-Quiet}
use certplane.Broker.Steps.{◌▹◌, write_error, answer_error, deny_bad_request}

-- One error response, which is not 200; the issuer is not asked, and nothing panics.
pub record Answered (t t' : Trace) : Type 0 where
  pub status : ℕ
  pub message : Text
  pub an_error : (status == 200) ≡ false
  pub once : responses t' ≡ (status, error_reply message) ∷ responses t
  pub sound : panics t' ≡ panics t

-- A refusal asks no issuer, and leaves the store and the policy alone.
pub record Refused {S : Type 0} (w w' : World S) : Type 0 where
  pub answered : Answered w.trace w'.trace
  pub asks : requests w'.trace ≡ requests w.trace
  pub store : w'.store ≡ w.store
  pub manager : w'.manager ≡ w.manager

pub data Outcome {S A : Type 0} (w : World S) (F : A → World S → Type 0)
    : Option A × World S → Type 0 where
  passed : (a : A) (w' : World S) → F a w' → Outcome w F (some a, w')
  refused : (w' : World S) → Refused w w' → Outcome w F (none, w')

pub Outcome-▹ :
    {S A B : Type 0} {w : World S} {F : A → World S → Type 0} {G : B → World S → Type 0}
    {m : Option A × World S} (k : A → World S → Option B × World S)
    → Outcome w F m
    → ((a : A) (w' : World S) → F a w' → Outcome w G (k a w'))
    → Outcome w G (m ▹ k)
unfolding ◌▹◌
Outcome-▹ k (passed a w' f) g = g a w' f
Outcome-▹ k (refused w' r) g = refused w' r

pub write_error-Answered :
    {S : Type 0} (t : Trace) (w : World S) (status : ℕ) (message : Text)
    → Silent t w.trace
    → (status == 200) ≡ false
    → Answered t (write_error status message w).trace
unfolding write_error responses panics
write_error-Answered t w status message q h = record {
  status = status;
  message = message;
  an_error = h;
  once = ap (λ rs. (status, error_reply message) ∷ rs) q.answers;
  sound = q.sound;
}

pub write_error-Refused :
    {S : Type 0} (w0 w : World S) (status : ℕ) (message : Text)
    → Silent w0.trace w.trace
    → w.store ≡ w0.store
    → w.manager ≡ w0.manager
    → (status == 200) ≡ false
    → Refused w0 (write_error status message w)
unfolding write_error requests
write_error-Refused w0 w status message q st m h = record {
  answered = unfold write_error in write_error-Answered w0.trace w status message q h;
  asks = q.asks;
  store = st;
  manager = m;
}

module _ {S A : Type 0} (s : Server) (w0 : World S) (F : A → World S → Type 0) where
  -- An error behind an event, recorded or not.
  pub answer_error-Outcome :
      (ew : Event × World S) (status : ℕ) (message : Text)
      → Silent w0.trace ew.1.trace
      → ew.1.store ≡ w0.store
      → ew.1.manager ≡ w0.manager
      → (status == 200) ≡ false
      → Outcome w0 F (answer_error s ew status message)
  unfolding answer_error
  answer_error-Outcome ew status message q st m h =
      let r = record_event-Quiet s ew in
      refused _ (
        write_error-Refused w0 _ status message (Silent-trans q r.silent) (r.store ∙ st)
          (r.manager ∙ m) h)

  -- The error of a step that has been quiet so far.
  pub event_error-Outcome :
      (c : Context) (t : EventType) (v : Severity) (d : Decision) (r : Reason) (f : Option Failure)
      (w : World S) (status : ℕ) (message : Text)
      → Quiet w0 w
      → (status == 200) ≡ false
      → Outcome w0 F (answer_error s (audit_event s c t v d r f w) status message)
  event_error-Outcome c t v d r f w status message q h =
      let q' = Quiet-trans q (audit_event-Quiet s c t v d r f w) in
      answer_error-Outcome (audit_event s c t v d r f w) status message q'.silent q'.store
        q'.manager h

module _ {S : Type 0} (s : Server) (w0 : World S) (F : Context → World S → Type 0) where
  pub deny_bad_request-Outcome :
      (c : Context) (r : Reason) (f : Failure) (message : Text) (w : World S)
      → Quiet w0 w
      → Outcome w0 F (deny_bad_request s c r f message w)
  unfolding deny_bad_request
  deny_bad_request-Outcome c r f message w q =
      event_error-Outcome s w0 F c _ _ _ r (some f) w 400 message q refl

pub Outcome-map :
    {S A : Type 0} {w : World S} {F G : A → World S → Type 0} {m : Option A × World S}
    → ((a : A) (w' : World S) → F a w' → G a w')
    → Outcome w F m
    → Outcome w G m
Outcome-map g (passed a w' f) = passed a w' (g a w' f)
Outcome-map g (refused w' r) = refused w' r
