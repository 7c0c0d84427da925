-- ===== src/Broker/Issuing/Ending.antt =====
-- How the handler ends behind `issueOrLoadWithSingleflight`: with a certificate whose origin is known, or
-- with an error.
use mathlib.Core.Path.{subst}
use certplane.Base.{ℕ, Bool, true, false, ◌≡◌, refl, sym, Option, none, some, Result, ok, err, ◌==◌}
use certplane.Base.Text.{Text, codes, text_eq}
use certplane.Policy.{CompiledProfile}
use certplane.Audit.{EventType, Severity, Decision, Reason}
use certplane.Store.{CertificateCacheKey}
use certplane.Store.Contract.{CertificateStore}
use certplane.Broker.{
  Context, IssuedResult, Failure, FlightResult, an_issued_result, another_type, Server, World,
  responded,
}
use certplane.Broker.Effects.{Quiet-trans, After, After-trans, After-act}
use certplane.Broker.Recording.{audit_event, record_event, issued_event, issued_type}
use certplane.Broker.Recording.Recorded.{
  audit_event-Quiet, record_event-Quiet, issued_event-Quiet, audit_barrier-Quiet,
  audit_barrier-Logged, issued_event-heading, Logged,
}
use certplane.Broker.Steps.{write_error, answer_error, behind_barrier, ◌▹◌}
use certplane.Broker.Steps.Outcomes.{Answered}
use certplane.Broker.Issuing.{
  do_flight, flight_answer, issue_or_load_with_singleflight, record_issued_result,
}
use certplane.Broker.Issuing.Origin.{
  Hushed, Hushed-Quiet, error-Answered, Origin, Origin-Quiet, Flown, do_flight-Flown,
}

module _ (C : CertificateStore) (s : Server) (key : CertificateCacheKey) (p : CompiledProfile)
    (csr_pem : Text) (w : World C.State) where
  -- How the rest of the handler ends: with a certificate and its event behind the barrier, or with
  -- one error response.
  pub data Obtained (c : Context) : Option IssuedResult × World C.State → Type 0 where
    got :
        (i : IssuedResult) (w' : World C.State)
        → Hushed w w'
        → Origin C s key p csr_pem w w' i
        → Logged s c (issued_type (text_eq i.cache (codes "hit"))) w'.trace
        → Obtained c (some i, w')
    lost : (w' : World C.State) → After w w' → Answered w.trace w'.trace → Obtained c (none, w')

  After-error :
      (status : ℕ) (message : Text) (w' : World C.State)
      → After w w'
      → After w (write_error status message w')
  unfolding write_error
  After-error status message w' a = After-trans a (After-act (responded status _) w')

  error-Obtained :
      (c : Context) (t : EventType) (v : Severity) (d : Decision) (r : Reason) (f : Option Failure)
      (w' : World C.State) (status : ℕ) (message : Text)
      → Hushed w w'
      → (status == 200) ≡ false
      → Obtained c (answer_error s (audit_event s c t v d r f w') status message)
  unfolding answer_error
  error-Obtained c t v d r f w' status message q h =
      let ew = audit_event s c t v d r f w' in
      let hushed =
        Hushed-Quiet q
          (Quiet-trans (audit_event-Quiet s c t v d r f w') (record_event-Quiet s ew)) in
      lost _ (After-error status message _ hushed.after)
        (error-Answered w (record_event s ew).1 status message hushed h)

  barrier-Obtained :
      (c : Context) (i : IssuedResult) (bw : Bool × World C.State)
      → Hushed w bw.1
      → Origin C s key p csr_pem w bw.1 i
      → (bw.0 ≡ true → Logged s c (issued_type (text_eq i.cache (codes "hit"))) bw.1.trace)
      → Obtained c (behind_barrier s i bw)
  unfolding behind_barrier
  barrier-Obtained c i (true, w') q o l = got i w' q o (l refl)
  barrier-Obtained c i (false, w') q o l =
      lost _ (After-error 503 _ w' q.after) (error-Answered w w' 503 _ q refl)

  record_issued-Obtained :
      (c : Context) (i : IssuedResult) (w' : World C.State)
      → Hushed w w'
      → Origin C s key p csr_pem w w' i
      → Obtained c (record_issued_result C s c i w')
  unfolding record_issued_result
  record_issued-Obtained c i w' q o =
      let quiet =
        Quiet-trans (issued_event-Quiet s c i w') (audit_barrier-Quiet s (issued_event s c i w')) in
      barrier-Obtained c i _ (Hushed-Quiet q quiet) (Origin-Quiet C s key p csr_pem w quiet o)
        (audit_barrier-Logged s c (issued_event s c i w') _ (issued_event-heading s c i w'))

  error-then :
      (c : Context) (t : EventType) (v : Severity) (d : Decision) (r : Reason) (f : Option Failure)
      (w' : World C.State) (status : ℕ) (message : Text)
      → Hushed w w'
      → (status == 200) ≡ false
      → Obtained c (
          answer_error s (audit_event s c t v d r f w') status message ▹ record_issued_result C s c)
  unfolding ◌▹◌ answer_error
  error-then c t v d r f w' status message q h =
      unfold answer_error in error-Obtained c t v d r f w' status message q h

  flight_answer-Obtained :
      (c : Context) (r : Result Failure FlightResult × World C.State)
      → Flown C s key p csr_pem w r
      → Obtained c (flight_answer C s c r ▹ record_issued_result C s c)
  unfolding flight_answer
  flight_answer-Obtained c (err e, w') f = error-then c _ _ _ _ _ w' 502 _ f.hushed refl
  flight_answer-Obtained c (ok another_type, w') f = error-then c _ _ _ _ _ w' 500 _ f.hushed refl
  flight_answer-Obtained c (ok (an_issued_result i), w') f =
      unfold ◌▹◌ in record_issued-Obtained c i w' f.hushed (f.origin i refl)

  pub issued-Obtained :
      (c : Context)
      → c.csr_pem ≡ csr_pem
      → Obtained c (issue_or_load_with_singleflight C s key p c w ▹ record_issued_result C s c)
  unfolding issue_or_load_with_singleflight
  issued-Obtained c same = flight_answer-Obtained c _ (
      subst (λ x. Flown C s key p csr_pem w (do_flight C s key p x w)) (sym same)
        (do_flight-Flown C s key p csr_pem w))
