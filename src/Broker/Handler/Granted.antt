-- ===== src/Broker/Handler/Granted.antt =====
-- What `issueCertificate` promises: one response, and certificates only for those who may have them.
use certplane.Base.{ℕ, Bool, true, false, ◌≡◌, sym, ap, ◌∙◌, ◌⊎◌, inl, inr, some, ◌∷◌, arith}
use certplane.Base.Text.{codes, text_eq}
use certplane.Audit.{Event, EventType}
use certplane.Store.Contract.{CertificateStore}
use certplane.Broker.{
  Request, Context, Reply, error_reply, issued_reply, Trace, Server, World, act, drew_id,
}
use certplane.Broker.Effects.{requests, responses, panics, After}
use certplane.Broker.Recording.Recorded.{Heading, Logged, not_closed, no_recorder, taken}
use certplane.Broker.Steps.Outcomes.{Answered, Refused}
use certplane.Broker.Issuing.{new_issue_response}
use certplane.Broker.Handler.{issue_certificate}
use certplane.Broker.Handler.Admitted.{Admitted}
use certplane.Broker.Handler.Answers.{
  Answer, refusal, failure, granted, Granted, issue_certificate-Answer,
}

-- Exactly one response, and no panic.
abbrev pub OneResponse : Trace → Trace → Type 0
OneResponse t t' =
    (status : ℕ) × ((reply : Reply) × ((responses t' ≡ (status, reply) ∷ responses t)
        × (panics t' ≡ panics t)))

Answered-OneResponse : {t t' : Trace} → Answered t t' → OneResponse t t'
Answered-OneResponse a = (a.status, (error_reply a.message, (a.once, a.sound)))

-- No error response is a response with the status 200.
Answered-not_200 :
    (t t' : Trace) (reply : Reply)
    → Answered t t'
    → responses t' ≡ (200, reply) ∷ responses t
    → {A : Type 0} → A
Answered-not_200 t t' reply a h = absurd (ground (arith, a.an_error, a.once))

Granted-of :
    (C : CertificateStore) (s : Server) (r : Request) (w0 : World C.State) (reply : Reply)
    (w' : World C.State)
    → Answer C s r w0 w'
    → responses w'.trace ≡ (200, reply) ∷ responses w0.trace
    → Granted C s r w0 w'
Granted-of C s r w0 reply w' (refusal w'' x) h = Answered-not_200 _ _ reply x.answered h
Granted-of C s r w0 reply w' (failure c w1 w'' a f x) h = Answered-not_200 _ _ reply x h
Granted-of C s r w0 reply w' (granted w'' g) h = g

-- A request that is answered with 200 is granted: its client certificate gives the identity, the
-- policy in force allows the profile for it and for the names of a signing request that is valid, the
-- limiter has counted it, which stays so, the certificate is one of the store, of the issuer, or of a
-- call in flight under the same key, and in the mode `fail_closed` the recorder, if there is one, has
-- taken an event of an authorised request right before the clock is read for the limiter, and one of
-- the certificate right before the response, both with the identity, the profile, the hashes of policy
-- and profile and the fingerprint of the key. The client certificate is judged by the clock at the
-- start of the steps, the limiter by the clock right behind the first of the two events.
pub issue_certificate-Granted :
    (C : CertificateStore) (s : Server) (r : Request) (w : World C.State) (reply : Reply)
    → responses (issue_certificate C s r w).trace ≡ (200, reply) ∷ responses w.trace
    → Granted C s r (act drew_id w) (issue_certificate C s r w)
unfolding responses
issue_certificate-Granted C s r w reply h =
    Granted-of C s r (act drew_id w) reply _ (issue_certificate-Answer C s r w) h

OneResponse-of :
    (C : CertificateStore) (s : Server) (r : Request) (w0 : World C.State) (w' : World C.State)
    → Answer C s r w0 w'
    → OneResponse w0.trace w'.trace
OneResponse-of C s r w0 w' (refusal w'' x) = Answered-OneResponse x.answered
OneResponse-of C s r w0 w' (failure c w1 w'' a f x) = Answered-OneResponse x
OneResponse-of C s r w0 w' (granted w'' g) =
    (200, (issued_reply (new_issue_response s g.issued), (g.once, g.sound)))

-- Every request gets exactly one response, on every branch, and never a panic.
pub issue_certificate-OneResponse :
    (C : CertificateStore) (s : Server) (r : Request) (w : World C.State)
    → OneResponse w.trace (issue_certificate C s r w).trace
unfolding responses panics
issue_certificate-OneResponse C s r w =
    OneResponse-of C s r (act drew_id w) _ (issue_certificate-Answer C s r w)

-- The issuer has not been asked, and the store is as it was.
abbrev pub Untouched : (C : CertificateStore) → World C.State → World C.State → Type 0
Untouched C w w' = (requests w'.trace ≡ requests w.trace) × (w'.store ≡ w.store)

-- On the way from the world `w` to the world `w'` the request has come through all the steps before
-- the certificate.
abbrev pub IsAdmitted :
    (C : CertificateStore) → Server → Request → World C.State → World C.State → Type 0
IsAdmitted C s r w w' = (c : Context) × ((w1 : World C.State) × (Admitted s r w c w1 × After w1 w'))

Untouched-of :
    (C : CertificateStore) (s : Server) (r : Request) (w0 : World C.State) (w' : World C.State)
    → Answer C s r w0 w'
    → Untouched C w0 w' ⊎ IsAdmitted C s r w0 w'
Untouched-of C s r w0 w' (refusal w'' x) = inl (x.asks, x.store)
Untouched-of C s r w0 w' (failure c w1 w'' a f x) = inr (c, (w1, (a, f)))
Untouched-of C s r w0 w' (granted w'' g) = inr (g.c, (g.w1, (g.admitted, g.after)))

-- The issuer is asked, and the store is changed, only for a request that is admitted on the way: from
-- the world in which its identifier is drawn, by the clock, with its event recorded where the mode
-- asks for it, and counted by the limiter, which is left as it was counted.
pub issue_certificate-Untouched :
    (C : CertificateStore) (s : Server) (r : Request) (w : World C.State)
    → Untouched C w (issue_certificate C s r w)
      ⊎ IsAdmitted C s r (act drew_id w) (issue_certificate C s r w)
unfolding requests
issue_certificate-Untouched C s r w =
    Untouched-of C s r (act drew_id w) _ (issue_certificate-Answer C s r w)

not_logged :
    (s : Server) (c : Context) (tr : Trace) (recorder : Trace → Event → Bool)
    → text_eq s.failure_mode (codes "fail_closed") ≡ true
    → s.records ≡ some recorder
    → ((t : Trace) (e : Event) → e.type ≡ EventType.certificate_authorized → recorder t e ≡ false)
    → Logged s c EventType.certificate_authorized tr
    → {A : Type 0} → A
not_logged s c tr recorder closed there fails (not_closed lax) = cc
not_logged s c tr recorder closed there fails (no_recorder r) = cc
not_logged s c tr recorder closed there fails (taken other t e r same accepted last) =
    let one : other ≡ recorder = cc in
    let accepts : recorder t e ≡ true =
      ap (λ (f : Trace → Event → Bool). f t e) (sym one) ∙ accepted in
    let refuses = fails t e (ap (λ (h : Heading). h.0) same) in cc

Refused-of :
    (C : CertificateStore) (s : Server) (r : Request) (w0 w' : World C.State)
    (recorder : Trace → Event → Bool)
    → text_eq s.failure_mode (codes "fail_closed") ≡ true
    → s.records ≡ some recorder
    → ((t : Trace) (e : Event) → e.type ≡ EventType.certificate_authorized → recorder t e ≡ false)
    → Answer C s r w0 w'
    → Refused w0 w'
Refused-of C s r w0 w' recorder closed there fails (refusal w'' x) = x
Refused-of C s r w0 w' recorder closed there fails (failure c w1 w'' a f x) =
    not_logged s c a.before recorder closed there fails a.logged
Refused-of C s r w0 w' recorder closed there fails (granted w'' g) =
    not_logged s g.c g.admitted.before recorder closed there fails g.admitted.logged

-- In the mode `fail_closed`, while the recorder takes no event of an authorised request, every
-- request is refused: with one error response, no question to the issuer and no change of the store.
pub issue_certificate-Refused :
    (C : CertificateStore) (s : Server) (r : Request) (w : World C.State)
    (recorder : Trace → Event → Bool)
    → text_eq s.failure_mode (codes "fail_closed") ≡ true
    → s.records ≡ some recorder
    → ((t : Trace) (e : Event) → e.type ≡ EventType.certificate_authorized → recorder t e ≡ false)
    → Refused (act drew_id w) (issue_certificate C s r w)
issue_certificate-Refused C s r w recorder closed there fails =
    Refused-of C s r (act drew_id w) _ recorder closed there fails
      (issue_certificate-Answer C s r w)
