-- ===== src/Broker/Steps/Outcomes/Decisions.antt =====
-- The steps that decide: `authorizeIssueRequest`, `attachPublicKeyFingerprint`,
-- `recordAuthorizedIssue` and `checkIssueRateLimit`.
use certplane.Base.{
  ◌∷◌, Bool, true, false, ◌≡◌, refl, sym, ap, ◌∙◌, inl, inr, Option, none, some, Result, ok, err,
  Option-cases,
}
use certplane.Base.Text.{Text}
use certplane.Clock.{Time}
use certplane.Pki.{CertificateRequest}
use certplane.Pki.Csr.{CsrError, public_key_fingerprint}
use certplane.Policy.{CompiledPolicy, CompiledProfile}
use certplane.Policy.Authorize.{Decided, authorize}
use certplane.Policy.Authorize.Decision.{IsAllowed, authorize-allows}
use certplane.Policy.Manager.{Manager}
use certplane.Ratelimit.{Limiter, LimitError, allow}
use certplane.Audit.{EventType}
use certplane.Broker.{Context, Trace, clock_read, Server, World}
use certplane.Broker.Effects.{Silent, Silent-trans, Quiet, Quiet-trans}
use certplane.Broker.Recording.Recorded.{
  audit_event-Quiet, audit_event-heading, audit_barrier-Quiet, audit_barrier-Logged, Logged,
  Quiet-act_clock_read,
}
use certplane.Broker.Steps.{
  decided, under_policy, authorize_issue_request, fingerprinted, attach_public_key_fingerprint,
  behind_barrier, record_authorized_issue, within_limit, check_issue_rate_limit,
}
use certplane.Broker.Steps.Outcomes.{
  Outcome, passed, refused, answer_error-Outcome, event_error-Outcome, deny_bad_request-Outcome,
  write_error-Refused,
}

-- The policy in force allows the profile for the identity and the names of the request.
pub record Allowed (m : Manager) (c : Context) : Type 0 where
  pub policy : CompiledPolicy
  pub csr : CertificateRequest
  pub profile : CompiledProfile
  pub current : m.current ≡ some policy
  pub same_csr : c.csr ≡ some csr
  pub same_profile : c.profile ≡ some profile
  pub allowed : IsAllowed policy c.identity c.profile_name csr profile

-- The fingerprint is that of the key of the request.
pub record Fingerprinted (s : Server) (c : Context) : Type 0 where
  pub csr : CertificateRequest
  pub same_csr : c.csr ≡ some csr
  pub fingerprint : public_key_fingerprint s.crypto csr.public_key ≡ ok c.public_key_fp

-- The limiter has granted the call at the time `now` and counted it.
pub record Limited (now : Time) (before after : Limiter) (c : Context) : Type 0 where
  pub granted : (allow before now c.identity c.profile_name).1 ≡ none
  pub counted : after ≡ (allow before now c.identity c.profile_name).0

-- All but the limiter is left alone.
pub record Through {S : Type 0} (w w' : World S) : Type 0 where
  pub silent : Silent w.trace w'.trace
  pub manager : w'.manager ≡ w.manager
  pub store : w'.store ≡ w.store

-- What the earlier steps have established is stable under the fields that a step sets.
module _ {S : Type 0} (s : Server) (w0 : World S) (Known : Context → Type 0) where
  abbrev pub AfterAuthorization : Context → World S → Type 0
  AfterAuthorization c w = Quiet w0 w × (Known c × Allowed w0.manager c)

  decided-Outcome :
      (c : Context) (w : World S) (csr : CertificateRequest) (policy : CompiledPolicy) (d : Decided)
      → Quiet w0 w
      → ((profile : Option CompiledProfile) → Known (record c { profile = profile }))
      → c.csr ≡ some csr
      → w0.manager.current ≡ some policy
      → authorize policy c.identity c.profile_name c.csr ≡ d
      → Outcome w0 AfterAuthorization (decided s c d.profile d.error w)
  unfolding decided
  decided-Outcome c w csr policy d q k same current h = elim (Option-cases d.error) [
    | inl e ↦
        let h' : authorize policy c.identity c.profile_name (some csr) ≡ d =
          ap (authorize policy c.identity c.profile_name) (sym same) ∙ h in
        let (pr, a, allowed) =
          authorize-allows policy c.identity c.profile_name csr
            (ap (λ (x : Decided). x.error) h' ∙ e) in
        rw (e, decided)
          (passed _ w (
            q,
            (
              k d.profile,
              record {
                policy = policy;
                csr = csr;
                profile = pr;
                current = current;
                same_csr = same;
                same_profile = ap (λ (x : Decided). x.profile) (sym h' ∙ a);
                allowed = allowed;
              },
            ),
          ))
    | inr (x, e) ↦
        rw (e, decided) (event_error-Outcome s w0 AfterAuthorization _ _ _ _ _ _ w 403 _ q refl)
  ]

  under_policy-Outcome :
      (c : Context) (w : World S) (csr : CertificateRequest) (o : Option CompiledPolicy)
      → Quiet w0 w
      → ((policy : Option CompiledPolicy) (profile : Option CompiledProfile)
          → Known (record c { policy = policy; profile = profile }))
      → c.csr ≡ some csr
      → w0.manager.current ≡ o
      → Outcome w0 AfterAuthorization (under_policy s c o w)
  unfolding under_policy
  under_policy-Outcome c w csr none q k same h =
      event_error-Outcome s w0 AfterAuthorization c _ _ _ _ _ w 503 _ q refl
  under_policy-Outcome c w csr (some policy) q k same h =
      decided-Outcome (record c { policy = some policy }) w csr policy _ q (k (some policy)) same h
        refl

  pub authorize-Outcome :
      (c : Context) (w : World S) (csr : CertificateRequest)
      → Quiet w0 w
      → ((policy : Option CompiledPolicy) (profile : Option CompiledProfile)
          → Known (record c { policy = policy; profile = profile }))
      → c.csr ≡ some csr
      → Outcome w0 AfterAuthorization (authorize_issue_request s c w)
  unfolding authorize_issue_request
  authorize-Outcome c w csr q k same =
      under_policy-Outcome c w csr _ q k same (ap (λ (m : Manager). m.current) (sym q.manager))

  abbrev pub AfterFingerprint : Context → World S → Type 0
  AfterFingerprint c w = Quiet w0 w × (Known c × Fingerprinted s c)

  fingerprinted-Outcome :
      (c : Context) (w : World S) (csr : CertificateRequest) (o : Result CsrError Text)
      → Quiet w0 w
      → ((fp : Text) → Known (record c { public_key_fp = fp }))
      → c.csr ≡ some csr
      → public_key_fingerprint s.crypto csr.public_key ≡ o
      → Outcome w0 AfterFingerprint (fingerprinted s c o w)
  unfolding fingerprinted
  fingerprinted-Outcome c w csr (err e) q k same h =
      deny_bad_request-Outcome s w0 AfterFingerprint c _ _ _ w q
  fingerprinted-Outcome c w csr (ok fp) q k same h =
      passed _ w (q, (k fp, record { csr = csr; same_csr = same; fingerprint = h }))

  pub fingerprint-Outcome :
      (c : Context) (w : World S) (csr : CertificateRequest)
      → Quiet w0 w
      → ((fp : Text) → Known (record c { public_key_fp = fp }))
      → c.csr ≡ some csr
      → Outcome w0 AfterFingerprint (attach_public_key_fingerprint s c w)
  unfolding attach_public_key_fingerprint
  fingerprint-Outcome c w csr q k same =
      rw (same, attach_public_key_fingerprint) (fingerprinted-Outcome c w csr _ q k same refl)

  abbrev pub AfterBarrier : Context → World S → Type 0
  AfterBarrier c w = Quiet w0 w × (Known c × Logged s c EventType.certificate_authorized w.trace)

  barrier-Outcome :
      (c : Context) (bw : Bool × World S)
      → Quiet w0 bw.1
      → Known c
      → (bw.0 ≡ true → Logged s c EventType.certificate_authorized bw.1.trace)
      → Outcome w0 AfterBarrier (behind_barrier s c bw)
  unfolding behind_barrier
  barrier-Outcome c (true, w) q k h = passed c w (q, (k, h refl))
  barrier-Outcome c (false, w) q k h =
      refused _ (write_error-Refused w0 w 503 _ q.silent q.store q.manager refl)

  pub record_authorized-Outcome :
      (c : Context) (w : World S)
      → Quiet w0 w
      → Known c
      → Outcome w0 AfterBarrier (record_authorized_issue s c w)
  unfolding record_authorized_issue
  record_authorized-Outcome c w q k =
      barrier-Outcome c _
        (Quiet-trans q
          (Quiet-trans (audit_event-Quiet s c _ _ _ _ none w) (audit_barrier-Quiet s _)))
        k
        (audit_barrier-Logged s c _ EventType.certificate_authorized
          (audit_event-heading s c _ _ _ _ none w))

  -- The clock is read for the limiter right behind the trace `before`, which the event ends.
  pub record Counted (c : Context) (w : World S) : Type 0 where
    pub before : Trace
    pub logged : Logged s c EventType.certificate_authorized before
    pub read : w.trace ≡ clock_read ∷ before
    pub limited : Limited (s.now before) w0.rate_limiter w.rate_limiter c

  abbrev pub AfterLimit : Context → World S → Type 0
  AfterLimit c w = Through w0 w × (Known c × Counted c w)

  within_limit-Outcome :
      (c : Context) (w : World S) (before : Trace) (a : Limiter × Option LimitError)
      → Quiet w0 w
      → Known c
      → Logged s c EventType.certificate_authorized before
      → w.trace ≡ clock_read ∷ before
      → allow w0.rate_limiter (s.now before) c.identity c.profile_name ≡ a
      → Outcome w0 AfterLimit (within_limit s c a w)
  unfolding within_limit
  within_limit-Outcome c w before (l, none) q k g r h = passed c _ (
    record { silent = q.silent; manager = q.manager; store = q.store },
    (
      k,
      record {
        before = before;
        logged = g;
        read = r;
        limited = record {
          granted = ap (λ (x : Limiter × Option LimitError). x.1) h;
          counted = ap (λ (x : Limiter × Option LimitError). x.0) (sym h);
        };
      },
    ),
  )
  within_limit-Outcome c w before (l, some e) q k g r h =
      let w' : World S = record w { rate_limiter = l } in
      let a = audit_event-Quiet s c _ _ _ _ _ w' in
      answer_error-Outcome s w0 AfterLimit _ 429 _ (Silent-trans q.silent a.silent)
        (a.store ∙ q.store) (a.manager ∙ q.manager) refl

  pub limit-Outcome :
      (c : Context) (w : World S)
      → AfterBarrier c w
      → Outcome w0 AfterLimit (check_issue_rate_limit s c w)
  unfolding check_issue_rate_limit
  limit-Outcome c w (q, (k, g)) =
      within_limit-Outcome c _ w.trace _ (Quiet-trans q (Quiet-act_clock_read w)) k g refl
        (ap (λ l. allow l (s.now w.trace) c.identity c.profile_name) (sym q.limiter))
