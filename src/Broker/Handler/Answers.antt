-- ===== src/Broker/Handler/Answers.antt =====
-- `issueCertificate` as a whole: how a request can end.
use certplane.Base.{◌≡◌, refl, ap, ◌∙◌, Option, none, some, ◌∷◌}
use certplane.Base.Text.{Text, codes, text_eq}
use certplane.Policy.{CompiledProfile}
use certplane.Store.Contract.{CertificateStore}
use certplane.Broker.{
  Request, Context, IssuedResult, responded, issued_reply, error_reply, Trace, Server, World, act,
  drew_id,
}
use certplane.Broker.Effects.{responses, panics, Silent, Silent-refl, After, After-trans, After-act}
use certplane.Broker.Recording.{issued_type}
use certplane.Broker.Recording.Recorded.{Logged}
use certplane.Broker.Steps.{◌▹◌}
use certplane.Broker.Steps.Outcomes.{
  Answered, Refused, Outcome, passed, refused, write_error-Refused,
}
use certplane.Broker.Issuing.{cache_key, new_issue_response}
use certplane.Broker.Issuing.Origin.{Origin, Origin-responded}
use certplane.Broker.Issuing.Ending.{Obtained, got, lost, issued-Obtained}
use certplane.Broker.Handler.{obtain, write_issued, issue_with_id, issue_certificate}
use certplane.Broker.Handler.Admitted.{Admitted, admit-Outcome}

module _ (C : CertificateStore) (s : Server) (r : Request) (w0 : World C.State) where
  -- A certificate for the admitted request `c`, in the world `w1` that admitted it.
  pub record Granted (w' : World C.State) : Type 0 where
    pub c : Context
    pub w1 : World C.State
    pub admitted : Admitted s r w0 c w1
    pub profile : CompiledProfile
    pub same_profile : c.profile ≡ some profile
    pub issued : IssuedResult
    pub origin :
        Origin C s
          (cache_key s c.identity c.profile_name profile c.public_key_fp)
          profile
          c.csr_pem
          w1
          w'
          issued
    -- The event of the certificate is the last action before the response.
    pub before : Trace
    pub logged : Logged s c (issued_type (text_eq issued.cache (codes "hit"))) before
    pub last : w'.trace ≡ responded 200 (issued_reply (new_issue_response s issued)) ∷ before
    pub after : After w1 w'
    pub once :
        responses w'.trace ≡ (200, issued_reply (new_issue_response s issued)) ∷ responses w0.trace
    pub sound : panics w'.trace ≡ panics w0.trace

  -- Refused before the issuer or the store is used; failed behind that; or granted.
  pub data Answer : World C.State → Type 0 where
    refusal : (w' : World C.State) → Refused w0 w' → Answer w'
    failure :
        (c : Context) (w1 w' : World C.State)
        → Admitted s r w0 c w1
        → After w1 w'
        → Answered w0.trace w'.trace
        → Answer w'
    granted : (w' : World C.State) → Granted w' → Answer w'

module _ (C : CertificateStore) (s : Server) (r : Request) (w0 : World C.State) where
  Answered-Silent : {t0 t t' : Trace} → Silent t0 t → Answered t t' → Answered t0 t'
  Answered-Silent q a = record {
    status = a.status;
    message = a.message;
    an_error = a.an_error;
    once = a.once ∙ ap (λ rs. (a.status, error_reply a.message) ∷ rs) q.answers;
    sound = a.sound ∙ q.sound;
  }

  write_issued-Answer :
      (c : Context) (w1 : World C.State) (p : CompiledProfile)
      → Admitted s r w0 c w1
      → c.profile ≡ some p
      → (o : Option IssuedResult × World C.State)
      → Obtained C s (cache_key s c.identity c.profile_name p c.public_key_fp) p c.csr_pem w1 c o
      → Answer C s r w0 (write_issued C s o)
  unfolding write_issued
  write_issued-Answer c w1 p a same o (got i w' q from l) = granted _ (record {
    c = c;
    w1 = w1;
    admitted = a;
    profile = p;
    same_profile = same;
    issued = i;
    origin =
        Origin-responded C s _ p c.csr_pem w1 {n = 200} {b = issued_reply (new_issue_response s i)}
          from;
    before = w'.trace;
    logged = l;
    last = refl;
    after = After-trans q.after (After-act (responded 200 _) w');
    once =
        unfold responses in
        ap (λ rs. (200, issued_reply (new_issue_response s i)) ∷ rs)
          (q.answers ∙ a.through.silent.answers);
    sound = unfold panics in (q.sound ∙ a.through.silent.sound);
  })
  write_issued-Answer c w1 p a same o (lost w' after x) =
      failure c w1 w' a after (Answered-Silent a.through.silent x)

  obtain-Answer :
      (c : Context) (w1 : World C.State)
      → Admitted s r w0 c w1
      → Answer C s r w0 (write_issued C s (obtain C s c w1))
  unfolding obtain
  obtain-Answer c w1 a =
      rw (a.allowed.same_profile, obtain)
        (write_issued-Answer c w1 a.allowed.profile a a.allowed.same_profile _
          (issued-Obtained C s _ a.allowed.profile c.csr_pem w1 c refl))

  Admitted-Answer :
      (o : Option Context × World C.State)
      → Outcome w0 (Admitted s r w0) o
      → Answer C s r w0 (write_issued C s (o ▹ obtain C s))
  unfolding ◌▹◌ write_issued
  Admitted-Answer o (passed c w1 a) = unfold write_issued in obtain-Answer c w1 a
  Admitted-Answer o (refused w' x) = refusal w' x

  issue_with_id-Answer : (o : Option Text) → Answer C s r w0 (issue_with_id C s o r w0)
  unfolding issue_with_id
  issue_with_id-Answer none = refusal _ (write_error-Refused w0 w0 500 _ Silent-refl refl refl refl)
  issue_with_id-Answer (some id) = Admitted-Answer _ (admit-Outcome s r w0 id)

-- Every request ends in one of the three ways, from the world in which its identifier is drawn.
pub issue_certificate-Answer :
    (C : CertificateStore) (s : Server) (r : Request) (w : World C.State)
    → Answer C s r (act drew_id w) (issue_certificate C s r w)
unfolding issue_certificate
issue_certificate-Answer C s r w = issue_with_id-Answer C s r (act drew_id w) _
