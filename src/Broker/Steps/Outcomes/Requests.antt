-- ===== src/Broker/Steps/Outcomes/Requests.antt =====
-- The steps that read the request: `authenticateIssueRequest` and `parseIssueRequest`.
use certplane.Base.{
  false, ◌||◌, ◌≡◌, refl, sym, ap, ◌∙◌, inl, inr, Option, none, some, Result, ok, err, arith, ltb,
  length, Bool-cases,
}
use certplane.Base.Text.{Text, is_empty}
use certplane.Clock.{Time}
use certplane.Pki.{CertificateRequest}
use certplane.Pki.Csr.{CsrError, parse_csr_pem}
use certplane.Authn.{AuthError, identity_from_request}
use certplane.Broker.{Request, IssueBody, Context, Server, World}
use certplane.Broker.Effects.{Quiet, Quiet-trans}
use certplane.Broker.Recording.Recorded.{
  audit_event-Quiet, record_event-Quiet, Quiet-act_clock_read,
}
use certplane.Broker.Steps.{
  max_issue_request_body_bytes, authenticated, authenticate_issue_request, parsed_csr, parsed_body,
  parse_issue_request,
}
use certplane.Broker.Steps.Outcomes.{Outcome, passed, event_error-Outcome, deny_bad_request-Outcome}

-- The identity is that of the client certificate, which is valid at the time `now`.
pub record Identified (now : Time) (r : Request) (c : Context) : Type 0 where
  pub request : c.request ≡ r
  pub valid : identity_from_request now r.peers ≡ ok c.identity

-- The profile and the signing request are those of a body that is short enough.
pub record Parsed (s : Server) (r : Request) (c : Context) : Type 0 where
  pub body : IssueBody
  pub csr : CertificateRequest
  pub readable : r.body_fails ≡ false
  pub short : ltb max_issue_request_body_bytes (length r.body) ≡ false
  pub decoded : s.unmarshal r.body ≡ some body
  pub has_profile : is_empty body.profile ≡ false
  pub profile_name : c.profile_name ≡ body.profile
  pub csr_pem : c.csr_pem ≡ body.csr_pem
  pub valid : parse_csr_pem s.crypto body.csr_pem ≡ ok csr
  pub same_csr : c.csr ≡ some csr

module _ {S : Type 0} (s : Server) (r : Request) (w0 : World S) where
  abbrev pub AfterAuthentication : Context → World S → Type 0
  AfterAuthentication c w = Quiet w0 w × Identified (s.now w0.trace) r c

  authenticated-Outcome :
      (c : Context) (w : World S) (i : Result AuthError Text)
      → Quiet w0 w
      → c.request ≡ r
      → identity_from_request (s.now w0.trace) r.peers ≡ i
      → Outcome w0 AfterAuthentication (authenticated s c i w)
  unfolding authenticated
  authenticated-Outcome c w (err e) q same h =
      event_error-Outcome s w0 AfterAuthentication c _ _ _ _ _ w 401 _ q refl
  authenticated-Outcome c w (ok identity) q same h = passed _ _ (
    Quiet-trans q (Quiet-trans (audit_event-Quiet s _ _ _ _ _ none w) (record_event-Quiet s _)),
    record { request = same; valid = h },
  )

  pub authenticate-Outcome :
      (c : Context)
      → c.request ≡ r
      → Outcome w0 AfterAuthentication (authenticate_issue_request s c w0)
  unfolding authenticate_issue_request
  authenticate-Outcome c same =
      authenticated-Outcome c _ _ (Quiet-act_clock_read w0) same (rw same refl)

  abbrev pub AfterParsing : Context → World S → Type 0
  AfterParsing c w = Quiet w0 w × (Identified (s.now w0.trace) r c × Parsed s r c)

  parsed_csr-Outcome :
      (c : Context) (w : World S) (body : IssueBody) (o : Result CsrError CertificateRequest)
      → Quiet w0 w
      → Identified (s.now w0.trace) r c
      → r.body_fails ≡ false
      → ltb max_issue_request_body_bytes (length r.body) ≡ false
      → s.unmarshal r.body ≡ some body
      → is_empty body.profile ≡ false
      → c.profile_name ≡ body.profile
      → c.csr_pem ≡ body.csr_pem
      → parse_csr_pem s.crypto body.csr_pem ≡ o
      → Outcome w0 AfterParsing (parsed_csr s c o w)
  unfolding parsed_csr
  parsed_csr-Outcome c w body (err e) q i f l d n p m h =
      deny_bad_request-Outcome s w0 AfterParsing c _ _ _ w q
  parsed_csr-Outcome c w body (ok csr) q i f l d n p m h = passed _ w (
    q,
    (
      record { request = i.request; valid = i.valid },
      record {
        body = body;
        csr = csr;
        readable = f;
        short = l;
        decoded = d;
        has_profile = n;
        profile_name = p;
        csr_pem = m;
        valid = h;
        same_csr = refl;
      },
    ),
  )

  parsed_body-Outcome :
      (c : Context) (w : World S) (o : Option IssueBody)
      → Quiet w0 w
      → Identified (s.now w0.trace) r c
      → r.body_fails ≡ false
      → ltb max_issue_request_body_bytes (length r.body) ≡ false
      → s.unmarshal r.body ≡ o
      → Outcome w0 AfterParsing (parsed_body s c o w)
  unfolding parsed_body
  parsed_body-Outcome c w none q i f l d = deny_bad_request-Outcome s w0 AfterParsing c _ _ _ w q
  parsed_body-Outcome c w (some body) q i f l d =
      elim (Bool-cases (is_empty body.profile || is_empty body.csr_pem)) [
        | inl e ↦ rw e (deny_bad_request-Outcome s w0 AfterParsing _ _ _ _ w q)
        | inr e ↦ rw e (
            parsed_csr-Outcome _ w body _ q (record { request = i.request; valid = i.valid }) f l d
              (ground arith) refl refl refl)
      ]

  pub parse-Outcome :
      (c : Context) (w : World S)
      → AfterAuthentication c w
      → Outcome w0 AfterParsing (parse_issue_request s c w)
  unfolding parse_issue_request
  parse-Outcome c w (q, i) =
      elim (Bool-cases
        (c.request.body_fails || ltb max_issue_request_body_bytes (length c.request.body))) [
          | inl e ↦ rw e (deny_bad_request-Outcome s w0 AfterParsing c _ _ _ w q)
          | inr e ↦
              let readable : c.request.body_fails ≡ false = ground arith in
              let short : ltb max_issue_request_body_bytes (length c.request.body) ≡ false =
                ground arith in
              rw e (
                parsed_body-Outcome c w _ q i
                  (ap (λ (x : Request). x.body_fails) (sym i.request) ∙ readable)
                  (ap (λ (x : Request). ltb max_issue_request_body_bytes (length x.body))
                      (sym i.request)
                    ∙ short)
                  (ap (λ (x : Request). s.unmarshal x.body) (sym i.request)))
        ]
