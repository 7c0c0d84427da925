-- ===== src/Broker/Handler/Admitted.antt =====
-- A request that comes through the steps before the certificate has earned it.
use certplane.Base.{refl, ◌≡◌, ◌∷◌, Option}
use certplane.Base.Text.{Text}
use certplane.Policy.{CompiledPolicy, CompiledProfile}
use certplane.Policy.Manager.{Manager}
use certplane.Audit.{EventType}
use certplane.Clock.{Time}
use certplane.Broker.{Request, Context, Trace, clock_read, Server, World}
use certplane.Broker.Recording.Recorded.{Logged}
use certplane.Broker.Steps.{
  parse_issue_request, authorize_issue_request, attach_public_key_fingerprint,
  record_authorized_issue, check_issue_rate_limit,
}
use certplane.Broker.Steps.Outcomes.{Outcome, Outcome-▹, Outcome-map}
use certplane.Broker.Steps.Outcomes.Requests.{
  Identified, Parsed, authenticate-Outcome, parse-Outcome,
}
use certplane.Broker.Steps.Outcomes.Decisions.{
  Allowed, Fingerprinted, Limited, Through, authorize-Outcome, fingerprint-Outcome,
  record_authorized-Outcome, limit-Outcome,
}
use certplane.Broker.Handler.{new_context, admit}

pub record Admitted {S : Type 0} (s : Server) (r : Request) (w0 : World S) (c : Context)
    (w : World S) : Type 0 where
  pub through : Through w0 w
  pub identified : Identified (s.now w0.trace) r c
  pub parsed : Parsed s r c
  pub allowed : Allowed w0.manager c
  pub fingerprinted : Fingerprinted s c
  -- The trace before the clock is read for the limiter.
  pub before : Trace
  pub logged : Logged s c EventType.certificate_authorized before
  pub read : w.trace ≡ clock_read ∷ before
  pub limited : Limited (s.now before) w0.rate_limiter w.rate_limiter c

Identified-keep :
    {now : Time} {r : Request} {c : Context} (policy : Option CompiledPolicy)
    (profile : Option CompiledProfile) (fp : Text)
    → Identified now r c
    → Identified now r (record c { policy = policy; profile = profile; public_key_fp = fp })
Identified-keep policy profile fp i = record { request = i.request; valid = i.valid }

Parsed-keep :
    {s : Server} {r : Request} {c : Context} (policy : Option CompiledPolicy)
    (profile : Option CompiledProfile) (fp : Text)
    → Parsed s r c
    → Parsed s r (record c { policy = policy; profile = profile; public_key_fp = fp })
Parsed-keep policy profile fp p = record {
  body = p.body;
  csr = p.csr;
  readable = p.readable;
  short = p.short;
  decoded = p.decoded;
  has_profile = p.has_profile;
  profile_name = p.profile_name;
  csr_pem = p.csr_pem;
  valid = p.valid;
  same_csr = p.same_csr;
}

Allowed-keep :
    {m : Manager} {c : Context} (fp : Text)
    → Allowed m c
    → Allowed m (record c { public_key_fp = fp })
Allowed-keep fp a = record {
  policy = a.policy;
  csr = a.csr;
  profile = a.profile;
  current = a.current;
  same_csr = a.same_csr;
  same_profile = a.same_profile;
  allowed = a.allowed;
}

module _ {S : Type 0} (s : Server) (r : Request) (w0 : World S) where
  abbrev Read : Context → Type 0
  Read c = Identified (s.now w0.trace) r c × Parsed s r c

  abbrev Permitted : Context → Type 0
  Permitted c = Read c × Allowed w0.manager c

  abbrev Known : Context → Type 0
  Known c = Permitted c × Fingerprinted s c

  pub admit-Outcome : (id : Text) → Outcome w0 (Admitted s r w0) (admit s (new_context id r) w0)
  unfolding admit
  admit-Outcome id =
      let o1 = authenticate-Outcome s r w0 (new_context id r) refl in
      let o2 = Outcome-▹ (parse_issue_request s) o1 (parse-Outcome s r w0) in
      let o3 = Outcome-▹ (authorize_issue_request s) o2 (λ c w k.
        authorize-Outcome s w0 Read c w k.1.1.csr k.0
          (λ policy profile. (
            Identified-keep policy profile c.public_key_fp k.1.0,
            Parsed-keep policy profile c.public_key_fp k.1.1,
          ))
          k.1.1.same_csr) in
      let o4 = Outcome-▹ (attach_public_key_fingerprint s) o3 (λ c w k.
        fingerprint-Outcome s w0 Permitted c w k.1.1.csr k.0
          (λ fp. (
            (
              Identified-keep c.policy c.profile fp k.1.0.0,
              Parsed-keep c.policy c.profile fp k.1.0.1,
            ),
            Allowed-keep fp k.1.1,
          ))
          k.1.1.same_csr) in
      let o5 =
        Outcome-▹ (record_authorized_issue s) o4
          (λ c w k. record_authorized-Outcome s w0 Known c w k.0 k.1) in
      let o6 = Outcome-▹ (check_issue_rate_limit s) o5 (λ c w k. limit-Outcome s w0 Known c w k) in
      Outcome-map
        (λ c w k. record {
          through = k.0;
          identified = k.1.0.0.0.0;
          parsed = k.1.0.0.0.1;
          allowed = k.1.0.0.1;
          fingerprinted = k.1.0.1;
          before = k.1.1.before;
          logged = k.1.1.logged;
          read = k.1.1.read;
          limited = k.1.1.limited;
        })
        o6
