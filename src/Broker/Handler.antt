-- ===== src/Broker/Handler.antt =====
-- internal/broker/issue.go: `issueCertificate`, the steps in their order.
pub mod Admitted
pub mod Answers
pub mod Granted
use certplane.Base.{Bool, true, false, Option, none, some, List, [], ◌∷◌}
use certplane.Base.Text.{Text, codes}
use certplane.Store.Contract.{CertificateStore}
use certplane.Broker.{
  Request, Context, IssuedResult, Action, drew_id, responded, panicked, issued_reply, Server, World,
  act,
}
use certplane.Broker.Steps.{
  ◌▹◌, write_error, authenticate_issue_request, parse_issue_request, authorize_issue_request,
  attach_public_key_fingerprint, record_authorized_issue, check_issue_rate_limit,
}
use certplane.Broker.Issuing.{
  cache_key, issue_or_load_with_singleflight, record_issued_result, new_issue_response,
}

abbrev pub new_context : Text → Request → Context
new_context id r = record {
  request_id = id;
  request = r;
  identity = [];
  profile_name = [];
  policy = none;
  profile = none;
  csr = none;
  csr_pem = [];
  public_key_fp = [];
}

module _ {S : Type 0} (s : Server) where
  -- The steps before the certificate.
  unfoldable pub admit : Context → World S → Option Context × World S
  admit c w =
      authenticate_issue_request s c w
      ▹ parse_issue_request s
      ▹ authorize_issue_request s
      ▹ attach_public_key_fingerprint s
      ▹ record_authorized_issue s
      ▹ check_issue_rate_limit s

module _ (C : CertificateStore) (s : Server) where
  -- The steps behind them; a profile that is nil is dereferenced for the key.
  unfoldable pub obtain : Context → World C.State → Option IssuedResult × World C.State
  obtain c w = elim c.profile [
    | none ↦ (none, act panicked w)
    | some p ↦
        issue_or_load_with_singleflight C s
          (cache_key s c.identity c.profile_name p c.public_key_fp) p c w
        ▹ record_issued_result C s c
  ]

  write_issued : Option IssuedResult × World C.State → World C.State
  write_issued (none, w) = w
  write_issued (some issued, w) = act (responded 200 (issued_reply (new_issue_response s issued))) w

  issue_with_id : Option Text → Request → World C.State → World C.State
  unfolding write_issued
  issue_with_id none r w = write_error 500 (codes "internal error") w
  issue_with_id (some id) r w = write_issued (admit s (new_context id r) w ▹ obtain)

  unfoldable pub issue_certificate : Request → World C.State → World C.State
  unfolding issue_with_id
  issue_certificate r w = issue_with_id (s.new_id w.trace (codes "req_")) r (act drew_id w)
