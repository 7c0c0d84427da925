-- ===== src/Broker/Issuing.antt =====
-- internal/broker/issue.go: a certificate from the cache or from the issuer, and the responses of
-- issue_types.go.
pub mod Origin
pub mod Ending
pub mod Cached
use certplane.Base.{
  ℕ, Bool, true, false, Option, none, some, List, [], ◌∷◌, Result, ok, err, if◌then◌else◌,
}
use certplane.Base.Text.{Text, codes}
use certplane.Clock.{Time}
use certplane.Pki.{Bundle}
use certplane.Policy.{CompiledProfile}
use certplane.Audit.{EventType, Severity, Decision, Reason}
use certplane.Store.{
  CertificateCacheKey, key_string, StoreError, cache_miss, nil_bundle, reading, parsing, marshaling,
  writing, decoding,
}
use certplane.Store.Contract.{CertificateStore}
use certplane.Broker.{
  Context, IssuedResult, IssueRequest, IssueResponse, Failure, store_failed, issuer_failed,
  unexpected_type, Action, clock_read, asked, panicked, FlightResult, an_issued_result,
  another_type, Server, World, act,
}
use certplane.Broker.Recording.{audit_event, issued_event, audit_barrier}
use certplane.Broker.Steps.{answer_error, behind_barrier}

-- `errors.Is(err, store.ErrCacheMiss)`
abbrev pub is_cache_miss : StoreError → Bool
is_cache_miss cache_miss = true
is_cache_miss nil_bundle = false
is_cache_miss reading = false
is_cache_miss parsing = false
is_cache_miss marshaling = false
is_cache_miss writing = false
is_cache_miss decoding = false

-- `newIssueResponse`
unfoldable pub new_issue_response : Server → IssuedResult → IssueResponse
new_issue_response s r = record {
  cert_pem = r.bundle.cert_pem;
  chain_pem = r.bundle.chain_pem;
  full_chain_pem = r.bundle.full_chain_pem;
  serial_number = r.bundle.leaf_serial_number;
  not_before = s.rfc3339 r.bundle.not_before;
  not_after = s.rfc3339 r.bundle.not_after;
  cache = r.cache;
}

-- `cacheKey`
unfoldable pub cache_key : Server → Text → Text → CompiledProfile → Text → CertificateCacheKey
cache_key s identity profile_name profile public_key_fp = record {
  identity = identity;
  profile_name = profile_name;
  profile_hash = profile.hash;
  public_key_sha256 = public_key_fp;
  issuer_name = s.issuer_name;
  issuer_directory = s.issuer_directory;
  issuer_account_key_id = s.issuer_account_key_id;
}

abbrev pub a_hit : Bundle → IssuedResult
a_hit b = record { bundle = b; cache = codes "hit" }

abbrev pub a_miss : Bundle → IssuedResult
a_miss b = record { bundle = b; cache = codes "miss" }

abbrev pub request_of : CompiledProfile → Text → IssueRequest
request_of p csr_pem = record {
  profile_name = p.name;
  dns_names = p.dns_names;
  csr_pem = csr_pem;
  acme_challenge = p.acme.challenge;
  acme_credentials_name = p.acme.credentials;
}

module _ (C : CertificateStore) (s : Server) where
  stored_result :
      Bundle
      → Option StoreError × C.State
      → World C.State
      → Result Failure IssuedResult × World C.State
  stored_result b (none, st) w = (ok (a_miss b), record w { store = st })
  stored_result b (some e, st) w = (err (store_failed e), record w { store = st })

  store_answer :
      CertificateCacheKey
      → Result Text Bundle
      → World C.State
      → Result Failure IssuedResult × World C.State
  unfolding stored_result
  store_answer key (err e) w = (err (issuer_failed e), w)
  store_answer key (ok b) w =
      stored_result b (C.put (s.now w.trace) key b w.store) (act clock_read w)

  ask_issuer :
      CertificateCacheKey
      → CompiledProfile
      → Text
      → World C.State
      → Result Failure IssuedResult × World C.State
  unfolding store_answer
  ask_issuer key p csr_pem w =
      let req = request_of p csr_pem in store_answer key (s.issue w.trace req) (act (asked req) w)

  load_answer :
      Result StoreError Bundle
      → CertificateCacheKey
      → CompiledProfile
      → Text
      → World C.State
      → Result Failure IssuedResult × World C.State
  unfolding ask_issuer
  load_answer (ok b) key p csr_pem w = (ok (a_hit b), w)
  load_answer (err e) key p csr_pem w =
      if is_cache_miss e then ask_issuer key p csr_pem w else (err (store_failed e), w)

  -- `issueOrLoad`; the stores read the clock. The issuer hands out a bundle that is not nil.
  unfoldable pub issue_or_load :
      CertificateCacheKey
      → CompiledProfile
      → Text
      → World C.State
      → Result Failure IssuedResult × World C.State
  unfolding load_answer
  issue_or_load key p csr_pem w =
      load_answer (C.get (s.now w.trace) key p.renew_before w.store) key p csr_pem
        (act clock_read w)

  flight_result :
      Result Failure IssuedResult × World C.State → Result Failure FlightResult × World C.State
  flight_result (err e, w) = (err e, w)
  flight_result (ok r, w) = (ok (an_issued_result r), w)

  -- `flightGroup.Do`: the result of a call in flight under the same key, or of the call itself.
  unfoldable pub do_flight :
      CertificateCacheKey
      → CompiledProfile
      → Text
      → World C.State
      → Result Failure FlightResult × World C.State
  unfolding flight_result
  do_flight key p csr_pem w = elim (s.in_flight w.trace (key_string key)) [
    | some r ↦ (r, w)
    | none ↦ flight_result (issue_or_load key p csr_pem w)
  ]

  flight_answer :
      Context → Result Failure FlightResult × World C.State → Option IssuedResult × World C.State
  flight_answer c (err e, w) =
      answer_error s
        (audit_event s c EventType.certificate_issue_failed Severity.error Decision.error
          Reason.issuer_failed (some e) w)
        502 (codes "issuance failed")
  flight_answer c (ok another_type, w) =
      answer_error s
        (audit_event s c EventType.certificate_issue_failed Severity.error Decision.error
          Reason.issuer_failed (some unexpected_type) w)
        500 (codes "internal error")
  flight_answer c (ok (an_issued_result issued), w) = (some issued, w)

  unfoldable pub issue_or_load_with_singleflight :
      CertificateCacheKey
      → CompiledProfile
      → Context
      → World C.State
      → Option IssuedResult × World C.State
  unfolding flight_answer
  issue_or_load_with_singleflight key p c w = flight_answer c (do_flight key p c.csr_pem w)

  unfoldable pub record_issued_result :
      Context → IssuedResult → World C.State → Option IssuedResult × World C.State
  record_issued_result c issued w =
      behind_barrier s issued (audit_barrier s (issued_event s c issued w))
