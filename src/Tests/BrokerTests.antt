-- ===== src/Tests/BrokerTests.antt =====
-- internal/broker/issue.go: runs of the handler, and its theorems at concrete data.
use certplane.Broker.Steps.{
  ◌▹◌, authenticate_issue_request, parse_issue_request, authorize_issue_request, answer_error,
  attach_public_key_fingerprint, behind_barrier, check_issue_rate_limit, record_authorized_issue,
  write_error,
}
use certplane.Broker.Handler.{admit, obtain}
use certplane.Authn.{identity_from_request, validate_client_certificate}
use certplane.Pki.Csr.{parse_csr_pem, csr_fingerprint, public_key_fingerprint}
use certplane.Base.Text.{
  text_eq, to_lower, trim_suffix, trim_space, contains_any, contains_text, count_code, elem,
  has_code, has_prefix, has_suffix, is_space, lower, text_ltb, trim_prefix,
}
use certplane.Broker.Recording.{
  record_event, audit_event, audit_barrier, error_of, issued_event, new_audit_event,
  normalize_audit_event, source_ip, with_csr, with_metadata,
}
use certplane.Policy.Authorize.{authorize, same_string_set}
use certplane.Base.Dict.{Dict, lookup, insert}
use certplane.Policy.{allows_profile, contains}
use certplane.Dnsname.{canonical_list, canonical, is_valid_wildcard, normalize}
use certplane.Base.Sort.{sort}
use certplane.Base.Text.Split.{join, split}
use certplane.Broker.Issuing.{
  cache_key, do_flight, issue_or_load, issue_or_load_with_singleflight, new_issue_response,
  record_issued_result,
}
use certplane.Ratelimit.{allow, append_both, profile_key, prune, prune_both}
use certplane.Store.{key_string}
use certplane.Store.File.{get_valid_certificate, put_certificate, load_locked, save_locked}
use certplane.Store.Contract.{if_fresh, IsStore}
use certplane.Clock.{until, sub, hour}
use certplane.Base.{◌+◌, arith, true, false, ◌≡◌, refl, ◌⊎◌, [], ◌∷◌, ok}
use certplane.Base.Text.{codes}
use certplane.Store.File.{FileStore}
use certplane.Store.{CacheEntry}
use certplane.Store.File.Promise.{
  IsCacheFormat, file_store, same_bundle, AnyState, AnyBundle, file_store-IsStore,
}
use certplane.Broker.{Reply, issued_reply, World, act, drew_id, clock_read}
use certplane.Broker.Effects.{responses}
use certplane.Broker.Steps.Outcomes.{Refused}
use certplane.Broker.Issuing.{a_hit, a_miss}
use certplane.Broker.Handler.{issue_certificate}
use certplane.Broker.Handler.Answers.{Granted}
use certplane.Broker.Handler.Granted.{
  OneResponse, Untouched, IsAdmitted, issue_certificate-Granted, issue_certificate-OneResponse,
  issue_certificate-Untouched, issue_certificate-Refused,
}
use certplane.Tests.Data.{cache_format, server, request, world, bundle, agent, web, profile, today}
use certplane.Base.Int.{leb_ℤ}
use certplane.Store.{CertificateCacheKey}
use certplane.Store.Keys.{IsPlainKey}
use certplane.Broker.Issuing.Cached.{issue_or_load-cached}

abbrev reply : Reply
reply = issued_reply (record {
  cert_pem = codes "cert";
  chain_pem = codes "chain";
  full_chain_pem = codes "certchain";
  serial_number = codes "2a";
  not_before = [];
  not_after = [];
  cache = codes "miss";
})

granted_run :
    responses (issue_certificate (file_store cache_format) (server true) request world).trace
    ≡ (200, reply) ∷ responses world.trace
unfolding responses issue_certificate ◌▹◌ admit authenticate_issue_request identity_from_request
    parse_issue_request parse_csr_pem text_eq authorize_issue_request record_event audit_event
    authorize lookup allows_profile canonical_list to_lower trim_suffix trim_space
    validate_client_certificate insert sort join split contains_any contains_text count_code elem
    has_code has_prefix has_suffix is_space lower text_ltb trim_prefix obtain cache_key do_flight
    issue_or_load issue_or_load_with_singleflight new_issue_response record_issued_result
    audit_barrier error_of issued_event new_audit_event normalize_audit_event source_ip with_csr
    with_metadata answer_error attach_public_key_fingerprint behind_barrier check_issue_rate_limit
    record_authorized_issue write_error canonical is_valid_wildcard normalize csr_fingerprint
    public_key_fingerprint same_string_set contains allow append_both profile_key prune prune_both
    key_string get_valid_certificate put_certificate load_locked save_locked if_fresh until sub
granted_run = refl

issue_certificate-Granted_example :
    Granted
      (file_store cache_format)
      (server true)
      request
      (act drew_id world)
      (issue_certificate (file_store cache_format) (server true) request world)
issue_certificate-Granted_example =
    issue_certificate-Granted (file_store cache_format) (server true) request world reply
      granted_run

issue_certificate-OneResponse_example :
    OneResponse [] (issue_certificate (file_store cache_format) (server false) request world).trace
issue_certificate-OneResponse_example =
    issue_certificate-OneResponse (file_store cache_format) (server false) request world

issue_certificate-Untouched_example :
    Untouched
      (file_store cache_format)
      world
      (issue_certificate (file_store cache_format) (server false) request world)
    ⊎ IsAdmitted
        (file_store cache_format)
        (server false)
        request
        (act drew_id world)
        (issue_certificate (file_store cache_format) (server false) request world)
issue_certificate-Untouched_example =
    issue_certificate-Untouched (file_store cache_format) (server false) request world

issue_certificate-Refused_example :
    Refused
      (act drew_id world)
      (issue_certificate (file_store cache_format) (server false) request world)
unfolding text_eq
issue_certificate-Refused_example =
    issue_certificate-Refused (file_store cache_format) (server false) request world (λ t e. false)
      refl refl (λ t e h. refl)

abbrev key : CertificateCacheKey
key = record {
  identity = agent;
  profile_name = web;
  profile_hash = codes "h1";
  public_key_sha256 = codes "key";
  issuer_name = codes "acme";
  issuer_directory = codes "directory";
  issuer_account_key_id = codes "account";
}

key-IsPlainKey : IsPlainKey key
key-IsPlainKey = ground arith

-- The world behind the first call.
cache_format-IsCacheFormat : IsCacheFormat cache_format
cache_format-IsCacheFormat = record { read_back = λ m doc h. (m, (cc h, λ q. refl)) }

abbrev later : World (FileStore (Dict CacheEntry))
later = record world {
  store =
      (issue_or_load (file_store cache_format) (server true) key profile (codes "csr")
        world).1.store;
}

miss_run :
    (issue_or_load (file_store cache_format) (server true) key profile (codes "csr") world).0
    ≡ ok (a_miss bundle)
unfolding issue_or_load get_valid_certificate load_locked lookup put_certificate save_locked
miss_run = refl

fresh_run : leb_ℤ (until (today + hour) bundle.not_after) profile.renew_before ≡ false
unfolding until sub
fresh_run = refl

issue_or_load-cached_example :
    issue_or_load (file_store cache_format) (server true) key profile (codes "csr") later
    ≡ (ok (a_hit bundle), act clock_read later)
issue_or_load-cached_example =
    issue_or_load-cached (file_store cache_format) same_bundle AnyState AnyBundle
      (file_store-IsStore cache_format cache_format-IsCacheFormat) (server true) key profile
      (codes "csr") (codes "csr") world later bundle (λ t. tt) tt key-IsPlainKey miss_run refl
      fresh_run

file_store-IsStore_example : IsStore (file_store cache_format) same_bundle AnyState AnyBundle
file_store-IsStore_example = file_store-IsStore cache_format cache_format-IsCacheFormat
