-- ===== src/Tests/ClientTests.antt =====
-- internal/agent/client.go and `SerialString` of internal/pki/cert.go: the theorems at concrete data.
use certplane.Base.{◌≡◌, refl, arith, true, Option, some, [], ◌∷◌, ◌++◌, ok, length, take, drop}
use certplane.Base.Text.{Text, codes}
use certplane.Agent.Client.{ClientLibraries, decode_response}
use certplane.Broker.{IssueResponse, IssuedResult, Server}
use certplane.Broker.Issuing.{new_issue_response}
use certplane.Agent.Client.Answered.{answer, decode_response-answer}
use certplane.Store.Sqlite.Rows.{whole_seconds}
use certplane.Tests.DiskData.{take_append, drop_append}
use certplane.Tests.Data.{bundle, layout, layout-IsRfc3339, server}
use certplane.Tests.AgentData.{libraries}

abbrev issued : IssuedResult
issued = record { bundle = bundle; cache = codes "miss" }

-- A response as its texts, each behind its length.
abbrev put_text : Text → Text → Text
put_text t rest = length t ∷ (t ++ rest)

abbrev marshal : IssueResponse → Text
marshal r = put_text r.cert_pem (
    put_text r.chain_pem (
      put_text r.full_chain_pem (
        put_text r.serial_number
          (put_text r.not_before (put_text r.not_after (put_text r.cache []))))))

abbrev next_text : Text → Text × Text
next_text [] = ([], [])
next_text (n ∷ t) = (take n t, drop n t)

abbrev unmarshal : Text → Option IssueResponse
unmarshal t0 =
    let (cert_pem, t1) = next_text t0 in
    let (chain_pem, t2) = next_text t1 in
    let (full_chain_pem, t3) = next_text t2 in
    let (serial_number, t4) = next_text t3 in
    let (not_before, t5) = next_text t4 in
    let (not_after, t6) = next_text t5 in
    some (record {
      cert_pem = cert_pem;
      chain_pem = chain_pem;
      full_chain_pem = full_chain_pem;
      serial_number = serial_number;
      not_before = not_before;
      not_after = not_after;
      cache = (next_text t6).0;
    })

unmarshal_marshal : (r : IssueResponse) → unmarshal (marshal r) ≡ some r
unmarshal_marshal r = simp (take_append, drop_append)

abbrev reading : ClientLibraries
reading = record libraries { unmarshal_response = unmarshal }

abbrev broker : Server
broker = record (server true) { rfc3339 = layout.format }

decode_response-answer_example :
    decode_response reading layout (answer broker marshal issued) ≡ ok (whole_seconds bundle)
unfolding new_issue_response
decode_response-answer_example =
    decode_response-answer broker reading layout marshal issued layout-IsRfc3339 (λ t. refl)
      unmarshal_marshal (omega arith) (omega arith) (omega arith)
