-- ===== src/Agent/Client/Answered.antt =====
-- The agent reads of the broker's answer the bundle that the broker has put into it.
use certplane.Base.{
  ℕ, zero, suc, ◌<◌, ◌≤◌, ◌≡◌, refl, ap, some, List, [], ◌∷◌, ok, arith, length, take, false,
}
use certplane.Base.Text.{Text}
use certplane.Clock.{Time}
use certplane.Store.Sqlite.{year_10000, Rfc3339, IsRfc3339}
use certplane.Store.Sqlite.Rows.{whole_seconds}
use certplane.Broker.{IssueResponse, IssuedResult, Server}
use certplane.Broker.Issuing.{new_issue_response}
use certplane.Agent.Client.{HttpResponse, ClientLibraries, max_body, decode_response}

take-all {ℓ} : {A : Type ℓ} (n : ℕ) (xs : List A) → length xs ≤ n → take n xs ≡ xs
take-all zero [] h = refl
take-all zero (x ∷ xs) h = absurd (omega arith)
take-all (suc n) [] h = refl
take-all (suc n) (x ∷ xs) h = ap (λ ys. x ∷ ys) (take-all n xs (omega arith))

-- The response of the broker to a request that it has issued or loaded a bundle for.
abbrev pub answer : Server → (IssueResponse → Text) → IssuedResult → HttpResponse
answer s marshal issued = record {
  status_code = 200;
  body = marshal (new_issue_response s issued);
  body_fails = false;
}

-- Where the broker prints times in the layout that the agent parses, the response's JSON is read back
-- and fits into two mebibytes, and the bundle's times lie before the year 10000: the agent's client
-- gives the bundle that the broker has answered with, its times in whole seconds.
pub decode_response-answer :
    (s : Server) (x : ClientLibraries) (l : Rfc3339) (marshal : IssueResponse → Text)
    (issued : IssuedResult)
    → IsRfc3339 l
    → ((t : Time) → s.rfc3339 t ≡ l.format t)
    → ((r : IssueResponse) → x.unmarshal_response (marshal r) ≡ some r)
    → length (marshal (new_issue_response s issued)) ≤ max_body
    → issued.bundle.not_before < year_10000
    → issued.bundle.not_after < year_10000
    → decode_response x l (answer s marshal issued) ≡ ok (whole_seconds issued.bundle)
unfolding decode_response new_issue_response
decode_response-answer s x l marshal issued p same json fits before after =
    rw (take-all max_body (marshal (new_issue_response s issued)) fits) (
      rw (json (new_issue_response s issued)) (
        rw
          (
            same issued.bundle.not_before,
            p.parse_format issued.bundle.not_before before,
            same issued.bundle.not_after,
            p.parse_format issued.bundle.not_after after,
          )
          refl))
