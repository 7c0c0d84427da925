-- ===== src/Broker/Listen/Listened.antt =====
-- `ListenAndServe`: what a server has done when it ends.
use certplane.Base.{
  ℕ, ◌+◌, Bool, ◌≡◌, ◌⊎◌, Option, none, some, List, [], ◌∷◌, Result, ok, err, length, if◌then◌else◌,
}
use certplane.Base.Text.{Text}
use certplane.Store.Contract.{CertificateStore}
use certplane.Broker.{Server, World, act, drew_id}
use certplane.Broker.Effects.{responses, panics, Quiet}
use certplane.Broker.Handler.Granted.{Untouched, IsAdmitted}
use certplane.Broker.Http.{
  HttpServer, ServerError, serving, Route, to_issue, to_healthz, to_readyz, method_not_allowed,
  not_found, route,
}
use certplane.Broker.Listen.{ClientCall}

-- How often the issue handler is called.
route_count : Route → ℕ
route_count to_issue = 1
route_count to_healthz = 0
route_count to_readyz = 0
route_count method_not_allowed = 0
route_count not_found = 0

pub issue_calls : List ClientCall → ℕ
issue_calls [] = 0
issue_calls (c ∷ cs) = route_count (route c.method c.path) + issue_calls cs

module _ (C : CertificateStore) (s : Server) where
  -- Every call, in the world that the calls before it have left: a call that is not one of the issue
  -- handler, or that is not admitted there, asks no issuer and leaves the store as it is.
  pub data Each : List ClientCall → World C.State → World C.State → Type 0 where
    no_call : (w : World C.State) → Each [] w w
    one_call :
        (c : ClientCall) (cs : List ClientCall) (w w1 w' : World C.State)
        → Untouched C w w1
          ⊎ ((route c.method c.path ≡ to_issue) × IsAdmitted C s c.request (act drew_id w) w1)
        → Each cs w1 w'
        → Each (c ∷ cs) w w'

  pub record Served (calls : List ClientCall) (w w' : World C.State) : Type 0 where
    pub once : length (responses w'.trace) ≡ issue_calls calls + length (responses w.trace)
    pub sound : panics w'.trace ≡ panics w.trace
    pub each : Each calls w w'

  -- How the server ends: without `http.Server` it does nothing; and it ends without an error if and
  -- only if net/http ends by the close of the server.
  pub data Listened (calls : List ClientCall) (closed : Bool) (h : Result ServerError HttpServer)
      (w : World C.State) : Option ServerError × World C.State → Type 0 where
    not_started : (e : ServerError) → h ≡ err e → Listened calls closed h w (some e, w)
    ended :
        (server : HttpServer) (w' : World C.State)
        → h ≡ ok server
        → (w1 : World C.State) → Quiet w w1
        → Served calls w1 w'
        → Listened calls closed h w (if closed then none else some serving, w')
