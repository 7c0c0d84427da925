-- ===== src/Tests/ListenTests.antt =====
-- internal/broker/http.go: a server that serves two calls, and the theorem at it.
use certplane.Base.{◌≡◌, refl, true, none, some, [], ◌∷◌, List, Option}
use certplane.Base.Text.{Text, codes}
use certplane.Store.File.Promise.{file_store}
use certplane.Broker.Http.{http_server, load_cert_pool}
use certplane.Broker.Listen.{ClientCall, listen_and_serve, listen}
use certplane.Broker.Listen.Listened.{Listened}
use certplane.Tests.SettingsTests.{broker}
use certplane.Tests.Data.{cache_format, server, request, world}

abbrev calls : List ClientCall
calls =
    record { method = codes "GET"; path = codes "/healthz"; request = request }
    ∷ record { method = codes "POST"; path = codes "/v1/certificates"; request = request }
    ∷ []

abbrev read_file : Text → Option Text
read_file path = some path

listen_run :
    (listen_and_serve
      (file_store cache_format)
      (server true)
      read_file
      (λ t. true)
      broker
      calls
      true
      world).0
    ≡ none
unfolding listen_and_serve listen http_server load_cert_pool
listen_run = refl
