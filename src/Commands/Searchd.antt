-- ===== src/Commands/Searchd.antt =====
-- cmd/searchd/main.go: `serve`. What ends the wait, a server that stopped or a signal, is an event;
-- the listener and the two servers are parameters. The log and the container are not modelled.
use kinetix_search_service.Common.{◌||◌, some, [], ◌∷◌, Text, lit, if◌then◌else◌, ok, err}
use kinetix_search_service.Search.Errors.{GoError, errf, error_is, dependency_unavailable, str}
use kinetix_search_service.Search.Call.{Call, ◌>>=◌, handling}
use kinetix_search_service.Config.{Config}

pub data Event : Type 0 where
  -- A server returned from serving, with this error.
  stopped : GoError → Event
  signalled : Event

pub record Servers (W : Type 0) : Type 0 where
  pub listen : Text → Call W (Unit {0})
  -- Both servers start.
  pub start : W → W
  pub graceful_stop : W → W
  pub shutdown : Call W (Unit {0})

abbrev pub server_closed : Text
server_closed = lit "http: Server closed"

abbrev pub server_stopped : Text
server_stopped = lit "grpc: the server has been stopped"

abbrev pub unbound : Config → GoError → GoError
unbound cfg e =
    errf dependency_unavailable (lit "searchd.grpc") (some e) (lit "binding %s")
      (str cfg.grpc_addr ∷ [])

module _ {W : Type 0} (servers : Servers W) where
  abbrev pub served : Event → Call W (Unit {0})
  served (stopped e) w =
      if error_is server_closed e || error_is server_stopped e
      then (ok tt, w)
      else (err (errf dependency_unavailable (lit "searchd.serve") (some e) (lit "serving") []), w)
  served signalled w = servers.shutdown (servers.graceful_stop w)

  unfoldable pub serve : Config → Event → Call W (Unit {0})
  unfolding error_is
  serve cfg event = handling (unbound cfg) (servers.listen cfg.grpc_addr) >>= λ _ w.
      served event (servers.start w)
