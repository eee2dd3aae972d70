-- ===== src/ClientServer/Module/Reconnect.antt =====
-- When a client connects to its server again: `OnFireConnector`, `onErrorConnect`, `onLoginResult`,
-- `Disconnect` and `ManagerFunc`.
use twainet.Prelude.{ℕ, ◌≡◌, refl, Bool, true, false, List, [], ◌∷◌, ◌++◌, map, arith, ◌||◌}
use twainet.Prelude.Bytes.{Bytes}
use twainet.Ipc.Module.{manager_func}
use twainet.Ipc.Module as Base
use twainet.ClientServer.Module.{
  ClientServerModule, Event, connect_thread, listen_thread, stop_thread, release_thread,
  stop_connection, on_fire_connector, on_connect_failed, on_client_connector, on_server_connected,
  server_creation_failed, on_auth_failed, on_ipc_objects_changed, base_event,
  on_fire_server_connector, client_server_manager_func, disconnect_from_server,
}
use twainet.ClientServer.Module.Handler.{
  on_error_server_connect, on_login_result, on_session_disconnected,
}

-- What happens to a module, one after the other.
pub data Happening : Type 0 where
  connector_fires connect_fails : Bytes → ℕ → Happening
  login_answered : Bool → Bytes → Happening
  connector_disconnects : Bytes → Bytes → Happening
  manager_runs : ℕ → Happening

happen : ClientServerModule → Happening → ClientServerModule × List Event
happen m (connector_fires name now) = on_fire_server_connector m name now
happen m (connect_fails name now) = on_error_server_connect m name now
happen m (login_answered success session) = on_login_result m success session
happen m (connector_disconnects id access_id) = on_session_disconnected m id access_id
happen m (manager_runs now) = client_server_manager_func m now

happen_all : ClientServerModule → List Happening → ClientServerModule × List Event
happen_all m [] = (m, [])
happen_all m (h ∷ hs) =
    let (m', events) = happen m h in
    let (m'', events') = happen_all m' hs in (m'', events ++ events')

is_connect : Event → Bool
is_connect (connect_thread ip port proxy) = true
is_connect (listen_thread t port ip) = false
is_connect (stop_thread t) = false
is_connect (release_thread t) = false
is_connect (stop_connection s) = false
is_connect (on_fire_connector s) = false
is_connect (on_connect_failed s) = false
is_connect (on_client_connector s) = false
is_connect on_server_connected = false
is_connect server_creation_failed = false
is_connect on_auth_failed = false
is_connect on_ipc_objects_changed = false
is_connect (base_event e) = false

-- One of the events is a `ConnectThread` to the server.
pub has_connect : List Event → Bool
has_connect [] = false
has_connect (e ∷ es) = is_connect e || has_connect es

has_connect-append :
    (es fs : List Event) → has_connect (es ++ fs) ≡ (has_connect es || has_connect fs)
unfolding has_connect
has_connect-append [] fs = refl
has_connect-append (e ∷ es) fs = ground (arith, has_connect-append es fs)

has_connect-base : (es : List Base.Event) → has_connect (map base_event es) ≡ false
unfolding has_connect is_connect
has_connect-base [] = refl
has_connect-base (e ∷ es) = ground (arith, has_connect-base es)

-- The connection is not wanted, and none is requested.
abbrev IsQuiet : ClientServerModule → Type 0
IsQuiet m = (m.is_stop_connect ≡ true) × (m.connect_to_server_request ≡ false)

happen-IsQuiet :
    (m : ClientServerModule) (h : Happening)
    → IsQuiet m
    → IsQuiet (happen m h).0 × (has_connect (happen m h).1 ≡ false)
unfolding happen on_fire_server_connector on_error_server_connect on_login_result
    on_session_disconnected client_server_manager_func has_connect is_connect
happen-IsQuiet m (connector_fires name now) q = ground (arith, q)
happen-IsQuiet m (connect_fails name now) q = ground (arith, q)
happen-IsQuiet m (login_answered success session) q = ground (arith, q)
happen-IsQuiet m (connector_disconnects id access_id) q = ground (arith, q)
happen-IsQuiet m (manager_runs now) q =
    ground (arith, q, has_connect-base (manager_func m.base now).1)

happen_all-IsQuiet :
    (m : ClientServerModule) (hs : List Happening)
    → IsQuiet m
    → has_connect (happen_all m hs).1 ≡ false
unfolding happen_all has_connect
happen_all-IsQuiet m [] q = refl
happen_all-IsQuiet m (h ∷ hs) q =
    let (q', none_now) = happen-IsQuiet m h q in
    ground (
      arith,
      none_now,
      happen_all-IsQuiet (happen m h).0 hs q',
      has_connect-append (happen m h).1 (happen_all (happen m h).0 hs).1,
    )

-- After `Disconnect` on a module with no request to connect again, the module starts no connection
-- to the server, whatever its connectors, the server and the clock do.
disconnect_from_server-quiet :
    (m : ClientServerModule) (hs : List Happening)
    → m.connect_to_server_request ≡ false
    → has_connect (happen_all (disconnect_from_server m).0 hs).1 ≡ false
unfolding disconnect_from_server
disconnect_from_server-quiet m hs e = happen_all-IsQuiet (disconnect_from_server m).0 hs (refl, e)
