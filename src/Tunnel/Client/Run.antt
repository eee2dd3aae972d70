-- ===== src/Tunnel/Client/Run.antt =====
-- What changes the entries of the client, one after the other.
use twainet.Prelude.{
  total, total-append, ℕ, ◌+◌, ◌≡◌, Bool, Option, none, some, List, [], ◌∷◌, ◌++◌, arith,
  Option-cases, inl, inr,
}
use twainet.Prelude.Bytes.{Bytes}
use twainet.StringMap.Sum.{map_sum}
use twainet.StringMap.Keys.{IsMap}
use twainet.Tunnel.Message.{Event, InitTunnel, SessionPair}
use twainet.Tunnel.Client.{ClientState}
use twainet.Tunnel.Client.Handler.{
  Resources, on_init_tunnel_message, on_init_tunnel_started, on_error_local_listener,
  on_add_local_udp_connector, on_error_external_connect, on_tunnel_module_name, check_connects,
  port_of,
}
use twainet.Tunnel.Client.Threads.{held, start_number, stop_number}
use twainet.Ipc.Object.{IpcObject}
use twainet.Tunnel.Client.Accounts.{
  IsBalanced, on_init_tunnel_message-IsBalanced, on_init_tunnel_started-IsBalanced,
  on_error_external_connect-IsBalanced, on_add_local_udp_connector-IsBalanced,
  on_tunnel_module_name-IsBalanced, check_connects-IsBalanced, check_connects-IsMap,
  on_error_local_listener-IsBalanced,
}

-- What changes the entries.
pub data Request : Type 0 where
  init_tunnel_arrives : InitTunnel → Resources → Request
  started_arrives : SessionPair → ℕ → Request
  local_listener_fails external_connect_fails module_name_arrives : Bytes → Request
  udp_connector_added : Bytes → ℕ → Request
  connects_checked : ℕ → Request

unfoldable pub handle : ClientState → Request → Option (ClientState × List Event)
handle s (init_tunnel_arrives msg r) = some (on_init_tunnel_message s msg r)
handle s (started_arrives msg now) = some (on_init_tunnel_started s msg now, [])
handle s (local_listener_fails id) = on_error_local_listener s id
handle s (external_connect_fails name) = some (on_error_external_connect s name)
handle s (module_name_arrives host) = some (on_tunnel_module_name s host)
handle s (udp_connector_added id connector) = some (on_add_local_udp_connector s id connector)
handle s (connects_checked now) =
    let (left, events) = check_connects now s.tunnels in some (record s { tunnels = left }, events)

-- A run, until a call on a null pointer.
unfoldable pub run : ClientState → List Request → Option (ClientState × List Event)
run s [] = some (s, [])
run s (r ∷ rs) = elim (handle s r) [
  | none ↦ none
  | some (s', events) ↦ elim (run s' rs) [
    | none ↦ none
    | some (s'', events') ↦ some (s'', events ++ events')
  ]
]

handle-IsBalanced :
    (t : ℕ) (s : ClientState) (r : Request) {result : ClientState × List Event}
    → IsMap s.tunnels
    → handle s r ≡ some result
    → IsBalanced t s result
unfolding handle on_init_tunnel_message total
handle-IsBalanced t s (init_tunnel_arrives msg r) m h = elim (Option-cases msg.type) [
  | inl e ↦ ground (arith, e, m, h)
  | inr (type, e) ↦ ground (
    arith,
    e,
    h,
    on_init_tunnel_message-IsBalanced t s type msg.ext_session_id (port_of msg.address) r m,
  )
]
handle-IsBalanced t s (started_arrives msg now) m h =
    ground (arith, h, on_init_tunnel_started-IsBalanced t s msg now m)
handle-IsBalanced t s (local_listener_fails id) m h = on_error_local_listener-IsBalanced t s id m h
handle-IsBalanced t s (external_connect_fails name) m h =
    ground (arith, h, on_error_external_connect-IsBalanced t s name m)
handle-IsBalanced t s (module_name_arrives host) m h =
    ground (arith, h, on_tunnel_module_name-IsBalanced t s host m)
handle-IsBalanced t s (udp_connector_added id connector) m h =
    ground (arith, h, on_add_local_udp_connector-IsBalanced t s id connector m)
handle-IsBalanced t s (connects_checked now) m h =
    ground
      (arith, h, check_connects-IsBalanced t now s.tunnels, check_connects-IsMap now s.tunnels m)

run-IsBalanced :
    (t : ℕ) (s : ClientState) (rs : List Request) {result : ClientState × List Event}
    → IsMap s.tunnels
    → run s rs ≡ some result
    → IsBalanced t s result
unfolding run total
run-IsBalanced t s [] {result} m h = ground (arith, m, h)
run-IsBalanced t s (r ∷ rs) {result} m h = elim (Option-cases (handle s r)) [
  | inl e ↦ ground (arith, e, h)
  | inr ((s', events), e) ↦
      let now = handle-IsBalanced t s r m e in
      elim (Option-cases (run s' rs)) [
        | inl f ↦ ground (arith, e, f, h)
        | inr ((s'', events'), f) ↦
            let later = run-IsBalanced t s' rs now.1 f in
            ground (
              arith,
              e,
              f,
              h,
              now,
              later,
              total-append (start_number t) events events',
              total-append (stop_number t) events events',
            )
      ]
]

-- A client without entries.
abbrev pub new_client : Bytes → Bytes → Bool → List IpcObject → ClientState
new_client own ip proxy modules = record {
  own_session_id = own;
  server_ip = ip;
  is_use_proxy = proxy;
  modules = modules;
  tunnels = [];
}

-- Over any run of a new client that meets no null pointer, each thread that it made for an entry,
-- a local listener or an external connection, has been stopped and handed to the thread manager as
-- often as it was started, but for the entries that hold it still; the entries have distinct
-- sessions.
pub run_threads :
    (t : ℕ) (own ip : Bytes) (proxy : Bool) (modules : List IpcObject) (rs : List Request)
    {result : ClientState × List Event}
    → run (new_client own ip proxy modules) rs ≡ some result
    → (total (start_number t) result.1 ≡ total (stop_number t) result.1 + held t result.0.tunnels)
      × IsMap result.0.tunnels
unfolding map_sum
run_threads t own ip proxy modules rs {result} h =
    ground (arith, run-IsBalanced t (new_client own ip proxy modules) rs {result = result} tt h)
