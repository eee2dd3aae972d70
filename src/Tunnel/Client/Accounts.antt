-- ===== src/Tunnel/Client/Accounts.antt =====
-- Every thread that the client makes for an entry is held by it or stopped.
use twainet.Prelude.{
  total, total-append, ℕ, ◌+◌, ◌≡◌, refl, none, some, List, [], ◌∷◌, arith, Option-cases, inl, inr,
}
use twainet.Prelude.Bytes.{Bytes}
use twainet.StringMap.{map_find, map_set}
use twainet.StringMap.Sum.{map_sum, map_sum-map_set, map_sum-map_erase, map_sum-map_insert}
use twainet.StringMap.Keys.{IsMap, map_set-IsMap, map_insert-IsMap, map_erase-IsMap}
use twainet.Tunnel.PeerType.{
  TunnelType, tunnel_all, tunnel_local_tcp, tunnel_local_udp, tunnel_external, tunnel_relay_tcp,
  tunnel_relay_udp,
}
use twainet.Tunnel.Message.{Event, SessionPair, on_tunnel_connect_failed}
use twainet.Tunnel.Client.{
  TunnelConnect, ClientState, new_tunnel, delete_tunnel, create_local_listen_thread,
  create_local_udp_socket, init_external_connect_thread, create_relay_connect_thread,
}
use twainet.Tunnel.Client.Handler.{
  Resources, on_init_tunnel_started, on_error_local_listener, on_add_local_udp_connector,
  on_error_external_connect, on_tunnel_module_name, check_connects, init_tunnel_of,
}
use twainet.Tunnel.Client.Threads.{held, held_by, start_number, stop_number}

-- Of a thread's address: as often as it was held or is started, it is held or stopped afterwards.
abbrev pub IsBalanced : ℕ → ClientState → ClientState × List Event → Type 0
IsBalanced t s (s', events) =
    (held t s.tunnels + total (start_number t) events
      ≡ held t s'.tunnels + total (stop_number t) events)
    × IsMap s'.tunnels

held-map_set :
    (t : ℕ) (s : ClientState) (ext : Bytes) (new : TunnelConnect) {old : TunnelConnect}
    → IsMap s.tunnels
    → map_find s.tunnels ext ≡ some old
    → (held t (map_set s.tunnels ext new) + held_by t old ≡ held t s.tunnels + held_by t new)
      × IsMap (map_set s.tunnels ext new)
held-map_set t s ext new {old} m e =
    (map_sum-map_set (held_by t) s.tunnels ext new {old = old} e, map_set-IsMap s.tunnels ext new m)

delete_tunnel_stops :
    (t : ℕ) (tunnel : TunnelConnect)
    → (total (start_number t) (delete_tunnel tunnel) ≡ 0)
      × (total (stop_number t) (delete_tunnel tunnel) ≡ held_by t tunnel)
unfolding delete_tunnel total start_number stop_number
delete_tunnel_stops t tunnel = ground arith

create_local_listen_thread-IsBalanced :
    (t : ℕ) (s : ClientState) (ext : Bytes) (thread : ℕ)
    → IsMap s.tunnels
    → IsBalanced t s (create_local_listen_thread s ext thread)
unfolding create_local_listen_thread total start_number stop_number
create_local_listen_thread-IsBalanced t s ext thread m =
    elim (Option-cases (map_find s.tunnels ext)) [
      | inl e ↦ ground (arith, e, m)
      | inr (old, e) ↦
          let new = record old { local_listen = some thread } in
          ground (arith, e, held-map_set t s ext new {old = old} m e)
    ]

init_external_connect_thread-IsBalanced :
    (t : ℕ) (s : ClientState) (ext ip : Bytes) (port thread : ℕ)
    → IsMap s.tunnels
    → IsBalanced t s (init_external_connect_thread s ext ip port thread)
unfolding init_external_connect_thread total start_number stop_number
init_external_connect_thread-IsBalanced t s ext ip port thread m =
    elim (Option-cases (map_find s.tunnels ext)) [
      | inl e ↦ ground (arith, e, m)
      | inr (old, e) ↦
          let new = record old { external_connect = some thread } in
          ground (arith, e, held-map_set t s ext new {old = old} m e)
    ]

create_local_udp_socket-IsBalanced :
    (t : ℕ) (s : ClientState) (ext : Bytes) (r : Resources)
    → IsMap s.tunnels
    → IsBalanced t s (create_local_udp_socket s ext r.made r.bound r.local_ips)
unfolding create_local_udp_socket total start_number stop_number
create_local_udp_socket-IsBalanced t s ext r m = elim (Option-cases (map_find s.tunnels ext)) [
  | inl e ↦ ground (arith, e, m)
  | inr (old, e) ↦
      let new = record old { local_udp_socket = some r.made } in
      ground (arith, e, held-map_set t s ext new {old = old} m e)
]

pub on_init_tunnel_message-IsBalanced :
    (t : ℕ) (s : ClientState) (type : TunnelType) (ext : Bytes) (port : ℕ) (r : Resources)
    → IsMap s.tunnels
    → IsBalanced t s (init_tunnel_of s type ext port r)
unfolding create_relay_connect_thread total start_number stop_number
on_init_tunnel_message-IsBalanced t s tunnel_all ext port r m = (refl, m)
on_init_tunnel_message-IsBalanced t s tunnel_local_tcp ext port r m =
    create_local_listen_thread-IsBalanced t s ext r.made m
on_init_tunnel_message-IsBalanced t s tunnel_local_udp ext port r m =
    create_local_udp_socket-IsBalanced t s ext r m
on_init_tunnel_message-IsBalanced t s tunnel_external ext port r m =
    init_external_connect_thread-IsBalanced t s ext s.server_ip port r.made m
on_init_tunnel_message-IsBalanced t s tunnel_relay_tcp ext port r m = ground (arith, m)
on_init_tunnel_message-IsBalanced t s tunnel_relay_udp ext port r m = ground (arith, m)

pub on_init_tunnel_started-IsBalanced :
    (t : ℕ) (s : ClientState) (msg : SessionPair) (now : ℕ)
    → IsMap s.tunnels
    → IsBalanced t s (on_init_tunnel_started s msg now, [])
unfolding on_init_tunnel_started total
on_init_tunnel_started-IsBalanced t s msg now m =
    let ext = msg.ext_session_id in
    ground (
      arith,
      m,
      map_sum-map_insert (held_by t) s.tunnels ext (new_tunnel now),
      map_insert-IsMap s.tunnels ext (new_tunnel now) m,
    )

pub on_error_external_connect-IsBalanced :
    (t : ℕ) (s : ClientState) (name : Bytes)
    → IsMap s.tunnels
    → IsBalanced t s (on_error_external_connect s name)
unfolding on_error_external_connect total start_number stop_number
on_error_external_connect-IsBalanced t s name m = elim (Option-cases (map_find s.tunnels name)) [
  | inl e ↦ ground (arith, e, m)
  | inr (old, e) ↦
      let new = record old { external_connect = none } in
      ground (arith, e, held-map_set t s name new {old = old} m e)
]

pub on_add_local_udp_connector-IsBalanced :
    (t : ℕ) (s : ClientState) (id : Bytes) (connector : ℕ)
    → IsMap s.tunnels
    → IsBalanced t s (on_add_local_udp_connector s id connector)
unfolding on_add_local_udp_connector total start_number stop_number
on_add_local_udp_connector-IsBalanced t s id connector m =
    elim (Option-cases (map_find s.tunnels id)) [
      | inl e ↦ ground (arith, e, m)
      | inr (old, e) ↦
          let new = record old { local_udp_socket = none } in
          ground (arith, e, held-map_set t s id new {old = old} m e)
    ]

pub on_tunnel_module_name-IsBalanced :
    (t : ℕ) (s : ClientState) (host : Bytes)
    → IsMap s.tunnels
    → IsBalanced t s (on_tunnel_module_name s host)
unfolding on_tunnel_module_name total
on_tunnel_module_name-IsBalanced t s host m = elim (Option-cases (map_find s.tunnels host)) [
  | inl e ↦ ground (arith, e, m)
  | inr (old, e) ↦ ground (
    arith,
    e,
    delete_tunnel_stops t old,
    map_sum-map_erase (held_by t) s.tunnels host {old = old} m e,
    map_erase-IsMap s.tunnels host m,
  )
]

pub check_connects-IsBalanced :
    (t now : ℕ) (tunnels : List (Bytes × TunnelConnect))
    → let (left, events) = check_connects now tunnels in
      (held t tunnels + total (start_number t) events ≡ held t left + total (stop_number t) events)
unfolding check_connects map_sum total start_number stop_number
check_connects-IsBalanced t now [] = refl
check_connects-IsBalanced t now ((ext, tunnel) ∷ tunnels) =
    let events = on_tunnel_connect_failed ext ∷ (check_connects now tunnels).1 in
    ground (
      arith,
      check_connects-IsBalanced t now tunnels,
      delete_tunnel_stops t tunnel,
      total-append (start_number t) (delete_tunnel tunnel) events,
      total-append (stop_number t) (delete_tunnel tunnel) events,
    )

map_find-check_connects :
    (now : ℕ) (tunnels : List (Bytes × TunnelConnect)) (k : Bytes)
    → map_find tunnels k ≡ none
    → map_find (check_connects now tunnels).0 k ≡ none
unfolding check_connects map_find
map_find-check_connects now [] k e = refl
map_find-check_connects now ((ext, tunnel) ∷ tunnels) k e =
    ground (arith, e, map_find-check_connects now tunnels k)

pub check_connects-IsMap :
    (now : ℕ) (tunnels : List (Bytes × TunnelConnect))
    → IsMap tunnels
    → IsMap (check_connects now tunnels).0
unfolding check_connects
check_connects-IsMap now [] m = tt
check_connects-IsMap now ((ext, tunnel) ∷ tunnels) m =
    ground
      (arith, m.0, check_connects-IsMap now tunnels m.1, map_find-check_connects now tunnels ext)

pub on_error_local_listener-IsBalanced :
    (t : ℕ) (s : ClientState) (id : Bytes) {result : ClientState × List Event}
    → IsMap s.tunnels
    → on_error_local_listener s id ≡ some result
    → IsBalanced t s result
unfolding on_error_local_listener total start_number stop_number
on_error_local_listener-IsBalanced t s id {result} m h =
    elim (Option-cases (map_find s.tunnels id)) [
      | inl e ↦ ground (arith, e, m, h)
      | inr (old, e) ↦
          let new = record old { local_listen = none } in
          ground (arith, e, h, held-map_set t s id new {old = old} m e)
    ]
