-- ===== src/Tunnel/Server/Kinds.antt =====
-- Which tunnels the server starts for two sessions.
use twainet.Prelude.{
  ℕ, ◌≡◌, refl, ap, ◌∙◌, Bool, true, false, ◌&&◌, ◌||◌, ◌==◌, none, some, List, [], ◌∷◌, ◌++◌, ◌<◌,
  arith, if◌then◌else◌, sym,
}
use twainet.Prelude.Bytes.{Bytes, str_eq_refl}
use twainet.ObjectManager.{add_object}
use twainet.Tunnel.PeerType.{
  TunnelType, tunnel_all, tunnel_local_tcp, tunnel_local_udp, tunnel_external, tunnel_relay_tcp,
  tunnel_relay_udp, type_number, check_tunnel_available_type, peer_eq, new_peer, peer_order,
}
use twainet.Tunnel.Choice.{chosen, type_of}
use twainet.Tunnel.Message.{
  Event, InitTunnel, udp, tcp_secure, udt_secure, tcp_secure_proxy, init_tunnel,
  init_tunnel_started, init_tunnel_complete, external_listen_thread, relay_listen_thread,
  try_connect_to, peer_data, available_pear_types, local_listen_thread, connect_thread,
  external_connect_thread, change_connect_address, stop_thread, start_connector, close_socket,
  add_connector, stop_connection, on_tunnel_connect_failed, on_tunnel_connected,
}
use twainet.Tunnel.Server.{
  ServerState, Surroundings, type_or_all, on_init_tunnel, start_tunnels, is_started, found_peer,
  new_step, start_external, start_relay, step_order,
}
use twainet.Tunnel.Server.Run.{Request, run, on_init_tunnel_free, IsValid}
use twainet.Tunnel.Server.Pending.{new_state, pending, run-new-IsValid, time_of}
use twainet.Tunnel.Server.Steps.{step_of}
use twainet.ObjectManager.Refinement.{lookup_same, get_object-lookup}

-- The number of the type of tunnel that an event starts: an `InitTunnel` to a client, or a listening
-- thread. Zero for the others.
unfoldable pub kind_number : Event → ℕ
kind_number (init_tunnel msg) = elim msg.type [ none ↦ 0 | some t ↦ type_number t ]
kind_number (external_listen_thread address thread) = type_number tunnel_external
kind_number (relay_listen_thread address thread) = elim address.socket_factory [
  | udp ↦ 0
  | tcp_secure ↦ type_number tunnel_relay_tcp
  | udt_secure ↦ type_number tunnel_relay_udp
  | tcp_secure_proxy ↦ 0
]
kind_number (init_tunnel_started msg) = 0
kind_number (init_tunnel_complete msg) = 0
kind_number (try_connect_to msg) = 0
kind_number (peer_data p) = 0
kind_number (available_pear_types t) = 0
kind_number (local_listen_thread id t) = 0
kind_number (connect_thread a t) = 0
kind_number (external_connect_thread a t) = 0
kind_number (change_connect_address t a) = 0
kind_number (stop_thread t) = 0
kind_number (start_connector t) = 0
kind_number (close_socket t) = 0
kind_number (add_connector t c) = 0
kind_number (stop_connection s) = 0
kind_number (on_tunnel_connect_failed s) = 0
kind_number (on_tunnel_connected s t) = 0

-- One of the events starts a tunnel of this type.
unfoldable pub is_kind_started : TunnelType → List Event → Bool
is_kind_started type [] = false
is_kind_started type (e ∷ es) = kind_number e == type_number type || is_kind_started type es

-- A type that was set for the two sessions is the only one; where none was set, or `TUNNEL_ALL`, the
-- server tries the three that are not bound to a local UDP socket or a UDT relay.
abbrev pub is_tried : TunnelType → Bool
is_tried tunnel_all = false
is_tried tunnel_local_tcp = true
is_tried tunnel_local_udp = false
is_tried tunnel_external = true
is_tried tunnel_relay_tcp = true
is_tried tunnel_relay_udp = false

abbrev pub is_wanted : ServerState → Bytes → Bytes → TunnelType → TunnelType → Bool
is_wanted s one two set type =
    if type_number set == type_number tunnel_all
    then is_tried type
      && (check_tunnel_available_type s.avalable_peer_types one type
          && check_tunnel_available_type s.avalable_peer_types two type)
    else type_number set == type_number type

is_kind_started-append :
    (type : TunnelType) (es fs : List Event)
    → is_kind_started type (es ++ fs) ≡ (is_kind_started type es || is_kind_started type fs)
unfolding is_kind_started
is_kind_started-append type [] fs = refl
is_kind_started-append type (e ∷ es) fs = ground (arith, is_kind_started-append type es fs)

pub start_tunnels-is_wanted :
    (s : ServerState) (msg : InitTunnel) (set type : TunnelType) (around : Surroundings)
    → 0 < type_number type
    → is_kind_started type (start_tunnels s msg set around).1
      ≡ is_wanted s msg.own_session_id msg.ext_session_id set type
unfolding start_tunnels start_external start_relay is_started is_kind_started kind_number
start_tunnels-is_wanted s msg set tunnel_all around h = ground (arith, h)
start_tunnels-is_wanted s msg set tunnel_local_tcp around h = ground arith
start_tunnels-is_wanted s msg set tunnel_local_udp around h = ground arith
start_tunnels-is_wanted s msg set tunnel_external around h = ground arith
start_tunnels-is_wanted s msg set tunnel_relay_tcp around h = ground arith
start_tunnels-is_wanted s msg set tunnel_relay_udp around h = ground arith

-- The type that `SetTypeTunnel` or `onPeerData` set for two sessions, or else `TUNNEL_ALL`.
abbrev pub set_type : ServerState → Bytes → Bytes → TunnelType
set_type s one two = elim (chosen s.type_peers one two) [ none ↦ tunnel_all | some t ↦ t ]

pub started_kinds :
    (s : ServerState) (msg : InitTunnel) (around : Surroundings) (type : TunnelType)
    → IsValid s
    → pending s msg.own_session_id msg.ext_session_id ≡ none
    → 0 < type_number type
    → is_kind_started type (on_init_tunnel s msg around).1
      ≡ is_wanted s msg.own_session_id msg.ext_session_id
          (set_type s msg.own_session_id msg.ext_session_id)
          type
unfolding is_kind_started kind_number
started_kinds s msg around type v e h =
    let s' : ServerState = record s {
      tunnels_step = (add_object s.tunnels_step (new_step s msg around.now)).0;
    } in
    let set = type_or_all (found_peer s msg) in
    ground (
      arith,
      e,
      h,
      on_init_tunnel_free s msg around v,
      start_tunnels-is_wanted s' msg set type around h,
    )

swap-peer_eq : (one two : Bytes) → peer_eq (new_peer one two) (new_peer two one) ≡ true
unfolding peer_eq
swap-peer_eq one two = ground (arith, str_eq_refl one, str_eq_refl two)

swapped_pending : (s : ServerState) (one two : Bytes) → pending s two one ≡ pending s one two
swapped_pending s one two =
    ap time_of
      (lookup_same s.tunnels_step (step_of two one) (step_of one two) (swap-peer_eq two one))

swapped_chosen :
    (s : ServerState) (one two : Bytes)
    → IsValid s
    → chosen s.type_peers two one ≡ chosen s.type_peers one two
swapped_chosen s one two v = ap type_of (
    get_object-lookup s.type_peers (new_peer two one) v.peers_sorted
    ∙ lookup_same s.type_peers (new_peer two one) (new_peer one two) (swap-peer_eq two one)
    ∙ sym (get_object-lookup s.type_peers (new_peer one two) v.peers_sorted))

-- A request of a session for which no step is pending starts a tunnel of exactly those types that
-- are wanted of the two: the one type that was set for them, or else, of local TCP, external and
-- relay TCP, those that both sessions have available. Which of the two asks makes no difference.
pub on_init_tunnel-is_wanted :
    (before : List Request) (msg : InitTunnel) (around : Surroundings) (type : TunnelType)
    → pending (run new_state before) msg.own_session_id msg.ext_session_id ≡ none
    → 0 < type_number type
    → let s = run new_state before in
      let swapped : InitTunnel = record msg {
        own_session_id = msg.ext_session_id;
        ext_session_id = msg.own_session_id;
      } in
      let set = set_type s msg.own_session_id msg.ext_session_id in
      (is_kind_started type (on_init_tunnel s msg around).1
        ≡ is_wanted s msg.own_session_id msg.ext_session_id set type)
      × (is_kind_started type (on_init_tunnel s swapped around).1
          ≡ is_kind_started type (on_init_tunnel s msg around).1)
on_init_tunnel-is_wanted before msg around type e h =
    let s = run new_state before in
    let v = run-new-IsValid before in
    let swapped : InitTunnel = record msg {
      own_session_id = msg.ext_session_id;
      ext_session_id = msg.own_session_id;
    } in
    let one = started_kinds s msg around type v e h in
    let other =
      started_kinds s swapped around type v
        (ground (arith, e, swapped_pending s msg.own_session_id msg.ext_session_id)) h in
    (one, ground (arith, one, other, swapped_chosen s msg.own_session_id msg.ext_session_id v))
