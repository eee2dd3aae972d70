-- ===== src/Tunnel/Server.antt =====
-- src/cpp/lib/tunnel_lib/module/server_signal_handler.cpp: `ServerSignalHandler`, the server's side of
-- a tunnel between two of its clients, and the server's part of `CheckTunnels` in
-- src/cpp/lib/tunnel_lib/module/tunnel_module.cpp. The state is the fields of `TunnelModule` that the
-- server uses. The clock, the GUIDs, the addresses of new threads and the computer's first local ip
-- are arguments.
pub mod Listener
pub mod Steps
pub mod Distinct
pub mod Run
pub mod Valid
pub mod Pending
pub mod Once
pub mod Kinds
pub mod Addresses
mod Tests
use twainet.Prelude.{
  ℕ, ◌==◌, Bool, ◌&&◌, ◌||◌, Option, none, some, List, ◌∷◌, ◌++◌, not, if◌then◌else◌, [],
}
use twainet.Prelude.Bytes.{Bytes}
use twainet.Order.{Order, inherited-IsOrder}
use twainet.StringMap.{map_insert}
use twainet.ObjectManager.{add_object, remove_object, get_object, update_object}
use twainet.Tunnel.PeerType.{
  PeerType, TunnelType, AvailableTypes, tunnel_all, tunnel_local_tcp, tunnel_local_udp,
  tunnel_external, tunnel_relay_tcp, tunnel_relay_udp, peer_eq, peer_lt, peer-IsOrder, peer_order,
  types_order, new_peer, peer_or, type_number, check_tunnel_available_type,
}
use twainet.Tunnel.Message.{
  Event, InitTunnel, SessionPair, TunnelServerListenAddress, SocketKind, udp, tcp_secure,
  udt_secure, init_tunnel, init_tunnel_started, external_listen_thread, relay_listen_thread,
  AvailablePearTypes,
}

-- `TunnelStep`.
pub record TunnelStep : Type 0 where
  pub peer : PeerType
  pub creation_time : ℕ

-- `TunnelStep` inherits the operators of `PeerType`.
abbrev pub step_lt : TunnelStep → TunnelStep → Bool
step_lt a b = peer_lt a.peer b.peer

abbrev pub step_eq : TunnelStep → TunnelStep → Bool
step_eq a b = peer_eq a.peer b.peer

instance abbrev pub step_order : Order TunnelStep
step_order = record {
  lt = step_lt;
  eqb = step_eq;
  lawful = inherited-IsOrder peer-IsOrder (λ (s : TunnelStep). s.peer);
}

pub record TunnelServer : Type 0 where
  pub session_id_one : Bytes
  pub session_id_two : Bytes
  pub thread : ℕ
  pub creation_time : ℕ

pub record ServerState : Type 0 where
  pub type_peers : List PeerType
  pub avalable_peer_types : List AvailableTypes
  pub tunnels_step : List TunnelStep
  pub servers : List (Bytes × TunnelServer)

-- What a call reads of its surroundings: the time, and a GUID and a thread's address for each of
-- the two threads that it may make.
pub record Surroundings : Type 0 where
  pub now : ℕ
  pub external_id : Bytes
  pub external_thread : ℕ
  pub relay_id : Bytes
  pub relay_thread : ℕ
  pub first_local_ip : Bytes

-- `onPeerData`.
unfoldable pub on_peer_data : ServerState → PeerType → ServerState
on_peer_data s peer =
    let (added, new) = add_object s.type_peers peer in
    record s { type_peers = if not new then (update_object added peer).0 else added }

-- `onAvailablePearTypes`.
pub on_available_pear_types : ServerState → AvailablePearTypes → ServerState
on_available_pear_types s msg =
    let types : AvailableTypes = record { session_id = msg.session_id; types = msg.types } in
    let (added, new) = add_object s.avalable_peer_types types in
    record s { avalable_peer_types = if not new then (update_object added types).0 else added }

-- The two signals of a tunnel, one to each session.
abbrev pub both_ways : InitTunnel → TunnelType → List Event
both_ways msg type =
    init_tunnel (record msg { type = some type })
    ∷ init_tunnel (record msg {
      type = some type;
      own_session_id = msg.ext_session_id;
      ext_session_id = msg.own_session_id;
    })
    ∷ []

-- `type == TUNNEL_ALL && CheckTunnelAvailableType(...) && CheckTunnelAvailableType(...)`, or the type
-- itself.
unfoldable pub is_started : ServerState → InitTunnel → TunnelType → TunnelType → Bool
is_started s msg chosen type =
    type_number chosen == type_number type
    || (type_number chosen == 0
        && (check_tunnel_available_type s.avalable_peer_types msg.ext_session_id type
            && check_tunnel_available_type s.avalable_peer_types msg.own_session_id type))

-- The local address of a listener.
abbrev pub listen_address : InitTunnel → Bytes → Bytes → SocketKind → TunnelServerListenAddress
listen_address msg default_ip id kind = record {
  local_ip = elim msg.address [ none ↦ default_ip | some a ↦ a.ip ];
  local_port = elim msg.address [ none ↦ 0 | some a ↦ a.port ];
  session_id_one = msg.own_session_id;
  session_id_two = msg.ext_session_id;
  id = id;
  socket_factory = kind;
}

-- `TunnelServer(one, two)` with its thread.
abbrev pub new_server : InitTunnel → ℕ → ℕ → TunnelServer
new_server msg thread now = record {
  session_id_one = msg.own_session_id;
  session_id_two = msg.ext_session_id;
  thread = thread;
  creation_time = now;
}

-- The external connection of `onInitTunnel`.
unfoldable pub start_external : ServerState → InitTunnel → Surroundings → ServerState × List Event
start_external s msg around = (
  record s {
    servers =
        map_insert s.servers around.external_id (new_server msg around.external_thread around.now);
  },
  external_listen_thread (listen_address msg [] around.external_id udp) around.external_thread ∷ [],
)

-- The two relay connections.
unfoldable pub start_relay :
    ServerState → InitTunnel → Surroundings → Bytes → SocketKind → ServerState × List Event
start_relay s msg around default_ip kind = (
  record s {
    servers = map_insert s.servers around.relay_id (new_server msg around.relay_thread around.now);
  },
  relay_listen_thread (listen_address msg default_ip around.relay_id kind) around.relay_thread ∷ [],
)

-- `onInitTunnel` from the local connection on.
unfoldable pub start_tunnels :
    ServerState → InitTunnel → TunnelType → Surroundings → ServerState × List Event
unfolding start_external start_relay
start_tunnels s msg type around =
    let local_tcp =
      if is_started s msg type tunnel_local_tcp then both_ways msg tunnel_local_tcp else [] in
    let local_udp =
      if type_number type == type_number tunnel_local_udp
      then both_ways msg tunnel_local_udp
      else [] in
    let (s1, external) =
      if is_started s msg type tunnel_external then start_external s msg around else (s, []) in
    let (s2, relay_tcp) =
      if is_started s1 msg type tunnel_relay_tcp
      then start_relay s1 msg around [] tcp_secure
      else (s1, []) in
    let (s3, relay_udp) =
      if type_number type == type_number tunnel_relay_udp
      then start_relay s2 msg around around.first_local_ip udt_secure
      else (s2, []) in
    (s3, local_tcp ++ (local_udp ++ (external ++ (relay_tcp ++ relay_udp))))

-- `peerType.has_type() ? peerType.type() : TUNNEL_ALL` of the peers that are found: an unset type reads
-- as the first, `TUNNEL_ALL`.
abbrev pub type_or_all : Option PeerType → TunnelType
type_or_all none = tunnel_all
type_or_all (some p) = p.tunnel_type

-- `InitTunnelStarted` to both sessions.
abbrev pub started_both_ways : InitTunnel → List Event
started_both_ways msg =
    init_tunnel_started
      (record { own_session_id = msg.own_session_id; ext_session_id = msg.ext_session_id })
    ∷ init_tunnel_started
        (record { own_session_id = msg.ext_session_id; ext_session_id = msg.own_session_id })
    ∷ []

-- The peers that `GetObject` finds for the message's sessions.
abbrev pub found_peer : ServerState → InitTunnel → Option PeerType
found_peer s msg = get_object s.type_peers (new_peer msg.own_session_id msg.ext_session_id)

-- The step that is made of them.
abbrev pub new_step : ServerState → InitTunnel → ℕ → TunnelStep
new_step s msg now = record {
  peer = record (peer_or (new_peer msg.own_session_id msg.ext_session_id) (found_peer s msg)) {
    tunnel_type = type_or_all (found_peer s msg);
  };
  creation_time = now;
}

-- `onInitTunnel`.
pub on_init_tunnel : ServerState → InitTunnel → Surroundings → ServerState × List Event
on_init_tunnel s msg around =
    let (steps, added) = add_object s.tunnels_step (new_step s msg around.now) in
    let (s', events) =
      start_tunnels (record s { tunnels_step = steps }) msg (type_or_all (found_peer s msg))
        around in
    if not added then (s, []) else (s', started_both_ways msg ++ events)

-- `onInitTunnelComplete`.
pub on_init_tunnel_complete : ServerState → SessionPair → ServerState
on_init_tunnel_complete s msg =
    let step : TunnelStep = record {
      peer = new_peer msg.own_session_id msg.ext_session_id;
      creation_time = 0;
    } in
    record s { tunnels_step = (remove_object s.tunnels_step step).0 }
