-- ===== src/Tunnel/Client.antt =====
-- src/cpp/lib/tunnel_lib/module/tunnel_module.cpp and tunnel_containers.cpp: the client's side of a
-- tunnel, that is the entry that it keeps for each other session and the threads that it makes. A
-- result `none` is a call on a null pointer. The clock, the computer's ips, what `Bind` answers and
-- the addresses of what is made by `new` are arguments.
pub mod Handler
pub mod Threads
pub mod Failures
pub mod Accounts
pub mod Run
mod Tests
use twainet.Prelude.{ℕ, Bool, Option, none, some, List, [], ◌∷◌, ◌++◌, map, if◌then◌else◌}
use twainet.Prelude.Bytes.{Bytes, codes}
use twainet.StringMap.{map_find, map_set}
use twainet.ObjectManager.{get_object}
use twainet.Ipc.ObjectName.{IpcObjectName, plain_name}
use twainet.Ipc.Object.{IpcObject, plain_object, object_order}
use twainet.Tunnel.PeerType.{
  TunnelType, TypeConnection, tunnel_local_tcp, tunnel_local_udp, tunnel_external, tunnel_relay_tcp,
  tunnel_relay_udp, unknown, local_tcp, local_udp, external, relay_tcp, relay_udp, new_peer,
}
use twainet.Tunnel.Message.{
  Event, TunnelConnectAddress, ConnectAddress, SocketKind, udp, tcp_secure, udt_secure,
  tcp_secure_proxy, init_tunnel, try_connect_to, peer_data, available_pear_types,
  local_listen_thread, connect_thread, external_connect_thread, change_connect_address, stop_thread,
  close_socket, stop_connection, on_tunnel_connect_failed,
}

pub record TunnelConnect : Type 0 where
  pub local_listen : Option ℕ
  pub local_udp_socket : Option ℕ
  pub external_connect : Option ℕ
  pub creation_time : ℕ

pub record ClientState : Type 0 where
  pub own_session_id : Bytes
  pub server_ip : Bytes
  pub is_use_proxy : Bool
  pub modules : List IpcObject
  pub tunnels : List (Bytes × TunnelConnect)

-- `m_tunnelIPCName`.
abbrev pub tunnel_ipc_name : Bytes
tunnel_ipc_name = codes "Tunnel"

-- `TunnelConnect(sessionId)`.
abbrev pub new_tunnel : ℕ → TunnelConnect
new_tunnel now = record {
  local_listen = none;
  local_udp_socket = none;
  external_connect = none;
  creation_time = now;
}

-- `if(thread) { thread->Stop(); AddThread(thread); }`.
abbrev pub stop_held : Option ℕ → List Event
stop_held none = []
stop_held (some thread) = stop_thread thread ∷ []

-- `~TunnelConnect`.
pub delete_tunnel : TunnelConnect → List Event
delete_tunnel tunnel =
    stop_held tunnel.local_listen
    ++ (stop_held tunnel.external_connect
        ++ elim tunnel.local_udp_socket [ none ↦ [] | some socket ↦ close_socket socket ∷ [] ])

-- The `PeerData` that `InitNewTunnel` sends for a type that is known.
abbrev pub peer_data_of : ClientState → Bytes → TypeConnection → List Event
peer_data_of s ext unknown = []
peer_data_of s ext local_tcp =
    peer_data (record (new_peer s.own_session_id ext) { tunnel_type = tunnel_local_tcp }) ∷ []
peer_data_of s ext local_udp =
    peer_data (record (new_peer s.own_session_id ext) { tunnel_type = tunnel_local_udp }) ∷ []
peer_data_of s ext external =
    peer_data (record (new_peer s.own_session_id ext) { tunnel_type = tunnel_external }) ∷ []
peer_data_of s ext relay_tcp =
    peer_data (record (new_peer s.own_session_id ext) { tunnel_type = tunnel_relay_tcp }) ∷ []
peer_data_of s ext relay_udp =
    peer_data (record (new_peer s.own_session_id ext) { tunnel_type = tunnel_relay_udp }) ∷ []

-- `InitNewTunnel`.
unfoldable pub init_new_tunnel : ClientState → Bytes → TypeConnection → List Event
init_new_tunnel s ext type =
    let name : IpcObjectName = record (plain_name tunnel_ipc_name) { host_name = ext } in
    elim (get_object s.modules (plain_object name)) [
      | some object ↦ on_tunnel_connect_failed ext ∷ []
      | none ↦
          peer_data_of s ext type
          ++ init_tunnel (record {
            own_session_id = s.own_session_id;
            ext_session_id = ext;
            type = none;
            address = some (record { ip = s.server_ip; port = 0 });
          })
            ∷ []
    ]

-- `DestroyTunnel`.
unfoldable destroy_tunnel : Bytes → List Event
destroy_tunnel ext = stop_connection ext ∷ []

-- `SetTunnelAvailableType`.
unfoldable set_tunnel_available_type : ClientState → List TunnelType → List Event
set_tunnel_available_type s types =
    available_pear_types (record { session_id = s.own_session_id; types = types }) ∷ []

-- `CreateLocalListenThread`.
unfoldable pub create_local_listen_thread : ClientState → Bytes → ℕ → ClientState × List Event
create_local_listen_thread s ext thread = elim (map_find s.tunnels ext) [
  | none ↦ (s, [])
  | some tunnel ↦ (
    record s { tunnels = map_set s.tunnels ext (record tunnel { local_listen = some thread }) },
    stop_held tunnel.local_listen ++ local_listen_thread ext thread ∷ [],
  )
]

abbrev pub with_port : ℕ → Bytes → TunnelConnectAddress
with_port port ip = record { ip = ip; port = port }

-- `CreateLocalUDPSocket`: `bound` is the port that `GetIPPort` tells, where `Bind` succeeds.
pub create_local_udp_socket :
    ClientState → Bytes → ℕ → Option ℕ → List Bytes → ClientState × List Event
create_local_udp_socket s ext socket bound ips = elim (map_find s.tunnels ext) [
  | none ↦ (s, [])
  | some tunnel ↦ (
    record s { tunnels = map_set s.tunnels ext (record tunnel { local_udp_socket = some socket }) },
    elim bound [
      | none ↦ []
      | some port ↦
          try_connect_to (record {
            own_session_id = s.own_session_id;
            ext_session_id = ext;
            type = tunnel_local_udp;
            adresses = map (with_port port) ips;
          })
          ∷ []
    ],
  )
]

abbrev pub connect_address : Bytes → Bytes → ℕ → SocketKind → ConnectAddress
connect_address ext ip port kind = record {
  module_name = ext;
  id = ext;
  ip = ip;
  port = port;
  socket_factory = kind;
}

-- The factory of the TCP threads.
abbrev pub tcp_factory : ClientState → SocketKind
tcp_factory s = if s.is_use_proxy then tcp_secure_proxy else tcp_secure

-- `CreateLocalConnectThread`: without TCP it takes the socket of the tunnel's `UDPSocket`.
unfoldable pub create_local_connect_thread :
    ClientState → Bytes → Bytes → ℕ → Bool → Option (List Event)
create_local_connect_thread s ext ip port is_tcp = elim (map_find s.tunnels ext) [
  | none ↦ some []
  | some tunnel ↦
      if is_tcp
      then some (connect_thread (connect_address ext ip port (tcp_factory s)) local_tcp ∷ [])
      else elim tunnel.local_udp_socket [
        | none ↦ none
        | some socket ↦
            some (connect_thread (connect_address ext ip port udt_secure) local_udp ∷ [])
      ]
]

-- `InitExternalConnectThread`.
pub init_external_connect_thread : ClientState → Bytes → Bytes → ℕ → ℕ → ClientState × List Event
init_external_connect_thread s ext ip port thread = elim (map_find s.tunnels ext) [
  | none ↦ (s, [])
  | some tunnel ↦
      let address : ConnectAddress = record (connect_address ext ip port udp) {
        module_name = s.own_session_id;
      } in
      (
        record s {
          tunnels = map_set s.tunnels ext (record tunnel { external_connect = some thread });
        },
        stop_held tunnel.external_connect ++ external_connect_thread address thread ∷ [],
      )
]

-- `CreateExternalConnectThread`.
pub create_external_connect_thread : ClientState → Bytes → Bytes → ℕ → Option (List Event)
create_external_connect_thread s ext ip port = elim (map_find s.tunnels ext) [
  | none ↦ some []
  | some tunnel ↦ elim tunnel.external_connect [
    | none ↦ none
    | some thread ↦
        some (change_connect_address thread (connect_address ext ip port udt_secure) ∷ [])
  ]
]

-- `CreateRelayConnectThread`.
pub create_relay_connect_thread : ClientState → Bytes → Bytes → ℕ → Bool → List Event
create_relay_connect_thread s ext ip port is_tcp = elim (map_find s.tunnels ext) [
  | none ↦ []
  | some tunnel ↦
      if is_tcp
      then connect_thread (connect_address ext ip port (tcp_factory s)) relay_tcp ∷ []
      else connect_thread (connect_address ext ip port udt_secure) relay_udp ∷ []
]
