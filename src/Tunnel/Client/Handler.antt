-- ===== src/Tunnel/Client/Handler.antt =====
-- src/cpp/lib/tunnel_lib/module/client_signal_handler.cpp: `ClientSignalHandler`, and the client's
-- part of `CheckTunnels`.
use twainet.Prelude.{ℕ, true, false, Option, none, some, List, [], ◌∷◌, ◌++◌, map, if◌then◌else◌}
use twainet.Prelude.Bytes.{Bytes}
use twainet.StringMap.{map_find, map_set, map_insert, map_erase}
use twainet.Tunnel.PeerType.{
  TunnelType, TypeConnection, tunnel_all, tunnel_local_tcp, tunnel_local_udp, tunnel_external,
  tunnel_relay_tcp, tunnel_relay_udp, local_tcp, local_udp, external, relay_tcp, relay_udp,
}
use twainet.Tunnel.Message.{
  Event, InitTunnel, TryConnectTo, TunnelConnectAddress, SessionPair, try_connect_to, stop_thread,
  add_connector, on_tunnel_connected, init_tunnel_complete, on_tunnel_connect_failed,
}
use twainet.Tunnel.Server.Listener.{is_old}
use twainet.Tunnel.Client.{
  TunnelConnect, ClientState, new_tunnel, stop_held, delete_tunnel, with_port,
  create_local_listen_thread, create_local_udp_socket, create_local_connect_thread,
  init_external_connect_thread, create_external_connect_thread, create_relay_connect_thread,
}

-- What the handler reads of its surroundings: the address of the thread or socket that it makes, the
-- port that `Bind` gives the socket, if it succeeds, and `GetLocalIps`.
pub record Resources : Type 0 where
  pub made : ℕ
  pub bound : Option ℕ
  pub local_ips : List Bytes

-- `msg.address().port()`, zero by default.
abbrev pub port_of : Option TunnelConnectAddress → ℕ
port_of none = 0
port_of (some address) = address.port

-- The branches of `onInitTunnel`.
abbrev pub init_tunnel_of :
    ClientState → TunnelType → Bytes → ℕ → Resources → ClientState × List Event
init_tunnel_of s tunnel_all ext port r = (s, [])
init_tunnel_of s tunnel_local_tcp ext port r = create_local_listen_thread s ext r.made
init_tunnel_of s tunnel_local_udp ext port r =
    create_local_udp_socket s ext r.made r.bound r.local_ips
init_tunnel_of s tunnel_external ext port r =
    init_external_connect_thread s ext s.server_ip port r.made
init_tunnel_of s tunnel_relay_tcp ext port r =
    (s, create_relay_connect_thread s ext s.server_ip port true)
init_tunnel_of s tunnel_relay_udp ext port r =
    (s, create_relay_connect_thread s ext s.server_ip port false)

-- `onInitTunnel`.
unfoldable pub on_init_tunnel_message :
    ClientState → InitTunnel → Resources → ClientState × List Event
on_init_tunnel_message s msg r = elim msg.type [
  | none ↦ (s, [])
  | some type ↦ init_tunnel_of s type msg.ext_session_id (port_of msg.address) r
]

-- A loop over the addresses: the first call on a null pointer ends it.
unfoldable pub connect_each :
    (TunnelConnectAddress → Option (List Event)) → List TunnelConnectAddress → Option (List Event)
connect_each connect [] = some []
connect_each connect (address ∷ addresses) =
    let rest = connect_each connect addresses in
    elim (connect address) [
      | none ↦ none
      | some events ↦ elim rest [ none ↦ none | some events' ↦ some (events ++ events') ]
    ]

-- The branches of `onTryConnectTo`.
abbrev pub try_connect_of :
    ClientState → TunnelType → Bytes → List TunnelConnectAddress → Option (List Event)
try_connect_of s tunnel_all ext addresses = some []
try_connect_of s tunnel_local_tcp ext addresses =
    connect_each (λ a. create_local_connect_thread s ext a.ip a.port true) addresses
try_connect_of s tunnel_local_udp ext addresses =
    connect_each (λ a. create_local_connect_thread s ext a.ip a.port false) addresses
try_connect_of s tunnel_external ext addresses =
    connect_each (λ a. create_external_connect_thread s ext a.ip a.port) addresses
try_connect_of s tunnel_relay_tcp ext addresses = some []
try_connect_of s tunnel_relay_udp ext addresses = some []

-- `onTryConnectTo`.
unfoldable pub on_try_connect_to : ClientState → TryConnectTo → Option (List Event)
on_try_connect_to s msg = try_connect_of s msg.type msg.ext_session_id msg.adresses

-- `onInitTunnelStarted`.
unfoldable pub on_init_tunnel_started : ClientState → SessionPair → ℕ → ClientState
on_init_tunnel_started s msg now = elim (map_find s.tunnels msg.ext_session_id) [
  | some tunnel ↦ s
  | none ↦ record s { tunnels = map_insert s.tunnels msg.ext_session_id (new_tunnel now) }
]

-- `onCreatedLocalListener`, with the id and the port of its message.
unfoldable pub on_created_local_listener : ClientState → Bytes → ℕ → List Bytes → List Event
on_created_local_listener s id port ips =
    try_connect_to (record {
      own_session_id = s.own_session_id;
      ext_session_id = id;
      type = tunnel_local_tcp;
      adresses = map (with_port port) ips;
    })
    ∷ []

-- `onErrorLocalListener`: it stops the listening thread of the tunnel without a test for null.
unfoldable pub on_error_local_listener : ClientState → Bytes → Option (ClientState × List Event)
on_error_local_listener s id = elim (map_find s.tunnels id) [
  | none ↦ some (s, [])
  | some tunnel ↦ elim tunnel.local_listen [
    | none ↦ none
    | some thread ↦ some (
      record s { tunnels = map_set s.tunnels id (record tunnel { local_listen = none }) },
      stop_thread thread ∷ [],
    )
  ]
]

-- `onAddLocalTCPConnector`, for a `TunnelConnector` at this address.
unfoldable on_add_local_tcp_connector : ℕ → List Event
on_add_local_tcp_connector connector = add_connector connector local_tcp ∷ []

-- `onAddLocalUDPConnector`, with the connector's id: its thread has taken the tunnel's socket.
unfoldable pub on_add_local_udp_connector : ClientState → Bytes → ℕ → ClientState × List Event
on_add_local_udp_connector s id connector = (
  elim (map_find s.tunnels id) [
    | none ↦ s
    | some tunnel ↦ record s {
      tunnels = map_set s.tunnels id (record tunnel { local_udp_socket = none });
    }
  ],
  add_connector connector local_udp ∷ [],
)

-- `onErrorExternalConnect`.
unfoldable pub on_error_external_connect : ClientState → Bytes → ClientState × List Event
on_error_external_connect s name = elim (map_find s.tunnels name) [
  | none ↦ (s, [])
  | some tunnel ↦ (
    record s { tunnels = map_set s.tunnels name (record tunnel { external_connect = none }) },
    stop_held tunnel.external_connect,
  )
]

-- `onAddExternalConnector`.
unfoldable on_add_external_connector : ℕ → List Event
on_add_external_connector connector = add_connector connector external ∷ []

-- `onAddRelayTCPConnector`.
unfoldable on_add_relay_tcp_connector : ℕ → List Event
on_add_relay_tcp_connector connector = add_connector connector relay_tcp ∷ []

-- `onAddRelayUDPConnector`.
unfoldable on_add_relay_udp_connector : ℕ → List Event
on_add_relay_udp_connector connector = add_connector connector relay_udp ∷ []

-- `onModuleName`, with the host of the name that it tells.
unfoldable pub on_tunnel_module_name : ClientState → Bytes → ClientState × List Event
on_tunnel_module_name s host = elim (map_find s.tunnels host) [
  | none ↦ (s, [])
  | some tunnel ↦ (record s { tunnels = map_erase s.tunnels host }, delete_tunnel tunnel)
]

-- `onConnected`.
unfoldable on_tunnel_connection : ClientState → Bytes → TypeConnection → List Event
on_tunnel_connection s id type =
    init_tunnel_complete (record { own_session_id = s.own_session_id; ext_session_id = id })
    ∷ on_tunnel_connected id type
    ∷ []

-- The loop of `CheckTunnels` over `m_tunnels`.
unfoldable pub check_connects :
    ℕ → List (Bytes × TunnelConnect) → List (Bytes × TunnelConnect) × List Event
check_connects now [] = ([], [])
check_connects now ((ext, tunnel) ∷ tunnels) =
    let (left, events) = check_connects now tunnels in
    if is_old now tunnel.creation_time
    then (left, delete_tunnel tunnel ++ (on_tunnel_connect_failed ext ∷ events))
    else ((ext, tunnel) ∷ left, events)
