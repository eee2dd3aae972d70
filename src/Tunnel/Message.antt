-- ===== src/Tunnel/Message.antt =====
-- The messages on tunnels of src/messages/client_server.proto, and what the tunnel module does to
-- the outside: threads, virtual functions and signals. A field that a message may leave out is an
-- `Option`.
use twainet.Prelude.{ℕ, Option, List}
use twainet.Prelude.Bytes.{Bytes}
use twainet.Tunnel.PeerType.{TunnelType, TypeConnection, PeerType}

pub record TunnelConnectAddress : Type 0 where
  pub ip : Bytes
  pub port : ℕ

pub record InitTunnel : Type 0 where
  pub ext_session_id : Bytes
  pub own_session_id : Bytes
  pub type : Option TunnelType
  pub address : Option TunnelConnectAddress

pub record TryConnectTo : Type 0 where
  pub ext_session_id : Bytes
  pub own_session_id : Bytes
  pub type : TunnelType
  pub adresses : List TunnelConnectAddress

-- `InitTunnelStarted` and `InitTunnelComplete`.
pub record SessionPair : Type 0 where
  pub ext_session_id : Bytes
  pub own_session_id : Bytes

pub record AvailablePearTypes : Type 0 where
  pub session_id : Bytes
  pub types : List TunnelType

-- The classes of `AnySocket` that the threads make.
pub data SocketKind : Type 0 where
  udp tcp_secure udt_secure tcp_secure_proxy : SocketKind

-- `TunnelServerListenAddress`.
pub record TunnelServerListenAddress : Type 0 where
  pub local_ip : Bytes
  pub local_port : ℕ
  pub session_id_one : Bytes
  pub session_id_two : Bytes
  pub id : Bytes
  pub socket_factory : SocketKind

-- `ConnectAddress`, less the local address, which is empty for every tunnel.
pub record ConnectAddress : Type 0 where
  pub module_name : Bytes
  pub id : Bytes
  pub ip : Bytes
  pub port : ℕ
  pub socket_factory : SocketKind

-- A thread is named by its address in memory.
pub data Event : Type 0 where
  -- Signals of the module to its connectors.
  init_tunnel : InitTunnel → Event
  init_tunnel_started init_tunnel_complete : SessionPair → Event
  try_connect_to : TryConnectTo → Event
  peer_data : PeerType → Event
  available_pear_types : AvailablePearTypes → Event
  -- Threads: `stop_thread` is `Stop` and `AddThread`.
  external_listen_thread relay_listen_thread : TunnelServerListenAddress → ℕ → Event
  local_listen_thread : Bytes → ℕ → Event
  connect_thread : ConnectAddress → TypeConnection → Event
  external_connect_thread : ConnectAddress → ℕ → Event
  change_connect_address : ℕ → ConnectAddress → Event
  stop_thread start_connector : ℕ → Event
  close_socket : ℕ → Event
  add_connector : ℕ → TypeConnection → Event
  stop_connection : Bytes → Event
  -- Virtual functions.
  on_tunnel_connect_failed : Bytes → Event
  on_tunnel_connected : Bytes → TypeConnection → Event
