-- ===== src/ClientServer/Connector/Relay.antt =====
-- How the signals of a tunnel module reach the other modules: `SubscribeModule`, the slots of the
-- connectors, and the handlers of what they send.
use twainet.Prelude.{ℕ, ◌≡◌, refl, true, false, some, List, [], ◌∷◌, ◌++◌, map, arith}
use twainet.Prelude.Bytes.{Bytes, str_eq, str_eq_refl}
use twainet.StringMap.{map_find}
use twainet.Tunnel.PeerType.{tunnel_local_tcp, local_tcp}
use twainet.Tunnel.Message.{
  TryConnectTo, Event, init_tunnel, init_tunnel_started, init_tunnel_complete,
  external_listen_thread, relay_listen_thread, try_connect_to, peer_data, available_pear_types,
  local_listen_thread, connect_thread, external_connect_thread, change_connect_address, stop_thread,
  start_connector, close_socket, add_connector, stop_connection, on_tunnel_connect_failed,
  on_tunnel_connected,
}
use twainet.Tunnel.Client.{
  TunnelConnect, ClientState, connect_address, tcp_factory, create_local_connect_thread, with_port,
}
use twainet.Tunnel.Client.Handler.{on_created_local_listener, on_try_connect_to, connect_each}
use twainet.ClientServer.Connector.{
  ClientServerConnector, SessionAct, send_message, raise_signal, raise_ipc_signal,
  try_connect_to_msg, on_init_tunnel_signal, on_init_tunnel_complete_signal,
  on_init_tunnel_started_signal, on_try_connect_to_message, on_try_connect_to_signal,
  on_peer_data_signal, on_available_pear_types_signal, on_message_try_connect_to, peer_module,
  server_ipc_name, client_ipc_name,
}

-- `SubscribeModule`: the slot of each signal of the tunnel module.
unfoldable pub signal : ClientServerConnector → Event → List SessionAct
signal c (init_tunnel msg) = on_init_tunnel_signal c msg
signal c (init_tunnel_started msg) = on_init_tunnel_started_signal c msg
signal c (init_tunnel_complete msg) = on_init_tunnel_complete_signal c msg
signal c (try_connect_to msg) = on_try_connect_to_signal c msg
signal c (peer_data p) = on_peer_data_signal c p
signal c (available_pear_types msg) = on_available_pear_types_signal c msg
signal c (external_listen_thread a t) = []
signal c (relay_listen_thread a t) = []
signal c (local_listen_thread id t) = []
signal c (connect_thread a t) = []
signal c (external_connect_thread a t) = []
signal c (change_connect_address t a) = []
signal c (stop_thread t) = []
signal c (start_connector t) = []
signal c (close_socket t) = []
signal c (add_connector t k) = []
signal c (stop_connection s) = []
signal c (on_tunnel_connect_failed s) = []
signal c (on_tunnel_connected s k) = []

unfoldable pub signal_all : ClientServerConnector → List Event → List SessionAct
signal_all c [] = []
signal_all c (e ∷ es) = signal c e ++ signal_all c es

-- The threads with which a client tries each address of a local listener.
abbrev pub tried_threads : ClientState → Bytes → ℕ → List Bytes → List Event
tried_threads s ext port ips =
    map (λ ip. connect_thread (connect_address ext ip port (tcp_factory s)) local_tcp) ips

connect_each-tried_threads :
    (s : ClientState) (ext : Bytes) (port : ℕ) (ips : List Bytes) {tunnel : TunnelConnect}
    → map_find s.tunnels ext ≡ some tunnel
    → connect_each
        (λ a. create_local_connect_thread s ext a.ip a.port true)
        (map (with_port port) ips)
      ≡ some (tried_threads s ext port ips)
unfolding connect_each create_local_connect_thread
connect_each-tried_threads s ext port [] e = refl
connect_each-tried_threads s ext port (ip ∷ ips) {tunnel} e =
    ground (arith, e, connect_each-tried_threads s ext port ips {tunnel = tunnel} e)

pub server_not_client : str_eq server_ipc_name client_ipc_name ≡ false
unfolding str_eq
server_not_client = refl

-- A client's local listener for another session is told to the server, which tells it, with the
-- sessions turned round, to that session and to no other; and that client, if it has an entry for
-- the first one, starts one thread for each local ip of the first one, at the listener's port.
pub on_created_local_listener-reaches :
    (client other : ClientState) (id : Bytes) (port : ℕ) (ips : List Bytes)
    (to_server from_client to_other to_third at_other : ClientServerConnector)
    {tunnel : TunnelConnect}
    → peer_module to_server ≡ server_ipc_name
    → to_server.own_session_id ≡ client.own_session_id
    → peer_module from_client ≡ client_ipc_name
    → peer_module to_other ≡ client_ipc_name
    → to_other.own_session_id ≡ id
    → str_eq id to_third.own_session_id ≡ false
    → peer_module at_other ≡ server_ipc_name
    → map_find other.tunnels client.own_session_id ≡ some tunnel
    → let sent : TryConnectTo = record {
      own_session_id = client.own_session_id;
      ext_session_id = id;
      type = tunnel_local_tcp;
      adresses = map (with_port port) ips;
    } in
      let told : TryConnectTo = record sent {
        own_session_id = id;
        ext_session_id = client.own_session_id;
      } in
      (signal_all to_server (on_created_local_listener client id port ips)
        ≡ send_message (try_connect_to_msg sent) ∷ [])
      × (on_message_try_connect_to from_client sent
          ≡ raise_ipc_signal (try_connect_to_msg told) ∷ [])
      × (on_try_connect_to_message to_other told ≡ send_message (try_connect_to_msg told) ∷ [])
      × (on_try_connect_to_message to_third told ≡ [])
      × (on_message_try_connect_to at_other told ≡ raise_signal (try_connect_to_msg told) ∷ [])
      × (on_try_connect_to other told ≡ some (tried_threads other client.own_session_id port ips))
unfolding signal_all signal on_created_local_listener on_try_connect_to_signal
    on_message_try_connect_to on_try_connect_to_message on_try_connect_to
on_created_local_listener-reaches client other id port ips to_server from_client to_other to_third
      at_other {tunnel} a b c d e f g h =
    ground (
      arith,
      a,
      b,
      c,
      d,
      e,
      f,
      g,
      server_not_client,
      str_eq_refl server_ipc_name,
      str_eq_refl client_ipc_name,
      str_eq_refl client.own_session_id,
      str_eq_refl id,
      connect_each-tried_threads other client.own_session_id port ips {tunnel = tunnel} h,
    )
