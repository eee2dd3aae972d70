-- ===== src/Tunnel/Server/Listener.antt =====
-- The handlers of `ServerSignalHandler` for what its listening threads signal, and `CheckTunnels`.
use twainet.Prelude.{ℕ, ◌-◌, ltb, none, some, List, ◌∷◌, ◌++◌, if◌then◌else◌, [], Bool}
use twainet.Prelude.Bytes.{Bytes, str_eq}
use twainet.StringMap.{map_find, map_erase}
use twainet.ObjectManager.{remove_object}
use twainet.Tunnel.PeerType.{TunnelType, tunnel_external, tunnel_relay_tcp, tunnel_relay_udp}
use twainet.Tunnel.Message.{
  Event, TunnelConnectAddress, init_tunnel, try_connect_to, stop_thread, start_connector,
}
use twainet.Tunnel.Server.{TunnelStep, TunnelServer, ServerState, step_order}

-- `CreatedServerListenerMessage`.
pub record CreatedServerListener : Type 0 where
  pub id : Bytes
  pub session_id : Bytes
  pub ip : Bytes
  pub port : ℕ

-- The session that the thread's message names, if the tunnel has it first, and the second otherwise.
abbrev pub named_session : TunnelServer → Bytes → Bytes
named_session server session =
    if str_eq session server.session_id_one then server.session_id_one else server.session_id_two

-- The other one.
abbrev pub other_session : TunnelServer → Bytes → Bytes
other_session server session =
    if str_eq session server.session_id_one then server.session_id_two else server.session_id_one

abbrev pub listener_address : CreatedServerListener → TunnelConnectAddress
listener_address msg = record { ip = msg.ip; port = msg.port }

-- What the three handlers of a created listener do, each with its own type.
unfoldable pub created_listener : TunnelType → ServerState → CreatedServerListener → List Event
created_listener type s msg = elim (map_find s.servers msg.id) [
  | none ↦ []
  | some server ↦
      init_tunnel (record {
        own_session_id = named_session server msg.session_id;
        ext_session_id = other_session server msg.session_id;
        type = some type;
        address = some (listener_address msg);
      })
      ∷ []
]

-- `onCreatedExternalListener`.
unfoldable pub on_created_external_listener : ServerState → CreatedServerListener → List Event
on_created_external_listener s msg = created_listener tunnel_external s msg

-- `onCreatedRelayTCPListener`.
unfoldable on_created_relay_tcp_listener : ServerState → CreatedServerListener → List Event
on_created_relay_tcp_listener s msg = created_listener tunnel_relay_tcp s msg

-- `onCreatedRelayUDPListener`.
unfoldable on_created_relay_udp_listener : ServerState → CreatedServerListener → List Event
on_created_relay_udp_listener s msg = created_listener tunnel_relay_udp s msg

-- `onGotExternalAddress`: the other session is told to connect to the address.
unfoldable pub on_got_external_address : ServerState → CreatedServerListener → List Event
on_got_external_address s msg = elim (map_find s.servers msg.id) [
  | none ↦ []
  | some server ↦
      try_connect_to (record {
        own_session_id = other_session server msg.session_id;
        ext_session_id = named_session server msg.session_id;
        type = tunnel_external;
        adresses = listener_address msg ∷ [];
      })
      ∷ []
]

-- `delete it->second; m_servers.erase(it)` of the server of this id, if there is one.
unfoldable pub delete_server : ServerState → Bytes → ServerState × List Event
delete_server s id = elim (map_find s.servers id) [
  | none ↦ (s, [])
  | some server ↦ (record s { servers = map_erase s.servers id }, stop_thread server.thread ∷ [])
]

-- `onErrorExternalListener`.
unfoldable pub on_error_external_listener : ServerState → Bytes → ServerState × List Event
on_error_external_listener s id = delete_server s id

-- `onErrorRelayListener`.
unfoldable pub on_error_relay_listener : ServerState → Bytes → ServerState × List Event
on_error_relay_listener s id = delete_server s id

-- `onAddRelayServerConnector`, with the connector's id and its address.
unfoldable pub on_add_relay_server_connector : ServerState → Bytes → ℕ → ServerState × List Event
unfolding delete_server
on_add_relay_server_connector s id connector =
    let (s', stopped) = delete_server s id in (s', stopped ++ start_connector connector ∷ [])

-- `curTime - m_creationTime > 60`.
abbrev pub is_old : ℕ → ℕ → Bool
is_old now creation_time = ltb 60 (now - creation_time)

-- The loop of `CheckTunnels` over `m_servers`: what is left, and the threads that are stopped.
unfoldable pub check_servers :
    ℕ → List (Bytes × TunnelServer) → List (Bytes × TunnelServer) × List Event
check_servers now [] = ([], [])
check_servers now ((id, server) ∷ servers) =
    let (left, stopped) = check_servers now servers in
    if is_old now server.creation_time
    then (left, stop_thread server.thread ∷ stopped)
    else ((id, server) ∷ left, stopped)

-- The loop over the copy of `m_tunnelsStep`, which removes from the manager itself.
unfoldable pub check_steps : ℕ → List TunnelStep → List TunnelStep → List TunnelStep
check_steps now steps [] = steps
check_steps now steps (step ∷ copy) =
    check_steps now (if is_old now step.creation_time then (remove_object steps step).0 else steps)
      copy

-- The server's part of `CheckTunnels`.
unfoldable pub check_server_tunnels : ServerState → ℕ → ServerState × List Event
check_server_tunnels s now =
    let (left, stopped) = check_servers now s.servers in
    (
      record s { servers = left; tunnels_step = check_steps now s.tunnels_step s.tunnels_step },
      stopped,
    )
