-- ===== src/ClientServer/Connector/Tunnels.antt =====
-- From a client's wish for a tunnel to what the server tells the two clients.
use twainet.Prelude.{ℕ, ◌≡◌, false, none, some, List, [], ◌∷◌, ◌++◌, arith, if◌then◌else◌}
use twainet.Prelude.Bytes.{str_eq, str_eq_refl, str_eq_sound}
use twainet.StringMap.{map_find, map_find-map_insert}
use twainet.ObjectManager.{add_object}
use twainet.Ipc.Object.{object_order}
use twainet.Tunnel.PeerType.{TunnelType, tunnel_local_tcp, tunnel_local_udp, peer_order}
use twainet.Tunnel.Message.{InitTunnel, local_listen_thread}
use twainet.Tunnel.Client.{ClientState, create_local_listen_thread, new_tunnel}
use twainet.Tunnel.Client.Handler.{Resources, on_init_tunnel_message, on_init_tunnel_started}
use twainet.Tunnel.Server.{
  ServerState, Surroundings, step_order, on_init_tunnel, start_tunnels, start_external, start_relay,
  is_started, new_step, type_or_all, found_peer, started_both_ways,
}
use twainet.Tunnel.Server.Run.{Request, run, on_init_tunnel_free}
use twainet.Tunnel.Server.Pending.{new_state, pending, run-new-IsValid}
use twainet.Tunnel.Server.Kinds.{is_wanted, set_type}
use twainet.ClientServer.Connector.{
  ClientServerConnector, SessionAct, send_message, init_tunnel_msg, init_tunnel_started_msg,
  on_init_tunnel_signal, on_init_tunnel_started_signal, peer_module, client_ipc_name,
}
use twainet.ClientServer.Connector.Relay.{signal, signal_all}

-- The sessions of a request turned round.
abbrev pub turned : InitTunnel → InitTunnel
turned msg = record msg { own_session_id = msg.ext_session_id; ext_session_id = msg.own_session_id }

-- What the server sends at once to the client that `msg` has for its own session.
abbrev pub told_at_once : ServerState → InitTunnel → TunnelType → List SessionAct
told_at_once s msg set =
    let wanted = is_wanted s msg.own_session_id msg.ext_session_id set in
    send_message (
      init_tunnel_started_msg
        (record { own_session_id = msg.own_session_id; ext_session_id = msg.ext_session_id }))
    ∷ ((if wanted tunnel_local_tcp
          then send_message (init_tunnel_msg (record msg { type = some tunnel_local_tcp })) ∷ []
          else [])
        ++ (if wanted tunnel_local_udp
            then send_message (init_tunnel_msg (record msg { type = some tunnel_local_udp })) ∷ []
            else []))

signal_all-on_init_tunnel :
    (s : ServerState) (msg : InitTunnel) (set : TunnelType) (around : Surroundings)
    (c : ClientServerConnector)
    → peer_module c ≡ client_ipc_name
    → str_eq msg.own_session_id msg.ext_session_id ≡ false
    → c.own_session_id ≡ msg.own_session_id
    → signal_all c (started_both_ways msg ++ (start_tunnels s msg set around).1)
      ≡ told_at_once s msg set
unfolding signal_all signal on_init_tunnel_signal on_init_tunnel_started_signal start_tunnels
    start_external start_relay is_started
signal_all-on_init_tunnel s msg set around c a b d = ground (
  arith,
  a,
  b,
  d,
  str_eq_refl client_ipc_name,
  str_eq_refl msg.own_session_id,
  str_eq_sound msg.ext_session_id msg.own_session_id,
)

signal_all-turned :
    (s : ServerState) (msg : InitTunnel) (set : TunnelType) (around : Surroundings)
    (c : ClientServerConnector)
    → peer_module c ≡ client_ipc_name
    → str_eq msg.own_session_id msg.ext_session_id ≡ false
    → c.own_session_id ≡ msg.ext_session_id
    → signal_all c (started_both_ways msg ++ (start_tunnels s msg set around).1)
      ≡ told_at_once s (turned msg) set
unfolding signal_all signal on_init_tunnel_signal on_init_tunnel_started_signal start_tunnels
    start_external start_relay is_started
signal_all-turned s msg set around c a b d = ground (
  arith,
  a,
  b,
  d,
  str_eq_refl client_ipc_name,
  str_eq_refl msg.ext_session_id,
  str_eq_sound msg.ext_session_id msg.own_session_id,
)

signal_all-third :
    (s : ServerState) (msg : InitTunnel) (set : TunnelType) (around : Surroundings)
    (c : ClientServerConnector)
    → str_eq msg.own_session_id c.own_session_id ≡ false
    → str_eq msg.ext_session_id c.own_session_id ≡ false
    → signal_all c (started_both_ways msg ++ (start_tunnels s msg set around).1) ≡ []
unfolding signal_all signal on_init_tunnel_signal on_init_tunnel_started_signal start_tunnels
    start_external start_relay is_started
signal_all-third s msg set around c a b = ground (arith, a, b)

started_client :
    (c : ClientState) (msg : InitTunnel) (now : ℕ) (r : Resources)
    → map_find c.tunnels msg.ext_session_id ≡ none
    → let started =
        on_init_tunnel_started c
          (record { own_session_id = msg.own_session_id; ext_session_id = msg.ext_session_id })
          now in
      (on_init_tunnel_message started (record msg { type = some tunnel_local_tcp }) r).1
      ≡ local_listen_thread msg.ext_session_id r.made ∷ []
unfolding on_init_tunnel_started on_init_tunnel_message create_local_listen_thread
started_client c msg now r e = ground (
  arith,
  e,
  map_find-map_insert c.tunnels msg.ext_session_id (new_tunnel now) msg.ext_session_id,
  str_eq_refl msg.ext_session_id,
)

-- When a session for which no step is pending asks for a tunnel, the server at once sends to its
-- client and to the other one's, and to no third, first `InitTunnelStarted` and then an
-- `InitTunnel` for each local type that is wanted, each with the receiver's session as its own. A
-- client without an entry for the other session starts its local listener on the two.
pub on_init_tunnel-told_at_once :
    (before : List Request) (msg : InitTunnel) (around : Surroundings)
    (to_own to_ext to_third : ClientServerConnector) (client : ClientState) (now : ℕ)
    (r : Resources)
    → pending (run new_state before) msg.own_session_id msg.ext_session_id ≡ none
    → str_eq msg.own_session_id msg.ext_session_id ≡ false
    → peer_module to_own ≡ client_ipc_name
    → to_own.own_session_id ≡ msg.own_session_id
    → peer_module to_ext ≡ client_ipc_name
    → to_ext.own_session_id ≡ msg.ext_session_id
    → str_eq msg.own_session_id to_third.own_session_id ≡ false
    → str_eq msg.ext_session_id to_third.own_session_id ≡ false
    → map_find client.tunnels msg.ext_session_id ≡ none
    → let s = run new_state before in
      let set = set_type s msg.own_session_id msg.ext_session_id in
      let events = (on_init_tunnel s msg around).1 in
      let started =
        on_init_tunnel_started client
          (record { own_session_id = msg.own_session_id; ext_session_id = msg.ext_session_id })
          now in
      (signal_all to_own events ≡ told_at_once s msg set)
      × (signal_all to_ext events ≡ told_at_once s (turned msg) set)
      × (signal_all to_third events ≡ [])
      × ((on_init_tunnel_message started (record msg { type = some tunnel_local_tcp }) r).1
          ≡ local_listen_thread msg.ext_session_id r.made ∷ [])
on_init_tunnel-told_at_once before msg around to_own to_ext to_third client now r e a b c d f g h
      k =
    let s = run new_state before in
    let s' : ServerState = record s {
      tunnels_step = (add_object s.tunnels_step (new_step s msg around.now)).0;
    } in
    let set = type_or_all (found_peer s msg) in
    ground (
      arith,
      e,
      on_init_tunnel_free s msg around (run-new-IsValid before),
      signal_all-on_init_tunnel s' msg set around to_own b a c,
      signal_all-turned s' msg set around to_ext d a f,
      signal_all-third s' msg set around to_third g h,
      started_client client msg now r k,
    )
