-- ===== src/Tunnel/Server/Addresses.antt =====
-- What the listening thread of an external tunnel makes the server tell the two sessions.
use twainet.Prelude.{◌≡◌, true, false, none, some, List, [], ◌∷◌, arith}
use twainet.Prelude.Bytes.{Bytes, str_eq, str_eq_refl, str_eq_sound}
use twainet.StringMap.{map_find, map_insert, map_find-map_insert, map_find-map_erase}
use twainet.ObjectManager.{add_object}
use twainet.Tunnel.PeerType.{TunnelType, tunnel_external}
use twainet.Tunnel.Message.{
  Event, InitTunnel, TunnelConnectAddress, init_tunnel, try_connect_to, stop_thread,
}
use twainet.Tunnel.Server.{
  ServerState, Surroundings, type_or_all, on_init_tunnel, start_tunnels, is_started, found_peer,
  new_step, start_external, start_relay, new_server, step_order,
}
use twainet.Tunnel.Server.Listener.{
  CreatedServerListener, created_listener, on_created_external_listener, on_got_external_address,
  on_error_external_listener, delete_server,
}
use twainet.Tunnel.Server.Kinds.{is_kind_started, kind_number, start_tunnels-is_wanted}

start_tunnels-external :
    (s : ServerState) (msg : InitTunnel) (set : TunnelType) (around : Surroundings)
    → map_find s.servers around.external_id ≡ none
    → is_kind_started tunnel_external (start_tunnels s msg set around).1 ≡ true
    → map_find (start_tunnels s msg set around).0.servers around.external_id
      ≡ some (new_server msg around.external_thread around.now)
unfolding start_tunnels start_external start_relay is_started
start_tunnels-external s msg set around free e =
    let m =
      map_insert s.servers around.external_id (new_server msg around.external_thread around.now) in
    let relay = new_server msg around.relay_thread around.now in
    ground (
      arith,
      free,
      e,
      start_tunnels-is_wanted s msg set tunnel_external around (ground arith),
      str_eq_refl around.external_id,
      map_find-map_insert s.servers around.external_id
          (new_server msg around.external_thread around.now) around.external_id,
      map_find-map_insert m around.relay_id relay around.external_id,
    )

on_init_tunnel-external :
    (s : ServerState) (msg : InitTunnel) (around : Surroundings)
    → map_find s.servers around.external_id ≡ none
    → is_kind_started tunnel_external (on_init_tunnel s msg around).1 ≡ true
    → map_find (on_init_tunnel s msg around).0.servers around.external_id
      ≡ some (new_server msg around.external_thread around.now)
unfolding on_init_tunnel is_kind_started kind_number
on_init_tunnel-external s msg around free e =
    let s' : ServerState = record s {
      tunnels_step = (add_object s.tunnels_step (new_step s msg around.now)).0;
    } in
    ground (arith, e, start_tunnels-external s' msg (type_or_all (found_peer s msg)) around free)

-- What the thread of an external tunnel signals of one of its two sessions.
abbrev pub signalled : Surroundings → Bytes → TunnelConnectAddress → CreatedServerListener
signalled around session address = record {
  id = around.external_id;
  session_id = session;
  ip = address.ip;
  port = address.port;
}

abbrev pub told_to_init : Bytes → Bytes → TunnelConnectAddress → List Event
told_to_init own ext address =
    init_tunnel (record {
      own_session_id = own;
      ext_session_id = ext;
      type = some tunnel_external;
      address = some address;
    })
    ∷ []

abbrev pub told_to_connect : Bytes → Bytes → TunnelConnectAddress → List Event
told_to_connect own ext address =
    try_connect_to (record {
      own_session_id = own;
      ext_session_id = ext;
      type = tunnel_external;
      adresses = address ∷ [];
    })
    ∷ []

-- When a request of two different sessions starts an external tunnel under a new id, the listener
-- made for either session is told to that session, and the address that the thread finds of either
-- session is told to the other one. After an error of the listener its thread is stopped, and what
-- it still signals is told to none.
pub on_init_tunnel-told :
    (s : ServerState) (msg : InitTunnel) (around : Surroundings) (address : TunnelConnectAddress)
    → map_find s.servers around.external_id ≡ none
    → str_eq msg.own_session_id msg.ext_session_id ≡ false
    → is_kind_started tunnel_external (on_init_tunnel s msg around).1 ≡ true
    → let s1 = (on_init_tunnel s msg around).0 in
      let (s2, stopped) = on_error_external_listener s1 around.external_id in
      let own = msg.own_session_id in
      let ext = msg.ext_session_id in
      (on_created_external_listener s1 (signalled around own address)
        ≡ told_to_init own ext address)
      × (on_created_external_listener s1 (signalled around ext address)
          ≡ told_to_init ext own address)
      × (on_got_external_address s1 (signalled around own address)
          ≡ told_to_connect ext own address)
      × (on_got_external_address s1 (signalled around ext address)
          ≡ told_to_connect own ext address)
      × (stopped ≡ stop_thread around.external_thread ∷ [])
      × (on_created_external_listener s2 (signalled around own address) ≡ [])
      × (on_got_external_address s2 (signalled around ext address) ≡ [])
unfolding on_created_external_listener created_listener on_got_external_address
    on_error_external_listener delete_server
on_init_tunnel-told s msg around address free different e =
    let servers = (on_init_tunnel s msg around).0.servers in
    ground (
      arith,
      different,
      on_init_tunnel-external s msg around free e,
      str_eq_refl msg.own_session_id,
      str_eq_refl around.external_id,
      str_eq_sound msg.ext_session_id msg.own_session_id,
      map_find-map_erase servers around.external_id around.external_id,
    )
