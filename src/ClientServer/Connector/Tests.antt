-- ===== src/ClientServer/Connector/Tests.antt =====
-- The theorems on the connectors of a server with two clients.
use twainet.Prelude.{
  ◌&&◌, ◌≡◌, ◌==◌, refl, true, false, not, none, some, List, [], ◌∷◌, map, arith, if◌then◌else◌,
}
use twainet.Prelude.Bytes.{Bytes, codes, str_eq}
use twainet.Utils.{c_str, delimit_string, delimit_loop, find, find_in, is_prefix}
use twainet.ObjectManager.{lower_bound, get_object}
use twainet.ObjectManager.Refinement.{lookup}
use twainet.StringMap.{map_find}
use twainet.Ipc.ObjectName.{get_ipc_name, from_strings, plain_name}
use twainet.Tunnel.PeerType.{
  tunnel_local_tcp, tunnel_external, type_number, tunnel_type_of, relay_tcp,
}
use twainet.Tunnel.Message.{InitTunnel, TryConnectTo, local_listen_thread}
use twainet.Tunnel.Client.{ClientState, new_tunnel, init_new_tunnel, with_port}
use twainet.Tunnel.Client.Handler.{
  Resources, on_init_tunnel_started, on_init_tunnel_message, on_created_local_listener,
  on_try_connect_to,
}
use twainet.Tunnel.Client.Run.{new_client}
use twainet.Tunnel.Server.{Surroundings, on_init_tunnel, on_peer_data}
use twainet.Tunnel.Server.Run.{run}
use twainet.Tunnel.Server.Pending.{new_state}
use twainet.Tunnel.Server.Kinds.{set_type, is_kind_started}
use twainet.ClientServer.Connector.{
  ClientServerConnector, send_message, raise_signal, raise_ipc_signal, login_msg, peer_data_msg,
  init_tunnel_msg, try_connect_to_msg, on_session_start, on_message_try_connect_to,
  on_try_connect_to_message, peer_module, server_ipc_name, client_ipc_name,
}
use twainet.ClientServer.Module.{ClientServerModule, new_client_server, add_user}
use twainet.ClientServer.Module.Handler.{on_login_result, on_login}
use twainet.ClientServer.Connector.Login.{
  on_message_login, on_message_login_result, login_answers, is_stopped, login_agrees,
}
use twainet.ClientServer.Connector.Relay.{
  signal_all, tried_threads, on_created_local_listener-reaches,
}
use twainet.ClientServer.Connector.Tunnels.{told_at_once, turned, on_init_tunnel-told_at_once}
use twainet.ClientServer.Connector.Requests.{
  wished_peer, wished_tunnel, init_new_tunnel-is_kind_started,
}

-- A connector with this id, of this session.
abbrev conn : Bytes → Bytes → ClientServerConnector
conn id session = record {
  base = record {
    id = id;
    access_id = [];
    connector_id = codes "c1";
    module_name = plain_name (codes "Chat");
    is_coordinator = false;
    is_connected = true;
    is_notify_remove = false;
    is_send_ipc_objects = false;
    is_exist = false;
    rand = codes "r";
    checker = true;
    manager = true;
    internal_connections = [];
  };
  own_session_id = session;
  user_name = codes "ann";
  password = codes "secret";
}

abbrev to_ann : ClientServerConnector
to_ann = conn (codes "Client.s1") (codes "s1")

abbrev to_bob : ClientServerConnector
to_bob = conn (codes "Client.s2") (codes "s2")

abbrev to_cid : ClientServerConnector
to_cid = conn (codes "Client.s3") (codes "s3")

abbrev ann_to_server : ClientServerConnector
ann_to_server = conn (codes "Server.s1") (codes "s1")

abbrev bob_to_server : ClientServerConnector
bob_to_server = conn (codes "Server.s2") (codes "s2")

to_ann_client : peer_module to_ann ≡ client_ipc_name
unfolding get_ipc_name from_strings delimit_string delimit_loop find c_str find_in is_prefix
to_ann_client = refl

to_bob_client : peer_module to_bob ≡ client_ipc_name
unfolding get_ipc_name from_strings delimit_string delimit_loop find c_str find_in is_prefix
to_bob_client = refl

ann_server : peer_module ann_to_server ≡ server_ipc_name
unfolding get_ipc_name from_strings delimit_string delimit_loop find c_str find_in is_prefix
ann_server = refl

bob_server : peer_module bob_to_server ≡ server_ipc_name
unfolding get_ipc_name from_strings delimit_string delimit_loop find c_str find_in is_prefix
bob_server = refl

abbrev ann : ClientState
ann = new_client (codes "s1") (codes "10.0.0.9") false []

abbrev bob : ClientState
bob = record (new_client (codes "s2") (codes "10.0.0.9") false []) {
  tunnels = (codes "s1", new_tunnel 100) ∷ [];
}

abbrev ips : List Bytes
ips = codes "10.0.0.1" ∷ codes "10.0.0.2" ∷ []

on_created_local_listener-reaches_example :
    let sent : TryConnectTo = record {
      own_session_id = codes "s1";
      ext_session_id = codes "s2";
      type = tunnel_local_tcp;
      adresses = map (with_port 5000) ips;
    } in
    let told : TryConnectTo = record sent {
      own_session_id = codes "s2";
      ext_session_id = codes "s1";
    } in
    (signal_all ann_to_server (on_created_local_listener ann (codes "s2") 5000 ips)
      ≡ send_message (try_connect_to_msg sent) ∷ [])
    × (on_message_try_connect_to to_ann sent ≡ raise_ipc_signal (try_connect_to_msg told) ∷ [])
    × (on_try_connect_to_message to_bob told ≡ send_message (try_connect_to_msg told) ∷ [])
    × (on_try_connect_to_message to_cid told ≡ [])
    × (on_message_try_connect_to bob_to_server told ≡ raise_signal (try_connect_to_msg told) ∷ [])
    × (on_try_connect_to bob told ≡ some (tried_threads bob (codes "s1") 5000 ips))
unfolding str_eq map_find
on_created_local_listener-reaches_example =
    on_created_local_listener-reaches ann bob (codes "s2") 5000 ips ann_to_server to_ann to_bob
      to_cid bob_to_server ann_server refl to_ann_client to_bob_client refl refl bob_server refl

abbrev ann_to_bob : InitTunnel
ann_to_bob = record {
  own_session_id = codes "s1";
  ext_session_id = codes "s2";
  type = none;
  address = none;
}

abbrev around : Surroundings
around = record {
  now = 100;
  external_id = codes "g1";
  external_thread = 11;
  relay_id = codes "g2";
  relay_thread = 12;
  first_local_ip = codes "10.0.0.1";
}

abbrev resources : Resources
resources = record { made = 21; bound = none; local_ips = [] }

on_init_tunnel-told_at_once_example :
    let s = run new_state [] in
    let set = set_type s (codes "s1") (codes "s2") in
    let events = (on_init_tunnel s ann_to_bob around).1 in
    let started =
      on_init_tunnel_started ann
        (record { own_session_id = codes "s1"; ext_session_id = codes "s2" })
        100 in
    (signal_all to_ann events ≡ told_at_once s ann_to_bob set)
    × (signal_all to_bob events ≡ told_at_once s (turned ann_to_bob) set)
    × (signal_all to_cid events ≡ [])
    × ((on_init_tunnel_message started
          (record ann_to_bob { type = some tunnel_local_tcp })
          resources).1
        ≡ local_listen_thread (codes "s2") 21 ∷ [])
unfolding run lookup str_eq map_find
on_init_tunnel-told_at_once_example =
    on_init_tunnel-told_at_once [] ann_to_bob around to_ann to_bob to_cid ann 100 resources refl
      refl to_ann_client refl to_bob_client refl refl refl refl

init_new_tunnel-is_kind_started_example :
    let s = on_peer_data (run new_state []) (wished_peer ann (codes "s2") relay_tcp) in
    (signal_all ann_to_server (init_new_tunnel ann (codes "s2") relay_tcp)
      ≡ send_message (peer_data_msg (wished_peer ann (codes "s2") relay_tcp))
        ∷ send_message (init_tunnel_msg (wished_tunnel ann (codes "s2")))
        ∷ [])
    × (is_kind_started tunnel_external (on_init_tunnel s (wished_tunnel ann (codes "s2")) around).1
        ≡ (type_number (tunnel_type_of relay_tcp) == type_number tunnel_external))
unfolding run lookup get_object lower_bound
init_new_tunnel-is_kind_started_example =
    init_new_tunnel-is_kind_started ann (codes "s2") relay_tcp ann_to_server [] around
      tunnel_external refl (omega arith) ann_server refl refl (omega arith)

abbrev server : ClientServerModule
server = add_user (new_client_server (plain_name (codes "Chat"))) (codes "ann") (codes "secret")

abbrev new_client_end : ClientServerConnector
new_client_end = conn (codes "Server") []

abbrev new_server_end : ClientServerConnector
new_server_end = conn (codes "Client") []

-- The client's module, which has a session already.
abbrev in_session_already : ClientServerModule
in_session_already = record (new_client_server (plain_name (codes "Chat"))) {
  own_session_id = codes "old";
}

login_agrees_example :
    let success = on_login server (codes "ann") (codes "secret") in
    let (server', acts) =
      on_message_login new_server_end
        (codes "ann")
        (codes "secret")
        (on_login server)
        (codes "guid") in
    let (k', answered) = on_login_result in_session_already success (codes "guid") in
    let (client', acts') = on_message_login_result new_client_end success (codes "guid") answered in
    (on_session_start new_client_end ≡ send_message (login_msg (codes "ann") (codes "secret")) ∷ [])
    × (login_answers acts ≡ (success, codes "guid") ∷ [])
    × (server'.own_session_id ≡ (if success then codes "guid" else []))
    × (client'.own_session_id ≡ (if success then codes "guid" else []))
    × (k'.own_session_id ≡ (if success && false then codes "guid" else codes "old"))
    × (server'.base.access_id ≡ (if success then codes "ann" else []))
    × (client'.base.access_id ≡ (if success then codes "ann" else []))
    × (is_stopped acts ≡ not success)
    × (is_stopped acts' ≡ not (success && false))
login_agrees_example =
    login_agrees new_client_end new_server_end in_session_already server (codes "guid") refl
