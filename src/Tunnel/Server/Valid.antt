-- ===== src/Tunnel/Server/Valid.antt =====
-- Every request keeps the invariant of the server's state.
use twainet.Prelude.{◌≡◌, List, [], ◌∷◌, arith}
use twainet.Prelude.Bytes.{Bytes}
use twainet.ObjectManager.{add_object}
use twainet.ObjectManager.Sorted.{
  IsSorted, add_object-IsSorted, remove_object-IsSorted, update_object-IsSorted,
}
use twainet.Tunnel.PeerType.{PeerType, peer_order, types_order, AvailableTypes}
use twainet.Tunnel.Message.{InitTunnel, AvailablePearTypes}
use twainet.Tunnel.Server.{
  ServerState, Surroundings, step_order, on_init_tunnel, on_init_tunnel_complete, on_peer_data,
  on_available_pear_types, new_step,
}
use twainet.Tunnel.Server.Listener.{
  on_error_external_listener, on_error_relay_listener, delete_server, on_add_relay_server_connector,
  check_server_tunnels,
}
use twainet.Tunnel.Server.Steps.{check_steps-IsSorted, step_of}
use twainet.StringMap.Keys.{IsMap}
use twainet.Tunnel.Server.Distinct.{on_init_tunnel-IsMap, delete_server-IsMap, check_servers-IsMap}
use twainet.Tunnel.Server.Run.{
  Request, handle, run, IsValid, peer_data_arrives, available_types_arrive, init_tunnel_arrives,
  complete_arrives, external_listener_fails, relay_listener_fails, relay_connects, tunnels_checked,
  on_init_tunnel-steps, delete_server-managers,
}

-- A state is valid when its managers are those of a valid state, but for sorted steps.
managers-IsValid :
    (s s' : ServerState)
    → IsValid s
    → s'.type_peers ≡ s.type_peers
    → s'.avalable_peer_types ≡ s.avalable_peer_types
    → IsSorted s'.tunnels_step
    → IsMap s'.servers
    → IsValid s'
managers-IsValid s s' v e f sorted distinct = record {
  peers_sorted = ground (arith, e, v.peers_sorted);
  types_sorted = ground (arith, f, v.types_sorted);
  steps_sorted = sorted;
  servers_distinct = distinct;
}

pub on_peer_data-IsValid : (s : ServerState) (p : PeerType) → IsValid s → IsValid (on_peer_data s p)
unfolding on_peer_data
on_peer_data-IsValid s p v = record {
  peers_sorted = ground (
    arith,
    v.peers_sorted,
    add_object-IsSorted s.type_peers p v.peers_sorted,
    update_object-IsSorted (add_object s.type_peers p).0 p,
  );
  types_sorted = v.types_sorted;
  steps_sorted = v.steps_sorted;
  servers_distinct = v.servers_distinct;
}

on_available_pear_types-IsValid :
    (s : ServerState) (msg : AvailablePearTypes)
    → IsValid s
    → IsValid (on_available_pear_types s msg)
unfolding on_available_pear_types
on_available_pear_types-IsValid s msg v =
    let types : AvailableTypes = record { session_id = msg.session_id; types = msg.types } in
    record {
      peers_sorted = v.peers_sorted;
      types_sorted = ground (
        arith,
        add_object-IsSorted s.avalable_peer_types types v.types_sorted,
        update_object-IsSorted (add_object s.avalable_peer_types types).0 types,
      );
      steps_sorted = v.steps_sorted;
      servers_distinct = v.servers_distinct;
    }

delete_server-IsValid : (s : ServerState) (id : Bytes) → IsValid s → IsValid (delete_server s id).0
delete_server-IsValid s id v =
    let m = delete_server-managers s id in
    managers-IsValid s (delete_server s id).0 v m.0 m.1 (ground (arith, v.steps_sorted, m))
      (delete_server-IsMap s id v.servers_distinct)

on_init_tunnel-IsValid :
    (s : ServerState) (msg : InitTunnel) (around : Surroundings)
    → IsValid s
    → IsValid (on_init_tunnel s msg around).0
on_init_tunnel-IsValid s msg around v =
    let m = on_init_tunnel-steps s msg around in
    managers-IsValid s (on_init_tunnel s msg around).0 v m.0 m.1
      (ground (
        arith,
        v.steps_sorted,
        m,
        add_object-IsSorted s.tunnels_step (new_step s msg around.now) v.steps_sorted,
      ))
      (on_init_tunnel-IsMap s msg around v.servers_distinct)

pub handle-IsValid : (s : ServerState) (r : Request) → IsValid s → IsValid (handle s r)
unfolding handle on_init_tunnel_complete on_error_external_listener on_error_relay_listener
    on_add_relay_server_connector check_server_tunnels
handle-IsValid s (peer_data_arrives p) v = on_peer_data-IsValid s p v
handle-IsValid s (available_types_arrive msg) v = on_available_pear_types-IsValid s msg v
handle-IsValid s (init_tunnel_arrives msg around) v = on_init_tunnel-IsValid s msg around v
handle-IsValid s (complete_arrives msg) v = record {
  peers_sorted = v.peers_sorted;
  types_sorted = v.types_sorted;
  steps_sorted =
      remove_object-IsSorted s.tunnels_step (step_of msg.own_session_id msg.ext_session_id)
        v.steps_sorted;
  servers_distinct = v.servers_distinct;
}
handle-IsValid s (external_listener_fails id) v = delete_server-IsValid s id v
handle-IsValid s (relay_listener_fails id) v = delete_server-IsValid s id v
handle-IsValid s (relay_connects id connector) v = delete_server-IsValid s id v
handle-IsValid s (tunnels_checked now) v = record {
  peers_sorted = v.peers_sorted;
  types_sorted = v.types_sorted;
  steps_sorted = check_steps-IsSorted now s.tunnels_step s.tunnels_step v.steps_sorted;
  servers_distinct = check_servers-IsMap now s.servers v.servers_distinct;
}

pub run-IsValid : (s : ServerState) (rs : List Request) → IsValid s → IsValid (run s rs)
unfolding run
run-IsValid s [] v = v
run-IsValid s (r ∷ rs) v = run-IsValid (handle s r) rs (handle-IsValid s r v)
