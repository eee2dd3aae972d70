-- ===== src/Tunnel/Server/Distinct.antt =====
-- The listeners of the server have distinct ids.
use twainet.Prelude.{ℕ, ◌≡◌, refl, none, List, [], ◌∷◌, arith}
use twainet.Prelude.Bytes.{Bytes}
use twainet.ObjectManager.{add_object}
use twainet.Tunnel.PeerType.{TunnelType, peer_order, types_order}
use twainet.Tunnel.Message.{InitTunnel}
use twainet.Tunnel.Server.{
  ServerState, Surroundings, step_order, type_or_all, on_init_tunnel, start_tunnels, start_external,
  start_relay, new_step, found_peer, TunnelServer, new_server,
}
use twainet.Tunnel.Server.Listener.{delete_server, check_servers}
use twainet.StringMap.{map_find, map_insert}
use twainet.StringMap.Keys.{IsMap, map_insert-IsMap, map_erase-IsMap}

start_tunnels-IsMap :
    (s : ServerState) (msg : InitTunnel) (type : TunnelType) (around : Surroundings)
    → IsMap s.servers
    → IsMap (start_tunnels s msg type around).0.servers
unfolding start_tunnels start_external start_relay
start_tunnels-IsMap s msg type around m =
    let one = new_server msg around.external_thread around.now in
    let two = new_server msg around.relay_thread around.now in
    let m1 = map_insert-IsMap s.servers around.external_id one m in
    let s1 = map_insert s.servers around.external_id one in
    let s2 = map_insert s.servers around.relay_id two in
    let s3 = map_insert s1 around.relay_id two in
    ground (
      arith,
      m,
      m1,
      map_insert-IsMap s.servers around.relay_id two,
      map_insert-IsMap s1 around.relay_id two,
      map_insert-IsMap s2 around.relay_id two,
      map_insert-IsMap s3 around.relay_id two,
    )

pub on_init_tunnel-IsMap :
    (s : ServerState) (msg : InitTunnel) (around : Surroundings)
    → IsMap s.servers
    → IsMap (on_init_tunnel s msg around).0.servers
unfolding on_init_tunnel
on_init_tunnel-IsMap s msg around m = ground (
  arith,
  m,
  start_tunnels-IsMap
      (record s { tunnels_step = (add_object s.tunnels_step (new_step s msg around.now)).0 }) msg
      (type_or_all (found_peer s msg)) around m,
)

pub delete_server-IsMap :
    (s : ServerState) (id : Bytes) → IsMap s.servers → IsMap (delete_server s id).0.servers
unfolding delete_server
delete_server-IsMap s id m = ground (arith, m, map_erase-IsMap s.servers id m)

map_find-check_servers-none :
    (now : ℕ) (servers : List (Bytes × TunnelServer)) (k : Bytes)
    → map_find servers k ≡ none
    → map_find (check_servers now servers).0 k ≡ none
unfolding check_servers map_find
map_find-check_servers-none now [] k e = refl
map_find-check_servers-none now ((id, server) ∷ servers) k e =
    ground (arith, e, map_find-check_servers-none now servers k)

pub check_servers-IsMap :
    (now : ℕ) (servers : List (Bytes × TunnelServer))
    → IsMap servers
    → IsMap (check_servers now servers).0
unfolding check_servers
check_servers-IsMap now [] m = tt
check_servers-IsMap now ((id, server) ∷ servers) m =
    ground
      (arith, m.0, check_servers-IsMap now servers m.1, map_find-check_servers-none now servers id)
