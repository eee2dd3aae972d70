-- ===== src/Tunnel/Server/Tests.antt =====
-- The theorems on the server at a tunnel of two of its clients.
use twainet.Prelude.{◌≡◌, refl, none, List, [], ◌∷◌, take, arith}
use twainet.Prelude.Bytes.{codes, str_eq}
use twainet.ObjectManager.{lower_bound, add_object, get_object}
use twainet.ObjectManager.Refinement.{lookup}
use twainet.StringMap.{map_find}
use twainet.Tunnel.PeerType.{check_tunnel_available_type, tunnel_relay_tcp}
use twainet.Tunnel.Message.{InitTunnel, SessionPair, TunnelConnectAddress, stop_thread}
use twainet.Tunnel.Server.{
  Surroundings, step_order, on_init_tunnel, on_init_tunnel_complete, start_tunnels,
  started_both_ways, is_started, start_external,
}
use twainet.Tunnel.Server.Listener.{
  check_server_tunnels, on_created_external_listener, on_got_external_address,
  on_error_external_listener,
}
use twainet.Tunnel.Server.Run.{Request, run, tunnels_checked, external_listener_fails}
use twainet.Tunnel.Server.Pending.{new_state}
use twainet.Tunnel.Server.Once.{on_init_tunnel_once, on_init_tunnel_again}
use twainet.Tunnel.Server.Kinds.{
  is_kind_started, kind_number, is_wanted, set_type, on_init_tunnel-is_wanted,
}
use twainet.Tunnel.Server.Addresses.{signalled, told_to_init, told_to_connect, on_init_tunnel-told}

abbrev ann_to_bob : InitTunnel
ann_to_bob = record {
  own_session_id = codes "ann";
  ext_session_id = codes "bob";
  type = none;
  address = none;
}

abbrev bob_to_ann : InitTunnel
bob_to_ann = record {
  own_session_id = codes "bob";
  ext_session_id = codes "ann";
  type = none;
  address = none;
}

abbrev bob_and_ann : SessionPair
bob_and_ann = record { own_session_id = codes "bob"; ext_session_id = codes "ann" }

abbrev around : Surroundings
around = record {
  now = 100;
  external_id = codes "g1";
  external_thread = 11;
  relay_id = codes "g2";
  relay_thread = 12;
  first_local_ip = codes "10.0.0.1";
}

abbrev between : List Request
between = external_listener_fails (codes "g1") ∷ tunnels_checked 130 ∷ []

on_init_tunnel_once_example :
    let s' = run (on_init_tunnel (run new_state []) ann_to_bob around).0 between in
    on_init_tunnel s' bob_to_ann around ≡ (s', [])
unfolding run on_init_tunnel add_object get_object lower_bound start_tunnels str_eq
on_init_tunnel_once_example =
    on_init_tunnel_once [] between ann_to_bob bob_to_ann around around refl (refl, (refl, tt)) refl

on_init_tunnel_again_example :
    let s' = run (on_init_tunnel (run new_state []) ann_to_bob around).0 between in
    (take 2 (on_init_tunnel (on_init_tunnel_complete s' bob_and_ann) bob_to_ann around).1
      ≡ started_both_ways bob_to_ann)
    × (take 2 (on_init_tunnel (check_server_tunnels s' 161).0 bob_to_ann around).1
        ≡ started_both_ways bob_to_ann)
unfolding run on_init_tunnel add_object get_object lower_bound start_tunnels str_eq
on_init_tunnel_again_example =
    on_init_tunnel_again [] between ann_to_bob bob_to_ann around around bob_and_ann 161 refl
      (refl, (refl, tt)) refl refl (omega arith)

on_init_tunnel-is_wanted_example :
    let s = run new_state [] in
    let set = set_type s (codes "ann") (codes "bob") in
    (is_kind_started tunnel_relay_tcp (on_init_tunnel s ann_to_bob around).1
      ≡ is_wanted s (codes "ann") (codes "bob") set tunnel_relay_tcp)
    × (is_kind_started tunnel_relay_tcp (on_init_tunnel s bob_to_ann around).1
        ≡ is_kind_started tunnel_relay_tcp (on_init_tunnel s ann_to_bob around).1)
unfolding run lookup
on_init_tunnel-is_wanted_example =
    on_init_tunnel-is_wanted [] ann_to_bob around tunnel_relay_tcp refl (omega arith)

abbrev address : TunnelConnectAddress
address = record { ip = codes "1.2.3.4"; port = 5000 }

on_init_tunnel-told_example :
    let s1 = (on_init_tunnel new_state ann_to_bob around).0 in
    let (s2, stopped) = on_error_external_listener s1 (codes "g1") in
    let ann = codes "ann" in
    let bob = codes "bob" in
    (on_created_external_listener s1 (signalled around ann address) ≡ told_to_init ann bob address)
    × (on_created_external_listener s1 (signalled around bob address)
        ≡ told_to_init bob ann address)
    × (on_got_external_address s1 (signalled around ann address) ≡ told_to_connect bob ann address)
    × (on_got_external_address s1 (signalled around bob address) ≡ told_to_connect ann bob address)
    × (stopped ≡ stop_thread 11 ∷ [])
    × (on_created_external_listener s2 (signalled around ann address) ≡ [])
    × (on_got_external_address s2 (signalled around bob address) ≡ [])
unfolding map_find str_eq on_init_tunnel add_object get_object lower_bound start_tunnels
    is_kind_started kind_number is_started check_tunnel_available_type start_external
on_init_tunnel-told_example = on_init_tunnel-told new_state ann_to_bob around address refl refl refl
