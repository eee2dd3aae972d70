-- ===== src/Tunnel/Check/Tests.antt =====
-- `CheckTunnels` on a module with an entry that has become old.
use twainet.Prelude.{◌≡◌, refl, true, false, none, some, List, [], ◌∷◌}
use twainet.Prelude.Bytes.{codes}
use twainet.StringMap.{map_find, map_insert}
use twainet.ObjectManager.Refinement.{lookup}
use twainet.Tunnel.Client.{ClientState, new_tunnel}
use twainet.Tunnel.Client.Handler.{on_init_tunnel_started}
use twainet.Tunnel.Client.Run.{new_client, started_arrives}
use twainet.Tunnel.Client.Run.{Request as ClientRequest, handle as handle_client, run as run_client}
use twainet.Tunnel.Server.{step_order}
use twainet.Tunnel.Server.Run.{Request as ServerRequest, init_tunnel_arrives}
use twainet.Tunnel.Server.Run.{run as run_server}
use twainet.Tunnel.Server.Pending.{new_state}
use twainet.Tunnel.Server.Steps.{step_of}
use twainet.Tunnel.Check.{
  TunnelModule, check_tunnels, is_recent, if_recent, check_tunnels-is_recent,
}

abbrev requests : List ClientRequest
requests =
    started_arrives (record { own_session_id = codes "ann"; ext_session_id = codes "bob" }) 100 ∷ []

abbrev asked : List ServerRequest
asked =
    init_tunnel_arrives
      (record {
        own_session_id = codes "ann";
        ext_session_id = codes "bob";
        type = none;
        address = none;
      })
      (record {
        now = 100;
        external_id = codes "g1";
        external_thread = 11;
        relay_id = codes "g2";
        relay_thread = 12;
        first_local_ip = codes "10.0.0.1";
      })
    ∷ []

abbrev after : ClientState
after = record (new_client (codes "ann") (codes "10.0.0.9") false []) {
  tunnels = (codes "bob", new_tunnel 100) ∷ [];
}

requests_handled :
    run_client (new_client (codes "ann") (codes "10.0.0.9") false []) requests ≡ some (after, [])
unfolding run_client handle_client on_init_tunnel_started map_find map_insert
requests_handled = refl

check_tunnels-is_recent_example :
    let m : TunnelModule = record { client = after; server = run_server new_state asked } in
    let m' = (check_tunnels m 161).0 in
    let entry = map_find m'.client.tunnels (codes "bob") in
    let listener = map_find m'.server.servers (codes "bob") in
    let step = lookup m'.server.tunnels_step (step_of (codes "ann") (codes "bob")) in
    (is_recent (λ t. t.creation_time) 161 entry ≡ true)
    × (is_recent (λ t. t.creation_time) 161 listener ≡ true)
    × (is_recent (λ t. t.creation_time) 161 step ≡ true)
    × (entry ≡ if_recent (λ t. t.creation_time) 161 (map_find m.client.tunnels (codes "bob")))
    × (listener ≡ if_recent (λ t. t.creation_time) 161 (map_find m.server.servers (codes "bob")))
    × (step
        ≡ if_recent
            (λ t. t.creation_time)
            161
            (lookup m.server.tunnels_step (step_of (codes "ann") (codes "bob"))))
check_tunnels-is_recent_example =
    check_tunnels-is_recent requests asked (codes "ann") (codes "10.0.0.9") false [] 161
      (codes "bob") (codes "ann") (codes "bob") requests_handled
