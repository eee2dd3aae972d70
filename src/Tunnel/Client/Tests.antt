-- ===== src/Tunnel/Client/Tests.antt =====
-- The theorems on the client at an entry for one other session, and `CheckTunnels` with it.
use twainet.Prelude.{total, ◌≡◌, ◌+◌, refl, false, not, none, some, List, [], ◌∷◌}
use twainet.Prelude.Bytes.{codes, str_eq}
use twainet.ObjectManager.Reference.{is_some}
use twainet.StringMap.{map_find, map_insert, map_set}
use twainet.StringMap.Keys.{IsMap}
use twainet.Tunnel.PeerType.{tunnel_external, tunnel_local_tcp}
use twainet.Tunnel.Message.{InitTunnel, TryConnectTo, Event, local_listen_thread, stop_thread}
use twainet.Tunnel.Client.{
  ClientState, new_tunnel, create_local_listen_thread, create_external_connect_thread,
}
use twainet.Tunnel.Client.Handler.{
  Resources, on_init_tunnel_message, on_init_tunnel_started, on_try_connect_to, connect_each,
}
use twainet.Tunnel.Client.Failures.{is_null_used, on_try_connect_to-is_null_used}
use twainet.Tunnel.Client.Threads.{held, start_number, stop_number}
use twainet.Tunnel.Client.Run.{
  Request, handle, run, new_client, run_threads, started_arrives, init_tunnel_arrives,
}

abbrev ann : ClientState
ann = new_client (codes "ann") (codes "10.0.0.9") false []

abbrev from_bob : InitTunnel
from_bob = record {
  own_session_id = codes "ann";
  ext_session_id = codes "bob";
  type = some tunnel_local_tcp;
  address = none;
}

abbrev resources : Resources
resources = record { made = 21; bound = none; local_ips = [] }

abbrev requests : List Request
requests =
    started_arrives (record { own_session_id = codes "ann"; ext_session_id = codes "bob" }) 100
    ∷ init_tunnel_arrives from_bob resources
    ∷ init_tunnel_arrives from_bob (record resources { made = 22 })
    ∷ []

abbrev after : ClientState
after = record ann {
  tunnels = (codes "bob", record (new_tunnel 100) { local_listen = some 22 }) ∷ [];
}

abbrev events : List Event
events =
    local_listen_thread (codes "bob") 21
    ∷ stop_thread 21
    ∷ local_listen_thread (codes "bob") 22
    ∷ []

requests_handled : run ann requests ≡ some (after, events)
unfolding run handle on_init_tunnel_started on_init_tunnel_message create_local_listen_thread
    map_find map_insert map_set str_eq
requests_handled = refl

run_threads_example :
    (total (start_number 21) events ≡ total (stop_number 21) events + held 21 after.tunnels)
    × IsMap after.tunnels
run_threads_example =
    run_threads 21 (codes "ann") (codes "10.0.0.9") false [] requests requests_handled

-- An address that the server sends while no external connection is being made.
abbrev try_external : TryConnectTo
try_external = record {
  own_session_id = codes "ann";
  ext_session_id = codes "bob";
  type = tunnel_external;
  adresses = record { ip = codes "1.2.3.4"; port = 5000 } ∷ [];
}

on_try_connect_to-is_null_used_example :
    is_some (on_try_connect_to after try_external) ≡ not (is_null_used after try_external)
on_try_connect_to-is_null_used_example = on_try_connect_to-is_null_used after try_external

null_used : on_try_connect_to after try_external ≡ none
unfolding on_try_connect_to connect_each create_external_connect_thread map_find str_eq
null_used = refl
