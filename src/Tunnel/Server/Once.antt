-- ===== src/Tunnel/Server/Once.antt =====
-- When the server starts the tunnels of two sessions.
use twainet.Prelude.{ℕ, ◌<◌, ◌+◌, ◌≡◌, true, false, List, [], arith, All, is_empty, take}
use twainet.Tunnel.PeerType.{peer_order, types_order}
use twainet.Tunnel.Choice.{is_pair}
use twainet.Tunnel.Message.{InitTunnel, SessionPair}
use twainet.Tunnel.Server.{
  Surroundings, step_order, on_init_tunnel, on_init_tunnel_complete, started_both_ways,
}
use twainet.Tunnel.Server.Listener.{check_server_tunnels}
use twainet.Tunnel.Server.Run.{
  Request, handle, run, init_tunnel_arrives, complete_arrives, tunnels_checked,
  on_init_tunnel_pending,
}
use twainet.Tunnel.Server.Valid.{handle-IsValid, run-IsValid}
use twainet.Tunnel.Server.Pending.{
  checked-pending, complete-pending, is_kept, new_state, on_init_tunnel-pending,
  on_init_tunnel_starts, pending-is_pair, run-new-IsValid, run-pending,
}

-- Once a request for a tunnel of two sessions has started it, every further request of the two,
-- whichever of them asks, does nothing and sends nothing, whatever the server is asked in between
-- but an `InitTunnelComplete` of the two and a `CheckTunnels` more than sixty seconds later.
pub on_init_tunnel_once :
    (before after : List Request) (msg msg' : InitTunnel) (around around' : Surroundings)
    → is_empty (on_init_tunnel (run new_state before) msg around).1 ≡ false
    → All (λ r. is_kept msg.own_session_id msg.ext_session_id around.now r ≡ true) after
    → is_pair msg'.own_session_id msg'.ext_session_id msg.own_session_id msg.ext_session_id ≡ true
    → let s' = run (on_init_tunnel (run new_state before) msg around).0 after in
      on_init_tunnel s' msg' around' ≡ (s', [])
unfolding handle
on_init_tunnel_once before after msg msg' around around' e k p =
    let s = run new_state before in
    let v = run-new-IsValid before in
    let s1 = (on_init_tunnel s msg around).0 in
    let v1 = handle-IsValid s (init_tunnel_arrives msg around) v in
    let s' = run s1 after in
    on_init_tunnel_pending s' msg' around' (run-IsValid s1 after v1) (
      ground (
        arith,
        run-pending s1 msg.own_session_id msg.ext_session_id around.now after v1
            (on_init_tunnel-pending s msg around v e) k,
        pending-is_pair s' msg'.own_session_id msg'.ext_session_id msg.own_session_id
            msg.ext_session_id p,
      ))

-- After the same requests, `InitTunnelComplete` of the two sessions in either order, or a
-- `CheckTunnels` more than sixty seconds after the start, lets the next request of the two in again:
-- it is answered by `InitTunnelStarted` to both.
pub on_init_tunnel_again :
    (before after : List Request) (msg msg' : InitTunnel) (around around' : Surroundings)
    (complete : SessionPair) (now : ℕ)
    → is_empty (on_init_tunnel (run new_state before) msg around).1 ≡ false
    → All (λ r. is_kept msg.own_session_id msg.ext_session_id around.now r ≡ true) after
    → is_pair msg'.own_session_id msg'.ext_session_id msg.own_session_id msg.ext_session_id ≡ true
    → is_pair complete.own_session_id complete.ext_session_id msg.own_session_id msg.ext_session_id
      ≡ true
    → around.now + 60 < now
    → let s' = run (on_init_tunnel (run new_state before) msg around).0 after in
      (take 2 (on_init_tunnel (on_init_tunnel_complete s' complete) msg' around').1
        ≡ started_both_ways msg')
      × (take 2 (on_init_tunnel (check_server_tunnels s' now).0 msg' around').1
          ≡ started_both_ways msg')
unfolding handle
on_init_tunnel_again before after msg msg' around around' complete now e k p c old =
    let s = run new_state before in
    let v = run-new-IsValid before in
    let s1 = (on_init_tunnel s msg around).0 in
    let v1 = handle-IsValid s (init_tunnel_arrives msg around) v in
    let s' = run s1 after in
    let v' = run-IsValid s1 after v1 in
    let done = on_init_tunnel_complete s' complete in
    let checked = (check_server_tunnels s' now).0 in
    (
      on_init_tunnel_starts done msg' around' (handle-IsValid s' (complete_arrives complete) v') (
          ground (
            arith,
            complete-pending s' complete msg.own_session_id msg.ext_session_id v' c,
            pending-is_pair done msg'.own_session_id msg'.ext_session_id msg.own_session_id
                msg.ext_session_id p,
          )),
      on_init_tunnel_starts checked msg' around' (handle-IsValid s' (tunnels_checked now) v') (
          ground (
            arith,
            checked-pending s' now msg.own_session_id msg.ext_session_id around.now v'
                (run-pending s1 msg.own_session_id msg.ext_session_id around.now after v1
                  (on_init_tunnel-pending s msg around v e) k)
                old,
            pending-is_pair checked msg'.own_session_id msg'.ext_session_id msg.own_session_id
                msg.ext_session_id p,
          )),
    )
