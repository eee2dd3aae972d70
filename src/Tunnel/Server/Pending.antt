-- ===== src/Tunnel/Server/Pending.antt =====
-- The step of two sessions, as the server's requests change it.
use twainet.Prelude.{
  ℕ, ◌<◌, ◌+◌, ◌≡◌, ap, Bool, true, false, Option, none, some, List, [], ◌∷◌, arith, not, All,
  is_empty, take,
}
use twainet.Prelude.Bytes.{Bytes}
use twainet.ObjectManager.{add_object}
use twainet.ObjectManager.Refinement.{lookup, lookup_same, lookup-add_object, lookup-remove_object}
use twainet.Tunnel.PeerType.{peer_eq, peer_order, types_order}
use twainet.Tunnel.Choice.{is_pair}
use twainet.Tunnel.Message.{InitTunnel, SessionPair}
use twainet.Tunnel.Server.{
  TunnelStep, ServerState, Surroundings, step_order, type_or_all, on_init_tunnel,
  on_init_tunnel_complete, on_peer_data, on_available_pear_types, new_step, found_peer,
  started_both_ways,
}
use twainet.Tunnel.Server.Listener.{
  is_old, on_error_external_listener, on_error_relay_listener, on_add_relay_server_connector,
  check_server_tunnels,
}
use twainet.Tunnel.Server.Steps.{step_of, lookup-check_steps}
use twainet.Tunnel.Server.Run.{
  Request, handle, run, IsValid, peer_data_arrives, available_types_arrive, init_tunnel_arrives,
  complete_arrives, external_listener_fails, relay_listener_fails, relay_connects, tunnels_checked,
  on_init_tunnel_pending, on_init_tunnel_free, on_init_tunnel-steps, delete_server-managers,
  start_tunnels-managers, same_step,
}
use twainet.Tunnel.Server.Valid.{handle-IsValid, run-IsValid}

-- A module that has just been made.
abbrev pub new_state : ServerState
new_state = record { type_peers = []; avalable_peer_types = []; tunnels_step = []; servers = [] }

-- The requests that do not end the step of two sessions that was made at this time: no
-- `InitTunnelComplete` of the two, and no `CheckTunnels` over sixty seconds later.
abbrev pub is_kept : Bytes → Bytes → ℕ → Request → Bool
is_kept one two t (complete_arrives msg) =
    not (is_pair msg.own_session_id msg.ext_session_id one two)
is_kept one two t (tunnels_checked now) = not (is_old now t)
is_kept one two t (peer_data_arrives p) = true
is_kept one two t (available_types_arrive msg) = true
is_kept one two t (init_tunnel_arrives msg around) = true
is_kept one two t (external_listener_fails id) = true
is_kept one two t (relay_listener_fails id) = true
is_kept one two t (relay_connects id connector) = true

abbrev pub time_of : Option TunnelStep → Option ℕ
time_of none = none
time_of (some step) = some step.creation_time

-- When the step of the two sessions was made.
abbrev pub pending : ServerState → Bytes → Bytes → Option ℕ
pending s one two = time_of (lookup s.tunnels_step (step_of one two))

pub handle-pending :
    (s : ServerState) (one two : Bytes) (t : ℕ) (r : Request)
    → IsValid s
    → pending s one two ≡ some t
    → is_kept one two t r ≡ true
    → pending (handle s r) one two ≡ some t
unfolding handle on_init_tunnel_complete on_error_external_listener on_error_relay_listener
    on_add_relay_server_connector check_server_tunnels on_peer_data on_available_pear_types peer_eq
handle-pending s one two t (peer_data_arrives p) v e k = e
handle-pending s one two t (available_types_arrive msg) v e k = e
handle-pending s one two t (init_tunnel_arrives msg around) v e k =
    let step = new_step s msg around.now in
    ground (
      arith,
      e,
      (on_init_tunnel-steps s msg around).2,
      ap (λ f. f (step_of one two)) (lookup-add_object s.tunnels_step step v.steps_sorted).0,
      lookup_same s.tunnels_step step (step_of one two),
    )
handle-pending s one two t (complete_arrives msg) v e k =
    let step = step_of msg.own_session_id msg.ext_session_id in
    ground (
      arith,
      e,
      k,
      ap (λ f. f (step_of one two)) (lookup-remove_object s.tunnels_step step v.steps_sorted).0,
    )
handle-pending s one two t (external_listener_fails id) v e k =
    ground (arith, e, delete_server-managers s id)
handle-pending s one two t (relay_listener_fails id) v e k =
    ground (arith, e, delete_server-managers s id)
handle-pending s one two t (relay_connects id connector) v e k =
    ground (arith, e, delete_server-managers s id)
handle-pending s one two t (tunnels_checked now) v e k =
    ground (arith, e, k, lookup-check_steps now s.tunnels_step (step_of one two) v.steps_sorted)

pub run-pending :
    (s : ServerState) (one two : Bytes) (t : ℕ) (rs : List Request)
    → IsValid s
    → pending s one two ≡ some t
    → All (λ r. is_kept one two t r ≡ true) rs
    → pending (run s rs) one two ≡ some t
unfolding run
run-pending s one two t [] v e k = e
run-pending s one two t (r ∷ rs) v e k =
    run-pending (handle s r) one two t rs (handle-IsValid s r v)
      (handle-pending s one two t r v e k.0) k.1

-- The step of the sessions is the same, whichever of them is named first.
pub pending-is_pair :
    (s : ServerState) (one two a b : Bytes)
    → is_pair one two a b ≡ true
    → lookup s.tunnels_step (step_of one two) ≡ lookup s.tunnels_step (step_of a b)
unfolding peer_eq
pending-is_pair s one two a b e =
    lookup_same s.tunnels_step (step_of one two) (step_of a b) (ground (arith, e))

pub on_init_tunnel-pending :
    (s : ServerState) (msg : InitTunnel) (around : Surroundings)
    → IsValid s
    → is_empty (on_init_tunnel s msg around).1 ≡ false
    → pending (on_init_tunnel s msg around).0 msg.own_session_id msg.ext_session_id
      ≡ some around.now
on_init_tunnel-pending s msg around v e =
    let step = new_step s msg around.now in
    let plain = step_of msg.own_session_id msg.ext_session_id in
    let same = same_step s msg around.now v.peers_sorted in
    ground (
      arith,
      e,
      same,
      on_init_tunnel_pending s msg around v,
      on_init_tunnel_free s msg around v,
      start_tunnels-managers (record s { tunnels_step = (add_object s.tunnels_step step).0 }) msg
          (type_or_all (found_peer s msg)) around,
      ap (λ f. f plain) (lookup-add_object s.tunnels_step step v.steps_sorted).0,
      lookup_same s.tunnels_step step plain same,
    )

pub on_init_tunnel_starts :
    (s : ServerState) (msg : InitTunnel) (around : Surroundings)
    → IsValid s
    → pending s msg.own_session_id msg.ext_session_id ≡ none
    → take 2 (on_init_tunnel s msg around).1 ≡ started_both_ways msg
on_init_tunnel_starts s msg around v e = ground (arith, e, on_init_tunnel_free s msg around v)

pub complete-pending :
    (s : ServerState) (complete : SessionPair) (one two : Bytes)
    → IsValid s
    → is_pair complete.own_session_id complete.ext_session_id one two ≡ true
    → pending (on_init_tunnel_complete s complete) one two ≡ none
unfolding on_init_tunnel_complete peer_eq
complete-pending s complete one two v e =
    let step = step_of complete.own_session_id complete.ext_session_id in
    ground (
      arith,
      e,
      ap (λ f. f (step_of one two)) (lookup-remove_object s.tunnels_step step v.steps_sorted).0,
    )

pub checked-pending :
    (s : ServerState) (now : ℕ) (one two : Bytes) (t : ℕ)
    → IsValid s
    → pending s one two ≡ some t
    → t + 60 < now
    → pending (check_server_tunnels s now).0 one two ≡ none
unfolding check_server_tunnels
checked-pending s now one two t v e old =
    ground (arith, e, old, lookup-check_steps now s.tunnels_step (step_of one two) v.steps_sorted)

pub run-new-IsValid : (rs : List Request) → IsValid (run new_state rs)
run-new-IsValid rs =
    run-IsValid new_state rs
      (record { peers_sorted = tt; types_sorted = tt; steps_sorted = tt; servers_distinct = tt })
