-- ===== src/Tunnel/Server/Run.antt =====
-- What the server is asked, one after the other, and the invariant of its state.
use twainet.Prelude.{
  ℕ, ◌≡◌, ◌∙◌, true, false, List, [], ◌∷◌, arith, Option-cases, inl, inr, sym, ◌++◌, ◌⊎◌,
}
use twainet.Prelude.Bytes.{Bytes}
use twainet.ObjectManager.{add_object}
use twainet.ObjectManager.Reference.{is_some}
use twainet.ObjectManager.Sorted.{IsSorted}
use twainet.ObjectManager.Refinement.{lookup, lookup_same, lookup-add_object, get_object-lookup}
use twainet.Tunnel.PeerType.{PeerType, TunnelType, peer_order, new_peer, types_order}
use twainet.Tunnel.Choice.{lookup-peer_eq, same_sessions}
use twainet.Tunnel.Message.{InitTunnel, SessionPair, AvailablePearTypes}
use twainet.Tunnel.Server.{
  ServerState, Surroundings, step_order, step_eq, type_or_all, on_init_tunnel,
  on_init_tunnel_complete, start_tunnels, on_peer_data, on_available_pear_types, start_external,
  start_relay, new_step, found_peer, started_both_ways,
}
use twainet.Tunnel.Server.Listener.{
  on_error_external_listener, on_error_relay_listener, delete_server, on_add_relay_server_connector,
  check_server_tunnels,
}
use twainet.Tunnel.Server.Steps.{step_of}
use twainet.StringMap.Keys.{IsMap}

pub data Request : Type 0 where
  peer_data_arrives : PeerType → Request
  available_types_arrive : AvailablePearTypes → Request
  init_tunnel_arrives : InitTunnel → Surroundings → Request
  complete_arrives : SessionPair → Request
  external_listener_fails relay_listener_fails : Bytes → Request
  relay_connects : Bytes → ℕ → Request
  tunnels_checked : ℕ → Request

unfoldable pub handle : ServerState → Request → ServerState
handle s (peer_data_arrives p) = on_peer_data s p
handle s (available_types_arrive msg) = on_available_pear_types s msg
handle s (init_tunnel_arrives msg around) = (on_init_tunnel s msg around).0
handle s (complete_arrives msg) = on_init_tunnel_complete s msg
handle s (external_listener_fails id) = (on_error_external_listener s id).0
handle s (relay_listener_fails id) = (on_error_relay_listener s id).0
handle s (relay_connects id connector) = (on_add_relay_server_connector s id connector).0
handle s (tunnels_checked now) = (check_server_tunnels s now).0

unfoldable pub run : ServerState → List Request → ServerState
run s [] = s
run s (r ∷ rs) = run (handle s r) rs

-- The three object managers are sorted, and the listeners have distinct ids.
pub record IsValid (s : ServerState) : Type 0 where
  pub peers_sorted : IsSorted s.type_peers
  pub types_sorted : IsSorted s.avalable_peer_types
  pub steps_sorted : IsSorted s.tunnels_step
  pub servers_distinct : IsMap s.servers

pub start_tunnels-managers :
    (s : ServerState) (msg : InitTunnel) (type : TunnelType) (around : Surroundings)
    → ((start_tunnels s msg type around).0.type_peers ≡ s.type_peers)
      × ((start_tunnels s msg type around).0.avalable_peer_types ≡ s.avalable_peer_types)
      × ((start_tunnels s msg type around).0.tunnels_step ≡ s.tunnels_step)
unfolding start_tunnels start_external start_relay
start_tunnels-managers s msg type around = ground arith

pub delete_server-managers :
    (s : ServerState) (id : Bytes)
    → ((delete_server s id).0.type_peers ≡ s.type_peers)
      × ((delete_server s id).0.avalable_peer_types ≡ s.avalable_peer_types)
      × ((delete_server s id).0.tunnels_step ≡ s.tunnels_step)
unfolding delete_server
delete_server-managers s id = ground arith

-- Where a step of the two sessions is pending, `onInitTunnel` does nothing; and otherwise it starts.
pub same_step :
    (s : ServerState) (msg : InitTunnel) (now : ℕ)
    → IsSorted s.type_peers
    → step_eq (new_step s msg now) (step_of msg.own_session_id msg.ext_session_id) ≡ true
same_step s msg now v =
    let plain = new_peer msg.own_session_id msg.ext_session_id in
    elim (Option-cases (found_peer s msg)) [
      | inl none_there ↦ ground (arith, none_there, same_sessions (new_step s msg now).peer plain)
      | inr (old, found) ↦ ground (
        arith,
        found,
        same_sessions (new_step s msg now).peer old,
        lookup-peer_eq s.type_peers plain {p = old}
            (sym (get_object-lookup s.type_peers plain v) ∙ found),
        peer_order.lawful.eq_trans (new_step s msg now).peer old plain,
      )
    ]

pub on_init_tunnel_pending :
    (s : ServerState) (msg : InitTunnel) (around : Surroundings)
    → IsValid s
    → is_some (lookup s.tunnels_step (step_of msg.own_session_id msg.ext_session_id)) ≡ true
    → on_init_tunnel s msg around ≡ (s, [])
unfolding on_init_tunnel
on_init_tunnel_pending s msg around v e =
    let step = new_step s msg around.now in
    ground (
      arith,
      e,
      (lookup-add_object s.tunnels_step step v.steps_sorted).1,
      lookup_same s.tunnels_step step (step_of msg.own_session_id msg.ext_session_id)
          (same_step s msg around.now v.peers_sorted),
    )

pub on_init_tunnel_free :
    (s : ServerState) (msg : InitTunnel) (around : Surroundings)
    → IsValid s
    → is_some (lookup s.tunnels_step (step_of msg.own_session_id msg.ext_session_id)) ≡ false
    → let (s', events) =
        start_tunnels
          (record s { tunnels_step = (add_object s.tunnels_step (new_step s msg around.now)).0 })
          msg
          (type_or_all (found_peer s msg))
          around in
      on_init_tunnel s msg around ≡ (s', started_both_ways msg ++ events)
unfolding on_init_tunnel
on_init_tunnel_free s msg around v e =
    let step = new_step s msg around.now in
    ground (
      arith,
      e,
      (lookup-add_object s.tunnels_step step v.steps_sorted).1,
      lookup_same s.tunnels_step step (step_of msg.own_session_id msg.ext_session_id)
          (same_step s msg around.now v.peers_sorted),
    )

pub on_init_tunnel-steps :
    (s : ServerState) (msg : InitTunnel) (around : Surroundings)
    → let added = (add_object s.tunnels_step (new_step s msg around.now)).0 in
      let s' = (on_init_tunnel s msg around).0 in
      (s'.type_peers ≡ s.type_peers)
      × (s'.avalable_peer_types ≡ s.avalable_peer_types)
      × ((s'.tunnels_step ≡ added) ⊎ (s' ≡ s))
unfolding on_init_tunnel
on_init_tunnel-steps s msg around = ground (
  arith,
  start_tunnels-managers
      (record s { tunnels_step = (add_object s.tunnels_step (new_step s msg around.now)).0 }) msg
      (type_or_all (found_peer s msg)) around,
)
