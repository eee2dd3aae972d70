-- ===== src/ClientServer/Connector/Requests.antt =====
-- From a client's wish for a tunnel of a type to the tunnels that the server starts.
use twainet.Prelude.{◌<◌, ◌≡◌, refl, ap, ◌∙◌, true, ◌==◌, none, some, List, [], ◌∷◌, arith}
use twainet.Prelude.Bytes.{Bytes, str_eq_refl}
use twainet.ObjectManager.{add_object, get_object, update_object}
use twainet.ObjectManager.Sorted.{IsSorted, add_object-IsSorted, update_object-IsSorted}
use twainet.ObjectManager.Refinement.{get_object-lookup, lookup-add_object, lookup-update_object}
use twainet.Ipc.ObjectName.{plain_name}
use twainet.Ipc.Object.{plain_object, object_order}
use twainet.Tunnel.PeerType.{
  PeerType, TunnelType, TypeConnection, type_number, peer_order, peer_eq, new_peer, tunnel_type_of,
  unknown, local_tcp, local_udp, external, relay_tcp, relay_udp,
}
use twainet.Tunnel.Message.{InitTunnel, peer_data}
use twainet.Tunnel.Client.{ClientState, init_new_tunnel, tunnel_ipc_name, peer_data_of}
use twainet.Tunnel.Choice.{chosen, same_sessions}
use twainet.Tunnel.Server.{ServerState, Surroundings, step_order, on_init_tunnel, on_peer_data}
use twainet.Tunnel.Server.Run.{Request, run}
use twainet.Tunnel.Server.Valid.{on_peer_data-IsValid}
use twainet.Tunnel.Server.Pending.{new_state, pending, run-new-IsValid}
use twainet.Tunnel.Server.Kinds.{is_kind_started, started_kinds}
use twainet.ClientServer.Connector.{
  ClientServerConnector, send_message, init_tunnel_msg, peer_data_msg, on_init_tunnel_signal,
  on_peer_data_signal, peer_module, server_ipc_name,
}
use twainet.ClientServer.Connector.Relay.{signal, signal_all, server_not_client}

-- The state after `onPeerData` finds the peer that it was called with.
chosen-on_peer_data :
    (s : ServerState) (p : PeerType) (one two : Bytes)
    → IsSorted s.type_peers
    → peer_eq p (new_peer one two) ≡ true
    → chosen (on_peer_data s p).type_peers one two ≡ some p.tunnel_type
unfolding on_peer_data
chosen-on_peer_data s p one two v e =
    let q = new_peer one two in
    let peers = (add_object s.type_peers p).0 in
    let sorted = add_object-IsSorted s.type_peers p v in
    let added = lookup-add_object s.type_peers p v in
    let updated = lookup-update_object peers p sorted in
    ground (
      arith,
      e,
      added.1,
      ap (λ f. f q) added.0,
      ap (λ f. f p) added.0,
      ap (λ f. f q) updated.0,
      get_object-lookup peers q sorted,
      get_object-lookup (update_object peers p).0 q (update_object-IsSorted peers p sorted),
      peer_order.lawful.eq_refl p,
    )

-- The two messages of `InitNewTunnel`.
abbrev pub wished_peer : ClientState → Bytes → TypeConnection → PeerType
wished_peer c ext type = record (new_peer c.own_session_id ext) {
  tunnel_type = tunnel_type_of type;
}

abbrev pub wished_tunnel : ClientState → Bytes → InitTunnel
wished_tunnel c ext = record {
  own_session_id = c.own_session_id;
  ext_session_id = ext;
  type = none;
  address = some (record { ip = c.server_ip; port = 0 });
}

peer_data_of_known :
    (c : ClientState) (ext : Bytes) (type : TypeConnection)
    → 0 < type_number (tunnel_type_of type)
    → peer_data_of c ext type ≡ peer_data (wished_peer c ext type) ∷ []
peer_data_of_known c ext unknown h = ground (arith, h)
peer_data_of_known c ext local_tcp h = refl
peer_data_of_known c ext local_udp h = refl
peer_data_of_known c ext external h = refl
peer_data_of_known c ext relay_tcp h = refl
peer_data_of_known c ext relay_udp h = refl

pending-on_peer_data :
    (s : ServerState) (p : PeerType) (one two : Bytes)
    → pending (on_peer_data s p) one two ≡ pending s one two
unfolding on_peer_data
pending-on_peer_data s p one two = refl

-- `InitNewTunnel` of a known type, for a session with which there is no tunnel yet, sends the server
-- the type and the request. When the server handles the two, with no step pending for the
-- sessions, it starts a tunnel of that type and of no other, whatever was set or available before.
pub init_new_tunnel-is_kind_started :
    (c : ClientState) (ext : Bytes) (type : TypeConnection) (to_server : ClientServerConnector)
    (before : List Request) (around : Surroundings) (kind : TunnelType)
    → get_object c.modules (plain_object (record (plain_name tunnel_ipc_name) { host_name = ext }))
      ≡ none
    → 0 < type_number (tunnel_type_of type)
    → peer_module to_server ≡ server_ipc_name
    → to_server.own_session_id ≡ c.own_session_id
    → pending (run new_state before) c.own_session_id ext ≡ none
    → 0 < type_number kind
    → let s = on_peer_data (run new_state before) (wished_peer c ext type) in
      (signal_all to_server (init_new_tunnel c ext type)
        ≡ send_message (peer_data_msg (wished_peer c ext type))
          ∷ send_message (init_tunnel_msg (wished_tunnel c ext))
          ∷ [])
      × (is_kind_started kind (on_init_tunnel s (wished_tunnel c ext) around).1
          ≡ (type_number (tunnel_type_of type) == type_number kind))
unfolding init_new_tunnel signal_all signal on_init_tunnel_signal on_peer_data_signal
init_new_tunnel-is_kind_started c ext type to_server before around kind a h b d e k =
    let s = run new_state before in
    let v = run-new-IsValid before in
    let p = wished_peer c ext type in
    let s' = on_peer_data s p in
    (
      ground (
        arith,
        a,
        b,
        d,
        peer_data_of_known c ext type h,
        server_not_client,
        str_eq_refl server_ipc_name,
        str_eq_refl c.own_session_id,
      ),
      ground (
        arith,
        h,
        started_kinds s' (wished_tunnel c ext) around kind (on_peer_data-IsValid s p v)
            (pending-on_peer_data s p c.own_session_id ext ∙ e) k,
        chosen-on_peer_data s p c.own_session_id ext v.peers_sorted
            (same_sessions p (new_peer c.own_session_id ext) refl refl),
      ),
    )
