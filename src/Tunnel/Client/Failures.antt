-- ===== src/Tunnel/Client/Failures.antt =====
-- The calls of the client on a null pointer.
use twainet.Prelude.{
  ◌≡◌, refl, Bool, true, false, not, ◌&&◌, ◌||◌, Option, none, some, List, [], ◌∷◌, arith, is_empty,
}
use twainet.Prelude.Bytes.{Bytes, str_eq_refl}
use twainet.StringMap.{map_find, map_find-map_set}
use twainet.ObjectManager.Reference.{is_some}
use twainet.Tunnel.PeerType.{
  TunnelType, tunnel_all, tunnel_local_tcp, tunnel_local_udp, tunnel_external, tunnel_relay_tcp,
  tunnel_relay_udp,
}
use twainet.Tunnel.Message.{Event, TryConnectTo, TunnelConnectAddress}
use twainet.Tunnel.Client.{
  TunnelConnect, ClientState, create_local_connect_thread, create_external_connect_thread,
}
use twainet.Tunnel.Client.Handler.{
  on_try_connect_to, connect_each, on_error_external_connect, on_error_local_listener,
}

-- A null pointer that `onTryConnectTo` uses for a tunnel: the socket for a local UDP connection, and
-- the thread for an external one.
abbrev pub is_needed_null : TunnelType → TunnelConnect → Bool
is_needed_null tunnel_all tunnel = false
is_needed_null tunnel_local_tcp tunnel = false
is_needed_null tunnel_local_udp tunnel = not (is_some tunnel.local_udp_socket)
is_needed_null tunnel_external tunnel = not (is_some tunnel.external_connect)
is_needed_null tunnel_relay_tcp tunnel = false
is_needed_null tunnel_relay_udp tunnel = false

abbrev pub is_null_used : ClientState → TryConnectTo → Bool
is_null_used s msg = elim (map_find s.tunnels msg.ext_session_id) [
  | none ↦ false
  | some tunnel ↦ not (is_empty msg.adresses) && is_needed_null msg.type tunnel
]

connect_each-is_some :
    (connect : TunnelConnectAddress → Option (List Event)) (b : Bool)
    → ((a : TunnelConnectAddress) → is_some (connect a) ≡ b)
    → (addresses : List TunnelConnectAddress)
    → is_some (connect_each connect addresses) ≡ (is_empty addresses || b)
unfolding connect_each
connect_each-is_some connect b h [] = refl
connect_each-is_some connect b h (a ∷ addresses) =
    ground (arith, h a, connect_each-is_some connect b h addresses)

try_connect_of-is_null_used :
    (s : ClientState) (type : TunnelType) (ext own : Bytes) (addresses : List TunnelConnectAddress)
    → let msg : TryConnectTo = record {
      ext_session_id = ext;
      own_session_id = own;
      type = type;
      adresses = addresses;
    } in
      is_some (on_try_connect_to s msg) ≡ not (is_null_used s msg)
unfolding on_try_connect_to create_local_connect_thread create_external_connect_thread
try_connect_of-is_null_used s tunnel_all ext own addresses = ground arith
try_connect_of-is_null_used s tunnel_relay_tcp ext own addresses = ground arith
try_connect_of-is_null_used s tunnel_relay_udp ext own addresses = ground arith
try_connect_of-is_null_used s tunnel_local_tcp ext own addresses = ground (
  arith,
  connect_each-is_some (λ a. create_local_connect_thread s ext a.ip a.port true) true
      (λ a. ground arith) addresses,
)
try_connect_of-is_null_used s tunnel_local_udp ext own addresses =
    let b : Bool = elim (map_find s.tunnels ext) [
      | none ↦ true
      | some tunnel ↦ is_some tunnel.local_udp_socket
    ] in
    ground (
      arith,
      connect_each-is_some (λ a. create_local_connect_thread s ext a.ip a.port false) b
          (λ a. ground arith) addresses,
    )
try_connect_of-is_null_used s tunnel_external ext own addresses =
    let b : Bool = elim (map_find s.tunnels ext) [
      | none ↦ true
      | some tunnel ↦ is_some tunnel.external_connect
    ] in
    ground (
      arith,
      connect_each-is_some (λ a. create_external_connect_thread s ext a.ip a.port) b
          (λ a. ground arith) addresses,
    )

-- `onTryConnectTo` uses a null pointer exactly when the message has an address, there is an entry
-- for the session, and the entry has no UDP socket for a local UDP connection or no thread for an
-- external one.
pub on_try_connect_to-is_null_used :
    (s : ClientState) (msg : TryConnectTo)
    → is_some (on_try_connect_to s msg) ≡ not (is_null_used s msg)
on_try_connect_to-is_null_used s msg =
    try_connect_of-is_null_used s msg.type msg.ext_session_id msg.own_session_id msg.adresses

-- An external connection of an entry that fails leaves the entry without its thread, so that the
-- next address that the server sends for it, in a `TryConnectTo` of external type, is used on a null
-- pointer. A second error of a local listener is one on a null pointer too.
pub on_error_external_connect-is_null_used :
    (s : ClientState) (msg : TryConnectTo) {tunnel : TunnelConnect}
    → map_find s.tunnels msg.ext_session_id ≡ some tunnel
    → msg.type ≡ tunnel_external
    → is_empty msg.adresses ≡ false
    → (on_try_connect_to (on_error_external_connect s msg.ext_session_id).0 msg ≡ none)
      × (elim (on_error_local_listener s msg.ext_session_id) [
        | none ↦ true
        | some (s', events) ↦ not (is_some (on_error_local_listener s' msg.ext_session_id))
      ]
          ≡ true)
unfolding on_error_external_connect on_error_local_listener
on_error_external_connect-is_null_used s msg {tunnel} e f g =
    let ext = msg.ext_session_id in
    let s' = (on_error_external_connect s ext).0 in
    ground (
      arith,
      e,
      f,
      g,
      on_try_connect_to-is_null_used s' msg,
      map_find-map_set s.tunnels ext (record tunnel { external_connect = none }) ext,
      map_find-map_set s.tunnels ext (record tunnel { local_listen = none }) ext,
      str_eq_refl ext,
    )
