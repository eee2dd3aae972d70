-- ===== src/ClientServer/Connector.antt =====
-- src/cpp/lib/client_server_lib/connector/client_server_connector.cpp: `ClientServerConnector`, an end
-- of the connection of a client and a server. The GUID of a new session and what the module
-- answers to a login are arguments. Its handler of `ModuleName` is not here.
pub mod Login
pub mod Relay
pub mod Tunnels
pub mod Requests
mod Tests
use twainet.Prelude.{Bool, not, ◌&&◌, ◌||◌, ◌==◌, List, [], ◌∷◌, ◌++◌, if◌then◌else◌}
use twainet.Prelude.Bytes.{Bytes, codes, str_eq}
use twainet.ObjectManager.Reference.{is_some}
use twainet.Ipc.ObjectName.{name_eq, get_module_name_string, get_ipc_name}
use twainet.Ipc.Object.{IpcObject}
use twainet.Ipc.Module.{IpcMessage}
use twainet.Ipc.Connector.{IpcConnector}
use twainet.Tunnel.PeerType.{
  PeerType, type_number, tunnel_local_tcp, tunnel_local_udp, tunnel_external,
}
use twainet.Tunnel.Message.{InitTunnel, TryConnectTo, SessionPair, AvailablePearTypes}

-- `m_serverIPCName`.
abbrev pub server_ipc_name : Bytes
server_ipc_name = codes "Server"

-- `m_clientIPCName`.
abbrev pub client_ipc_name : Bytes
client_ipc_name = codes "Client"

pub record ClientServerConnector : Type 0 where
  pub base : IpcConnector
  pub own_session_id : Bytes
  pub user_name : Bytes
  pub password : Bytes

-- The messages of src/messages/client_server.proto, and of src/messages/ipc.proto those that the
-- connector sends itself.
pub data SessionMessage : Type 0 where
  login_msg : Bytes → Bytes → SessionMessage
  login_result_msg : Bool → Bytes → SessionMessage
  init_tunnel_msg : InitTunnel → SessionMessage
  init_tunnel_started_msg init_tunnel_complete_msg : SessionPair → SessionMessage
  try_connect_to_msg : TryConnectTo → SessionMessage
  peer_data_msg : PeerType → SessionMessage
  available_types_msg : AvailablePearTypes → SessionMessage
  path_msg : IpcMessage → SessionMessage
  name_msg added_object_msg : IpcObject → SessionMessage

pub data SessionAct : Type 0 where
  -- `toMessage`, `onSignal` and `onIPCSignal`.
  send_message raise_signal raise_ipc_signal : SessionMessage → SessionAct
  stop_session stop_login_checker : SessionAct

-- `GetIPCName(m_id).module_name()`.
abbrev pub peer_module : ClientServerConnector → Bytes
peer_module c = (get_ipc_name c.base.id).module_name

abbrev pub is_to_client : ClientServerConnector → Bool
is_to_client c = str_eq (peer_module c) client_ipc_name

abbrev pub is_to_server : ClientServerConnector → Bool
is_to_server c = str_eq (peer_module c) server_ipc_name

-- `OnStart`.
pub on_session_start : ClientServerConnector → List SessionAct
on_session_start c =
    if str_eq c.base.id server_ipc_name
    then send_message (login_msg c.user_name c.password) ∷ []
    else []

-- `onIPCMessage`, from another connector of the module.
unfoldable on_session_ipc_message : ClientServerConnector → IpcMessage → List SessionAct
on_session_ipc_message c msg = elim msg.ipc_path [
  | [] ↦ []
  | path ∷ rest ↦
      if name_eq path c.base.module_name
      then send_message (path_msg (record msg { ipc_path = get_ipc_name c.base.id ∷ rest })) ∷ []
      else if str_eq (get_module_name_string path) c.base.id
      then send_message (path_msg msg) ∷ []
      else []
]

-- `onInitTunnelSignal`.
pub on_init_tunnel_signal : ClientServerConnector → InitTunnel → List SessionAct
on_init_tunnel_signal c msg =
    if (is_to_client c || (not (is_some msg.type) && is_to_server c))
      && str_eq msg.own_session_id c.own_session_id
    then send_message (init_tunnel_msg msg) ∷ []
    else []

-- `onInitTunnelCompleteSignal`.
unfoldable pub on_init_tunnel_complete_signal :
    ClientServerConnector → SessionPair → List SessionAct
on_init_tunnel_complete_signal c msg =
    if is_to_server c && str_eq msg.own_session_id c.own_session_id
    then send_message (init_tunnel_complete_msg msg) ∷ []
    else []

-- `onInitTunnelStartedSignal`.
pub on_init_tunnel_started_signal : ClientServerConnector → SessionPair → List SessionAct
on_init_tunnel_started_signal c msg =
    if is_to_client c && str_eq msg.own_session_id c.own_session_id
    then send_message (init_tunnel_started_msg msg) ∷ []
    else []

-- `onTryConnectToMessage`, from another connector of the module.
pub on_try_connect_to_message : ClientServerConnector → TryConnectTo → List SessionAct
on_try_connect_to_message c msg =
    if is_to_client c && str_eq msg.own_session_id c.own_session_id
    then send_message (try_connect_to_msg msg) ∷ []
    else []

-- `onTryConnectToSignal`.
pub on_try_connect_to_signal : ClientServerConnector → TryConnectTo → List SessionAct
on_try_connect_to_signal c msg =
    let n = type_number msg.type in
    if ((is_to_server c && (n == type_number tunnel_local_tcp || n == type_number tunnel_local_udp))
        || (is_to_client c && n == type_number tunnel_external))
      && str_eq msg.own_session_id c.own_session_id
    then send_message (try_connect_to_msg msg) ∷ []
    else []

-- `onPeerDataSignal`.
pub on_peer_data_signal : ClientServerConnector → PeerType → List SessionAct
on_peer_data_signal c msg =
    if is_to_server c && str_eq msg.one_session_id c.own_session_id
    then send_message (peer_data_msg msg) ∷ []
    else []

-- `onAvailablePearTypesSignal`.
unfoldable pub on_available_pear_types_signal :
    ClientServerConnector → AvailablePearTypes → List SessionAct
on_available_pear_types_signal c msg =
    if is_to_server c && str_eq msg.session_id c.own_session_id
    then send_message (available_types_msg msg) ∷ []
    else []

-- `onIPCObjectListMessage`: the objects of the message, which the connector adds its peer to.
unfoldable on_session_object_list : ClientServerConnector → Bytes → List IpcObject → List IpcObject
on_session_object_list c access_id objects =
    if is_to_client c && str_eq access_id c.base.access_id
    then objects
      ++ record {
        ipc_name = get_ipc_name c.base.id;
        ip = [];
        port = 0;
        access_id = c.base.access_id;
      }
        ∷ []
    else objects

-- `onAddIPCObjectMessage`.
unfoldable on_session_add_object : ClientServerConnector → IpcObject → List SessionAct
on_session_add_object c object =
    if is_to_client c && str_eq object.access_id c.base.access_id
    then send_message (added_object_msg object) ∷ []
    else []

-- `onMessage(const PeerData&)`.
unfoldable on_message_peer_data : PeerType → List SessionAct
on_message_peer_data msg = raise_signal (peer_data_msg msg) ∷ []

-- `onMessage(const AvailablePearTypes&)`.
unfoldable on_message_available_types : AvailablePearTypes → List SessionAct
on_message_available_types msg = raise_signal (available_types_msg msg) ∷ []

-- `onMessage(const InitTunnelComplete&)`.
unfoldable on_message_init_tunnel_complete : SessionPair → List SessionAct
on_message_init_tunnel_complete msg = raise_signal (init_tunnel_complete_msg msg) ∷ []

-- `onMessage(const InitTunnel&)`: the server's module handles `InitTunnelSignal`, the client's
-- `InitTunnelMessage`.
unfoldable on_message_init_tunnel : ClientServerConnector → InitTunnel → List SessionAct
on_message_init_tunnel c msg =
    if is_to_client c
    then raise_signal (init_tunnel_msg msg) ∷ []
    else if is_to_server c
    then raise_signal (init_tunnel_msg msg) ∷ []
    else []

-- `onMessage(const TryConnectTo&)`: a server turns the sessions round and asks its other connectors.
pub on_message_try_connect_to : ClientServerConnector → TryConnectTo → List SessionAct
on_message_try_connect_to c msg =
    if is_to_client c
    then raise_ipc_signal (
        try_connect_to_msg
          (record msg { own_session_id = msg.ext_session_id; ext_session_id = msg.own_session_id }))
      ∷ []
    else if is_to_server c
    then raise_signal (try_connect_to_msg msg) ∷ []
    else []

-- `onMessage(const InitTunnelStarted&)`.
unfoldable on_message_init_tunnel_started : SessionPair → List SessionAct
on_message_init_tunnel_started msg = raise_signal (init_tunnel_started_msg msg) ∷ []
