-- ===== src/ClientServer/Module/Handler.antt =====
-- src/cpp/lib/client_server_lib/module/client_server_signal_handler.cpp: `ClientServerSignalHandler`.
use twainet.Prelude.{
  ℕ, Bool, true, false, not, ◌&&◌, none, some, List, [], ◌∷◌, ◌++◌, map, is_empty, if◌then◌else◌,
}
use twainet.Prelude.Bytes.{Bytes, str_eq}
use twainet.ObjectManager.{get_object, check_objects}
use twainet.Ipc.ObjectName.{plain_name, get_module_name_string, get_ipc_name}
use twainet.Ipc.Object.{IpcObject}
use twainet.Ipc.Module.{add_connector}
use twainet.ClientServer.Connector.{ClientServerConnector, server_ipc_name, client_ipc_name}
use twainet.ClientServer.Module.{
  ClientServerModule, user_order, Event, on_connect_failed, on_client_connector,
  on_server_connected, server_creation_failed, on_auth_failed, on_ipc_objects_changed,
  release_thread, stop_connection, base_event,
}

-- `onAddClientServerConnector`: the connector gets the user's name and password, and is added.
unfoldable on_add_client_server_connector :
    ClientServerModule
    → ClientServerConnector
    → ClientServerConnector × ClientServerModule × List Event
on_add_client_server_connector m conn =
    let (base', events) = add_connector m.base in
    (
      record conn { user_name = m.user.user_name; password = m.user.password },
      record m { base = base' },
      map base_event events,
    )

-- `onErrorConnect`.
unfoldable pub on_error_server_connect :
    ClientServerModule → Bytes → ℕ → ClientServerModule × List Event
on_error_server_connect m module_name now =
    if not m.is_stop_connect && not m.base.is_exit
    then (record m { connect_to_server_request = true; request_server_created = now }, [])
    else (m, on_connect_failed module_name ∷ [])

-- `onErrorListener`.
unfoldable on_error_server_listener : ClientServerModule → ClientServerModule × List Event
on_error_server_listener m = (
  record m { server_thread = none; base = record m.base { is_exit = true } },
  elim m.server_thread [ none ↦ [] | some thread ↦ release_thread thread ∷ [] ]
      ++ server_creation_failed ∷ [],
)

-- `onLogin`: is the login a success?
unfoldable pub on_login : ClientServerModule → Bytes → Bytes → Bool
on_login m name password =
    elim (get_object m.user_passwords (record { user_name = name; password = [] })) [
      | none ↦ false
      | some user ↦ str_eq user.password password
    ]

-- `onLoginResult`.
unfoldable pub on_login_result : ClientServerModule → Bool → Bytes → ClientServerModule × List Event
on_login_result m success session =
    if not success
    then (record m { is_stop_connect = true }, on_auth_failed ∷ [])
    else if is_empty m.own_session_id
    then (record m { own_session_id = session }, [])
    else (m, stop_connection (get_module_name_string (plain_name server_ipc_name)) ∷ [])

-- `onConnected`.
pub on_session_connected : Bytes → List Event
on_session_connected id =
    let name = get_ipc_name id in
    if str_eq name.module_name server_ipc_name
    then on_server_connected ∷ []
    else if str_eq name.module_name client_ipc_name
    then on_client_connector name.host_name ∷ []
    else []

-- `ipcChecker::CheckIPCObject`: a client of the same access id.
unfoldable pub check_client_object : Bytes → Unit {0} → IpcObject → Unit {0} × Bool
check_client_object access_id u object =
    (u, str_eq access_id object.access_id && str_eq object.ipc_name.module_name client_ipc_name)

-- `onDisconnected`: the clients that the server told of are forgotten.
unfoldable pub on_session_disconnected :
    ClientServerModule → Bytes → Bytes → ClientServerModule × List Event
on_session_disconnected m id access_id =
    if str_eq (get_ipc_name id).module_name server_ipc_name
    then (
      record m {
        base = record m.base {
          ipc_object = (check_objects (check_client_object access_id) tt m.base.ipc_object).1;
        };
      },
      on_ipc_objects_changed ∷ [],
    )
    else (m, [])
