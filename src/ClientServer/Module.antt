-- ===== src/ClientServer/Module.antt =====
-- src/cpp/lib/client_server_lib/module/client_server_module.cpp: `ClientServerModule`, a module that
-- connects to a server, or is one. `base` is the part that it inherits from `IPCModule`. The address
-- of a new thread and the clock are arguments.
pub mod Handler
pub mod Users
pub mod Reconnect
mod Tests
use twainet.Prelude.{
  ℕ, ◌+◌, leb, Bool, true, false, not, ◌&&◌, ◌||◌, Option, none, some, List, [], ◌∷◌, ◌++◌, map,
  if◌then◌else◌,
}
use twainet.Prelude.Bytes.{Bytes, codes, str_eq, str_lt}
use twainet.Order.{Order, IsOrder, Bytes-IsLinear, key-IsOrder}
use twainet.ObjectManager.{add_object, remove_object, update_object}
use twainet.Ipc.ObjectName.{IpcObjectName, plain_name, get_module_name_string, get_ipc_name}
use twainet.Ipc.Object.{connect_timeout}
use twainet.Ipc.Module.{IpcModule, new_module, manager_func}
use twainet.Ipc.Module as Base
use twainet.ClientServer.Connector.{server_ipc_name, client_ipc_name}

-- `UserPassword`.
pub record UserPassword : Type 0 where
  pub user_name : Bytes
  pub password : Bytes

pub user_eq : UserPassword → UserPassword → Bool
user_eq a b = str_eq a.user_name b.user_name

pub user_lt : UserPassword → UserPassword → Bool
user_lt a b = str_lt a.user_name b.user_name

pub user-IsOrder : IsOrder user_lt user_eq
unfolding user_lt user_eq
user-IsOrder = key-IsOrder Bytes-IsLinear (λ (u : UserPassword). u.user_name)

instance abbrev pub user_order : Order UserPassword
user_order = record { lt = user_lt; eqb = user_eq; lawful = user-IsOrder }

-- `server_thread` is `m_serverThread`.
pub record ClientServerModule : Type 0 where
  pub base : IpcModule
  pub own_session_id : Bytes
  pub ip : Bytes
  pub port : ℕ
  pub is_use_proxy : Bool
  pub proxy_ip : Bytes
  pub proxy_port : ℕ
  pub proxy_user : UserPassword
  pub is_stop_connect : Bool
  pub user : UserPassword
  pub server_thread : Option ℕ
  pub user_passwords : List UserPassword
  pub connect_to_server_request : Bool
  pub request_server_created : ℕ

pub data Event : Type 0 where
  -- A `ConnectThread` to the server, with a proxy or without, and a `BaseListenThread` for clients.
  connect_thread : Bytes → ℕ → Bool → Event
  listen_thread : ℕ → ℕ → Bytes → Event
  -- `Stop` and `AddThread`, and `AddThread` alone.
  stop_thread release_thread : ℕ → Event
  stop_connection : Bytes → Event
  -- Virtual functions.
  on_fire_connector on_connect_failed on_client_connector : Bytes → Event
  on_server_connected server_creation_failed on_auth_failed on_ipc_objects_changed : Event
  -- What the inherited part does.
  base_event : Base.Event → Event

-- The constructor.
abbrev pub new_client_server : IpcObjectName → ClientServerModule
new_client_server name =
    let nobody : UserPassword = record { user_name = []; password = [] } in
    record {
      base = new_module name;
      own_session_id = [];
      ip = [];
      port = 0;
      is_use_proxy = false;
      proxy_ip = [];
      proxy_port = 0;
      proxy_user = nobody;
      is_stop_connect = true;
      user = nobody;
      server_thread = none;
      user_passwords = [];
      connect_to_server_request = false;
      request_server_created = 0;
    }

-- `Connect`.
pub connect_to_server : ClientServerModule → Bytes → ℕ → ClientServerModule × List Event
connect_to_server m ip port = if m.base.is_exit then (m, []) else (
  record m { is_stop_connect = false; ip = ip; port = port },
  connect_thread ip port m.is_use_proxy ∷ [],
)

-- `OnFireConnector`.
pub on_fire_server_connector : ClientServerModule → Bytes → ℕ → ClientServerModule × List Event
on_fire_server_connector m module_name now =
    let name = get_ipc_name module_name in
    if (str_eq name.module_name server_ipc_name && str_eq name.host_name m.own_session_id)
      && (not m.is_stop_connect && not m.base.is_exit)
    then (
      record m {
        own_session_id = [];
        connect_to_server_request = true;
        request_server_created = now;
      },
      [],
    )
    else (m, on_fire_connector module_name ∷ [])

-- `CheckFireConnector`.
unfoldable pub check_fire_connector : Bytes → Bool
check_fire_connector module_name =
    let name = get_ipc_name module_name in
    str_eq name.module_name server_ipc_name || str_eq name.module_name client_ipc_name

-- `ManagerFunc`.
pub client_server_manager_func : ClientServerModule → ℕ → ClientServerModule × List Event
client_server_manager_func m now =
    let (base', events) = manager_func m.base now in
    let m1 = record m { base = base' } in
    let (m2, events') = connect_to_server m1 m1.ip m1.port in
    if m1.connect_to_server_request && leb (m1.request_server_created + connect_timeout) now
    then (record m2 { connect_to_server_request = false }, map base_event events ++ events')
    else (m1, map base_event events)

-- `Disconnect`.
pub disconnect_from_server : ClientServerModule → ClientServerModule × List Event
disconnect_from_server m =
    let name : IpcObjectName = record (plain_name server_ipc_name) {
      host_name = m.own_session_id;
    } in
    (record m { is_stop_connect = true }, stop_connection (get_module_name_string name) ∷ [])

-- `SetUserName`.
unfoldable set_user_name : ClientServerModule → Bytes → ClientServerModule
set_user_name m name = record m { user = record m.user { user_name = name } }

-- `SetPassword`.
unfoldable set_password : ClientServerModule → Bytes → ClientServerModule
set_password m password = record m { user = record m.user { password = password } }

-- `AddUser`.
pub add_user : ClientServerModule → Bytes → Bytes → ClientServerModule
add_user m name password =
    let user : UserPassword = record { user_name = name; password = password } in
    let (users, added) = add_object m.user_passwords user in
    record m { user_passwords = if not added then (update_object users user).0 else users }

-- `RemoveUser`.
pub remove_user : ClientServerModule → Bytes → Bytes → ClientServerModule
remove_user m name password =
    let user : UserPassword = record { user_name = name; password = password } in
    record m { user_passwords = (remove_object m.user_passwords user).0 }

-- `ClearUsers`.
pub clear_users : ClientServerModule → ClientServerModule
clear_users m = record m { user_passwords = [] }

abbrev pub stop_server_thread : Option ℕ → List Event
stop_server_thread none = []
stop_server_thread (some thread) = stop_thread thread ∷ []

-- `StartServer`.
unfoldable start_server : ClientServerModule → ℕ → Bool → ℕ → ClientServerModule × List Event
start_server m port local thread = (
  record m { server_thread = some thread },
  stop_server_thread m.server_thread
      ++ listen_thread thread port (if local then codes "localhost" else []) ∷ [],
)

-- `IsStopServer`.
unfoldable is_stop_server : ClientServerModule → Bool
is_stop_server m = elim m.server_thread [ none ↦ true | some thread ↦ false ]

-- `StopServer`.
unfoldable stop_server : ClientServerModule → ClientServerModule × List Event
stop_server m = (record m { server_thread = none }, stop_server_thread m.server_thread)

-- `UseStandartConnections`.
unfoldable use_standart_connections : ClientServerModule → ClientServerModule
use_standart_connections m = record m { is_use_proxy = false }

-- `UseProxy`.
unfoldable use_proxy : ClientServerModule → Bytes → ℕ → ClientServerModule
use_proxy m ip port = record m { is_use_proxy = true; proxy_ip = ip; proxy_port = port }

-- `SetProxyUserName`.
unfoldable set_proxy_user_name : ClientServerModule → Bytes → ClientServerModule
set_proxy_user_name m name = record m { proxy_user = record m.proxy_user { user_name = name } }

-- `SetProxyPassword`.
unfoldable set_proxy_password : ClientServerModule → Bytes → ClientServerModule
set_proxy_password m password = record m {
  proxy_user = record m.proxy_user { password = password };
}
