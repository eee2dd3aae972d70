-- ===== src/Ipc/Module.antt =====
-- src/cpp/lib/ipc_lib/module/ipc_module.cpp: `IPCModule`, the state of one module of the system and
-- its public operations. An operation returns the new state and what it does to the outside, in
-- order: the threads it starts, the virtual functions it calls, the signals it sends. Its signal
-- handler is Ipc/Handler.antt.
pub mod Route
pub mod Valid
mod Tests
use twainet.Prelude.{
  ℕ, zero, suc, ◌+◌, ◌-◌, Bool, true, false, not, ◌&&◌, ◌||◌, Option, none, some, List, [], ◌∷◌,
  ◌++◌, get_elem?, is_empty, leb, map, if◌then◌else◌,
}
use twainet.Prelude.Bytes.{Bytes, codes, str_eq}
use twainet.ObjectManager.{add_object, get_object}
use twainet.Ipc.ObjectName.{IpcObjectName, name_eq, get_module_name_string, get_ipc_name}
use twainet.Ipc.Object.{
  IpcObject, TryConnectCounter, coordinator_ipc_name, base_access_id, connect_timeout,
  coordinator_port, plain_object, new_counter, object_order, counter_order,
}

-- `interconn::ConnectionStatus` (src/messages/interconn.proto).
pub data ConnectionStatus : Type 0 where
  conn_open conn_close conn_failed conn_exist conn_init : ConnectionStatus

-- The fields of `IPCModule`. `listening` is `m_listenThread != 0`; the factories, the connector
-- manager and the IP version, which no operation changes, are left out.
pub record IpcModule : Type 0 where
  pub module_name : IpcObjectName
  pub ipc_object : List IpcObject
  pub modules : List IpcObject
  pub is_coordinator : Bool
  pub coordinator_name : Bytes
  pub is_exit : Bool
  -- `m_isStop` of the base class `DynamicManager`.
  pub is_stop : Bool
  pub listening : Bool
  pub count_listener : ℕ
  pub count_connect : ℕ
  pub try_connect_counters : List TryConnectCounter
  pub connectors : List (Bytes × List Bytes)
  pub connect_to_coordinator_request : Bool
  pub request_created : ℕ

-- A message on its way (src/messages/ipc.proto, `IPCMessage`).
pub record IpcMessage : Type 0 where
  pub message_name : Bytes
  pub ipc_path : List IpcObjectName
  pub ipc_sender : List IpcObjectName
  pub message : Bytes

pub data Event : Type 0 where
  -- Threads and connections.
  connect_thread : Bytes → ℕ → Event
  listen_thread : Bytes → Bytes → ℕ → Event
  -- `stop_listen_thread` is `Stop` and `AddThread`, `release_listen_thread` `AddThread` alone.
  stop_listen_thread release_listen_thread add_connection delete_connection : Event
  on_new_connector stop_connector_manager : Event
  stop_connection : Bytes → Event
  -- Virtual functions of the module.
  on_connected on_fire_connector on_connect_failed : Bytes → Event
  on_message : Bytes → List Bytes → Bytes → Event
  on_ipc_objects_changed module_creation_failed : Event
  on_internal_connection : Bytes → ConnectionStatus → ℕ → Event
  -- Signals to the connectors.
  send_msg : IpcMessage → Event
  change_ipc_name : IpcObjectName → Event
  init_internal_connection : IpcObjectName → Bytes → ℕ → Event
  -- A read past the end of `g_ipcCoordinatorPorts`.
  out_of_bounds : Event

-- `g_ipcCoordinatorPorts` (src/cpp/common/common.h).
abbrev pub coordinator_ports : List ℕ
coordinator_ports = coordinator_port ∷ []

abbrev pub localhost : Bytes
localhost = codes "localhost"

-- The constructor.
unfoldable pub new_module : IpcObjectName → IpcModule
new_module name = record {
  module_name = name;
  ipc_object = [];
  modules = [];
  is_coordinator = false;
  coordinator_name = [];
  is_exit = false;
  is_stop = false;
  listening = false;
  count_listener = 0;
  count_connect = 0;
  try_connect_counters = [];
  connectors = [];
  connect_to_coordinator_request = false;
  request_created = 0;
}

-- `Start(ip, port)`.
start_at : IpcModule → Bytes → ℕ → IpcModule × List Event
start_at m ip port = (
  record m { listening = true },
  (if m.listening then stop_listen_thread ∷ [] else [])
      ++ listen_thread (get_module_name_string m.module_name) ip port ∷ [],
)

-- `Start()`.
unfoldable pub start : IpcModule → IpcModule × List Event
unfolding start_at
start m = start_at (record m { is_coordinator = false }) localhost 0

-- `StartAsCoordinator()`.
unfoldable pub start_as_coordinator : IpcModule → IpcModule × List Event
unfolding start_at
start_as_coordinator m =
    let m' = record m {
      is_coordinator = true;
      coordinator_name = get_module_name_string m.module_name;
    } in
    elim (get_elem? coordinator_ports m.count_listener) [
      | none ↦ (m', out_of_bounds ∷ [])
      | some port ↦ start_at m' localhost port
    ]

-- `ConnectTo(moduleName)`. Where the object is found it is the one whose name is `name`.
unfoldable pub connect_to : IpcModule → IpcObjectName → IpcModule × List Event
connect_to m name =
    let id = get_module_name_string name in
    let failed : IpcModule × List Event = (m, on_connect_failed id ∷ []) in
    elim (get_object m.try_connect_counters (new_counter id)) [
      | some counter ↦ failed
      | none ↦ if m.is_exit then failed else elim (get_object m.ipc_object (plain_object name)) [
        | none ↦ failed
        | some object ↦ elim (get_object m.modules object) [
          | some connected ↦ failed
          | none ↦ (
            record m {
              try_connect_counters = (add_object m.try_connect_counters (new_counter id)).0;
            },
            connect_thread (get_module_name_string object.ipc_name) object.port ∷ [],
          )
        ]
      ]
    ]

-- `DisconnectModule(moduleName)`.
unfoldable disconnect_module : IpcModule → IpcObjectName → IpcModule × List Event
disconnect_module m name = (m, stop_connection (get_module_name_string name) ∷ [])

-- `ConnectToCoordinator()`.
pub connect_to_coordinator : IpcModule → List Event
connect_to_coordinator m =
    if m.is_exit then [] else elim (get_elem? coordinator_ports m.count_connect) [
      | none ↦ out_of_bounds ∷ []
      | some port ↦ connect_thread coordinator_ipc_name port ∷ []
    ]

-- `ManagerFunc()` at the time `now`.
unfoldable pub manager_func : IpcModule → ℕ → IpcModule × List Event
unfolding connect_to_coordinator
manager_func m now =
    if m.connect_to_coordinator_request && leb (m.request_created + connect_timeout) now
    then (record m { connect_to_coordinator_request = false }, connect_to_coordinator m)
    else (m, [])

-- `AddConnector(conn)`, for a connector that is an `IPCConnector`.
unfoldable pub add_connector : IpcModule → IpcModule × List Event
add_connector m =
    (m, if not m.is_exit then on_new_connector ∷ add_connection ∷ [] else delete_connection ∷ [])

-- `Exit()`.
unfoldable pub exit_module : IpcModule → IpcModule
exit_module m = record m { is_exit = true; is_stop = true }

-- `ManagerStop()`.
unfoldable manager_stop : IpcModule → List Event
manager_stop m = stop_connector_manager ∷ []

unfoldable get_ipc_objects : IpcModule → List IpcObjectName
get_ipc_objects m = map (λ o. o.ipc_name) m.ipc_object

unfoldable get_connected_modules : IpcModule → List IpcObjectName
get_connected_modules m = map (λ o. o.ipc_name) m.modules

-- The loop of `GetInternalConnections()`.
internal_names : List IpcObject → List IpcObjectName
internal_names [] = []
internal_names (o ∷ os) =
    let rest = internal_names os in
    if not (is_empty o.ipc_name.conn_id) then o.ipc_name ∷ rest else rest

unfoldable get_internal_connections : IpcModule → List IpcObjectName
unfolding internal_names
get_internal_connections m = internal_names m.modules

-- The first loop of `GetTargetPath`: is the target connected?
unfoldable pub has_name : List IpcObject → IpcObjectName → Bool
has_name [] target = false
has_name (o ∷ os) target = name_eq target o.ipc_name || has_name os target

-- The second loop: a step through each object that has the coordinator's access.
unfoldable pub coordinator_hops : Bool → List IpcObject → IpcObjectName → List IpcObjectName
coordinator_hops through [] target = []
coordinator_hops through (o ∷ os) target =
    let rest = coordinator_hops through os target in
    if not (is_empty o.ipc_name.conn_id)
    then rest
    else if through && str_eq o.access_id base_access_id
    then o.ipc_name ∷ target ∷ rest
    else rest

-- `GetTargetPath(target)`.
unfoldable pub get_target_path : IpcModule → IpcObjectName → List IpcObjectName
unfolding has_name coordinator_hops
get_target_path m target =
    if name_eq m.module_name target
    then []
    else if has_name m.modules target
    then target ∷ []
    else coordinator_hops (is_empty target.host_name) m.ipc_object target

-- `CreateInternalConnection(moduleName, ip, port)`.
unfoldable create_internal_connection :
    IpcModule → IpcObjectName → Bytes → ℕ → IpcModule × List Event
create_internal_connection m name ip port = elim (get_object m.modules (plain_object name)) [
  | none ↦ (m, init_internal_connection name ip port ∷ [])
  | some object ↦ (m, on_internal_connection (get_module_name_string name) conn_exist 0 ∷ [])
]
