-- ===== src/Ipc/Handler.antt =====
-- src/cpp/lib/ipc_lib/module/ipc_signal_handler.cpp: `IPCSignalHandler`, which changes the module's
-- state on the signals of its threads and connectors. The current time, the user's name and the
-- virtual functions that answer a question (`CheckFireConnector`, `FillIPCObjectList`) are arguments.
pub mod Valid
pub mod Counters
pub mod Retry
pub mod Disconnect
pub mod Rename
pub mod Listing
mod Tests
use twainet.Prelude.{
  ℕ, zero, suc, ◌+◌, ◌-◌, Bool, true, false, not, ◌&&◌, ◌||◌, Option, none, some, List, [], ◌∷◌,
  ◌++◌, get_elem?, is_empty, ltb, map, length, if◌then◌else◌, ◌==◌,
}
use twainet.Prelude.Bytes.{Bytes, str_eq}
use twainet.StringMap.{map_find, map_set, map_insert, map_erase}
use twainet.ObjectManager.{add_object, get_object, remove_object, update_object, check_objects}
use twainet.Ipc.ObjectName.{IpcObjectName, name_eq, get_module_name_string, get_ipc_name}
use twainet.Ipc.Object.{
  IpcObject, TryConnectCounter, coordinator_ipc_name, base_access_id, internal_access_id,
  coordinator_port_count, max_try_connect_count, local_ip, plain_object, new_counter, object_order,
  counter_order,
}
use twainet.Ipc.Module.{
  IpcModule, IpcMessage, Event, ConnectionStatus, conn_open, conn_close, start_as_coordinator,
  connect_to, connect_to_coordinator, get_target_path,
}

-- `onCreatedListener`.
pub on_created_listener : Bytes → IpcModule → Bytes → Bytes → ℕ → IpcModule × List Event
on_created_listener user_name m id ip port =
    let object : IpcObject = record {
      ipc_name = get_ipc_name id;
      ip = ip;
      port = port;
      access_id = if m.is_coordinator then base_access_id else user_name;
    } in
    let m' = record m { ipc_object = (add_object m.ipc_object object).0 } in
    (
      m',
      Event.on_ipc_objects_changed
          ∷ (if not m.is_coordinator then connect_to_coordinator m' else []),
    )

-- `onErrorListener`.
pub on_error_listener : IpcModule → IpcModule × List Event
on_error_listener m =
    if m.is_coordinator && ltb (m.count_listener + 1) coordinator_port_count
    then start_as_coordinator (record m { count_listener = m.count_listener + 1 })
    else (
      record m { listening = false; is_exit = true },
      Event.release_listen_thread ∷ Event.module_creation_failed ∷ [],
    )

-- The next index into the coordinator's ports, and the request to connect again later.
pub request_coordinator : IpcModule → ℕ → IpcModule
request_coordinator m now = record m {
  count_connect = if m.count_connect + 1 == coordinator_port_count then 0 else m.count_connect + 1;
  connect_to_coordinator_request = true;
  request_created = now;
}

abbrev pub counter_or : TryConnectCounter → Option TryConnectCounter → TryConnectCounter
counter_or c none = c
counter_or c (some found) = found

-- `onErrorConnect`.
pub on_error_connect : IpcModule → ℕ → Bytes → IpcModule × List Event
unfolding request_coordinator
on_error_connect m now name =
    if str_eq name coordinator_ipc_name && not m.is_exit
    then (request_coordinator m now, [])
    else let found = get_object m.try_connect_counters (new_counter name) in
      let counter = counter_or (new_counter name) found in
      let unknown : List Event = elim found [
        | none ↦ Event.on_connect_failed name ∷ []
        | some c ↦ []
      ] in
      if ltb counter.count max_try_connect_count && not m.is_exit
      then (let (m', events) = connect_to m (get_ipc_name name) in
          let counter' = record counter { count = counter.count + 1 } in
          (
            record m' { try_connect_counters = (update_object m'.try_connect_counters counter').0 },
            unknown ++ events,
          ))
      else (
        record m { try_connect_counters = (remove_object m.try_connect_counters counter).0 },
        unknown ++ Event.on_connect_failed name ∷ [],
      )

-- `onConnected`.
pub on_connected : IpcModule → Bytes → Bool → IpcModule × List Event
on_connected m id with_coordinator = (
  (if with_coordinator then record m { coordinator_name = id } else m),
  Event.on_connected id ∷ [],
)

abbrev pub internal_object : IpcObjectName → ℕ → IpcObject
internal_object target port = record {
  ipc_name = target;
  ip = local_ip;
  port = port;
  access_id = internal_access_id;
}

-- `onInternalConnectionStatusMessage`.
pub on_internal_connection_status :
    IpcModule → IpcObjectName → ConnectionStatus → ℕ → IpcModule × List Event
on_internal_connection_status m target status port =
    let object = internal_object target port in
    (
      elim status [
        | ConnectionStatus.conn_open ↦ record m {
          modules = (add_object m.modules object).0;
          ipc_object = (add_object m.ipc_object object).0;
        }
        | ConnectionStatus.conn_close ↦ record m {
          modules = (remove_object m.modules object).0;
          ipc_object = (remove_object m.ipc_object object).0;
        }
        | _ ↦ m
      ],
      Event.on_ipc_objects_changed
          ∷ Event.on_internal_connection (get_module_name_string target) status port
          ∷ [],
    )

-- `onIPCMessage(const IPCProtoMessage&)`: the message has arrived.
on_ipc_proto_message : IpcMessage → List Event
on_ipc_proto_message msg =
    Event.on_message msg.message_name (map get_module_name_string msg.ipc_sender) msg.message ∷ []

-- `onIPCMessage(const IPCMessageSignal&)`: the message, perhaps with a longer path, and what
-- happens here. Reading the first step of an empty path is out of bounds.
unfoldable pub on_ipc_message : IpcModule → IpcMessage → IpcMessage × List Event
unfolding on_ipc_proto_message
on_ipc_message m msg = elim (get_elem? msg.ipc_path 0) [
  | none ↦ (msg, Event.out_of_bounds ∷ [])
  | some new_path ↦
      let path = get_target_path m new_path in
      if ltb 1 (length path)
      then (record msg { ipc_path = path }, [])
      else if length path == 0 && name_eq m.module_name new_path
      then (msg, on_ipc_proto_message msg)
      else (msg, [])
]

-- `onAddIPCObject`.
unfoldable pub on_add_ipc_object : IpcModule → IpcObject → IpcModule × List Event
on_add_ipc_object m object = (
  record m { ipc_object = (add_object m.ipc_object object).0 },
  Event.on_ipc_objects_changed ∷ [],
)

abbrev pub object_or : IpcObject → Option IpcObject → IpcObject
object_or o none = o
object_or o (some found) = found

-- The entry of `m_connectors` moves to the new name. `map::insert` keeps an entry that is there.
rename_connectors : List (Bytes × List Bytes) → Bytes → Bytes → List (Bytes × List Bytes)
rename_connectors connectors old new = elim (map_find connectors old) [
  | none ↦ connectors
  | some ids ↦ map_insert (map_erase connectors old) new ids
]

pub rename_counter : List TryConnectCounter → Bytes → Bytes → List TryConnectCounter
rename_counter counters old new = elim (get_object counters (new_counter old)) [
  | none ↦ counters
  | some counter ↦
      (add_object (remove_object counters counter).0 (record counter { module_name = new })).0
]

-- `onUpdateIPCObject`.
pub on_update_ipc_object : IpcModule → IpcObjectName → IpcObjectName → IpcModule × List Event
unfolding rename_connectors rename_counter
on_update_ipc_object m old new =
    let plain = plain_object old in
    let object = object_or plain (get_object m.ipc_object plain) in
    let (modules, update) = remove_object m.modules object in
    let old_id = get_module_name_string object.ipc_name in
    let new_id = get_module_name_string new in
    let object' = record object { ipc_name = new } in
    (
      record m {
        ipc_object = (add_object (remove_object m.ipc_object object).0 object').0;
        modules = if update then (add_object modules object').0 else modules;
        connectors = rename_connectors m.connectors old_id new_id;
        try_connect_counters = rename_counter m.try_connect_counters old_id new_id;
      },
      Event.on_ipc_objects_changed ∷ [],
    )

-- `IPCModule::UpdateModuleName` (ipc_module.cpp), which calls it.
pub update_module_name : IpcModule → IpcObjectName → IpcModule × List Event
unfolding on_update_ipc_object
update_module_name m name =
    let (m', events) = on_update_ipc_object m m.module_name name in
    (record m' { module_name = name }, events ++ Event.change_ipc_name name ∷ [])

-- `onRemoveIPCObject`.
pub on_remove_ipc_object : IpcModule → Bytes → IpcModule × List Event
on_remove_ipc_object m name = (
  record m { ipc_object = (remove_object m.ipc_object (plain_object (get_ipc_name name))).0 },
  Event.on_ipc_objects_changed ∷ [],
)

abbrev pub ids_or_nil : Option (List Bytes) → List Bytes
ids_or_nil none = []
ids_or_nil (some ids) = ids

-- `onModuleName`: the new state, and the `is_exist` that is written into the message.
unfoldable pub on_module_name : IpcModule → IpcObject → Bytes → IpcModule × Bool
on_module_name m object conn_id =
    let id = get_module_name_string object.ipc_name in
    let (modules, added) = add_object m.modules object in
    (
      record m {
        modules = modules;
        connectors =
            map_set m.connectors id (ids_or_nil (map_find m.connectors id) ++ conn_id ∷ []);
        try_connect_counters = (remove_object m.try_connect_counters (new_counter id)).0;
      },
      not added,
    )

-- `std::find` and `erase` on the connection's ids.
pub erase_id : List Bytes → Bytes → List Bytes
erase_id [] id = []
erase_id (x ∷ xs) id = if str_eq x id then xs else x ∷ erase_id xs id

-- The first half of `onDisconnected`: the map of connectors, and `isModuleDelete`.
pub drop_connector : List (Bytes × List Bytes) → Bytes → Bytes → List (Bytes × List Bytes) × Bool
unfolding erase_id
drop_connector connectors id conn_id = elim (map_find connectors id) [
  | none ↦ (connectors, false)
  | some ids ↦
      if is_empty (erase_id ids conn_id)
      then (map_erase connectors id, true)
      else (map_set connectors id (erase_id ids conn_id), false)
]

-- `CheckIPCObject`, the objects that are dropped with the coordinator.
pub check_ipc_object : Unit {0} → IpcObject → Unit {0} × Bool
check_ipc_object s object = (s, is_empty object.ipc_name.host_name)

-- `onDisconnected`.
pub on_disconnected : (Bytes → Bool) → IpcModule → ℕ → Bytes → Bytes → IpcModule × List Event
on_disconnected check_fire_connector m now id conn_id =
    let (connectors, is_module_delete) = drop_connector m.connectors id conn_id in
    let m1 = record m { connectors = connectors } in
    if not is_module_delete && not (check_fire_connector id)
    then (m1, [])
    else let m2 = record m1 {
      modules = (remove_object m1.modules (plain_object (get_ipc_name id))).0;
    } in
      let is_coordinator_id =
        str_eq id coordinator_ipc_name
        || (not (is_empty m2.coordinator_name) && str_eq id m2.coordinator_name) in
      let fired : List Event =
        if not (str_eq id coordinator_ipc_name) then Event.on_fire_connector id ∷ [] else [] in
      if is_coordinator_id
      then (
        request_coordinator
            (record m2 { ipc_object = (check_objects check_ipc_object tt m2.ipc_object).1 }) now,
        Event.on_ipc_objects_changed ∷ fired,
      )
      else (m2, fired)

-- What `getListenPort` writes into the message.
pub record ListenerParam : Type 0 where
  pub param_name : Bytes
  pub param_ip : Bytes
  pub param_port : ℕ
  pub param_is_coordinator : Bool

-- `getListenPort`. Where the named module is unknown, this module's own object is given.
unfoldable get_listen_port : IpcModule → Bytes → ListenerParam
get_listen_port m name =
    let own = plain_object m.module_name in
    let object : IpcObject = elim (get_object m.ipc_object (plain_object (get_ipc_name name))) [
      | some found ↦ found
      | none ↦ object_or own (get_object m.ipc_object own)
    ] in
    let id = get_module_name_string object.ipc_name in
    record {
      param_name = id;
      param_ip = object.ip;
      param_port = object.port;
      param_is_coordinator = str_eq id m.coordinator_name;
    }

-- The loop of `onIPCObjectList`.
pub with_access : List IpcObject → Bytes → List IpcObject
with_access [] access_id = []
with_access (o ∷ os) access_id =
    let rest = with_access os access_id in
    if not (str_eq o.access_id access_id) then rest else o ∷ rest

-- `onIPCObjectList`: the objects that are added to the message.
pub on_ipc_object_list : (List IpcObject → List IpcObject) → IpcModule → Bytes → List IpcObject
unfolding with_access
on_ipc_object_list fill_ipc_object_list m access_id =
    with_access (fill_ipc_object_list m.ipc_object) access_id
