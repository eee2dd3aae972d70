-- ===== src/Ipc/Connector/Handler.antt =====
-- src/cpp/lib/ipc_lib/connector/ipc_handler.cpp: `IPCHandler`, which a connector calls with each
-- message of its peer. Each function is one `onMessage`, but for the internal connections, which are in
-- Ipc/Connector/Internal.antt.
use twainet.Prelude.{
  Bool, true, false, not, ◌&&◌, ◌||◌, List, [], ◌∷◌, ◌++◌, is_empty, if◌then◌else◌,
}
use twainet.Prelude.Bytes.{Bytes, str_eq, str_lt}
use twainet.Ipc.ObjectName.{IpcObjectName, name_eq, get_module_name_string, get_ipc_name}
use twainet.Ipc.Object.{IpcObject, coordinator_ipc_name, base_access_id}
use twainet.Ipc.Module.{IpcMessage}
use twainet.Ipc.Connector.{
  IpcConnector, Act, to_peer, to_module, to_connectors, stop_connector, stop_checker, object_added,
  object_updated, module_name_msg, module_state_msg, add_object_msg, remove_object_msg,
  object_list_msg, update_object_msg, ipc_message_msg, ipc_signal_msg, on_connected_connector,
  on_module_state_message,
}

-- `isCoordinatorAccess`.
abbrev pub is_coordinator_access : IpcConnector → Bool
is_coordinator_access c = c.is_coordinator || str_eq c.id coordinator_ipc_name

-- The connector's access id after `SetAccessId`.
abbrev pub access_of : IpcConnector → Bytes
access_of c = if is_coordinator_access c then base_access_id else c.access_id

-- What the module and the other connectors are told of the peer.
abbrev pub announced : IpcConnector → IpcObject → IpcObject
announced c object = if c.is_coordinator then object else record object { access_id = access_of c }

-- Is the peer's access id refused?
abbrev pub is_denied : IpcConnector → IpcObject → Bool
is_denied c object = not (is_coordinator_access c) && not (str_eq c.access_id object.access_id)

-- `onMessage(const ModuleName&)`; `exist` is what the module wrote into the message, and `objects` what
-- it added to the list. Where the peer is denied the connector is stopped and the function goes on:
-- `to_peer` then stands for a `toMessage` on a closed socket, which fails.
unfoldable pub on_message_module_name :
    IpcConnector → IpcObject → Bool → List IpcObject → IpcConnector × List Act
unfolding on_connected_connector
on_message_module_name c object exist objects =
    let told = announced c object in
    let c' = record c {
      checker = false;
      access_id = access_of c;
      id = get_module_name_string object.ipc_name;
      is_exist = exist;
    } in
    let acts : List Act =
      (if c.checker then stop_checker ∷ [] else [])
      ++ ((if is_denied c object then stop_connector ∷ [] else [])
          ++ (to_module (add_object_msg told)
              ∷ to_module (module_name_msg told c.connector_id)
              ∷ to_peer (module_state_msg exist c.rand [])
              ∷ (if c.is_send_ipc_objects
                  then to_module (object_list_msg object.access_id [])
                    ∷ to_peer (object_list_msg object.access_id objects)
                    ∷ []
                  else []))) in
    let (c'', events) = on_connected_connector c' in
    if exist then (c', acts) else (
      c'',
      acts
          ++ ((if c.is_send_ipc_objects
                then to_connectors (module_name_msg told c.connector_id) ∷ []
                else [])
              ++ events),
    )

-- `onIPCSignal` with a `ModuleStateMessage`: each of the other connectors changes it.
unfoldable pub ask_connectors : List IpcConnector → Bytes → Bool × Bytes → Bool × Bytes
unfolding on_module_state_message
ask_connectors [] id state = state
ask_connectors (d ∷ ds) id state = ask_connectors ds id (on_module_state_message d id state)

-- `onMessage(const ModuleState&)`; `others` are the module's other connectors.
unfoldable pub on_message_module_state :
    IpcConnector → List IpcConnector → Bool → Bytes → IpcConnector × List Act
unfolding ask_connectors on_connected_connector
on_message_module_state c others exist rnd_val =
    if exist && c.is_exist
    then (c, stop_connector ∷ [])
    else if exist
    then (let (exist', rnd_val') = ask_connectors others c.id (false, rnd_val) in
        let asked = to_connectors (module_state_msg false rnd_val c.id) in
        let (c', events) = on_connected_connector c in
        if (exist' && str_lt rnd_val' c.rand) || not exist'
        then (c, asked ∷ stop_connector ∷ [])
        else if exist' && str_eq c.rand rnd_val'
        then (c, asked ∷ [])
        else (c', asked ∷ events))
    else (c, [])

-- `onMessage(const AddIPCObject&)`.
on_message_add_ipc_object : IpcConnector → IpcObject → List Act
on_message_add_ipc_object c object =
    to_module (add_object_msg object) ∷ object_added (get_module_name_string object.ipc_name) ∷ []

-- `onMessage(const RemoveIPCObject&)`.
unfoldable on_message_remove_ipc_object : IpcConnector → Bytes → List Act
on_message_remove_ipc_object c name = to_module (remove_object_msg name) ∷ []

-- The steps after the first, if the first is this module.
abbrev pub path_rest : IpcConnector → List IpcObjectName → List IpcObjectName
path_rest c [] = []
path_rest c (p ∷ ps) = if name_eq p c.module_name then ps else []

-- `isTarget`: no step is left, or one, this module.
abbrev pub is_target : IpcConnector → List IpcObjectName → Bool
is_target c [] = true
is_target c (p ∷ ps) = name_eq p c.module_name && is_empty ps

-- `onMessage(const IPCMessage&)`. `on_data` answers whether a message of the name is handled by the
-- connector itself; `on_signal` is the message after the module's `onIPCMessage`.
unfoldable pub on_message_ipc_message :
    (Bytes → Bytes → Bool) → (IpcMessage → IpcMessage) → IpcConnector → IpcMessage → List Act
on_message_ipc_message on_data on_signal c msg =
    let new_msg = record msg {
      ipc_path = path_rest c msg.ipc_path;
      ipc_sender = msg.ipc_sender ++ get_ipc_name c.id ∷ [];
    } in
    if not c.is_connected
    then []
    else if is_target c msg.ipc_path && not (on_data msg.message_name msg.message)
    then to_module (ipc_message_msg new_msg) ∷ []
    else if not (is_empty new_msg.ipc_path)
    then to_module (ipc_signal_msg new_msg)
      ∷ to_connectors (ipc_message_msg (on_signal new_msg))
      ∷ []
    else []

-- `onMessage(const IPCObjectList&)`.
unfoldable on_message_ipc_object_list : IpcConnector → List IpcObject → List Act
unfolding on_message_add_ipc_object
on_message_ipc_object_list c [] = []
on_message_ipc_object_list c (o ∷ os) =
    on_message_add_ipc_object c o ++ on_message_ipc_object_list c os

-- `onMessage(const ChangeIPCName&)`.
unfoldable on_message_change_ipc_name : IpcConnector → IpcObjectName → IpcConnector × List Act
on_message_change_ipc_name c name =
    let update = update_object_msg (get_ipc_name c.id) name in
    (
      record c { id = get_module_name_string name },
      to_module update ∷ (if c.is_coordinator then to_connectors update ∷ [] else []),
    )

-- `onMessage(const UpdateIPCObject&)`.
unfoldable on_message_update_ipc_object : IpcConnector → IpcObjectName → IpcObjectName → List Act
on_message_update_ipc_object c old new =
    to_module (update_object_msg old new)
    ∷ object_updated (get_module_name_string old) (get_module_name_string new)
    ∷ []

-- `onMessage(const Ping&)`.
unfoldable on_message_ping : IpcConnector → List Act
on_message_ping c = []
