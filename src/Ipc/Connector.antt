-- ===== src/Ipc/Connector.antt =====
-- src/cpp/lib/ipc_lib/connector/ipc_connector.cpp: `IPCConnector`, a module's end of a connection to
-- another module, and its slots. An operation returns the new state and what it does to the outside,
-- in order. Framing is in Connector/Stream.antt, `IPCHandler` in Ipc/Connector/Handler.antt, and the
-- internal connections in Ipc/Connector/Internal.antt. What a module answers to a signal is an
-- argument.
pub mod Internal
pub mod Handler
pub mod State
pub mod Relay
pub mod Access
pub mod Registry
mod Tests
use twainet.Prelude.{
  ℕ, Bool, true, false, not, List, [], ◌∷◌, ◌++◌, none, some, get_elem?, if◌then◌else◌,
}
use twainet.Prelude.Bytes.{Bytes, str_eq, str_lt}
use twainet.ObjectManager.{check_objects}
use twainet.Order.{Order, IsOrder, Bytes-IsLinear, key-IsOrder}
use twainet.Ipc.ObjectName.{IpcObjectName, name_eq, get_module_name_string, get_ipc_name}
use twainet.Ipc.Object.{IpcObject}
use twainet.Ipc.Module.{ConnectionStatus, conn_open, conn_close, conn_failed, conn_init, IpcMessage}
use twainet.Ipc.Handler.{ListenerParam}

-- `has_thread` is `m_thread != 0`.
pub record InternalConnection : Type 0 where
  pub conn_id : Bytes
  pub status : ConnectionStatus
  pub has_thread : Bool

-- `InternalConnection(id)`.
abbrev pub new_internal : Bytes → InternalConnection
new_internal conn_id = record { conn_id = conn_id; status = conn_init; has_thread = false }

pub internal_eq : InternalConnection → InternalConnection → Bool
internal_eq a b = str_eq a.conn_id b.conn_id

pub internal_lt : InternalConnection → InternalConnection → Bool
internal_lt a b = str_lt a.conn_id b.conn_id

pub internal-IsOrder : IsOrder internal_lt internal_eq
unfolding internal_lt internal_eq
internal-IsOrder = key-IsOrder Bytes-IsLinear (λ (c : InternalConnection). c.conn_id)

instance abbrev pub internal_order : Order InternalConnection
internal_order = record { lt = internal_lt; eqb = internal_eq; lawful = internal-IsOrder }

-- The fields of `IPCConnector` and, of its base `Connector`, the id, the access id and the
-- connector's own id. `checker` and `manager` are `m_checker != 0` and `m_manager != 0`.
pub record IpcConnector : Type 0 where
  pub id : Bytes
  pub access_id : Bytes
  pub connector_id : Bytes
  pub module_name : IpcObjectName
  pub is_coordinator : Bool
  pub is_connected : Bool
  pub is_notify_remove : Bool
  pub is_send_ipc_objects : Bool
  pub is_exist : Bool
  pub rand : Bytes
  pub checker : Bool
  pub manager : Bool
  pub internal_connections : List InternalConnection

-- The messages of src/messages/ipc.proto and src/messages/interconn.proto, and the signals that
-- carry them. `ipc_message_msg` is an `IPCProtoMessage`, `ipc_signal_msg` an `IPCMessageSignal`.
pub data Message : Type 0 where
  module_name_msg : IpcObject → Bytes → Message
  module_state_msg : Bool → Bytes → Bytes → Message
  add_object_msg : IpcObject → Message
  remove_object_msg : Bytes → Message
  object_list_msg : Bytes → List IpcObject → Message
  change_name_msg : IpcObjectName → Message
  update_object_msg : IpcObjectName → IpcObjectName → Message
  ipc_message_msg ipc_signal_msg : IpcMessage → Message
  init_internal_msg : IpcObjectName → Bytes → ℕ → Message
  internal_status_msg : IpcObjectName → ConnectionStatus → ℕ → Message
  internal_data_msg : Bytes → Bytes → Message
  connected_msg : Bytes → Bool → Message

pub data Act : Type 0 where
  -- `toMessage` to the peer, `onSignal` to the module, `onIPCSignal` to the module's other connectors.
  -- Behind `stop_connector`, which closes the socket, what is sent does not get to the peer.
  to_peer to_module to_connectors : Message → Act
  stop_connector stop_checker stop_manager : Act
  -- Threads and connectors of internal connections.
  start_connect : Bytes → Bytes → ℕ → Act
  start_listen stop_listen stop_internal : Bytes → Act
  add_internal delete_internal : Bytes → Act
  -- Virtual functions.
  object_added : Bytes → Act
  object_updated : Bytes → Bytes → Act

-- The constructor; `rand` is what `CreateGUID` returned.
unfoldable new_connector : IpcObjectName → Bytes → IpcConnector
new_connector module_name rand = record {
  id = [];
  access_id = [];
  connector_id = [];
  module_name = module_name;
  is_coordinator = false;
  is_connected = false;
  is_notify_remove = true;
  is_send_ipc_objects = false;
  is_exist = false;
  rand = rand;
  checker = false;
  manager = true;
  internal_connections = [];
}

-- `OnStart`; `param` is what the module wrote into the `ListenerParamMessage`.
unfoldable on_start : IpcConnector → ListenerParam → Bytes → IpcConnector × List Act
on_start c param user_name =
    let name = get_ipc_name param.param_name in
    (
      record c {
        checker = true;
        module_name = name;
        is_coordinator = param.param_is_coordinator;
        is_notify_remove = param.param_is_coordinator;
        is_send_ipc_objects = param.param_is_coordinator;
        access_id = user_name;
      },
      to_peer (
            module_name_msg
              (record {
                ipc_name = name;
                ip = param.param_ip;
                port = param.param_port;
                access_id = user_name;
              })
              [])
          ∷ [],
    )

-- The target of a status, with the connection's id.
abbrev pub with_conn_id : IpcObjectName → Bytes → IpcObjectName
with_conn_id name conn_id = record name { conn_id = conn_id }

-- `InternalDestroyNotify`.
pub internal_destroy_notify : IpcConnector → InternalConnection → List Act
internal_destroy_notify c conn =
    let closed : ConnectionStatus = elim conn.status [ conn_open ↦ conn_close | _ ↦ conn_failed ] in
    (if conn.has_thread then stop_listen conn.conn_id ∷ [] else [])
    ++ to_module (internal_status_msg (with_conn_id (get_ipc_name c.id) conn.conn_id) closed 0) ∷ []

-- The call of `CheckObjects`, which destroys every internal connection.
pub destroy_each : IpcConnector → List Act → InternalConnection → List Act × Bool
unfolding internal_destroy_notify
destroy_each c acts conn = (acts ++ internal_destroy_notify c conn, true)

-- `OnStop`.
pub on_stop : IpcConnector → IpcConnector × List Act
unfolding destroy_each
on_stop c =
    let (notified, left) = check_objects (destroy_each c) [] c.internal_connections in
    (
      record c {
        is_connected = false;
        checker = false;
        manager = false;
        internal_connections = left;
      },
      (if c.is_notify_remove
            then to_module (remove_object_msg c.id) ∷ to_connectors (remove_object_msg c.id) ∷ []
            else [])
          ++ ((if c.checker then stop_checker ∷ [] else []) ++ (notified ++ stop_manager ∷ [])),
    )

-- `OnConnected`.
pub on_connected_connector : IpcConnector → IpcConnector × List Act
on_connected_connector c =
    (record c { is_connected = true }, to_module (connected_msg c.id (not c.is_coordinator)) ∷ [])

-- `onIPCMessage(const IPCProtoMessage&)`, from another connector of the module.
pub on_ipc_message_slot : IpcConnector → IpcMessage → List Act
on_ipc_message_slot c msg = elim (get_elem? msg.ipc_path 0) [
  | none ↦ []
  | some path ↦
      if str_eq (get_module_name_string path) c.id then to_peer (ipc_message_msg msg) ∷ [] else []
]

-- `onIPCMessage(const IPCMessageSignal&)`, from the module.
unfoldable on_ipc_signal_slot : IpcConnector → IpcMessage → List Act
on_ipc_signal_slot c msg = elim (get_elem? msg.ipc_path 0) [
  | none ↦ to_peer (ipc_message_msg msg) ∷ []
  | some path ↦ if name_eq path (get_ipc_name c.id) then to_peer (ipc_message_msg msg) ∷ [] else []
]

-- `onUpdateIPCObjectMessage`.
unfoldable on_update_ipc_object_message : IpcConnector → IpcObjectName → IpcObjectName → List Act
on_update_ipc_object_message c old new = to_peer (update_object_msg old new) ∷ []

-- `onChangeIPCNameMessage`; `SetModuleName` always answers true.
unfoldable on_change_ipc_name_message : IpcConnector → IpcObjectName → IpcConnector × List Act
on_change_ipc_name_message c name =
    (record c { module_name = name }, to_peer (change_name_msg name) ∷ [])

-- `onRemoveIPCObjectMessage`.
unfoldable on_remove_ipc_object_message : IpcConnector → Bytes → List Act
on_remove_ipc_object_message c name = to_peer (remove_object_msg name) ∷ []

-- `onModuleNameMessage`.
unfoldable on_module_name_message : IpcConnector → IpcObject → List Act
on_module_name_message c object =
    if name_eq c.module_name object.ipc_name then [] else to_peer (add_object_msg object) ∷ []

-- `onModuleStateMessage`: the message's `exist` and `rndVal`, which it may change.
pub on_module_state_message : IpcConnector → Bytes → Bool × Bytes → Bool × Bytes
on_module_state_message c id (exist, rnd_val) =
    if str_eq id c.id
    then (true, if str_lt c.rand rnd_val then c.rand else rnd_val)
    else (exist, rnd_val)
