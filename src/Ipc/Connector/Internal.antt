-- ===== src/Ipc/Connector/Internal.antt =====
-- The internal connections of a connector: the slots of
-- src/cpp/lib/ipc_lib/connector/ipc_connector.cpp and the messages of
-- src/cpp/lib/ipc_lib/connector/ipc_handler.cpp that open, accept and close them.
use twainet.Prelude.{
  ℕ, Bool, true, false, not, ◌||◌, List, [], ◌∷◌, ◌++◌, Option, none, some, is_empty, if◌then◌else◌,
}
use twainet.Prelude.Bytes.{Bytes, str_eq}
use twainet.ObjectManager.{add_object, get_object, update_object, destroy_object}
use twainet.Ipc.ObjectName.{IpcObjectName, get_module_name_string, get_ipc_name}
use twainet.Ipc.Module.{ConnectionStatus, conn_open, conn_close, conn_failed, conn_exist, conn_init}
use twainet.Ipc.Connector.{
  IpcConnector, InternalConnection, internal_order, new_internal, Act, to_peer, to_module,
  start_connect, start_listen, stop_listen, stop_internal, add_internal, delete_internal,
  init_internal_msg, internal_status_msg, internal_data_msg, with_conn_id, internal_destroy_notify,
}

-- `GetObject` into the connection, whose result is not tested.
abbrev pub internal_or : InternalConnection → Option InternalConnection → InternalConnection
internal_or conn none = conn
internal_or conn (some found) = found

-- `DestroyObject` with `InternalDestroyNotify`.
unfoldable pub destroy_internal : IpcConnector → InternalConnection → IpcConnector × List Act
destroy_internal c conn =
    let (left, found) = destroy_object c.internal_connections conn in
    (
      record c { internal_connections = left },
      elim found [ none ↦ [] | some destroyed ↦ internal_destroy_notify c destroyed ],
    )

-- `onDisconnected`.
unfoldable pub on_disconnected_internal : IpcConnector → Bytes → IpcConnector × List Act
unfolding destroy_internal
on_disconnected_internal c conn_id =
    let (c', acts) = destroy_internal c (new_internal conn_id) in
    (c', to_peer (internal_status_msg (with_conn_id c.module_name conn_id) conn_close 0) ∷ acts)

-- `onCreatedListener`.
unfoldable pub on_created_internal_listener : IpcConnector → Bytes → ℕ → IpcConnector × List Act
on_created_internal_listener c conn_id port =
    let plain = new_internal conn_id in
    let conn = internal_or plain (get_object c.internal_connections plain) in
    let opened : InternalConnection = record conn { status = conn_open } in
    (
      record c { internal_connections = (update_object c.internal_connections opened).0 },
      to_module (internal_status_msg (with_conn_id (get_ipc_name c.id) conn_id) conn_open port)
          ∷ [],
    )

-- `onErrorListener`.
unfoldable pub on_error_internal_listener : IpcConnector → Bytes → IpcConnector × List Act
unfolding destroy_internal
on_error_internal_listener c conn_id =
    let (c', acts) = destroy_internal c (new_internal conn_id) in
    (
      c',
      to_peer (internal_status_msg (with_conn_id c.module_name conn_id) conn_close 0)
          ∷ to_module (internal_status_msg (with_conn_id (get_ipc_name c.id) conn_id) conn_failed 0)
          ∷ acts,
    )

-- `onErrorConnect`.
unfoldable pub on_error_internal_connect : IpcConnector → Bytes → IpcConnector × List Act
unfolding destroy_internal
on_error_internal_connect c conn_id =
    let (c', acts) = destroy_internal c (new_internal conn_id) in
    (c', to_peer (internal_status_msg (with_conn_id c.module_name conn_id) conn_failed 0) ∷ acts)

-- `onAddConnector`; `is_internal` is whether the connector is an `InternalConnector`.
unfoldable pub on_add_internal_connector : IpcConnector → Bytes → Bool → IpcConnector × List Act
on_add_internal_connector c conn_id is_internal =
    let plain = new_internal conn_id in
    let conn = internal_or plain (get_object c.internal_connections plain) in
    let accepted : InternalConnection × List Act =
      (if conn.has_thread then (record conn { has_thread = false }, stop_listen conn_id ∷ []) else (
        record conn { status = conn_open },
        to_module (internal_status_msg (with_conn_id (get_ipc_name c.id) conn_id) conn_open 0)
            ∷ to_peer (internal_status_msg (with_conn_id c.module_name conn_id) conn_open 0)
            ∷ [],
      )) in
    (
      record c { internal_connections = (update_object c.internal_connections accepted.0).0 },
      accepted.1
          ++ (if is_internal
              then (if c.manager then add_internal conn_id ∷ [] else [])
              else delete_internal conn_id ∷ []),
    )

-- `onInitInternalConnectionMessage`, from the module.
unfoldable pub on_init_internal_connection_message :
    IpcConnector → IpcObjectName → Bytes → ℕ → IpcConnector × List Act
on_init_internal_connection_message c target ip port =
    let (conns, added) = add_object c.internal_connections (new_internal target.conn_id) in
    if not (str_eq (get_module_name_string (with_conn_id target [])) c.id)
    then (c, [])
    else if c.is_coordinator || is_empty target.conn_id
    then (c, to_module (internal_status_msg target conn_failed 0) ∷ [])
    else if added
    then (
      record c { internal_connections = conns },
      to_peer (
            init_internal_msg
              (record target {
                module_name = c.module_name.module_name;
                host_name = c.module_name.host_name;
              })
              ip port)
          ∷ [],
    )
    else (c, to_module (internal_status_msg target conn_exist 0) ∷ [])

-- `onMessage(const InitInternalConnection&)`, from the peer.
unfoldable pub on_message_init_internal_connection :
    IpcConnector → IpcObjectName → Bytes → ℕ → IpcConnector × List Act
on_message_init_internal_connection c target ip port =
    let here = with_conn_id c.module_name target.conn_id in
    let (conns, added) = add_object c.internal_connections (new_internal target.conn_id) in
    if c.is_coordinator
    then (c, to_peer (internal_status_msg here conn_failed 0) ∷ [])
    else if added
    then (record c { internal_connections = conns }, start_connect target.conn_id ip port ∷ [])
    else (c, to_peer (internal_status_msg here conn_exist 0) ∷ [])

-- `onMessage(const InternalConnectionStatus&)`.
unfoldable pub on_message_internal_connection_status :
    IpcConnector → IpcObjectName → ConnectionStatus → ℕ → IpcConnector × List Act
unfolding destroy_internal
on_message_internal_connection_status c target status port =
    let conn_id = target.conn_id in
    let plain = new_internal conn_id in
    let conn = internal_or plain (get_object c.internal_connections plain) in
    let listening : InternalConnection = record conn { has_thread = true } in
    let (c', acts) = destroy_internal c conn in
    let told : Act =
      to_module (internal_status_msg (with_conn_id (get_ipc_name c.id) conn_id) status port) in
    elim status [
      | conn_open ↦ (
        record c { internal_connections = (update_object c.internal_connections listening).0 },
        start_listen conn_id ∷ [],
      )
      | conn_close ↦ (c', acts ++ stop_internal conn_id ∷ [])
      | conn_exist ↦ (c', acts ++ told ∷ [])
      | conn_failed ↦ (c', acts ++ told ∷ [])
      | conn_init ↦ (c, told ∷ [])
    ]

-- `onInternalConnectionDataSignal`, and `onMessage(const InternalConnectionData&)`.
unfoldable on_internal_connection_data_signal : IpcConnector → Bytes → Bytes → List Act
on_internal_connection_data_signal c conn_id bytes = to_peer (internal_data_msg conn_id bytes) ∷ []

unfoldable on_message_internal_connection_data : IpcConnector → Bytes → Bytes → List Act
on_message_internal_connection_data c conn_id bytes =
    to_module (internal_data_msg conn_id bytes) ∷ []
