-- ===== src/Ipc/Connector/Registry.antt =====
-- A connector's list of internal connections.
use twainet.Prelude.{
  ℕ, ◌≡◌, refl, ap, sym, ◌∙◌, Bool, true, false, Option, none, some, List, [], ◌∷◌, ◌++◌,
  append_assoc, append-nil, ◌≢◌, is_empty, arith, if◌then◌else◌,
}
use twainet.Prelude.Bytes.{Bytes, str_eq, str_eq_refl}
use twainet.ObjectManager.{get_object, destroy_object}
use twainet.ObjectManager.Sorted.{
  IsSorted, add_object-IsSorted, update_object-IsSorted, destroy_object-IsSorted,
}
use twainet.ObjectManager.Scan.{check_ref, check_objects-check_ref}
use twainet.ObjectManager.Refinement.{get_object-lookup, lookup-add_object, lookup-destroy_object}
use twainet.Ipc.ObjectName.{IpcObjectName, get_module_name_string, get_ipc_name}
use twainet.Ipc.Module.{ConnectionStatus, conn_open, conn_close, conn_exist, conn_failed, conn_init}
use twainet.Ipc.Connector.{
  IpcConnector, InternalConnection, internal_order, internal_eq, new_internal, Act, to_peer,
  to_module, to_connectors, stop_checker, stop_manager, stop_listen, remove_object_msg,
  internal_status_msg, with_conn_id, internal_destroy_notify, destroy_each, on_stop,
}
use twainet.Ipc.Connector.Internal.{
  destroy_internal, internal_or, on_disconnected_internal, on_created_internal_listener,
  on_error_internal_listener, on_error_internal_connect, on_add_internal_connector,
  on_init_internal_connection_message, on_message_init_internal_connection,
  on_message_internal_connection_status,
}

-- What the module is told of each connection.
abbrev pub notices : IpcConnector → List InternalConnection → List Act
notices c [] = []
notices c (conn ∷ conns) = internal_destroy_notify c conn ++ notices c conns

check_ref-destroy_each :
    (c : IpcConnector) (acts : List Act) (conns : List InternalConnection)
    → check_ref (destroy_each c) acts conns ≡ (acts ++ notices c conns, [])
unfolding check_ref destroy_each
check_ref-destroy_each c acts [] = ground (arith, append-nil acts)
check_ref-destroy_each c acts (conn ∷ conns) = ground (
  arith,
  check_ref-destroy_each c (acts ++ internal_destroy_notify c conn) conns,
  append_assoc acts (internal_destroy_notify c conn) (notices c conns),
)

-- When a connector's thread stops, every internal connection is destroyed and the module is told of
-- each, once and in order; the removal of the peer is told first, if this side is the coordinator's.
on_stop_lem :
    (c : IpcConnector)
    → let (c', acts) = on_stop c in
      (c'.internal_connections ≡ [])
      × (c'.is_connected ≡ false)
      × (acts
          ≡ (if c.is_notify_remove
              then to_module (remove_object_msg c.id) ∷ to_connectors (remove_object_msg c.id) ∷ []
              else [])
            ++ ((if c.checker then stop_checker ∷ [] else [])
                ++ (notices c c.internal_connections ++ stop_manager ∷ [])))
unfolding on_stop
on_stop_lem c = ground (
  arith,
  check_objects-check_ref (destroy_each c) [] c.internal_connections,
  check_ref-destroy_each c [] c.internal_connections,
)

-- A signal or a message that changes the internal connections.
pub data InternalInput : Type 0 where
  disconnected_internal created_listener error_listener error_connect : Bytes → InternalInput
  add_connector : Bytes → Bool → InternalInput
  init_message init_received : IpcObjectName → Bytes → ℕ → InternalInput
  status_received : IpcObjectName → ConnectionStatus → ℕ → InternalInput

pub internal_step : IpcConnector → InternalInput → IpcConnector
internal_step c (disconnected_internal conn_id) = (on_disconnected_internal c conn_id).0
internal_step c (created_listener conn_id) = (on_created_internal_listener c conn_id 0).0
internal_step c (error_listener conn_id) = (on_error_internal_listener c conn_id).0
internal_step c (error_connect conn_id) = (on_error_internal_connect c conn_id).0
internal_step c (add_connector conn_id is_internal) =
    (on_add_internal_connector c conn_id is_internal).0
internal_step c (init_message target ip port) =
    (on_init_internal_connection_message c target ip port).0
internal_step c (init_received target ip port) =
    (on_message_init_internal_connection c target ip port).0
internal_step c (status_received target status port) =
    (on_message_internal_connection_status c target status port).0

pub internal_run : IpcConnector → List InternalInput → IpcConnector
unfolding internal_step
internal_run c [] = c
internal_run c (i ∷ is) = internal_run (internal_step c i) is

destroy_internal-IsSorted :
    (c : IpcConnector) (conn : InternalConnection)
    → IsSorted c.internal_connections
    → IsSorted (destroy_internal c conn).0.internal_connections
unfolding destroy_internal
destroy_internal-IsSorted c conn s = destroy_object-IsSorted c.internal_connections conn s

abbrev found_internal : IpcConnector → Bytes → InternalConnection
found_internal c conn_id =
    internal_or (new_internal conn_id) (get_object c.internal_connections (new_internal conn_id))

add_connector-IsSorted :
    (c : IpcConnector) (conn_id : Bytes) (is_internal : Bool)
    → IsSorted c.internal_connections
    → IsSorted (on_add_internal_connector c conn_id is_internal).0.internal_connections
unfolding on_add_internal_connector
add_connector-IsSorted c conn_id is_internal s =
    let conn = found_internal c conn_id in
    ground (
      arith,
      update_object-IsSorted c.internal_connections (record conn { has_thread = false }) s,
      update_object-IsSorted c.internal_connections (record conn { status = conn_open }) s,
    )

status_received-IsSorted :
    (c : IpcConnector) (target : IpcObjectName) (status : ConnectionStatus) (port : ℕ)
    → IsSorted c.internal_connections
    → IsSorted (on_message_internal_connection_status c target status port).0.internal_connections
unfolding on_message_internal_connection_status
status_received-IsSorted c target status port s =
    let conn = found_internal c target.conn_id in
    ground (
      arith,
      update_object-IsSorted c.internal_connections (record conn { has_thread = true }) s,
      destroy_internal-IsSorted c conn s,
    )

internal_step-IsSorted :
    (c : IpcConnector) (i : InternalInput)
    → IsSorted c.internal_connections
    → IsSorted (internal_step c i).internal_connections
unfolding internal_step on_disconnected_internal on_created_internal_listener
    on_error_internal_listener on_error_internal_connect on_init_internal_connection_message
    on_message_init_internal_connection
internal_step-IsSorted c (disconnected_internal conn_id) s =
    destroy_internal-IsSorted c (new_internal conn_id) s
internal_step-IsSorted c (created_listener conn_id) s =
    update_object-IsSorted c.internal_connections
      (record (found_internal c conn_id) { status = conn_open }) s
internal_step-IsSorted c (error_listener conn_id) s =
    destroy_internal-IsSorted c (new_internal conn_id) s
internal_step-IsSorted c (error_connect conn_id) s =
    destroy_internal-IsSorted c (new_internal conn_id) s
internal_step-IsSorted c (add_connector conn_id is_internal) s =
    add_connector-IsSorted c conn_id is_internal s
internal_step-IsSorted c (init_message target ip port) s =
    ground (arith, add_object-IsSorted c.internal_connections (new_internal target.conn_id) s)
internal_step-IsSorted c (init_received target ip port) s =
    ground (arith, add_object-IsSorted c.internal_connections (new_internal target.conn_id) s)
internal_step-IsSorted c (status_received target status port) s =
    status_received-IsSorted c target status port s

internal_run-IsSorted :
    (c : IpcConnector) (is : List InternalInput)
    → IsSorted c.internal_connections
    → IsSorted (internal_run c is).internal_connections
unfolding internal_run
internal_run-IsSorted c [] s = s
internal_run-IsSorted c (i ∷ is) s =
    internal_run-IsSorted (internal_step c i) is (internal_step-IsSorted c i s)

-- How the module is told that a connection ends: closed if it was open, failed if it never was.
abbrev end_status : ConnectionStatus → ConnectionStatus
end_status conn_open = conn_close
end_status conn_close = conn_failed
end_status conn_failed = conn_failed
end_status conn_exist = conn_failed
end_status conn_init = conn_failed

-- What happens with a connection that is destroyed: its thread is stopped if it has one, and the
-- module is told of its end under the peer's name.
abbrev pub told_destroyed : IpcConnector → Option InternalConnection → List Act
told_destroyed c none = []
told_destroyed c (some conn) =
    let told = with_conn_id (get_ipc_name c.id) conn.conn_id in
    let last = to_module (internal_status_msg told (end_status conn.status) 0) in
    if conn.has_thread then stop_listen conn.conn_id ∷ last ∷ [] else last ∷ []

internal_destroy_notify_lem :
    (c : IpcConnector) (conn : InternalConnection)
    → internal_destroy_notify c conn ≡ told_destroyed c (some conn)
unfolding internal_destroy_notify
internal_destroy_notify_lem c conn = ground arith

is_empty_ne : (s : Bytes) → s ≢ [] → is_empty s ≡ false
is_empty_ne [] ne = absurd (ne refl)
is_empty_ne (b ∷ s) ne = refl

nil-IsSorted : (conns : List InternalConnection) → conns ≡ [] → IsSorted conns
nil-IsSorted conns e = rw e tt

destroy_internal_lem :
    (c : IpcConnector) (conn : InternalConnection)
    → IsSorted c.internal_connections
    → (destroy_internal c conn).1 ≡ told_destroyed c (get_object c.internal_connections conn)
unfolding destroy_internal
destroy_internal_lem c conn s =
    let conns = c.internal_connections in
    destroy_internal_told (destroy_object conns conn).1
    ∙ ap (told_destroyed c)
        ((lookup-destroy_object conns conn s).1 ∙ sym (get_object-lookup conns conn s))
  where
    destroy_internal_told :
        (found : Option InternalConnection)
        → elim found [ none ↦ [] | some destroyed ↦ internal_destroy_notify c destroyed ]
          ≡ told_destroyed c found
    destroy_internal_told none = refl
    destroy_internal_told (some d) = internal_destroy_notify_lem c d

get_object-destroy_internal :
    (c : IpcConnector) (conn q : InternalConnection)
    → IsSorted c.internal_connections
    → get_object (destroy_internal c conn).0.internal_connections q
      ≡ (if internal_eq conn q then none else get_object c.internal_connections q)
unfolding destroy_internal
get_object-destroy_internal c conn q s =
    let conns = c.internal_connections in
    get_object-lookup (destroy_object conns conn).0 q (destroy_object-IsSorted conns conn s)
    ∙ ap (λ f. f q) (lookup-destroy_object conns conn s).0
    ∙ ground (arith, get_object-lookup conns q s)

-- After any sequence of signals and messages on a connector without internal connections: when the
-- connection of an id is lost, the peer is told that it is closed, the module is told of exactly the
-- connection of that id if there is one, that one is gone, and every other one is as before.
pub on_disconnected_internal_lem :
    (c : IpcConnector) (is : List InternalInput) (conn_id other : Bytes)
    → c.internal_connections ≡ []
    → let d = internal_run c is in
      let (d', acts) = on_disconnected_internal d conn_id in
      (acts
        ≡ to_peer (internal_status_msg (with_conn_id d.module_name conn_id) conn_close 0)
          ∷ told_destroyed d (get_object d.internal_connections (new_internal conn_id)))
      × (get_object d'.internal_connections (new_internal other) ≡ (
          if str_eq conn_id other
          then none
          else get_object d.internal_connections (new_internal other)))
unfolding on_disconnected_internal internal_eq
on_disconnected_internal_lem c is conn_id other e =
    let d = internal_run c is in
    let s = internal_run-IsSorted c is (nil-IsSorted c.internal_connections e) in
    (
      ap
          (λ acts.
            to_peer (internal_status_msg (with_conn_id d.module_name conn_id) conn_close 0) ∷ acts)
          (destroy_internal_lem d (new_internal conn_id) s),
      get_object-destroy_internal d (new_internal conn_id) (new_internal other) s,
    )

-- A second request for a connection id that is open or on its way is refused: from the module with
-- `CONN_EXIST` to it, from the peer with `CONN_EXIST` to the peer, and nothing changes.
init_internal_twice :
    (c : IpcConnector) (target : IpcObjectName) (ip : Bytes) (port : ℕ) {conn : InternalConnection}
    → IsSorted c.internal_connections
    → get_object c.internal_connections (new_internal target.conn_id) ≡ some conn
    → c.is_coordinator ≡ false
    → target.conn_id ≢ []
    → get_module_name_string (with_conn_id target []) ≡ c.id
    → (on_init_internal_connection_message c target ip port
        ≡ (c, to_module (internal_status_msg target conn_exist 0) ∷ []))
      × (on_message_init_internal_connection c target ip port ≡ (
        c,
        to_peer (internal_status_msg (with_conn_id c.module_name target.conn_id) conn_exist 0) ∷ [],
      ))
unfolding on_init_internal_connection_message on_message_init_internal_connection
init_internal_twice c target ip port {conn} s found plain ne same =
    let x = new_internal target.conn_id in
    ground (
      arith,
      (lookup-add_object c.internal_connections x s).1,
      get_object-lookup c.internal_connections x s,
      found,
      same,
      str_eq_refl c.id,
      is_empty_ne target.conn_id ne,
    )
