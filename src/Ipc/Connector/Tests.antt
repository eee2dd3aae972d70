-- ===== src/Ipc/Connector/Tests.antt =====
-- The theorems on the connector at concrete modules and connectors.
use twainet.Prelude.{
  ◌≡◌, ◌&&◌, refl, true, false, none, some, List, [], ◌∷◌, ◌++◌, inl, arith, if◌then◌else◌,
}
use twainet.Prelude.Bytes.{Bytes, codes, str_eq, str_lt}
use twainet.ObjectManager.{get_object, lower_bound}
use twainet.Utils.{delimit_string, delimit_loop, find, find_in, c_str, is_prefix}
use twainet.Ipc.ObjectName.{
  from_strings, IpcObjectName, name_eq, name_lt, plain_name, get_module_name_string, get_ipc_name,
}
use twainet.Ipc.Object.{IpcObject, object_order, object_eq, object_lt, plain_object}
use twainet.Ipc.Module.{
  IpcModule, IpcMessage, new_module, get_target_path, has_name, coordinator_hops, conn_close,
}
use twainet.Ipc.Module.Valid.{IsValid}
use twainet.Ipc.Connector.{
  IpcConnector, internal_order, internal_eq, internal_lt, new_internal, to_peer, to_module,
  internal_status_msg, ipc_message_msg, with_conn_id,
}
use twainet.Ipc.Connector.Handler.{
  on_message_module_state, on_message_ipc_message, announced, is_denied,
}
use twainet.Ipc.Connector.Internal.{on_disconnected_internal}
use twainet.Ipc.Connector.State.{
  on_message_module_state_same, has_namesake, is_below, on_message_module_state-connected,
  on_message_module_state_once,
}
use twainet.Ipc.Connector.Relay.{Hop, relay, passed_modules, IsNamed, IsLinked, relay_arrives}
use twainet.Ipc.Connector.Registry.{
  InternalInput, init_message, created_listener, internal_run, told_destroyed,
  on_disconnected_internal_lem,
}

abbrev client : IpcObjectName
client = plain_name (codes "Client")

abbrev server : IpcObjectName
server = plain_name (codes "Server")

abbrev coordinator : IpcObjectName
coordinator = plain_name (codes "Coord")

-- A connector of the client to a peer, with a random value.
abbrev conn : Bytes → Bytes → IpcConnector
conn id rand = record {
  id = id;
  access_id = codes "user";
  connector_id = codes "c1";
  module_name = client;
  is_coordinator = false;
  is_connected = false;
  is_notify_remove = false;
  is_send_ipc_objects = false;
  is_exist = false;
  rand = rand;
  checker = true;
  manager = true;
  internal_connections = new_internal (codes "i1") ∷ [];
}

abbrev low : IpcConnector
low = conn (codes "Server") (codes "a")

abbrev high : IpcConnector
high = conn (codes "Server") (codes "b")

on_message_module_state-connected_example :
    (on_message_module_state low (high ∷ []) true (codes "c")).0.is_connected ≡ (
      has_namesake (high ∷ []) low.id
      && (str_lt low.rand (codes "c") && is_below (high ∷ []) low.id low.rand))
on_message_module_state-connected_example =
    on_message_module_state-connected low (high ∷ []) (codes "c") refl refl

low_wins : (on_message_module_state low (high ∷ []) true (codes "c")).0.is_connected ≡ true
unfolding str_lt str_eq
low_wins = on_message_module_state-connected low (high ∷ []) (codes "c") refl refl

-- `low` is connected when `high` asks it.
on_message_module_state_once_example :
    (on_message_module_state high
      ((on_message_module_state low (high ∷ []) true (codes "c")).0 ∷ [])
      true
      (codes "d")).0.is_connected
    ≡ false
on_message_module_state_once_example =
    on_message_module_state_once low high (high ∷ [])
      ((on_message_module_state low (high ∷ []) true (codes "c")).0 ∷ []) (codes "c") (codes "d")
      refl refl refl refl refl (inl (refl, refl))
      (inl (on_message_module_state_same low (high ∷ []) true (codes "c"))) low_wins

-- A peer with another user's access id.
abbrev stranger : IpcObject
stranger = record {
  ipc_name = server;
  ip = codes "127.0.0.1";
  port = 4000;
  access_id = codes "other";
}

-- Nothing gets to the stranger.
stranger-is_denied : is_denied low stranger ≡ true
unfolding str_eq
stranger-is_denied = refl

-- The client, connected to the server.
abbrev linked : IpcModule
linked = record (new_module client) { modules = plain_object server ∷ [] }

linked-IsValid : IsValid linked
unfolding new_module
linked-IsValid = record {
  objects_sorted = tt;
  modules_sorted = (tt, tt);
  counters_sorted = tt;
  listener_in_range = omega arith;
  connect_in_range = omega arith;
}

server_found : get_object linked.modules (announced low stranger) ≡ some (plain_object server)
unfolding new_module get_object lower_bound object_lt object_eq name_lt name_eq str_lt str_eq
server_found = refl

-- The coordinator, between the client and the server.
abbrev middle : Hop
middle = record {
  through = record (new_module coordinator) { modules = plain_object server ∷ [] };
  arrives = record (conn (codes "Client") (codes "a")) {
    module_name = coordinator;
    is_connected = true;
  };
  leaves = record (conn (codes "Server") (codes "b")) {
    module_name = coordinator;
    is_connected = true;
  };
}

abbrev at_server : IpcConnector
at_server = record (conn (codes "Coord") (codes "c")) { module_name = server; is_connected = true }

abbrev hello : IpcMessage
hello = record {
  message_name = codes "Hello";
  ipc_path = coordinator ∷ server ∷ [];
  ipc_sender = [];
  message = codes "body";
}

middle-IsLinked : IsLinked (λ name body. false) (middle ∷ []) server
unfolding get_target_path has_name coordinator_hops name_eq str_eq new_module get_module_name_string
middle-IsLinked = (refl, refl, refl, tt)

middle-IsNamed : IsNamed (λ name body. false) client (middle ∷ []) at_server
unfolding get_module_name_string get_ipc_name from_strings delimit_string delimit_loop find find_in
    c_str is_prefix
middle-IsNamed = ((refl, refl), (refl, refl))

relay_arrives_example :
    (arrived : IpcMessage) × (relay (λ name body. false) (middle ∷ []) hello ≡ some arrived)
    × (on_message_ipc_message (λ name body. false) (λ x. x) at_server arrived
        ≡ to_module (
            ipc_message_msg (record hello {
              ipc_path = [];
              ipc_sender =
                  hello.ipc_sender ++ passed_modules (λ name body. false) client (middle ∷ []);
            }))
          ∷ [])
relay_arrives_example =
    relay_arrives (λ name body. false) client (middle ∷ []) at_server hello (λ x. x) middle-IsLinked
      middle-IsNamed refl refl refl

abbrev fresh : IpcConnector
fresh = record low { internal_connections = [] }

abbrev requests : List InternalInput
requests =
    init_message (with_conn_id server (codes "i1")) (codes "127.0.0.1") 4000
    ∷ created_listener (codes "i1")
    ∷ []

on_disconnected_internal_lem_example :
    let d = internal_run fresh requests in
    let (d', acts) = on_disconnected_internal d (codes "i1") in
    (acts
      ≡ to_peer (internal_status_msg (with_conn_id d.module_name (codes "i1")) conn_close 0)
        ∷ told_destroyed d (get_object d.internal_connections (new_internal (codes "i1"))))
    × (get_object d'.internal_connections (new_internal (codes "i2")) ≡ (
        if str_eq (codes "i1") (codes "i2")
        then none
        else get_object d.internal_connections (new_internal (codes "i2"))))
on_disconnected_internal_lem_example =
    on_disconnected_internal_lem fresh requests (codes "i1") (codes "i2") refl

abbrev to_server : IpcObjectName
to_server = with_conn_id server (codes "i1")

i1_found :
    get_object low.internal_connections (new_internal (codes "i1"))
    ≡ some (new_internal (codes "i1"))
unfolding get_object lower_bound internal_eq internal_lt str_eq str_lt
i1_found = refl

server_text : get_module_name_string (with_conn_id to_server []) ≡ low.id
unfolding get_module_name_string
server_text = refl
