-- ===== src/Ipc/Handler/Tests.antt =====
-- The theorems on the signal handler at concrete modules.
use twainet.Prelude.{◌≡◌, ◌≢◌, refl, true, false, none, some, List, [], ◌∷◌, arith}
use twainet.Prelude.Bytes.{Bytes, codes, str_eq, str_lt, str_eq_refl}
use twainet.StringMap.{map_find}
use twainet.ObjectManager.{get_object, lower_bound}
use twainet.Utils.{c_str, delimit_string, delimit_loop, find, find_in, is_prefix}
use twainet.Ipc.ObjectName.{
  IpcObjectName, name_eq, name_lt, plain_name, get_module_name_string, get_ipc_name, from_strings,
}
use twainet.Ipc.Object.{
  object_order, object_eq, object_lt, counter_eq, counter_lt, plain_object, coordinator_ipc_name,
}
use twainet.Ipc.Module.{
  IpcModule, connect_thread, on_connect_failed, on_fire_connector, on_ipc_objects_changed,
  new_module, connect_to,
}
use twainet.Ipc.Module.Valid.{IsValid}
use twainet.Ipc.Handler.{on_error_connect, on_disconnected, erase_id}
use twainet.Ipc.Handler.Valid.{Input, run, run-new_module-IsValid}
use twainet.Ipc.Handler.Counters.{are_other}
use twainet.Ipc.Handler.Retry.{connect_to_after_failure}
use twainet.Ipc.Handler.Disconnect.{hosted, on_disconnected-coordinator}

abbrev client : IpcObjectName
client = plain_name (codes "Client")

abbrev server : IpcObjectName
server = plain_name (codes "Server")

abbrev inputs : List Input
inputs =
    Input.starts
    ∷ Input.created_listener (codes "Client") (codes "127.0.0.1") 4000
    ∷ Input.error_connect 7 coordinator_ipc_name
    ∷ Input.module_name (plain_object server) (codes "c1")
    ∷ Input.disconnected 9 (codes "Server") (codes "c1")
    ∷ []

run-new_module-IsValid_example :
    IsValid (run (codes "user") (λ id. false) (new_module client) inputs)
run-new_module-IsValid_example = run-new_module-IsValid (codes "user") (λ id. false) client inputs

-- A module that knows `Server` and is connected to it by two connectors.
abbrev two_ids : List Bytes
two_ids = codes "c1" ∷ codes "c2" ∷ []

abbrev connected : List Bytes → IpcModule
connected ids = record (new_module client) {
  coordinator_name = codes "Coord";
  ipc_object = plain_object server ∷ [];
  modules = plain_object server ∷ [];
  connectors = (codes "Coord", codes "c0" ∷ []) ∷ (codes "Server", ids) ∷ [];
}

connected-IsValid : (ids : List Bytes) → IsValid (connected ids)
unfolding new_module
connected-IsValid ids = record {
  objects_sorted = (tt, tt);
  modules_sorted = (tt, tt);
  counters_sorted = tt;
  listener_in_range = omega arith;
  connect_in_range = omega arith;
}

find_server : (ids : List Bytes) → map_find (connected ids).connectors (codes "Server") ≡ some ids
unfolding map_find str_eq new_module
find_server ids = refl

find_coord :
    (ids : List Bytes)
    → map_find (connected ids).connectors (codes "Coord") ≡ some (codes "c0" ∷ [])
unfolding map_find str_eq new_module
find_coord ids = refl

erase_first : erase_id two_ids (codes "c1") ≢ []
unfolding erase_id str_eq
erase_first e = ground arith

erase_only : (id : Bytes) → erase_id (id ∷ []) id ≡ []
unfolding erase_id
erase_only id = ground (arith, str_eq_refl id)

other_coordinator : codes "Server" ≢ (connected (codes "c1" ∷ [])).coordinator_name
unfolding new_module
other_coordinator e = ground arith

on_disconnected-coordinator_example :
    let m = connected two_ids in
    let (m', events) = on_disconnected (λ id. false) m 5 (codes "Coord") (codes "c0") in
    (events ≡ on_ipc_objects_changed ∷ on_fire_connector (codes "Coord") ∷ [])
    × (m'.ipc_object ≡ hosted m.ipc_object)
    × (get_object m'.modules (plain_object (get_ipc_name (codes "Coord"))) ≡ none)
    × (m'.connect_to_coordinator_request ≡ true)
    × (m'.request_created ≡ 5)
    × (m'.count_connect ≡ m.count_connect)
on_disconnected-coordinator_example =
    on_disconnected-coordinator (λ id. false) (connected two_ids) 5 (codes "Coord") (codes "c0")
      {ids = codes "c0" ∷ []} (connected-IsValid two_ids) (λ e. ground arith) refl
      (λ e. ground arith) (find_coord two_ids) (erase_only (codes "c0"))

-- A module that knows `Server` and has no connections.
abbrev knows : IpcModule
knows = record (new_module client) { ipc_object = plain_object server ∷ [] }

knows-IsValid : IsValid knows
unfolding new_module
knows-IsValid = record {
  objects_sorted = (tt, tt);
  modules_sorted = tt;
  counters_sorted = tt;
  listener_in_range = omega arith;
  connect_in_range = omega arith;
}

connect_server : (connect_to knows server).1 ≡ connect_thread (codes "Server") 0 ∷ []
unfolding connect_to new_module get_module_name_string counter_lt counter_eq get_object lower_bound
    object_lt object_eq name_lt name_eq str_lt str_eq
connect_server = refl

reread_server : get_ipc_name (get_module_name_string server) ≡ server
unfolding get_ipc_name get_module_name_string from_strings delimit_string delimit_loop find c_str
    find_in is_prefix
reread_server = refl

server_other : get_module_name_string server ≢ coordinator_ipc_name
unfolding get_module_name_string
server_other e = ground arith

-- The coordinator is lost, and another module is asked for.
abbrev afterwards : List Input
afterwards =
    Input.disconnected 9 (codes "Coord") (codes "c0")
    ∷ Input.connects_to (plain_name (codes "Gate"))
    ∷ Input.manager_runs 40
    ∷ []

others : are_other afterwards ≡ true
unfolding are_other
others = refl

connect_to_after_failure_example :
    let id = get_module_name_string server in
    let (m', events) = on_error_connect (connect_to knows server).0 3 id in
    let m'' = run (codes "user") (λ name. false) m' afterwards in
    (events ≡ on_connect_failed id ∷ [])
    × (connect_to m'' server ≡ (m'', on_connect_failed id ∷ []))
connect_to_after_failure_example =
    connect_to_after_failure (codes "user") (λ name. false) knows server 3 afterwards
      {started = codes "Server"} {port = 0} knows-IsValid server_other reread_server connect_server
      others

found_server : get_object knows.ipc_object (plain_object server) ≡ some (plain_object server)
unfolding new_module get_object lower_bound object_lt object_eq name_lt name_eq str_lt str_eq
found_server = refl

fresh_gateway : get_object knows.ipc_object (plain_object (plain_name (codes "Gate"))) ≡ none
unfolding new_module get_object lower_bound object_lt object_eq name_lt name_eq str_lt str_eq
fresh_gateway = refl
