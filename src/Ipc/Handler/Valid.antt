-- ===== src/Ipc/Handler/Valid.antt =====
-- The module's invariant under its signals, and under sequences of signals and calls.
use twainet.Prelude.{ℕ, ◌+◌, List, [], ◌∷◌, Bool, arith, Option-cases, inl, inr}
use twainet.Prelude.Bytes.{Bytes}
use twainet.ObjectManager.{remove_object}
use twainet.ObjectManager.Sorted.{
  IsSorted, add_object-IsSorted, remove_object-IsSorted, update_object-IsSorted,
}
use twainet.ObjectManager.Scan.{check_objects-IsSorted}
use twainet.ObjectManager.{get_object}
use twainet.Ipc.ObjectName.{IpcObjectName, get_ipc_name}
use twainet.Ipc.Object.{
  IpcObject, TryConnectCounter, object_order, counter_order, new_counter, plain_object,
}
use twainet.Ipc.Module.{
  IpcModule, ConnectionStatus, start, start_as_coordinator, connect_to, manager_func, exit_module,
  new_module,
}
use twainet.Ipc.Module.Valid.{
  IsValid, connect_to-IsValid, start_as_coordinator-IsValid, start-IsValid, manager_func-IsValid,
  new_module-IsValid,
}
use twainet.Ipc.Handler.{
  on_created_listener, on_error_listener, request_coordinator, on_error_connect, on_connected,
  internal_object, on_internal_connection_status, on_add_ipc_object, on_update_ipc_object,
  rename_counter, update_module_name, on_remove_ipc_object, on_module_name, on_disconnected,
  check_ipc_object, counter_or, object_or,
}

on_created_listener-IsValid :
    (user_name : Bytes) (m : IpcModule) (id ip : Bytes) (port : ℕ)
    → IsValid m
    → IsValid (on_created_listener user_name m id ip port).0
unfolding on_created_listener
on_created_listener-IsValid user_name m id ip port v = record {
  objects_sorted = add_object-IsSorted m.ipc_object _ v.objects_sorted;
  modules_sorted = v.modules_sorted;
  counters_sorted = v.counters_sorted;
  listener_in_range = v.listener_in_range;
  connect_in_range = v.connect_in_range;
}

on_error_listener-IsValid : (m : IpcModule) → IsValid m → IsValid (on_error_listener m).0
unfolding on_error_listener
on_error_listener-IsValid m v = ground arith

request_coordinator-IsValid :
    (m : IpcModule) (now : ℕ) → IsValid m → IsValid (request_coordinator m now)
unfolding request_coordinator
request_coordinator-IsValid m now v = ground arith

pub on_error_connect-IsValid :
    (m : IpcModule) (now : ℕ) (name : Bytes) → IsValid m → IsValid (on_error_connect m now name).0
unfolding on_error_connect
on_error_connect-IsValid m now name v =
    let counter =
      counter_or (new_counter name) (get_object m.try_connect_counters (new_counter name)) in
    let m' = (connect_to m (get_ipc_name name)).0 in
    let v' = connect_to-IsValid m (get_ipc_name name) v in
    ground (
      arith,
      v',
      update_object-IsSorted m'.try_connect_counters (record counter { count = counter.count + 1 })
          v'.counters_sorted,
      remove_object-IsSorted m.try_connect_counters counter v.counters_sorted,
    )

on_internal_connection_status-IsValid :
    (m : IpcModule) (target : IpcObjectName) (status : ConnectionStatus) (port : ℕ)
    → IsValid m
    → IsValid (on_internal_connection_status m target status port).0
unfolding on_internal_connection_status
on_internal_connection_status-IsValid m target status port v =
    let object = internal_object target port in
    ground (
      arith,
      add_object-IsSorted m.modules object v.modules_sorted,
      add_object-IsSorted m.ipc_object object v.objects_sorted,
      remove_object-IsSorted m.modules object v.modules_sorted,
      remove_object-IsSorted m.ipc_object object v.objects_sorted,
    )

rename_counter-IsSorted :
    (cs : List TryConnectCounter) (old new : Bytes)
    → IsSorted cs
    → IsSorted (rename_counter cs old new)
unfolding rename_counter
rename_counter-IsSorted cs old new s = elim (Option-cases (get_object cs (new_counter old))) [
  | inl e ↦ rw (e, rename_counter) s
  | inr (c, e) ↦
      rw (e, rename_counter)
        (add_object-IsSorted (remove_object cs c).0 _ (remove_object-IsSorted cs c s))
]

on_update_ipc_object-IsValid :
    (m : IpcModule) (old new : IpcObjectName)
    → IsValid m
    → IsValid (on_update_ipc_object m old new).0
unfolding on_update_ipc_object
on_update_ipc_object-IsValid m old new v =
    let plain = plain_object old in
    let object = object_or plain (get_object m.ipc_object plain) in
    let object' = record object { ipc_name = new } in
    let rest = remove_object-IsSorted m.modules object v.modules_sorted in
    record {
      objects_sorted =
          add_object-IsSorted _ object'
            (remove_object-IsSorted m.ipc_object object v.objects_sorted);
      modules_sorted =
          ground (arith, rest, add_object-IsSorted (remove_object m.modules object).0 object' rest);
      counters_sorted = rename_counter-IsSorted m.try_connect_counters _ _ v.counters_sorted;
      listener_in_range = v.listener_in_range;
      connect_in_range = v.connect_in_range;
    }

on_module_name-IsValid :
    (m : IpcModule) (object : IpcObject) (conn_id : Bytes)
    → IsValid m
    → IsValid (on_module_name m object conn_id).0
unfolding on_module_name
on_module_name-IsValid m object conn_id v = record {
  objects_sorted = v.objects_sorted;
  modules_sorted = add_object-IsSorted m.modules object v.modules_sorted;
  counters_sorted = remove_object-IsSorted m.try_connect_counters _ v.counters_sorted;
  listener_in_range = v.listener_in_range;
  connect_in_range = v.connect_in_range;
}

on_disconnected-IsValid :
    (check_fire_connector : Bytes → Bool) (m : IpcModule) (now : ℕ) (id conn_id : Bytes)
    → IsValid m
    → IsValid (on_disconnected check_fire_connector m now id conn_id).0
unfolding on_disconnected request_coordinator
on_disconnected-IsValid check_fire_connector m now id conn_id v =
    let named = plain_object (get_ipc_name id) in
    ground (
      arith,
      remove_object-IsSorted m.modules named v.modules_sorted,
      check_objects-IsSorted check_ipc_object tt m.ipc_object v.objects_sorted,
    )

add-IsValid :
    (m : IpcModule) (object : IpcObject) → IsValid m → IsValid (on_add_ipc_object m object).0
unfolding on_add_ipc_object
add-IsValid m object v = ground (arith, add_object-IsSorted m.ipc_object object v.objects_sorted)

remove-IsValid :
    (m : IpcModule) (name : Bytes) → IsValid m → IsValid (on_remove_ipc_object m name).0
unfolding on_remove_ipc_object
remove-IsValid m name v =
    ground (
      arith,
      remove_object-IsSorted m.ipc_object (plain_object (get_ipc_name name)) v.objects_sorted,
    )

on_connected-IsValid :
    (m : IpcModule) (id : Bytes) (with_coordinator : Bool)
    → IsValid m
    → IsValid (on_connected m id with_coordinator).0
unfolding on_connected
on_connected-IsValid m id with_coordinator v = ground arith

update_module_name-IsValid :
    (m : IpcModule) (name : IpcObjectName) → IsValid m → IsValid (update_module_name m name).0
unfolding update_module_name
update_module_name-IsValid m name v =
    ground (arith, on_update_ipc_object-IsValid m m.module_name name v)

exit_module-IsValid : (m : IpcModule) → IsValid m → IsValid (exit_module m)
unfolding exit_module
exit_module-IsValid m v = ground arith

-- A call of the application, or a signal of a thread or connector, that changes the module.
pub data Input : Type 0 where
  starts starts_as_coordinator exits : Input
  connects_to updates_module_name : IpcObjectName → Input
  manager_runs : ℕ → Input
  created_listener : Bytes → Bytes → ℕ → Input
  error_listener : Input
  error_connect : ℕ → Bytes → Input
  connected : Bytes → Bool → Input
  internal_connection_status : IpcObjectName → ConnectionStatus → ℕ → Input
  add_ipc_object : IpcObject → Input
  update_ipc_object : IpcObjectName → IpcObjectName → Input
  remove_ipc_object : Bytes → Input
  module_name : IpcObject → Bytes → Input
  disconnected : ℕ → Bytes → Bytes → Input

module _ (user_name : Bytes) (check_fire_connector : Bytes → Bool) where
  unfoldable pub step : IpcModule → Input → IpcModule
  step m Input.starts = (start m).0
  step m Input.starts_as_coordinator = (start_as_coordinator m).0
  step m Input.exits = exit_module m
  step m (Input.connects_to name) = (connect_to m name).0
  step m (Input.updates_module_name name) = (update_module_name m name).0
  step m (Input.manager_runs now) = (manager_func m now).0
  step m (Input.created_listener id ip port) = (on_created_listener user_name m id ip port).0
  step m Input.error_listener = (on_error_listener m).0
  step m (Input.error_connect now name) = (on_error_connect m now name).0
  step m (Input.connected id with_coordinator) = (on_connected m id with_coordinator).0
  step m (Input.internal_connection_status target status port) =
      (on_internal_connection_status m target status port).0
  step m (Input.add_ipc_object object) = (on_add_ipc_object m object).0
  step m (Input.update_ipc_object old new) = (on_update_ipc_object m old new).0
  step m (Input.remove_ipc_object name) = (on_remove_ipc_object m name).0
  step m (Input.module_name object conn_id) = (on_module_name m object conn_id).0
  step m (Input.disconnected now id conn_id) =
      (on_disconnected check_fire_connector m now id conn_id).0

  pub step-IsValid : (m : IpcModule) (i : Input) → IsValid m → IsValid (step m i)
  unfolding step
  step-IsValid m Input.starts v = start-IsValid m v
  step-IsValid m Input.starts_as_coordinator v = start_as_coordinator-IsValid m v
  step-IsValid m Input.exits v = exit_module-IsValid m v
  step-IsValid m (Input.connects_to name) v = connect_to-IsValid m name v
  step-IsValid m (Input.updates_module_name name) v = update_module_name-IsValid m name v
  step-IsValid m (Input.manager_runs now) v = manager_func-IsValid m now v
  step-IsValid m (Input.created_listener id ip port) v =
      on_created_listener-IsValid user_name m id ip port v
  step-IsValid m Input.error_listener v = on_error_listener-IsValid m v
  step-IsValid m (Input.error_connect now name) v = on_error_connect-IsValid m now name v
  step-IsValid m (Input.connected id with_coordinator) v =
      on_connected-IsValid m id with_coordinator v
  step-IsValid m (Input.internal_connection_status target status port) v =
      on_internal_connection_status-IsValid m target status port v
  step-IsValid m (Input.add_ipc_object object) v = add-IsValid m object v
  step-IsValid m (Input.update_ipc_object old new) v = on_update_ipc_object-IsValid m old new v
  step-IsValid m (Input.remove_ipc_object name) v = remove-IsValid m name v
  step-IsValid m (Input.module_name object conn_id) v = on_module_name-IsValid m object conn_id v
  step-IsValid m (Input.disconnected now id conn_id) v =
      on_disconnected-IsValid check_fire_connector m now id conn_id v

  unfoldable pub run : IpcModule → List Input → IpcModule
  unfolding step
  run m [] = m
  run m (i ∷ is) = run (step m i) is

  run-IsValid : (m : IpcModule) (is : List Input) → IsValid m → IsValid (run m is)
  unfolding run
  run-IsValid m [] v = v
  run-IsValid m (i ∷ is) v = run-IsValid (step m i) is (step-IsValid m i v)

  -- After any sequence of calls and signals on a new module its three object managers are sorted and
  -- both indices into the coordinator's ports are in range, whatever the user's name and whatever
  -- `CheckFireConnector` answers.
  pub run-new_module-IsValid :
      (name : IpcObjectName) (is : List Input) → IsValid (run (new_module name) is)
  run-new_module-IsValid name is = run-IsValid (new_module name) is (new_module-IsValid name)
