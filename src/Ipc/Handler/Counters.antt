-- ===== src/Ipc/Handler/Counters.antt =====
-- The counter of the attempts to reach a module, under the calls and signals that leave it.
use twainet.Prelude.{Bool, ◌&&◌, ◌≡◌, refl, ap, true, false, Option, some, List, [], ◌∷◌, arith}
use twainet.Prelude.Bytes.{Bytes, str_eq_sound, str_eq_refl}
use twainet.ObjectManager.{add_object, get_object}
use twainet.ObjectManager.Sorted.{add_object-IsSorted}
use twainet.ObjectManager.Refinement.{lookup, get_object-lookup, lookup-add_object}
use twainet.Ipc.ObjectName.{IpcObjectName, get_module_name_string}
use twainet.Ipc.Object.{TryConnectCounter, counter_order, new_counter, counter_eq}
use twainet.Ipc.Module.{
  IpcModule, connect_to, manager_func, start, start_as_coordinator, exit_module,
}
use twainet.Ipc.Module.Valid.{IsValid}
use twainet.Ipc.Handler.{
  on_created_listener, on_error_listener, on_connected, on_internal_connection_status,
  on_add_ipc_object, on_remove_ipc_object, on_disconnected, request_coordinator,
}
use twainet.Ipc.Handler.Valid.{Input, step, run, step-IsValid}

-- The counter of the name `id`.
abbrev pub counter_of : IpcModule → Bytes → Option TryConnectCounter
counter_of m id = get_object m.try_connect_counters (new_counter id)

pub counter_eq_of :
    (c d : TryConnectCounter) → c.module_name ≡ d.module_name → counter_eq c d ≡ true
unfolding counter_eq
counter_eq_of c d e = rw e (str_eq_refl d.module_name)

pub counter_name :
    (cs : List TryConnectCounter) (id : Bytes) {c : TryConnectCounter}
    → lookup cs (new_counter id) ≡ some c
    → c.module_name ≡ id
unfolding lookup counter_eq
counter_name [] id e = ground arith
counter_name (d ∷ cs) id {c} e =
    ground (arith, counter_name cs id {c = c}, str_eq_sound d.module_name id)

pub lookup_same_name :
    (cs : List TryConnectCounter) (c d : TryConnectCounter)
    → c.module_name ≡ d.module_name
    → lookup cs c ≡ lookup cs d
unfolding lookup counter_eq
lookup_same_name [] c d e = refl
lookup_same_name (b ∷ cs) c d e = ground (arith, lookup_same_name cs c d e)

-- Neither a failure, nor the name of a connected module, nor the change of a name: what may change
-- a counter.
is_other : Input → Bool
is_other (Input.error_connect now name) = false
is_other (Input.module_name object conn_id) = false
is_other (Input.update_ipc_object old new) = false
is_other (Input.updates_module_name name) = false
is_other _ = true

unfoldable pub are_other : List Input → Bool
unfolding is_other
are_other [] = true
are_other (i ∷ is) = is_other i && are_other is

connect_to-counter :
    (m : IpcModule) (name : IpcObjectName) (id : Bytes) {c : TryConnectCounter}
    → IsValid m
    → counter_of m id ≡ some c
    → counter_of (connect_to m name).0 id ≡ some c
unfolding connect_to counter_eq
connect_to-counter m name id {c} v e =
    let new = new_counter (get_module_name_string name) in
    let cs = m.try_connect_counters in
    ground (
      arith,
      e,
      get_object-lookup (add_object cs new).0 (new_counter id)
          (add_object-IsSorted cs new v.counters_sorted),
      get_object-lookup cs (new_counter id) v.counters_sorted,
      get_object-lookup cs new v.counters_sorted,
      ap (λ f. f (new_counter id)) (lookup-add_object cs new v.counters_sorted).0,
      lookup_same_name cs new (new_counter id),
      str_eq_sound (get_module_name_string name) id,
    )

module _ (user_name : Bytes) (check_fire_connector : Bytes → Bool) where
  step-counter :
      (m : IpcModule) (i : Input) (id : Bytes) {c : TryConnectCounter}
      → is_other i ≡ true
      → IsValid m
      → counter_of m id ≡ some c
      → counter_of (step user_name check_fire_connector m i) id ≡ some c
  unfolding step is_other start start_as_coordinator exit_module manager_func on_created_listener
      on_error_listener on_connected on_internal_connection_status on_add_ipc_object
      on_remove_ipc_object on_disconnected request_coordinator
  step-counter m (Input.connects_to name) id {c} o v e = connect_to-counter m name id {c = c} v e
  step-counter m Input.starts id o v e = ground (arith, e)
  step-counter m Input.starts_as_coordinator id o v e = ground (arith, e)
  step-counter m Input.exits id o v e = ground (arith, e)
  step-counter m (Input.updates_module_name name) id o v e = ground (arith, o)
  step-counter m (Input.manager_runs now) id o v e = ground (arith, e)
  step-counter m (Input.created_listener n ip port) id o v e = ground (arith, e)
  step-counter m Input.error_listener id o v e = ground (arith, e)
  step-counter m (Input.error_connect now name) id o v e = ground (arith, o)
  step-counter m (Input.connected n with_coordinator) id o v e = ground (arith, e)
  step-counter m (Input.internal_connection_status target status port) id o v e = ground (arith, e)
  step-counter m (Input.add_ipc_object object) id o v e = ground (arith, e)
  step-counter m (Input.update_ipc_object old new) id o v e = ground (arith, o)
  step-counter m (Input.remove_ipc_object name) id o v e = ground (arith, e)
  step-counter m (Input.module_name object conn_id) id o v e = ground (arith, o)
  step-counter m (Input.disconnected now n conn_id) id o v e = ground (arith, e)

  pub run-counter :
      (m : IpcModule) (is : List Input) (id : Bytes) {c : TryConnectCounter}
      → are_other is ≡ true
      → IsValid m
      → counter_of m id ≡ some c
      → counter_of (run user_name check_fire_connector m is) id ≡ some c
  unfolding run are_other
  run-counter m [] id o v e = e
  run-counter m (i ∷ is) id {c} o v e =
      run-counter (step user_name check_fire_connector m i) is id {c = c} (ground (arith, o))
        (step-IsValid user_name check_fire_connector m i v)
        (step-counter m i id {c = c} (ground (arith, o)) v e)
