-- ===== src/Ipc/Module/Valid.antt =====
-- The invariant of `IPCModule`, under its own operations.
use twainet.Prelude.{ℕ, ◌<◌, arith}
use twainet.ObjectManager.Sorted.{IsSorted, add_object-IsSorted}
use twainet.Ipc.ObjectName.{IpcObjectName, get_module_name_string}
use twainet.Ipc.Object.{object_order, counter_order, coordinator_port_count, new_counter}
use twainet.Ipc.Module.{
  IpcModule, new_module, start, start_as_coordinator, connect_to, manager_func,
}

-- The three object managers are sorted, and the two indices into the coordinator's ports are in
-- range.
pub record IsValid (m : IpcModule) : Type 0 where
  pub objects_sorted : IsSorted m.ipc_object
  pub modules_sorted : IsSorted m.modules
  pub counters_sorted : IsSorted m.try_connect_counters
  pub listener_in_range : m.count_listener < coordinator_port_count
  pub connect_in_range : m.count_connect < coordinator_port_count

pub new_module-IsValid : (name : IpcObjectName) → IsValid (new_module name)
unfolding new_module
new_module-IsValid name = omega arith

pub start-IsValid : (m : IpcModule) → IsValid m → IsValid (start m).0
unfolding start
start-IsValid m v = ground arith

pub start_as_coordinator-IsValid : (m : IpcModule) → IsValid m → IsValid (start_as_coordinator m).0
unfolding start_as_coordinator
start_as_coordinator-IsValid m v = ground arith

pub connect_to-IsValid :
    (m : IpcModule) (name : IpcObjectName) → IsValid m → IsValid (connect_to m name).0
unfolding connect_to
connect_to-IsValid m name v = ground (
  arith,
  add_object-IsSorted m.try_connect_counters (new_counter (get_module_name_string name))
      v.counters_sorted,
)

pub manager_func-IsValid : (m : IpcModule) (now : ℕ) → IsValid m → IsValid (manager_func m now).0
unfolding manager_func
manager_func-IsValid m now v = ground arith
