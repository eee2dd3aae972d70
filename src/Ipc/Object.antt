-- ===== src/Ipc/Object.antt =====
-- src/cpp/lib/ipc_lib/module/ipc_module.cpp: `IPCModule::IPCObject` and
-- `IPCModule::TryConnectCounter`, the records that the module's object managers hold, and the
-- constants of the module.
use twainet.Prelude.{ℕ, Bool}
use twainet.Prelude.Bytes.{Bytes, codes, str_eq, str_lt}
use twainet.Order.{Order, IsOrder, Bytes-IsLinear, key-IsOrder}
use twainet.Ipc.ObjectName.{IpcObjectName, name_eq, name_lt}
use twainet.Ipc.ObjectName.Ordered.{name-IsOrder}

pub record IpcObject : Type 0 where
  pub ipc_name : IpcObjectName
  pub ip : Bytes
  pub port : ℕ
  pub access_id : Bytes

pub record TryConnectCounter : Type 0 where
  pub module_name : Bytes
  pub count : ℕ

abbrev pub coordinator_ipc_name : Bytes
coordinator_ipc_name = codes "IPCCoordinator"

abbrev pub base_access_id : Bytes
base_access_id = codes "Coordinator"

abbrev pub internal_access_id : Bytes
internal_access_id = codes "Internal"

abbrev pub local_ip : Bytes
local_ip = codes "127.0.0.1"

abbrev pub max_try_connect_count : ℕ
max_try_connect_count = 10

abbrev pub connect_timeout : ℕ
connect_timeout = 10

abbrev pub coordinator_port_count : ℕ
coordinator_port_count = 1

abbrev pub coordinator_port : ℕ
coordinator_port = 2041

-- The constructor with its default arguments, `IPCObject(ipcName)`.
abbrev pub plain_object : IpcObjectName → IpcObject
plain_object n = record { ipc_name = n; ip = local_ip; port = 0; access_id = base_access_id }

-- `TryConnectCounter(moduleName)`.
abbrev pub new_counter : Bytes → TryConnectCounter
new_counter s = record { module_name = s; count = 0 }

unfoldable pub object_eq : IpcObject → IpcObject → Bool
object_eq a b = name_eq a.ipc_name b.ipc_name

unfoldable pub object_lt : IpcObject → IpcObject → Bool
object_lt a b = name_lt a.ipc_name b.ipc_name

unfoldable pub counter_eq : TryConnectCounter → TryConnectCounter → Bool
counter_eq a b = str_eq a.module_name b.module_name

unfoldable pub counter_lt : TryConnectCounter → TryConnectCounter → Bool
counter_lt a b = str_lt a.module_name b.module_name

pub object-IsOrder : IsOrder object_lt object_eq
unfolding object_lt object_eq
object-IsOrder = record {
  eq_refl = λ a. name-IsOrder.eq_refl a.ipc_name;
  eq_sym = λ a b. name-IsOrder.eq_sym a.ipc_name b.ipc_name;
  eq_trans = λ a b c. name-IsOrder.eq_trans a.ipc_name b.ipc_name c.ipc_name;
  lt_not_eq = λ a b. name-IsOrder.lt_not_eq a.ipc_name b.ipc_name;
  lt_trans = λ a b c. name-IsOrder.lt_trans a.ipc_name b.ipc_name c.ipc_name;
  lt_eq = λ a b c. name-IsOrder.lt_eq a.ipc_name b.ipc_name c.ipc_name;
  eq_lt = λ a b c. name-IsOrder.eq_lt a.ipc_name b.ipc_name c.ipc_name;
  lt_total = λ a b. name-IsOrder.lt_total a.ipc_name b.ipc_name;
}

pub counter-IsOrder : IsOrder counter_lt counter_eq
unfolding counter_lt counter_eq
counter-IsOrder = key-IsOrder Bytes-IsLinear (λ (c : TryConnectCounter). c.module_name)

instance abbrev pub object_order : Order IpcObject
object_order = record { lt = object_lt; eqb = object_eq; lawful = object-IsOrder }

instance abbrev pub counter_order : Order TryConnectCounter
counter_order = record { lt = counter_lt; eqb = counter_eq; lawful = counter-IsOrder }
