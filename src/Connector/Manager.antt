-- ===== src/Connector/Manager.antt =====
-- src/cpp/lib/connector_lib/connector/connector_manager.cpp: `ConnectorManager`, which owns a module's
-- connectors and tells the module of those whose thread has stopped. The `ObjectManager` of pointers
-- is a list of the connectors behind them, sorted by address. A `DisconnectedMessage` that is
-- signalled is the `ModuleInfo` that it is made of.
pub mod Sweep
use twainet.Prelude.{
  ℕ, ◌≡◌, refl, Bool, true, false, not, List, [], ◌∷◌, ◌++◌, map, ◌==◌, ltb, arith, if◌then◌else◌,
}
use twainet.Prelude.Bytes.{Bytes, str_eq}
use twainet.Order.{Order, IsOrder}
use twainet.ObjectManager.{add_object, check_objects, processing_objects}

-- A connector: `is_stopped` is `IsStopped()` of its thread, and `is_open` whether its socket is open.
pub record Connection : Type 0 where
  pub address : ℕ
  pub connection_name : Bytes
  pub connection_id : Bytes
  pub connection_access : Bytes
  pub is_stopped : Bool
  pub is_open : Bool

pub record ModuleInfo : Type 0 where
  pub info_name : Bytes
  pub info_id : Bytes
  pub info_access : Bytes

pub connection_lt : Connection → Connection → Bool
connection_lt a b = ltb a.address b.address

pub connection_eq : Connection → Connection → Bool
connection_eq a b = a.address == b.address

pub connection-IsOrder : IsOrder connection_lt connection_eq
unfolding connection_lt connection_eq
connection-IsOrder = record {
  eq_refl = λ a. ground arith;
  eq_sym = λ a b. ground arith;
  eq_trans = λ a b c. ground arith;
  lt_not_eq = λ a b. ground arith;
  lt_trans = λ a b c. ground arith;
  lt_eq = λ a b c. ground arith;
  eq_lt = λ a b c. ground arith;
  lt_total = λ a b. ground arith;
}

instance abbrev pub connection_order : Order Connection
connection_order = record { lt = connection_lt; eqb = connection_eq; lawful = connection-IsOrder }

-- `ModuleInfo(conn->GetId(), conn->GetConnectorId(), conn->GetAccessId())`.
abbrev pub info_of : Connection → ModuleInfo
info_of c = record {
  info_name = c.connection_name;
  info_id = c.connection_id;
  info_access = c.connection_access;
}

-- `CheckConnection`.
pub check_connection : List ModuleInfo → Connection → List ModuleInfo × Bool
check_connection infos c = if c.is_stopped then (infos ++ info_of c ∷ [], true) else (infos, false)

-- `StopConnector`: the connector's socket is closed, and its thread is handed to the thread manager.
pub stop_connector_of : List ModuleInfo → Connection → List ModuleInfo × Bool
stop_connector_of infos c = (infos ++ info_of c ∷ [], true)

-- `ManagerFunc`: the connectors that are left, and the signals.
pub connector_manager_func : List Connection → List Connection × List ModuleInfo
unfolding check_connection
connector_manager_func conns =
    let (infos, left) = check_objects check_connection [] conns in (left, infos)

-- `ManagerStop`.
pub connector_manager_stop : List Connection → List Connection × List ModuleInfo
unfolding stop_connector_of
connector_manager_stop conns =
    let (infos, left) = check_objects stop_connector_of [] conns in (left, infos)

-- `AddConnection`: the connectors, and the addresses whose `onNewConnector` subscribes to the new one,
-- before it starts.
unfoldable add_connection_to : List Connection → Connection → List Connection × List ℕ
add_connection_to conns c =
    ((add_object conns c).0, processing_objects (λ seen d. seen ++ d.address ∷ []) [] conns)

-- `StopConnectionByName`.
stop_connection_by_name : Bytes → Connection → Connection
stop_connection_by_name name c =
    if str_eq c.connection_name name then record c { is_open = false } else c

-- `StopConnection`.
unfoldable stop_connection_of : List Connection → Bytes → List Connection
unfolding stop_connection_by_name
stop_connection_of conns name = map (stop_connection_by_name name) conns

-- `StopConnectors`.
stop_connectors : Connection → Connection
stop_connectors c = record c { is_open = false }

-- `StopAllConnection`.
unfoldable stop_all_connection : List Connection → List Connection
unfolding stop_connectors
stop_all_connection conns = map stop_connectors conns
