-- ===== src/Ipc/ObjectName.antt =====
-- src/cpp/lib/ipc_lib/module/ipc_object_name.cpp: `IPCObjectName`, a module's name in three parts,
-- and its dotted text. The text that an object caches in `m_moduleNameString` is never read, and
-- is left out.
pub mod Ordered
pub mod RoundTrip
mod Tests
use twainet.Prelude.{
  ℕ, Bool, true, false, ◌&&◌, ◌||◌, Option, none, some, List, [], ◌∷◌, ◌++◌, get_elem?, is_empty,
  if◌then◌else◌, not,
}
use twainet.Prelude.Bytes.{Bytes, codes, str_eq, str_lt}
use twainet.Utils.{delimit_string}
use mathlib.Core.Option

pub record IpcObjectName : Type 0 where
  pub module_name : Bytes
  pub host_name : Bytes
  pub conn_id : Bytes

-- `operator ==`.
unfoldable pub name_eq : IpcObjectName → IpcObjectName → Bool
name_eq a b =
    str_eq a.module_name b.module_name
    && str_eq a.host_name b.host_name
    && str_eq a.conn_id b.conn_id

-- `operator <`.
unfoldable pub name_lt : IpcObjectName → IpcObjectName → Bool
name_lt a b =
    str_lt a.module_name b.module_name
    || (str_eq a.module_name b.module_name && str_lt a.host_name b.host_name)
    || (str_eq a.module_name b.module_name
        && str_eq a.host_name b.host_name
        && str_lt a.conn_id b.conn_id)

abbrev pub dot : ℕ
dot = b'.'

-- The constructor with its default arguments, `IPCObjectName(module_name)`.
abbrev pub plain_name : Bytes → IpcObjectName
plain_name m = record { module_name = m; host_name = []; conn_id = [] }

-- `GetModuleNameString`.
unfoldable pub get_module_name_string : IpcObjectName → Bytes
get_module_name_string n =
    let s = n.module_name in
    let s' = if not (is_empty n.host_name) then s ++ dot ∷ n.host_name else s in
    if not (is_empty n.conn_id) then s' ++ dot ∷ n.conn_id else s'

abbrev pub or_empty : Option Bytes → Bytes
or_empty none = []
or_empty (some s) = s

-- The three tests on `strings.size()`.
unfoldable pub from_strings : List Bytes → IpcObjectName
from_strings strings = record {
  module_name = or_empty (get_elem? strings 0);
  host_name = or_empty (get_elem? strings 1);
  conn_id = or_empty (get_elem? strings 2);
}

-- `GetIPCName`.
unfoldable pub get_ipc_name : Bytes → IpcObjectName
unfolding from_strings
get_ipc_name ipc_name = elim (delimit_string ipc_name (dot ∷ [])) [
  | none ↦ from_strings []
  | some strings ↦ from_strings strings
]
