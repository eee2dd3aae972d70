-- ===== src/Ipc/ObjectName/Ordered.antt =====
-- The operators of `IPCObjectName` as an order, which `std::lower_bound` needs.
use twainet.Prelude.{◌≡◌, ◌↔◌, true, arith}
use twainet.Prelude.Bytes.{Bytes, str_eq, str_lt, str_eq_sound}
use twainet.Order.{IsOrder, Bytes-IsLinear, pair_lt, pair_eq, pair-IsLinear, key-IsOrder_of_eq}
use twainet.Ipc.ObjectName.{IpcObjectName, name_eq, name_lt}

abbrev parts : IpcObjectName → Bytes × (Bytes × Bytes)
parts n = (n.module_name, (n.host_name, n.conn_id))

-- `<` and `==` on names are a strict weak order and its equivalence.
pub name-IsOrder : IsOrder name_lt name_eq
unfolding name_lt name_eq
name-IsOrder =
    key-IsOrder_of_eq
      (pair-IsLinear str_lt str_eq (pair_lt str_lt str_eq str_lt str_eq)
        (pair_eq str_lt str_eq str_lt str_eq) Bytes-IsLinear
        (pair-IsLinear str_lt str_eq str_lt str_eq Bytes-IsLinear Bytes-IsLinear))
      parts (λ a b. ground arith) (λ a b. ground arith)

pub name_eq_sound : (a b : IpcObjectName) → name_eq a b ≡ true → a ≡ b
unfolding name_eq
name_eq_sound a b h = ground (
  arith,
  str_eq_sound a.module_name b.module_name,
  str_eq_sound a.host_name b.host_name,
  str_eq_sound a.conn_id b.conn_id,
)

pub name_eq_refl : (a : IpcObjectName) → name_eq a a ≡ true
name_eq_refl a = name-IsOrder.eq_refl a

pub name_eq_iff : (a b : IpcObjectName) → (name_eq a b ≡ true) ↔ (a ≡ b)
name_eq_iff a b = (name_eq_sound a b, λ e. rw e (name_eq_refl b))
