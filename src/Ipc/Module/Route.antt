-- ===== src/Ipc/Module/Route.antt =====
-- Where `GetTargetPath` sends a message.
use twainet.Prelude.{
  ◌≡◌, ◌≢◌, ◌↔◌, ◌⊎◌, refl, inl, Bool, true, Option, none, some, List, [], ◌∷◌, arith, Any,
  is_empty, get_elem?,
}
use twainet.Prelude.Bytes.{Bytes, str_eq_sound, str_eq_refl}
use twainet.Ipc.ObjectName.{IpcObjectName}
use twainet.Ipc.ObjectName.Ordered.{name_eq_sound, name_eq_refl}
use twainet.Ipc.Object.{IpcObject, base_access_id}
use twainet.Ipc.Module.{IpcModule, has_name, coordinator_hops, get_target_path}

-- The target is one of the connected modules.
abbrev pub IsConnected : IpcModule → IpcObjectName → Type 0
IsConnected m target = Any (λ o. target ≡ o.ipc_name) m.modules

-- An available object that is no internal connection and has the coordinator's access.
abbrev pub IsRelay : IpcObject → Type 0
IsRelay o = (o.ipc_name.conn_id ≡ []) × (o.access_id ≡ base_access_id)

-- The last step of a path.
abbrev pub last_step : List IpcObjectName → Option IpcObjectName
last_step [] = none
last_step (x ∷ []) = some x
last_step (x ∷ y ∷ p) = last_step (y ∷ p)

pub has_name_iff :
    (os : List IpcObject) (target : IpcObjectName)
    → (has_name os target ≡ true) ↔ Any (λ o. target ≡ o.ipc_name) os
unfolding has_name
has_name_iff [] target = ((λ e. ground arith), (λ a. elim a [ ]))
has_name_iff (o ∷ os) target = (
  (λ e. ground (arith, (has_name_iff os target).0, name_eq_sound target o.ipc_name)),
  (λ a. ground (arith, (has_name_iff os target).1, name_eq_refl o.ipc_name)),
)

is_empty_iff : (s : Bytes) → (is_empty s ≡ true) ↔ (s ≡ [])
is_empty_iff [] = ((λ e. refl), (λ e. refl))
is_empty_iff (b ∷ s) = ((λ e. cc), (λ e. cc))

hops_first :
    (os : List IpcObject) (target : IpcObjectName) (through : Bool) {hop : IpcObjectName}
    → get_elem? (coordinator_hops through os target) 0 ≡ some hop
    → (through ≡ true) × Any (λ o. (o.ipc_name ≡ hop) × IsRelay o) os
unfolding coordinator_hops
hops_first [] target through e = ground arith
hops_first (o ∷ os) target through {hop} e = ground (
  arith,
  hops_first os target through {hop = hop},
  (is_empty_iff o.ipc_name.conn_id).0,
  str_eq_sound o.access_id base_access_id,
)

hops_last :
    (os : List IpcObject) (target : IpcObjectName) (through : Bool)
    → (coordinator_hops through os target ≡ [])
      ⊎ (last_step (coordinator_hops through os target) ≡ some target)
unfolding coordinator_hops
hops_last [] target through = inl refl
hops_last (o ∷ os) target through = ground (arith, hops_last os target through)

hops_found :
    (os : List IpcObject) (target : IpcObjectName)
    → Any IsRelay os
    → coordinator_hops true os target ≢ []
unfolding coordinator_hops
hops_found [] target a = elim a [ ]
hops_found (o ∷ os) target a =
    ground
      (arith, hops_found os target, (is_empty_iff o.ipc_name.conn_id).1, str_eq_refl o.access_id)

hops-IsRelay :
    (os : List IpcObject) (target : IpcObjectName) (through : Bool)
    → coordinator_hops through os target ≢ []
    → (through ≡ true) × Any IsRelay os
unfolding coordinator_hops
hops-IsRelay [] target through ne = absurd (ne refl)
hops-IsRelay (o ∷ os) target through ne = ground (
  arith,
  hops-IsRelay os target through,
  (is_empty_iff o.ipc_name.conn_id).0,
  str_eq_sound o.access_id base_access_id,
)

-- A path that is not empty ends at the target. It has one step, to the target, if the target is
-- connected; otherwise it starts with an available object of the coordinator's access, and the
-- target names no host.
get_target_path-steps :
    (m : IpcModule) (target hop : IpcObjectName)
    → get_elem? (get_target_path m target) 0 ≡ some hop
    → (last_step (get_target_path m target) ≡ some target)
      × (((get_target_path m target ≡ target ∷ []) × IsConnected m target)
          ⊎ ((target.host_name ≡ []) × Any (λ o. (o.ipc_name ≡ hop) × IsRelay o) m.ipc_object))
unfolding get_target_path
get_target_path-steps m target hop e = ground (
  arith,
  (has_name_iff m.modules target).0,
  hops_first m.ipc_object target (is_empty target.host_name) {hop = hop},
  hops_last m.ipc_object target (is_empty target.host_name),
  (is_empty_iff target.host_name).0,
)

-- Another module is reached exactly if it is connected, or it names no host and some available
-- object has the coordinator's access and no connection id. No path leads to the module itself.
pub get_target_path-reaches :
    (m : IpcModule) (target : IpcObjectName)
    → (get_target_path m target ≢ []) ↔ (
        (m.module_name ≢ target)
        × (IsConnected m target ⊎ ((target.host_name ≡ []) × Any IsRelay m.ipc_object)))
unfolding get_target_path
get_target_path-reaches m target = (
  (λ ne. ground (
    arith,
    ne,
    name_eq_refl target,
    (has_name_iff m.modules target).0,
    hops-IsRelay m.ipc_object target (is_empty target.host_name),
    (is_empty_iff target.host_name).0,
  )),
  (λ h. ground (
    arith,
    h,
    name_eq_sound m.module_name target,
    (has_name_iff m.modules target).1,
    hops_found m.ipc_object target,
    (is_empty_iff target.host_name).1,
  )),
)
