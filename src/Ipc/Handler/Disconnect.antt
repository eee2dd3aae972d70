-- ===== src/Ipc/Handler/Disconnect.antt =====
-- What `onDisconnected` does when one of a module's connectors is gone.
use twainet.Prelude.{
  ℕ, ◌≡◌, ◌≢◌, refl, ap, ◌∙◌, Bool, true, false, none, some, List, [], ◌∷◌, arith, if◌then◌else◌,
  is_empty,
}
use twainet.Prelude.Bytes.{Bytes, str_eq_sound, str_eq_refl}
use twainet.StringMap.{map_find, map_set, map_erase, map_find-map_erase}
use twainet.ObjectManager.{get_object, remove_object, check_objects}
use twainet.ObjectManager.Sorted.{IsSorted, remove_object-IsSorted}
use twainet.ObjectManager.Scan.{check_ref, check_objects-check_ref}
use twainet.ObjectManager.Refinement.{get_object-lookup, lookup-remove_object}
use twainet.Ipc.ObjectName.{IpcObjectName, get_ipc_name}
use twainet.Ipc.ObjectName.Ordered.{name_eq_refl}
use twainet.Ipc.Object.{IpcObject, object_order, object_eq, plain_object, coordinator_ipc_name}
use twainet.Ipc.Module.{IpcModule, on_fire_connector, on_ipc_objects_changed}
use twainet.Ipc.Module.Valid.{IsValid}
use twainet.Ipc.Handler.{
  on_disconnected, drop_connector, erase_id, request_coordinator, check_ipc_object,
}

is_empty-ne {ℓ} : {A : Type ℓ} → (xs : List A) → xs ≢ [] → is_empty xs ≡ false
is_empty-ne [] ne = absurd (ne refl)
is_empty-ne (x ∷ xs) ne = refl

drop_connector-keeps :
    (cs : List (Bytes × List Bytes)) (id conn_id : Bytes) {ids : List Bytes}
    → map_find cs id ≡ some ids
    → erase_id ids conn_id ≢ []
    → drop_connector cs id conn_id ≡ (map_set cs id (erase_id ids conn_id), false)
unfolding drop_connector
drop_connector-keeps cs id conn_id {ids} found ne =
    rw (found, drop_connector) (ground (arith, is_empty-ne (erase_id ids conn_id) ne))

drop_connector-last :
    (cs : List (Bytes × List Bytes)) (id conn_id : Bytes) {ids : List Bytes}
    → map_find cs id ≡ some ids
    → erase_id ids conn_id ≡ []
    → drop_connector cs id conn_id ≡ (map_erase cs id, true)
unfolding drop_connector
drop_connector-last cs id conn_id found e = rw (found, drop_connector) (ground (arith, e))

-- The objects that name a host.
abbrev pub hosted : List IpcObject → List IpcObject
hosted [] = []
hosted (o ∷ os) = if is_empty o.ipc_name.host_name then hosted os else o ∷ hosted os

check_ref-hosted : (os : List IpcObject) → check_ref check_ipc_object tt os ≡ (tt, hosted os)
unfolding check_ref check_ipc_object
check_ref-hosted [] = refl
check_ref-hosted (o ∷ os) = ground (arith, check_ref-hosted os)

check_objects-hosted : (os : List IpcObject) → (check_objects check_ipc_object tt os).1 ≡ hosted os
check_objects-hosted os =
    ap (λ r. r.1) (check_objects-check_ref check_ipc_object tt os ∙ check_ref-hosted os)

-- While the module still has another connector nothing happens but that the one is forgotten (for
-- a class whose `CheckFireConnector` answers false for the name).
on_disconnected-keeps :
    (check_fire_connector : Bytes → Bool) (m : IpcModule) (now : ℕ) (id conn_id : Bytes)
    {ids : List Bytes}
    → check_fire_connector id ≡ false
    → map_find m.connectors id ≡ some ids
    → erase_id ids conn_id ≢ []
    → on_disconnected check_fire_connector m now id conn_id
      ≡ (record m { connectors = map_set m.connectors id (erase_id ids conn_id) }, [])
unfolding on_disconnected
on_disconnected-keeps check_fire_connector m now id conn_id {ids} quiet found ne =
    ground (arith, drop_connector-keeps m.connectors id conn_id {ids = ids} found ne)

-- The module named by `id` is taken off the connected ones.
abbrev without : IpcModule → Bytes → IpcModule
without m id = record m {
  connectors = map_erase m.connectors id;
  modules = (remove_object m.modules (plain_object (get_ipc_name id))).0;
}

last_other :
    (check_fire_connector : Bytes → Bool) (m : IpcModule) (now : ℕ) (id conn_id : Bytes)
    {ids : List Bytes}
    → id ≢ coordinator_ipc_name
    → id ≢ m.coordinator_name
    → map_find m.connectors id ≡ some ids
    → erase_id ids conn_id ≡ []
    → on_disconnected check_fire_connector m now id conn_id
      ≡ (without m id, on_fire_connector id ∷ [])
unfolding on_disconnected
last_other check_fire_connector m now id conn_id {ids} other other' found e = ground (
  arith,
  drop_connector-last m.connectors id conn_id {ids = ids} found e,
  str_eq_sound id coordinator_ipc_name,
  str_eq_sound id m.coordinator_name,
)

last_coordinator :
    (check_fire_connector : Bytes → Bool) (m : IpcModule) (now : ℕ) (id conn_id : Bytes)
    {ids : List Bytes}
    → id ≢ coordinator_ipc_name
    → id ≡ m.coordinator_name
    → id ≢ []
    → map_find m.connectors id ≡ some ids
    → erase_id ids conn_id ≡ []
    → on_disconnected check_fire_connector m now id conn_id ≡ (
      request_coordinator
          (record (without m id) {
            ipc_object = (check_objects check_ipc_object tt m.ipc_object).1;
          })
          now,
      on_ipc_objects_changed ∷ on_fire_connector id ∷ [],
    )
unfolding on_disconnected
last_coordinator check_fire_connector m now id conn_id {ids} other same ne found e = ground (
  arith,
  drop_connector-last m.connectors id conn_id {ids = ids} found e,
  str_eq_sound id coordinator_ipc_name,
  str_eq_refl id,
  is_empty-ne id ne,
)

not_connected :
    (os : List IpcObject) (name : IpcObjectName)
    → IsSorted os
    → get_object (remove_object os (plain_object name)).0 (plain_object name) ≡ none
unfolding object_eq
not_connected os name s =
    let x = plain_object name in
    get_object-lookup _ x (remove_object-IsSorted os x s)
    ∙ ap (λ f. f x) (lookup-remove_object os x s).0
    ∙ ground (arith, name_eq_refl name)

no_connectors : (cs : List (Bytes × List Bytes)) (id : Bytes) → map_find (map_erase cs id) id ≡ none
no_connectors cs id = map_find-map_erase cs id id ∙ ground (arith, str_eq_refl id)

-- With its last connector a module other than the coordinator is no longer connected and has no
-- connectors; `OnFireConnector` is called for it and nothing else; the available objects stay.
on_disconnected-last :
    (check_fire_connector : Bytes → Bool) (m : IpcModule) (now : ℕ) (id conn_id : Bytes)
    {ids : List Bytes}
    → IsValid m
    → id ≢ coordinator_ipc_name
    → id ≢ m.coordinator_name
    → map_find m.connectors id ≡ some ids
    → erase_id ids conn_id ≡ []
    → let (m', events) = on_disconnected check_fire_connector m now id conn_id in
      (events ≡ on_fire_connector id ∷ [])
      × (get_object m'.modules (plain_object (get_ipc_name id)) ≡ none)
      × (map_find m'.connectors id ≡ none)
      × (m'.ipc_object ≡ m.ipc_object)
on_disconnected-last check_fire_connector m now id conn_id {ids} v other other' found e =
    rw (last_other check_fire_connector m now id conn_id {ids = ids} other other' found e) (
      refl,
      not_connected m.modules (get_ipc_name id) v.modules_sorted,
      no_connectors m.connectors id,
      refl,
    )

-- With the last connector of the coordinator, known by its own name, every available object that
-- names no host is dropped and the others are kept, the listeners are told, and the next connection
-- to the coordinator is requested at this time.
pub on_disconnected-coordinator :
    (check_fire_connector : Bytes → Bool) (m : IpcModule) (now : ℕ) (id conn_id : Bytes)
    {ids : List Bytes}
    → IsValid m
    → id ≢ coordinator_ipc_name
    → id ≡ m.coordinator_name
    → id ≢ []
    → map_find m.connectors id ≡ some ids
    → erase_id ids conn_id ≡ []
    → let (m', events) = on_disconnected check_fire_connector m now id conn_id in
      (events ≡ on_ipc_objects_changed ∷ on_fire_connector id ∷ [])
      × (m'.ipc_object ≡ hosted m.ipc_object)
      × (get_object m'.modules (plain_object (get_ipc_name id)) ≡ none)
      × (m'.connect_to_coordinator_request ≡ true)
      × (m'.request_created ≡ now)
      × (m'.count_connect ≡ m.count_connect)
unfolding request_coordinator
on_disconnected-coordinator check_fire_connector m now id conn_id {ids} v other same ne found e =
    rw (last_coordinator check_fire_connector m now id conn_id {ids = ids} other same ne found e) (
      refl,
      check_objects-hosted m.ipc_object,
      not_connected m.modules (get_ipc_name id) v.modules_sorted,
      refl,
      refl,
      ground arith,
    )
