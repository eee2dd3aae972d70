-- ===== src/Ipc/Handler/Rename.antt =====
-- What `onUpdateIPCObject` and `UpdateModuleName` do to the available objects when a module gets
-- another name.
use twainet.Prelude.{◌≡◌, refl, sym, ap, ◌∙◌, true, none, some, List, [], ◌∷◌, arith, if◌then◌else◌}
use twainet.ObjectManager.{get_object, add_object, remove_object}
use twainet.ObjectManager.Sorted.{IsSorted, remove_object-IsSorted, add_object-IsSorted}
use twainet.ObjectManager.Refinement.{
  lookup, lookup_same, get_object-lookup, lookup-add_object, lookup-remove_object, map_add,
  map_remove,
}
use twainet.Ipc.ObjectName.{IpcObjectName, name_eq}
use twainet.Ipc.ObjectName.Ordered.{name-IsOrder}
use twainet.Ipc.Object.{IpcObject, object_order, object_eq, plain_object}
use twainet.Ipc.Module.{IpcModule}
use twainet.Ipc.Module.Valid.{IsValid}
use twainet.Ipc.Handler.{on_update_ipc_object, object_or}

-- The objects with `object` taken out and `new` put in its place.
moved_objects : List IpcObject → IpcObject → IpcObjectName → List IpcObject
moved_objects os object new =
    (add_object (remove_object os object).0 (record object { ipc_name = new })).0

get_object-moved :
    (os : List IpcObject) (object : IpcObject) (new : IpcObjectName) (q : IpcObject)
    → IsSorted os
    → get_object (moved_objects os object new) q
      ≡ map_add (map_remove (lookup os) object) (record object { ipc_name = new }) q
unfolding moved_objects
get_object-moved os object new q s =
    let object' : IpcObject = record object { ipc_name = new } in
    let rest = (remove_object os object).0 in
    let sorted = remove_object-IsSorted os object s in
    get_object-lookup (add_object rest object').0 q (add_object-IsSorted rest object' sorted)
    ∙ ap (λ f. f q)
        ((lookup-add_object rest object' sorted).0
          ∙ ap (λ f. map_add f object') (lookup-remove_object os object s).0)

updated :
    (m : IpcModule) (old new : IpcObjectName)
    → (on_update_ipc_object m old new).0.ipc_object
      ≡ moved_objects m.ipc_object
          (object_or (plain_object old) (get_object m.ipc_object (plain_object old)))
          new
unfolding on_update_ipc_object moved_objects
updated m old new = refl

lookup_eq :
    (os : List IpcObject) (q : IpcObject) {o : IpcObject}
    → lookup os q ≡ some o
    → object_eq o q ≡ true
unfolding lookup
lookup_eq [] q e = ground arith
lookup_eq (y ∷ ys) q {o} e = ground (arith, lookup_eq ys q {o = o})

-- A known object that gets a name that no object has keeps its address, port and access id under
-- the new name; no object has the old name then; every other object is as before.
on_update_ipc_object-known :
    (m : IpcModule) (old new : IpcObjectName) (q : IpcObject) {o : IpcObject}
    → IsValid m
    → get_object m.ipc_object (plain_object old) ≡ some o
    → get_object m.ipc_object (plain_object new) ≡ none
    → get_object (on_update_ipc_object m old new).0.ipc_object q ≡ (
        if name_eq new q.ipc_name
        then some (record o { ipc_name = new })
        else if name_eq old q.ipc_name
        then none
        else get_object m.ipc_object q)
unfolding object_eq
on_update_ipc_object-known m old new q {o} v found fresh =
    let s = v.objects_sorted in
    let object' : IpcObject = record o { ipc_name = new } in
    let known = sym (get_object-lookup m.ipc_object (plain_object old) s) ∙ found in
    ap (λ os. get_object os q) (updated m old new)
    ∙ ap (λ r. get_object (moved_objects m.ipc_object (object_or (plain_object old) r) new) q) found
    ∙ get_object-moved m.ipc_object o new q s
    ∙ ground (
      arith,
      lookup_eq m.ipc_object (plain_object old) {o = o} known,
      name-IsOrder.eq_sym o.ipc_name old,
      name-IsOrder.eq_trans o.ipc_name old q.ipc_name,
      name-IsOrder.eq_trans old o.ipc_name q.ipc_name,
      lookup_same m.ipc_object object' (plain_object new) (name-IsOrder.eq_refl new),
      sym (get_object-lookup m.ipc_object (plain_object new) s) ∙ fresh,
      get_object-lookup m.ipc_object q s,
      lookup_same m.ipc_object object' q,
    )

-- An old name that no object has is not refused: the new name becomes an object with the default
-- address and the coordinator's access id.
on_update_ipc_object-unknown :
    (m : IpcModule) (old new : IpcObjectName) (q : IpcObject)
    → IsValid m
    → get_object m.ipc_object (plain_object old) ≡ none
    → get_object m.ipc_object (plain_object new) ≡ none
    → get_object (on_update_ipc_object m old new).0.ipc_object q
      ≡ (if name_eq new q.ipc_name then some (plain_object new) else get_object m.ipc_object q)
unfolding object_eq
on_update_ipc_object-unknown m old new q v unknown fresh =
    let s = v.objects_sorted in
    let plain = plain_object old in
    ap (λ os. get_object os q) (updated m old new)
    ∙ ap (λ r. get_object (moved_objects m.ipc_object (object_or plain r) new) q) unknown
    ∙ get_object-moved m.ipc_object plain new q s
    ∙ ground (
      arith,
      lookup_same m.ipc_object plain q,
      sym (get_object-lookup m.ipc_object plain s) ∙ unknown,
      sym (get_object-lookup m.ipc_object (plain_object new) s) ∙ fresh,
      get_object-lookup m.ipc_object q s,
      lookup_same m.ipc_object (plain_object new) q,
    )
