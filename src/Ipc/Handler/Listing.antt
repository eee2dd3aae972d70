-- ===== src/Ipc/Handler/Listing.antt =====
-- What `onIPCObjectList` answers to a module that asks for the objects of one access id.
use twainet.Prelude.{
  ◌≡◌, refl, sym, ap, ◌∙◌, Option, none, some, List, [], ◌∷◌, arith, if◌then◌else◌,
}
use twainet.Prelude.Bytes.{Bytes, str_eq}
use twainet.ObjectManager.{get_object}
use twainet.ObjectManager.Sorted.{IsSorted}
use twainet.ObjectManager.Refinement.{lookup, lookup-Above, get_object-lookup}
use twainet.Ipc.Object.{IpcObject, object_order}
use twainet.Ipc.Module.{IpcModule}
use twainet.Ipc.Handler.{on_ipc_object_list, with_access}

-- The object, for whoever asks with the access id `access_id`.
abbrev pub visible : Bytes → Option IpcObject → Option IpcObject
visible access_id none = none
visible access_id (some o) = if str_eq o.access_id access_id then some o else none

lookup-with_access :
    (os : List IpcObject) (access_id : Bytes) (q : IpcObject)
    → IsSorted os
    → lookup (with_access os access_id) q ≡ visible access_id (lookup os q)
unfolding lookup with_access
lookup-with_access [] access_id q s = refl
lookup-with_access (o ∷ os) access_id q s =
    ground (arith, lookup-with_access os access_id q s.1, lookup-Above o q os)

-- The answer holds, under each name, exactly the object of that name in the filled list if it has
-- the access id that was asked for, and nothing otherwise. (For a `FillIPCObjectList` that keeps
-- the list sorted.)
on_ipc_object_list-lookup :
    (fill_ipc_object_list : List IpcObject → List IpcObject) (m : IpcModule) (access_id : Bytes)
    (q : IpcObject)
    → IsSorted (fill_ipc_object_list m.ipc_object)
    → lookup (on_ipc_object_list fill_ipc_object_list m access_id) q
      ≡ visible access_id (get_object (fill_ipc_object_list m.ipc_object) q)
unfolding on_ipc_object_list
on_ipc_object_list-lookup fill_ipc_object_list m access_id q s =
    let os = fill_ipc_object_list m.ipc_object in
    lookup-with_access os access_id q s ∙ ap (visible access_id) (sym (get_object-lookup os q s))
