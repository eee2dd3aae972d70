-- ===== src/Ipc/Module/Tests.antt =====
-- The theorems on paths at a module that is connected to a coordinator and knows a second module.
use twainet.Prelude.{◌≡◌, ◌≢◌, ◌↔◌, ◌⊎◌, refl, some, [], ◌∷◌, Any, get_elem?}
use twainet.Prelude.Bytes.{codes, str_eq}
use twainet.Ipc.ObjectName.{IpcObjectName, name_eq, plain_name}
use twainet.Ipc.Object.{IpcObject, plain_object}
use twainet.Ipc.Module.{IpcModule, new_module, get_target_path, has_name, coordinator_hops}
use twainet.Ipc.Module.Route.{IsConnected, IsRelay, get_target_path-reaches}

abbrev coordinator : IpcObject
coordinator = plain_object (plain_name (codes "Coordinator"))

abbrev client : IpcModule
client = record (new_module (plain_name (codes "Client"))) {
  ipc_object = coordinator ∷ [];
  modules = coordinator ∷ [];
}

abbrev server : IpcObjectName
server = plain_name (codes "Server")

client_first : get_elem? (get_target_path client server) 0 ≡ some coordinator.ipc_name
unfolding get_target_path has_name coordinator_hops new_module name_eq str_eq
client_first = refl

get_target_path-reaches_example : (get_target_path client server ≢ []) ↔ (
    (client.module_name ≢ server)
    × (IsConnected client server ⊎ ((server.host_name ≡ []) × Any IsRelay client.ipc_object)))
get_target_path-reaches_example = get_target_path-reaches client server
