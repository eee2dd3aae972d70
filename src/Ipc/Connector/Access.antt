-- ===== src/Ipc/Connector/Access.antt =====
-- `ModuleName`: what a connector does with the first message of its peer, together with its module,
-- which answers the signals that it raises.
use twainet.Prelude.{◌≡◌, true, false, some, List, [], ◌∷◌, Any, arith}
use twainet.ObjectManager.{add_object, get_object}
use twainet.ObjectManager.Reference.{is_some}
use twainet.ObjectManager.Refinement.{get_object-lookup, lookup-add_object}
use twainet.Ipc.Object.{IpcObject, object_order}
use twainet.Ipc.Module.{IpcModule}
use twainet.Ipc.Module.Valid.{IsValid}
use twainet.Ipc.Handler.{on_add_ipc_object, on_module_name, on_ipc_object_list}
use twainet.Ipc.Connector.{
  IpcConnector, Act, to_peer, to_module, stop_connector, module_state_msg, Message,
  on_connected_connector,
}
use twainet.Ipc.Connector.Handler.{on_message_module_name, announced}

-- `onMessage(const ModuleName&)` with the module's answers to the three signals.
pub greet :
    (List IpcObject → List IpcObject)
    → IpcModule
    → IpcConnector
    → IpcObject
    → IpcModule × IpcConnector × List Act
greet fill_ipc_object_list m c object =
    let told = announced c object in
    let (m', exist) = on_module_name (on_add_ipc_object m told).0 told c.connector_id in
    let (c', acts) =
      on_message_module_name c object exist
        (on_ipc_object_list fill_ipc_object_list m' object.access_id) in
    (m', c', acts)

-- The module's connected objects after it was told of one.
greet-modules :
    (fill_ipc_object_list : List IpcObject → List IpcObject) (m : IpcModule) (c : IpcConnector)
    (object : IpcObject)
    → IsValid m
    → let told = announced c object in
      let (m', c', acts) = greet fill_ipc_object_list m c object in
      (m'.modules ≡ (add_object m.modules told).0)
      × (c'.is_exist ≡ is_some (get_object m.modules told))
unfolding greet on_module_name on_add_ipc_object on_message_module_name on_connected_connector
greet-modules fill_ipc_object_list m c object v =
    let told = announced c object in
    ground (
      arith,
      (lookup-add_object m.modules told v.modules_sorted).1,
      get_object-lookup m.modules told v.modules_sorted,
    )

add_object-known :
    (os : List IpcObject) (x : IpcObject) {o : IpcObject}
    → get_object os x ≡ some o
    → add_object os x ≡ (os, false)
unfolding add_object get_object
add_object-known os x e = ground arith

-- The messages that get to the peer: what is sent after the connector was stopped meets a closed
-- socket.
abbrev pub reaching_peer : List Act → List Message
reaching_peer [] = []
reaching_peer (stop_connector ∷ acts) = []
reaching_peer (to_peer msg ∷ acts) = msg ∷ reaching_peer acts
reaching_peer (act ∷ acts) = reaching_peer acts

-- The signals to the module, in order.
abbrev pub telling_module : List Act → List Message
telling_module [] = []
telling_module (to_module msg ∷ acts) = msg ∷ telling_module acts
telling_module (act ∷ acts) = telling_module acts

-- A peer whose name is connected already is told so, and its connector stays as it was: not
-- connected, unless it is. The connected modules do not change.
greet_known :
    (fill_ipc_object_list : List IpcObject → List IpcObject) (m : IpcModule) (c : IpcConnector)
    (object : IpcObject) {o : IpcObject}
    → IsValid m
    → get_object m.modules (announced c object) ≡ some o
    → let (m', c', acts) = greet fill_ipc_object_list m c object in
      (m'.modules ≡ m.modules)
      × (c'.is_connected ≡ c.is_connected)
      × (c'.is_exist ≡ true)
      × Any (λ a. a ≡ to_peer (module_state_msg true c.rand [])) acts
unfolding greet on_module_name on_add_ipc_object on_message_module_name on_connected_connector
greet_known fill_ipc_object_list m c object {o} v found =
    let told = announced c object in ground (arith, add_object-known m.modules told {o = o} found)
