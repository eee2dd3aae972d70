-- ===== src/Ipc/Connector/Relay.antt =====
-- A message on its way through several modules: each hop is a module and the connector on which the
-- message arrives there; the connector hands it to the module's `onIPCMessage` and to the module's
-- other connectors, of which the one to the next step sends it on.
use twainet.Prelude.{
  ◌≡◌, refl, sym, ap, ◌∙◌, Bool, true, false, Option, none, some, List, [], ◌∷◌, ◌++◌, append_assoc,
  append-nil, arith,
}
use twainet.Prelude.Bytes.{Bytes, str_eq_refl}
use twainet.Ipc.ObjectName.{IpcObjectName, get_module_name_string, get_ipc_name}
use twainet.Ipc.ObjectName.Ordered.{name_eq_refl}
use twainet.Ipc.Module.{IpcModule, IpcMessage, get_target_path}
use twainet.Ipc.Handler.{on_ipc_message}
use twainet.Ipc.Connector.{
  IpcConnector, Act, ipc_signal_msg, to_connectors, to_module, to_peer, ipc_message_msg,
  on_ipc_message_slot,
}
use twainet.Ipc.Connector.Handler.{on_message_ipc_message}

-- A module, the connector on which a message arrives there, and the one on which it leaves.
pub record Hop : Type 0 where
  pub through : IpcModule
  pub arrives : IpcConnector
  pub leaves : IpcConnector

-- The message that the arriving connector hands to the others.
abbrev handed : List Act → Option IpcMessage
handed [] = none
handed (to_connectors (ipc_message_msg msg) ∷ acts) = some msg
handed (act ∷ acts) = handed acts

-- The message that the leaving connector sends.
abbrev sent : List Act → Option IpcMessage
sent [] = none
sent (to_peer (ipc_message_msg msg) ∷ acts) = some msg
sent (act ∷ acts) = sent acts

-- The message that leaves a connector whose module is the first step.
abbrev passed : IpcConnector → IpcMessage → List IpcObjectName → IpcMessage
passed c msg rest = record msg {
  ipc_path = rest;
  ipc_sender = msg.ipc_sender ++ get_ipc_name c.id ∷ [];
}

on_ipc_message_direct :
    (m : IpcModule) (x : IpcMessage) (next : IpcObjectName) (rest : List IpcObjectName)
    → get_target_path m next ≡ next ∷ []
    → x.ipc_path ≡ next ∷ rest
    → (on_ipc_message m x).0 ≡ x
unfolding on_ipc_message
on_ipc_message_direct m x next rest path e = ground (arith, path, e)

handed_lem :
    (on_data : Bytes → Bytes → Bool) (on_signal : IpcMessage → IpcMessage) (c : IpcConnector)
    (msg : IpcMessage) (next : IpcObjectName) (rest : List IpcObjectName)
    → c.is_connected ≡ true
    → msg.ipc_path ≡ c.module_name ∷ next ∷ rest
    → on_message_ipc_message on_data on_signal c msg
      ≡ to_module (ipc_signal_msg (passed c msg (next ∷ rest)))
        ∷ to_connectors (ipc_message_msg (on_signal (passed c msg (next ∷ rest))))
        ∷ []
unfolding on_message_ipc_message
handed_lem on_data on_signal c msg next rest on e =
    ground (arith, on, e, name_eq_refl c.module_name)

on_ipc_message_slot_sent :
    (c : IpcConnector) (x : IpcMessage) (next : IpcObjectName) (rest : List IpcObjectName)
    → c.id ≡ get_module_name_string next
    → x.ipc_path ≡ next ∷ rest
    → on_ipc_message_slot c x ≡ to_peer (ipc_message_msg x) ∷ []
unfolding on_ipc_message_slot
on_ipc_message_slot_sent c x next rest out e =
    ground (arith, out, e, str_eq_refl (get_module_name_string next))

module _ (on_data : Bytes → Bytes → Bool) where
  -- One hop.
  pub relay_hop : Hop → IpcMessage → Option IpcMessage
  relay_hop h msg =
      elim (handed
        (on_message_ipc_message on_data (λ x. (on_ipc_message h.through x).0) h.arrives msg)) [
          | none ↦ none
          | some x ↦ sent (on_ipc_message_slot h.leaves x)
        ]

  pub relay : List Hop → IpcMessage → Option IpcMessage
  unfolding relay_hop
  relay [] msg = some msg
  relay (h ∷ hs) msg = elim (relay_hop h msg) [ none ↦ none | some x ↦ relay hs x ]

  -- The steps of the message that are left before a hop.
  abbrev pub steps : List Hop → IpcObjectName → List IpcObjectName
  steps [] target = target ∷ []
  steps (h ∷ hs) target = h.arrives.module_name ∷ steps hs target

  -- The next step after the hops.
  abbrev pub next_step : List Hop → IpcObjectName → IpcObjectName
  next_step [] target = target
  next_step (h ∷ hs) target = h.arrives.module_name

  -- The peers that the message came from.
  abbrev pub senders : List Hop → List IpcObjectName
  senders [] = []
  senders (h ∷ hs) = get_ipc_name h.arrives.id ∷ senders hs

  -- The modules that it comes from: the first one, and those of the hops.
  abbrev pub passed_modules : IpcObjectName → List Hop → List IpcObjectName
  passed_modules origin [] = origin ∷ []
  passed_modules origin (h ∷ hs) = origin ∷ passed_modules h.arrives.module_name hs

  -- An arriving connector has the text of the module before it for its id, and that text is read as
  -- that name.
  abbrev pub IsFrom : IpcObjectName → IpcConnector → Type 0
  IsFrom origin c =
      (c.id ≡ get_module_name_string origin)
      × (get_ipc_name (get_module_name_string origin) ≡ origin)

  abbrev pub IsNamed : IpcObjectName → List Hop → IpcConnector → Type 0
  IsNamed origin [] last = IsFrom origin last
  IsNamed origin (h ∷ hs) last = IsFrom origin h.arrives × IsNamed h.arrives.module_name hs last

  senders_lem :
      (origin : IpcObjectName) (hs : List Hop) (last : IpcConnector)
      → IsNamed origin hs last
      → senders hs ++ get_ipc_name last.id ∷ [] ≡ passed_modules origin hs
  senders_lem origin [] last (e, back) = ap (λ n. n ∷ []) (ap get_ipc_name e ∙ back)
  senders_lem origin (h ∷ hs) last ((e, back), named) =
      ground (arith, ap get_ipc_name e ∙ back, senders_lem h.arrives.module_name hs last named)

  -- Each hop's arriving connector is connected, its module is connected to the next step, and the
  -- leaving connector is the one to it.
  abbrev pub IsLinked : List Hop → IpcObjectName → Type 0
  IsLinked [] target = Unit
  IsLinked (h ∷ hs) target =
      (h.arrives.is_connected ≡ true)
      × (get_target_path h.through (next_step hs target) ≡ next_step hs target ∷ [])
      × (h.leaves.id ≡ get_module_name_string (next_step hs target))
      × IsLinked hs target

  steps_lem :
      (hs : List Hop) (target : IpcObjectName)
      → (rest : List IpcObjectName) × (steps hs target ≡ next_step hs target ∷ rest)
  steps_lem [] target = ([], refl)
  steps_lem (h ∷ hs) target = (steps hs target, refl)

  relay_hop_lem :
      (h : Hop) (msg : IpcMessage) (next : IpcObjectName) (rest : List IpcObjectName)
      → h.arrives.is_connected ≡ true
      → get_target_path h.through next ≡ next ∷ []
      → h.leaves.id ≡ get_module_name_string next
      → msg.ipc_path ≡ h.arrives.module_name ∷ next ∷ rest
      → relay_hop h msg ≡ some (passed h.arrives msg (next ∷ rest))
  unfolding relay_hop
  relay_hop_lem h msg next rest on path out e =
      let x = passed h.arrives msg (next ∷ rest) in
      rw
        (
          handed_lem on_data (λ y. (on_ipc_message h.through y).0) h.arrives msg next rest on e,
          relay_hop,
        )
        (rw (on_ipc_message_direct h.through x next rest path refl)
          (ap sent (on_ipc_message_slot_sent h.leaves x next rest out refl)))

  -- A message that names the modules on its way in order, and then the target, passes them all, if each
  -- is connected to the next: what the last one sends has the target as its only step, and
  -- behind the senders that it had those peers in order. The body is unchanged.
  pub relay_lem :
      (hs : List Hop) (target : IpcObjectName) (msg : IpcMessage)
      → IsLinked hs target
      → msg.ipc_path ≡ steps hs target
      → relay hs msg
        ≡ some (record msg { ipc_path = target ∷ []; ipc_sender = msg.ipc_sender ++ senders hs })
  unfolding relay
  relay_lem [] target msg links e = ground (arith, e, append-nil msg.ipc_sender)
  relay_lem (h ∷ hs) target msg links e =
      let (rest, first) = steps_lem hs target in
      let x = passed h.arrives msg (steps hs target) in
      let hop : relay_hop h msg ≡ some x =
        relay_hop_lem h msg (next_step hs target) rest links.0 links.1 links.2
          (e ∙ ap (◌∷◌ h.arrives.module_name) first)
        ∙ ap (λ p. some (passed h.arrives msg p)) (sym first) in
      rw (hop, relay)
        (relay_lem hs target x links.3 refl
          ∙ ap (λ s. some (record msg { ipc_path = target ∷ []; ipc_sender = s }))
              (append_assoc msg.ipc_sender (get_ipc_name h.arrives.id ∷ []) (senders hs)))

  -- A message that names the modules on its way in order, each connected to the next, and then the
  -- target, passes them all. At the target, unless one of its own handlers takes it, it is handed to
  -- the module with no step left, and behind the senders that it had with the module that it comes
  -- from and every one that it passed, in order, if each arriving connector has the name of the
  -- module before it for its id, and that name's text is read back as the name.
  pub relay_arrives :
      (origin : IpcObjectName) (hs : List Hop) (last : IpcConnector) (msg : IpcMessage)
      (on_signal : IpcMessage → IpcMessage)
      → IsLinked hs last.module_name
      → IsNamed origin hs last
      → msg.ipc_path ≡ steps hs last.module_name
      → last.is_connected ≡ true
      → on_data msg.message_name msg.message ≡ false
      → (arrived : IpcMessage) × (relay hs msg ≡ some arrived)
        × (on_message_ipc_message on_data on_signal last arrived
            ≡ to_module (
                ipc_message_msg (record msg {
                  ipc_path = [];
                  ipc_sender = msg.ipc_sender ++ passed_modules origin hs;
                }))
              ∷ [])
  unfolding on_message_ipc_message
  relay_arrives origin hs last msg on_signal links named e on unhandled = (
    record msg { ipc_path = last.module_name ∷ []; ipc_sender = msg.ipc_sender ++ senders hs },
    relay_lem hs last.module_name msg links e,
    ground (
      arith,
      on,
      unhandled,
      name_eq_refl last.module_name,
      append_assoc msg.ipc_sender (senders hs) (get_ipc_name last.id ∷ []),
      senders_lem origin hs last named,
    ),
  )
