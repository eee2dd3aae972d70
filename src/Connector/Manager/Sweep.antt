-- ===== src/Connector/Manager/Sweep.antt =====
-- What `ConnectorManager` reports to its module.
use twainet.Prelude.{
  ◌≡◌, refl, List, [], ◌∷◌, ◌++◌, append_assoc, append-nil, map, arith, if◌then◌else◌,
}
use twainet.ObjectManager.Scan.{check_ref, check_objects-check_ref}
use twainet.Connector.Manager.{
  Connection, ModuleInfo, info_of, check_connection, stop_connector_of, connector_manager_func,
  connector_manager_stop,
}

-- The connectors whose thread has stopped.
abbrev pub stopped : List Connection → List Connection
stopped [] = []
stopped (c ∷ cs) = if c.is_stopped then c ∷ stopped cs else stopped cs

-- The others.
abbrev pub running : List Connection → List Connection
running [] = []
running (c ∷ cs) = if c.is_stopped then running cs else c ∷ running cs

check_ref-check_connection :
    (infos : List ModuleInfo) (cs : List Connection)
    → check_ref check_connection infos cs ≡ (infos ++ map info_of (stopped cs), running cs)
unfolding check_ref check_connection
check_ref-check_connection infos [] = ground (arith, append-nil infos)
check_ref-check_connection infos (c ∷ cs) = ground (
  arith,
  check_ref-check_connection infos cs,
  check_ref-check_connection (infos ++ info_of c ∷ []) cs,
  append_assoc infos (info_of c ∷ []) (map info_of (stopped cs)),
)

check_ref-stop_connector_of :
    (infos : List ModuleInfo) (cs : List Connection)
    → check_ref stop_connector_of infos cs ≡ (infos ++ map info_of cs, [])
unfolding check_ref stop_connector_of
check_ref-stop_connector_of infos [] = ground (arith, append-nil infos)
check_ref-stop_connector_of infos (c ∷ cs) = ground (
  arith,
  check_ref-stop_connector_of (infos ++ info_of c ∷ []) cs,
  append_assoc infos (info_of c ∷ []) (map info_of cs),
)

-- A run of the manager reports each connector whose thread has stopped, once and in order, and keeps
-- exactly the others; so a second run, with no other thread stopped, reports none. When the manager
-- itself stops, it reports every connector and keeps none.
connector_manager_lem :
    (cs : List Connection)
    → (connector_manager_func cs ≡ (running cs, map info_of (stopped cs)))
      × (connector_manager_func (running cs) ≡ (running cs, []))
      × (connector_manager_stop cs ≡ ([], map info_of cs))
unfolding connector_manager_func connector_manager_stop
connector_manager_lem cs = ground (
  arith,
  check_objects-check_ref check_connection [] cs,
  check_objects-check_ref check_connection [] (running cs),
  check_objects-check_ref stop_connector_of [] cs,
  check_ref-check_connection [] cs,
  check_ref-check_connection [] (running cs),
  check_ref-stop_connector_of [] cs,
  again cs,
)
  where
    again :
        (cs : List Connection) → (stopped (running cs) ≡ []) × (running (running cs) ≡ running cs)
    again [] = (refl, refl)
    again (c ∷ cs) = ground (arith, again cs)
