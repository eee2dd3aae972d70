-- ===== src/Tunnel/Relay.antt =====
-- src/cpp/lib/tunnel_lib/thread/relay_listen_thread.cpp: `RelayListenThread`, with which the server
-- listens for both clients of a tunnel and joins their connectors. A thread and a connector are named
-- by their address in memory. A step is what `ThreadFunc` does up to the
-- next write or use of a field that others change, without the lock, or up to the next `Wait`; and each
-- call from outside, which holds the lock.
pub mod Accounts
pub mod Waiting
pub mod Listeners
pub mod Joined
mod Tests
use twainet.Prelude.{
  ℕ, Bool, true, false, Option, none, some, List, [], ◌∷◌, ◌++◌, ◌==◌, length, if◌then◌else◌, map,
}
use twainet.Prelude.Bytes.{Bytes, str_eq, str_lt}
use twainet.StringMap.{map_set}
use twainet.Tunnel.Message.{TunnelServerListenAddress}

-- `Address`.
pub record ListenedAddress : Type 0 where
  pub local_ip : Bytes
  pub local_port : ℕ

-- What `ThreadFunc` does next: it puts a new listening thread into its field, subscribes to it and
-- starts it through the field, twice, and then waits. `null_used` is behind a call on a field that
-- was null by then: the process ends.
pub data Place : Type 0 where
  makes_one starts_one makes_two starts_two waits_addresses waits_connectors finished null_used :
      Place

-- `addr_semafor` and `connect_semafor` tell whether the semaphores are set.
pub record RelayListen : Type 0 where
  pub listen_one : Option ℕ
  pub listen_two : Option ℕ
  pub connector_one : Option ℕ
  pub connector_two : Option ℕ
  pub addresses : List (Bytes × ListenedAddress)
  pub addr_semafor : Bool
  pub connect_semafor : Bool
  pub place : Place

pub data RelayEvent : Type 0 where
  -- The id, the peer of the connectors that are accepted, and the thread.
  make_listen : Bytes → Bytes → ℕ → RelayEvent
  -- The subscriptions to a thread and its `Start`.
  start_listen : ℕ → RelayEvent
  -- `Stop` and `AddThread` of a thread.
  to_manager : ℕ → RelayEvent
  created_server_listener : Bytes → Bytes → Bytes → ℕ → RelayEvent
  -- The signal on a new `TunnelServerConnector`, with its two connectors.
  new_server_connector : Option ℕ → Option ℕ → RelayEvent
  listen_error : Bytes → RelayEvent

abbrev pub new_relay : RelayListen
new_relay = record {
  listen_one = none;
  listen_two = none;
  connector_one = none;
  connector_two = none;
  addresses = [];
  addr_semafor = false;
  connect_semafor = false;
  place = makes_one;
}

pub hand_over : Option ℕ → List RelayEvent
hand_over none = []
hand_over (some t) = to_manager t ∷ []

-- `Stop`; the destructor does the same.
pub stop_relay : RelayListen → RelayListen × List RelayEvent
stop_relay s = (
  record s { listen_one = none; listen_two = none; connector_one = none; connector_two = none },
  hand_over s.listen_one
      ++ hand_over s.listen_two
      ++ hand_over s.connector_one
      ++ hand_over s.connector_two,
)

-- The order in which a map is walked.
pub in_order : List (Bytes × ListenedAddress) → List (Bytes × ListenedAddress)
in_order [] = []
in_order (a ∷ m) = insert_address a (in_order m)
  where
    insert_address :
        Bytes × ListenedAddress → List (Bytes × ListenedAddress) → List (Bytes × ListenedAddress)
    insert_address a [] = a ∷ []
    insert_address a (b ∷ m) =
        let rest = insert_address a m in if str_lt b.0 a.0 then b ∷ rest else a ∷ b ∷ m

abbrev created_event : TunnelServerListenAddress → Bytes × ListenedAddress → RelayEvent
created_event address (session, a) =
    created_server_listener address.id session a.local_ip a.local_port

-- The calls on a field of a listening thread, and the place behind them.
pub start_held : RelayListen → Option ℕ → Place → RelayListen × List RelayEvent
start_held s none next = (record s { place = null_used }, [])
start_held s (some t) next = (record s { place = next }, start_listen t ∷ [])

-- `ThreadFunc`, from one place to the next: `thread` is the address of the thread that is made. A
-- `Wait` that succeeds leaves its semaphore set.
pub relay_thread_func : TunnelServerListenAddress → RelayListen → ℕ → RelayListen × List RelayEvent
unfolding start_held
relay_thread_func address s thread = elim s.place [
  | makes_one ↦ (
    record s { listen_one = some thread; place = starts_one },
    make_listen address.session_id_one address.session_id_two thread ∷ [],
  )
  | starts_one ↦ start_held s s.listen_one makes_two
  | makes_two ↦ (
    record s { listen_two = some thread; place = starts_two },
    make_listen address.session_id_two address.session_id_one thread ∷ [],
  )
  | starts_two ↦ start_held s s.listen_two waits_addresses
  | waits_addresses ↦
      if s.addr_semafor
      then (
        record s { place = waits_connectors },
        map (created_event address) (in_order s.addresses),
      )
      else (s, [])
  | waits_connectors ↦
      if s.connect_semafor
      then (
        record s { connector_one = none; connector_two = none; place = finished },
        new_server_connector s.connector_one s.connector_two ∷ [],
      )
      else (s, [])
  | finished ↦ (s, [])
  | null_used ↦ (s, [])
]

-- A `Wait` that answers `FAILED`: what it guards is left out.
pub relay_wait_fails : RelayListen → RelayListen
relay_wait_fails s = elim s.place [
  | waits_addresses ↦ record s { place = waits_connectors }
  | waits_connectors ↦ record s { place = finished }
  | _ ↦ s
]

pub on_relay_listen_error : TunnelServerListenAddress → RelayListen → RelayListen × List RelayEvent
on_relay_listen_error address s = (
  record s { listen_one = none; listen_two = none },
  hand_over s.listen_one ++ hand_over s.listen_two ++ listen_error address.id ∷ [],
)

pub on_relay_created_listener : RelayListen → Bytes → Bytes → ℕ → RelayListen
on_relay_created_listener s id ip port =
    let addresses = map_set s.addresses id (record { local_ip = ip; local_port = port }) in
    record s {
      addresses = addresses;
      addr_semafor = if length addresses == 2 then true else s.addr_semafor;
    }

-- `m_connectSemafor.Set()` where both connectors are there.
pub set_if_both : RelayListen → RelayListen
set_if_both s = elim s.connector_one [
  | none ↦ s
  | some one ↦ elim s.connector_two [ none ↦ s | some two ↦ record s { connect_semafor = true } ]
]

pub on_add_relay_connector : TunnelServerListenAddress → RelayListen → Bytes → ℕ → RelayListen
on_add_relay_connector address s id connector =
    if str_eq id address.session_id_one
    then set_if_both (record s { connector_one = some connector })
    else if str_eq id address.session_id_two
    then set_if_both (record s { connector_two = some connector })
    else set_if_both s

-- What happens to the thread.
pub data RelayInput : Type 0 where
  thread_goes_on : ℕ → RelayInput
  wait_fails stop_called listen_fails : RelayInput
  listener_created : Bytes → Bytes → ℕ → RelayInput
  connector_added : Bytes → ℕ → RelayInput

pub relay_step :
    TunnelServerListenAddress → RelayListen → RelayInput → RelayListen × List RelayEvent
relay_step address s (thread_goes_on thread) = relay_thread_func address s thread
relay_step address s wait_fails = (relay_wait_fails s, [])
relay_step address s stop_called = stop_relay s
relay_step address s listen_fails = on_relay_listen_error address s
relay_step address s (listener_created id ip port) = (on_relay_created_listener s id ip port, [])
relay_step address s (connector_added id connector) =
    (on_add_relay_connector address s id connector, [])

pub relay_run :
    TunnelServerListenAddress → RelayListen → List RelayInput → RelayListen × List RelayEvent
relay_run address s [] = (s, [])
relay_run address s (i ∷ inputs) =
    let (s1, events) = relay_step address s i in
    let (s2, later) = relay_run address s1 inputs in (s2, events ++ later)
