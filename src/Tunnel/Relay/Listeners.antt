-- ===== src/Tunnel/Relay/Listeners.antt =====
-- The listening threads that a `RelayListenThread` has made are all stopped.
use twainet.Prelude.{ℕ, ◌+◌, ◌≡◌, some, List, [], ◌∷◌, ◌++◌, arith, total, total-append, refl}
use twainet.Tunnel.Message.{TunnelServerListenAddress}
use twainet.Tunnel.Client.Threads.{held_once}
use twainet.Tunnel.Relay.{
  makes_one, makes_two, null_used, start_held, relay_wait_fails, wait_fails, starts_one, starts_two,
  waits_addresses, waits_connectors, finished, RelayListen, RelayEvent, RelayInput, listen_error,
  thread_goes_on, stop_called, listen_fails, listener_created, connector_added, hand_over,
  stop_relay, relay_thread_func, on_relay_listen_error, on_relay_created_listener,
  on_add_relay_connector, set_if_both, relay_step, relay_run, new_relay, in_order,
}
use twainet.Tunnel.Relay.Accounts.{
  held_connectors, held_relay, made_number, given_number, added_number, hand_over-total, told-total,
  stop_relay-total,
}

-- What stands, of `t`, where `ThreadFunc` will put a listening thread.
abbrev in_the_way : ℕ → RelayListen → ℕ
in_the_way t s = elim s.place [
  | makes_one ↦ held_once t s.listen_one + held_once t s.listen_two
  | starts_one ↦ held_once t s.listen_two
  | makes_two ↦ held_once t s.listen_two
  | starts_two ↦ 0
  | waits_addresses ↦ 0
  | waits_connectors ↦ 0
  | finished ↦ 0
  | null_used ↦ 0
]

-- Neither a connector nor anything in the way is `t`.
abbrev IsApart : ℕ → RelayListen → Type 0
IsApart t s = (held_connectors t s ≡ 0) × (in_the_way t s ≡ 0)

-- What is held and handed on is exactly what was held and is made.
abbrev IsExact : ℕ → RelayListen → RelayListen × List RelayEvent → Type 0
IsExact t s (s', events) =
    (held_relay t s' + total (given_number t) events
      ≡ held_relay t s + total (made_number t) events)
    × IsApart t s'

relay_thread_func-IsExact :
    (t : ℕ) (address : TunnelServerListenAddress) (s : RelayListen) (thread : ℕ)
    → IsApart t s
    → IsExact t s (relay_thread_func address s thread)
unfolding relay_thread_func start_held total given_number made_number
relay_thread_func-IsExact t address s thread h =
    ground (arith, h, told-total t address (in_order s.addresses))

stop_relay-IsExact : (t : ℕ) (s : RelayListen) → IsApart t s → IsExact t s (stop_relay s)
unfolding stop_relay
stop_relay-IsExact t s h = ground (arith, h, stop_relay-total t s)

on_relay_listen_error-IsExact :
    (t : ℕ) (address : TunnelServerListenAddress) (s : RelayListen)
    → IsApart t s
    → IsExact t s (on_relay_listen_error address s)
unfolding on_relay_listen_error total given_number made_number
on_relay_listen_error-IsExact t address s h =
    let last = listen_error address.id ∷ [] in
    let first = hand_over s.listen_one in
    let second = hand_over s.listen_two in
    ground (
      arith,
      h,
      total-append (given_number t) (first ++ second) last,
      total-append (given_number t) first second,
      total-append (made_number t) (first ++ second) last,
      total-append (made_number t) first second,
      hand_over-total t s.listen_one,
      hand_over-total t s.listen_two,
    )

set_if_both_lem :
    (t : ℕ) (s : RelayListen)
    → (held_relay t (set_if_both s) ≡ held_relay t s)
      × (held_connectors t (set_if_both s) ≡ held_connectors t s)
      × (in_the_way t (set_if_both s) ≡ in_the_way t s)
unfolding set_if_both
set_if_both_lem t s = ground arith

relay_step-IsExact :
    (t : ℕ) (address : TunnelServerListenAddress) (s : RelayListen) (i : RelayInput)
    → added_number t i ≡ 0
    → IsApart t s
    → IsExact t s (relay_step address s i)
unfolding relay_step relay_wait_fails added_number total on_relay_created_listener
    on_add_relay_connector
relay_step-IsExact t address s (thread_goes_on u) e h = relay_thread_func-IsExact t address s u h
relay_step-IsExact t address s wait_fails e h = ground (arith, h)
relay_step-IsExact t address s stop_called e h = stop_relay-IsExact t s h
relay_step-IsExact t address s listen_fails e h = on_relay_listen_error-IsExact t address s h
relay_step-IsExact t address s (listener_created id ip port) e h = ground (arith, h)
relay_step-IsExact t address s (connector_added id u) e h = ground (
  arith,
  e,
  h,
  set_if_both_lem t s,
  set_if_both_lem t (record s { connector_one = some u }),
  set_if_both_lem t (record s { connector_two = some u }),
)

relay_run-IsExact :
    (t : ℕ) (address : TunnelServerListenAddress) (s : RelayListen) (inputs : List RelayInput)
    → total (added_number t) inputs ≡ 0
    → IsApart t s
    → IsExact t s (relay_run address s inputs)
unfolding relay_run total
relay_run-IsExact t address s [] e h = (refl, h)
relay_run-IsExact t address s (i ∷ inputs) e h =
    let (s1, events) = relay_step address s i in
    let (s2, later) = relay_run address s1 inputs in
    let (first, h1) = relay_step-IsExact t address s i (omega arith) h in
    let (second, h2) = relay_run-IsExact t address s1 inputs (omega arith) h1 in
    (
      omega (
        arith,
        first,
        second,
        total-append (given_number t) events later,
        total-append (made_number t) events later,
      ),
      h2,
    )

-- Whatever happens to the thread and whenever it is stopped, also between the making of a listening
-- thread and its start: once its object is deleted, every
-- listening thread has been handed to the thread manager exactly as often as it was made, if no
-- connector that was added stands at the same address.
pub relay_run_deleted :
    (t : ℕ) (address : TunnelServerListenAddress) (inputs : List RelayInput)
    → total (added_number t) inputs ≡ 0
    → let (s, events) = relay_run address new_relay inputs in
      total (given_number t) (events ++ (stop_relay s).1) ≡ total (made_number t) events
relay_run_deleted t address inputs e =
    let (s, events) = relay_run address new_relay inputs in
    omega (
      arith,
      relay_run-IsExact t address new_relay inputs e (refl, refl),
      stop_relay-total t s,
      total-append (given_number t) events (stop_relay s).1,
    )
