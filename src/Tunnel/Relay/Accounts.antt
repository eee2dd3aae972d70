-- ===== src/Tunnel/Relay/Accounts.antt =====
-- Who answers for the threads and connectors that a `RelayListenThread` has got.
use twainet.Prelude.{
  ℕ, ◌+◌, ◌≤◌, ◌≡◌, ◌==◌, none, some, List, [], ◌∷◌, ◌++◌, arith, if◌then◌else◌, total,
  total-append, map, Option, refl,
}
use twainet.Prelude.Bytes.{Bytes}
use twainet.Tunnel.Message.{TunnelServerListenAddress}
use twainet.Tunnel.Client.Threads.{held_once}
use twainet.Tunnel.Relay.{
  make_listen, start_held, relay_wait_fails, wait_fails, RelayListen, ListenedAddress, RelayEvent,
  RelayInput, start_listen, to_manager, created_server_listener, new_server_connector, listen_error,
  thread_goes_on, stop_called, listen_fails, listener_created, connector_added, hand_over,
  stop_relay, relay_thread_func, on_relay_listen_error, on_relay_created_listener, set_if_both,
  on_add_relay_connector, relay_step, relay_run, new_relay, in_order,
}

-- How often the thread holds `t`.
abbrev pub held_connectors : ℕ → RelayListen → ℕ
held_connectors t s = held_once t s.connector_one + held_once t s.connector_two

abbrev pub held_relay : ℕ → RelayListen → ℕ
held_relay t s = held_once t s.listen_one + held_once t s.listen_two + held_connectors t s

-- How often an event makes the listening thread `t`.
unfoldable pub made_number : ℕ → RelayEvent → ℕ
made_number t (make_listen id peer u) = if t == u then 1 else 0
made_number t (start_listen u) = 0
made_number t (to_manager u) = 0
made_number t (created_server_listener id session ip port) = 0
made_number t (new_server_connector one two) = 0
made_number t (listen_error id) = 0

-- How often it hands `t` on: to the thread manager or to the new connector.
unfoldable pub given_number : ℕ → RelayEvent → ℕ
given_number t (to_manager u) = if t == u then 1 else 0
given_number t (new_server_connector one two) = held_once t one + held_once t two
given_number t (make_listen id peer u) = 0
given_number t (start_listen u) = 0
given_number t (created_server_listener id session ip port) = 0
given_number t (listen_error id) = 0

-- How often an input brings the connector `t`.
unfoldable pub added_number : ℕ → RelayInput → ℕ
added_number t (connector_added id u) = if t == u then 1 else 0
added_number t (thread_goes_on u) = 0
added_number t wait_fails = 0
added_number t stop_called = 0
added_number t listen_fails = 0
added_number t (listener_created id ip port) = 0

pub hand_over-total :
    (t : ℕ) (slot : Option ℕ)
    → (total (given_number t) (hand_over slot) ≡ held_once t slot)
      × (total (made_number t) (hand_over slot) ≡ 0)
unfolding hand_over given_number made_number total
hand_over-total t none = (refl, refl)
hand_over-total t (some u) = (omega arith, refl)

pub told-total :
    (t : ℕ) (address : TunnelServerListenAddress) (m : List (Bytes × ListenedAddress))
    → let events =
        map (λ a. created_server_listener address.id a.0 a.1.local_ip a.1.local_port) m in
      (total (given_number t) events ≡ 0) × (total (made_number t) events ≡ 0)
unfolding given_number made_number total
told-total t address [] = (refl, refl)
told-total t address (a ∷ m) = ground (arith, told-total t address m)

-- What a step leaves and hands on, against what was there and what it got.
abbrev IsCovered : ℕ → RelayListen → ℕ → RelayListen × List RelayEvent → Type 0
IsCovered t s added (s', events) =
    held_relay t s' + total (given_number t) events
    ≤ held_relay t s + total (made_number t) events + added

-- Of four slots that are handed over.
hand_all-total :
    (f : RelayEvent → ℕ) (a b c d : Option ℕ)
    → total f (hand_over a ++ hand_over b ++ hand_over c ++ hand_over d)
      ≡ total f (hand_over a)
        + (total f (hand_over b) + (total f (hand_over c) + total f (hand_over d)))
hand_all-total f a b c d = omega (
  arith,
  total-append f (hand_over a ++ hand_over b ++ hand_over c) (hand_over d),
  total-append f (hand_over a ++ hand_over b) (hand_over c),
  total-append f (hand_over a) (hand_over b),
)

pub stop_relay-total :
    (t : ℕ) (s : RelayListen)
    → (total (given_number t) (stop_relay s).1 ≡ held_relay t s)
      × (total (made_number t) (stop_relay s).1 ≡ 0)
      × (held_relay t (stop_relay s).0 ≡ 0)
unfolding stop_relay
stop_relay-total t s = ground (
  arith,
  hand_all-total (given_number t) s.listen_one s.listen_two s.connector_one s.connector_two,
  hand_all-total (made_number t) s.listen_one s.listen_two s.connector_one s.connector_two,
  hand_over-total t s.listen_one,
  hand_over-total t s.listen_two,
  hand_over-total t s.connector_one,
  hand_over-total t s.connector_two,
)

relay_thread_func-IsCovered :
    (t : ℕ) (address : TunnelServerListenAddress) (s : RelayListen) (thread : ℕ)
    → IsCovered t s 0 (relay_thread_func address s thread)
unfolding relay_thread_func start_held total given_number made_number
relay_thread_func-IsCovered t address s thread =
    ground (arith, told-total t address (in_order s.addresses))

on_relay_listen_error-IsCovered :
    (t : ℕ) (address : TunnelServerListenAddress) (s : RelayListen)
    → IsCovered t s 0 (on_relay_listen_error address s)
unfolding on_relay_listen_error total given_number made_number
on_relay_listen_error-IsCovered t address s =
    let last = listen_error address.id ∷ [] in
    let first = hand_over s.listen_one in
    let second = hand_over s.listen_two in
    ground (
      arith,
      total-append (given_number t) (first ++ second) last,
      total-append (given_number t) first second,
      hand_over-total t s.listen_one,
      hand_over-total t s.listen_two,
    )

pub set_if_both-held :
    (t : ℕ) (s : RelayListen)
    → (held_connectors t (set_if_both s) ≡ held_connectors t s)
      × (held_relay t (set_if_both s) ≡ held_relay t s)
unfolding set_if_both
set_if_both-held t s = ground arith

relay_step-IsCovered :
    (t : ℕ) (address : TunnelServerListenAddress) (s : RelayListen) (i : RelayInput)
    → IsCovered t s (added_number t i) (relay_step address s i)
unfolding relay_step relay_wait_fails added_number total on_relay_created_listener
    on_add_relay_connector
relay_step-IsCovered t address s (thread_goes_on u) = relay_thread_func-IsCovered t address s u
relay_step-IsCovered t address s wait_fails = ground arith
relay_step-IsCovered t address s stop_called = ground (arith, stop_relay-total t s)
relay_step-IsCovered t address s listen_fails = on_relay_listen_error-IsCovered t address s
relay_step-IsCovered t address s (listener_created id ip port) = ground arith
relay_step-IsCovered t address s (connector_added id u) = ground (
  arith,
  set_if_both-held t s,
  set_if_both-held t (record s { connector_one = some u }),
  set_if_both-held t (record s { connector_two = some u }),
)

relay_run-IsCovered :
    (t : ℕ) (address : TunnelServerListenAddress) (s : RelayListen) (inputs : List RelayInput)
    → IsCovered t s (total (added_number t) inputs) (relay_run address s inputs)
unfolding relay_run total
relay_run-IsCovered t address s [] = omega arith
relay_run-IsCovered t address s (i ∷ inputs) =
    let (s1, events) = relay_step address s i in
    let (s2, later) = relay_run address s1 inputs in
    omega (
      arith,
      relay_step-IsCovered t address s i,
      relay_run-IsCovered t address s1 inputs,
      total-append (given_number t) events later,
      total-append (made_number t) events later,
    )

-- Whatever happens to the thread, and in whatever order: it hands no listening thread and no
-- connector on, to the thread manager or to the connector that joins the two sides, more often than
-- it has made the one or got the other. So nothing is deleted twice.
pub relay_run_once :
    (t : ℕ) (address : TunnelServerListenAddress) (inputs : List RelayInput)
    → let events = (relay_run address new_relay inputs).1 in
      total (given_number t) events ≤ total (made_number t) events + total (added_number t) inputs
relay_run_once t address inputs = omega (arith, relay_run-IsCovered t address new_relay inputs)
