-- ===== src/Tunnel/Relay/Joined.antt =====
-- The connectors that a `RelayListenThread` joins.
use twainet.Prelude.{
  not, ℕ, ◌≡◌, Bool, true, false, ◌&&◌, Option, none, some, List, [], ◌∷◌, ◌++◌, arith, refl, map,
  if◌then◌else◌,
}
use twainet.Prelude.Bytes.{Bytes, str_eq_sound}
use twainet.Tunnel.Message.{TunnelServerListenAddress}
use twainet.Tunnel.Relay.{
  make_listen, start_held, relay_wait_fails, wait_fails, Place, finished, RelayListen,
  ListenedAddress, RelayEvent, RelayInput, start_listen, to_manager, created_server_listener,
  new_server_connector, listen_error, thread_goes_on, stop_called, listen_fails, listener_created,
  connector_added, hand_over, relay_thread_func, on_relay_listen_error, on_relay_created_listener,
  set_if_both, on_add_relay_connector, relay_step, relay_run, new_relay, in_order,
}

is_allowed : (Bytes → ℕ → Bool) → RelayInput → Bool
is_allowed is_of (connector_added id u) = is_of id u
is_allowed is_of (thread_goes_on u) = true
is_allowed is_of wait_fails = true
is_allowed is_of stop_called = false
is_allowed is_of listen_fails = true
is_allowed is_of (listener_created id ip port) = true

-- Every connector that the inputs add is `is_of` the session it is added for, and none is a `Stop`.
unfoldable pub is_unstopped : (Bytes → ℕ → Bool) → List RelayInput → Bool
unfolding is_allowed
is_unstopped is_of [] = true
is_unstopped is_of (i ∷ inputs) = is_allowed is_of i && is_unstopped is_of inputs

-- A connector that is there and `is_of` the session.
is_slot_of : (Bytes → ℕ → Bool) → Bytes → Option ℕ → Bool
is_slot_of is_of session none = false
is_slot_of is_of session (some u) = is_of session u

-- Every new connector joins one of the first session and one of the second one.
pub joins_both : (Bytes → ℕ → Bool) → TunnelServerListenAddress → List RelayEvent → Bool
joins_both is_of address [] = true
joins_both is_of address (new_server_connector one two ∷ events) =
    is_slot_of is_of address.session_id_one one
    && is_slot_of is_of address.session_id_two two
    && joins_both is_of address events
joins_both is_of address (make_listen id peer u ∷ events) = joins_both is_of address events
joins_both is_of address (start_listen u ∷ events) = joins_both is_of address events
joins_both is_of address (to_manager u ∷ events) = joins_both is_of address events
joins_both is_of address (created_server_listener id session ip port ∷ events) =
    joins_both is_of address events
joins_both is_of address (listen_error id ∷ events) = joins_both is_of address events

joins_both-append :
    (is_of : Bytes → ℕ → Bool) (address : TunnelServerListenAddress) (es fs : List RelayEvent)
    → joins_both is_of address (es ++ fs)
      ≡ (joins_both is_of address es && joins_both is_of address fs)
unfolding joins_both
joins_both-append is_of address [] fs = refl
joins_both-append is_of address (new_server_connector one two ∷ es) fs =
    ground (arith, joins_both-append is_of address es fs)
joins_both-append is_of address (make_listen id peer u ∷ es) fs =
    joins_both-append is_of address es fs
joins_both-append is_of address (start_listen u ∷ es) fs = joins_both-append is_of address es fs
joins_both-append is_of address (to_manager u ∷ es) fs = joins_both-append is_of address es fs
joins_both-append is_of address (created_server_listener id session ip port ∷ es) fs =
    joins_both-append is_of address es fs
joins_both-append is_of address (listen_error id ∷ es) fs = joins_both-append is_of address es fs

joins_both-told :
    (is_of : Bytes → ℕ → Bool) (address : TunnelServerListenAddress)
    (m : List (Bytes × ListenedAddress))
    → joins_both is_of address
        (map (λ a. created_server_listener address.id a.0 a.1.local_ip a.1.local_port) m)
      ≡ true
unfolding joins_both
joins_both-told is_of address [] = refl
joins_both-told is_of address (a ∷ m) = joins_both-told is_of address m

joins_both-hand_over :
    (is_of : Bytes → ℕ → Bool) (address : TunnelServerListenAddress) (slot : Option ℕ)
    → joins_both is_of address (hand_over slot) ≡ true
unfolding joins_both hand_over
joins_both-hand_over is_of address none = refl
joins_both-hand_over is_of address (some u) = refl

abbrev is_finished : Place → Bool
is_finished finished = true
is_finished _ = false

is_empty_or_of : (Bytes → ℕ → Bool) → Bytes → Option ℕ → Bool
is_empty_or_of is_of session none = true
is_empty_or_of is_of session (some u) = is_of session u

-- A connector that is there `is_of` its session, and both are there if the semaphore is set and
-- `ThreadFunc` has not ended.
abbrev IsPaired : (Bytes → ℕ → Bool) → TunnelServerListenAddress → RelayListen → Type 0
IsPaired is_of address s =
    (is_empty_or_of is_of address.session_id_one s.connector_one ≡ true)
    × (is_empty_or_of is_of address.session_id_two s.connector_two ≡ true)
    × ((if s.connect_semafor && not (is_finished s.place)
          then is_slot_of is_of address.session_id_one s.connector_one
            && is_slot_of is_of address.session_id_two s.connector_two
          else true)
        ≡ true)

-- What a step leaves, and what it joins.
abbrev IsRight :
    (Bytes → ℕ → Bool) → TunnelServerListenAddress → RelayListen × List RelayEvent → Type 0
IsRight is_of address (s, events) =
    IsPaired is_of address s × (joins_both is_of address events ≡ true)

relay_thread_func-IsRight :
    (is_of : Bytes → ℕ → Bool) (address : TunnelServerListenAddress) (s : RelayListen) (thread : ℕ)
    → IsPaired is_of address s
    → IsRight is_of address (relay_thread_func address s thread)
unfolding relay_thread_func start_held joins_both is_empty_or_of
relay_thread_func-IsRight is_of address s thread p =
    ground (arith, p, joins_both-told is_of address (in_order s.addresses))

on_relay_listen_error-IsRight :
    (is_of : Bytes → ℕ → Bool) (address : TunnelServerListenAddress) (s : RelayListen)
    → IsPaired is_of address s
    → IsRight is_of address (on_relay_listen_error address s)
unfolding on_relay_listen_error joins_both
on_relay_listen_error-IsRight is_of address s p =
    let last = listen_error address.id ∷ [] in
    let first = hand_over s.listen_one in
    let second = hand_over s.listen_two in
    ground (
      arith,
      p,
      joins_both-append is_of address (first ++ second) last,
      joins_both-append is_of address first second,
      joins_both-hand_over is_of address s.listen_one,
      joins_both-hand_over is_of address s.listen_two,
    )

on_add_relay_connector-IsPaired :
    (is_of : Bytes → ℕ → Bool) (address : TunnelServerListenAddress) (s : RelayListen) (id : Bytes)
    (u : ℕ)
    → is_of id u ≡ true
    → IsPaired is_of address s
    → IsPaired is_of address (on_add_relay_connector address s id u)
unfolding on_add_relay_connector set_if_both is_empty_or_of is_slot_of
on_add_relay_connector-IsPaired is_of address s id u e p =
    ground
      (arith, e, p, str_eq_sound id address.session_id_one, str_eq_sound id address.session_id_two)

relay_step-IsRight :
    (is_of : Bytes → ℕ → Bool) (address : TunnelServerListenAddress) (s : RelayListen)
    (i : RelayInput)
    → is_allowed is_of i ≡ true
    → IsPaired is_of address s
    → IsRight is_of address (relay_step address s i)
unfolding relay_step relay_wait_fails is_allowed joins_both on_relay_created_listener
relay_step-IsRight is_of address s (thread_goes_on u) e p =
    relay_thread_func-IsRight is_of address s u p
relay_step-IsRight is_of address s wait_fails e p = ground (arith, p)
relay_step-IsRight is_of address s stop_called e p = ground (arith, e)
relay_step-IsRight is_of address s listen_fails e p =
    on_relay_listen_error-IsRight is_of address s p
relay_step-IsRight is_of address s (listener_created id ip port) e p = (p, refl)
relay_step-IsRight is_of address s (connector_added id u) e p =
    (on_add_relay_connector-IsPaired is_of address s id u e p, refl)

relay_run-IsRight :
    (is_of : Bytes → ℕ → Bool) (address : TunnelServerListenAddress) (s : RelayListen)
    (inputs : List RelayInput)
    → is_unstopped is_of inputs ≡ true
    → IsPaired is_of address s
    → IsRight is_of address (relay_run address s inputs)
unfolding relay_run is_unstopped joins_both
relay_run-IsRight is_of address s [] e p = (p, refl)
relay_run-IsRight is_of address s (i ∷ inputs) e p =
    let (s1, events) = relay_step address s i in
    let (s2, later) = relay_run address s1 inputs in
    let (p1, first) = relay_step-IsRight is_of address s i (ground (arith, e)) p in
    let (p2, second) = relay_run-IsRight is_of address s1 inputs (ground (arith, e)) p1 in
    (p2, ground (arith, joins_both-append is_of address events later, first, second))

-- Every new connector that the thread signals, unless it is stopped, joins a connector that was added
-- for the first session and one that was added for the second one, whatever else happens to it. For
-- `is_of` any relation that holds of each connector and the session it was added for may be taken.
pub relay_run-joins_both :
    (is_of : Bytes → ℕ → Bool) (address : TunnelServerListenAddress) (inputs : List RelayInput)
    → is_unstopped is_of inputs ≡ true
    → joins_both is_of address (relay_run address new_relay inputs).1 ≡ true
unfolding is_empty_or_of
relay_run-joins_both is_of address inputs e =
    (relay_run-IsRight is_of address new_relay inputs e (refl, refl, refl)).1
