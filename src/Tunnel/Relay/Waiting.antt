-- ===== src/Tunnel/Relay/Waiting.antt =====
-- What a `RelayListenThread` waits for.
use twainet.Prelude.{◌≡◌, ◌≢◌, Bool, true, false, not, ◌&&◌, List, [], ◌∷◌, arith}
use twainet.Tunnel.Message.{TunnelServerListenAddress}
use twainet.Tunnel.Relay.{
  start_held, wait_fails, RelayListen, RelayInput, finished, thread_goes_on, stop_called,
  listen_fails, listener_created, connector_added, stop_relay, relay_thread_func,
  on_relay_listen_error, on_relay_created_listener, relay_step, relay_run,
}

-- A connector is added, or a `Wait` fails.
is_release : RelayInput → Bool
is_release (connector_added id u) = true
is_release (thread_goes_on u) = false
is_release wait_fails = true
is_release stop_called = false
is_release listen_fails = false
is_release (listener_created id ip port) = false

-- These inputs add no connector, and no call of `Wait` fails.
unfoldable pub is_without_release : List RelayInput → Bool
unfolding is_release
is_without_release [] = true
is_without_release (i ∷ inputs) = not (is_release i) && is_without_release inputs

-- The thread has not been told of two connectors and waits for them, or will.
abbrev IsWaiting : RelayListen → Type 0
IsWaiting s = (s.connect_semafor ≡ false) × (s.place ≢ finished)

relay_step-IsWaiting :
    (address : TunnelServerListenAddress) (s : RelayListen) (i : RelayInput)
    → is_release i ≡ false
    → IsWaiting s
    → IsWaiting (relay_step address s i).0
unfolding relay_step is_release relay_thread_func start_held stop_relay on_relay_listen_error
    on_relay_created_listener
relay_step-IsWaiting address s (thread_goes_on u) e w = ground (arith, w)
relay_step-IsWaiting address s wait_fails e w = ground (arith, e)
relay_step-IsWaiting address s stop_called e w = w
relay_step-IsWaiting address s listen_fails e w = w
relay_step-IsWaiting address s (listener_created id ip port) e w = w
relay_step-IsWaiting address s (connector_added id u) e w = ground (arith, e)

relay_run-IsWaiting :
    (address : TunnelServerListenAddress) (s : RelayListen) (inputs : List RelayInput)
    → is_without_release inputs ≡ true
    → IsWaiting s
    → IsWaiting (relay_run address s inputs).0
unfolding relay_run is_without_release
relay_run-IsWaiting address s [] e w = w
relay_run-IsWaiting address s (i ∷ inputs) e w =
    relay_run-IsWaiting address (relay_step address s i).0 inputs (ground (arith, e))
      (relay_step-IsWaiting address s i (ground (arith, e)) w)

-- `Stop` sets no semaphore: if both connectors have not been there by then and none comes any more, as
-- the listening threads are stopped, and no `Wait` fails, the thread never gets to the end of
-- `ThreadFunc`, whatever else is called.
pub stop_relay-never_finished :
    (address : TunnelServerListenAddress) (s : RelayListen) (inputs : List RelayInput)
    → is_without_release inputs ≡ true
    → s.connect_semafor ≡ false
    → s.place ≢ finished
    → (relay_run address (stop_relay s).0 inputs).0.place ≢ finished
unfolding stop_relay
stop_relay-never_finished address s inputs e h p =
    (relay_run-IsWaiting address (stop_relay s).0 inputs e (h, p)).1
