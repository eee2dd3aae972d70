-- ===== src/Tunnel/Relay/Tests.antt =====
-- The theorems on the relay's thread at a tunnel of two sessions.
use twainet.Prelude.{
  ℕ, ◌≡◌, ◌≢◌, ◌≤◌, ◌+◌, ◌++◌, ltb, Bool, true, if◌then◌else◌, some, List, [], ◌∷◌, refl, arith,
  total,
}
use twainet.Prelude.Bytes.{Bytes, codes, str_eq, str_lt}
use twainet.StringMap.{map_set}
use twainet.Tunnel.Message.{TunnelServerListenAddress, tcp_secure}
use twainet.Tunnel.Relay.{
  null_used, make_listen, start_held, RelayInput, thread_goes_on, stop_called, listen_fails,
  listener_created, connector_added, created_server_listener, new_server_connector, start_listen,
  finished, relay_run, relay_step, relay_thread_func, on_relay_created_listener, in_order,
  on_add_relay_connector, set_if_both, on_relay_listen_error, hand_over, new_relay, stop_relay,
  RelayListen, waits_connectors, to_manager, listen_error,
}
use twainet.Tunnel.Relay.Accounts.{made_number, given_number, added_number, relay_run_once}
use twainet.Tunnel.Relay.Listeners.{relay_run_deleted}
use twainet.Tunnel.Relay.Joined.{is_unstopped, joins_both, relay_run-joins_both}
use twainet.Tunnel.Relay.Waiting.{stop_relay-never_finished, is_without_release}

abbrev relay_address : TunnelServerListenAddress
relay_address = record {
  local_ip = codes "10.0.0.1";
  local_port = 0;
  session_id_one = codes "s1";
  session_id_two = codes "s2";
  id = codes "s1s2";
  socket_factory = tcp_secure;
}

abbrev tunnel_made : List RelayInput
tunnel_made =
    thread_goes_on 32
    ∷ thread_goes_on 0
    ∷ thread_goes_on 48
    ∷ thread_goes_on 0
    ∷ listener_created (codes "s2") (codes "10.0.0.1") 4001
    ∷ listener_created (codes "s1") (codes "10.0.0.1") 4000
    ∷ thread_goes_on 0
    ∷ connector_added (codes "s2") 80
    ∷ connector_added (codes "s1") 64
    ∷ thread_goes_on 0
    ∷ listen_fails
    ∷ []

-- The addresses are told in the order of the sessions, and the connectors are joined in it.
tunnel_told :
    (relay_run relay_address new_relay tunnel_made).1
    ≡ make_listen (codes "s1") (codes "s2") 32
      ∷ start_listen 32
      ∷ make_listen (codes "s2") (codes "s1") 48
      ∷ start_listen 48
      ∷ created_server_listener (codes "s1s2") (codes "s1") (codes "10.0.0.1") 4000
      ∷ created_server_listener (codes "s1s2") (codes "s2") (codes "10.0.0.1") 4001
      ∷ new_server_connector (some 64) (some 80)
      ∷ to_manager 32
      ∷ to_manager 48
      ∷ listen_error (codes "s1s2")
      ∷ []
unfolding relay_run relay_step relay_thread_func start_held on_relay_created_listener map_set str_eq
    in_order str_lt on_add_relay_connector set_if_both on_relay_listen_error hand_over
tunnel_told = refl

relay_run_once_example :
    let events = (relay_run relay_address new_relay tunnel_made).1 in
    total (given_number 64) events
    ≤ total (made_number 64) events + total (added_number 64) tunnel_made
relay_run_once_example = relay_run_once 64 relay_address tunnel_made

no_32 : total (added_number 32) tunnel_made ≡ 0
unfolding total added_number
no_32 = refl

relay_run_deleted_example :
    let (s, events) = relay_run relay_address new_relay tunnel_made in
    total (given_number 32) (events ++ (stop_relay s).1) ≡ total (made_number 32) events
relay_run_deleted_example = relay_run_deleted 32 relay_address tunnel_made no_32

-- Connectors below 72 are of the first session.
abbrev is_of : Bytes → ℕ → Bool
is_of session u = if ltb u 72 then str_eq session (codes "s1") else str_eq session (codes "s2")

made-is_unstopped : is_unstopped is_of tunnel_made ≡ true
unfolding is_unstopped str_eq
made-is_unstopped = refl

relay_run-joins_both_example :
    joins_both is_of relay_address (relay_run relay_address new_relay tunnel_made).1 ≡ true
relay_run-joins_both_example =
    relay_run-joins_both is_of relay_address tunnel_made made-is_unstopped

-- The thread waits for its connectors when it is stopped.
abbrev calls_after_stop : List RelayInput
calls_after_stop = thread_goes_on 0 ∷ stop_called ∷ listen_fails ∷ thread_goes_on 0 ∷ []

calls-is_without_release : is_without_release calls_after_stop ≡ true
unfolding is_without_release
calls-is_without_release = refl

abbrev waiting_relay : RelayListen
waiting_relay = record new_relay {
  listen_one = some 32;
  listen_two = some 48;
  place = waits_connectors;
}

stop_relay-never_finished_example :
    (relay_run relay_address (stop_relay waiting_relay).0 calls_after_stop).0.place ≢ finished
stop_relay-never_finished_example =
    stop_relay-never_finished relay_address waiting_relay calls_after_stop calls-is_without_release
      refl (λ e. ground (arith, e))

-- The first listening thread is stopped before it is started: it is handed on once, and the thread
-- ends at a null pointer.
stopped_early :
    relay_run relay_address new_relay (thread_goes_on 32 ∷ stop_called ∷ thread_goes_on 0 ∷ []) ≡ (
      record new_relay { place = null_used },
      make_listen (codes "s1") (codes "s2") 32 ∷ to_manager 32 ∷ [],
    )
unfolding relay_run relay_step relay_thread_func start_held stop_relay hand_over
stopped_early = refl
