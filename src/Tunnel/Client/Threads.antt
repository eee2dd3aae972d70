-- ===== src/Tunnel/Client/Threads.antt =====
-- The threads that the client makes for its tunnels, and those that it stops.
use twainet.Prelude.{ℕ, ◌+◌, ◌==◌, Option, none, some, List, if◌then◌else◌}
use twainet.Prelude.Bytes.{Bytes}
use twainet.StringMap.Sum.{map_sum}
use twainet.Tunnel.Message.{
  Event, init_tunnel, init_tunnel_started, init_tunnel_complete, external_listen_thread,
  relay_listen_thread, try_connect_to, peer_data, available_pear_types, local_listen_thread,
  connect_thread, external_connect_thread, change_connect_address, stop_thread, start_connector,
  close_socket, add_connector, stop_connection, on_tunnel_connect_failed, on_tunnel_connected,
}
use twainet.Tunnel.Client.{TunnelConnect}

-- How often this thread is among those that are held.
abbrev pub held_once : ℕ → Option ℕ → ℕ
held_once t none = 0
held_once t (some u) = if t == u then 1 else 0

abbrev pub held_by : ℕ → TunnelConnect → ℕ
held_by t tunnel = held_once t tunnel.local_listen + held_once t tunnel.external_connect

-- How often the entries hold it.
abbrev pub held : ℕ → List (Bytes × TunnelConnect) → ℕ
held t tunnels = map_sum (held_by t) tunnels

-- How often an event starts a thread of an entry.
unfoldable pub start_number : ℕ → Event → ℕ
start_number t (local_listen_thread id u) = if t == u then 1 else 0
start_number t (external_connect_thread a u) = if t == u then 1 else 0
start_number t (init_tunnel msg) = 0
start_number t (init_tunnel_started msg) = 0
start_number t (init_tunnel_complete msg) = 0
start_number t (try_connect_to msg) = 0
start_number t (peer_data p) = 0
start_number t (available_pear_types a) = 0
start_number t (external_listen_thread a u) = 0
start_number t (relay_listen_thread a u) = 0
start_number t (connect_thread a u) = 0
start_number t (change_connect_address u a) = 0
start_number t (stop_thread u) = 0
start_number t (start_connector u) = 0
start_number t (close_socket u) = 0
start_number t (add_connector u c) = 0
start_number t (stop_connection s) = 0
start_number t (on_tunnel_connect_failed s) = 0
start_number t (on_tunnel_connected s c) = 0

-- How often an event stops it.
unfoldable pub stop_number : ℕ → Event → ℕ
stop_number t (stop_thread u) = if t == u then 1 else 0
stop_number t (local_listen_thread id u) = 0
stop_number t (external_connect_thread a u) = 0
stop_number t (init_tunnel msg) = 0
stop_number t (init_tunnel_started msg) = 0
stop_number t (init_tunnel_complete msg) = 0
stop_number t (try_connect_to msg) = 0
stop_number t (peer_data p) = 0
stop_number t (available_pear_types a) = 0
stop_number t (external_listen_thread a u) = 0
stop_number t (relay_listen_thread a u) = 0
stop_number t (connect_thread a u) = 0
stop_number t (change_connect_address u a) = 0
stop_number t (start_connector u) = 0
stop_number t (close_socket u) = 0
stop_number t (add_connector u c) = 0
stop_number t (stop_connection s) = 0
stop_number t (on_tunnel_connect_failed s) = 0
stop_number t (on_tunnel_connected s c) = 0
