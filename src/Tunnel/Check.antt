-- ===== src/Tunnel/Check.antt =====
-- `CheckTunnels` of src/cpp/lib/tunnel_lib/module/tunnel_module.cpp, which
-- src/cpp/lib/tunnel_lib/thread/tunnel_checker_thread.cpp calls again and again: on the client's
-- entries, the server's listeners and its steps.
mod Tests
use twainet.Prelude.{
  ℕ, ◌+◌, ◌≡◌, refl, Bool, true, leb, Option, none, some, List, [], ◌∷◌, ◌++◌, arith, if◌then◌else◌,
}
use twainet.Prelude.Bytes.{Bytes, str_eq_sound}
use twainet.StringMap.{map_find}
use twainet.StringMap.Keys.{IsMap}
use twainet.ObjectManager.Refinement.{lookup}
use twainet.Tunnel.Message.{Event}
use twainet.Tunnel.Client.{TunnelConnect, ClientState}
use twainet.Tunnel.Client.Handler.{check_connects}
use twainet.Tunnel.Client.Run.{new_client, run_threads, Request as ClientRequest, run as run_client}
use twainet.Tunnel.Server.{TunnelStep, TunnelServer, ServerState, step_order}
use twainet.Tunnel.Server.Listener.{is_old, check_servers, check_server_tunnels}
use twainet.Tunnel.Server.Steps.{young, lookup-check_steps, step_of}
use twainet.Tunnel.Server.Run.{Request as ServerRequest, run as run_server}
use twainet.Tunnel.Server.Pending.{new_state, run-new-IsValid}
use twainet.Ipc.Object.{IpcObject}

-- A module is a client, a server, or both.
pub record TunnelModule : Type 0 where
  pub client : ClientState
  pub server : ServerState

-- `CheckTunnels`.
pub check_tunnels : TunnelModule → ℕ → TunnelModule × List Event
check_tunnels m now =
    let (tunnels, events) = check_connects now m.client.tunnels in
    let (server, events') = check_server_tunnels m.server now in
    (record { client = record m.client { tunnels = tunnels }; server = server }, events ++ events')

-- `ManagerFunc` of the checker's thread.
unfoldable tunnel_checker_func : TunnelModule → Bool → ℕ → TunnelModule × List Event
tunnel_checker_func m is_stop now = if is_stop then (m, []) else check_tunnels m now

abbrev pub unless_old {ℓ} : {V : Type ℓ} → (V → ℕ) → ℕ → Option V → Option V
unless_old time now none = none
unless_old time now (some v) = if is_old now (time v) then none else some v

map_find-check_connects :
    (now : ℕ) (tunnels : List (Bytes × TunnelConnect)) (k : Bytes)
    → IsMap tunnels
    → map_find (check_connects now tunnels).0 k
      ≡ unless_old (λ t. t.creation_time) now (map_find tunnels k)
unfolding check_connects map_find
map_find-check_connects now [] k m = refl
map_find-check_connects now ((ext, tunnel) ∷ tunnels) k m =
    ground (arith, m.0, map_find-check_connects now tunnels k m.1, str_eq_sound ext k)

map_find-check_servers :
    (now : ℕ) (servers : List (Bytes × TunnelServer)) (k : Bytes)
    → IsMap servers
    → map_find (check_servers now servers).0 k
      ≡ unless_old (λ t. t.creation_time) now (map_find servers k)
unfolding check_servers map_find
map_find-check_servers now [] k m = refl
map_find-check_servers now ((id, server) ∷ servers) k m =
    ground (arith, m.0, map_find-check_servers now servers k m.1, str_eq_sound id k)

-- There is none, or it was made at most sixty seconds ago.
abbrev pub is_recent {ℓ} : {V : Type ℓ} → (V → ℕ) → ℕ → Option V → Bool
is_recent time now none = true
is_recent time now (some v) = leb now (time v + 60)

-- What `CheckTunnels` leaves of an entry: all of it, or nothing.
abbrev pub if_recent {ℓ} : {V : Type ℓ} → (V → ℕ) → ℕ → Option V → Option V
if_recent time now v = if is_recent time now v then v else none

unless_old-is_recent {ℓ} :
    {V : Type ℓ} (time : V → ℕ) (now : ℕ) (v : Option V)
    → (unless_old time now v ≡ if_recent time now v)
      × (is_recent time now (unless_old time now v) ≡ true)
unless_old-is_recent time now none = (refl, refl)
unless_old-is_recent time now (some v) = ground arith

young-unless_old :
    (now : ℕ) (v : Option TunnelStep) → young now v ≡ unless_old (λ t. t.creation_time) now v
young-unless_old now none = refl
young-unless_old now (some v) = refl

-- After `CheckTunnels` every entry of the client, every listener of the server and every step of two
-- sessions was made at most sixty seconds ago; and those that were are kept as they are, whatever the
-- client and the server were asked before.
pub check_tunnels-is_recent :
    (rs : List ClientRequest) (before : List ServerRequest) (own ip : Bytes) (proxy : Bool)
    (modules : List IpcObject) (now : ℕ) (k one two : Bytes) {result : ClientState × List Event}
    → run_client (new_client own ip proxy modules) rs ≡ some result
    → let m : TunnelModule = record { client = result.0; server = run_server new_state before } in
      let m' = (check_tunnels m now).0 in
      let entry = map_find m'.client.tunnels k in
      let listener = map_find m'.server.servers k in
      let step = lookup m'.server.tunnels_step (step_of one two) in
      (is_recent (λ t. t.creation_time) now entry ≡ true)
      × (is_recent (λ t. t.creation_time) now listener ≡ true)
      × (is_recent (λ t. t.creation_time) now step ≡ true)
      × (entry ≡ if_recent (λ t. t.creation_time) now (map_find m.client.tunnels k))
      × (listener ≡ if_recent (λ t. t.creation_time) now (map_find m.server.servers k))
      × (step
          ≡ if_recent (λ t. t.creation_time) now (lookup m.server.tunnels_step (step_of one two)))
unfolding check_tunnels check_server_tunnels
check_tunnels-is_recent rs before own ip proxy modules now k one two {result} h =
    let s = run_server new_state before in
    let v = run-new-IsValid before in
    let m = (run_threads 0 own ip proxy modules rs {result = result} h).1 in
    ground (
      arith,
      map_find-check_connects now result.0.tunnels k m,
      map_find-check_servers now s.servers k v.servers_distinct,
      lookup-check_steps now s.tunnels_step (step_of one two) v.steps_sorted,
      young-unless_old now (lookup s.tunnels_step (step_of one two)),
      unless_old-is_recent (λ (t : TunnelConnect). t.creation_time) now
          (map_find result.0.tunnels k),
      unless_old-is_recent (λ (t : TunnelServer). t.creation_time) now (map_find s.servers k),
      unless_old-is_recent (λ (t : TunnelStep). t.creation_time) now
          (lookup s.tunnels_step (step_of one two)),
    )
