-- ===== src/Tunnel/External.antt =====
-- src/cpp/lib/tunnel_lib/thread/external_connect_thread.cpp: `ExternalConnectThread`, with which a client
-- tells the server its external address and then connects to the one that it gets.
mod Tests
use twainet.Prelude.{
  ℕ, ◌≡◌, Bool, true, false, not, List, [], ◌∷◌, ◌++◌, length, arith, if◌then◌else◌, ◌*◌,
}
use twainet.Prelude.Bytes.{Bytes}
use twainet.Connector.Int32.{int_bytes}
use twainet.Thread.Semaphore.{
  SemTimedwait, IsPosix, wait_timeout, wait_failed, wait_success, wait_semaphore,
}
use twainet.Tunnel.Message.{
  ConnectAddress, SocketKind, udp, tcp_secure, udt_secure, tcp_secure_proxy,
}

-- What the thread meets in a round of its loop: whether it has been told to stop, the count of
-- `m_changeAddr`, and whether its two calls of `Send` succeed.
pub record Round : Type 0 where
  pub is_stop : Bool
  pub change_addr : ℕ
  pub is_size_sent : Bool
  pub is_name_sent : Bool

pub data ExternalAct : Type 0 where
  send_packet : Bytes → ExternalAct
  signal_error : ExternalAct
  -- `ConnectThread::ThreadFunc` on the UDP socket.
  connect_thread_func : ConnectAddress → ExternalAct

-- The loop: what is sent, and whether the thread goes on behind it. The rounds that are not in the list
-- never come.
external_loop : SemTimedwait → Bytes → List Round → List ExternalAct × Bool
external_loop sem_timedwait name [] = ([], false)
external_loop sem_timedwait name (r ∷ rounds) =
    let (acts, is_left) = external_loop sem_timedwait name rounds in
    let size = send_packet (int_bytes (length name)) in
    if r.is_stop then ([], true) else elim (wait_semaphore sem_timedwait r.change_addr 1000) [
      | wait_timeout ↦
          if not r.is_size_sent
          then (signal_error ∷ [], false)
          else if not r.is_name_sent
          then (size ∷ signal_error ∷ [], false)
          else (size ∷ send_packet name ∷ acts, is_left)
      | wait_failed ↦ ([], true)
      | wait_success ↦ ([], true)
    ]

-- The `dynamic_cast` to `UDTSecureSocketFactory`.
abbrev pub is_udt_secure : SocketKind → Bool
is_udt_secure udp = false
is_udt_secure tcp_secure = false
is_udt_secure udt_secure = true
is_udt_secure tcp_secure_proxy = false

-- `ThreadFunc`: `address` is `m_address` at the start, `changed` what it is behind the loop. Whether
-- the socket is made and bound is an argument.
pub external_thread_func :
    SemTimedwait → ConnectAddress → ConnectAddress → Bool → List Round → List ExternalAct
external_thread_func sem_timedwait address changed is_bound rounds =
    let (acts, is_left) = external_loop sem_timedwait address.module_name rounds in
    if not is_bound
    then signal_error ∷ []
    else if not is_left
    then acts
    else if is_udt_secure changed.socket_factory
    then acts ++ connect_thread_func changed ∷ []
    else acts ++ signal_error ∷ []

-- A packet to the server is among what is done.
pub is_sent : List ExternalAct → Bool
is_sent [] = false
is_sent (send_packet data_ ∷ acts) = true
is_sent (signal_error ∷ acts) = is_sent acts
is_sent (connect_thread_func address ∷ acts) = is_sent acts

external_loop_leaves :
    {clock : ℕ} {sem_timedwait : SemTimedwait}
    → IsPosix clock sem_timedwait
    → (name : Bytes) (r : Round) (rounds : List Round)
    → external_loop sem_timedwait name (r ∷ rounds) ≡ ([], true)
unfolding external_loop wait_semaphore
external_loop_leaves p name r rounds =
    ground (
      arith,
      p.no_timeout r.change_addr 1000 (1000 * 1000000),
      p.invalid_nsec 1000 (1000 * 1000000),
    )

-- `Wait(1000)` asks `sem_timedwait` for 1000 million nanoseconds, which POSIX forbids: on a system
-- that keeps to POSIX a thread that enters its loop leaves it in the first round and sends no packet
-- to the server. If its address has not been changed by then it signals an error.
pub external_thread_func-is_sent :
    {clock : ℕ} {sem_timedwait : SemTimedwait}
    → IsPosix clock sem_timedwait
    → (address changed : ConnectAddress) (is_bound : Bool) (r : Round) (rounds : List Round)
    → let acts = external_thread_func sem_timedwait address changed is_bound (r ∷ rounds) in
      let acts' =
        external_thread_func sem_timedwait
          (record address { socket_factory = udp })
          (record address { socket_factory = udp })
          is_bound
          (r ∷ rounds) in
      (is_sent acts ≡ false) × (acts' ≡ signal_error ∷ [])
unfolding external_thread_func is_sent
external_thread_func-is_sent {sem_timedwait = sem_timedwait} p address changed is_bound r rounds =
    ground (arith, external_loop_leaves p address.module_name r rounds)
