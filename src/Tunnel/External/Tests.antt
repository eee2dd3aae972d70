-- ===== src/Tunnel/External/Tests.antt =====
-- The theorem on `ExternalConnectThread` with a `sem_timedwait` that keeps to POSIX.
use twainet.Prelude.{◌≡◌, true, false, [], ◌∷◌, ltb, leb, arith, if◌then◌else◌}
use twainet.Prelude.Bytes.{codes}
use twainet.Thread.Semaphore.{SemTimedwait, taken, timed_out, invalid, IsPosix}
use twainet.Tunnel.Message.{ConnectAddress, udp, udt_secure}
use twainet.Tunnel.External.{
  Round, external_thread_func, is_sent, signal_error, external_thread_func-is_sent,
}

-- At any time after the thousandth second since the Epoch.
abbrev timedwait : SemTimedwait
timedwait count sec nsec =
    if ltb 0 count then taken else if leb 1000000000 nsec then invalid else timed_out

timedwait-IsPosix : IsPosix 2000 timedwait
timedwait-IsPosix = record {
  no_timeout = λ count sec nsec h. ground (arith, h);
  taken_at_once = λ count sec nsec h k. ground (arith, h);
  invalid_nsec = λ sec nsec h. ground (arith, h);
  past_times_out = λ sec nsec h k. ground (arith, h);
}

abbrev to_server : ConnectAddress
to_server = record {
  module_name = codes "s1";
  id = codes "s2";
  ip = codes "10.0.0.9";
  port = 5000;
  socket_factory = udp;
}

abbrev quiet : Round
quiet = record { is_stop = false; change_addr = 0; is_size_sent = true; is_name_sent = true }

external_thread_func-is_sent_example :
    let acts =
      external_thread_func timedwait to_server
        (record to_server { socket_factory = udt_secure })
        true
        (quiet ∷ quiet ∷ []) in
    let acts' = external_thread_func timedwait to_server to_server true (quiet ∷ quiet ∷ []) in
    (is_sent acts ≡ false) × (acts' ≡ signal_error ∷ [])
external_thread_func-is_sent_example =
    external_thread_func-is_sent {clock = 2000} {sem_timedwait = timedwait} timedwait-IsPosix
      to_server (record to_server { socket_factory = udt_secure }) true quiet (quiet ∷ [])
