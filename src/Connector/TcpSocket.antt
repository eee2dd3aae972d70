-- ===== src/Connector/TcpSocket.antt =====
-- src/cpp/lib/connector_lib/socket/tcp_socket.cpp: `TCPSocket::Send` and `TCPSocket::Recv`. What the
-- system calls do is an argument: a list with one number for each call, the bytes that the call
-- would move at most; 0, or the end of the list, is a call that returned 0 or an error.
-- The socket is a valid one; on `INVALID_SOCKET` both return false.
pub mod Transfer
mod Tests
use Prim.Native.Nat.{min}
use twainet.Prelude.{
  ℕ, zero, suc, ◌+◌, ◌-◌, Bool, true, false, Option, none, some, List, [], ◌∷◌, ◌++◌, length, take,
  drop, ◌==◌, if◌then◌else◌,
}
use twainet.Prelude.Bytes.{Bytes}

-- `Send`: the result, and the bytes that the system took, in order.
unfoldable pub tcp_send : List ℕ → Bytes → Bool × Bytes
tcp_send [] unsent = (if length unsent == 0 then true else false, [])
tcp_send (k ∷ calls) unsent =
    let res = min k (length unsent) in
    let (done, sent) = tcp_send calls (drop res unsent) in
    if length unsent == 0
    then (true, [])
    else if res == 0
    then (false, [])
    else (done, take res unsent ++ sent)

-- `Recv` of `len` bytes from a connection on which `stream` is still to come: the buffer, the rest
-- of the stream and the calls not made; `none` is the result false.
pub tcp_recv : List ℕ → Bytes → ℕ → Option (Bytes × Bytes × List ℕ)
tcp_recv [] stream len = if len == 0 then some ([], stream, []) else none
tcp_recv (k ∷ calls) stream len =
    let res = min (min k len) (length stream) in
    let rest = tcp_recv calls (drop res stream) (len - res) in
    if len == 0 then some ([], stream, k ∷ calls) else if res == 0 then none else elim rest [
      | none ↦ none
      | some (buffer, stream', calls') ↦ some (take res stream ++ buffer, stream', calls')
    ]
