-- ===== src/Connector/Stream.antt =====
-- src/cpp/lib/ipc_lib/connector/ipc_connector.cpp: `IPCConnector::SendData`, which puts a length in
-- front of each message, and the reading loop `IPCConnector::ThreadFunc`.
pub mod Delivery
mod Tests
use twainet.Prelude.{
  ℕ, zero, suc, ◌*◌, ◌^◌, Bool, true, false, ◌||◌, none, some, List, [], ◌∷◌, ◌++◌, length, ltb,
  leb, if◌then◌else◌,
}
use twainet.Prelude.Bytes.{Bytes}
use twainet.Connector.Int32.{int_bytes, bytes_int}
use twainet.Connector.MessageHandler.{Messages, Outcome, fault, ignored, handled, on_data}
use twainet.Connector.TcpSocket.{tcp_send, tcp_recv}

abbrev pub max_data_len : ℕ
max_data_len = 1024 * 1024

-- The buffer that `SendData` hands to the socket.
unfoldable pub frame : Bytes → Bytes
frame payload = int_bytes (length payload) ++ payload

-- `SendData` on the system calls `calls`: the result, and the bytes that the system took.
unfoldable pub send_data : List ℕ → Bytes → Bool × Bytes
unfolding frame
send_data calls payload = tcp_send calls (frame payload)

-- `onData` does not return.
abbrev pub is_fault : Outcome → Bool
is_fault fault = true
is_fault ignored = false
is_fault (handled msg body) = false

-- `ThreadFunc`: the payloads that `onData` is called with, in order; one that makes `onData` throw, or
-- read outside its buffer, is the last. `IsStop()` answers false
-- `rounds` times before another thread stops this one; `calls` are the system's `recv` calls, and
-- `stream` is what the peer's bytes are.
pub thread_func : Messages → ℕ → List ℕ → Bytes → List Bytes
thread_func messages zero calls stream = []
thread_func messages (suc rounds) calls stream = elim (tcp_recv calls stream 4) [
  | none ↦ []
  | some (len_bytes, stream', calls') ↦
      let len = bytes_int len_bytes in
      if leb (2 ^ 31) len || ltb max_data_len len then [] else elim (tcp_recv calls' stream' len) [
        | none ↦ []
        | some (payload, stream'', calls'') ↦
            let later = thread_func messages rounds calls'' stream'' in
            if is_fault (on_data messages payload) then payload ∷ [] else payload ∷ later
      ]
]
