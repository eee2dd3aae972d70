-- ===== src/Connector/Exchange/Tests.antt =====
-- Two messages from one module to another.
use twainet.Prelude.{ℕ, ◌≡◌, ◌≤◌, refl, true, List, [], ◌∷◌, map, length, arith, All}
use twainet.Prelude.Bytes.{codes, str_eq}
use twainet.Connector.Int32.{int_bytes}
use twainet.Connector.MessageHandler.{
  Messages, find_message, deserialize, to_message, on_data, handled, proto_deserialize,
}
use twainet.Connector.TcpSocket.{tcp_send}
use twainet.Connector.Stream.{thread_func, frame, send_data}
use twainet.Connector.Exchange.{Sending, send_message, wire, IsKnown, wire-handled}

abbrev registered : Messages
registered = (codes "Ping", 1) ∷ (codes "Data", 2) ∷ []

abbrev sendings : List Sending
sendings =
    record { name = codes "Data"; body = codes "x"; handler = 2; calls = 5 ∷ 100 ∷ [] }
    ∷ record { name = codes "Ping"; body = []; handler = 1; calls = 100 ∷ [] }
    ∷ []

sendings-IsKnown : All (IsKnown registered) sendings
unfolding find_message str_eq int_bytes
sendings-IsKnown = (
  (refl, (λ e. ground arith), omega arith, omega arith),
  ((refl, (λ e. ground arith), omega arith, omega arith), tt),
)

sendings_sent : All (λ s. (send_message s).0 ≡ true) sendings
unfolding send_message to_message deserialize proto_deserialize send_data tcp_send frame int_bytes
sendings_sent = (refl, (refl, tt))

abbrev calls : List ℕ
calls =
    1 ∷ 2 ∷ 3 ∷ 4 ∷ 5 ∷ 6 ∷ 7 ∷ 8 ∷ 9 ∷ 10 ∷ 11 ∷ 12 ∷ 13 ∷ 14 ∷ 15 ∷ 16 ∷ 17 ∷ 18 ∷ 19 ∷ 20 ∷ 21
    ∷ 22 ∷ 23 ∷ 24 ∷ 25 ∷ 26 ∷ 27 ∷ 28 ∷ []

length-wire : length (wire sendings) ≤ length calls
unfolding send_message to_message deserialize proto_deserialize send_data tcp_send frame int_bytes
length-wire = omega arith

wire-handled_example :
    map (on_data registered) (thread_func registered 2 calls (wire sendings))
    ≡ map (λ s. handled s.handler s.body) sendings
wire-handled_example =
    wire-handled registered sendings 2 calls sendings-IsKnown sendings_sent (omega arith)
      (ground arith) length-wire
