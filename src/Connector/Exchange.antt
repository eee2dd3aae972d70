-- ===== src/Connector/Exchange.antt =====
-- Messages from one module to another: `toMessage` (MessageHandler), `SendData` (Stream) and `Send`
-- (TcpSocket) on this side, `Recv`, the reading loop and `onData` on the other.
mod Tests
use twainet.Prelude.{
  ℕ, suc, ◌+◌, ◌-◌, ◌^◌, ◌≤◌, ◌<◌, ◌≡◌, ◌≢◌, refl, ap, ◌∙◌, Bool, true, false, none, some, List, [],
  ◌∷◌, ◌++◌, map, length, arith, All,
}
use twainet.Prelude.Bytes.{Bytes}
use twainet.Connector.MessageHandler.{Messages, find_message, to_message, on_data, handled}
use twainet.Connector.MessageHandler.RoundTrip.{
  packet, length-packet, to_message_lem, on_data-to_message,
}
use twainet.Connector.TcpSocket.Transfer.{tcp_send_sound}
use twainet.Connector.Stream.{thread_func, is_fault, frame, send_data}
use twainet.Connector.Stream.Delivery.{frames, IsShort, thread_func_total}

-- A message that is sent: its name, its bytes, the number of the peer's object for it, and what the
-- system's calls do while it is sent.
pub record Sending : Type 0 where
  pub name : Bytes
  pub body : Bytes
  pub handler : ℕ
  pub calls : List ℕ

-- `toMessage`: the result, and the bytes that the system took.
pub send_message : Sending → Bool × Bytes
send_message s = elim (to_message s.name s.body) [
  | none ↦ (false, [])
  | some bytes ↦ send_data s.calls bytes
]

-- What is on the connection after the messages were sent in order.
abbrev pub wire : List Sending → Bytes
wire [] = []
wire (s ∷ ss) = (send_message s).1 ++ wire ss

abbrev pub packet_of : Sending → Bytes
packet_of s = packet s.name s.body

-- The peer knows the message, it has a name, and it fits into `MAX_DATA_LEN`.
abbrev pub IsKnown : Messages → Sending → Type 0
IsKnown messages s =
    (find_message messages s.name ≡ some s.handler)
    × (s.name ≢ [])
    × (length s.name < 2 ^ 31 - 4)
    × IsShort (packet_of s)

send_message-frame :
    (s : Sending)
    → 4 + length s.name + length s.body < 2 ^ 31
    → (send_message s).0 ≡ true
    → (send_message s).1 ≡ frame (packet_of s)
unfolding send_message send_data
send_message-frame s fits ok =
    ground (arith, to_message_lem s.name s.body fits, tcp_send_sound s.calls (frame (packet_of s)))

wire-frames :
    (messages : Messages) (ss : List Sending)
    → All (IsKnown messages) ss
    → All (λ s. (send_message s).0 ≡ true) ss
    → wire ss ≡ frames (map packet_of ss)
unfolding frames
wire-frames messages [] known h = refl
wire-frames messages (s ∷ ss) known h =
    ap (λ x. x ++ wire ss)
      (send_message-frame s (omega (arith, known.0.3, length-packet s.name s.body)) h.0)
    ∙ ap (λ x. frame (packet_of s) ++ x) (wire-frames messages ss known.1 h.1)

handled_each :
    (messages : Messages) (ss : List Sending)
    → All (IsKnown messages) ss
    → map (on_data messages) (map packet_of ss) ≡ map (λ s. handled s.handler s.body) ss
handled_each messages [] h = refl
handled_each messages (s ∷ ss) h =
    let (known, named, short, fits) = h.0 in
    let (bytes, e, d) =
      on_data-to_message messages s.name s.body s.handler named
        (omega (arith, fits, length-packet s.name s.body)) known in
    ground (
      arith,
      d,
      e,
      to_message_lem s.name s.body (omega (arith, fits, length-packet s.name s.body)),
      handled_each messages ss h.1,
    )

length-map : (ss : List Sending) → length (map packet_of ss) ≡ length ss
length-map [] = refl
length-map (s ∷ ss) = ap suc (length-map ss)

packet_of-IsShort :
    (messages : Messages) (ss : List Sending)
    → All (IsKnown messages) ss
    → All IsShort (map packet_of ss)
packet_of-IsShort messages [] h = tt
packet_of-IsShort messages (s ∷ ss) h = (h.0.3, packet_of-IsShort messages ss h.1)

handled_sound :
    (messages : Messages) (ps : List Bytes) (ss : List Sending)
    → map (on_data messages) ps ≡ map (λ s. handled s.handler s.body) ss
    → All (λ p. is_fault (on_data messages p) ≡ false) ps
handled_sound messages [] ss e = tt
handled_sound messages (p ∷ ps) [] e = ground (arith, e)
handled_sound messages (p ∷ ps) (s ∷ ss) e =
    (ground (arith, e), handled_sound messages ps ss (ground (arith, e)))

-- Messages that are sent one after the other, and whose sending succeeds, however the system splits
-- it, are handled by the peer in order, each by its object and with its bytes: if the peer knows them,
-- their packets fit into `MAX_DATA_LEN`, the peer's loop is not stopped before, and none of its calls
-- of recv fails before all bytes are read.
pub wire-handled :
    (messages : Messages) (ss : List Sending) (rounds : ℕ) (calls : List ℕ)
    → All (IsKnown messages) ss
    → All (λ s. (send_message s).0 ≡ true) ss
    → length ss ≤ rounds
    → All (λ k. 0 < k) calls
    → length (wire ss) ≤ length calls
    → map (on_data messages) (thread_func messages rounds calls (wire ss))
      ≡ map (λ s. handled s.handler s.body) ss
wire-handled messages ss rounds calls known sent le pos enough =
    let e = wire-frames messages ss known sent in
    ap (λ bytes. map (on_data messages) (thread_func messages rounds calls bytes)) e
    ∙ ap (map (on_data messages)) (
        thread_func_total messages (map packet_of ss) rounds calls
          (packet_of-IsShort messages ss known)
          (handled_sound messages (map packet_of ss) ss (handled_each messages ss known))
          (omega (arith, length-map ss)) pos (omega (arith, ap length e)))
    ∙ handled_each messages ss known
