-- ===== src/Ipc/InternalConnector.antt =====
-- src/cpp/lib/ipc_lib/connector/internal_connector.cpp: `InternalConnector`, one end of a connection
-- that is carried by the messages of two modules. What the system calls do is an argument, as for
-- `Send` and `Recv`.
mod Tests
use Prim.Native.Nat.{min}
use twainet.Prelude.{
  ℕ, zero, suc, ◌≡◌, refl, ap, sym, ◌∙◌, Bool, true, false, List, [], ◌∷◌, ◌++◌, length, take, drop,
  ◌==◌, arith, if◌then◌else◌, append_assoc, append-nil, not, Bool-cases, ◌⊎◌, inl, inr,
}
use twainet.Prelude.Bytes.{Bytes, str_eq}
use twainet.Connector.TcpSocket.{tcp_send}
use twainet.Connector.TcpSocket.Transfer.{tcp_send_sound, tcp_send-starts, take-append-drop}
use twainet.Connector.Stream.Delivery.{IsPrefix}

pub record InternalConnectionData : Type 0 where
  pub id : Bytes
  pub data_ : Bytes

-- `ThreadFunc`: the signals that it raises. `IsStop()` answers false `rounds` times; `calls` are
-- the calls of `recv` into a buffer of `sizedata` bytes, `stream` what is to come on the socket.
unfoldable pub internal_thread_func : Bytes → ℕ → ℕ → List ℕ → Bytes → List InternalConnectionData
internal_thread_func id sizedata zero calls stream = []
internal_thread_func id sizedata (suc rounds) [] stream = []
internal_thread_func id sizedata (suc rounds) (k ∷ calls) stream =
    let res = min (min k sizedata) (length stream) in
    let later = internal_thread_func id sizedata rounds calls (drop res stream) in
    if res == 0 then [] else record { id = id; data_ = take res stream } ∷ later

-- An end: its id, and whether its socket has not been closed.
pub record InternalEnd : Type 0 where
  pub end_id : Bytes
  pub is_open : Bool

-- `onInternalConnectionDataMessage`: the end, and the bytes that the system took. `Stop` closes the
-- socket, and on a closed one `Send` returns false.
unfoldable pub on_internal_connection_data_message :
    InternalEnd → List ℕ → InternalConnectionData → InternalEnd × Bytes
on_internal_connection_data_message e calls msg =
    let (done, sent) = tcp_send calls msg.data_ in
    if not (str_eq msg.id e.end_id)
    then (e, [])
    else if not e.is_open
    then (e, [])
    else if done
    then (e, sent)
    else (record e { is_open = false }, sent)

-- Messages one after the other, each with the calls of `send` that it meets.
unfoldable pub take_messages :
    InternalEnd → List (List ℕ × InternalConnectionData) → InternalEnd × Bytes
take_messages e [] = (e, [])
take_messages e ((calls, msg) ∷ msgs) =
    let (e1, sent) = on_internal_connection_data_message e calls msg in
    let (e2, later) = take_messages e1 msgs in (e2, sent ++ later)

-- Of the messages those of this id.
unfoldable pub messages_of :
    Bytes → List (List ℕ × InternalConnectionData) → List InternalConnectionData
messages_of id [] = []
messages_of id ((calls, msg) ∷ msgs) =
    let rest = messages_of id msgs in if str_eq msg.id id then msg ∷ rest else rest

abbrev pub bytes_of : List InternalConnectionData → Bytes
bytes_of [] = []
bytes_of (msg ∷ msgs) = msg.data_ ++ bytes_of msgs

-- What is read is passed on unchanged.
internal_thread_func-IsPrefix :
    (id : Bytes) (sizedata rounds : ℕ) (calls : List ℕ) (stream : Bytes)
    → IsPrefix (bytes_of (internal_thread_func id sizedata rounds calls stream)) stream
unfolding internal_thread_func
internal_thread_func-IsPrefix id sizedata zero calls stream = (stream, refl)
internal_thread_func-IsPrefix id sizedata (suc rounds) [] stream = (stream, refl)
internal_thread_func-IsPrefix id sizedata (suc rounds) (k ∷ calls) stream =
    let res = min (min k sizedata) (length stream) in
    let later = bytes_of (internal_thread_func id sizedata rounds calls (drop res stream)) in
    let (rest, e) = internal_thread_func-IsPrefix id sizedata rounds calls (drop res stream) in
    elim (Bool-cases (res == 0)) [
      | inl ended ↦ (stream, ground (arith, ended))
      | inr moved ↦
          let split =
            sym (take-append-drop res stream)
            ∙ (ap (λ xs. take res stream ++ xs) e
                ∙ sym (append_assoc (take res stream) later rest)) in
          (rest, ground (arith, split, moved))
    ]

-- A closed end sends nothing.
take_messages-closed :
    (e : InternalEnd) (msgs : List (List ℕ × InternalConnectionData))
    → e.is_open ≡ false
    → take_messages e msgs ≡ (e, [])
unfolding take_messages on_internal_connection_data_message
take_messages-closed e [] h = refl
take_messages-closed e ((calls, msg) ∷ msgs) h = ground (arith, take_messages-closed e msgs h, h)

-- The end stays as it is, or it is closed behind a part of the data.
on_data_cases :
    (e : InternalEnd) (calls : List ℕ) (msg : InternalConnectionData)
    → e.is_open ≡ true
    → str_eq msg.id e.end_id ≡ true
    → (on_internal_connection_data_message e calls msg ≡ (e, msg.data_))
      ⊎ (((on_internal_connection_data_message e calls msg).0.is_open ≡ false)
          × IsPrefix (on_internal_connection_data_message e calls msg).1 msg.data_)
unfolding on_internal_connection_data_message
on_data_cases e calls msg up same = elim (Bool-cases (tcp_send calls msg.data_).0) [
  | inl done ↦ inl (ground (arith, up, same, done, tcp_send_sound calls msg.data_ done))
  | inr failed ↦
      let (rest, q) = tcp_send-starts calls msg.data_ in
      inr (ground (arith, up, same, failed), (rest, ground (arith, up, same, failed, q)))
]

other_message :
    (e : InternalEnd) (calls : List ℕ) (msg : InternalConnectionData)
    → str_eq msg.id e.end_id ≡ false
    → on_internal_connection_data_message e calls msg ≡ (e, [])
unfolding on_internal_connection_data_message
other_message e calls msg other = ground (arith, other)

-- What an open end passes to its socket: the first bytes of the messages of its id, and all of them
-- if it is open still.
IsPassedOn : InternalEnd → List (List ℕ × InternalConnectionData) → Type 0
IsPassedOn e msgs =
    let (e', sent) = take_messages e msgs in
    let data_ = bytes_of (messages_of e.end_id msgs) in
    IsPrefix sent data_ × (e'.is_open ≡ true → sent ≡ data_)

take_messages-IsPassedOn :
    (e : InternalEnd) (msgs : List (List ℕ × InternalConnectionData))
    → e.is_open ≡ true
    → IsPassedOn e msgs
unfolding take_messages messages_of IsPassedOn
take_messages-IsPassedOn e [] up = (([], refl), λ h. refl)
take_messages-IsPassedOn e ((calls, msg) ∷ msgs) up =
    let ((rest, q), whole) = take_messages-IsPassedOn e msgs up in
    let (e1, sent) = on_internal_connection_data_message e calls msg in
    let later = (take_messages e msgs).1 in
    elim (Bool-cases (str_eq msg.id e.end_id)) [
      | inr other ↦ (
        (rest, ground (arith, other_message e calls msg other, other, q)),
        λ h. ground (arith, other_message e calls msg other, other, whole, h),
      )
      | inl same ↦ elim (on_data_cases e calls msg up same) [
        | inl passed ↦ (
          (rest, ground (arith, passed, same, q, append_assoc msg.data_ later rest)),
          λ h. ground (arith, passed, same, whole, h),
        )
        | inr (closed, (left, p)) ↦
            let silent = take_messages-closed e1 msgs closed in
            let split = append_assoc sent left (bytes_of (messages_of e.end_id msgs)) in
            (
              (
                left ++ bytes_of (messages_of e.end_id msgs),
                ground (arith, silent, same, p, split, append-nil sent),
              ),
              λ h. ground (arith, silent, closed, h),
            )
      ]
    ]

-- Data that one end reads and another one is told of, among messages of other ids, comes to the
-- other socket unchanged and in order: what is sent there is the first part of what was to come on
-- the first socket, however the system splits it on either side and whenever it fails. If the
-- receiving end is open still, it has sent everything that was read.
pub internal_thread_func-take_messages :
    (e : InternalEnd) (msgs : List (List ℕ × InternalConnectionData)) (sizedata rounds : ℕ)
    (calls : List ℕ) (stream : Bytes)
    → e.is_open ≡ true
    → messages_of e.end_id msgs ≡ internal_thread_func e.end_id sizedata rounds calls stream
    → let (e', sent) = take_messages e msgs in
      IsPrefix sent stream × ((e'.is_open ≡ false) ⊎ (sent ≡ bytes_of (messages_of e.end_id msgs)))
unfolding IsPassedOn
internal_thread_func-take_messages e msgs sizedata rounds calls stream up read =
    let ((left, p), whole) = take_messages-IsPassedOn e msgs up in
    let (unread, q) = internal_thread_func-IsPrefix e.end_id sizedata rounds calls stream in
    let sent = (take_messages e msgs).1 in
    (
      (
        left ++ unread,
        q
            ∙ (ap (λ ms. bytes_of ms ++ unread) (sym read)
                ∙ (ap (λ xs. xs ++ unread) p ∙ append_assoc sent left unread)),
      ),
      elim (Bool-cases (take_messages e msgs).0.is_open) [
        | inl still ↦ inr (whole still)
        | inr closed ↦ inl closed
      ],
    )
