-- ===== src/Connector/MessageHandler.antt =====
-- src/cpp/lib/connector_lib/handler/message_handler.cpp: `MessageHandler`, and the part of
-- `ProtoMessage` (src/cpp/lib/ipc_lib/connector/proto_message.h) that it calls. The bytes that
-- protobuf makes of a message are an argument, `body`; a registered message is the number of its
-- object. A read outside the buffer and an exception that leaves the function are `fault`.
pub mod RoundTrip
mod Tests
use twainet.Prelude.{
  ℕ, ◌+◌, ◌-◌, ◌^◌, Bool, true, false, Option, none, some, List, [], ◌∷◌, ◌++◌, length, take, drop,
  ltb, leb, ◌==◌, if◌then◌else◌,
}
use twainet.Prelude.Bytes.{Bytes, str_eq}
use twainet.Connector.Int32.{int_bytes, bytes_int}

-- `m_messages`: from a message's name to the object that handles it.
abbrev pub Messages : Type 0
Messages = List (Bytes × ℕ)

unfoldable pub find_message : Messages → Bytes → Option ℕ
find_message [] name = none
find_message ((key, msg) ∷ rest) name = if str_eq key name then some msg else find_message rest name

-- `addMessage`: a second message of the same name takes the place of the first.
unfoldable add_message : Messages → Bytes → ℕ → Messages
add_message [] name msg = (name, msg) ∷ []
add_message ((key, old) ∷ rest) name msg =
    if str_eq key name then (key, msg) ∷ rest else (key, old) ∷ add_message rest name msg

-- `ProtoMessage::deserialize` into a buffer of `len` bytes: whether it wrote, and the new `len`.
unfoldable pub proto_deserialize : Bytes → ℕ → Bool × ℕ
proto_deserialize body len =
    if ltb len (length body) then (false, length body) else (true, length body)

-- `MessageHandler::deserialize` into a buffer of `len` bytes, or into none (`data == 0`): the
-- result, the new `len`, and what the buffer then holds. `none`: the name and the body are longer
-- than an `int` can say, and `typeLen`, `headerLen` or `len` is not what it means to be.
unfoldable pub deserialize : Bytes → Bytes → Bool → ℕ → Option (Bool × ℕ × Bytes)
unfolding proto_deserialize
deserialize name body buffer len =
    let header_len = 4 + length name in
    let (res, body_len) =
      proto_deserialize body (if ltb header_len len then len - header_len else 0) in
    if leb (2 ^ 31) (header_len + body_len)
    then none
    else some (
      res,
      header_len + body_len,
      if res then (if buffer then int_bytes (length name) ++ (name ++ body) else []) else [],
    )

-- `toMessage`: once for the length, once into a buffer of that length, which `SendData` is given;
-- `none` where nothing is sent, or the length overflows.
unfoldable pub to_message : Bytes → Bytes → Option Bytes
unfolding deserialize
to_message name body = elim (deserialize name body false 0) [
  | none ↦ none
  | some (res, len, written) ↦ elim (deserialize name body true len) [
    | none ↦ none
    | some (res', len', written') ↦ if res' then some (take len' written') else none
  ]
]

pub data Outcome : Type 0 where
  fault : Outcome
  -- `onData` returned false.
  ignored : Outcome
  -- The message object, and the bytes that it parsed before its `onMessage`.
  handled : ℕ → Bytes → Outcome

-- `onData(type, data, len)`.
unfoldable pub on_typed_data : Messages → Bytes → Bytes → Outcome
unfolding find_message
on_typed_data messages type_name body = elim (find_message messages type_name) [
  | none ↦ ignored
  | some msg ↦ handled msg body
]

-- `onData(data, len)`. Four bytes are read whatever `len` is. For every negative `typeLen` the test
-- `len >= headerLen` holds and `std::string(const char*, size_t)` throws; for the four greatest
-- `sizeof(int) + typeLen` overflows.
unfoldable pub on_data : Messages → Bytes → Outcome
unfolding on_typed_data
on_data messages data' =
    let type_len = bytes_int data' in
    let header_len = 4 + type_len in
    if ltb (length data') 4
    then fault
    else if type_len == 0
    then ignored
    else if leb (2 ^ 31 - 4) type_len
    then fault
    else if leb header_len (length data')
    then on_typed_data messages (take type_len (drop 4 data')) (drop header_len data')
    else ignored
