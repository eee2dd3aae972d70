-- ===== src/Connector/MessageHandler/RoundTrip.antt =====
-- What `toMessage` sends on one side, and what `onData` does with a packet on the other.
use twainet.Prelude.{
  ℕ, zero, suc, ◌+◌, ◌-◌, ◌^◌, ◌≤◌, ◌<◌, ◌≡◌, ◌≢◌, refl, sym, ap, ◌∙◌, some, [], ◌∷◌, ◌++◌, length,
  take, drop, arith, length-append, take-length-append, drop-length-append,
}
use native.Mathlib.Nat.{zero-add, suc-add}
use twainet.Prelude.Bytes.{Bytes}
use twainet.Connector.Int32.{int_bytes, bytes_int-int_bytes, length-int_bytes}
use twainet.Connector.MessageHandler.{
  Messages, find_message, to_message, fault, handled, on_typed_data, on_data,
}

-- What is sent: the length of the name, the name, the message.
abbrev pub packet : Bytes → Bytes → Bytes
packet name body = int_bytes (length name) ++ (name ++ body)

take_all : (xs : Bytes) (n : ℕ) → n ≡ length xs → take n xs ≡ xs
take_all [] n e = rw e
take_all (x ∷ xs) n e = rw e (ap (◌∷◌ x) (take_all xs (length xs) refl))

pub length-packet : (name body : Bytes) → length (packet name body) ≡ 4 + length name + length body
length-packet name body = omega (
  arith,
  length-append (int_bytes (length name)) (name ++ body),
  length-int_bytes (length name),
  length-append name body,
)

pub to_message_lem :
    (name body : Bytes)
    → 4 + length name + length body < 2 ^ 31
    → to_message name body ≡ some (packet name body)
unfolding to_message
to_message_lem name body fits = ground (
  arith,
  fits,
  length-packet name body,
  take_all (packet name body) (4 + length name + length body),
)

drop_int : (n : ℕ) (r : Bytes) → drop 4 (int_bytes n ++ r) ≡ r
unfolding int_bytes
drop_int n r = refl

drop_plus : (m n : ℕ) (xs : Bytes) → drop (m + n) xs ≡ drop n (drop m xs)
drop_plus zero n xs = rw zero-add
drop_plus (suc m) n [] = rw suc-add (sym (drop_nil n))
  where
    drop_nil : (n : ℕ) → ◌≡◌ {A = Bytes} (drop n []) []
    drop_nil zero = refl
    drop_nil (suc n) = refl
drop_plus (suc m) n (x ∷ xs) = rw suc-add (drop_plus m n xs)

drop_header : (name body : Bytes) → drop (4 + length name) (packet name body) ≡ body
drop_header name body =
    drop_plus 4 (length name) (packet name body)
    ∙ ap (drop (length name)) (drop_int (length name) (name ++ body))
    ∙ drop-length-append name body

pos_length : (s : Bytes) → s ≢ [] → 0 < length s
pos_length [] ne = absurd (ne refl)
pos_length (b ∷ s) ne = omega arith

on_data-packet :
    (messages : Messages) (name body : Bytes)
    → name ≢ []
    → length name < 2 ^ 31 - 4
    → on_data messages (packet name body) ≡ on_typed_data messages name body
unfolding on_data
on_data-packet messages name body ne lt = ground (
  arith,
  length-packet name body,
  bytes_int-int_bytes (length name) (name ++ body) (omega arith),
  drop_int (length name) (name ++ body),
  drop_header name body,
  take-length-append name body,
  pos_length name ne,
)

-- A message with a name, as every message has, of which the length fits into an `int`, is handled by the object registered under that name
-- when the bytes that `toMessage` sends reach `onData`, and the object parses the message's bytes.
pub on_data-to_message :
    (messages : Messages) (name body : Bytes) (msg : ℕ)
    → name ≢ []
    → 4 + length name + length body < 2 ^ 31
    → find_message messages name ≡ some msg
    → (sent : Bytes) × (to_message name body ≡ some sent)
      × (on_data messages sent ≡ handled msg body)
unfolding on_typed_data
on_data-to_message messages name body msg ne fits found = (
  packet name body,
  to_message_lem name body fits,
  ground (arith, found, on_data-packet messages name body ne (omega arith)),
)

-- A peer that sends a negative length of the message's name ends the process: for every packet of
-- four bytes or more that begins so, `onData` reads or throws outside what it handles.
on_data-negative :
    (messages : Messages) (n : ℕ) (rest : Bytes)
    → 2 ^ 31 ≤ n
    → n < 2 ^ 32
    → on_data messages (int_bytes n ++ rest) ≡ fault
unfolding on_data
on_data-negative messages n rest lo hi =
    ground
      (arith, bytes_int-int_bytes n rest hi, length-append (int_bytes n) rest, length-int_bytes n)
