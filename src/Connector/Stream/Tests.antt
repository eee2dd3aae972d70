-- ===== src/Connector/Stream/Tests.antt =====
-- The theorems on the reading loop at a connection that carries two messages.
use twainet.Prelude.{ℕ, ◌≡◌, ◌≤◌, ◌++◌, refl, List, [], ◌∷◌, arith, length, false, All}
use twainet.Prelude.Bytes.{Bytes, codes, str_eq}
use twainet.Connector.Int32.{int_bytes, bytes_int}
use twainet.Connector.MessageHandler.{Messages, on_data, on_typed_data, find_message}
use twainet.Connector.Stream.{thread_func, is_fault, frame}
use twainet.Connector.Stream.Delivery.{frames, IsPrefix, thread_func-IsPrefix, thread_func_total}

-- A message that the peer knows, and one that it does not.
abbrev registered : Messages
registered = (codes "hi", 3) ∷ []

-- Each is the length of a name, the name, and a body.
abbrev sent : List Bytes
sent = (2 ∷ 0 ∷ 0 ∷ 0 ∷ 104 ∷ 105 ∷ []) ∷ (3 ∷ 0 ∷ 0 ∷ 0 ∷ 121 ∷ 111 ∷ 117 ∷ 33 ∷ []) ∷ []

-- The connection is lost within the second message.
abbrev arrived : Bytes
arrived = 6 ∷ 0 ∷ 0 ∷ 0 ∷ 2 ∷ 0 ∷ 0 ∷ 0 ∷ 104 ∷ 105 ∷ 8 ∷ 0 ∷ []

abbrev lost : Bytes
lost = 0 ∷ 0 ∷ 3 ∷ 0 ∷ 0 ∷ 0 ∷ 121 ∷ 111 ∷ 117 ∷ 33 ∷ []

arrived_first : arrived ++ lost ≡ frames sent
unfolding frames frame int_bytes
arrived_first = refl

thread_func-IsPrefix_example : IsPrefix (thread_func registered 5 (3 ∷ 1 ∷ 9 ∷ 2 ∷ []) arrived) sent
thread_func-IsPrefix_example =
    thread_func-IsPrefix registered sent 5 (3 ∷ 1 ∷ 9 ∷ 2 ∷ []) arrived lost (ground arith)
      arrived_first

abbrev calls : List ℕ
calls = 1 ∷ 1 ∷ 1 ∷ 1 ∷ 1 ∷ 1 ∷ 1 ∷ 1 ∷ 1 ∷ 1 ∷ 1 ∷ 1 ∷ 1 ∷ 1 ∷ 1 ∷ 1 ∷ 1 ∷ 1 ∷ 1 ∷ 1 ∷ 1 ∷ 1 ∷ []

sent_sound : All (λ p. is_fault (on_data registered p) ≡ false) sent
unfolding on_data on_typed_data find_message str_eq bytes_int
sent_sound = (refl, (refl, tt))

length-sent : length (frames sent) ≤ length calls
unfolding frames frame int_bytes
length-sent = omega arith

thread_func_total_example : thread_func registered 2 calls (frames sent) ≡ sent
thread_func_total_example =
    thread_func_total registered sent 2 calls (ground arith) sent_sound (omega arith) (ground arith)
      length-sent
