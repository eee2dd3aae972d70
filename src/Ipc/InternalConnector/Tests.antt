-- ===== src/Ipc/InternalConnector/Tests.antt =====
-- The theorem on internal connections at one that carries a short text.
use twainet.Prelude.{ℕ, ◌≡◌, ◌⊎◌, refl, true, false, List, [], ◌∷◌}
use twainet.Prelude.Bytes.{Bytes, codes, str_eq}
use twainet.Connector.TcpSocket.{tcp_send}
use twainet.Connector.Stream.Delivery.{IsPrefix}
use twainet.Ipc.InternalConnector.{
  InternalConnectionData, InternalEnd, internal_thread_func, take_messages, messages_of, bytes_of,
  on_internal_connection_data_message, internal_thread_func-take_messages,
}

abbrev data_of : Bytes → Bytes → InternalConnectionData
data_of id bytes = record { id = id; data_ = bytes }

abbrev receiver : InternalEnd
receiver = record { end_id = codes "i1"; is_open = true }

-- The second send fails behind one byte, and the third one meets a closed socket.
abbrev arriving : List (List ℕ × InternalConnectionData)
arriving =
    (2 ∷ 9 ∷ [], data_of (codes "i1") (codes "hel"))
    ∷ (9 ∷ [], data_of (codes "i2") (codes "other"))
    ∷ (1 ∷ 0 ∷ [], data_of (codes "i1") (codes "lo "))
    ∷ (9 ∷ [], data_of (codes "i1") (codes "you"))
    ∷ []

arriving_read :
    messages_of (codes "i1") arriving
    ≡ internal_thread_func (codes "i1") 3 5 (9 ∷ 9 ∷ 3 ∷ []) (codes "hello you, there")
unfolding messages_of internal_thread_func str_eq
arriving_read = refl

arriving_sent :
    take_messages receiver arriving ≡ (record receiver { is_open = false }, codes "hell")
unfolding take_messages on_internal_connection_data_message tcp_send str_eq
arriving_sent = refl

internal_thread_func-take_messages_example :
    let (e', sent) = take_messages receiver arriving in
    IsPrefix sent (codes "hello you, there")
    × ((e'.is_open ≡ false) ⊎ (sent ≡ bytes_of (messages_of (codes "i1") arriving)))
internal_thread_func-take_messages_example =
    internal_thread_func-take_messages receiver arriving 3 5 (9 ∷ 9 ∷ 3 ∷ [])
      (codes "hello you, there") refl arriving_read
