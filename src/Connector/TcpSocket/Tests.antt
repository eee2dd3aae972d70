-- ===== src/Connector/TcpSocket/Tests.antt =====
-- The theorems on `Send` and `Recv` where the system splits the transfer.
use twainet.Prelude.{
  ℕ, ◌≡◌, ◌≤◌, ◌<◌, ◌+◌, refl, some, List, [], ◌∷◌, arith, All, length, take, drop,
}
use twainet.Prelude.Bytes.{Bytes}
use twainet.Connector.TcpSocket.{tcp_recv}
use twainet.Connector.TcpSocket.Transfer.{tcp_recv_total}

abbrev five : Bytes
five = 1 ∷ 2 ∷ 3 ∷ 4 ∷ 5 ∷ []

recv_three : tcp_recv (2 ∷ 2 ∷ 9 ∷ []) five 3 ≡ some (1 ∷ 2 ∷ 3 ∷ [], 4 ∷ 5 ∷ [], 9 ∷ [])
unfolding tcp_recv
recv_three = refl

tcp_recv_total_example :
    (calls' : List ℕ) × (tcp_recv (1 ∷ 2 ∷ 1 ∷ 4 ∷ 1 ∷ []) five 3
      ≡ some (take 3 five, drop 3 five, calls'))
    × All (λ k. 0 < k) calls'
    × (length five ≤ length calls' + 3)
tcp_recv_total_example =
    tcp_recv_total (1 ∷ 2 ∷ 1 ∷ 4 ∷ 1 ∷ []) five 3 (ground arith) (omega arith) (omega arith)
