-- ===== src/Connector/TcpSocket/Transfer.antt =====
-- The bytes of a transfer that the system splits over several calls of `send` and `recv`.
use Prim.Native.Nat.{min}
use twainet.Prelude.{
  ℕ, zero, suc, ◌+◌, ◌-◌, ◌≤◌, ◌<◌, ◌≡◌, refl, ap, true, some, List, [], ◌∷◌, ◌++◌, length, take,
  drop, arith, append_assoc, length-append, All, Option-cases, Bool-cases, inl, inr, sym, ◌∙◌, ◌==◌,
}
use native.Mathlib.Nat.{zero-add, suc-add}
use twainet.Prelude.Bytes.{Bytes}
use twainet.Connector.TcpSocket.{tcp_send, tcp_recv}

pub take-append-drop : (n : ℕ) (xs : Bytes) → take n xs ++ drop n xs ≡ xs
take-append-drop zero xs = refl
take-append-drop (suc n) [] = refl
take-append-drop (suc n) (x ∷ xs) = ap (◌∷◌ x) (take-append-drop n xs)

pub length-take : (n : ℕ) (xs : Bytes) → length (take n xs) ≡ min n (length xs)
length-take zero xs = omega arith
length-take (suc n) [] = omega arith
length-take (suc n) (x ∷ xs) = omega (arith, length-take n xs)

pub length-drop : (n : ℕ) (xs : Bytes) → length (drop n xs) ≡ length xs - n
length-drop zero xs = omega arith
length-drop (suc n) [] = omega arith
length-drop (suc n) (x ∷ xs) = omega (arith, length-drop n xs)

nil_of_length : (xs : Bytes) → length xs ≡ 0 → xs ≡ []
nil_of_length [] e = refl
nil_of_length (x ∷ xs) e = absurd (omega arith)

-- When `Recv` succeeds its buffer is the next `len` bytes of the stream, and the rest is still to
-- come, whatever amounts the system delivered.
pub tcp_recv_sound :
    (calls : List ℕ) (stream : Bytes) (len : ℕ) {buffer stream' : Bytes} {calls' : List ℕ}
    → tcp_recv calls stream len ≡ some (buffer, stream', calls')
    → (stream ≡ buffer ++ stream') × (length buffer ≡ len)
unfolding tcp_recv
tcp_recv_sound [] stream len e = ground arith
tcp_recv_sound (k ∷ calls) stream len {buffer} {stream'} {calls'} e =
    let res = min (min k len) (length stream) in
    elim (Option-cases (tcp_recv calls (drop res stream) (len - res))) [
      | inl no_rest ↦ ground arith
      | inr ((b, s, c), found) ↦ ground (
        arith,
        tcp_recv_sound calls (drop res stream) (len - res) found,
        take-append-drop res stream,
        length-take res stream,
        append_assoc (take res stream) b s,
        length-append (take res stream) b,
      )
    ]

take-take : (m n : ℕ) (xs : Bytes) → take m xs ++ take n (drop m xs) ≡ take (m + n) xs
take-take zero n xs = rw zero-add
take-take (suc m) zero [] = rw suc-add
take-take (suc m) (suc n) [] = rw suc-add
take-take (suc m) n (x ∷ xs) = rw suc-add (ap (◌∷◌ x) (take-take m n xs))

drop-drop : (m n : ℕ) (xs : Bytes) → drop n (drop m xs) ≡ drop (m + n) xs
drop-drop zero n xs = rw zero-add
drop-drop (suc m) zero [] = rw suc-add
drop-drop (suc m) (suc n) [] = rw suc-add
drop-drop (suc m) n (x ∷ xs) = rw suc-add (drop-drop m n xs)

-- Where every call moves something and there are calls enough, `Recv` succeeds once the bytes are
-- there, and leaves calls enough for the rest.
pub tcp_recv_total :
    (calls : List ℕ) (stream : Bytes) (len : ℕ)
    → All (λ k. 0 < k) calls
    → len ≤ length stream
    → length stream ≤ length calls
    → (calls' : List ℕ) × (tcp_recv calls stream len
        ≡ some (take len stream, drop len stream, calls'))
      × All (λ k. 0 < k) calls'
      × (length stream ≤ length calls' + len)
unfolding tcp_recv
tcp_recv_total [] stream zero pos le enough = ([], refl, tt, omega arith)
tcp_recv_total [] stream (suc len) pos le enough = absurd (omega arith)
tcp_recv_total (k ∷ calls) stream zero pos le enough = (k ∷ calls, refl, pos, omega arith)
tcp_recv_total (k ∷ calls) stream (suc len) pos le enough =
    let res = min (min k (suc len)) (length stream) in
    let (calls', found, pos', enough') =
      tcp_recv_total calls (drop res stream) (suc len - res) pos.1
        (omega (arith, length-drop res stream)) (omega (arith, length-drop res stream)) in
    (
      calls',
      ground (
        arith,
        found,
        take-take res (suc len - res) stream,
        drop-drop res (suc len - res) stream,
      ),
      pos',
      omega (arith, length-drop res stream),
    )

-- When `Send` succeeds the system has taken exactly the data, in order.
pub tcp_send_sound :
    (calls : List ℕ) (unsent : Bytes)
    → (tcp_send calls unsent).0 ≡ true
    → (tcp_send calls unsent).1 ≡ unsent
unfolding tcp_send
tcp_send_sound [] unsent h = ground (arith, nil_of_length unsent)
tcp_send_sound (k ∷ calls) unsent h =
    let res = min k (length unsent) in
    ground (
      arith,
      nil_of_length unsent,
      tcp_send_sound calls (drop res unsent),
      take-append-drop res unsent,
    )

-- Whether `Send` succeeds or not, the system has taken the first bytes of the data.
pub tcp_send-starts :
    (calls : List ℕ) (unsent : Bytes)
    → (rest : Bytes) × (unsent ≡ (tcp_send calls unsent).1 ++ rest)
unfolding tcp_send
tcp_send-starts [] unsent = (unsent, refl)
tcp_send-starts (k ∷ calls) unsent =
    let res = min k (length unsent) in
    let sent = (tcp_send calls (drop res unsent)).1 in
    let (rest, e) = tcp_send-starts calls (drop res unsent) in
    elim (Bool-cases (length unsent == 0)) [
      | inl empty ↦ (unsent, ground (arith, empty))
      | inr some_left ↦ elim (Bool-cases (res == 0)) [
        | inl failed ↦ (unsent, ground (arith, failed, some_left))
        | inr moved ↦
            let split =
              sym (take-append-drop res unsent)
              ∙ (ap (λ xs. take res unsent ++ xs) e
                  ∙ sym (append_assoc (take res unsent) sent rest)) in
            (rest, ground (arith, split, moved, some_left))
      ]
    ]
