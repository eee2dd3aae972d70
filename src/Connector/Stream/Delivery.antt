-- ===== src/Connector/Stream/Delivery.antt =====
-- What the reading loop delivers of the messages that the peer sent.
use twainet.Prelude.{
  ℕ, zero, suc, ◌+◌, ◌^◌, ◌≤◌, ◌<◌, ◌≡◌, refl, sym, ap, ◌∙◌, some, List, [], ◌∷◌, ◌++◌, length,
  arith, append_assoc, false, append-nil, ◌||◌, leb, ltb, length-append, All, Option-cases,
  Bool-cases, inl, inr, take-length-append, drop-length-append, ◌⊎◌,
}
use twainet.Prelude.Bytes.{Bytes}
use twainet.Connector.Int32.{int_bytes, bytes_int, bytes_int-int_bytes, length-int_bytes}
use twainet.Connector.TcpSocket.{tcp_recv}
use twainet.Connector.TcpSocket.Transfer.{tcp_recv_sound, tcp_recv_total}
use twainet.Connector.MessageHandler.{Messages, on_data}
use twainet.Connector.Stream.{max_data_len, frame, thread_func, is_fault}

-- The bytes of the messages `ps`, sent one after the other.
unfoldable pub frames : List Bytes → Bytes
frames [] = []
frames (p ∷ ps) = frame p ++ frames ps

-- `xs` is how `ys` begins.
abbrev pub IsPrefix {ℓ} : {A : Type ℓ} → List A → List A → Type ℓ
IsPrefix {A} xs ys = (rest : List A) × (ys ≡ xs ++ rest)

-- The length is one that the reader accepts.
abbrev pub IsShort : Bytes → Type 0
IsShort p = length p ≤ max_data_len

split_eq : (a b x y : Bytes) → length a ≡ length b → a ++ x ≡ b ++ y → (a ≡ b) × (x ≡ y)
split_eq [] [] x y l e = (refl, e)
split_eq [] (d ∷ b) x y l e = absurd (omega arith)
split_eq (c ∷ a) [] x y l e = absurd (omega arith)
split_eq (c ∷ a) (d ∷ b) x y l e = ground (arith, split_eq a b x y)

-- `Recv` on a connection of which the end may be lost.
recv_split :
    (calls : List ℕ) (stream lost a y : Bytes) (n : ℕ) {buffer stream' : Bytes} {calls' : List ℕ}
    → stream ++ lost ≡ a ++ y
    → length a ≡ n
    → tcp_recv calls stream n ≡ some (buffer, stream', calls')
    → (buffer ≡ a) × (stream' ++ lost ≡ y)
recv_split calls stream lost a y n {buffer} {stream'} e la found =
    let (p, l) = tcp_recv_sound calls stream n found in
    split_eq buffer a (stream' ++ lost) y (l ∙ sym la)
      (sym (append_assoc buffer stream' lost) ∙ sym (ap (λ s. s ++ lost) p) ∙ e)

recv_empty :
    (calls : List ℕ) (stream lost : Bytes) (n : ℕ) {r : Bytes × Bytes × List ℕ}
    → stream ++ lost ≡ []
    → 0 < n
    → tcp_recv calls stream n ≡ some r
    → ⊥
recv_empty calls [] lost n {r} e pos found =
    let (p, l) = tcp_recv_sound calls [] n {buffer = r.0} {stream' = r.1} {calls' = r.2} found in
    omega (arith, ap length p, length-append r.0 r.1)
recv_empty calls (x ∷ stream) lost n e pos found = ground arith

-- The loop on a next message.
thread_func_round :
    (messages : Messages) (rounds : ℕ) (calls : List ℕ) (stream lost p y : Bytes)
    → length p < 2 ^ 32
    → stream ++ lost ≡ frame p ++ y
    → (thread_func messages (suc rounds) calls stream ≡ [])
      ⊎ ((thread_func messages (suc rounds) calls stream ≡ p ∷ []) × IsShort p)
      ⊎ ((calls' : List ℕ) × (stream' : Bytes) × (thread_func messages (suc rounds) calls stream
            ≡ p ∷ thread_func messages rounds calls' stream')
          × (stream' ++ lost ≡ y)
          × IsShort p)
unfolding thread_func frame
thread_func_round messages rounds calls stream lost p y lt e =
    elim (Option-cases (tcp_recv calls stream 4)) [
      | inl cut ↦ inl (rw (cut, thread_func))
      | inr ((b, s, c), found) ↦
          let n = length p in
          let (header, body) =
            recv_split calls stream lost (int_bytes n) (p ++ y) 4
              (e ∙ append_assoc (int_bytes n) p y) (length-int_bytes n) found in
          let len : bytes_int b ≡ n =
            ap bytes_int header
            ∙ ap bytes_int (sym (append-nil (int_bytes n)))
            ∙ bytes_int-int_bytes n [] lt in
          elim (Option-cases (tcp_recv c s n)) [
            | inl cut ↦ inl (ground (arith, found, len, cut))
            | inr ((d, s', c'), found') ↦
                let (payload, rest) = recv_split c s lost p y n body refl found' in
                elim (Bool-cases (leb (2 ^ 31) n || ltb max_data_len n)) [
                  | inl long ↦ inl (ground (arith, found, len, long))
                  | inr short ↦ elim (Bool-cases (is_fault (on_data messages p))) [
                    | inl last ↦ inr (
                        inl
                          (ground (arith, found, len, found', payload, short, last), ground arith))
                    | inr passed ↦ inr (
                        inr (
                          c',
                          s',
                          ground (arith, found, len, found', payload, short, passed),
                          rest,
                          ground arith,
                        ))
                  ]
                ]
          ]
    ]

thread_func_stopped :
    (messages : Messages) (calls : List ℕ) (stream : Bytes)
    → thread_func messages 0 calls stream ≡ []
unfolding thread_func
thread_func_stopped messages calls stream = refl

thread_func_end :
    (messages : Messages) (rounds : ℕ) (calls : List ℕ) (stream lost : Bytes)
    → stream ++ lost ≡ []
    → thread_func messages rounds calls stream ≡ []
unfolding thread_func
thread_func_end messages zero calls stream lost e = refl
thread_func_end messages (suc rounds) calls stream lost e =
    elim (Option-cases (tcp_recv calls stream 4)) [
      | inl cut ↦ rw (cut, thread_func)
      | inr (r, found) ↦ absurd (recv_empty calls stream lost 4 e (omega arith) found)
    ]

-- Whatever part of the stream arrives, however it is split, and whenever the loop is stopped: the
-- payloads that are delivered are the first of those that were sent, unchanged and in order.
pub thread_func-IsPrefix :
    (messages : Messages) (ps : List Bytes) (rounds : ℕ) (calls : List ℕ) (stream lost : Bytes)
    → All (λ p. length p < 2 ^ 32) ps
    → stream ++ lost ≡ frames ps
    → IsPrefix (thread_func messages rounds calls stream) ps
unfolding frames
thread_func-IsPrefix messages ps zero calls stream lost hs e =
    (ps, ap (λ xs. xs ++ ps) (sym (thread_func_stopped messages calls stream)))
thread_func-IsPrefix messages [] (suc rounds) calls stream lost hs e =
    ([], ap (λ xs. xs ++ []) (sym (thread_func_end messages (suc rounds) calls stream lost e)))
thread_func-IsPrefix messages (p ∷ ps) (suc rounds) calls stream lost hs e =
    elim (thread_func_round messages rounds calls stream lost p (frames ps) hs.0 e) [
      | inl stopped ↦ (p ∷ ps, ap (λ xs. xs ++ p ∷ ps) (sym stopped))
      | inr (inl (last, short)) ↦ (ps, ap (λ xs. xs ++ ps) (sym last))
      | inr (inr (calls', stream', round, rest, short)) ↦
          let (later, q) = thread_func-IsPrefix messages ps rounds calls' stream' lost hs.1 rest in
          (later, ap (◌∷◌ p) q ∙ ap (λ xs. xs ++ later) (sym round))
    ]

-- The length of a message is not tested where it is sent. A message over `MAX_DATA_LEN` ends the
-- reader's loop: neither it nor anything sent after it is delivered.
thread_func-long :
    (messages : Messages) (ps : List Bytes) (long : Bytes) (later : List Bytes) (rounds : ℕ)
    (calls : List ℕ) (stream lost : Bytes)
    → All (λ p. length p < 2 ^ 32) ps
    → length long < 2 ^ 32
    → max_data_len < length long
    → stream ++ lost ≡ frames (ps ++ long ∷ later)
    → IsPrefix (thread_func messages rounds calls stream) ps
unfolding frames
thread_func-long messages ps long later zero calls stream lost hs lt big e =
    (ps, ap (λ xs. xs ++ ps) (sym (thread_func_stopped messages calls stream)))
thread_func-long messages [] long later (suc rounds) calls stream lost hs lt big e =
    elim (thread_func_round messages rounds calls stream lost long (frames later) lt e) [
      | inl stopped ↦ ([], ap (λ xs. xs ++ []) (sym stopped))
      | inr (inl (last, short)) ↦ absurd (omega arith)
      | inr (inr (calls', stream', round, rest, short)) ↦ absurd (omega arith)
    ]
thread_func-long messages (p ∷ ps) long later (suc rounds) calls stream lost hs lt big e =
    elim (thread_func_round messages rounds calls stream lost p (frames (ps ++ long ∷ later)) hs.0
      e) [
        | inl stopped ↦ (p ∷ ps, ap (λ xs. xs ++ p ∷ ps) (sym stopped))
        | inr (inl (last, short)) ↦ (ps, ap (λ xs. xs ++ ps) (sym last))
        | inr (inr (calls', stream', round, rest, short)) ↦
            let (later', q) =
              thread_func-long messages ps long later rounds calls' stream' lost hs.1 lt big rest in
            (later', ap (◌∷◌ p) q ∙ ap (λ xs. xs ++ later') (sym round))
      ]

length-frame : (p : Bytes) → length (frame p) ≡ 4 + length p
unfolding frame
length-frame p = omega (arith, length-append (int_bytes (length p)) p, length-int_bytes (length p))

-- `Recv` of a first part, where every call moves something and there are calls enough.
recv_first :
    (calls : List ℕ) (a y : Bytes) (n : ℕ)
    → n ≡ length a
    → All (λ k. 0 < k) calls
    → length (a ++ y) ≤ length calls
    → (calls' : List ℕ) × (tcp_recv calls (a ++ y) n ≡ some (a, y, calls'))
      × All (λ k. 0 < k) calls'
      × (length y ≤ length calls')
recv_first calls a y n e pos enough =
    let (calls', found, pos', left) =
      tcp_recv_total calls (a ++ y) n pos (omega (arith, length-append a y)) enough in
    (
      calls',
      ground (arith, found, take-length-append a y, drop-length-append a y),
      pos',
      omega (arith, length-append a y),
    )

thread_func_step :
    (messages : Messages) (rounds : ℕ) (calls : List ℕ) (p y : Bytes)
    → IsShort p
    → is_fault (on_data messages p) ≡ false
    → All (λ k. 0 < k) calls
    → length (frame p ++ y) ≤ length calls
    → (calls' : List ℕ) × (thread_func messages (suc rounds) calls (frame p ++ y)
        ≡ p ∷ thread_func messages rounds calls' y)
      × All (λ k. 0 < k) calls'
      × (length y ≤ length calls')
unfolding thread_func frame
thread_func_step messages rounds calls p y short sound pos enough =
    let n = length p in
    let regroup = append_assoc (int_bytes n) p y in
    let (c, found, pos1, enough1) =
      recv_first calls (int_bytes n) (p ++ y) 4 (sym (length-int_bytes n)) pos
        (rw regroup at enough) in
    let (c', found', pos2, enough2) = recv_first c p y n refl pos1 enough1 in
    let len : bytes_int (int_bytes n) ≡ n =
      ap bytes_int (sym (append-nil (int_bytes n))) ∙ bytes_int-int_bytes n [] (omega arith) in
    (c', ground (arith, regroup, found, found', len, sound), pos2, enough2)

-- Messages of at most `MAX_DATA_LEN` bytes, none of which makes `onData` throw or read outside its
-- buffer, are all delivered, each once and in order, if the loop is not stopped before and no call of
-- `recv` fails before all bytes are read.
pub thread_func_total :
    (messages : Messages) (ps : List Bytes) (rounds : ℕ) (calls : List ℕ)
    → All IsShort ps
    → All (λ p. is_fault (on_data messages p) ≡ false) ps
    → length ps ≤ rounds
    → All (λ k. 0 < k) calls
    → length (frames ps) ≤ length calls
    → thread_func messages rounds calls (frames ps) ≡ ps
unfolding frames
thread_func_total messages [] rounds calls hs fs le pos enough =
    thread_func_end messages rounds calls [] [] refl
thread_func_total messages (p ∷ ps) zero calls hs fs le pos enough = absurd (omega arith)
thread_func_total messages (p ∷ ps) (suc rounds) calls hs fs le pos enough =
    let (calls', step, pos', enough') =
      thread_func_step messages rounds calls p (frames ps) hs.0 fs.0 pos enough in
    step
    ∙ ap (◌∷◌ p) (thread_func_total messages ps rounds calls' hs.1 fs.1 (omega arith) pos' enough')
