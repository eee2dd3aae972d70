-- ===== src/Utils/Delimit.antt =====
-- What `DelimitString` returns for a delimiter of one byte, the only kind that the program uses.
use twainet.Prelude.{
  ℕ, zero, suc, ◌+◌, ◌^◌, ◌≤◌, ◌<◌, ◌≡◌, refl, ap, ◌∙◌, some, List, [], ◌∷◌, ◌++◌, ◌≢◌, arith,
  length, drop, All, length-append, append_assoc, append-nil, is_empty, if◌then◌else◌, ◌==◌,
}
use twainet.Prelude.Bytes.{Bytes}
use twainet.Utils.{delimit_loop, delimit_string, slice}
use twainet.Utils.Find.{Lacks, find-hit, find-miss, slice-append}
use native.Mathlib.Decide.{ℕ_discrete}
use native.Mathlib.Nat.{zero-add, suc-add}

-- The text whose segments are `xs` and then `last`.
abbrev pub join : ℕ → List Bytes → Bytes → Bytes
join c [] last = last
join c (x ∷ xs) last = x ++ c ∷ join c xs last

-- The number of bytes before the last segment.
abbrev span : List Bytes → ℕ
span [] = 0
span (x ∷ xs) = length x + suc (span xs)

abbrev pub nonempty : List Bytes → List Bytes
nonempty [] = []
nonempty (x ∷ xs) = if is_empty x then nonempty xs else x ∷ nonempty xs

module _ (c : ℕ) (nz : c ≢ 0) where
  length-join : (xs : List Bytes) (last : Bytes) → length (join c xs last) ≡ span xs + length last
  length-join [] last = omega arith
  length-join (x ∷ xs) last =
      omega (arith, length-append x (c ∷ join c xs last), length-join xs last)

  drop-join : (xs : List Bytes) (last : Bytes) → drop (span xs) (join c xs last) ≡ last
  drop-join [] last = refl
  drop-join (x ∷ xs) last = drop_past x (join c xs last) (span xs) ∙ drop-join xs last
    where
      drop_past : (x r : Bytes) (n : ℕ) → drop (length x + suc n) (x ++ c ∷ r) ≡ drop n r
      drop_past [] r n = rw zero-add
      drop_past (b ∷ x) r n = rw suc-add (drop_past x r n)

  drop-append : (p r : Bytes) (n : ℕ) → drop (length p + n) (p ++ r) ≡ drop n r
  drop-append [] r n = rw zero-add
  drop-append (b ∷ p) r n = rw suc-add (drop-append p r n)

  pushed :
      (p x rest : Bytes) (dest : List Bytes)
      → (if length p == length p + length x
          then dest
          else dest ++ slice (p ++ (x ++ c ∷ rest)) (length p) (length p + length x) ∷ [])
        ≡ (if is_empty x then dest else dest ++ x ∷ [])
  pushed p [] rest dest = ground arith
  pushed p (b ∷ x) rest dest = ground (arith, slice-append p (b ∷ x) (c ∷ rest))

  -- One round that finds a delimiter.
  delimit_loop_hit :
      (fuel : ℕ) (p x rest : Bytes) (dest : List Bytes)
      → Lacks c x
      → delimit_loop (suc fuel) (p ++ (x ++ c ∷ rest)) (c ∷ []) (length p) dest
        ≡ delimit_loop fuel
            (p ++ (x ++ c ∷ rest))
            (c ∷ [])
            (length p + length x + 1)
            (if is_empty x then dest else dest ++ x ∷ [])
  unfolding delimit_loop
  delimit_loop_hit fuel p x rest dest h =
      rw (find-hit c p x rest nz h, delimit_loop)
        (ap (delimit_loop fuel (p ++ (x ++ c ∷ rest)) (c ∷ []) (length p + length x + 1))
          (pushed p x rest dest))

  delimit_loop_miss :
      (fuel : ℕ) (p last : Bytes) (dest : List Bytes)
      → Lacks c last
      → delimit_loop (suc fuel) (p ++ last) (c ∷ []) (length p) dest ≡ some (length p, dest)
  unfolding delimit_loop
  delimit_loop_miss fuel p last dest h = rw (find-miss c p last nz h, delimit_loop)

  delimit_loop-join :
      (xs : List Bytes) (last p : Bytes) (fuel : ℕ) (dest : List Bytes)
      → All (Lacks c) xs
      → Lacks c last
      → length xs < fuel
      → delimit_loop fuel (p ++ join c xs last) (c ∷ []) (length p) dest
        ≡ some (length p + span xs, dest ++ nonempty xs)
  delimit_loop-join xs last p zero dest hs h lt = elim lt [ ]
  delimit_loop-join [] last p (suc fuel) dest hs h lt =
      ground (arith, delimit_loop_miss fuel p last dest h, append-nil dest)
  delimit_loop-join (x ∷ xs) last p (suc fuel) dest hs h lt = ground (
    arith,
    delimit_loop_hit fuel p x (join c xs last) dest hs.0,
    delimit_loop-join xs last (p ++ (x ++ c ∷ [])) fuel dest hs.1 h (omega arith),
    delimit_loop-join xs last (p ++ (x ++ c ∷ [])) fuel (dest ++ x ∷ []) hs.1 h (omega arith),
    append_assoc p (x ++ c ∷ []) (join c xs last),
    append_assoc x (c ∷ []) (join c xs last),
    length-append p (x ++ c ∷ []),
    length-append x (c ∷ []),
    append_assoc dest (x ∷ []) (nonempty xs),
  )

  length-le : (xs : List Bytes) → length xs ≤ span xs
  length-le [] = omega arith
  length-le (x ∷ xs) = omega (arith, length-le xs)

  -- Of a text below 2 ^ 64 bytes, cut at every `c`, which is not NUL, `DelimitString` returns the segments that are not
  -- empty in order, except that the last segment is kept whenever it is not exactly one byte long:
  -- it is kept when empty, and dropped when it is a single byte.
  pub delimit_string-join :
      (xs : List Bytes) (last : Bytes)
      → All (Lacks c) xs
      → Lacks c last
      → length (join c xs last) < 2 ^ 64
      → delimit_string (join c xs last) (c ∷ [])
        ≡ some (if length last == 1 then nonempty xs else nonempty xs ++ last ∷ [])
  unfolding delimit_string
  delimit_string-join xs last hs h lt = ground (
    arith,
    delimit_loop-join xs last [] (length (join c xs last) + 2) [] hs h
        (omega (arith, length-join xs last, length-le xs)),
    length-join xs last,
    drop-join xs last,
  )

-- A text as its segments.
abbrev Cut : ℕ → Bytes → Type 0
Cut c s =
    (xs : List Bytes) × (last : Bytes) × (s ≡ join c xs last) × All (Lacks c) xs × Lacks c last

Cut-cons : (c b : ℕ) (s : Bytes) → b ≢ c → Cut c s → Cut c (b ∷ s)
Cut-cons c b s ne ([], last, e, hs, h) = ([], b ∷ last, ap (◌∷◌ b) e, hs, (ne, h))
Cut-cons c b s ne (x ∷ xs, last, e, hs, h) =
    ((b ∷ x) ∷ xs, last, ap (◌∷◌ b) e, ((ne, hs.0), hs.1), h)

pub cut : (c : ℕ) (s : Bytes) → Cut c s
cut c [] = ([], [], refl, tt, tt)
cut c (b ∷ s) = elim (ℕ_discrete b c) [
  | yes e ↦ let (xs, last, p, hs, h) = cut c s in ([] ∷ xs, last, ground arith, (tt, hs), h)
  | no ne ↦ Cut-cons c b s ne (cut c s)
]

-- With a delimiter of one byte that is not NUL `DelimitString` returns on every text below 2 ^ 64 bytes.
delimit_string_total :
    (c : ℕ) (s : Bytes)
    → c ≢ 0
    → length s < 2 ^ 64
    → (dest : List Bytes) × (delimit_string s (c ∷ []) ≡ some dest)
delimit_string_total c s nz lt =
    let (xs, last, e, hs, h) = cut c s in
    (
      (if length last == 1 then nonempty xs else nonempty xs ++ last ∷ []),
      ap (λ t. delimit_string t (c ∷ [])) e ∙ delimit_string-join c nz xs last hs h (rw e at lt),
    )
