-- ===== src/Utils/Find.antt =====
-- `find` for a delimiter of one byte.
use twainet.Prelude.{
  ℕ, ◌+◌, ◌≡◌, ◌≢◌, refl, none, some, [], ◌∷◌, ◌++◌, arith, length, All, length-append,
  drop-length-append, take-length-append,
}
use twainet.Prelude.Bytes.{Bytes}
use twainet.Utils.{c_str, find_in, find, slice}

-- The byte `c` does not occur in the text.
abbrev pub Lacks : ℕ → Bytes → Type 0
Lacks c s = All (λ b. b ≢ c) s

pub find_in-hit :
    (c : ℕ) (x rest : Bytes) → Lacks c x → find_in (x ++ c ∷ rest) (c ∷ []) ≡ some (length x)
unfolding find_in
find_in-hit c [] rest h = ground arith
find_in-hit c (b ∷ x) rest h = ground (arith, find_in-hit c x rest h.1, h.0)

pub find_in-miss : (c : ℕ) (x : Bytes) → Lacks c x → find_in x (c ∷ []) ≡ none
unfolding find_in
find_in-miss c [] h = refl
find_in-miss c (b ∷ x) h = ground (arith, find_in-miss c x h.1, h.0)

pub find-hit :
    (c : ℕ) (p x rest : Bytes)
    → c ≢ 0
    → Lacks c x
    → find (p ++ (x ++ c ∷ rest)) (c ∷ []) (length p) ≡ some (length p + length x)
unfolding find c_str
find-hit c p x rest nz h = ground (
  arith,
  nz,
  drop-length-append p (x ++ c ∷ rest),
  find_in-hit c x rest h,
  length-append p (x ++ c ∷ rest),
)

pub find-miss : (c : ℕ) (p x : Bytes) → c ≢ 0 → Lacks c x → find (p ++ x) (c ∷ []) (length p) ≡ none
unfolding find c_str
find-miss c p x nz h =
    ground (arith, nz, drop-length-append p x, find_in-miss c x h, length-append p x)

pub slice-append :
    (p x rest : Bytes) → slice (p ++ (x ++ rest)) (length p) (length p + length x) ≡ x
slice-append p x rest = ground (arith, drop-length-append p (x ++ rest), take-length-append x rest)
