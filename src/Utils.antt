-- ===== src/Utils.antt =====
-- src/cpp/utils/utils.cpp: `CommonUtils::DelimitString` and `CommonUtils::ConcatString`. A
-- `size_t` position is a number, and `std::string::npos` is `none`.
pub mod Find
pub mod Delimit
pub mod Concat
mod Tests
use twainet.Prelude.{
  ℕ, zero, suc, ◌+◌, ◌-◌, ◌%◌, ◌^◌, Bool, true, false, Option, none, some, List, [], ◌∷◌, ◌++◌,
  length, take, drop, leb, ltb, ◌==◌, if◌then◌else◌,
}
use twainet.Prelude.Bytes.{Bytes}
use mathlib.Core.Option

unfoldable pub is_prefix : Bytes → Bytes → Bool
is_prefix [] s = true
is_prefix (a ∷ d) [] = false
is_prefix (a ∷ d) (b ∷ s) = if a == b then is_prefix d s else false

-- The first position in `s` at which `d` stands.
unfoldable pub find_in : Bytes → Bytes → Option ℕ
unfolding is_prefix
find_in [] d = if is_prefix d [] then some 0 else none
find_in (c ∷ s) d = if is_prefix d (c ∷ s) then some 0 else Option.map suc (find_in s d)

-- What `s.c_str()` is to `find` and `append`: the bytes before the first NUL.
unfoldable pub c_str : Bytes → Bytes
c_str [] = []
c_str (b ∷ s) = let rest = c_str s in if b == 0 then [] else b ∷ rest

-- `src.find(delimit.c_str(), begin)`.
unfoldable pub find : Bytes → Bytes → ℕ → Option ℕ
unfolding c_str
find src d begin =
    if leb begin (length src)
    then Option.map (λ i. begin + i) (find_in (drop begin src) (c_str d))
    else none

-- `std::string(src.begin() + begin, src.begin() + end)`.
abbrev pub slice : Bytes → ℕ → ℕ → Bytes
slice src begin end = take (end - begin) (drop begin src)

-- The `while` loop of `DelimitString`: where it ends, and what it has pushed.
unfoldable pub delimit_loop : ℕ → Bytes → Bytes → ℕ → List Bytes → Option (ℕ × List Bytes)
delimit_loop zero src d begin dest = none
delimit_loop (suc fuel) src d begin dest = elim (find src d begin) [
  | none ↦ some (begin, dest)
  | some pos ↦
      delimit_loop fuel src d (pos + length d)
        (if begin == pos then dest else dest ++ slice src begin pos ∷ [])
]

-- `src.size() - 1` in 64-bit arithmetic.
abbrev pub last_index : Bytes → ℕ
last_index src = (length src + 2 ^ 64 - 1) % 2 ^ 64

-- Each round but the last passes a delimiter, so for a delimiter that is not empty the size of the
-- text, and two, is fuel enough. An empty delimiter makes the source loop for ever, and one that begins
-- with NUL moves `begin` past the end of the text, where the string's iterators are undefined: `none`.
unfoldable pub delimit_string : Bytes → Bytes → Option (List Bytes)
unfolding delimit_loop find find_in
delimit_string src d = elim (delimit_loop (length src + 2) src d 0 []) [
  | none ↦ none
  | some (begin, dest) ↦
      if ltb (length src) begin
      then none
      else some (if begin == last_index src then dest else dest ++ drop begin src ∷ [])
]

-- The elements after the first, each behind the delimiter.
pub concat_rest : List Bytes → Bytes → Bytes
unfolding c_str
concat_rest [] d = []
concat_rest (x ∷ xs) d = c_str d ++ (c_str x ++ concat_rest xs d)

pub concat_string : List Bytes → Bytes → Bytes
unfolding concat_rest
concat_string [] d = []
concat_string (x ∷ xs) d = c_str x ++ concat_rest xs d
