-- ===== src/Prelude/Bytes.antt =====
-- `std::string` as the list of its bytes, with `==` and the lexicographic `<`.
use Prim.Native.Char.{code}
use Prim.Native.String.{String}
use Prim.Native.Nat.{ℕ}
use mathlib.Core.Path.{◌≡◌, refl}
use mathlib.Core.Logic.{◌↔◌}
use mathlib.Core.Bool.{Bool, true, false}
use mathlib.Core.List.{List, [], ◌∷◌}
use native.Mathlib.Omega.{arith}
use twainet.Prelude.Tests.{ltb, ◌==◌, if◌then◌else◌}

abbrev pub Bytes : Type 0
Bytes = List ℕ

-- The bytes of a string literal of the source (all are ASCII).
abbrev pub codes : String → Bytes
codes String.[] = []
codes (String.◌∷◌ c s) = code c ∷ codes s

unfoldable pub str_eq : Bytes → Bytes → Bool
str_eq [] [] = true
str_eq [] (b ∷ bs) = false
str_eq (a ∷ as') [] = false
str_eq (a ∷ as') (b ∷ bs) = if a == b then str_eq as' bs else false

unfoldable pub str_lt : Bytes → Bytes → Bool
str_lt s [] = false
str_lt [] (b ∷ bs) = true
str_lt (a ∷ as') (b ∷ bs) = if ltb a b then true else if a == b then str_lt as' bs else false

pub str_eq_sound : (s t : Bytes) → str_eq s t ≡ true → s ≡ t
unfolding str_eq
str_eq_sound [] [] h = refl
str_eq_sound [] (b ∷ bs) h = ground arith
str_eq_sound (a ∷ as') [] h = ground arith
str_eq_sound (a ∷ as') (b ∷ bs) h = ground (arith, str_eq_sound as' bs)

pub str_eq_refl : (s : Bytes) → str_eq s s ≡ true
unfolding str_eq
str_eq_refl [] = refl
str_eq_refl (a ∷ as') = ground (arith, str_eq_refl as')

pub str_eq_iff : (s t : Bytes) → (str_eq s t ≡ true) ↔ (s ≡ t)
str_eq_iff s t = (str_eq_sound s t, λ e. rw e (str_eq_refl t))

pub str_lt_irrefl : (s : Bytes) → str_lt s s ≡ false
unfolding str_lt
str_lt_irrefl [] = refl
str_lt_irrefl (a ∷ as') = ground (arith, str_lt_irrefl as')

pub str_lt_trans : (s t u : Bytes) → str_lt s t ≡ true → str_lt t u ≡ true → str_lt s u ≡ true
unfolding str_lt
str_lt_trans s [] u h k = ground arith
str_lt_trans s (b ∷ bs) [] h k = ground arith
str_lt_trans [] (b ∷ bs) (c ∷ cs) h k = refl
str_lt_trans (a ∷ as') (b ∷ bs) (c ∷ cs) h k = ground (arith, str_lt_trans as' bs cs)

pub str_lt_total : (s t : Bytes) → str_lt s t ≡ false → str_eq s t ≡ false → str_lt t s ≡ true
unfolding str_lt str_eq
str_lt_total [] [] h k = ground arith
str_lt_total [] (b ∷ bs) h k = ground arith
str_lt_total (a ∷ as') [] h k = refl
str_lt_total (a ∷ as') (b ∷ bs) h k = ground (arith, str_lt_total as' bs)
