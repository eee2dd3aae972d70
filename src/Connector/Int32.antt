-- ===== src/Connector/Int32.antt =====
-- An `int` as the program copies it with `memcpy`: four bytes, least significant first. A value is
-- its bit pattern, below 2 ^ 32; from 2 ^ 31 on it stands for a negative number.
use twainet.Prelude.{ℕ, ◌+◌, ◌*◌, ◌/◌, ◌%◌, ◌^◌, ◌<◌, ◌≡◌, refl, [], ◌∷◌, ◌++◌, length, arith}
use twainet.Prelude.Bytes.{Bytes}

unfoldable pub int_bytes : ℕ → Bytes
int_bytes n = (n % 256) ∷ (n / 256 % 256) ∷ (n / 65536 % 256) ∷ (n / 16777216 % 256) ∷ []

unfoldable pub bytes_int : Bytes → ℕ
bytes_int (a ∷ b ∷ c ∷ d ∷ rest) = a + 256 * b + 65536 * c + 16777216 * d
bytes_int _ = 0

pub bytes_int-int_bytes : (n : ℕ) (rest : Bytes) → n < 2 ^ 32 → bytes_int (int_bytes n ++ rest) ≡ n
unfolding bytes_int int_bytes
bytes_int-int_bytes n rest h = omega arith

pub length-int_bytes : (n : ℕ) → length (int_bytes n) ≡ 4
unfolding int_bytes
length-int_bytes n = refl
