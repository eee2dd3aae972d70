-- ===== src/Utils/Tests.antt =====
-- The theorems on the string helpers at concrete texts.
use twainet.Prelude.{◌≡◌, some, [], ◌∷◌, ◌++◌, ◌==◌, length, arith, if◌then◌else◌}
use twainet.Prelude.Bytes.{codes}
use twainet.Utils.{delimit_string}
use twainet.Utils.Delimit.{join, nonempty, delimit_string-join}

delimit_string-join_example :
    delimit_string (join 46 (codes "host" ∷ [] ∷ []) (codes "x")) (46 ∷ [])
    ≡ some (
        if length (codes "x") == 1
        then nonempty (codes "host" ∷ [] ∷ [])
        else nonempty (codes "host" ∷ [] ∷ []) ++ codes "x" ∷ [])
delimit_string-join_example =
    delimit_string-join 46 (λ e. omega (arith, e)) (codes "host" ∷ [] ∷ []) (codes "x")
      (ground arith) (ground arith) (omega arith)
