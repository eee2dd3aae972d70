-- ===== src/ObjectManager/Tests.antt =====
-- The theorems on `ObjectManager` at a manager of connection counters.
use twainet.Prelude.{ℕ, ◌≡◌, Bool, none, List, [], ◌∷◌, ltb, suc}
use twainet.Prelude.Bytes.{Bytes, codes}
use twainet.ObjectManager.{check_objects, get_object}
use twainet.ObjectManager.Sorted.{IsSorted}
use twainet.ObjectManager.Scan.{check_ref, check_objects-check_ref}
use twainet.ObjectManager.History.{Call, add, remove, update, run, map_run, run_refines}
use twainet.Ipc.Object.{TryConnectCounter, counter_order, new_counter}

abbrev counted : Bytes → ℕ → TryConnectCounter
counted name n = record { module_name = name; count = n }

abbrev calls : List (Call TryConnectCounter)
calls =
    add (counted (codes "b") 1)
    ∷ add (counted (codes "a") 2)
    ∷ add (counted (codes "b") 3)
    ∷ update (counted (codes "a") 4)
    ∷ remove (counted (codes "c") 5)
    ∷ []

run_refines_example :
    IsSorted (run calls [])
    × (get_object (run calls []) (new_counter (codes "a"))
        ≡ map_run calls (λ _. none) (new_counter (codes "a")))
run_refines_example = run_refines calls (new_counter (codes "a"))

abbrev two : List TryConnectCounter
two = counted (codes "a") 4 ∷ counted (codes "b") 1 ∷ []

abbrev seen : ℕ → TryConnectCounter → ℕ × Bool
seen n c = (suc n, ltb c.count 2)

check_objects-check_ref_example : check_objects seen 0 two ≡ check_ref seen 0 two
check_objects-check_ref_example = check_objects-check_ref seen 0 two
