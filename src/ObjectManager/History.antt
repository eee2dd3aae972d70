-- ===== src/ObjectManager/History.antt =====
-- Any sequence of calls on one `ObjectManager`, and what a client reads afterwards.
use twainet.Prelude.{◌≡◌, refl, Option, none, List, [], ◌∷◌, ap, ◌∙◌}
use twainet.Order.{Order}
use twainet.ObjectManager.{add_object, remove_object, update_object, get_object}
use twainet.ObjectManager.Sorted.{
  IsSorted, add_object-IsSorted, remove_object-IsSorted, update_object-IsSorted,
}
use twainet.ObjectManager.Refinement.{
  lookup, lookup-nil, map_add, map_remove, map_update, get_object-lookup, lookup-add_object,
  lookup-remove_object, lookup-update_object,
}

pub data Call {ℓ} (A : Type ℓ) : Type ℓ where
  add remove update : A → Call A
  clear : Call A

module _ {ℓ} {A : Type ℓ} ⦃o : Order A⦄ where
  pub call : Call A → List A → List A
  call (add x) xs = (add_object xs x).0
  call (remove x) xs = (remove_object xs x).0
  call (update x) xs = (update_object xs x).0
  call clear xs = []

  pub run : List (Call A) → List A → List A
  unfolding call
  run [] xs = xs
  run (c ∷ cs) xs = run cs (call c xs)

  -- The same calls on a map.
  pub map_call : Call A → (A → Option A) → A → Option A
  map_call (add x) f = map_add f x
  map_call (remove x) f = map_remove f x
  map_call (update x) f = map_update f x
  map_call clear f = λ _. none

  pub map_run : List (Call A) → (A → Option A) → A → Option A
  map_run [] f = f
  map_run (c ∷ cs) f = map_run cs (map_call c f)

  call-IsSorted : (c : Call A) (xs : List A) → IsSorted xs → IsSorted (call c xs)
  unfolding call
  call-IsSorted (add x) xs s = add_object-IsSorted xs x s
  call-IsSorted (remove x) xs s = remove_object-IsSorted xs x s
  call-IsSorted (update x) xs s = update_object-IsSorted xs x s
  call-IsSorted clear xs s = tt

  lookup-call :
      (c : Call A) (xs : List A) → IsSorted xs → lookup (call c xs) ≡ map_call c (lookup xs)
  unfolding call map_call
  lookup-call (add x) xs s = (lookup-add_object xs x s).0
  lookup-call (remove x) xs s = (lookup-remove_object xs x s).0
  lookup-call (update x) xs s = (lookup-update_object xs x s).0
  lookup-call clear xs s = lookup-nil

  run-IsSorted : (cs : List (Call A)) (xs : List A) → IsSorted xs → IsSorted (run cs xs)
  unfolding run
  run-IsSorted [] xs s = s
  run-IsSorted (c ∷ cs) xs s = run-IsSorted cs (call c xs) (call-IsSorted c xs s)

  lookup-run :
      (cs : List (Call A)) (xs : List A) → IsSorted xs → lookup (run cs xs) ≡ map_run cs (lookup xs)
  unfolding run map_run
  lookup-run [] xs s = refl
  lookup-run (c ∷ cs) xs s =
      lookup-run cs (call c xs) (call-IsSorted c xs s) ∙ ap (map_run cs) (lookup-call c xs s)

  -- After any sequence of calls on a new manager the vector is sorted, and `GetObject` returns what
  -- the same calls on an empty map leave at that key.
  pub run_refines :
      (cs : List (Call A)) (q : A)
      → IsSorted (run cs []) × (get_object (run cs []) q ≡ map_run cs (λ _. none) q)
  run_refines cs q =
      let s = run-IsSorted cs [] tt in
      (
        s,
        get_object-lookup (run cs []) q s
            ∙ ap (λ f. f q) (lookup-run cs [] tt ∙ ap (map_run cs) lookup-nil),
      )
