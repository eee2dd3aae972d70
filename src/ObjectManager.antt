-- ===== src/ObjectManager.antt =====
-- src/cpp/include/object_manager.h: `ObjectManager<Object>`, a vector kept sorted by the object's
-- `operator <` and searched with `std::lower_bound`. The critical section makes each operation
-- atomic, so an operation is a function on the vector. Iterators are positions.
pub mod Reference
pub mod Sorted
pub mod Refinement
pub mod Scan
pub mod History
mod Tests
use twainet.Prelude.{
  ℕ, zero, suc, ◌+◌, Bool, true, false, not, Option, none, some, List, [], ◌∷◌, ◌++◌, length,
  get_elem?, set, insert_at, erase_at, ltb, if◌then◌else◌,
}
use twainet.Order.{Order}

module _ {ℓ} {A : Type ℓ} ⦃o : Order A⦄ where
  -- `std::lower_bound` on a vector that `<` partitions: the first position whose object is not
  -- less than `x`.
  unfoldable pub lower_bound : List A → A → ℕ
  lower_bound [] x = 0
  lower_bound (y ∷ ys) x = if o.lt y x then suc (lower_bound ys x) else 0

  -- `AddObject`: the new vector, and whether the object was inserted.
  unfoldable pub add_object : List A → A → List A × Bool
  add_object xs x =
      let it = lower_bound xs x in
      elim (get_elem? xs it) [
        | some y ↦ if not (o.eqb y x) then (insert_at xs it x, true) else (xs, false)
        | none ↦ (xs ++ x ∷ [], true)
      ]

  -- `RemoveObject`.
  pub remove_object : List A → A → List A × Bool
  remove_object xs x =
      let it = lower_bound xs x in
      elim (get_elem? xs it) [
        | some y ↦ if o.eqb y x then (erase_at xs it, true) else (xs, false)
        | none ↦ (xs, false)
      ]

  -- `DestroyObject`: as `RemoveObject`, and `func` is called with the object that was found; what
  -- it is called with is returned.
  pub destroy_object : List A → A → List A × Option A
  destroy_object xs x =
      let it = lower_bound xs x in
      elim (get_elem? xs it) [
        | some y ↦ if o.eqb y x then (erase_at xs it, some y) else (xs, none)
        | none ↦ (xs, none)
      ]

  -- `GetObject`: the object written to `*getObject`, if there is one.
  unfoldable pub get_object : List A → A → Option A
  get_object xs x = elim (get_elem? xs (lower_bound xs x)) [
    | some y ↦ if o.eqb y x then some y else none
    | none ↦ none
  ]

  -- `UpdateObject`.
  pub update_object : List A → A → List A × Bool
  update_object xs x =
      let it = lower_bound xs x in
      elim (get_elem? xs it) [
        | some y ↦ if o.eqb y x then (set xs it x, true) else (xs, false)
        | none ↦ (xs, false)
      ]

-- The body of `CheckObjects`: `for(int i = 0; i < size; i++) if(func(m_objects[i])) { erase;
-- i--; }`. `func` may change a state `S` of its own; the fuel bounds the rounds.
module _ {ℓ κ} {S : Type ℓ} {A : Type κ} (func : S → A → S × Bool) where
  pub check_loop : ℕ → ℕ → S → List A → S × List A
  check_loop zero i s xs = (s, xs)
  check_loop (suc fuel) i s xs = elim (get_elem? xs i) [
    | none ↦ (s, xs)
    | some x ↦
        let (s', hit) = func s x in
        let erased = check_loop fuel i s' (erase_at xs i) in
        let kept = check_loop fuel (i + 1) s' xs in if hit then erased else kept
  ]

  -- `CheckObjects`: each round erases an object or passes it, so one round for each object and
  -- one for the test that ends the loop are enough.
  pub check_objects : S → List A → S × List A
  unfolding check_loop
  check_objects s xs = check_loop (suc (length xs)) 0 s xs

-- `ProcessingObjects`: `func` on each object in turn.
module _ {ℓ κ} {S : Type ℓ} {A : Type κ} (func : S → A → S) where
  unfoldable pub processing_objects : S → List A → S
  processing_objects s [] = s
  processing_objects s (x ∷ xs) = processing_objects (func s x) xs
