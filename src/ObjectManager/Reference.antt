-- ===== src/ObjectManager/Reference.antt =====
-- The operations of `ObjectManager` as one pass over the vector.
use twainet.Prelude.{
  ◌≡◌, refl, Bool, true, false, Option, none, some, List, [], ◌∷◌, arith, if◌then◌else◌, not,
}
use twainet.Order.{Order}
use twainet.ObjectManager.{
  lower_bound, add_object, remove_object, destroy_object, get_object, update_object,
}

abbrev pub is_some {ℓ} : {A : Type ℓ} → Option A → Bool
is_some none = false
is_some (some a) = true

module _ {ℓ} {A : Type ℓ} ⦃o : Order A⦄ where
  unfoldable pub insert_ref : List A → A → List A
  insert_ref [] x = x ∷ []
  insert_ref (y ∷ ys) x =
      if o.lt y x then y ∷ insert_ref ys x else if o.eqb y x then y ∷ ys else x ∷ y ∷ ys

  unfoldable pub erase_ref : List A → A → List A
  erase_ref [] x = []
  erase_ref (y ∷ ys) x = if o.lt y x then y ∷ erase_ref ys x else if o.eqb y x then ys else y ∷ ys

  unfoldable pub set_ref : List A → A → List A
  set_ref [] x = []
  set_ref (y ∷ ys) x = if o.lt y x then y ∷ set_ref ys x else if o.eqb y x then x ∷ ys else y ∷ ys

  unfoldable pub find_ref : List A → A → Option A
  find_ref [] x = none
  find_ref (y ∷ ys) x = if o.lt y x then find_ref ys x else if o.eqb y x then some y else none

  pub add_object_lem :
      (xs : List A) (x : A) → add_object xs x ≡ (insert_ref xs x, not (is_some (find_ref xs x)))
  unfolding add_object lower_bound insert_ref find_ref
  add_object_lem [] x = refl
  add_object_lem (y ∷ ys) x = ground (arith, add_object_lem ys x)

  pub remove_object_lem :
      (xs : List A) (x : A) → remove_object xs x ≡ (erase_ref xs x, is_some (find_ref xs x))
  unfolding remove_object lower_bound erase_ref find_ref
  remove_object_lem [] x = refl
  remove_object_lem (y ∷ ys) x = ground (arith, remove_object_lem ys x)

  pub destroy_object_lem :
      (xs : List A) (x : A) → destroy_object xs x ≡ (erase_ref xs x, find_ref xs x)
  unfolding destroy_object lower_bound erase_ref find_ref
  destroy_object_lem [] x = refl
  destroy_object_lem (y ∷ ys) x = ground (arith, destroy_object_lem ys x)

  pub get_object_lem : (xs : List A) (x : A) → get_object xs x ≡ find_ref xs x
  unfolding get_object lower_bound find_ref
  get_object_lem [] x = refl
  get_object_lem (y ∷ ys) x = ground (arith, get_object_lem ys x)

  pub update_object_lem :
      (xs : List A) (x : A) → update_object xs x ≡ (set_ref xs x, is_some (find_ref xs x))
  unfolding update_object lower_bound set_ref find_ref
  update_object_lem [] x = refl
  update_object_lem (y ∷ ys) x = ground (arith, update_object_lem ys x)
