-- ===== src/ObjectManager/Sorted.antt =====
-- The representation invariant: the vector is strictly increasing.
use twainet.Prelude.{◌≡◌, true, List, [], ◌∷◌, arith, All, All-map}
use twainet.Order.{Order}
use twainet.ObjectManager.{add_object, remove_object, destroy_object, update_object}
use twainet.ObjectManager.Reference.{
  insert_ref, erase_ref, set_ref, add_object_lem, remove_object_lem, destroy_object_lem,
  update_object_lem,
}

module _ {ℓ} {A : Type ℓ} ⦃o : Order A⦄ where
  -- Every object of the vector is greater than `a`.
  abbrev pub Above : A → List A → Type 0
  Above a xs = All (λ y. o.lt a y ≡ true) xs

  abbrev pub IsSorted : List A → Type 0
  IsSorted [] = Unit
  IsSorted (x ∷ xs) = Above x xs × IsSorted xs

  pub Above-lt : (a b : A) (xs : List A) → o.lt a b ≡ true → Above b xs → Above a xs
  Above-lt a b xs h = All-map (λ y k. o.lt_trans a b y h k) xs

  pub Above-eq : (a b : A) (xs : List A) → o.eqb a b ≡ true → Above b xs → Above a xs
  Above-eq a b xs h = All-map (λ y k. o.eq_lt a b y h k) xs

  insert_ref-Above :
      (a x : A) (xs : List A) → o.lt a x ≡ true → Above a xs → Above a (insert_ref xs x)
  unfolding insert_ref
  insert_ref-Above a x [] h k = (h, tt)
  insert_ref-Above a x (y ∷ ys) h k = ground (arith, insert_ref-Above a x ys h k.1)

  erase_ref-Above : (a x : A) (xs : List A) → Above a xs → Above a (erase_ref xs x)
  unfolding erase_ref
  erase_ref-Above a x [] k = tt
  erase_ref-Above a x (y ∷ ys) k = ground (arith, erase_ref-Above a x ys k.1)

  set_ref-Above : (a x : A) (xs : List A) → Above a xs → Above a (set_ref xs x)
  unfolding set_ref
  set_ref-Above a x [] k = tt
  set_ref-Above a x (y ∷ ys) k = ground (arith, set_ref-Above a x ys k.1, o.lt_eq a y x)

  insert_ref-IsSorted : (xs : List A) (x : A) → IsSorted xs → IsSorted (insert_ref xs x)
  unfolding insert_ref
  insert_ref-IsSorted [] x s = (tt, tt)
  insert_ref-IsSorted (y ∷ ys) x s = ground (
    arith,
    insert_ref-IsSorted ys x s.1,
    insert_ref-Above y x ys,
    o.lt_total y x,
    Above-lt x y ys,
  )

  erase_ref-IsSorted : (xs : List A) (x : A) → IsSorted xs → IsSorted (erase_ref xs x)
  unfolding erase_ref
  erase_ref-IsSorted [] x s = tt
  erase_ref-IsSorted (y ∷ ys) x s =
      ground (arith, erase_ref-IsSorted ys x s.1, erase_ref-Above y x ys s.0)

  set_ref-IsSorted : (xs : List A) (x : A) → IsSorted xs → IsSorted (set_ref xs x)
  unfolding set_ref
  set_ref-IsSorted [] x s = tt
  set_ref-IsSorted (y ∷ ys) x s =
      ground
        (arith, set_ref-IsSorted ys x s.1, set_ref-Above y x ys s.0, o.eq_sym y x, Above-eq x y ys)

  pub add_object-IsSorted : (xs : List A) (x : A) → IsSorted xs → IsSorted (add_object xs x).0
  add_object-IsSorted xs x s = rw (add_object_lem xs x) (insert_ref-IsSorted xs x s)

  pub remove_object-IsSorted : (xs : List A) (x : A) → IsSorted xs → IsSorted (remove_object xs x).0
  remove_object-IsSorted xs x s = rw (remove_object_lem xs x) (erase_ref-IsSorted xs x s)

  pub destroy_object-IsSorted :
      (xs : List A) (x : A) → IsSorted xs → IsSorted (destroy_object xs x).0
  destroy_object-IsSorted xs x s = rw (destroy_object_lem xs x) (erase_ref-IsSorted xs x s)

  pub update_object-IsSorted : (xs : List A) (x : A) → IsSorted xs → IsSorted (update_object xs x).0
  update_object-IsSorted xs x s = rw (update_object_lem xs x) (set_ref-IsSorted xs x s)
