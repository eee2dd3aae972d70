-- ===== src/ObjectManager/Refinement.antt =====
-- What an `ObjectManager` promises: a map from keys to objects. `lookup` reads it off the vector
-- without its order.
use twainet.Prelude.{
  ◌≡◌, refl, true, not, Option, none, some, List, [], ◌∷◌, arith, if◌then◌else◌, ap, ◌∙◌,
}
use mathlib.Core.Path.{fun_ext}
use twainet.Order.{Order}
use twainet.ObjectManager.{add_object, remove_object, get_object, update_object, destroy_object}
use twainet.ObjectManager.Sorted.{Above, IsSorted}
use twainet.ObjectManager.Reference.{
  is_some, insert_ref, erase_ref, set_ref, find_ref, add_object_lem, remove_object_lem,
  destroy_object_lem, get_object_lem, update_object_lem,
}

module _ {ℓ} {A : Type ℓ} ⦃o : Order A⦄ where
  -- The object that is `==` to `q`.
  unfoldable pub lookup : List A → A → Option A
  lookup [] q = none
  lookup (y ∷ ys) q = if o.eqb y q then some y else lookup ys q

  pub lookup-nil : lookup [] ≡ (λ q. none)
  unfolding lookup
  lookup-nil = refl

  pub lookup-Above : (a q : A) (xs : List A) → o.eqb a q ≡ true → Above a xs → lookup xs q ≡ none
  unfolding lookup
  lookup-Above a q [] e h = refl
  lookup-Above a q (y ∷ ys) e h = ground (
    arith,
    lookup-Above a q ys e h.1,
    o.lt_not_eq a y,
    o.eq_sym a q,
    o.eq_sym y q,
    o.eq_trans a q y,
  )

  pub lookup-below : (a q : A) (xs : List A) → o.lt q a ≡ true → Above a xs → lookup xs q ≡ none
  unfolding lookup
  lookup-below a q [] e h = refl
  lookup-below a q (y ∷ ys) e h =
      ground (arith, lookup-below a q ys e h.1, o.lt_trans q a y, o.lt_not_eq q y, o.eq_sym y q)

  pub lookup_same : (xs : List A) (a b : A) → o.eqb a b ≡ true → lookup xs a ≡ lookup xs b
  unfolding lookup
  lookup_same [] a b e = refl
  lookup_same (y ∷ ys) a b e =
      ground (arith, lookup_same ys a b e, o.eq_trans y a b, o.eq_trans y b a, o.eq_sym a b)

  find_ref-lookup : (xs : List A) (q : A) → IsSorted xs → find_ref xs q ≡ lookup xs q
  unfolding find_ref lookup
  find_ref-lookup [] q s = refl
  find_ref-lookup (y ∷ ys) q s =
      ground (arith, find_ref-lookup ys q s.1, o.lt_not_eq y q, o.lt_total y q, lookup-below y q ys)

  lookup-insert_ref :
      (xs : List A) (x q : A)
      → IsSorted xs
      → lookup (insert_ref xs x) q ≡ (
          if o.eqb x q
          then (if is_some (lookup xs x) then lookup xs q else some x)
          else lookup xs q)
  unfolding insert_ref lookup
  lookup-insert_ref [] x q s = refl
  lookup-insert_ref (y ∷ ys) x q s = ground (
    arith,
    lookup-insert_ref ys x q s.1,
    o.lt_not_eq y x,
    o.lt_total y x,
    lookup-below y x ys,
    o.eq_sym x q,
    o.eq_sym y q,
    o.eq_trans y q x,
    o.eq_trans y x q,
  )

  lookup-erase_ref :
      (xs : List A) (x q : A)
      → IsSorted xs
      → lookup (erase_ref xs x) q ≡ (if o.eqb x q then none else lookup xs q)
  unfolding erase_ref lookup
  lookup-erase_ref [] x q s = ground arith
  lookup-erase_ref (y ∷ ys) x q s = ground (
    arith,
    lookup-erase_ref ys x q s.1,
    o.lt_not_eq y x,
    o.lt_total y x,
    lookup-below y q ys,
    lookup-Above y q ys,
    o.eq_lt q x y,
    o.eq_sym x q,
    o.eq_sym y x,
    o.eq_sym y q,
    o.eq_trans y q x,
    o.eq_trans y x q,
    o.eq_trans x y q,
  )

  lookup-set_ref :
      (xs : List A) (x q : A)
      → IsSorted xs
      → lookup (set_ref xs x) q
        ≡ (if o.eqb x q then (if is_some (lookup xs x) then some x else none) else lookup xs q)
  unfolding set_ref lookup
  lookup-set_ref [] x q s = ground arith
  lookup-set_ref (y ∷ ys) x q s = ground (
    arith,
    lookup-set_ref ys x q s.1,
    o.lt_not_eq y x,
    o.lt_total y x,
    lookup-below y x ys,
    lookup-below y q ys,
    o.eq_lt q x y,
    o.eq_sym x q,
    o.eq_sym y q,
    o.eq_trans y q x,
    o.eq_sym y x,
    o.eq_trans x y q,
    o.eq_trans y x q,
  )

  -- What the four operations do to a map. `AddObject` keeps the object that is there.
  abbrev pub map_add : (A → Option A) → A → A → Option A
  map_add f x q = if o.eqb x q then (if is_some (f x) then f q else some x) else f q

  abbrev pub map_remove : (A → Option A) → A → A → Option A
  map_remove f x q = if o.eqb x q then none else f q

  abbrev pub map_update : (A → Option A) → A → A → Option A
  map_update f x q = if o.eqb x q then (if is_some (f x) then some x else none) else f q

  -- On a sorted vector `GetObject` finds the object that is `==` to its argument, if there is one.
  pub get_object-lookup : (xs : List A) (x : A) → IsSorted xs → get_object xs x ≡ lookup xs x
  get_object-lookup xs x s = get_object_lem xs x ∙ find_ref-lookup xs x s

  pub lookup-add_object :
      (xs : List A) (x : A)
      → IsSorted xs
      → (lookup (add_object xs x).0 ≡ map_add (lookup xs) x)
        × ((add_object xs x).1 ≡ not (is_some (lookup xs x)))
  lookup-add_object xs x s = rw (add_object_lem xs x) (
    fun_ext (λ q. lookup-insert_ref xs x q s),
    ap (λ r. not (is_some r)) (find_ref-lookup xs x s),
  )

  pub lookup-remove_object :
      (xs : List A) (x : A)
      → IsSorted xs
      → (lookup (remove_object xs x).0 ≡ map_remove (lookup xs) x)
        × ((remove_object xs x).1 ≡ is_some (lookup xs x))
  lookup-remove_object xs x s =
      rw (remove_object_lem xs x)
        (fun_ext (λ q. lookup-erase_ref xs x q s), ap is_some (find_ref-lookup xs x s))

  -- On a sorted vector `DestroyObject` takes the object of the key, if there is one, out of the map,
  -- hands it to its function, and calls the function on no other; the other keys are as before.
  pub lookup-destroy_object :
      (xs : List A) (x : A)
      → IsSorted xs
      → (lookup (destroy_object xs x).0 ≡ map_remove (lookup xs) x)
        × ((destroy_object xs x).1 ≡ lookup xs x)
  lookup-destroy_object xs x s =
      rw (destroy_object_lem xs x)
        (fun_ext (λ q. lookup-erase_ref xs x q s), find_ref-lookup xs x s)

  pub lookup-update_object :
      (xs : List A) (x : A)
      → IsSorted xs
      → (lookup (update_object xs x).0 ≡ map_update (lookup xs) x)
        × ((update_object xs x).1 ≡ is_some (lookup xs x))
  lookup-update_object xs x s =
      rw (update_object_lem xs x)
        (fun_ext (λ q. lookup-set_ref xs x q s), ap is_some (find_ref-lookup xs x s))
