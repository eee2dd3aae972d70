-- ===== src/ObjectManager/Scan.antt =====
-- `CheckObjects`, which erases while it walks by an index, beside one pass over the objects.
use twainet.Prelude.{
  ℕ, zero, suc, ◌+◌, ◌<◌, ◌≡◌, refl, sym, ap, Bool, some, none, List, [], ◌∷◌, ◌++◌, arith, length,
  get_elem?, erase_at, if◌then◌else◌, length-append, append-nil, append_assoc,
}
use twainet.Order.{Order}
use twainet.ObjectManager.{check_loop, check_objects}
use twainet.ObjectManager.Sorted.{Above, IsSorted}

module _ {ℓ} {A : Type ℓ} where
  get_elem?-append :
      (pre : List A) (x : A) (xs : List A) → get_elem? (pre ++ x ∷ xs) (length pre) ≡ some x
  get_elem?-append [] x xs = refl
  get_elem?-append (p ∷ pre) x xs = get_elem?-append pre x xs

  get_elem?_end : (xs : List A) → get_elem? xs (length xs) ≡ none
  get_elem?_end [] = refl
  get_elem?_end (x ∷ xs) = get_elem?_end xs

  erase_at-append :
      (pre : List A) (x : A) (xs : List A) → erase_at (pre ++ x ∷ xs) (length pre) ≡ pre ++ xs
  erase_at-append [] x xs = refl
  erase_at-append (p ∷ pre) x xs = ap (◌∷◌ p) (erase_at-append pre x xs)

  append_snoc : (pre : List A) (x : A) (xs : List A) → pre ++ x ∷ xs ≡ (pre ++ x ∷ []) ++ xs
  append_snoc pre x xs = sym (append_assoc pre (x ∷ []) xs)

  length_snoc : (pre : List A) (x : A) → length (pre ++ x ∷ []) ≡ length pre + 1
  length_snoc pre x = omega (arith, length-append pre (x ∷ []))

module _ {ℓ κ} {S : Type ℓ} {A : Type κ} (func : S → A → S × Bool) where
  -- `func` once on each object, in order; the objects on which it returns true are dropped.
  unfoldable pub check_ref : S → List A → S × List A
  check_ref s [] = (s, [])
  check_ref s (x ∷ xs) =
      let (s', hit) = func s x in
      let (t, rest) = check_ref s' xs in (t, if hit then rest else x ∷ rest)

  check_loop_step :
      (fuel i : ℕ) (s : S) (xs : List A) {x : A}
      → get_elem? xs i ≡ some x
      → check_loop func (suc fuel) i s xs ≡ (
          if (func s x).1
          then check_loop func fuel i (func s x).0 (erase_at xs i)
          else check_loop func fuel (i + 1) (func s x).0 xs)
  unfolding check_loop
  check_loop_step fuel i s xs e = rw (e, check_loop)

  check_loop_end :
      (fuel i : ℕ) (s : S) (xs : List A)
      → get_elem? xs i ≡ none
      → check_loop func (suc fuel) i s xs ≡ (s, xs)
  unfolding check_loop
  check_loop_end fuel i s xs e = rw (e, check_loop)

  check_loop-check_ref :
      (xs pre : List A) (fuel : ℕ) (s : S)
      → length xs < fuel
      → check_loop func fuel (length pre) s (pre ++ xs)
        ≡ ((check_ref s xs).0, pre ++ (check_ref s xs).1)
  unfolding check_ref
  check_loop-check_ref xs pre zero s h = elim h [ ]
  check_loop-check_ref [] pre (suc fuel) s h =
      rw (append-nil pre) (check_loop_end fuel (length pre) s pre (get_elem?_end pre))
  check_loop-check_ref (x ∷ xs) pre (suc fuel) s h =
      let s' = (func s x).0 in
      let kept = pre ++ x ∷ [] in
      ground (
        arith,
        check_loop_step fuel (length pre) s (pre ++ x ∷ xs) (get_elem?-append pre x xs),
        erase_at-append pre x xs,
        check_loop-check_ref xs pre fuel s' (omega arith),
        check_loop-check_ref xs kept fuel s' (omega arith),
        append_snoc pre x xs,
        append_snoc pre x (check_ref s' xs).1,
        length_snoc pre x,
      )

  -- `CheckObjects` calls its function once on each object, in the order of the vector, and drops
  -- exactly the objects on which it returns true; its rounds suffice for every vector.
  pub check_objects-check_ref : (s : S) (xs : List A) → check_objects func s xs ≡ check_ref s xs
  unfolding check_objects
  check_objects-check_ref s xs = check_loop-check_ref xs [] (suc (length xs)) s (omega arith)

module _ {ℓ κ} {S : Type ℓ} {A : Type κ} ⦃o : Order A⦄ (func : S → A → S × Bool) where
  check_ref-Above : (a : A) (xs : List A) (s : S) → Above a xs → Above a (check_ref func s xs).1
  unfolding check_ref
  check_ref-Above a [] s h = tt
  check_ref-Above a (x ∷ xs) s h = ground (arith, check_ref-Above a xs (func s x).0 h.1)

  check_ref-IsSorted : (xs : List A) (s : S) → IsSorted xs → IsSorted (check_ref func s xs).1
  unfolding check_ref
  check_ref-IsSorted [] s h = tt
  check_ref-IsSorted (x ∷ xs) s h =
      ground (arith, check_ref-IsSorted xs (func s x).0 h.1, check_ref-Above x xs (func s x).0 h.0)

  pub check_objects-IsSorted :
      (s : S) (xs : List A) → IsSorted xs → IsSorted (check_objects func s xs).1
  check_objects-IsSorted s xs h = rw (check_objects-check_ref func s xs) (check_ref-IsSorted xs s h)
