-- ===== src/StringMap.antt =====
-- `std::map<std::string, V>`, as the source uses it: an association list with one entry for a key.
pub mod Keys
pub mod Sum
use twainet.Prelude.{◌≡◌, refl, Option, none, some, List, [], ◌∷◌, arith, if◌then◌else◌}
use twainet.Prelude.Bytes.{Bytes, str_eq, str_eq_sound, str_eq_refl}

module _ {ℓ} {V : Type ℓ} where
  unfoldable pub map_find : List (Bytes × V) → Bytes → Option V
  map_find [] k = none
  map_find ((j, v) ∷ m) k = if str_eq j k then some v else map_find m k

  -- `m[k] = v`.
  unfoldable pub map_set : List (Bytes × V) → Bytes → V → List (Bytes × V)
  map_set [] k v = (k, v) ∷ []
  map_set ((j, w) ∷ m) k v = if str_eq j k then (j, v) ∷ m else (j, w) ∷ map_set m k v

  -- `m.insert(std::make_pair(k, v))`: a key that is there keeps its value.
  unfoldable pub map_insert : List (Bytes × V) → Bytes → V → List (Bytes × V)
  map_insert [] k v = (k, v) ∷ []
  map_insert ((j, w) ∷ m) k v = if str_eq j k then (j, w) ∷ m else (j, w) ∷ map_insert m k v

  -- `m.erase(m.find(k))`.
  pub map_erase : List (Bytes × V) → Bytes → List (Bytes × V)
  map_erase [] k = []
  map_erase ((j, w) ∷ m) k = let rest = map_erase m k in if str_eq j k then rest else (j, w) ∷ rest

  pub map_find-map_set :
      (m : List (Bytes × V)) (k : Bytes) (v : V) (q : Bytes)
      → map_find (map_set m k v) q ≡ (if str_eq k q then some v else map_find m q)
  unfolding map_find map_set
  map_find-map_set [] k v q = refl
  map_find-map_set ((j, w) ∷ m) k v q = ground (
    arith,
    map_find-map_set m k v q,
    str_eq_sound j k,
    str_eq_sound j q,
    str_eq_sound k q,
    str_eq_refl k,
  )

  pub map_find-map_insert :
      (m : List (Bytes × V)) (k : Bytes) (v : V) (q : Bytes)
      → map_find (map_insert m k v) q
        ≡ elim (map_find m q) [ none ↦ if str_eq k q then some v else none | some w ↦ some w ]
  unfolding map_find map_insert
  map_find-map_insert [] k v q = refl
  map_find-map_insert ((j, w) ∷ m) k v q = ground (
    arith,
    map_find-map_insert m k v q,
    str_eq_sound j k,
    str_eq_sound j q,
    str_eq_sound k q,
    str_eq_refl k,
  )

  pub map_find-map_erase :
      (m : List (Bytes × V)) (k q : Bytes)
      → map_find (map_erase m k) q ≡ (if str_eq k q then none else map_find m q)
  unfolding map_find map_erase
  map_find-map_erase [] k q = ground arith
  map_find-map_erase ((j, w) ∷ m) k q = ground (
    arith,
    map_find-map_erase m k q,
    str_eq_sound j k,
    str_eq_sound j q,
    str_eq_sound k q,
    str_eq_refl k,
  )
