-- ===== src/StringMap/Sum.antt =====
-- A number of each value of a `std::map<std::string, V>`, summed over its entries.
use twainet.Prelude.{ℕ, ◌+◌, ◌≡◌, refl, none, some, List, [], ◌∷◌, arith}
use twainet.Prelude.Bytes.{Bytes, str_eq_sound}
use twainet.StringMap.{map_find, map_set, map_insert, map_erase}
use twainet.StringMap.Keys.{IsMap}

module _ {ℓ} {V : Type ℓ} (f : V → ℕ) where
  unfoldable pub map_sum : List (Bytes × V) → ℕ
  map_sum [] = 0
  map_sum ((k, v) ∷ m) = f v + map_sum m

  pub map_sum-map_set :
      (m : List (Bytes × V)) (k : Bytes) (v : V) {old : V}
      → map_find m k ≡ some old
      → map_sum (map_set m k v) + f old ≡ map_sum m + f v
  unfolding map_sum map_find map_set
  map_sum-map_set [] k v {old} e = ground (arith, e)
  map_sum-map_set ((j, w) ∷ m) k v {old} e = ground (arith, e, map_sum-map_set m k v {old = old})

  map_sum-map_erase-none :
      (m : List (Bytes × V)) (k : Bytes) → map_find m k ≡ none → map_sum (map_erase m k) ≡ map_sum m
  unfolding map_sum map_find map_erase
  map_sum-map_erase-none [] k e = refl
  map_sum-map_erase-none ((j, w) ∷ m) k e = ground (arith, e, map_sum-map_erase-none m k)

  pub map_sum-map_erase :
      (m : List (Bytes × V)) (k : Bytes) {old : V}
      → IsMap m
      → map_find m k ≡ some old
      → map_sum (map_erase m k) + f old ≡ map_sum m
  unfolding map_sum map_find map_erase
  map_sum-map_erase [] k {old} h e = ground (arith, e)
  map_sum-map_erase ((j, w) ∷ m) k {old} h e = ground (
    arith,
    e,
    map_sum-map_erase m k {old = old} h.1,
    map_sum-map_erase-none m k,
    str_eq_sound j k,
  )

  pub map_sum-map_insert :
      (m : List (Bytes × V)) (k : Bytes) (v : V)
      → map_find m k ≡ none
      → map_sum (map_insert m k v) ≡ map_sum m + f v
  unfolding map_sum map_find map_insert
  map_sum-map_insert [] k v e = ground arith
  map_sum-map_insert ((j, w) ∷ m) k v e = ground (arith, e, map_sum-map_insert m k v)
