-- ===== src/StringMap/Keys.antt =====
-- The keys of a `std::map<std::string, V>` are distinct.
use twainet.Prelude.{◌≡◌, none, List, [], ◌∷◌, arith}
use twainet.Prelude.Bytes.{Bytes, str_eq_sound, str_eq_refl}
use twainet.StringMap.{
  map_find, map_set, map_insert, map_erase, map_find-map_set, map_find-map_insert,
  map_find-map_erase,
}

module _ {ℓ} {V : Type ℓ} where
  abbrev pub IsMap : List (Bytes × V) → Type ℓ
  IsMap [] = Unit
  IsMap ((k, v) ∷ m) = (map_find m k ≡ none) × IsMap m

  pub map_set-IsMap : (m : List (Bytes × V)) (k : Bytes) (v : V) → IsMap m → IsMap (map_set m k v)
  unfolding map_set map_find
  map_set-IsMap [] k v h = ground arith
  map_set-IsMap ((j, w) ∷ m) k v h =
      ground
        (arith, map_set-IsMap m k v h.1, map_find-map_set m k v j, str_eq_sound k j, str_eq_refl k)

  pub map_insert-IsMap :
      (m : List (Bytes × V)) (k : Bytes) (v : V) → IsMap m → IsMap (map_insert m k v)
  unfolding map_insert map_find
  map_insert-IsMap [] k v h = ground arith
  map_insert-IsMap ((j, w) ∷ m) k v h = ground (
    arith,
    map_insert-IsMap m k v h.1,
    map_find-map_insert m k v j,
    str_eq_sound k j,
    str_eq_refl k,
  )

  pub map_erase-IsMap : (m : List (Bytes × V)) (k : Bytes) → IsMap m → IsMap (map_erase m k)
  unfolding map_erase map_find
  map_erase-IsMap [] k h = tt
  map_erase-IsMap ((j, w) ∷ m) k h =
      ground (arith, map_erase-IsMap m k h.1, map_find-map_erase m k j, str_eq_refl k)
