-- ===== src/Utils/Concat.antt =====
-- `ConcatString`, and `DelimitString` after it.
use twainet.Prelude.{
  ℕ, ◌^◌, ◌<◌, ◌≡◌, ◌≢◌, refl, ap, some, List, [], ◌∷◌, ◌++◌, arith, length, All, All-map,
  append-nil,
}
use twainet.Prelude.Bytes.{Bytes}
use twainet.Utils.{c_str, concat_rest, concat_string, delimit_string}
use twainet.Utils.Find.{Lacks}
use twainet.Utils.Delimit.{join, nonempty, delimit_string-join}

c_str_lem : (s : Bytes) → Lacks 0 s → c_str s ≡ s
unfolding c_str
c_str_lem [] h = refl
c_str_lem (b ∷ s) h = ground (arith, c_str_lem s h.1, h.0)

module _ (c : ℕ) (nz : c ≢ 0) where
  concat_rest-join :
      (xs : List Bytes) (last : Bytes)
      → All (Lacks 0) xs
      → Lacks 0 last
      → concat_rest (xs ++ last ∷ []) (c ∷ []) ≡ c ∷ join c xs last
  unfolding concat_rest
  concat_rest-join [] last hs h =
      ground (arith, c_str_lem (c ∷ []) (nz, tt), c_str_lem last h, append-nil last)
  concat_rest-join (x ∷ xs) last hs h =
      ground (arith, c_str_lem (c ∷ []) (nz, tt), c_str_lem x hs.0, concat_rest-join xs last hs.1 h)

  pub concat_string-join :
      (xs : List Bytes) (last : Bytes)
      → All (Lacks 0) xs
      → Lacks 0 last
      → concat_string (xs ++ last ∷ []) (c ∷ []) ≡ join c xs last
  unfolding concat_string concat_rest
  concat_string-join [] last hs h = ground (arith, c_str_lem last h, append-nil last)
  concat_string-join (x ∷ xs) last hs h =
      ground (arith, c_str_lem x hs.0, concat_rest-join xs last hs.1 h)

  nonempty_lem : (xs : List Bytes) → All (λ x. x ≢ []) xs → nonempty xs ≡ xs
  nonempty_lem [] h = refl
  nonempty_lem ([] ∷ xs) h = absurd (h.0 refl)
  nonempty_lem ((b ∷ x) ∷ xs) h = ap (◌∷◌ (b ∷ x)) (nonempty_lem xs h.1)

  -- Segments that `ConcatString` joins by a byte that none of them holds come back from
  -- `DelimitString` as they were, if none holds a NUL, none but the last is empty, and the last is
  -- not one byte long (the text below 2 ^ 64 bytes).
  pub delimit_string-concat_string :
      (xs : List Bytes) (last : Bytes)
      → All (λ x. Lacks c x × Lacks 0 x × (x ≢ [])) xs
      → Lacks c last
      → Lacks 0 last
      → length last ≢ 1
      → length (join c xs last) < 2 ^ 64
      → delimit_string (concat_string (xs ++ last ∷ []) (c ∷ [])) (c ∷ []) ≡ some (xs ++ last ∷ [])
  delimit_string-concat_string xs last hs h hz ne lt = ground (
    arith,
    concat_string-join xs last (All-map (λ x k. k.1) xs hs) hz,
    delimit_string-join c nz xs last (All-map (λ x k. k.0) xs hs) h lt,
    nonempty_lem xs (All-map (λ x k. k.2) xs hs),
  )
