-- ===== src/Trie/Nibbles/Order.antt =====
-- The order of nibble lists and their longest common prefix.
use simple_p2p_blockchain.Common.{
  ℕ, suc, ◌≤◌, ◌≡◌, ◌≢◌, ◌⊎◌, inl, inr, refl, arith, ap₂, true, false, List, [], ◌∷◌, ltb, ◌==◌,
  if◌then◌else◌, length, take, Bool-cases, none, get_elem?,
}
use simple_p2p_blockchain.Common.Int.{ℤ, pos, negsuc}
use simple_p2p_blockchain.Trie.Nibbles.{
  compare_loop, compare_lengths, nibbles_compare, matching_nibble_length,
}

-- The lexicographic order, in which a list comes before those that it begins.
unfoldable pub lexicographic : List ℕ → List ℕ → ℤ
lexicographic [] [] = pos 0
lexicographic [] (y ∷ ys) = negsuc 0
lexicographic (x ∷ xs) [] = pos 1
lexicographic (x ∷ xs) (y ∷ ys) =
    if ltb x y then negsuc 0 else if ltb y x then pos 1 else lexicographic xs ys

-- `nibblesCompare` is the lexicographic order, in which a list comes before those that it begins:
-- 0 for equal lists, -1 where the first comes before the second and 1 where it comes after it, so
-- the other way round than its documentation has it.
pub nibbles_compare-eq-lexicographic :
    (xs ys : List ℕ) → nibbles_compare xs ys ≡ lexicographic xs ys
unfolding nibbles_compare compare_loop compare_lengths lexicographic
nibbles_compare-eq-lexicographic [] [] = refl
nibbles_compare-eq-lexicographic [] (y ∷ ys) = ground arith
nibbles_compare-eq-lexicographic (x ∷ xs) [] = ground arith
nibbles_compare-eq-lexicographic (x ∷ xs) (y ∷ ys) =
    ground (arith, nibbles_compare-eq-lexicographic xs ys)

module _ (x y : ℕ) (xs ys : List ℕ) where
  matching-same :
      (x == y) ≡ true
      → matching_nibble_length (x ∷ xs) (y ∷ ys) ≡ suc (matching_nibble_length xs ys)
  unfolding matching_nibble_length
  matching-same e = rw e (omega arith)

  matching-other : (x == y) ≡ false → matching_nibble_length (x ∷ xs) (y ∷ ys) ≡ 0
  unfolding matching_nibble_length
  matching-other e = rw e

-- `matchingNibbleLength` is the length of the longest common prefix: it is at most both lengths,
-- so many nibbles agree, and then the first list ends or the next nibbles differ.
pub matching_nibble_length_lem :
    (xs ys : List ℕ)
    → (take (matching_nibble_length xs ys) xs ≡ take (matching_nibble_length xs ys) ys)
      × (matching_nibble_length xs ys ≤ length xs)
      × (matching_nibble_length xs ys ≤ length ys)
      × ((get_elem? xs (matching_nibble_length xs ys) ≡ none)
          ⊎ (get_elem? xs (matching_nibble_length xs ys)
              ≢ get_elem? ys (matching_nibble_length xs ys)))
matching_nibble_length_lem [] ys =
    unfold matching_nibble_length in (refl, omega arith, omega arith, inl refl)
matching_nibble_length_lem (x ∷ xs) [] =
    unfold matching_nibble_length in (refl, omega arith, omega arith, inr (λ p. cc))
matching_nibble_length_lem (x ∷ xs) (y ∷ ys) =
    let (same, left, right, next) = matching_nibble_length_lem xs ys in
    elim (Bool-cases (x == y)) [
      | inl e ↦
          rw (matching-same x y xs ys e)
            (ap₂ ◌∷◌ (ground arith) same, omega arith, omega arith, next)
      | inr e ↦
          rw (matching-other x y xs ys e) (refl, omega arith, omega arith, inr (λ p. ground arith))
    ]
