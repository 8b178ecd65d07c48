-- ===== src/VectorTools.antt =====
-- src/vector_tools.h: searching and erasing in a std::vector.
pub mod Laws
use flex.Common.{
  ℕ, suc, Bool, true, false, List, [], ◌∷◌, ◌++◌, ltb, if◌then◌else◌, length, Eq, ◌||◌,
}

module _ {ℓ} {A : Type ℓ} where
  -- v.erase(v.begin() + position)
  unfoldable pub erase_at : ℕ → List A → List A
  erase_at position [] = []
  erase_at ℕ.zero (x ∷ xs) = xs
  erase_at (suc position) (x ∷ xs) = x ∷ erase_at position xs

  -- ConcatenateVectors
  unfoldable pub concatenate_vectors : List A → List A → List A
  concatenate_vectors vector1 vector2 = vector1 ++ vector2

module _ {ℓ} {A : Type ℓ} ⦃e : Eq A⦄ where
  -- VectorContainsEntry, and ArrayContainsEntry
  unfoldable pub vector_contains_entry : List A → A → Bool
  vector_contains_entry [] entry = false
  vector_contains_entry (x ∷ xs) entry = e.beq x entry || vector_contains_entry xs entry

  -- PositionOfEntryInVector: the size of the vector, if the entry is not there
  unfoldable pub position_of_entry_in_vector : A → List A → ℕ
  position_of_entry_in_vector entry [] = 0
  position_of_entry_in_vector entry (x ∷ xs) =
      if e.beq x entry then 0 else suc (position_of_entry_in_vector entry xs)

  -- EraseEntryFromVector
  unfoldable pub erase_entry_from_vector : A → List A → List A
  erase_entry_from_vector entry vector =
      let position = position_of_entry_in_vector entry vector in
      if ltb position (length vector) then erase_at position vector else vector
