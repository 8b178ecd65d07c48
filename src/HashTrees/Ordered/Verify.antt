-- ===== src/HashTrees/Ordered/Verify.antt =====
-- What the hash of an element says of its position.
use flex.Common.{ℕ, suc, ◌+◌, ◌≤◌, ◌≡◌, refl, ap, ◌∙◌, sym, List, [], ◌∷◌, arith, length}
use flex.HashTrees.{bytes_of}
use flex.HashTrees.Ordered.{
  zeros, write, position_plus_data, element_hash, verify_branch_from_ordered_hash_tree,
}

four : (n : ℕ) → 4 + n ≡ suc (suc (suc (suc n)))
four n = omega arith

-- The bytes of the position lie under the bytes of the data.
hidden :
    (a b c d : ℕ) (bytes : List ℕ)
    → 4 ≤ length bytes
    → write bytes (write (a ∷ b ∷ c ∷ d ∷ []) (zeros (4 + length bytes)))
      ≡ write bytes (zeros (4 + length bytes))
unfolding write zeros
hidden a b c d [] h = absurd (omega arith)
hidden a b c d (w ∷ []) h = absurd (omega arith)
hidden a b c d (w ∷ x ∷ []) h = absurd (omega arith)
hidden a b c d (w ∷ x ∷ y ∷ []) h = absurd (omega arith)
hidden a b c d (w ∷ x ∷ y ∷ z ∷ bytes) h = rw (four (length (w ∷ x ∷ y ∷ z ∷ bytes))) refl

-- Of an element with at least four bytes of data, OrderedDataElement::Hash does not depend on the
-- position, which the second memcpy overwrites: VerifyBranchFromOrderedHashTree gives the same
-- answer for any two positions.
verify_branch_position :
    (tree_hash : List ℕ → ℕ) (position1 position2 root : ℕ) (element branch : List ℕ)
    → 4 ≤ length element
    → verify_branch_from_ordered_hash_tree tree_hash position1 element branch root
      ≡ verify_branch_from_ordered_hash_tree tree_hash position2 element branch root
verify_branch_position tree_hash position1 position2 root element branch h =
    unfold verify_branch_from_ordered_hash_tree in rw (same) refl
  where
    same :
        element_hash tree_hash (record { position = position1; bytes = element })
        ≡ element_hash tree_hash (record { position = position2; bytes = element })
    same =
        unfold element_hash position_plus_data bytes_of in
        ap tree_hash (hidden _ _ _ _ element h ∙ sym (hidden _ _ _ _ element h))
