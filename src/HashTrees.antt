-- ===== src/HashTrees.antt =====
-- src/crypto/hashtrees.h, lines 22 to 60: how two hashes are combined. Hash160 of a byte string, which
-- TreeHash calls, is a parameter.
pub mod Node
pub mod Combine
pub mod DiurnalBlock
pub mod Ordered
use flex.Common.{ℕ, zero, suc, ◌+◌, ◌*◌, ◌/◌, ◌%◌, List, [], ◌∷◌, ◌++◌, ◌==◌, if◌then◌else◌, drop}

-- The bytes of a number in memory, lowest first.
unfoldable pub bytes_of : ℕ → ℕ → List ℕ
bytes_of zero n = []
bytes_of (suc width) n = n % 256 ∷ bytes_of width (n / 256)

-- operator^ of a uint160, on the lowest `width` bits
unfoldable pub xor_bits : ℕ → ℕ → ℕ → ℕ
xor_bits zero a b = 0
xor_bits (suc width) a b = (a + b) % 2 + 2 * xor_bits width (a / 2) (b / 2)

-- operator| of a uint160
unfoldable pub or_bits : ℕ → ℕ → ℕ → ℕ
or_bits zero a b = 0
or_bits (suc width) a b = (if a % 2 + b % 2 == 0 then 0 else 1) + 2 * or_bits width (a / 2) (b / 2)

module _ (tree_hash : List ℕ → ℕ) where
  -- AsymmetricCombine, and Combine
  unfoldable pub asymmetric_combine : ℕ → ℕ → ℕ
  unfolding bytes_of
  asymmetric_combine hash1 hash2 = tree_hash (bytes_of 20 hash1 ++ bytes_of 20 hash2)

  -- SymmetricCombine
  unfoldable pub symmetric_combine : ℕ → ℕ → ℕ
  unfolding bytes_of xor_bits or_bits
  symmetric_combine hash1 hash2 = tree_hash (
      bytes_of 20 (xor_bits 160 hash1 hash2)
      ++ bytes_of 20 (or_bits 160 (tree_hash (bytes_of 20 hash1)) (tree_hash (bytes_of 20 hash2))))

  -- The loop of EvaluateBranchWithHash: all entries but the last.
  unfoldable pub evaluate_rest : List ℕ → ℕ → ℕ
  evaluate_rest [] hash = hash
  evaluate_rest (entry ∷ []) hash = hash
  evaluate_rest (entry ∷ next ∷ rest) hash =
      evaluate_rest (next ∷ rest) (symmetric_combine hash entry)

  -- EvaluateBranchWithHash
  unfoldable pub evaluate_branch_with_hash : List ℕ → ℕ → ℕ → ℕ
  unfolding evaluate_rest
  evaluate_branch_with_hash branch hash start_position =
      evaluate_rest (drop start_position branch) hash
