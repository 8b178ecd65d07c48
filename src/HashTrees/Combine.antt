-- ===== src/HashTrees/Combine.antt =====
-- SymmetricCombine does not depend on the order of the hashes, and what a branch evaluates to.
use flex.Common.{ℕ, zero, suc, ◌/◌, ◌≡◌, refl, List, [], ◌∷◌, ◌++◌, arith}
use flex.HashTrees.{xor_bits, or_bits, symmetric_combine, evaluate_rest}

xor_bits_comm : (width a b : ℕ) → xor_bits width a b ≡ xor_bits width b a
unfolding xor_bits
xor_bits_comm zero a b = refl
xor_bits_comm (suc width) a b = ground (arith, xor_bits_comm width (a / 2) (b / 2))

or_bits_comm : (width a b : ℕ) → or_bits width a b ≡ or_bits width b a
unfolding or_bits
or_bits_comm zero a b = refl
or_bits_comm (suc width) a b = ground (arith, or_bits_comm width (a / 2) (b / 2))

module _ (tree_hash : List ℕ → ℕ) where
  pub symmetric_combine_comm :
      (a b : ℕ) → symmetric_combine tree_hash a b ≡ symmetric_combine tree_hash b a
  unfolding symmetric_combine
  symmetric_combine_comm a b = rw (xor_bits_comm 160 a b, or_bits_comm 160) refl

  -- A hash combined with each entry in turn.
  abbrev pub climb : List ℕ → ℕ → ℕ
  climb [] hash = hash
  climb (entry ∷ branch) hash = climb branch (symmetric_combine tree_hash hash entry)

  pub climb-append :
      (branch more : List ℕ) (hash : ℕ)
      → climb (branch ++ more) hash ≡ climb more (climb branch hash)
  climb-append [] more hash = refl
  climb-append (entry ∷ branch) more hash =
      climb-append branch more (symmetric_combine tree_hash hash entry)

  -- EvaluateBranchWithHash leaves out the last entry.
  pub evaluate_rest-climb :
      (branch : List ℕ) (last hash : ℕ)
      → evaluate_rest tree_hash (branch ++ last ∷ []) hash ≡ climb branch hash
  unfolding evaluate_rest
  evaluate_rest-climb [] last hash = refl
  evaluate_rest-climb (entry ∷ []) last hash = refl
  evaluate_rest-climb (entry ∷ next ∷ branch) last hash =
      evaluate_rest-climb (next ∷ branch) last (symmetric_combine tree_hash hash entry)
