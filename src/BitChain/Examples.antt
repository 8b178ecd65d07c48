-- ===== src/BitChain/Examples.antt =====
-- A chain of three bits, and what the theorems say of it.
use flex.Common.{ℕ, ◌≡◌, true, false, List, [], ◌∷◌}
use flex.BitChain.{BitChain, empty_chain, get}
use flex.BitChain.Row.{Row, Op}
use flex.BitChain.Refine.{Represents, on_chain_each, empty-Represents}
use flex.BitChain.Hash.{different_ops, each-Represents, on_chain_each-Represents}

abbrev sum_of : List ℕ → ℕ
sum_of [] = 7
sum_of (byte ∷ bytes) = byte

abbrev three_ops : List Op
three_ops = Op.grow ∷ Op.grow ∷ Op.mark 1 ∷ Op.grow ∷ Op.unmark 2 ∷ []

abbrev three_bits : Row
three_bits = false ∷ true ∷ false ∷ []

three-Represents : Represents (on_chain_each three_ops empty_chain) three_bits
three-Represents = each-Represents three_ops empty_chain [] empty-Represents

on_chain_each-Represents_example :
    Represents (on_chain_each three_ops empty_chain) three_bits
    × (get 1 (on_chain_each three_ops empty_chain) ≡ true)
on_chain_each-Represents_example =
    on_chain_each-Represents three_ops empty_chain [] 1 empty-Represents

abbrev changed : BitChain
changed = on_chain_each (different_ops (0 ∷ []) (1 ∷ []) 9) (on_chain_each three_ops empty_chain)
