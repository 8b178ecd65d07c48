-- ===== src/BitChain/Changed.antt =====
-- The bits of a row after the changes of HashDifferent and ChangeSpentChain.
use flex.Common.{
  ℕ, ◌≡◌, refl, ◌∙◌, ap, Bool, true, false, not, ◌&&◌, ◌||◌, List, [], ◌∷◌, ◌++◌, arith, ltb, ◌==◌,
  length, map,
}
use flex.BitChain.Row.{
  Row, bit_at, with_bit, Op, on_row, on_row_each, bit_at-with_bit, length-with_bit,
  bit_at-row_of_length, length-row_of_length, bit_at_outside, row_of_length,
}
use flex.BitChain.Hash.{different_ops}

-- A position stands among the positions.
abbrev pub among : ℕ → List ℕ → Bool
among q [] = false
among q (p ∷ positions) = p == q || among q positions

bit_at-sets :
    (q : ℕ) (positions : List ℕ) (row : Row)
    → bit_at q (on_row_each (map Op.mark positions) row)
      ≡ ((among q positions && ltb q (length row)) || bit_at q row)
bit_at-sets q [] row = refl
bit_at-sets q (p ∷ positions) row = ground (
  arith,
  bit_at-sets q positions (with_bit p true row),
  bit_at-with_bit p q true row,
  length-with_bit p true row,
)

bit_at-clears :
    (q : ℕ) (positions : List ℕ) (row : Row)
    → bit_at q (on_row_each (map Op.unmark positions) row)
      ≡ (not (among q positions) && bit_at q row)
bit_at-clears q [] row = refl
bit_at-clears q (p ∷ positions) row = ground (
  arith,
  bit_at-clears q positions (with_bit p false row),
  bit_at-with_bit p q false row,
  bit_at_outside q row,
)

length-sets :
    (positions : List ℕ) (row : Row) → length (on_row_each (map Op.mark positions) row) ≡ length row
length-sets [] row = refl
length-sets (p ∷ positions) row =
    length-sets positions (with_bit p true row) ∙ length-with_bit p true row

length-clears :
    (positions : List ℕ) (row : Row)
    → length (on_row_each (map Op.unmark positions) row) ≡ length row
length-clears [] row = refl
length-clears (p ∷ positions) row =
    length-clears positions (with_bit p false row) ∙ length-with_bit p false row

on_row_each-append :
    (ops more : List Op) (row : Row)
    → on_row_each (ops ++ more) row ≡ on_row_each more (on_row_each ops row)
on_row_each-append [] more row = refl
on_row_each-append (op ∷ ops) more row = on_row_each-append ops more (on_row op row)

-- A bit is set afterwards if it lies within the length, is not to be cleared, and was set or is to be.
pub bit_at-different :
    (q : ℕ) (to_set to_clear : List ℕ) (n : ℕ) (row : Row)
    → bit_at q (on_row_each (different_ops to_set to_clear n) row)
      ≡ (not (among q to_clear) && (ltb q n && (among q to_set || bit_at q row)))
bit_at-different q to_set to_clear n row =
    let cut = row_of_length n row in
    ap (bit_at q) (on_row_each-append (map Op.mark to_set) (map Op.unmark to_clear) cut)
    ∙ bit_at-clears q to_clear (on_row_each (map Op.mark to_set) cut)
    ∙ ground
        (arith, bit_at-sets q to_set cut, bit_at-row_of_length n q row, length-row_of_length n row)

pub length-different :
    (to_set to_clear : List ℕ) (n : ℕ) (row : Row)
    → length (on_row_each (different_ops to_set to_clear n) row) ≡ n
length-different to_set to_clear n row =
    let cut = row_of_length n row in
    ap (length {A = Bool}) (on_row_each-append (map Op.mark to_set) (map Op.unmark to_clear) cut)
    ∙ length-clears to_clear (on_row_each (map Op.mark to_set) cut)
    ∙ length-sets to_set cut
    ∙ length-row_of_length n row
