-- ===== src/BitChain/Row.antt =====
-- What a BitChain stands for: a row of Booleans.
use flex.Common.{
  ◌≤◌, ℕ, zero, suc, ◌≡◌, refl, Bool, true, false, ◌&&◌, List, [], ◌∷◌, ◌++◌, arith, ltb, ◌==◌,
  if◌then◌else◌, length, ap,
}

abbrev pub Row : Type 0
Row = List Bool

-- The bit at a place, false outside the row.
abbrev pub bit_at : ℕ → Row → Bool
bit_at q [] = false
bit_at zero (bit ∷ row) = bit
bit_at (suc q) (bit ∷ row) = bit_at q row

-- One bit changed; a place outside the row changes nothing.
abbrev pub with_bit : ℕ → Bool → Row → Row
with_bit p value [] = []
with_bit zero value (bit ∷ row) = value ∷ row
with_bit (suc p) value (bit ∷ row) = bit ∷ with_bit p value row

-- The row cut off at a length, or filled up with false.
abbrev pub row_of_length : ℕ → Row → Row
row_of_length zero row = []
row_of_length (suc n) [] = false ∷ row_of_length n []
row_of_length (suc n) (bit ∷ row) = bit ∷ row_of_length n row

-- The operations of a chain.
pub data Op : Type 0 where
  grow : Op
  mark : ℕ → Op
  unmark : ℕ → Op
  cut : ℕ → Op

abbrev pub on_row : Op → Row → Row
on_row Op.grow row = row ++ false ∷ []
on_row (Op.mark p) row = with_bit p true row
on_row (Op.unmark p) row = with_bit p false row
on_row (Op.cut n) row = row_of_length n row

abbrev pub on_row_each : List Op → Row → Row
on_row_each [] row = row
on_row_each (op ∷ ops) row = on_row_each ops (on_row op row)

pub bit_at-append_false : (q : ℕ) (row : Row) → bit_at q (row ++ false ∷ []) ≡ bit_at q row
bit_at-append_false zero [] = refl
bit_at-append_false (suc q) [] = refl
bit_at-append_false zero (bit ∷ row) = refl
bit_at-append_false (suc q) (bit ∷ row) = bit_at-append_false q row

pub bit_at-with_bit :
    (p q : ℕ) (value : Bool) (row : Row)
    → bit_at q (with_bit p value row)
      ≡ (if q == p && ltb p (length row) then value else bit_at q row)
bit_at-with_bit p q value [] = ground arith
bit_at-with_bit zero zero value (bit ∷ row) = ground arith
bit_at-with_bit zero (suc q) value (bit ∷ row) = ground arith
bit_at-with_bit (suc p) zero value (bit ∷ row) = ground arith
bit_at-with_bit (suc p) (suc q) value (bit ∷ row) = ground (arith, bit_at-with_bit p q value row)

pub length-with_bit :
    (p : ℕ) (value : Bool) (row : Row) → length (with_bit p value row) ≡ length row
length-with_bit p value [] = refl
length-with_bit zero value (bit ∷ row) = refl
length-with_bit (suc p) value (bit ∷ row) = ap ℕ.suc (length-with_bit p value row)

pub bit_at-row_of_length :
    (n q : ℕ) (row : Row) → bit_at q (row_of_length n row) ≡ (ltb q n && bit_at q row)
bit_at-row_of_length zero q row = ground arith
bit_at-row_of_length (suc n) zero [] = ground arith
bit_at-row_of_length (suc n) (suc q) [] = ground (arith, bit_at-row_of_length n q [])
bit_at-row_of_length (suc n) zero (bit ∷ row) = ground arith
bit_at-row_of_length (suc n) (suc q) (bit ∷ row) = ground (arith, bit_at-row_of_length n q row)

pub length-row_of_length : (n : ℕ) (row : Row) → length (row_of_length n row) ≡ n
length-row_of_length zero row = refl
length-row_of_length (suc n) [] = ap ℕ.suc (length-row_of_length n [])
length-row_of_length (suc n) (bit ∷ row) = ap ℕ.suc (length-row_of_length n row)

pub bit_at_outside : (q : ℕ) (row : Row) → length row ≤ q → bit_at q row ≡ false
bit_at_outside q [] h = refl
bit_at_outside zero (bit ∷ row) h = absurd (omega arith)
bit_at_outside (suc q) (bit ∷ row) h = bit_at_outside q row (omega arith)
