-- ===== src/Calendar/Difficulty/Infer.antt =====
-- The number of adjustments is found again from the difficulty.
use flex.Common.{ℕ, zero, suc, ◌+◌, ◌≤◌, ◌<◌, ◌≡◌, refl, some, arith}
use flex.Calendar.Difficulty.{
  ℤ, ◌+ℤ◌, initial_diurnal_difficulty, lower, lower_times, get_difficulty, count_lowers,
  infer_num_adjustments_from_difficulty, apply_adjustments,
}

lower-lt : (d : ℕ) → 0 < d → d ≤ initial_diurnal_difficulty → lower d < d
unfolding lower
lower-lt d h k = omega arith

lower-le : (d : ℕ) → d ≤ initial_diurnal_difficulty → lower d ≤ d
unfolding lower
lower-le d k = omega arith

lower_times-le : (n d : ℕ) → d ≤ initial_diurnal_difficulty → lower_times n d ≤ d
unfolding lower_times
lower_times-le zero d k = omega arith
lower_times-le (suc n) d k =
    omega (arith, lower_times-le n (lower d) (omega (arith, lower-le d k)), lower-le d k)

-- A difficulty that is reached by lowering and not zero is reached in one number of rounds only.
count_lowers_lem :
    (k fuel d num : ℕ)
    → 0 < lower_times k d
    → d ≤ initial_diurnal_difficulty
    → k < fuel
    → count_lowers fuel (lower_times k d) d num ≡ some (num + k)
unfolding count_lowers lower_times
count_lowers_lem k zero d num p le h = absurd (omega arith)
count_lowers_lem zero (suc fuel) d num p le h = ground arith
count_lowers_lem (suc k) (suc fuel) d num p le h = ground (
  arith,
  count_lowers_lem k fuel (lower d) (num + 1) p (omega (arith, lower-le d le)) (omega arith),
  lower_times-le k (lower d) (omega (arith, lower-le d le)),
  lower-lt d,
)

infer_lem :
    (fuel n : ℕ)
    → 0 < get_difficulty (ℤ.pos n)
    → n < fuel
    → infer_num_adjustments_from_difficulty fuel (get_difficulty (ℤ.pos n)) ≡ some (ℤ.pos n)
unfolding infer_num_adjustments_from_difficulty get_difficulty
infer_lem fuel zero p h = unfold lower_times in ground arith
infer_lem fuel (suc n) p h =
    ground
      (arith, count_lowers_lem (suc n) fuel initial_diurnal_difficulty 0 p (omega arith) h, below n)
  where
    below : (n : ℕ) → lower_times (suc n) initial_diurnal_difficulty < initial_diurnal_difficulty
    below n =
        unfold lower_times in
        omega (
          arith,
          lower_times-le n (lower initial_diurnal_difficulty)
              (lower-le initial_diurnal_difficulty (omega arith)),
          lower-lt initial_diurnal_difficulty (omega arith) (omega arith),
        )

-- ApplyAdjustments to the difficulty after n downward adjustments, where that is not zero, ends, with
-- fuel for more than n rounds, and gives the difficulty after n adjustments and the new ones, up or
-- down: adjustments add up, and those that sum to nothing restore the difficulty.
pub apply_adjustments-get_difficulty :
    (fuel n : ℕ) (num : ℤ)
    → 0 < get_difficulty (ℤ.pos n)
    → n < fuel
    → apply_adjustments fuel (get_difficulty (ℤ.pos n)) num ≡ some (get_difficulty (ℤ.pos n +ℤ num))
apply_adjustments-get_difficulty fuel n num p h =
    unfold apply_adjustments in rw (infer_lem fuel n p h, apply_adjustments) refl
