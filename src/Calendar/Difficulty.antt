-- ===== src/Calendar/Difficulty.antt =====
-- GetDifficulty, InferNumAdjustmentsFromDifficulty and ApplyAdjustments of
-- src/teleportnode/calendar.cpp.
pub mod Infer
use flex.Common.{
  ℕ, zero, suc, ◌+◌, ◌-◌, ◌*◌, ◌/◌, ◌%◌, ◌^◌, Bool, true, false, Option, none, some, ltb, ◌==◌,
  if◌then◌else◌,
}
use flex.RelayState.Platform.{u32_mod}
use flex.Calendar.{MinedCredit}

-- int64_t, with no bound
pub data ℤ : Type 0 where
  pos negsuc : ℕ → ℤ

-- a - b
abbrev pub ℤ_difference : ℕ → ℕ → ℤ
ℤ_difference a b = if ltb a b then ℤ.negsuc (b - a - 1) else ℤ.pos (a - b)

-- a - b on uint32_t, as an int64_t
abbrev pub u32_difference : ℕ → ℕ → ℤ
u32_difference a b = ℤ.pos ((a + u32_mod - b % u32_mod) % u32_mod)

infixl 60 ◌+ℤ◌
abbrev pub ◌+ℤ◌ : ℤ → ℤ → ℤ
pos a +ℤ pos b = ℤ.pos (a + b)
pos a +ℤ negsuc b = ℤ_difference a (b + 1)
negsuc a +ℤ pos b = ℤ_difference b (a + 1)
negsuc a +ℤ negsuc b = ℤ.negsuc (a + b + 1)

abbrev pub u160_mod : ℕ
u160_mod = 2 ^ 160

abbrev pub initial_diurnal_difficulty : ℕ
initial_diurnal_difficulty = 500_000_000

abbrev pub diurn_duration : ℕ
diurn_duration = 24 * 60 * 60 * 1_000_000

-- difficulty * 999 / 1000 and difficulty * 1000 / 999 on uint160
unfoldable pub lower : ℕ → ℕ
lower difficulty = difficulty * 999 % u160_mod / 1000

unfoldable pub raise : ℕ → ℕ
raise difficulty = difficulty * 1000 % u160_mod / 999

unfoldable pub lower_times : ℕ → ℕ → ℕ
lower_times zero difficulty = difficulty
lower_times (suc n) difficulty = lower_times n (lower difficulty)

unfoldable pub raise_times : ℕ → ℕ → ℕ
raise_times zero difficulty = difficulty
raise_times (suc n) difficulty = raise_times n (raise difficulty)

-- GetDifficulty
unfoldable pub get_difficulty : ℤ → ℕ
unfolding lower_times raise_times
get_difficulty (pos n) = lower_times n initial_diurnal_difficulty
get_difficulty (negsuc n) = raise_times (suc n) initial_diurnal_difficulty

-- while (difficulty > diff), and how often it ran
unfoldable pub count_raises : ℕ → ℕ → ℕ → ℕ → Option ℕ
unfolding raise
count_raises zero difficulty diff num = none
count_raises (suc fuel) difficulty diff num =
    let rest = count_raises fuel difficulty (raise diff) (num + 1) in
    if ltb diff difficulty then rest else some num

-- while (difficulty < diff)
unfoldable pub count_lowers : ℕ → ℕ → ℕ → ℕ → Option ℕ
unfolding lower
count_lowers zero difficulty diff num = none
count_lowers (suc fuel) difficulty diff num =
    let rest = count_lowers fuel difficulty (lower diff) (num + 1) in
    if ltb difficulty diff then rest else some num

-- minus n
abbrev pub negate : ℕ → ℤ
negate zero = ℤ.pos 0
negate (suc n) = ℤ.negsuc n

-- InferNumAdjustmentsFromDifficulty, on fuel for the rounds of its loop
unfoldable pub infer_num_adjustments_from_difficulty : ℕ → ℕ → Option ℤ
unfolding count_raises count_lowers
infer_num_adjustments_from_difficulty fuel difficulty =
    if difficulty == initial_diurnal_difficulty
    then some (ℤ.pos 0)
    else if ltb initial_diurnal_difficulty difficulty
    then elim (count_raises fuel difficulty initial_diurnal_difficulty 0) [
      | none ↦ none
      | some n ↦ some (negate n)
    ]
    else elim (count_lowers fuel difficulty initial_diurnal_difficulty 0) [
      | none ↦ none
      | some n ↦ some (ℤ.pos n)
    ]

-- ApplyAdjustments
unfoldable pub apply_adjustments : ℕ → ℕ → ℤ → Option ℕ
unfolding infer_num_adjustments_from_difficulty get_difficulty
apply_adjustments fuel diurnal_difficulty num =
    elim (infer_num_adjustments_from_difficulty fuel diurnal_difficulty) [
      | none ↦ none
      | some previous_adjustments ↦ some (get_difficulty (previous_adjustments +ℤ num))
    ]

-- GetNextDiurnInitialDifficulty
unfoldable pub get_next_diurn_initial_difficulty : ℕ → MinedCredit → MinedCredit → Option ℕ
unfolding apply_adjustments
get_next_diurn_initial_difficulty fuel last_calend_credit calend_credit =
    let num_block_adjustments =
      u32_difference calend_credit.batch_number (last_calend_credit.batch_number + 1) in
    let previous_diurn_duration =
      (calend_credit.timestamp + 2 ^ 64 - last_calend_credit.timestamp) % 2 ^ 64 in
    let diurn_adjustments =
      if ltb diurn_duration previous_diurn_duration then ℤ.pos 60 else ℤ.negsuc 59 in
    apply_adjustments fuel calend_credit.diurnal_difficulty
      (diurn_adjustments +ℤ minus num_block_adjustments)
  where
    minus : ℤ → ℤ
    minus (pos n) = negate n
    minus (negsuc n) = ℤ.pos (suc n)
