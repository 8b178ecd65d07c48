-- ===== src/Calendar/TopUp/Covered.antt =====
-- What the checks of the top-up work assure together.
use flex.Common.{
  sym, ℕ, zero, suc, ◌+◌, ◌%◌, ◌≤◌, ◌≡◌, true, some, List, [], ◌∷◌, arith, length, get_elem?,
}
use mathlib.Core.Option.{some-injective}
use flex.Calendar.{MinedCredit, MinedCreditMessage}
use flex.Calendar.Difficulty.{u160_mod}
use flex.Calendar.TopUp.{
  CreditAndProof, total_credit_work, proofs_valid, check_top_up_work_proofs, sum_work_done,
  quantities_ok, check_top_up_work_quantities, check_top_up_work,
}

-- The difficulties of the credits of a list together.
abbrev pub difficulty_of : List CreditAndProof → ℕ
difficulty_of [] = 0
difficulty_of (pair ∷ pairs) = pair.credit.difficulty + difficulty_of pairs

sum_work_done_bound :
    (pairs : List CreditAndProof) (work : ℕ)
    → proofs_valid pairs ≡ true
    → sum_work_done pairs work ≤ work + difficulty_of pairs
unfolding proofs_valid sum_work_done
sum_work_done_bound [] work h = omega arith
sum_work_done_bound (pair ∷ pairs) work h =
    let same : pair.work_done ≡ pair.credit.difficulty = ground (arith, h) in
    let rest : proofs_valid pairs ≡ true = ground (arith, h) in
    omega (arith, same, sum_work_done_bound pairs ((work + pair.work_done) % u160_mod) rest)

covered_at :
    (i : ℕ) (lists : List (List CreditAndProof)) (calends : List MinedCreditMessage)
    (pairs : List CreditAndProof) (calend : MinedCreditMessage)
    → quantities_ok lists calends ≡ true
    → check_top_up_work_proofs lists ≡ true
    → get_elem? lists i ≡ some pairs
    → get_elem? calends i ≡ some calend
    → total_credit_work calend ≤ calend.mined_credit.diurnal_difficulty + difficulty_of pairs
unfolding quantities_ok check_top_up_work_proofs
covered_at i [] calends pairs calend q v e f = absurd cc
covered_at i (first ∷ lists) [] pairs calend q v e f = absurd cc
covered_at zero (first ∷ lists) (c ∷ calends) pairs calend q v e f =
    let bound = sum_work_done_bound first 0 (ground (arith, v)) in
    let here : total_credit_work c ≤ c.mined_credit.diurnal_difficulty + difficulty_of first =
      ground (arith, q, bound) in
    rw (sym (some-injective first pairs e), sym (some-injective c calend f)) here
covered_at (suc i) (first ∷ lists) (c ∷ calends) pairs calend q v e f =
    covered_at i lists calends pairs calend (ground (arith, q)) (ground (arith, v)) e f

-- When CheckTopUpWork accepts, there are as many lists of credits as calends, and for each calend with
-- its list the difficulty of the calend's diurn and the difficulties of the credits in the list, added
-- without overflow, reach the total work of the calend's credit.
pub check_top_up_work_covered :
    (get_hash : MinedCredit → ℕ) (credit : MinedCredit) (lists : List (List CreditAndProof))
    (calends : List MinedCreditMessage) (i : ℕ) (pairs : List CreditAndProof)
    (calend : MinedCreditMessage)
    → check_top_up_work get_hash credit lists calends ≡ true
    → get_elem? lists i ≡ some pairs
    → get_elem? calends i ≡ some calend
    → (length lists ≡ length calends)
      × (total_credit_work calend ≤ calend.mined_credit.diurnal_difficulty + difficulty_of pairs)
unfolding check_top_up_work check_top_up_work_quantities
check_top_up_work_covered get_hash credit lists calends i pairs calend h e f = (
  ground (arith, h),
  covered_at i lists calends pairs calend (ground (arith, h)) (ground (arith, h)) e f,
)
