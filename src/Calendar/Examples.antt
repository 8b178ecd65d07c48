-- ===== src/Calendar/Examples.antt =====
-- A diurn of three credits, and what the theorems about the calendar say of it.
use flex.Common.{
  length, ◌≤◌, ◌⊎◌, suc, ℕ, ◌+◌, ◌*◌, ◌<◌, ◌≡◌, refl, some, List, [], ◌∷◌, ◌++◌, arith, true,
}
use flex.HashTrees.{evaluate_branch_with_hash}
use flex.HashTrees.DiurnalBlock.{DiurnalBlock, new_tree, contains, position}
use flex.HashTrees.DiurnalBlock.Filled.{IsFilled, new_tree-IsFilled}
use flex.Calendar.{MinedCredit, MinedCreditMessage}
use flex.Calendar.Difficulty.{ℤ, ◌+ℤ◌, get_difficulty, lower_times, lower, apply_adjustments}
use flex.Calendar.Difficulty.Infer.{apply_adjustments-get_difficulty}
use flex.Calendar.Diurn.{Diurn, branch, root, add, remove_last}
use flex.Calendar.Diurn.Branch.{branch-root}
use flex.Calendar.Diurn.Undo.{remove_last-add}
use flex.Calendar.TopUp.Covered.{difficulty_of, check_top_up_work_covered}
use flex.Calendar.TopUp.{
  CreditAndProof, total_credit_work, check_top_up_work, check_top_up_work_proofs, proofs_valid,
  check_top_up_work_credits, credits_follow, check_top_up_work_quantities, quantities_ok,
  sum_work_done, drop_top_up_work_credits,
}
use flex.Calendar.TopUp.Drop.{cleared, held, drop_top_up_work_credits-cleared}

abbrev sum_of : List ℕ → ℕ
sum_of [] = 7
sum_of (byte ∷ bytes) = byte + 3 * sum_of bytes

abbrev three_hashes : List ℕ
three_hashes = 30 ∷ 50 ∷ 90 ∷ []

abbrev three_block : DiurnalBlock
three_block = record { hashes = three_hashes; tree = some (new_tree three_hashes) }

abbrev any_message : ℕ → MinedCreditMessage
any_message hash = record {
  mined_credit = record {
    hash = hash;
    previous_mined_credit_hash = 0;
    previous_diurn_root = 11;
    diurnal_block_root = 0;
    batch_number = 1;
    timestamp = 0;
    difficulty = 100;
    total_work = 0;
    diurnal_difficulty = 500_000_000;
  };
  difficulty_achieved = 100;
  work_done = 100;
}

abbrev three_diurn : Diurn
three_diurn = record {
  previous_diurn_root = 11;
  diurnal_block = three_block;
  credits_in_diurn = any_message 30 ∷ any_message 50 ∷ any_message 90 ∷ [];
  initial_difficulty = 500_000_000;
  current_difficulty = 499_500_000;
}

three_IsFilled : IsFilled sum_of three_block
three_IsFilled = new_tree-IsFilled sum_of three_hashes (omega arith) (omega arith)

branch-root_example :
    (entries : List ℕ) × (diurn' : Diurn) × (branch sum_of 50 three_diurn
      ≡ some (entries ++ root sum_of three_diurn ∷ [], diurn'))
    × (evaluate_branch_with_hash sum_of (entries ++ root sum_of three_diurn ∷ []) 50 0
        ≡ root sum_of three_diurn)
    × IsFilled sum_of diurn'.diurnal_block
branch-root_example =
    branch-root sum_of 50 three_diurn three_IsFilled (unfold contains position in refl)
      (omega arith) (omega arith, (omega arith, (omega arith, tt)))

one_lower : get_difficulty (ℤ.pos 1) ≡ 499_500_000
unfolding get_difficulty lower_times lower
one_lower = refl

two_lower : 0 < get_difficulty (ℤ.pos 2)
unfolding get_difficulty lower_times lower
two_lower = omega arith

apply_adjustments-get_difficulty_example :
    apply_adjustments 2 (get_difficulty (ℤ.pos 1)) (ℤ.negsuc 59)
    ≡ some (get_difficulty (ℤ.pos 1 +ℤ ℤ.negsuc 59))
apply_adjustments-get_difficulty_example =
    apply_adjustments-get_difficulty 2 1 (ℤ.negsuc 59) (omega (arith, one_lower)) (omega arith)

remove_last-add_example :
    (added : Diurn) × (add any_message 3 120 three_diurn ≡ some added)
    × (added.current_difficulty ≡ get_difficulty (ℤ.pos 2))
    × (remove_last 3 added ≡ some three_diurn)
remove_last-add_example =
    remove_last-add any_message 3 1 120 three_diurn
      (unfold get_difficulty lower_times lower in refl) (omega (arith, one_lower)) two_lower
      (omega arith)

abbrev top_up : ℕ → CreditAndProof
top_up hash = record {
  credit = (any_message hash).mined_credit;
  work_done = 100;
  spot_check_valid = true;
}

abbrev two_lists : List (List CreditAndProof)
two_lists = (top_up 30 ∷ top_up 50 ∷ []) ∷ (top_up 70 ∷ top_up 90 ∷ []) ∷ []

drop_top_up_work_credits-cleared_example :
    (k : ℕ) × (drop_top_up_work_credits 3 0 two_lists ≡ cleared k two_lists)
    × (held k two_lists ≤ 3)
    × ((k ≡ length two_lists) ⊎ (3 < held (suc k) two_lists))
drop_top_up_work_credits-cleared_example =
    drop_top_up_work_credits-cleared 3 two_lists (omega arith) (omega arith, (omega arith, tt))

abbrev hash_field : MinedCredit → ℕ
hash_field credit = credit.hash

-- A calend whose diurn has half the work that its credit asks.
abbrev calend_after : ℕ → MinedCreditMessage
calend_after previous = record {
  mined_credit = record (any_message 30).mined_credit {
    previous_mined_credit_hash = previous;
    total_work = 100;
    diurnal_difficulty = 100;
  };
  difficulty_achieved = 100;
  work_done = 100;
}

abbrev one_list : List (List CreditAndProof)
one_list = (top_up 30 ∷ []) ∷ []

abbrev one_calend : List MinedCreditMessage
one_calend = calend_after 30 ∷ []

check_top_up_work_covered_example :
    (length one_list ≡ length one_calend)
    × (total_credit_work (calend_after 30)
        ≤ (calend_after 30).mined_credit.diurnal_difficulty + difficulty_of (top_up 30 ∷ []))
check_top_up_work_covered_example =
    check_top_up_work_covered hash_field (any_message 7).mined_credit one_list one_calend 0
      (top_up 30 ∷ []) (calend_after 30)
      (unfold check_top_up_work check_top_up_work_quantities quantities_ok sum_work_done
          total_credit_work check_top_up_work_credits credits_follow check_top_up_work_proofs
          proofs_valid in
        refl)
      refl refl
