-- ===== src/Calendar/Connection.antt =====
-- Whether a credit is connected to the calendar: CreditInBatchHasValidConnection and CheckBranches of
-- src/teleportnode/calendar.cpp.
pub mod Whole
pub mod Examples
use flex.Common.{
  ℕ, ◌%◌, Bool, true, false, not, ◌||◌, List, [], ◌∷◌, ◌==◌, if◌then◌else◌, length, get_elem?,
  get_or,
}
use flex.RelayState.Platform.{Point, u32_mod}
use flex.HashTrees.{symmetric_combine, evaluate_branch_with_hash}
use flex.HashTrees.Ordered.{last_entry, verify_branch_from_ordered_hash_tree}
use flex.Credits.{CreditInBatch, credit_bytes}
use flex.Calendar.{MinedCreditMessage}
use flex.Calendar.Tip.{CalendarData}
use flex.Calendar.Check.{contains_diurn}

-- The bytes of a key are a parameter.
module _ (key_bytes : Point → List ℕ) (stored : CalendarData) where
  -- CheckBranches; VerifyBranchFromOrderedHashTree takes a uint32_t.
  unfoldable pub check_branches : CreditInBatch → Bool
  unfolding credit_bytes last_entry verify_branch_from_ordered_hash_tree evaluate_branch_with_hash
  check_branches credit =
      let batch_root = last_entry stored.tree_hash credit.branch in
      let verified =
        verify_branch_from_ordered_hash_tree stored.tree_hash (credit.position % u32_mod)
          (credit_bytes key_bytes credit.credit) credit.branch batch_root in
      if not verified
      then false
      else if length credit.diurn_branch == 1
      then true
      else evaluate_branch_with_hash stored.tree_hash credit.diurn_branch batch_root 0
        == last_entry stored.tree_hash credit.diurn_branch

  -- Calendar_::CreditInBatchHasValidConnection, with InMainChain and the calends of the calendar of the node
  unfoldable pub credit_in_batch_has_valid_connection :
      (ℕ → Bool) → CreditInBatch → List MinedCreditMessage → Bool
  unfolding check_branches contains_diurn last_entry symmetric_combine
  credit_in_batch_has_valid_connection in_main_chain credit calends =
      let mined_credit_hash =
        symmetric_combine stored.tree_hash (get_or (get_elem? credit.diurn_branch 0) 0)
          (last_entry stored.tree_hash credit.branch) in
      let connected =
        if length credit.diurn_branch == 1
        then in_main_chain mined_credit_hash
        else contains_diurn stored (last_entry stored.tree_hash credit.diurn_branch) calends in
      if length credit.diurn_branch == 0 || length credit.branch == 0
      then false
      else if not connected
      then false
      else check_branches credit
