-- ===== src/Calendar/Check.antt =====
-- The checks of a whole calendar in src/teleportnode/calendar.cpp: its roots, its difficulties and the
-- recorded failures of spot checks.
pub mod Accepted
pub mod Failures
pub mod Examples
use flex.Common.{
  ℕ, ◌+◌, Bool, true, false, not, ◌&&◌, Option, none, some, List, [], ◌∷◌, ltb, leb, ◌==◌,
  if◌then◌else◌, length,
}
use flex.StdMap.{Map, put, count}
use flex.HashTrees.{symmetric_combine}
use flex.Calendar.{MinedCreditMessage}
use flex.Calendar.Difficulty.{
  u32_difference, initial_diurnal_difficulty, apply_adjustments, get_next_diurn_initial_difficulty,
}
use flex.Calendar.Diurn
use flex.Calendar.Tip.{CalendarData, Calendar}

-- CalendarFailureDetails_, without the spot check that failed
pub record FailureDetails : Type 0 where
  pub diurn_root : ℕ
  pub credit_hash : ℕ

module _ (stored : CalendarData) where
  -- Calend_::Root
  unfoldable pub calend_root : MinedCreditMessage → ℕ
  calend_root calend =
      symmetric_combine stored.tree_hash calend.mined_credit.previous_diurn_root
        calend.mined_credit.diurnal_block_root

  -- Calendar_::ContainsDiurn
  unfoldable pub contains_diurn : ℕ → List MinedCreditMessage → Bool
  unfolding calend_root
  contains_diurn diurn_root [] = false
  contains_diurn diurn_root (calend ∷ calends) =
      let rest = contains_diurn diurn_root calends in
      if calend_root calend == diurn_root then true else rest

  -- The test of previous_diurn_root, with the calends before in reverse order.
  unfoldable pub is_linked : List MinedCreditMessage → MinedCreditMessage → Bool
  unfolding calend_root
  is_linked [] calend = true
  is_linked (last ∷ before) calend = calend.mined_credit.previous_diurn_root == calend_root last

  -- correct_final_difficulty, from the two calends before
  unfoldable pub correct_final_difficulty :
      MinedCreditMessage → MinedCreditMessage → MinedCreditMessage → Option ℕ
  correct_final_difficulty first last calend =
      elim (get_next_diurn_initial_difficulty stored.fuel first.mined_credit last.mined_credit) [
        | none ↦ none
        | some correct_initial_difficulty ↦
            let diurn_size =
              u32_difference calend.mined_credit.batch_number
                (last.mined_credit.batch_number + 1) in
            apply_adjustments stored.fuel correct_initial_difficulty diurn_size
      ]

  unfoldable pub difficulty_correct : List MinedCreditMessage → MinedCreditMessage → Option Bool
  unfolding correct_final_difficulty
  difficulty_correct [] calend = some true
  difficulty_correct (last ∷ []) calend = some true
  difficulty_correct (last ∷ first ∷ before) calend =
      elim (correct_final_difficulty first last calend) [
        | none ↦ none
        | some difficulty ↦ some (calend.mined_credit.diurnal_difficulty == difficulty)
      ]

  -- The loop of Calendar_::CheckRootsAndDifficulty
  unfoldable pub check_steps : List MinedCreditMessage → List MinedCreditMessage → Option Bool
  unfolding is_linked difficulty_correct
  check_steps before [] = some true
  check_steps before (calend ∷ calends) =
      let rest = check_steps (calend ∷ before) calends in
      if not (is_linked before calend)
      then some false
      else elim (difficulty_correct before calend) [
        | none ↦ none
        | some correct ↦
            if not correct
            then some false
            else if ltb calend.difficulty_achieved calend.mined_credit.diurnal_difficulty
            then some false
            else rest
      ]

  -- The test of calends[0]
  unfoldable pub first_difficulty_correct : List MinedCreditMessage → Option Bool
  first_difficulty_correct [] = some true
  first_difficulty_correct (calend ∷ calends) =
      elim (apply_adjustments stored.fuel initial_diurnal_difficulty
        (u32_difference calend.mined_credit.batch_number 1)) [
          | none ↦ none
          | some difficulty ↦ some (calend.mined_credit.diurnal_difficulty == difficulty)
        ]

  -- Calendar_::PreviousDiurnRoot
  unfoldable pub previous_diurn_root : Calendar → ℕ
  unfolding Diurn.last Diurn.first
  previous_diurn_root c =
      let size = length c.current_diurn.diurnal_block.hashes in
      let first_credit = stored.credits (Diurn.first c.current_diurn) in
      if ltb 1 size
      then (stored.credits (Diurn.last c.current_diurn)).previous_diurn_root
      else if size == 1 && ltb 0 (length c.calends)
      then symmetric_combine stored.tree_hash first_credit.previous_diurn_root
          first_credit.diurnal_block_root
      else 0

  -- The last part of Calendar_::CheckRootsAndDifficulty
  unfoldable pub check_current_diurn : Calendar → Bool
  unfolding previous_diurn_root Diurn.last
  check_current_diurn c =
      if ltb 0 (length c.current_diurn.diurnal_block.hashes)
      then if stored.has_msg (Diurn.last c.current_diurn)
        then c.current_diurn.previous_diurn_root == previous_diurn_root c
        else true
      else length c.calends == 0

  -- Calendar_::CheckRootsAndDifficulty: `none` where the fuel of ApplyAdjustments runs out.
  unfoldable pub check_roots_and_difficulty : Calendar → Option Bool
  unfolding first_difficulty_correct check_steps check_current_diurn
  check_roots_and_difficulty c = elim (first_difficulty_correct c.calends) [
    | none ↦ none
    | some correct ↦ if not correct then some false else elim (check_steps [] c.calends) [
      | none ↦ none
      | some passed ↦ if not passed then some false else some (check_current_diurn c)
    ]
  ]

  -- Whether calendardata has "failure_details" for the root of a calend.
  unfoldable pub has_failure : Map FailureDetails → List MinedCreditMessage → Bool
  unfolding calend_root
  has_failure failures [] = false
  has_failure failures (calend ∷ calends) =
      let rest = has_failure failures calends in
      if count (calend_root calend) failures then true else rest

  -- Calendar_::Validate
  unfoldable pub validate : Map FailureDetails → Calendar → Option Bool
  unfolding has_failure check_roots_and_difficulty
  validate failures c =
      if has_failure failures c.calends then some false else check_roots_and_difficulty c

  -- Calendar_::SpotCheckWork, with the details and the failures that it writes.
  unfoldable pub spot_check_work :
      List MinedCreditMessage
      → FailureDetails
      → Map FailureDetails
      → Bool × FailureDetails × Map FailureDetails
  unfolding calend_root
  spot_check_work [] details failures = (true, details, failures)
  spot_check_work (calend ∷ calends) details failures =
      let rest = spot_check_work calends details failures in
      let found : FailureDetails = record {
        diurn_root = calend_root calend;
        credit_hash = calend.mined_credit.hash;
      } in
      if not (stored.spot_check_valid calend.mined_credit.hash)
      then (false, found, put (calend_root calend) found failures)
      else rest
