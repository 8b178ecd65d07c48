-- ===== src/Calendar/Tip.antt =====
-- The class Calendar_ of src/teleportnode/calendar.h and calendar.cpp: how it takes in mined credits.
pub mod Trim
pub mod Topped
pub mod Frame
pub mod Reached
pub mod Examples
use flex.Common.{
  ℕ, ◌+◌, ◌-◌, ◌%◌, ◌^◌, Bool, true, false, not, ◌&&◌, ◌||◌, Option, none, some, List, [], ◌∷◌,
  ◌++◌, ltb, leb, ◌==◌, if◌then◌else◌, length,
}
use flex.StdMap.{Map, Set, put, insert}
use flex.Exceptions.{Result, Exception, ok, throw, wrong_batch, calendar_error, out_of_fuel, ◌>>=◌}
use flex.HashTrees.{symmetric_combine}
use flex.RelayState.Platform.{u32_mod}
use flex.Calendar.{MinedCredit, MinedCreditMessage}
use flex.Calendar.Difficulty.{u160_mod, get_next_diurn_initial_difficulty}
use flex.Calendar.Diurn
use flex.Calendar.Diurn.{Diurn, diurn_after, set_initial_difficulty}
use flex.Calendar.TopUp.{CreditAndProof, total_credit_work, calend_work, drop_top_up_work_credits}

-- creditdata[hash]["msg"] and ["mined_credit"], HasProperty of "msg" and of "mined_credit",
-- SpotCheck().Valid() of the proof of a message with a hash, the hash of SymmetricCombine, and the
-- fuel of ApplyAdjustments. GetRelayState of a credit, which handles the messages of batches with
-- SharedChain::HandleBatch, may throw: this is the exception, if it does.
pub record CalendarData : Type 0 where
  pub messages : ℕ → MinedCreditMessage
  pub credits : ℕ → MinedCredit
  pub has_msg : ℕ → Bool
  pub has_mined_credit : ℕ → Bool
  pub spot_check_valid : ℕ → Bool
  pub relay_state_exception : ℕ → Option Exception
  pub tree_hash : List ℕ → ℕ
  pub fuel : ℕ

-- The members of Calendar_, with what it writes to calendardata: the hashes with "is_calend", the
-- "credit_hash" and the "diurn" of a root.
pub record Calendar : Type 0 where
  pub calends : List MinedCreditMessage
  pub extra_work : List (List CreditAndProof)
  pub current_diurn : Diurn
  pub current_extra_work : List CreditAndProof
  pub marked : Set
  pub diurn_credit_hash : Map ℕ
  pub finished_diurns : Map Diurn

-- calends.back()
unfoldable pub last_calend : List MinedCreditMessage → Option MinedCreditMessage
last_calend [] = none
last_calend (calend ∷ []) = some calend
last_calend (calend ∷ next ∷ calends) = last_calend (next ∷ calends)

-- Calendar_::GetLastCalendCreditHash
unfoldable pub get_last_calend_credit_hash : Calendar → ℕ
unfolding last_calend
get_last_calend_credit_hash c = elim (last_calend c.calends) [
  | none ↦ 0
  | some calend ↦ calend.mined_credit.hash
]

-- Calendar_::LastMinedCreditHash
unfoldable pub last_mined_credit_hash : Calendar → ℕ
unfolding get_last_calend_credit_hash
last_mined_credit_hash c =
    if ltb 0 (length c.current_diurn.diurnal_block.hashes)
    then Diurn.last c.current_diurn
    else get_last_calend_credit_hash c

unfoldable pub sum_difficulty : List CreditAndProof → ℕ → ℕ
sum_difficulty [] work = work
sum_difficulty (pair ∷ pairs) work =
    sum_difficulty pairs ((work + pair.credit.difficulty) % u160_mod)

-- The loop of Calendar_::TopUpWork.
unfoldable pub top_up_loop : List (List CreditAndProof) → List MinedCreditMessage → ℕ → ℕ
unfolding sum_difficulty
top_up_loop [] calends work = work
top_up_loop (pairs ∷ lists) [] work = work
top_up_loop (pairs ∷ lists) (calend ∷ calends) work =
    let sum = sum_difficulty pairs work in
    top_up_loop lists calends
      (if ltb 0 (length pairs) then (sum + calend.mined_credit.difficulty) % u160_mod else sum)

-- Calendar_::TopUpWork: `none` for a CalendarException.
unfoldable pub top_up_work : Calendar → Option ℕ
unfolding top_up_loop
top_up_work c =
    if not (length c.calends == length c.extra_work)
    then none
    else some (top_up_loop c.extra_work c.calends 0)

-- Calendar_::TotalWork
unfoldable pub total_work : Calendar → Option ℕ
unfolding calend_work last_calend
total_work c = elim (top_up_work c) [
  | none ↦ none
  | some top_up ↦
      let sum = (calend_work c.calends 0 + top_up + Diurn.work c.current_diurn) % u160_mod in
      some (elim (last_calend c.calends) [
        | none ↦ sum
        | some calend ↦ (sum + u160_mod - calend.mined_credit.difficulty) % u160_mod
      ])
]

-- The inner loop of Calendar_::TrimTopUpWork: whether it has found how many credits to drop, the work
-- trimmed and the number of credits.
unfoldable pub trim_list : ℕ → List CreditAndProof → ℕ → ℕ → Bool × ℕ × ℕ
trim_list surplus [] trimmed num = (false, trimmed, num)
trim_list surplus (pair ∷ pairs) trimmed num =
    let next = (trimmed + pair.credit.difficulty) % u160_mod in
    let rest = trim_list surplus pairs next ((num + 1) % u32_mod) in
    if ltb surplus next then (true, trimmed, num) else rest

-- The outer loop: `none` where it ends and nothing is dropped.
unfoldable pub trim_lists : ℕ → List (List CreditAndProof) → ℕ → ℕ → Option ℕ
unfolding trim_list
trim_lists surplus [] trimmed num = none
trim_lists surplus (pairs ∷ lists) trimmed num =
    let one = trim_list surplus pairs trimmed num in
    let rest = trim_lists surplus lists one.1 one.2 in if one.0 then some one.2 else rest

module _ (stored : CalendarData) where
  -- Calendar_::TrimTopUpWork
  unfoldable pub trim_top_up_work : Calendar → Result Calendar
  trim_top_up_work c =
      let last = stored.credits (last_mined_credit_hash c) in
      let credit_work = (last.total_work + last.difficulty) % u160_mod in
      elim (total_work c) [
        | none ↦ throw calendar_error c
        | some calendar_work ↦
            if leb calendar_work credit_work
            then ok c
            else elim (trim_lists (calendar_work - credit_work) c.extra_work 0 0) [
              | none ↦ ok c
              | some num_credits_to_drop ↦ ok (record c {
                extra_work = drop_top_up_work_credits num_credits_to_drop 0 c.extra_work;
              })
            ]
      ]

  -- Calendar_::StoreTopUpWorkIfNecessary
  unfoldable pub store_top_up_work_if_necessary : MinedCreditMessage → Calendar → Result Calendar
  unfolding total_credit_work
  store_top_up_work_if_necessary msg c =
      let pair : CreditAndProof = record {
        credit = msg.mined_credit;
        work_done = msg.work_done;
        spot_check_valid = stored.spot_check_valid msg.mined_credit.hash;
      } in
      elim (top_up_work c) [
        | none ↦ throw calendar_error c
        | some top_up ↦
            let work =
              (calend_work c.calends 0 + msg.mined_credit.diurnal_difficulty + top_up) % u160_mod in
            trim_top_up_work (
              if leb work (total_credit_work msg)
              then record c { current_extra_work = c.current_extra_work ++ pair ∷ [] }
              else c)
      ]

  -- The test of Calendar_::HandleBatch.
  abbrev pub follows : MinedCreditMessage → Calendar → Bool
  follows msg c =
      msg.mined_credit.previous_diurn_root == c.current_diurn.previous_diurn_root
      && msg.mined_credit.previous_mined_credit_hash == Diurn.last c.current_diurn

  -- Calendar_::HandleBatch
  unfoldable pub handle_batch : MinedCreditMessage → Calendar → Result Calendar
  handle_batch msg c =
      if follows msg c
      then elim (Diurn.add stored.messages stored.fuel msg.mined_credit.hash c.current_diurn) [
        | none ↦ throw out_of_fuel c
        | some diurn ↦ ok (record c { current_diurn = diurn })
      ]
      else ok c

  -- Calendar_::FinishCurrentCalendAndStartNext. What RecordRelayState writes is not in the calendar; where
  -- GetRelayState throws, the calend and the finished diurn stay.
  unfoldable pub finish_current_calend_and_start_next :
      MinedCreditMessage → Calendar → Result Calendar
  finish_current_calend_and_start_next msg c =
      let calend_credit = stored.credits (get_last_calend_credit_hash c) in
      let previous_diurn_root = Diurn.root stored.tree_hash c.current_diurn in
      let pushed : Calendar = record c {
        calends = c.calends ++ msg ∷ [];
        finished_diurns = put previous_diurn_root c.current_diurn c.finished_diurns;
      } in
      elim (get_next_diurn_initial_difficulty stored.fuel calend_credit msg.mined_credit) [
        | none ↦ throw out_of_fuel c
        | some next_difficulty ↦ elim (stored.relay_state_exception msg.mined_credit.hash) [
          | some exception ↦ throw exception pushed
          | none ↦
              elim (Diurn.add stored.messages stored.fuel msg.mined_credit.hash
                (diurn_after previous_diurn_root)) [
                  | none ↦ throw out_of_fuel c
                  | some diurn ↦ ok (record pushed {
                    current_diurn = set_initial_difficulty next_difficulty diurn;
                  })
                ]
        ]
      ]

  -- The test of Calendar_::HandleCalend.
  abbrev pub finishes : MinedCreditMessage → Calendar → Bool
  finishes msg c =
      msg.mined_credit.previous_diurn_root == c.current_diurn.previous_diurn_root
      && leb c.current_diurn.current_difficulty msg.difficulty_achieved

  abbrev pub with_marks : MinedCreditMessage → Calendar → Calendar
  with_marks msg c =
      let credit = msg.mined_credit in
      let diurn_root =
        symmetric_combine stored.tree_hash credit.diurnal_block_root credit.previous_diurn_root in
      record c {
        marked = insert credit.hash c.marked;
        diurn_credit_hash = put diurn_root credit.hash c.diurn_credit_hash;
      }

  abbrev pub push_extra_work : Calendar → Calendar
  push_extra_work c = record c {
    extra_work = c.extra_work ++ c.current_extra_work ∷ [];
    current_extra_work = [];
  }

  -- Calendar_::HandleCalend, without the copies of the calend and of the spent chain
  unfoldable pub handle_calend : MinedCreditMessage → Calendar → Result Calendar
  handle_calend msg c =
      let marked_c = with_marks msg c in
      if finishes msg marked_c
      then finish_current_calend_and_start_next msg marked_c
        >>= (λ d. trim_top_up_work (push_extra_work d))
      else ok marked_c

  -- Calendar_::HandleMinedCreditMessage
  unfoldable pub handle_mined_credit_message : MinedCreditMessage → Calendar → Result Calendar
  handle_mined_credit_message msg c =
      if leb msg.mined_credit.diurnal_difficulty msg.difficulty_achieved
      then handle_calend msg c
      else handle_batch msg c >>= store_top_up_work_if_necessary msg

  -- Calendar_::AddMinedCreditToTip
  unfoldable pub add_mined_credit_to_tip : MinedCreditMessage → Calendar → Result Calendar
  add_mined_credit_to_tip msg c =
      if not (msg.mined_credit.previous_mined_credit_hash == last_mined_credit_hash c)
      then throw wrong_batch c
      else handle_mined_credit_message msg c
