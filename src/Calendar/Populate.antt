-- ===== src/Calendar/Populate.antt =====
-- How a calendar is made again of the stored data: Calendar_(uint160) of
-- src/teleportnode/calendar.cpp and the Populate functions. Each of their loops runs on fuel.
pub mod Calends
pub mod Credits
pub mod Rebuilt
pub mod Examples
use flex.Common.{
  ℕ, zero, suc, ◌+◌, ◌-◌, ◌%◌, Bool, true, false, not, ◌&&◌, Option, none, some, List, [], ◌∷◌,
  ◌++◌, ltb, leb, ◌==◌, if◌then◌else◌, length, get_or,
}
use flex.StdMap.{Map, lookup}
use flex.Exceptions.{Result, ok, throw, out_of_fuel, ◌>>=◌}
use flex.HashTrees.{symmetric_combine}
use flex.Calendar.{MinedCredit, MinedCreditMessage}
use flex.Calendar.Difficulty.{u160_mod}
use flex.Calendar.Diurn
use flex.Calendar.Diurn.{Diurn, empty_diurn}
use flex.Calendar.TopUp.{CreditAndProof, calend_work, total_credit_work}
use flex.Calendar.Tip.{
  CalendarData, Calendar, last_calend, last_mined_credit_hash, store_top_up_work_if_necessary,
}

module _ (stored : CalendarData) where
  -- Where PopulateCalends starts.
  unfoldable pub first_root : ℕ → ℕ
  first_root credit_hash =
      let mined_credit = stored.credits credit_hash in
      if ltb mined_credit.diurnal_difficulty (stored.messages credit_hash).difficulty_achieved
      then symmetric_combine stored.tree_hash mined_credit.diurnal_block_root
          mined_credit.previous_diurn_root
      else mined_credit.previous_diurn_root

  -- The loop of PopulateCalends, with calendardata[root]["credit_hash"]. A calend goes to the front, as
  -- std::reverse leaves it.
  unfoldable pub calends_from :
      ℕ → Map ℕ → ℕ → List MinedCreditMessage → Option (List MinedCreditMessage)
  calends_from zero credit_hashes diurn_root calends =
      if diurn_root == 0 then some calends else none
  calends_from (suc fuel) credit_hashes diurn_root calends =
      let calend = stored.messages (get_or (lookup diurn_root credit_hashes) 0) in
      let rest =
        calends_from fuel credit_hashes calend.mined_credit.previous_diurn_root
          (calend ∷ calends) in
      if diurn_root == 0 then some calends else rest

  -- Calendar_::PopulateCalends of a new calendar
  unfoldable pub populate_calends : ℕ → ℕ → Calendar → Result Calendar
  unfolding first_root calends_from
  populate_calends fuel credit_hash c =
      elim (calends_from fuel c.diurn_credit_hash (first_root credit_hash) []) [
        | none ↦ throw out_of_fuel c
        | some calends ↦ ok (record c { calends = calends })
      ]

  -- The loop of PopulateDiurn
  unfoldable pub credits_from : ℕ → ℕ → ℕ → List ℕ → Option (List ℕ)
  credits_from zero waited_for credit_hash credit_hashes = none
  credits_from (suc fuel) waited_for credit_hash credit_hashes =
      let previous_hash = (stored.credits credit_hash).previous_mined_credit_hash in
      let mined_credit = stored.credits previous_hash in
      let diurn_root =
        symmetric_combine stored.tree_hash mined_credit.previous_diurn_root
          mined_credit.diurnal_block_root in
      let rest = credits_from fuel waited_for previous_hash (previous_hash ∷ credit_hashes) in
      if not (stored.has_mined_credit previous_hash)
      then some credit_hashes
      else if not (diurn_root == waited_for) && not (mined_credit.previous_mined_credit_hash == 0)
      then rest
      else some (previous_hash ∷ credit_hashes)

  -- current_diurn.Add of each hash
  unfoldable pub add_hashes : List ℕ → Diurn → Option Diurn
  unfolding Diurn.add
  add_hashes [] diurn = some diurn
  add_hashes (hash ∷ hashes) diurn = elim (Diurn.add stored.messages stored.fuel hash diurn) [
    | none ↦ none
    | some next ↦ add_hashes hashes next
  ]

  -- Calendar_::PopulateDiurn
  unfoldable pub populate_diurn : ℕ → ℕ → Calendar → Result Calendar
  unfolding add_hashes credits_from
  populate_diurn fuel credit_hash c =
      let mined_credit = stored.credits credit_hash in
      let diurn = record c.current_diurn { current_difficulty = mined_credit.diurnal_difficulty } in
      let diurn_root =
        symmetric_combine stored.tree_hash mined_credit.previous_diurn_root
          mined_credit.diurnal_block_root in
      if ltb mined_credit.diurnal_difficulty (stored.messages credit_hash).difficulty_achieved
      then elim (add_hashes (credit_hash ∷ []) diurn) [
        | none ↦ throw out_of_fuel c
        | some added ↦
            ok (record c { current_diurn = record added { previous_diurn_root = diurn_root } })
      ]
      else elim (credits_from fuel mined_credit.previous_diurn_root credit_hash
          (credit_hash ∷ [])) [
            | none ↦ throw out_of_fuel c
            | some hashes ↦
                elim (add_hashes hashes
                  (record diurn { previous_diurn_root = mined_credit.previous_diurn_root })) [
                    | none ↦ throw out_of_fuel c
                    | some added ↦ ok (record c { current_diurn = added })
                  ]
          ]

  -- credit_and_proof of a message
  abbrev pub pair_of : MinedCreditMessage → CreditAndProof
  pair_of msg = record {
    credit = msg.mined_credit;
    work_done = msg.work_done;
    spot_check_valid = stored.spot_check_valid msg.mined_credit.hash;
  }

  -- The inner loop of PopulateTopUpWork: total_calendar_work and the list after it.
  unfoldable pub top_up_list :
      ℕ → ℕ → ℕ → MinedCredit → ℕ → ℕ → List CreditAndProof → Option (ℕ × List CreditAndProof)
  top_up_list zero total_credit calend_work credit credit_work total pairs = none
  top_up_list (suc fuel) total_credit calend_work credit credit_work total pairs =
      let msg = stored.messages credit.previous_mined_credit_hash in
      let next = msg.mined_credit in
      let rest =
        top_up_list fuel total_credit calend_work next
          ((credit_work + u160_mod - next.difficulty) % u160_mod)
          ((total + next.difficulty) % u160_mod) (pairs ++ pair_of msg ∷ []) in
      if ltb calend_work credit_work
        && ltb total total_credit
        && not (credit.previous_mined_credit_hash == 0)
      then rest
      else some (total, pairs)

  -- The outer loop, which goes through the calends from the last one; TotalCreditWork() of the calend
  -- before is 0 for the first.
  unfoldable pub top_up_lists :
      ℕ → ℕ → ℕ → List MinedCreditMessage → ℕ → Option (ℕ × List (List CreditAndProof))
  unfolding top_up_list total_credit_work
  top_up_lists fuel total_credit work_before [] total = some (total, [])
  top_up_lists fuel total_credit work_before (calend ∷ calends) total =
      elim (top_up_lists fuel total_credit (total_credit_work calend) calends total) [
        | none ↦ none
        | some (later, lists) ↦
            let credit = calend.mined_credit in
            let credit_work = (total_credit_work calend + u160_mod - work_before) % u160_mod in
            elim (top_up_list fuel total_credit credit.diurnal_difficulty credit credit_work later
              []) [ none ↦ none | some (next, pairs) ↦ some (next, pairs ∷ lists) ]
      ]

  -- The last loop of PopulateTopUpWork
  unfoldable pub store_each : List MinedCreditMessage → Calendar → Result Calendar
  unfolding store_top_up_work_if_necessary
  store_each [] c = ok c
  store_each (msg ∷ msgs) c = store_top_up_work_if_necessary stored msg c >>= store_each msgs

  -- total_calendar_work where the outer loop starts
  unfoldable pub work_before_top_up : Calendar → ℕ
  unfolding calend_work last_calend Diurn.work
  work_before_top_up c =
      let work = (calend_work c.calends 0 + Diurn.work c.current_diurn) % u160_mod in
      elim (last_calend c.calends) [
        | none ↦ work
        | some calend ↦ (work + u160_mod - calend.mined_credit.difficulty) % u160_mod
      ]

  -- Calendar_::PopulateTopUpWork
  unfoldable pub populate_top_up_work : ℕ → Calendar → Result Calendar
  unfolding top_up_lists store_each work_before_top_up last_mined_credit_hash
  populate_top_up_work fuel c =
      let last_credit = stored.credits (last_mined_credit_hash c) in
      let total_credit = (last_credit.total_work + last_credit.difficulty) % u160_mod in
      elim (top_up_lists fuel total_credit 0 c.calends (work_before_top_up c)) [
        | none ↦ throw out_of_fuel c
        | some (total, lists) ↦
            store_each c.current_diurn.credits_in_diurn (record c { extra_work = lists })
      ]

  -- Calendar_(credit_hash), from a new calendar with the data that calendardata holds
  unfoldable pub calendar_of : ℕ → ℕ → Calendar → Result Calendar
  unfolding populate_calends populate_diurn populate_top_up_work
  calendar_of fuel credit_hash new_calendar =
      if credit_hash == 0
      then ok new_calendar
      else populate_calends fuel credit_hash new_calendar
        >>= populate_diurn fuel credit_hash
        >>= populate_top_up_work fuel

  -- Calendar_::RemoveLast. What calendardata holds stays.
  unfoldable pub remove_last : ℕ → Calendar → Result Calendar
  unfolding calendar_of last_mined_credit_hash
  remove_last fuel c =
      let last_credit = stored.credits (last_mined_credit_hash c) in
      let new_calendar = record c {
        calends = [];
        extra_work = [];
        current_diurn = empty_diurn;
        current_extra_work = [];
      } in
      if length c.current_diurn.diurnal_block.hashes == 0
      then ok c
      else calendar_of fuel last_credit.previous_mined_credit_hash new_calendar
