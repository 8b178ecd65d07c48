-- ===== src/Calendar/Tip/Examples.antt =====
-- An empty calendar that takes in a credit, and a surplus of work in one.
use flex.Common.{ℕ, ◌≡◌, refl, true, Option, none, some, ◌==◌, if◌then◌else◌, [], ◌∷◌, arith}
use flex.Exceptions.{ok}
use flex.HashTrees.DiurnalBlock
use flex.HashTrees.DiurnalBlock.{new_tree}
use flex.Calendar.{MinedCredit, MinedCreditMessage}
use flex.Calendar.Difficulty.{
  ℤ, apply_adjustments, infer_num_adjustments_from_difficulty, count_lowers, count_raises, lower,
  raise, get_difficulty, lower_times, raise_times, get_next_diurn_initial_difficulty,
}
use flex.Calendar.Diurn
use flex.Calendar.Diurn.{empty_diurn}
use flex.Calendar.TopUp.{CreditAndProof, calend_work, total_credit_work}
use flex.Calendar.Tip.{
  CalendarData, Calendar, add_mined_credit_to_tip, last_mined_credit_hash,
  get_last_calend_credit_hash, last_calend, top_up_work, top_up_loop, sum_difficulty, total_work,
  trim_top_up_work, handle_mined_credit_message, handle_batch, store_top_up_work_if_necessary,
}
use flex.Calendar.Tip.Trim.{IsTrim, dropped, trim_top_up_work-IsTrim}
use flex.Calendar.Tip.Frame.{Taken, add_mined_credit_to_tip-Taken}
use flex.Calendar.Tip.Reached.{
  empty_calendar, IsChain, BeginsWith, CalendarReached, CalendarReached-IsCalendar,
}

abbrev credit_of : ℕ → MinedCredit
credit_of hash = record {
  hash = hash;
  previous_mined_credit_hash = 0;
  previous_diurn_root = 0;
  diurnal_block_root = 0;
  batch_number = if hash == 0 then 0 else 1;
  timestamp = 0;
  difficulty = 100;
  total_work = 0;
  diurnal_difficulty = 500_000_000;
}

abbrev message_of : ℕ → MinedCreditMessage
message_of hash = record {
  mined_credit = credit_of hash;
  difficulty_achieved = 100;
  work_done = 100;
}

abbrev stored : CalendarData
stored = record {
  messages = message_of;
  credits = credit_of;
  has_msg = λ hash. true;
  has_mined_credit = λ hash. true;
  spot_check_valid = λ n. true;
  relay_state_exception = λ hash. none;
  tree_hash = λ bytes. 0;
  fuel = 30_000;
}

-- The difficulties after one adjustment, after one from zero, and of the next diurn.
grows : apply_adjustments 30_000 500_000_000 (ℤ.pos 1) ≡ some 499_500_000
unfolding apply_adjustments infer_num_adjustments_from_difficulty count_lowers count_raises lower
    raise get_difficulty lower_times raise_times
grows = refl

begins : apply_adjustments 30_000 0 (ℤ.pos 1) ≡ some 0
unfolding apply_adjustments infer_num_adjustments_from_difficulty count_lowers count_raises lower
    raise get_difficulty lower_times raise_times
begins = refl

following : get_next_diurn_initial_difficulty 30_000 (credit_of 0) (credit_of 30) ≡ some 530_934_182
unfolding get_next_diurn_initial_difficulty apply_adjustments infer_num_adjustments_from_difficulty
    count_lowers count_raises lower raise get_difficulty lower_times raise_times
following = refl

add_mined_credit_to_tip-Taken_example :
    (c' : Calendar) × (add_mined_credit_to_tip stored (message_of 30) empty_calendar ≡ ok c')
    × Taken stored (message_of 30) 499_500_000 530_934_182 empty_calendar c'
unfolding get_last_calend_credit_hash last_calend last_mined_credit_hash
add_mined_credit_to_tip-Taken_example =
    add_mined_credit_to_tip-Taken stored (message_of 30) empty_calendar 499_500_000 0 530_934_182
      refl grows begins following

-- The empty calendar after the first credit.
abbrev first_pair : CreditAndProof
first_pair = record { credit = credit_of 30; work_done = 100; spot_check_valid = true }

abbrev with_first : Calendar
with_first = record empty_calendar {
  current_diurn = record empty_diurn {
    diurnal_block = record { hashes = 30 ∷ []; tree = some (new_tree (30 ∷ [])) };
    credits_in_diurn = message_of 30 ∷ [];
    current_difficulty = 499_500_000;
  };
}

adds_first : add_mined_credit_to_tip stored (message_of 30) empty_calendar ≡ ok with_first
unfolding add_mined_credit_to_tip handle_mined_credit_message handle_batch
    store_top_up_work_if_necessary trim_top_up_work last_mined_credit_hash
    get_last_calend_credit_hash last_calend total_work top_up_work top_up_loop calend_work
    Diurn.work Diurn.last Diurn.add DiurnalBlock.add total_credit_work apply_adjustments
    infer_num_adjustments_from_difficulty count_lowers count_raises lower raise get_difficulty
    lower_times raise_times
adds_first = refl

reached_next :
    get_next_diurn_initial_difficulty 30_000
      (credit_of (get_last_calend_credit_hash empty_calendar))
      (credit_of 30)
    ≡ some 530_934_182
unfolding get_last_calend_credit_hash last_calend
reached_next = following

CalendarReached-IsCalendar_example :
    ((work : ℕ) × (top_up_work with_first ≡ some work))
    × IsChain stored with_first.current_diurn.diurnal_block.hashes
    × BeginsWith (last_calend with_first.calends) with_first.current_diurn.diurnal_block.hashes
CalendarReached-IsCalendar_example = CalendarReached-IsCalendar stored with_first (
    CalendarReached.next (message_of 30) 499_500_000 0 530_934_182 CalendarReached.start refl grows
      begins reached_next adds_first)

-- A calendar with one calend and top-up work for it, whose credits have less work.
abbrev surplus_calendar : Calendar
surplus_calendar = record empty_calendar {
  calends = message_of 30 ∷ [];
  extra_work = (first_pair ∷ first_pair ∷ []) ∷ [];
}

work_of_surplus : total_work surplus_calendar ≡ some 500_000_200
unfolding total_work calend_work last_calend top_up_work top_up_loop sum_difficulty Diurn.work
work_of_surplus = refl

abbrev short_stored : CalendarData
short_stored = record stored {
  credits = λ hash. record (credit_of hash) { total_work = 499_999_950 };
}

trim_top_up_work-IsTrim_example :
    (n : Option ℕ) × IsTrim 150 (first_pair ∷ first_pair ∷ []) n
    × (trim_top_up_work short_stored surplus_calendar ≡ ok (dropped n surplus_calendar))
trim_top_up_work-IsTrim_example =
    trim_top_up_work-IsTrim short_stored surplus_calendar 500_000_200 work_of_surplus (omega arith)
      (omega arith) (omega arith)
