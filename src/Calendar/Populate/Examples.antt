-- ===== src/Calendar/Populate/Examples.antt =====
-- Calends and credits that are found again, with a hash that is the first of the bytes.
use flex.Common.{
  ◌≡◌, refl, sym, some, [], ◌∷◌, ◌++◌, ◌==◌, if◌then◌else◌, arith, get_or, get_elem?, ◌+◌,
}
use flex.StdMap.{put}
use flex.HashTrees.{symmetric_combine, xor_bits, or_bits, bytes_of}
use flex.HashTrees.DiurnalBlock
use flex.HashTrees.DiurnalBlock.{new_tree}
use flex.Exceptions.{ok}
use flex.Calendar.Difficulty.{
  ℤ, get_next_diurn_initial_difficulty, apply_adjustments, infer_num_adjustments_from_difficulty,
  count_lowers, count_raises, lower, raise, get_difficulty, lower_times, raise_times,
}
use flex.Calendar.Diurn
use flex.Calendar.Diurn.{Diurn, empty_diurn, set_initial_difficulty}
use flex.Calendar.Tip.{
  CalendarData, Calendar, add_mined_credit_to_tip, handle_mined_credit_message, handle_calend,
  finish_current_calend_and_start_next, trim_top_up_work, trim_lists, trim_list,
  last_mined_credit_hash, get_last_calend_credit_hash, last_calend, total_work, top_up_work,
  top_up_loop, sum_difficulty,
}
use flex.Calendar.TopUp.{calend_work}
use flex.Calendar.Tip.Reached.{empty_calendar}
use flex.Calendar.Check.{calend_root, contains_diurn}
use flex.Calendar.Check.Examples.{calend_with, checked_data}
use flex.Calendar.Populate.{first_root, add_hashes, populate_calends, populate_diurn}
use flex.Calendar.Populate.Rebuilt.{Fits, CalendarGrown, populate_calends-CalendarGrown}
use flex.Calendar.Populate.Credits.{root_of, Row, diurn_before, populate_diurn-Row}

abbrev recorded_data : CalendarData
recorded_data = record checked_data {
  messages = λ hash. if hash == 30 then calend_with 30 0 5 else calend_with hash 5 6;
  credits = λ hash.
      (if hash == 30
        then calend_with 30 0 5
        else if hash == 40
        then calend_with 40 3 9
        else calend_with hash 5 6).mined_credit;
}

abbrev recorded_calendar : Calendar
recorded_calendar = empty_calendar

abbrev three_added : Diurn
three_added = record {
  previous_diurn_root = 5;
  diurnal_block = record { hashes = 30 ∷ 31 ∷ 32 ∷ []; tree = some (new_tree (30 ∷ 31 ∷ 32 ∷ [])) };
  credits_in_diurn = calend_with 30 0 5 ∷ calend_with 31 5 6 ∷ calend_with 32 5 6 ∷ [];
  initial_difficulty = 500_000_000;
  current_difficulty = 498_501_499;
}

adds_three :
    add_hashes recorded_data (30 ∷ 31 ∷ 32 ∷ []) (diurn_before recorded_data 32 recorded_calendar)
    ≡ some three_added
unfolding add_hashes Diurn.add DiurnalBlock.add apply_adjustments
    infer_num_adjustments_from_difficulty count_lowers count_raises lower raise get_difficulty
    lower_times raise_times
adds_three = refl

root_of_30 : root_of recorded_data 30 ≡ 5
unfolding symmetric_combine xor_bits or_bits bytes_of
root_of_30 = refl

root_of_31 : root_of recorded_data 31 ≡ 3
unfolding symmetric_combine xor_bits or_bits bytes_of
root_of_31 = refl

two_follow : Row recorded_data (root_of recorded_data 30) 31 (32 ∷ [])
two_follow = (refl, refl, rw (root_of_30, root_of_31) (omega arith), omega arith, tt)

populate_diurn-Row_example :
    (populate_diurn recorded_data 2 32 recorded_calendar
      ≡ ok (record recorded_calendar { current_diurn = three_added }))
    × (three_added.diurnal_block.hashes ≡ [] ++ 30 ∷ 31 ∷ 32 ∷ [])
    × (three_added.previous_diurn_root ≡ root_of recorded_data 30)
populate_diurn-Row_example =
    populate_diurn-Row recorded_data 30 31 (32 ∷ []) recorded_calendar three_added two_follow refl
      refl (sym root_of_30) (omega arith) adds_three

abbrev grown_data : CalendarData
grown_data = record checked_data {
  messages = λ hash. calend_with hash 0 0;
  credits = λ hash. (if hash == 40 then calend_with 40 1 9 else calend_with hash 0 0).mined_credit;
  tree_hash = λ bytes. get_or (get_elem? bytes 0) 0 + 1;
}

-- The first credit is a calend, which ends the empty diurn.
abbrev with_calend : Calendar
with_calend = record empty_calendar {
  calends = calend_with 1 0 0 ∷ [];
  extra_work = [] ∷ [];
  current_diurn = record {
    previous_diurn_root = 1;
    diurnal_block = record { hashes = 1 ∷ []; tree = some (new_tree (1 ∷ [])) };
    credits_in_diurn = calend_with 1 0 0 ∷ [];
    initial_difficulty = 530_934_182;
    current_difficulty = 530_934_182;
  };
  marked = (1, tt) ∷ [];
  diurn_credit_hash = (1, 1) ∷ [];
  finished_diurns = (1, empty_diurn) ∷ [];
}

grows : apply_adjustments 30_000 500_000_000 (ℤ.pos 1) ≡ some 499_500_000
unfolding apply_adjustments infer_num_adjustments_from_difficulty count_lowers count_raises lower
    raise get_difficulty lower_times raise_times
grows = refl

begins : apply_adjustments 30_000 0 (ℤ.pos 1) ≡ some 0
unfolding apply_adjustments infer_num_adjustments_from_difficulty count_lowers count_raises lower
    raise get_difficulty lower_times raise_times
begins = refl

following :
    get_next_diurn_initial_difficulty 30_000
      (grown_data.credits (get_last_calend_credit_hash empty_calendar))
      (calend_with 1 0 0).mined_credit
    ≡ some 530_934_182
unfolding get_next_diurn_initial_difficulty apply_adjustments infer_num_adjustments_from_difficulty
    count_lowers count_raises lower raise get_difficulty lower_times raise_times
    get_last_calend_credit_hash last_calend
following = refl

adds_calend : add_mined_credit_to_tip grown_data (calend_with 1 0 0) empty_calendar ≡ ok with_calend
unfolding add_mined_credit_to_tip handle_mined_credit_message handle_calend
    finish_current_calend_and_start_next trim_top_up_work trim_lists trim_list
    last_mined_credit_hash get_last_calend_credit_hash last_calend total_work top_up_work
    top_up_loop sum_difficulty calend_work set_initial_difficulty put symmetric_combine xor_bits
    or_bits bytes_of Diurn.work Diurn.work_of Diurn.last Diurn.last_of Diurn.add Diurn.root
    Diurn.block_root DiurnalBlock.add DiurnalBlock.root DiurnalBlock.getvch DiurnalBlock.setvch
    get_next_diurn_initial_difficulty apply_adjustments infer_num_adjustments_from_difficulty
    count_lowers count_raises lower raise get_difficulty lower_times raise_times
adds_calend = refl

fits : Fits grown_data (calend_with 1 0 0) empty_calendar
unfolding calend_root contains_diurn symmetric_combine xor_bits or_bits bytes_of Diurn.root
    Diurn.block_root DiurnalBlock.root DiurnalBlock.getvch DiurnalBlock.setvch
fits = record { known = refl; nonzero = λ e. omega arith; fresh = λ e. refl; ends = λ e. refl }

begins_at_one : first_root grown_data 40 ≡ 1
unfolding first_root
begins_at_one = refl

abbrev data_of_calend : Calendar
data_of_calend = record empty_calendar { diurn_credit_hash = (1, 1) ∷ [] }

populate_calends-CalendarGrown_example :
    populate_calends grown_data 1 40 data_of_calend
    ≡ ok (record data_of_calend { calends = calend_with 1 0 0 ∷ [] })
populate_calends-CalendarGrown_example =
    populate_calends-CalendarGrown grown_data with_calend data_of_calend 40
      (CalendarGrown.grow (calend_with 1 0 0) 499_500_000 0 530_934_182 CalendarGrown.new fits grows
        begins following adds_calend)
      refl begins_at_one
