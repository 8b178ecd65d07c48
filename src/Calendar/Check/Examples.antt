-- ===== src/Calendar/Check/Examples.antt =====
-- Calendars that are checked, with a hash that is the first of the bytes.
use flex.Common.{
  ℕ, ◌≡◌, refl, true, false, not, some, List, [], ◌∷◌, ◌==◌, ◌↔◌, get_elem?, get_or, none, ◌-◌,
  if◌then◌else◌,
}
use flex.HashTrees.{symmetric_combine, xor_bits, or_bits, bytes_of}
use flex.Calendar.{MinedCreditMessage}
use flex.Calendar.Difficulty.{
  apply_adjustments, infer_num_adjustments_from_difficulty, count_lowers, count_raises, lower,
  raise, get_difficulty, lower_times, raise_times,
}
use flex.Calendar.Diurn
use flex.Calendar.Diurn.{empty_diurn}
use flex.Calendar.Tip.{CalendarData, Calendar}
use flex.Calendar.Tip.Reached.{empty_calendar}
use flex.Calendar.Check.{
  FailureDetails, calend_root, contains_diurn, is_linked, difficulty_correct, check_steps,
  first_difficulty_correct, previous_diurn_root, check_current_diurn, check_roots_and_difficulty,
  validate, spot_check_work,
}
use flex.Calendar.Check.Accepted.{
  HasProofs, IsLinked, HasDifficulties, BeginsRight, check_roots_and_difficulty-IsLinked,
}
use flex.Calendar.Check.Failures.{spot_check_work-validate}

abbrev pub calend_with : ℕ → ℕ → ℕ → MinedCreditMessage
calend_with hash previous block = record {
  mined_credit = record {
    hash = hash;
    previous_mined_credit_hash = hash - 1;
    previous_diurn_root = previous;
    diurnal_block_root = block;
    batch_number = if hash == 0 then 0 else 1;
    timestamp = 0;
    difficulty = 100;
    total_work = 0;
    diurnal_difficulty = 500_000_000;
  };
  difficulty_achieved = 500_000_000;
  work_done = 100;
}

-- The roots of the two calends are 5 and 3.
abbrev two_calends : List MinedCreditMessage
two_calends = calend_with 30 0 5 ∷ calend_with 31 5 6 ∷ []

abbrev pub checked_data : CalendarData
checked_data = record {
  messages = λ hash. calend_with hash 5 6;
  credits = λ hash. (calend_with hash 5 6).mined_credit;
  has_msg = λ hash. true;
  has_mined_credit = λ hash. true;
  spot_check_valid = λ hash. not (hash == 31);
  relay_state_exception = λ hash. none;
  tree_hash = λ bytes. get_or (get_elem? bytes 0) 0;
  fuel = 30_000;
}

-- The second calend is the only credit of the current diurn.
abbrev checked_calendar : Calendar
checked_calendar = record empty_calendar {
  calends = two_calends;
  current_diurn = record empty_diurn {
    previous_diurn_root = 3;
    diurnal_block = record { hashes = 31 ∷ []; tree = none };
  };
}

accepts : check_roots_and_difficulty checked_data checked_calendar ≡ some true
unfolding check_roots_and_difficulty check_steps first_difficulty_correct is_linked
    difficulty_correct calend_root check_current_diurn previous_diurn_root symmetric_combine
    xor_bits or_bits bytes_of Diurn.last Diurn.first apply_adjustments
    infer_num_adjustments_from_difficulty count_lowers count_raises lower raise get_difficulty
    lower_times raise_times
accepts = refl

check_roots_and_difficulty-IsLinked_example :
    (check_roots_and_difficulty checked_data checked_calendar ≡ some true) ↔ (
      BeginsRight checked_data two_calends
      × IsLinked checked_data two_calends
      × HasDifficulties checked_data two_calends
      × HasProofs two_calends
      × (check_current_diurn checked_data checked_calendar ≡ true))
check_roots_and_difficulty-IsLinked_example =
    check_roots_and_difficulty-IsLinked checked_data checked_calendar

abbrev no_failure : FailureDetails
no_failure = record { diurn_root = 0; credit_hash = 0 }

fails : (spot_check_work checked_data two_calends no_failure []).0 ≡ false
unfolding spot_check_work
fails = refl

-- Another calendar with the second calend.
abbrev other_calendar : Calendar
other_calendar = record empty_calendar { calends = calend_with 40 9 9 ∷ calend_with 31 5 6 ∷ [] }

holds_failure :
    contains_diurn checked_data
      (spot_check_work checked_data two_calends no_failure []).1.diurn_root
      other_calendar.calends
    ≡ true
unfolding spot_check_work contains_diurn calend_root symmetric_combine xor_bits or_bits bytes_of
holds_failure = refl

spot_check_work-validate_example :
    (validate checked_data
        (spot_check_work checked_data two_calends no_failure []).2
        checked_calendar
      ≡ some false)
    × (validate checked_data
          (spot_check_work checked_data two_calends no_failure []).2
          other_calendar
        ≡ some false)
spot_check_work-validate_example =
    spot_check_work-validate checked_data checked_calendar other_calendar no_failure [] fails
      holds_failure
