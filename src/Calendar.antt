-- ===== src/Calendar.antt =====
-- src/teleportnode/calendar.h and calendar.cpp: the diurns, the calendar of calends, and how the
-- difficulty of a diurn is adjusted. Here are the credits and the messages that they read.
pub mod Difficulty
pub mod Diurn
pub mod TopUp
pub mod Tip
pub mod Check
pub mod Populate
pub mod Connection
pub mod Examples
use flex.Common.{ℕ}

-- A mined credit, with its GetHash160() as a field.
pub record MinedCredit : Type 0 where
  pub hash : ℕ
  pub previous_mined_credit_hash : ℕ
  pub previous_diurn_root : ℕ
  pub diurnal_block_root : ℕ
  pub batch_number : ℕ
  pub timestamp : ℕ
  pub difficulty : ℕ
  pub total_work : ℕ
  pub diurnal_difficulty : ℕ

-- A mined credit message, with what DifficultyAchieved() and WorkDone() say of its proof.
pub record MinedCreditMessage : Type 0 where
  pub mined_credit : MinedCredit
  pub difficulty_achieved : ℕ
  pub work_done : ℕ
