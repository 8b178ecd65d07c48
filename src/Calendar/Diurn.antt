-- ===== src/Calendar/Diurn.antt =====
-- The class Diurn_ of src/teleportnode/calendar.h and calendar.cpp. `none` means that the fuel of
-- ApplyAdjustments ran out, or that an empty block was asked for its last hash or its tree.
pub mod Branch
pub mod Undo
use flex.Common.{
  ℕ, ◌+◌, ◌%◌, Bool, Option, none, some, List, [], ◌∷◌, ◌++◌, ◌==◌, if◌then◌else◌, length,
  get_elem?, get_or,
}
use flex.HashTrees.{symmetric_combine}
use flex.HashTrees.DiurnalBlock
use flex.HashTrees.DiurnalBlock.{DiurnalBlock, empty_block, getvch, setvch}
use flex.Calendar.{MinedCredit, MinedCreditMessage}
use flex.Calendar.Difficulty.{
  pos, negsuc, apply_adjustments, initial_diurnal_difficulty, u160_mod, ℤ,
}

pub record Diurn : Type 0 where
  pub previous_diurn_root : ℕ
  pub diurnal_block : DiurnalBlock
  pub credits_in_diurn : List MinedCreditMessage
  pub initial_difficulty : ℕ
  pub current_difficulty : ℕ

abbrev pub empty_diurn : Diurn
empty_diurn = record {
  previous_diurn_root = 0;
  diurnal_block = empty_block;
  credits_in_diurn = [];
  initial_difficulty = initial_diurnal_difficulty;
  current_difficulty = initial_diurnal_difficulty;
}

-- Diurn_(previous_diurn_root)
abbrev pub diurn_after : ℕ → Diurn
diurn_after previous_diurn_root = record {
  previous_diurn_root = previous_diurn_root;
  diurnal_block = empty_block;
  credits_in_diurn = [];
  initial_difficulty = 0;
  current_difficulty = 0;
}

-- The copy constructor, and operator= to an empty diurn
unfoldable pub copy : Diurn → Diurn
unfolding setvch
copy diurn = record diurn { diurnal_block = setvch (getvch diurn.diurnal_block.hashes) empty_block }

-- Diurn_::SetInitialDifficulty
unfoldable pub set_initial_difficulty : ℕ → Diurn → Diurn
set_initial_difficulty difficulty diurn = record diurn {
  initial_difficulty = difficulty;
  current_difficulty = difficulty;
}

-- Diurn_::Add; the messages are creditdata[hash]["msg"].
unfoldable pub add : (ℕ → MinedCreditMessage) → ℕ → ℕ → Diurn → Option Diurn
unfolding apply_adjustments
add messages fuel credit_hash diurn =
    elim (apply_adjustments fuel diurn.current_difficulty (ℤ.pos 1)) [
      | none ↦ none
      | some difficulty ↦ some (record diurn {
        diurnal_block = DiurnalBlock.add credit_hash diurn.diurnal_block;
        credits_in_diurn = diurn.credits_in_diurn ++ messages credit_hash ∷ [];
        current_difficulty = difficulty;
      })
    ]

-- credits_in_diurn.pop_back()
unfoldable pub pop_back : List MinedCreditMessage → List MinedCreditMessage
pop_back [] = []
pop_back (msg ∷ []) = []
pop_back (msg ∷ next ∷ msgs) = msg ∷ pop_back (next ∷ msgs)

-- Diurn_::RemoveLast
unfoldable pub remove_last : ℕ → Diurn → Option Diurn
unfolding pop_back apply_adjustments
remove_last fuel diurn = elim (DiurnalBlock.remove_last diurn.diurnal_block) [
  | none ↦ none
  | some block ↦ elim (apply_adjustments fuel diurn.current_difficulty (ℤ.negsuc 0)) [
    | none ↦ none
    | some difficulty ↦ some (record diurn {
      diurnal_block = block;
      credits_in_diurn = pop_back diurn.credits_in_diurn;
      current_difficulty = difficulty;
    })
  ]
]

unfoldable pub last_of : List ℕ → ℕ
last_of [] = 0
last_of (hash ∷ []) = hash
last_of (hash ∷ next ∷ hashes) = last_of (next ∷ hashes)

-- Diurn_::Last
unfoldable pub last : Diurn → ℕ
unfolding last_of
last diurn = last_of diurn.diurnal_block.hashes

-- Diurn_::First
unfoldable pub first : Diurn → ℕ
first diurn = get_or (get_elem? diurn.diurnal_block.hashes 0) 0

-- The loop of Diurn_::Work over the credits and the hashes.
unfoldable pub work_of : List MinedCreditMessage → List ℕ → ℕ → ℕ
work_of [] hashes work = work
work_of (msg ∷ msgs) [] work = work
work_of (msg ∷ msgs) (hash ∷ hashes) work = work_of msgs hashes (
    if msg.mined_credit.hash == hash then (work + msg.mined_credit.difficulty) % u160_mod else work)

-- Diurn_::Work
unfoldable pub work : Diurn → ℕ
unfolding work_of
work diurn = work_of diurn.credits_in_diurn diurn.diurnal_block.hashes 0

module _ (tree_hash : List ℕ → ℕ) where
  -- Diurn_::BlockRoot
  unfoldable pub block_root : Diurn → ℕ
  unfolding setvch
  block_root diurn =
      (DiurnalBlock.root tree_hash (setvch (getvch diurn.diurnal_block.hashes) empty_block)).0

  -- Diurn_::Root
  unfoldable pub root : Diurn → ℕ
  unfolding block_root
  root diurn = symmetric_combine tree_hash diurn.previous_diurn_root (block_root diurn)

  -- Diurn_::Branch
  unfoldable pub branch : ℕ → Diurn → Option (List ℕ × Diurn)
  unfolding root
  branch credit_hash diurn = elim (DiurnalBlock.branch tree_hash credit_hash diurn.diurnal_block) [
    | none ↦ none
    | some (entries, block) ↦ some (
      (entries ++ diurn.previous_diurn_root ∷ [])
          ++ root (record diurn { diurnal_block = block }) ∷ [],
      record diurn { diurnal_block = block },
    )
  ]
