-- ===== src/Calendar/Connection/Examples.antt =====
-- A credit of a batch of two, its diurn of one mined credit and a calendar of one calend.
use flex.Common.{ℕ, ◌≡◌, refl, true, false, some, ◌==◌, List, [], ◌∷◌, arith}
use flex.HashTrees.{symmetric_combine, xor_bits, or_bits, bytes_of}
use flex.HashTrees.Node.{hash_node, branch_tree, new_node}
use flex.HashTrees.Ordered
use flex.HashTrees.Ordered.{add_element_data}
use flex.HashTrees.DiurnalBlock.{new_tree, contains, position}
use flex.HashTrees.DiurnalBlock.Filled.{IsFilled, new_tree-IsFilled}
use flex.Credits.{credit_bytes}
use flex.Credits.Batch.{batch_root, batch_position, batch_branch, get_credit_in_batch}
use flex.Credits.Examples.{
  one_byte, sum_of, six, two_credits, two_credits-IsBatch, two_credits-Distinct,
}
use flex.Calendar.{MinedCreditMessage}
use flex.Calendar.Diurn.{Diurn, empty_diurn, root, block_root, branch}
use flex.Calendar.Tip.{CalendarData}
use flex.Calendar.Check.{contains_diurn, calend_root}
use flex.Calendar.Check.Examples.{calend_with, checked_data}
use flex.Calendar.Connection.{credit_in_batch_has_valid_connection}
use flex.Calendar.Connection.Whole.{credit_in_batch_has_valid_connection-branch}

abbrev summed_data : CalendarData
summed_data = record checked_data { tree_hash = sum_of }

abbrev hash_of_batch : ℕ
hash_of_batch = 85_103_686_006_557_360_259

abbrev hash_of_credit : ℕ
hash_of_credit = 85_103_685_839_191_705_217

first_place : (get_credit_in_batch one_byte sum_of six two_credits).0.position ≡ 1
unfolding get_credit_in_batch batch_position batch_branch credit_bytes bytes_of Ordered.position
    Ordered.branch Ordered.built Ordered.build_tree Ordered.assign_positions Ordered.place_each
    Ordered.these_hashes Ordered.null_elements Ordered.set_element Ordered.sort_hashes
    Ordered.insert_hash Ordered.find_data Ordered.element_hash Ordered.position_plus_data
    Ordered.write Ordered.zeros add_element_data
first_place = refl

named :
    (batch_root one_byte sum_of (get_credit_in_batch one_byte sum_of six two_credits).1).0
    ≡ hash_of_batch
unfolding get_credit_in_batch batch_root batch_position batch_branch credit_bytes bytes_of
    Ordered.position Ordered.branch Ordered.root Ordered.built Ordered.build_tree
    Ordered.assign_positions Ordered.place_each Ordered.these_hashes Ordered.null_elements
    Ordered.set_element Ordered.sort_hashes Ordered.insert_hash Ordered.find_data
    Ordered.element_hash Ordered.position_plus_data Ordered.write Ordered.zeros add_element_data
    symmetric_combine xor_bits or_bits hash_node branch_tree new_node
named = refl

bridged : symmetric_combine sum_of hash_of_batch 77 ≡ hash_of_credit
unfolding symmetric_combine xor_bits or_bits bytes_of
bridged = refl

abbrev one_diurn : Diurn
one_diurn = record empty_diurn {
  previous_diurn_root = 9;
  diurnal_block = record {
    hashes = hash_of_credit ∷ [];
    tree = some (new_tree (hash_of_credit ∷ []));
  };
}

one_diurn-IsFilled : IsFilled sum_of one_diurn.diurnal_block
one_diurn-IsFilled = new_tree-IsFilled sum_of (hash_of_credit ∷ []) (omega arith) (omega arith)

-- The calend that ends the diurn.
abbrev one_calend : MinedCreditMessage
one_calend = calend_with 1 9 (block_root sum_of one_diurn)

is_held : contains hash_of_credit one_diurn.diurnal_block ≡ true
unfolding contains position
is_held = refl

in_calendar : contains_diurn summed_data (root sum_of one_diurn) (one_calend ∷ []) ≡ true
unfolding contains_diurn calend_root root
in_calendar =
    let own = root sum_of one_diurn in let same : (own == own) ≡ true = ground arith in rw same refl

credit_in_batch_has_valid_connection-branch_example :
    (diurn_branch : List ℕ) × (diurn' : Diurn) × (branch sum_of
        (symmetric_combine sum_of hash_of_batch 77)
        one_diurn
      ≡ some (diurn_branch, diurn'))
    × (credit_in_batch_has_valid_connection one_byte summed_data
          (λ hash. false)
          (record (get_credit_in_batch one_byte sum_of six two_credits).0 {
            diurn_branch = 77 ∷ diurn_branch;
          })
          (one_calend ∷ [])
        ≡ true)
credit_in_batch_has_valid_connection-branch_example =
    credit_in_batch_has_valid_connection-branch one_byte summed_data two_credits 1 six 77 one_diurn
      (one_calend ∷ []) (λ hash. false) hash_of_batch two_credits-IsBatch
      (unfold add_element_data in refl) (unfold add_element_data in refl) two_credits-Distinct
      (unfold add_element_data in omega arith) refl (omega (arith, first_place)) named
      one_diurn-IsFilled (rw bridged is_held) (omega arith) (omega arith, tt) in_calendar
