-- ===== src/Credits/Batch.antt =====
-- src/credits/CreditBatch.cpp: a batch of credits over an ordered hash tree.
pub mod Copy
pub mod Accepted
use flex.Common.{
  ℕ, ◌+◌, ◌%◌, ◌^◌, Bool, true, false, Option, none, some, List, [], ◌∷◌, ◌++◌, if◌then◌else◌,
  length, get_or, get_elem?,
}
use flex.VectorTools.{vector_contains_entry}
use flex.RelayState.Platform.{Point}
use flex.HashTrees.{symmetric_combine}
use flex.HashTrees.Ordered
use flex.HashTrees.Ordered.{OrderedDataElement, OrderedHashTree, empty_tree, add_element_data}
use flex.Credits.{Credit, CreditInBatch, credit_eq, bytes_eq, credit_bytes, read_credit}

pub record CreditBatch : Type 0 where
  pub previous_credit_hash : ℕ
  pub credits : List Credit
  pub tree : OrderedHashTree
  pub serialized_credits : List (List ℕ)

-- CreditBatch(previous_credit_hash, offset)
abbrev pub new_batch : ℕ → ℕ → CreditBatch
new_batch previous_credit_hash offset = record {
  previous_credit_hash = previous_credit_hash;
  credits = [];
  tree = empty_tree offset;
  serialized_credits = [];
}

module _ (key_bytes : Point → List ℕ) where
  -- CreditBatch::Add
  unfoldable pub add : Credit → CreditBatch → Bool × CreditBatch
  unfolding credit_bytes vector_contains_entry add_element_data
  add credit b =
      let serialized_credit = credit_bytes key_bytes credit in
      let pushed = record b { credits = b.credits ++ credit ∷ [] } in
      if vector_contains_entry b.serialized_credits serialized_credit then (false, pushed) else (
        true,
        record pushed {
          serialized_credits = b.serialized_credits ++ serialized_credit ∷ [];
          tree = add_element_data serialized_credit b.tree;
        },
      )

  -- for (auto credit : credits_) Add(credit)
  unfoldable pub add_all : List Credit → CreditBatch → CreditBatch
  unfolding add
  add_all [] b = b
  add_all (credit ∷ credits) b = add_all credits (add credit b).1

  -- The first loop of CreditBatch::AddCredits.
  unfoldable pub any_known : List Credit → CreditBatch → Bool
  unfolding credit_bytes vector_contains_entry
  any_known [] b = false
  any_known (credit ∷ credits) b =
      let rest = any_known credits b in
      if vector_contains_entry b.serialized_credits (credit_bytes key_bytes credit)
      then true
      else rest

  -- CreditBatch::AddCredits
  unfoldable pub add_credits : List Credit → CreditBatch → Bool × CreditBatch
  unfolding any_known add_all
  add_credits credits b = if any_known credits b then (false, b) else (true, add_all credits b)

  -- CreditBatch(const CreditBatch&)
  unfoldable pub copy_batch : CreditBatch → CreditBatch
  unfolding add_all
  copy_batch other = add_all other.credits (new_batch other.previous_credit_hash other.tree.offset)

  -- CreditBatch::operator=, called on `b`
  unfoldable pub assign : CreditBatch → CreditBatch → CreditBatch
  unfolding add_all
  assign other b = add_all other.credits (record b {
    previous_credit_hash = other.previous_credit_hash;
    tree = record b.tree { offset = other.tree.offset };
  })

  module _ (tree_hash : List ℕ → ℕ) where
    -- CreditBatch::Root
    unfoldable pub batch_root : CreditBatch → ℕ × CreditBatch
    batch_root b =
        let (treeroot, tree) = Ordered.root tree_hash b.tree in
        (symmetric_combine tree_hash b.previous_credit_hash treeroot, record b { tree = tree })

    -- CreditBatch::Position
    unfoldable pub batch_position : Credit → CreditBatch → Option ℕ × CreditBatch
    unfolding credit_bytes
    batch_position credit b =
        let (at, tree) = Ordered.position tree_hash (credit_bytes key_bytes credit) b.tree in
        (at, record b { tree = tree })

    -- CreditBatch::Branch. The position -1 becomes the greatest number of 32 bits. The hash that the
    -- code computes and does not use is left out.
    unfoldable pub batch_branch : Credit → CreditBatch → List ℕ × CreditBatch
    batch_branch credit b =
        let (at, positioned) = batch_position credit b in
        let (entries, tree) =
          Ordered.branch tree_hash (get_or at 4_294_967_295 % 2 ^ 32) positioned.tree in
        let (root, final) = batch_root (record positioned { tree = tree }) in
        (entries ++ b.previous_credit_hash ∷ root ∷ [], final)

    -- CreditBatch::GetCreditInBatch; the order in which the arguments are evaluated does not matter,
    -- as each of the two assigns positions first.
    unfoldable pub get_credit_in_batch : Credit → CreditBatch → CreditInBatch × CreditBatch
    get_credit_in_batch credit b =
        let (at, positioned) = batch_position credit b in
        let (entries, final) = batch_branch credit positioned in
        (
          record {
            credit = credit;
            position = get_or at 18_446_744_073_709_551_615;
            branch = entries;
            diurn_branch = [];
          },
          final,
        )
