-- ===== src/Credits/Transaction.antt =====
-- src/credits/UnsignedTransaction.cpp: a transaction and the hash that it remembers.
pub mod Hashed
use flex.Common.{ℕ, Bool, true, false, List, [], ◌∷◌, ◌++◌, if◌then◌else◌, length, ◌==◌}
use flex.VectorTools.{vector_contains_entry}
use flex.RelayState.Platform.{Point}
use flex.Credits.{Credit, CreditInBatch, credit_eq}

pub record UnsignedTransaction : Type 0 where
  pub inputs : List CreditInBatch
  pub outputs : List Credit
  pub pubkeys : List Point
  pub up_to_date : Bool
  pub hash : ℕ

-- UnsignedTransaction::UnsignedTransaction
abbrev pub new_transaction : UnsignedTransaction
new_transaction = record { inputs = []; outputs = []; pubkeys = []; up_to_date = false; hash = 0 }

-- UnsignedTransaction::AddInput
unfoldable pub add_input : CreditInBatch → UnsignedTransaction → UnsignedTransaction
add_input batch_credit tx = record tx {
  inputs = tx.inputs ++ batch_credit ∷ [];
  up_to_date = false;
}

-- UnsignedTransaction::AddOutput
unfoldable pub add_output : Credit → UnsignedTransaction → Bool × UnsignedTransaction
unfolding vector_contains_entry
add_output credit tx =
    if vector_contains_entry tx.outputs credit
    then (false, tx)
    else (true, record tx { outputs = tx.outputs ++ credit ∷ []; up_to_date = false })

-- UnsignedTransaction::GetHash; the hash of the serialized transaction is a parameter.
unfoldable pub get_hash :
    (List CreditInBatch → List Credit → List Point → ℕ)
    → UnsignedTransaction
    → ℕ × UnsignedTransaction
get_hash hash_of tx =
    if tx.up_to_date
    then (tx.hash, tx)
    else let hash = hash_of tx.inputs tx.outputs tx.pubkeys in
      (hash, record tx { hash = hash; up_to_date = true })

-- UnsignedTransaction::operator!
unfoldable pub has_no_output : UnsignedTransaction → Bool
has_no_output tx = length tx.outputs == 0
