-- ===== src/CreditUtil/Transactions.antt =====
-- TransactionsConflict, GetTxDifferences and TransactionDepth of src/credits/creditutil.cpp.
use flex.Common.{
  ℕ, zero, suc, ◌+◌, ◌-◌, ◌%◌, ◌^◌, Bool, true, false, not, ◌&&◌, Option, none, some, List, [],
  ◌++◌, ◌==◌, if◌then◌else◌, length, get_elem?, nat_eq,
}
use flex.Credits.{CreditInBatch, bytes_eq}
use flex.Credits.Transaction.{UnsignedTransaction}
use flex.CreditUtil.{History, cancel}
use flex.HashTrees.Ordered.{equal_bytes}

-- A SignedTransaction, with what GetHash160 returns.
pub record SignedTransaction : Type 0 where
  pub rawtx : UnsignedTransaction
  pub hash : ℕ

-- What the stored data says: creditdata[hash]["tx"], creditdata[hash]["credit_hash"], InMainChain(hash).
pub record PoolData : Type 0 where
  pub history : History
  pub stored_tx : ℕ → SignedTransaction
  pub credit_hash : ℕ → ℕ
  pub in_main_chain : ℕ → Bool

-- CreditInBatch::operator==
unfoldable pub same_input : CreditInBatch → CreditInBatch → Bool
same_input a b = equal_bytes a.branch b.branch && (a.position == b.position)

-- The inner loop of TransactionsConflict over k, with the rounds left: `none` where it reads outside a
-- vector.
unfoldable pub conflict_at : ℕ → ℕ → ℕ → List CreditInBatch → List CreditInBatch → Option Bool
conflict_at zero k j inputs1 inputs2 = some false
conflict_at (suc rounds) k j inputs1 inputs2 =
    let rest = conflict_at rounds (k + 1) j inputs1 inputs2 in
    elim (get_elem? inputs1 k) [
      | none ↦ none
      | some a ↦ elim (get_elem? inputs2 j) [
        | none ↦ none
        | some b ↦ if same_input a b then some true else rest
      ]
    ]

-- The outer loop over j.
unfoldable pub conflict_from : ℕ → ℕ → List CreditInBatch → List CreditInBatch → Option Bool
conflict_from zero j inputs1 inputs2 = some false
conflict_from (suc rounds) j inputs1 inputs2 =
    let rest = conflict_from rounds (j + 1) inputs1 inputs2 in
    elim (conflict_at (length inputs2) 0 j inputs1 inputs2) [
      | none ↦ none
      | some conflict ↦ if conflict then some true else rest
    ]

-- TransactionsConflict
unfoldable pub transactions_conflict : SignedTransaction → SignedTransaction → Option Bool
transactions_conflict tx1 tx2 =
    conflict_from (length tx1.rawtx.inputs) 0 tx1.rawtx.inputs tx2.rawtx.inputs

-- A loop of GetTxDifferences back to a hash at which it stops.
unfoldable pub contents_until : History → (ℕ → Bool) → ℕ → ℕ → List ℕ → Option (List ℕ × ℕ)
contents_until history stop zero hash contents = if stop hash then some (contents, hash) else none
contents_until history stop (suc fuel) hash contents =
    let rest =
      contents_until history stop fuel (history.previous hash)
        (contents ++ history.batch_hashes hash) in
    if stop hash then some (contents, hash) else rest

-- GetTxDifferences
unfoldable pub get_tx_differences : PoolData → ℕ → ℕ → ℕ → Option (List ℕ × List ℕ)
get_tx_differences stored fuel previous_credit_hash target_credit_hash =
    elim (contents_until stored.history
      (λ hash. not (not (stored.in_main_chain hash) && not (hash == 0))) fuel target_credit_hash
      []) [
        | none ↦ none
        | some (to_add, fork) ↦
            elim (contents_until stored.history
              (λ hash. not (not (hash == fork) && not (hash == 0))) fuel previous_credit_hash []) [
                | none ↦ none
                | some (to_delete, last) ↦ some (cancel to_add to_delete)
              ]
      ]

-- TransactionDepth, an unsigned difference
unfoldable pub transaction_depth : PoolData → ℕ → ℕ → ℕ
transaction_depth stored txhash current_credit_hash =
    (stored.history.batch_number current_credit_hash
      + 2 ^ 64
      - stored.history.batch_number (stored.credit_hash txhash))
    % 2 ^ 64
