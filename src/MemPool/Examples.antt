-- ===== src/MemPool/Examples.antt =====
-- A pool of two transactions that spend the same credit, and what the theorems say of it.
use flex.Common.{
  ℕ, ◌≡◌, refl, true, false, not, ◌&&◌, ◌||◌, none, some, List, [], ◌∷◌, arith, ◌==◌, if◌then◌else◌,
}
use flex.StdMap.{lookup, put}
use flex.Credits.{CreditInBatch}
use flex.MemPool.{
  MemPool, contains_transaction, add_transaction, count_double_spend, count_double_spends,
  remove_transaction,
}
use flex.CreditUtil.Transactions.{SignedTransaction, PoolData, transactions_conflict, same_input}
use flex.MemPool.Conflict.{share_input, has_input, transactions_conflict-none}
use flex.MemPool.Symmetric.{names, spends_same, add_transaction-names}
use flex.MemPool.Reached.{Step, Reached, remove_transaction-Reached}

abbrev input_at : ℕ → CreditInBatch
input_at position = record {
  credit = record { amount = 5; public_key = 1 };
  position = position;
  branch = 8 ∷ [];
  diurn_branch = [];
}

abbrev spending : ℕ → List CreditInBatch → SignedTransaction
spending hash inputs = record {
  rawtx = record { inputs = inputs; outputs = []; pubkeys = []; up_to_date = true; hash = hash };
  hash = hash;
}

abbrev first_tx : SignedTransaction
first_tx = spending 10 (input_at 4 ∷ [])

abbrev second_tx : SignedTransaction
second_tx = spending 20 (input_at 4 ∷ [])

abbrev stored : PoolData
stored = record {
  history = record {
    previous = λ n. 0;
    batch_number = λ n. 0;
    batch_hashes = λ n. [];
    transaction = λ n. none;
    spent_chain_length = λ n. 0;
  };
  stored_tx = λ hash. if hash == 10 then first_tx else second_tx;
  credit_hash = λ n. 0;
  in_main_chain = λ n. false;
}

abbrev pool_of_one : MemPool
pool_of_one = record {
  transactions = (10, tt) ∷ [];
  multiple_spends = [];
  mined_credits = [];
  already_included = [];
}

one-Reached : Reached stored pool_of_one
unfolding add_transaction count_double_spend count_double_spends lookup put
one-Reached = Reached.next Reached.start (Step.add_tx first_tx refl)

transactions_conflict-none_example :
    transactions_conflict first_tx (spending 30 (input_at 5 ∷ input_at 6 ∷ [])) ≡ none
transactions_conflict-none_example =
    transactions_conflict-none first_tx (spending 30 (input_at 5 ∷ input_at 6 ∷ [])) (omega arith)
      (omega arith) (unfold share_input has_input same_input in refl)

add_transaction-names_example :
    (pool' : MemPool) × (add_transaction stored second_tx pool_of_one ≡ some pool')
    × (contains_transaction 10 pool' ≡ ((10 == 20) || contains_transaction 10 pool_of_one))
    × (names 10 20 pool'.multiple_spends ≡ (
        names 10 20 pool_of_one.multiple_spends
        || ((10 == 20 && spends_same stored second_tx 20 pool_of_one.transactions)
            || (20 == 20 && spends_same stored second_tx 10 pool_of_one.transactions))))
add_transaction-names_example =
    add_transaction-names stored second_tx pool_of_one 10 20
      (unfold contains_transaction lookup in refl) (refl, tt)

remove_transaction-Reached_example :
    (names 10 20 pool_of_one.multiple_spends ≡ names 20 10 pool_of_one.multiple_spends)
    × (names 10 20 (remove_transaction 10 pool_of_one).multiple_spends
        ≡ (not (10 == 10) && (not (20 == 10) && names 10 20 pool_of_one.multiple_spends)))
    × (contains_transaction 10 (remove_transaction 10 pool_of_one)
        ≡ (not (10 == 10) && contains_transaction 10 pool_of_one))
remove_transaction-Reached_example =
    remove_transaction-Reached stored pool_of_one 10 10 20 one-Reached
