-- ===== src/MemPool.antt =====
-- The class MemPool of src/mining/pit.cpp.
pub mod Conflict
pub mod Symmetric
pub mod Reached
pub mod Examples
use flex.Common.{
  ℕ, zero, suc, ◌+◌, ◌-◌, ◌%◌, ◌^◌, ◌≡◌, Bool, true, false, not, ◌&&◌, ◌||◌, Option, none, some,
  List, [], ◌∷◌, ◌++◌, ltb, ◌==◌, if◌then◌else◌, length, get_elem?, get_or, nat_eq,
}
use flex.StdMap.{Map, Set, lookup, put, erase, count, insert}
use flex.VectorTools.{vector_contains_entry}
use flex.Credits.{CreditInBatch, bytes_eq}
use flex.Credits.Transaction.{UnsignedTransaction}
use flex.CreditUtil.{History, cancel}
use flex.HashTrees.Ordered.{equal_bytes}
use flex.CreditUtil.Transactions.{
  SignedTransaction, PoolData, transactions_conflict, get_tx_differences, transaction_depth,
}

pub record MemPool : Type 0 where
  pub transactions : Set
  pub multiple_spends : Map Set
  pub mined_credits : Set
  pub already_included : Set

-- multiple_spends[hash]
unfoldable pub spends_of : ℕ → Map Set → Set
unfolding lookup
spends_of hash multiple_spends = get_or (lookup hash multiple_spends) []

-- multiple_spends[a].insert(b)
unfoldable pub note_spend : ℕ → ℕ → Map Set → Map Set
unfolding put spends_of
note_spend a b multiple_spends = put a (insert b (spends_of a multiple_spends)) multiple_spends

-- The loop of MemPool::CountDoubleSpend over the transactions.
unfoldable pub count_double_spends : PoolData → SignedTransaction → Set → Map Set → Option (Map Set)
count_double_spends stored tx [] multiple_spends = some multiple_spends
count_double_spends stored tx ((hash, u) ∷ transactions) multiple_spends =
    let tx' = stored.stored_tx hash in
    let noted =
      count_double_spends stored tx transactions
        (note_spend tx'.hash tx.hash (note_spend tx.hash tx'.hash multiple_spends)) in
    let rest = count_double_spends stored tx transactions multiple_spends in
    elim (transactions_conflict tx' tx) [
      | none ↦ none
      | some conflict ↦ if conflict then noted else rest
    ]

-- MemPool::CountDoubleSpend
unfoldable pub count_double_spend : PoolData → SignedTransaction → MemPool → Option MemPool
count_double_spend stored tx pool =
    elim (count_double_spends stored tx pool.transactions pool.multiple_spends) [
      | none ↦ none
      | some multiple_spends ↦ some (record pool { multiple_spends = multiple_spends })
    ]

-- The search of CheckForDroppedTransactions among the conflicts of a transaction.
unfoldable pub chain_contains_double_spend : Set → List ℕ → Bool
unfolding vector_contains_entry
chain_contains_double_spend [] extra_txs = false
chain_contains_double_spend ((hash, u) ∷ conflicts) extra_txs =
    let rest = chain_contains_double_spend conflicts extra_txs in
    if vector_contains_entry extra_txs hash then true else rest

-- MemPool::CheckForDroppedTransactions: the transactions that it adds to dropped_txs.
unfoldable pub dropped_transactions : PoolData → MemPool → ℕ → List ℕ → List ℕ → List ℕ
unfolding transaction_depth chain_contains_double_spend spends_of
dropped_transactions stored pool credit_hash [] extra_txs = []
dropped_transactions stored pool credit_hash (txhash ∷ missing_txs) extra_txs =
    let rest = dropped_transactions stored pool credit_hash missing_txs extra_txs in
    if ltb 2 (transaction_depth stored txhash credit_hash)
      && (not (count txhash pool.multiple_spends)
          || not (chain_contains_double_spend (spends_of txhash pool.multiple_spends) extra_txs))
    then txhash ∷ rest
    else rest

-- The last loops of MemPool::ChangeChain.
unfoldable pub erase_all : List ℕ → Set → Set
unfolding erase
erase_all [] transactions = transactions
erase_all (hash ∷ hashes) transactions = erase_all hashes (erase hash transactions)

unfoldable pub insert_all : List ℕ → Set → Set
unfolding put
insert_all [] transactions = transactions
insert_all (hash ∷ hashes) transactions = insert_all hashes (insert hash transactions)

-- MemPool::ChangeChain: the result, the pool and what is added to dropped_txs. `none` is only for fuel.
unfoldable pub change_chain : PoolData → ℕ → ℕ → ℕ → MemPool → Option (Bool × MemPool × List ℕ)
change_chain stored fuel from_hash to_hash pool =
    elim (get_tx_differences stored fuel from_hash to_hash) [
      | none ↦ none
      | some (extra_txs, missing_txs) ↦
          let dropped = dropped_transactions stored pool from_hash missing_txs extra_txs in
          if ltb 0 (length dropped)
          then some (false, pool, dropped)
          else some (
            true,
            record pool {
              transactions = insert_all missing_txs (erase_all extra_txs pool.transactions);
            },
            [],
          )
    ]

-- MemPool::AddTransaction: `none` where TransactionsConflict reads outside a vector.
unfoldable pub add_transaction : PoolData → SignedTransaction → MemPool → Option MemPool
add_transaction stored tx pool =
    if count tx.hash pool.transactions
    then some pool
    else elim (count_double_spend stored tx pool) [
      | none ↦ none
      | some pool' ↦ some (record pool' { transactions = insert tx.hash pool'.transactions })
    ]

-- MemPool::AddMinedCredit, of the credit with a hash
unfoldable pub add_mined_credit : ℕ → MemPool → MemPool
add_mined_credit hash pool = record pool { mined_credits = insert hash pool.mined_credits }

-- MemPool::ContainsTransaction
unfoldable pub contains_transaction : ℕ → MemPool → Bool
contains_transaction txhash pool = count txhash pool.transactions

-- MemPool::ContainsMinedCredit
unfoldable pub contains_mined_credit : ℕ → MemPool → Bool
contains_mined_credit hash pool = count hash pool.mined_credits

-- MemPool::Contains
unfoldable pub contains : ℕ → MemPool → Bool
unfolding contains_transaction contains_mined_credit
contains hash pool = contains_transaction hash pool || contains_mined_credit hash pool

-- MemPool::IsDoubleSpend. Reading multiple_spends[hash] makes an entry where there was none.
unfoldable pub is_double_spend : ℕ → MemPool → Bool × MemPool
unfolding spends_of
is_double_spend hash pool =
    let spends = spends_of hash pool.multiple_spends in
    (ltb 0 (length spends), record pool { multiple_spends = put hash spends pool.multiple_spends })

-- for (...) multiple_spends[*it].erase(txhash)
unfoldable pub forget_spends : ℕ → Set → Map Set → Map Set
unfolding spends_of
forget_spends txhash [] multiple_spends = multiple_spends
forget_spends txhash ((other, u) ∷ conflicts) multiple_spends =
    forget_spends txhash conflicts
      (put other (erase txhash (spends_of other multiple_spends)) multiple_spends)

-- MemPool::RemoveTransaction
unfoldable pub remove_transaction : ℕ → MemPool → MemPool
unfolding spends_of forget_spends
remove_transaction txhash pool = record pool {
  transactions = erase txhash pool.transactions;
  multiple_spends = erase txhash (
      forget_spends txhash (spends_of txhash pool.multiple_spends)
        (put txhash (spends_of txhash pool.multiple_spends) pool.multiple_spends));
}

-- MemPool::RemoveMinedCredit
unfoldable pub remove_mined_credit : ℕ → MemPool → MemPool
remove_mined_credit hash pool = record pool { mined_credits = erase hash pool.mined_credits }

-- MemPool::Remove
unfoldable pub remove : ℕ → MemPool → MemPool
unfolding contains_transaction contains_mined_credit remove_transaction remove_mined_credit
remove hash pool =
    if contains_transaction hash pool
    then remove_transaction hash pool
    else if contains_mined_credit hash pool
    then remove_mined_credit hash pool
    else pool

-- MemPool::RemoveMany
unfoldable pub remove_many : List ℕ → MemPool → MemPool
unfolding remove
remove_many [] pool = pool
remove_many (hash ∷ hashes) pool = remove_many hashes (remove hash pool)
