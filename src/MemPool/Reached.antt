-- ===== src/MemPool/Reached.antt =====
-- What holds of the double spends of every pool that the methods reach.
use flex.Common.{
  ℕ, ◌≡◌, refl, ap, ◌∙◌, sym, Bool, true, false, not, ◌&&◌, none, some, List, [], ◌∷◌, arith, ◌==◌,
  if◌then◌else◌, Bool-cases, Option-cases, inl, inr,
}
use mathlib.Core.Option.{some-injective, none-ne-some}
use flex.StdMap.{Map, Set, put, count, insert}
use flex.StdMap.Laws.{lookup-erase}
use flex.MemPool.{
  MemPool, spends_of, note_spend, count_double_spends, count_double_spend, change_chain,
  add_transaction, add_mined_credit, contains_transaction, is_double_spend, forget_spends,
  remove_transaction, remove_mined_credit,
}
use flex.CreditUtil.Transactions.{SignedTransaction, PoolData, transactions_conflict}
use flex.MemPool.Symmetric.{
  names, IsSymmetric, names-put, names-both, names-forget, names-erase_key,
}

abbrev pub empty_pool : MemPool
empty_pool = record {
  transactions = [];
  multiple_spends = [];
  mined_credits = [];
  already_included = [];
}

-- The calls that change a pool, with the outcome of those that return.
pub data Step (stored : PoolData) : MemPool → MemPool → Type 0 where
  add_tx :
      {pool pool' : MemPool} (tx : SignedTransaction)
      → add_transaction stored tx pool ≡ some pool'
      → Step stored pool pool'
  add_credit : (pool : MemPool) (hash : ℕ) → Step stored pool (add_mined_credit hash pool)
  read_spends : (pool : MemPool) (hash : ℕ) → Step stored pool (is_double_spend hash pool).1
  remove_tx : (pool : MemPool) (hash : ℕ) → Step stored pool (remove_transaction hash pool)
  remove_credit : (pool : MemPool) (hash : ℕ) → Step stored pool (remove_mined_credit hash pool)
  switch :
      {pool pool' : MemPool} {result : Bool} {dropped : List ℕ} (fuel from_hash to_hash : ℕ)
      → change_chain stored fuel from_hash to_hash pool ≡ some (result, pool', dropped)
      → Step stored pool pool'

pub data Reached (stored : PoolData) : MemPool → Type 0 where
  start : Reached stored empty_pool
  next :
      {pool pool' : MemPool} → Reached stored pool → Step stored pool pool' → Reached stored pool'

module _ (stored : PoolData) (tx : SignedTransaction) where
  counted_outside :
      (hash : ℕ) (u : Unit {0}) (transactions : Set) (m : Map Set)
      → transactions_conflict (stored.stored_tx hash) tx ≡ none
      → count_double_spends stored tx ((hash, u) ∷ transactions) m ≡ none
  unfolding count_double_spends
  counted_outside hash u transactions m e = rw (e, count_double_spends) refl

  counted_step :
      (hash : ℕ) (u : Unit {0}) (transactions : Set) (m : Map Set) (conflict : Bool)
      → transactions_conflict (stored.stored_tx hash) tx ≡ some conflict
      → count_double_spends stored tx ((hash, u) ∷ transactions) m
        ≡ count_double_spends stored tx transactions (
            if conflict
            then note_spend
                (stored.stored_tx hash).hash
                tx.hash
                (note_spend tx.hash (stored.stored_tx hash).hash m)
            else m)
  unfolding count_double_spends
  counted_step hash u transactions m true e = rw (e, count_double_spends) refl
  counted_step hash u transactions m false e = rw (e, count_double_spends) refl

  noted-IsSymmetric :
      (z : ℕ) (m : Map Set)
      → IsSymmetric m
      → IsSymmetric (note_spend z tx.hash (note_spend tx.hash z m))
  noted-IsSymmetric z m s x y =
      ground (arith, names-both stored tx x y z m, names-both stored tx y x z m, s x y)

  counted-IsSymmetric :
      (transactions : Set) (m : Map Set) (m' : Map Set)
      → count_double_spends stored tx transactions m ≡ some m'
      → IsSymmetric m
      → IsSymmetric m'
  unfolding count_double_spends
  counted-IsSymmetric [] m m' e s = rw (sym (some-injective m m' e)) s
  counted-IsSymmetric ((hash, u) ∷ transactions) m m' e s =
      elim (Option-cases (transactions_conflict (stored.stored_tx hash) tx)) [
        | inl outside ↦
            absurd (none-ne-some m' (sym (counted_outside hash u transactions m outside) ∙ e))
        | inr (true, met) ↦
            counted-IsSymmetric transactions
              (note_spend (stored.stored_tx hash).hash tx.hash
                (note_spend tx.hash (stored.stored_tx hash).hash m))
              m' (sym (counted_step hash u transactions m true met) ∙ e)
              (noted-IsSymmetric (stored.stored_tx hash).hash m s)
        | inr (false, met) ↦
            counted-IsSymmetric transactions m m'
              (sym (counted_step hash u transactions m false met) ∙ e) s
      ]

removed :
    (x y t : ℕ) (pool : MemPool)
    → IsSymmetric pool.multiple_spends
    → names x y (remove_transaction t pool).multiple_spends
      ≡ (not (x == t) && (not (y == t) && names x y pool.multiple_spends))
unfolding remove_transaction
removed x y t pool s =
    let own = spends_of t pool.multiple_spends in
    let m = put t own pool.multiple_spends in
    names-erase_key x y t (forget_spends t own m)
    ∙ ground (arith, names-forget x y t own m, names-put x y t own pool.multiple_spends, s x t)

added :
    (stored : PoolData) (tx : SignedTransaction) (pool pool' : MemPool)
    → add_transaction stored tx pool ≡ some pool'
    → IsSymmetric pool.multiple_spends
    → IsSymmetric pool'.multiple_spends
unfolding add_transaction count_double_spend
added stored tx pool pool' e s = elim (Bool-cases (count tx.hash pool.transactions)) [
  | inl old ↦
      let same : add_transaction stored tx pool ≡ some pool = rw old refl in
      rw (sym (some-injective pool pool' (sym same ∙ e))) s
  | inr new ↦
      elim (Option-cases (count_double_spends stored tx pool.transactions pool.multiple_spends)) [
        | inl outside ↦
            let fails : add_transaction stored tx pool ≡ none =
              rw (new, add_transaction) (rw (outside, count_double_spend) refl) in
            absurd (none-ne-some pool' (sym fails ∙ e))
        | inr (m, ok) ↦
            let result : MemPool = record pool {
              multiple_spends = m;
              transactions = insert tx.hash pool.transactions;
            } in
            let same : add_transaction stored tx pool ≡ some result =
              rw (new, add_transaction) (rw (ok, count_double_spend) refl) in
            rw
              (sym (
                ap (λ (p : MemPool). p.multiple_spends)
                  (some-injective result pool' (sym same ∙ e))))
              (counted-IsSymmetric stored tx pool.transactions pool.multiple_spends m ok s)
      ]
]

names-read :
    (x y hash : ℕ) (pool : MemPool)
    → names x y (is_double_spend hash pool).1.multiple_spends ≡ names x y pool.multiple_spends
unfolding is_double_spend
names-read x y hash pool = elim (Bool-cases (x == hash)) [
  | inl e ↦
      let same : x ≡ hash = ground (arith, e) in
      names-put x y hash (spends_of hash pool.multiple_spends) pool.multiple_spends
      ∙ rw same (ground arith)
  | inr n ↦
      names-put x y hash (spends_of hash pool.multiple_spends) pool.multiple_spends
      ∙ ground (arith, n)
]

switched :
    (stored : PoolData) (fuel from_hash to_hash : ℕ) (pool pool' : MemPool) (result : Bool)
    (dropped : List ℕ)
    → change_chain stored fuel from_hash to_hash pool ≡ some (result, pool', dropped)
    → pool.multiple_spends ≡ pool'.multiple_spends
unfolding change_chain
switched stored fuel from_hash to_hash pool pool' result dropped e = ground (arith, e)

Step-IsSymmetric :
    (stored : PoolData) (pool pool' : MemPool)
    → Step stored pool pool'
    → IsSymmetric pool.multiple_spends
    → IsSymmetric pool'.multiple_spends
unfolding add_mined_credit remove_mined_credit
Step-IsSymmetric stored pool pool' (add_tx tx e) s = added stored tx pool pool' e s
Step-IsSymmetric stored pool pool' (add_credit p hash) s = s
Step-IsSymmetric stored pool pool' (read_spends p hash) s =
    λ x y. names-read x y hash p ∙ s x y ∙ sym (names-read y x hash p)
Step-IsSymmetric stored pool pool' (remove_tx p hash) s =
    λ x y. ground (arith, removed x y hash p s, removed y x hash p s, s x y)
Step-IsSymmetric stored pool pool' (remove_credit p hash) s = s
Step-IsSymmetric stored pool pool' (switch fuel from_hash to_hash e) s =
    rw (sym (switched stored fuel from_hash to_hash pool pool' _ _ e)) s

Reached-IsSymmetric :
    (stored : PoolData) (pool : MemPool) → Reached stored pool → IsSymmetric pool.multiple_spends
unfolding spends_of
Reached-IsSymmetric stored pool start = λ x y. refl
Reached-IsSymmetric stored pool (next {pool = p} r step) =
    Step-IsSymmetric stored p pool step (Reached-IsSymmetric stored p r)

-- In every pool that the methods reach from an empty one, a transaction names another in
-- multiple_spends exactly if the other names it. So after RemoveTransaction no transaction names the
-- removed one and it names none, all other names stay, and the pool holds the transactions that it held
-- but the removed one.
pub remove_transaction-Reached :
    (stored : PoolData) (pool : MemPool) (hash x y : ℕ)
    → Reached stored pool
    → (names x y pool.multiple_spends ≡ names y x pool.multiple_spends)
      × (names x y (remove_transaction hash pool).multiple_spends
          ≡ (not (x == hash) && (not (y == hash) && names x y pool.multiple_spends)))
      × (contains_transaction x (remove_transaction hash pool)
          ≡ (not (x == hash) && contains_transaction x pool))
unfolding contains_transaction remove_transaction
remove_transaction-Reached stored pool hash x y r =
    let s = Reached-IsSymmetric stored pool r in
    (s x y, removed x y hash pool s, ground (arith, lookup-erase x hash pool.transactions))
