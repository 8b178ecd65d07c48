-- ===== src/MemPool/Symmetric.antt =====
-- Two transactions that spend the same credit know of each other.
use flex.Common.{
  ℕ, ◌≡◌, refl, ◌∙◌, Bool, false, not, ◌&&◌, ◌||◌, some, [], ◌∷◌, arith, ◌==◌, length,
  if◌then◌else◌, Bool-cases, inl, inr,
}
use flex.StdMap.{Map, Set, lookup, put, erase, count, insert}
use flex.StdMap.Laws.{lookup-put, lookup-erase}
use flex.MemPool.{
  MemPool, spends_of, note_spend, count_double_spends, count_double_spend, add_transaction,
  contains_transaction, forget_spends,
}
use flex.CreditUtil.Transactions.{SignedTransaction, PoolData, transactions_conflict}
use flex.MemPool.Conflict.{share_input, transactions_conflict-share}

-- multiple_spends of a transaction names another.
abbrev pub names : ℕ → ℕ → Map Set → Bool
names x y multiple_spends = count y (spends_of x multiple_spends)

abbrev pub IsSymmetric : Map Set → Type 0
IsSymmetric multiple_spends = (x y : ℕ) → names x y multiple_spends ≡ names y x multiple_spends

pub names-put :
    (x y k : ℕ) (s : Set) (m : Map Set)
    → names x y (put k s m) ≡ (if x == k then count y s else names x y m)
unfolding spends_of
names-put x y k s m = elim (Bool-cases (x == k)) [
  | inl e ↦ rw (lookup-put, e) refl
  | inr n ↦ rw (lookup-put, n) refl
]

names-note :
    (x y a b : ℕ) (m : Map Set) → names x y (note_spend a b m) ≡ ((x == a && y == b) || names x y m)
unfolding note_spend
names-note x y a b m = elim (Bool-cases (x == a)) [
  | inl e ↦
      let same : x ≡ a = ground (arith, e) in
      names-put x y a (insert b (spends_of a m)) m
      ∙ rw same (ground (arith, lookup-put y b tt (spends_of a m)))
  | inr n ↦ names-put x y a (insert b (spends_of a m)) m ∙ ground (arith, n)
]

pub names-erase_key :
    (x y k : ℕ) (m : Map Set) → names x y (erase k m) ≡ (not (x == k) && names x y m)
unfolding spends_of lookup
names-erase_key x y k m = elim (Bool-cases (x == k)) [
  | inl e ↦ rw (lookup-erase, e) refl
  | inr n ↦ rw (lookup-erase, n) refl
]

count-cons : (x k : ℕ) (u : Unit {0}) (s : Set) → count x ((k, u) ∷ s) ≡ ((x == k) || count x s)
unfolding lookup
count-cons x k u s = ground arith

names-put_erased :
    (x y k t : ℕ) (m : Map Set)
    → names x y (put k (erase t (spends_of k m)) m) ≡ (not (x == k && y == t) && names x y m)
names-put_erased x y k t m = elim (Bool-cases (x == k)) [
  | inl e ↦
      let same : x ≡ k = ground (arith, e) in
      names-put x y k (erase t (spends_of k m)) m
      ∙ rw same (ground (arith, lookup-erase y t (spends_of k m)))
  | inr n ↦ names-put x y k (erase t (spends_of k m)) m ∙ ground (arith, n)
]

-- What RemoveTransaction does for each of the conflicts.
pub names-forget :
    (x y t : ℕ) (conflicts : Set) (m : Map Set)
    → names x y (forget_spends t conflicts m) ≡ (not (y == t && count x conflicts) && names x y m)
unfolding forget_spends lookup
names-forget x y t [] m = ground arith
names-forget x y t ((other, u) ∷ conflicts) m =
    names-forget x y t conflicts (put other (erase t (spends_of other m)) m)
    ∙ ground (arith, count-cons x other u conflicts, names-put_erased x y other t m)

module _ (stored : PoolData) (tx : SignedTransaction) where
  -- A transaction with this hash is in the pool and shares an input with tx.
  abbrev pub spends_same : ℕ → Set → Bool
  spends_same z [] = false
  spends_same z ((hash, u) ∷ transactions) =
      ((stored.stored_tx hash).hash == z
        && share_input (stored.stored_tx hash).rawtx.inputs tx.rawtx.inputs)
      || spends_same z transactions

  -- The transactions of the pool have as many inputs as tx.
  abbrev pub AsManyInputs : Set → Type 0
  AsManyInputs [] = Unit
  AsManyInputs ((hash, u) ∷ transactions) =
      (length (stored.stored_tx hash).rawtx.inputs ≡ length tx.rawtx.inputs)
      × AsManyInputs transactions

  pub names-both :
      (x y z : ℕ) (m : Map Set)
      → names x y (note_spend z tx.hash (note_spend tx.hash z m))
        ≡ (names x y m || ((x == tx.hash && y == z) || (y == tx.hash && x == z)))
  names-both x y z m =
      names-note x y z tx.hash (note_spend tx.hash z m) ∙ ground (arith, names-note x y tx.hash z m)

  spends-counted :
      (transactions : Set) (m : Map Set)
      → AsManyInputs transactions
      → (m' : Map Set) × (count_double_spends stored tx transactions m ≡ some m')
        × ((x y : ℕ)
            → names x y m' ≡ (
                names x y m
                || ((x == tx.hash && spends_same y transactions)
                    || (y == tx.hash && spends_same x transactions))))
  unfolding count_double_spends
  spends-counted [] m same = (m, refl, λ x y. ground arith)
  spends-counted ((hash, u) ∷ transactions) m same =
      let tx' = stored.stored_tx hash in
      let shared = share_input tx'.rawtx.inputs tx.rawtx.inputs in
      let conflict : transactions_conflict tx' tx ≡ some shared =
        transactions_conflict-share tx' tx same.0 in
      elim (Bool-cases shared) [
        | inl yes_shared ↦
            let (m', ok, all) =
              spends-counted transactions
                (note_spend tx'.hash tx.hash (note_spend tx.hash tx'.hash m)) same.1 in
            (
              m',
              rw (conflict, count_double_spends) (rw yes_shared ok),
              λ x y. all x y ∙ ground (arith, names-both x y tx'.hash m, yes_shared),
            )
        | inr not_shared ↦
            let (m', ok, all) = spends-counted transactions m same.1 in
            (
              m',
              rw (conflict, count_double_spends) (rw not_shared ok),
              λ x y. all x y ∙ ground (arith, not_shared),
            )
      ]

-- AddTransaction of a transaction that the pool does not hold, where each transaction of the pool has as
-- many inputs as it, ends with no read outside a vector. The transaction is in the pool afterwards, as
-- all are that were. multiple_spends names what it named, and in both directions the new transaction and
-- each transaction of the pool that has a common input with it.
pub add_transaction-names :
    (stored : PoolData) (tx : SignedTransaction) (pool : MemPool) (x y : ℕ)
    → contains_transaction tx.hash pool ≡ false
    → AsManyInputs stored tx pool.transactions
    → (pool' : MemPool) × (add_transaction stored tx pool ≡ some pool')
      × (contains_transaction x pool' ≡ ((x == tx.hash) || contains_transaction x pool))
      × (names x y pool'.multiple_spends ≡ (
          names x y pool.multiple_spends
          || ((x == tx.hash && spends_same stored tx y pool.transactions)
              || (y == tx.hash && spends_same stored tx x pool.transactions))))
unfolding add_transaction count_double_spend contains_transaction
add_transaction-names stored tx pool x y new same =
    let (m', ok, all) = spends-counted stored tx pool.transactions pool.multiple_spends same in
    (
      record pool { multiple_spends = m'; transactions = insert tx.hash pool.transactions },
      rw (new, add_transaction) (rw (ok, count_double_spend) refl),
      ground (arith, lookup-put x tx.hash tt pool.transactions),
      all x y,
    )
