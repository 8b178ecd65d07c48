-- ===== src/CreditUtil.antt =====
-- src/credits/creditutil.cpp: the fork of two chains of credits, and the change of the spent chain from
-- one credit to another.
pub mod Ancestors
pub mod Cancel
pub mod Rounds
pub mod Found
pub mod Fork
pub mod Spent
pub mod Change
pub mod Calends
pub mod Since
pub mod Batches
pub mod Length
pub mod Transactions
pub mod Examples
use flex.Common.{
  ℕ, zero, suc, ◌+◌, ◌-◌, ◌*◌, ◌%◌, ◌^◌, Bool, true, false, not, ◌&&◌, ◌||◌, Option, none, some,
  List, [], ◌∷◌, ◌++◌, ltb, ◌==◌, if◌then◌else◌, length, nat_eq,
}
use flex.StdMap.{Set, count, insert}
use flex.VectorTools.{vector_contains_entry, erase_entry_from_vector}
use flex.RelayState.Platform.{u32_mod}
use flex.BitChain.{BitChain, set_length, set_each, clear_each}
use flex.Credits.{CreditInBatch}
use flex.Credits.Transaction.{UnsignedTransaction}

-- What the stored data says of credits: creditdata[hash]["mined_credit"].previous_mined_credit_hash and
-- its batch_number, batchhashesdb[hash], creditdata[hash]["tx"].rawtx where there is one, and what
-- SpentChainLength(hash) returns. A hash with no stored data has the values of an empty object.
pub record History : Type 0 where
  pub previous : ℕ → ℕ
  pub batch_number : ℕ → ℕ
  pub batch_hashes : ℕ → List ℕ
  pub transaction : ℕ → Option UnsignedTransaction
  pub spent_chain_length : ℕ → ℕ

-- PreviousCreditHash
unfoldable pub previous_credit_hash : History → ℕ → ℕ
previous_credit_hash history credit_hash = history.previous credit_hash

unfoldable pub positions_of : List CreditInBatch → List ℕ
positions_of [] = []
positions_of (input ∷ inputs) = input.position ∷ positions_of inputs

-- GetBitsSetByTxs
unfoldable pub get_bits_set_by_txs : History → List ℕ → List ℕ
unfolding positions_of
get_bits_set_by_txs history [] = []
get_bits_set_by_txs history (hash ∷ txs) = elim (history.transaction hash) [
  | none ↦ get_bits_set_by_txs history txs
  | some tx ↦ positions_of tx.inputs ++ get_bits_set_by_txs history txs
]

-- GetBitsSetInBatch
unfoldable pub get_bits_set_in_batch : History → ℕ → List ℕ
unfolding get_bits_set_by_txs
get_bits_set_in_batch history credit_hash =
    get_bits_set_by_txs history (history.batch_hashes credit_hash)

abbrev pub insert_nonzero : ℕ → Set → Set
insert_nonzero hash seen = if ltb 0 hash then insert hash seen else seen

-- The loop of GetFork: the fork and stepsback.
unfoldable pub fork_loop : History → ℕ → ℕ → ℕ → Set → ℕ → Option (ℕ × ℕ)
fork_loop history zero hash1 hash2 seen stepsback = none
fork_loop history (suc fuel) hash1 hash2 seen stepsback =
    let seen' = insert_nonzero hash2 (insert_nonzero hash1 seen) in
    let previous1 = history.previous hash1 in
    let previous2 = history.previous hash2 in
    let stepsback' = if previous1 == 0 then stepsback else (stepsback + 1) % u32_mod in
    let rest = fork_loop history fuel previous1 previous2 seen' stepsback' in
    if previous1 == 0 && previous2 == 0
    then some (0, stepsback)
    else if not (previous1 == 0) && count previous1 seen'
    then some (previous1, stepsback')
    else if not (previous2 == 0) && count previous2 seen'
    then some (previous2, stepsback')
    else rest

-- GetFork
unfoldable pub get_fork : History → ℕ → ℕ → ℕ → Option (ℕ × ℕ)
unfolding fork_loop
get_fork history fuel hash1 hash2 =
    if hash1 == hash2 then some (hash1, 0) else fork_loop history fuel hash1 hash2 [] 0

-- A loop of GetSpentChainDifferences, from a hash back to the fork, with the rounds that are left of
-- the 300: `none` if they do not suffice.
unfoldable pub look_back : History → ℕ → ℕ → ℕ → List ℕ → Option (List ℕ × ℕ)
unfolding get_bits_set_in_batch previous_credit_hash
look_back history zero hash fork bits = if hash == fork then some (bits, 0) else none
look_back history (suc rounds) hash fork bits =
    let rest =
      look_back history rounds (previous_credit_hash history hash) fork
        (bits ++ get_bits_set_in_batch history hash) in
    if hash == fork then some (bits, suc rounds) else rest

-- The last loops of GetSpentChainDifferences and GetTxDifferences: an entry of the first vector that the
-- second one holds is erased from both.
unfoldable pub cancel : List ℕ → List ℕ → List ℕ × List ℕ
unfolding vector_contains_entry erase_entry_from_vector
cancel [] to_clear = ([], to_clear)
cancel (bit ∷ to_set) to_clear =
    let kept = cancel to_set to_clear in
    let erased = cancel to_set (erase_entry_from_vector bit to_clear) in
    if vector_contains_entry to_clear bit then erased else (bit ∷ kept.0, kept.1)

-- GetSpentChainDifferences: `none` for false.
unfoldable pub get_spent_chain_differences : History → ℕ → ℕ → ℕ → Option (List ℕ × List ℕ)
get_spent_chain_differences history fuel starting_credit_hash target_credit_hash =
    elim (get_fork history fuel starting_credit_hash target_credit_hash) [
      | none ↦ none
      | some (fork, n) ↦ elim (look_back history 300 target_credit_hash fork []) [
        | none ↦ none
        | some (to_set, rounds) ↦ elim (look_back history rounds starting_credit_hash fork []) [
          | none ↦ none
          | some (to_clear, left) ↦ some (cancel to_set to_clear)
        ]
      ]
    ]

-- ChangeSpentChain
unfoldable pub change_spent_chain : History → ℕ → BitChain → ℕ → ℕ → Bool × BitChain
change_spent_chain history fuel spent_chain previous_credit_hash target_credit_hash =
    elim (get_spent_chain_differences history fuel previous_credit_hash target_credit_hash) [
      | none ↦ (false, spent_chain)
      | some (to_set, to_clear) ↦
          let length = history.spent_chain_length target_credit_hash in
          if length == 0
          then (false, spent_chain)
          else (true, clear_each to_clear (set_each to_set (set_length length spent_chain)))
    ]
