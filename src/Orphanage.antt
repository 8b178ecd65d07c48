-- ===== src/Orphanage.antt =====
-- The class Orphanage of src/teleportnode/orphanage.h: the transactions and the batches of credits
-- that wait for what they need.
pub mod Total
pub mod Counted
pub mod Released
pub mod Examples
use flex.Common.{
  ℕ, ◌+◌, ◌-◌, ◌%◌, ◌^◌, ◌≡◌, Bool, true, false, not, ◌&&◌, ◌||◌, Option, none, some, List, [], ◌∷◌,
  ◌++◌, ltb, ◌==◌, if◌then◌else◌, length, get_elem?, get_or,
}
use flex.StdMap.{Map, Set, lookup, put, erase, count, insert}
use flex.HashTrees.{symmetric_combine}
use flex.Credits.{CreditInBatch}
use flex.CreditUtil.Transactions.{SignedTransaction}

-- A MinedCreditMessage, with what GetHash160 returns.
pub record Message : Type 0 where
  pub hash : ℕ
  pub previous_mined_credit_hash : ℕ
  pub short_hashes : List ℕ

-- creditdata[hash].HasProperty("mined_credit") and "branch", hashdata[hash]["matches"], operator== of
-- the messages, and the hash of SymmetricCombine.
pub record OrphanData : Type 0 where
  pub has_mined_credit : ℕ → Bool
  pub has_branch : ℕ → Bool
  pub matches : ℕ → List ℕ
  pub same_message : Message → Message → Bool
  pub tree_hash : List ℕ → ℕ

-- The keys of nuggetorphandb that are a uint160 and those that are a uint32_t have 20 and 4 bytes, so
-- they never meet: short_nuggetorphandb has the latter. A count is an int32_t, as its 32 bits.
pub record Orphanage : Type 0 where
  pub txorphandb : Map (List SignedTransaction)
  pub nuggetorphandb : Map (List Message)
  pub short_nuggetorphandb : Map (List Message)
  pub missing_parent_counts : Map ℕ

-- The vector that a CMemoryDB holds under a key: empty where there is none.
abbrev pub entries_at {ℓ} : {A : Type ℓ} → ℕ → Map (List A) → List A
entries_at key db = get_or (lookup key db) []

-- missing_parent_counts[hash]
abbrev pub num_parents : ℕ → Map ℕ → ℕ
num_parents hash counts = get_or (lookup hash counts) 0

-- num_parents > 0 for the 32 bits of an int32_t
abbrev pub is_positive : ℕ → Bool
is_positive n = ltb 0 n && ltb n (2 ^ 31)

-- Orphanage::IsOrphan
unfoldable pub is_orphan : ℕ → Orphanage → Bool
is_orphan hash o = is_positive (num_parents hash o.missing_parent_counts)

-- Orphanage::IncrementNumParents
unfoldable pub increment_num_parents : ℕ → Map ℕ → Map ℕ
increment_num_parents hash counts = put hash ((num_parents hash counts + 1) % 2 ^ 32) counts

-- Orphanage::DecrementNumParentsAndCheckStillOrphan
unfoldable pub decrement_num_parents_and_check_still_orphan : ℕ → Map ℕ → Bool × Map ℕ
decrement_num_parents_and_check_still_orphan hash counts =
    let remaining = (num_parents hash counts + (2 ^ 32 - 1)) % 2 ^ 32 in
    (is_positive remaining, put hash remaining counts)

-- The loop of the three functions ...NonOrphansAfter..., over what they have erased.
unfoldable pub non_orphans {ℓ} : {A : Type ℓ} → (A → ℕ) → List A → Map ℕ → List A × Map ℕ
non_orphans hash_of [] counts = ([], counts)
non_orphans hash_of (x ∷ old_orphans) counts =
    let checked = decrement_num_parents_and_check_still_orphan (hash_of x) counts in
    let rest = non_orphans hash_of old_orphans checked.1 in
    (if checked.0 then rest.0 else x ∷ rest.0, rest.1)

abbrev pub tx_hash : SignedTransaction → ℕ
tx_hash tx = tx.hash

abbrev pub msg_hash : Message → ℕ
msg_hash msg = msg.hash

-- Orphanage::TxNonOrphansAfterBatch
unfoldable pub tx_non_orphans_after_batch : ℕ → Orphanage → List SignedTransaction × Orphanage
tx_non_orphans_after_batch credit_hash o =
    let found = non_orphans tx_hash (entries_at credit_hash o.txorphandb) o.missing_parent_counts in
    (
      found.0,
      record o { txorphandb = erase credit_hash o.txorphandb; missing_parent_counts = found.1 },
    )

-- Orphanage::NuggetNonOrphansAfterBatch
unfoldable pub nugget_non_orphans_after_batch : ℕ → Orphanage → List Message × Orphanage
nugget_non_orphans_after_batch credit_hash o =
    let found =
      non_orphans msg_hash (entries_at credit_hash o.nuggetorphandb) o.missing_parent_counts in
    (
      found.0,
      record o {
        nuggetorphandb = erase credit_hash o.nuggetorphandb;
        missing_parent_counts = found.1;
      },
    )

-- Orphanage::NuggetNonOrphansAfterHash, on the four first bytes of a hash
unfoldable pub nugget_non_orphans_after_hash : ℕ → Orphanage → List Message × Orphanage
nugget_non_orphans_after_hash hash o =
    let short = hash % 2 ^ 32 in
    let found =
      non_orphans msg_hash (entries_at short o.short_nuggetorphandb) o.missing_parent_counts in
    (
      found.0,
      record o {
        short_nuggetorphandb = erase short o.short_nuggetorphandb;
        missing_parent_counts = found.1;
      },
    )

-- batch_root and branch_bridge of an input: `none` where a branch is empty.
unfoldable pub branch_back : List ℕ → Option ℕ
branch_back [] = none
branch_back (x ∷ []) = some x
branch_back (x ∷ y ∷ xs) = branch_back (y ∷ xs)

module _ (stored : OrphanData) where
  -- Orphanage::BatchIsKnown
  unfoldable pub batch_is_known : ℕ → Bool
  batch_is_known credit_hash =
      (credit_hash == 0) || (stored.has_mined_credit credit_hash || stored.has_branch credit_hash)

  -- VectorContainsEntry of the messages
  unfoldable pub contains_message : List Message → Message → Bool
  contains_message [] msg = false
  contains_message (m ∷ messages) msg = stored.same_message m msg || contains_message messages msg

  -- The loop of AddMinedCreditMessage over the short hashes.
  unfoldable pub add_missing_hashes : Message → List ℕ → Orphanage → Orphanage
  add_missing_hashes msg [] o = o
  add_missing_hashes msg (hash ∷ hashes) o =
      let waiting = entries_at hash o.short_nuggetorphandb in
      let next =
        if hash == msg.previous_mined_credit_hash % 2 ^ 32
        then o
        else if not (length (stored.matches hash) == 0)
        then o
        else if contains_message waiting msg
        then record o { short_nuggetorphandb = put hash waiting o.short_nuggetorphandb }
        else record o {
          short_nuggetorphandb = put hash (waiting ++ msg ∷ []) o.short_nuggetorphandb;
          missing_parent_counts = increment_num_parents msg.hash o.missing_parent_counts;
        } in
      add_missing_hashes msg hashes next

  -- Orphanage::AddMinedCreditMessage
  unfoldable pub add_mined_credit_message : Message → Orphanage → ℕ × Orphanage
  add_mined_credit_message msg o =
      let previous = msg.previous_mined_credit_hash in
      let waiting = entries_at previous o.nuggetorphandb in
      let next = if batch_is_known previous then o else record o {
        nuggetorphandb = put previous (waiting ++ msg ∷ []) o.nuggetorphandb;
        missing_parent_counts = increment_num_parents msg.hash o.missing_parent_counts;
      } in
      let added = add_missing_hashes msg msg.short_hashes next in
      (num_parents msg.hash added.missing_parent_counts, added)

  -- mined_credit_hash of an input
  unfoldable pub mined_credit_hash_of : CreditInBatch → Option ℕ
  unfolding branch_back symmetric_combine
  mined_credit_hash_of credit = elim (branch_back credit.branch) [
    | none ↦ none
    | some batch_root ↦ elim (get_elem? credit.diurn_branch 0) [
      | none ↦ none
      | some branch_bridge ↦ some (symmetric_combine stored.tree_hash batch_root branch_bridge)
    ]
  ]

  -- The loop of AddTransaction over the inputs: `none` where it reads outside a vector.
  unfoldable pub add_missing_credits :
      SignedTransaction → List CreditInBatch → Set → Orphanage → Option Orphanage
  add_missing_credits tx [] missing_credits o = some o
  add_missing_credits tx (credit ∷ inputs) missing_credits o = elim (mined_credit_hash_of credit) [
    | none ↦ none
    | some hash ↦
        let is_new = not (batch_is_known hash) && not (count hash missing_credits) in
        add_missing_credits tx inputs
          (if is_new then insert hash missing_credits else missing_credits)
          (if is_new
            then record o {
              txorphandb = put hash (entries_at hash o.txorphandb ++ tx ∷ []) o.txorphandb;
              missing_parent_counts = increment_num_parents tx.hash o.missing_parent_counts;
            }
            else o)
  ]

  -- Orphanage::AddTransaction
  unfoldable pub add_transaction : SignedTransaction → Orphanage → Option Orphanage
  unfolding add_missing_credits
  add_transaction tx o = add_missing_credits tx tx.rawtx.inputs [] o
