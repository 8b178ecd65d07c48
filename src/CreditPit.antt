-- ===== src/CreditPit.antt =====
-- The class CreditPit of src/mining/pit.cpp: what the node accepts for the next batch.
pub mod Loops
pub mod Tip
pub mod Fresh
pub mod Reached
pub mod Examples
use flex.Common.{
  ℕ, suc, ◌+◌, ◌≡◌, Bool, true, false, not, ◌&&◌, ◌||◌, Option, none, some, List, [], ◌∷◌, ◌++◌,
  leb, ltb, ◌==◌, if◌then◌else◌, length, map, nat_eq,
}
use flex.StdMap.{Map, Set, lookup, put, erase, count, insert}
use flex.VectorTools.{vector_contains_entry, erase_entry_from_vector}
use flex.RelayState.Platform.{Point}
use flex.Credits.{Credit, credit_bytes}
use flex.Credits.Batch.{CreditBatch, new_batch, add, add_credits}
use flex.MemPool.{MemPool, add_transaction, add_mined_credit, is_double_spend, change_chain}
use flex.CreditUtil.Transactions.{SignedTransaction, PoolData}

-- A MinedCredit, with what GetHash160 returns and its amount for its key.
pub record Nugget : Type 0 where
  pub hash : ℕ
  pub credit : Credit

-- The stored data: the pool's, creditdata[hash].HasProperty("tx"), the mined credit of
-- creditdata[hash]["msg"], the hash of the tip with the offset that ResetBatch computes for the batch
-- after it, and Point::getvch.
pub record PitData : Type 0 where
  pub pool_data : PoolData
  pub has_tx : ℕ → Bool
  pub nugget : ℕ → Nugget
  pub tip : ℕ
  pub next_offset : ℕ
  pub key_bytes : Point → List ℕ

pub record CreditPit : Type 0 where
  pub pool : MemPool
  pub batch : CreditBatch
  pub accepted_txs : Set
  pub accepted_mined_credits : Set
  pub accepted_relay_msgs : List ℕ
  pub encoded_in_chain : Set
  pub in_current_batch : Set
  pub mined_credit_contents : List ℕ

module _ (stored : PitData) where
  -- CreditPit::ResetBatch
  unfoldable pub reset_batch : CreditPit → CreditPit
  reset_batch pit = record pit {
    batch = new_batch stored.tip stored.next_offset;
    in_current_batch = [];
  }

  -- CreditPit::MarkAsEncoded
  unfoldable pub mark_as_encoded : ℕ → CreditPit → CreditPit
  mark_as_encoded hash pit = record pit { encoded_in_chain = insert hash pit.encoded_in_chain }

  -- CreditPit::MarkAsUnencoded
  unfoldable pub mark_as_unencoded : ℕ → CreditPit → CreditPit
  mark_as_unencoded hash pit = record pit { encoded_in_chain = erase hash pit.encoded_in_chain }

  -- CreditPit::IsAlreadyEncoded
  unfoldable pub is_already_encoded : ℕ → CreditPit → Bool
  is_already_encoded hash pit = count hash pit.encoded_in_chain

  -- CreditPit::RemoveFromAccepted
  unfoldable pub remove_from_accepted : List ℕ → CreditPit → CreditPit
  remove_from_accepted [] pit = pit
  remove_from_accepted (hash ∷ hashes) pit = remove_from_accepted hashes (record pit {
    accepted_mined_credits = erase hash pit.accepted_mined_credits;
    accepted_txs = erase hash pit.accepted_txs;
    accepted_relay_msgs = erase_entry_from_vector hash pit.accepted_relay_msgs;
  })

  -- CreditPit::AddTransactionToCurrentBatch
  unfoldable pub add_transaction_to_current_batch : SignedTransaction → CreditPit → CreditPit
  add_transaction_to_current_batch tx pit =
      let added = add_credits stored.key_bytes tx.rawtx.outputs pit.batch in
      let accepted = record pit {
        accepted_txs = insert tx.hash pit.accepted_txs;
        batch = added.1;
      } in
      if added.0
      then record accepted { in_current_batch = insert tx.hash pit.in_current_batch }
      else accepted

  -- CreditPit::HandleNugget
  unfoldable pub handle_nugget : Nugget → CreditPit → CreditPit
  handle_nugget nugget pit =
      if count nugget.hash pit.in_current_batch
      then pit
      else if count nugget.hash pit.encoded_in_chain
      then pit
      else let pool = add_mined_credit nugget.hash pit.pool in
        record pit {
          pool = record pool { already_included = insert nugget.hash pool.already_included };
          accepted_mined_credits = insert nugget.hash pit.accepted_mined_credits;
          batch = (add stored.key_bytes nugget.credit pit.batch).1;
          in_current_batch = insert nugget.hash pit.in_current_batch;
        }

  -- CreditPit::HandleTransaction: `none` where TransactionsConflict reads outside a vector.
  unfoldable pub handle_transaction : SignedTransaction → CreditPit → Option CreditPit
  unfolding add_transaction_to_current_batch
  handle_transaction tx pit =
      if count tx.hash pit.in_current_batch
      then some pit
      else if count tx.hash pit.encoded_in_chain
      then some pit
      else elim (add_transaction stored.pool_data tx pit.pool) [
        | none ↦ none
        | some pool ↦
            let read = is_double_spend tx.hash pool in
            let pit' = record pit { pool = read.1 } in
            some (if read.0 then pit' else add_transaction_to_current_batch tx pit')
      ]

  -- CreditPit::HandleRelayMessage
  unfoldable pub handle_relay_message : ℕ → CreditPit → CreditPit
  handle_relay_message msg_hash pit =
      if vector_contains_entry pit.accepted_relay_msgs msg_hash
      then pit
      else record pit { accepted_relay_msgs = pit.accepted_relay_msgs ++ msg_hash ∷ [] }

  unfoldable pub handle_relay_messages : List ℕ → CreditPit → CreditPit
  unfolding handle_relay_message
  handle_relay_messages [] pit = pit
  handle_relay_messages (msg_hash ∷ msg_hashes) pit =
      handle_relay_messages msg_hashes (handle_relay_message msg_hash pit)

  -- CreditPit::SetMinedCreditContents
  unfoldable pub set_mined_credit_contents : CreditPit → CreditPit
  set_mined_credit_contents pit = record pit {
    mined_credit_contents =
        map (λ (entry : ℕ × Unit {0}). entry.0) pit.in_current_batch ++ pit.accepted_relay_msgs;
  }

  -- The loops of CreditPit::AddBatchToTip: the entries for which a test holds.
  unfoldable pub that : (ℕ → Bool) → List ℕ → List ℕ
  that test [] = []
  that test (hash ∷ hashes) = if test hash then hash ∷ that test hashes else that test hashes

  abbrev pub hashes_of : Set → List ℕ
  hashes_of set = map (λ (entry : ℕ × Unit {0}). entry.0) set

  -- hashes_to_delete of CreditPit::AddBatchToTip
  unfoldable pub hashes_to_delete : List ℕ → ℕ → CreditPit → List ℕ
  unfolding that
  hashes_to_delete full_hashes new_batch_number pit =
      let in_message = λ (hash : ℕ). vector_contains_entry full_hashes hash in
      that stored.has_tx full_hashes
      ++ (that in_message (hashes_of pit.accepted_txs)
          ++ (that
                (λ hash.
                  in_message hash
                  || leb (stored.pool_data.history.batch_number hash) new_batch_number)
                (hashes_of pit.accepted_mined_credits)
              ++ that in_message pit.accepted_relay_msgs))

  unfoldable pub mark_each : List ℕ → CreditPit → CreditPit
  unfolding mark_as_encoded
  mark_each [] pit = pit
  mark_each (hash ∷ hashes) pit = mark_each hashes (mark_as_encoded hash pit)

  -- CreditPit::AddBatchToTip, of the hashes and the batch number of a message. MarkAsEncoded is called
  -- for each hash as it is found; nothing between the calls reads encoded_in_chain.
  unfoldable pub add_batch_to_tip : List ℕ → ℕ → CreditPit → CreditPit
  add_batch_to_tip full_hashes new_batch_number pit =
      let deleted = hashes_to_delete full_hashes new_batch_number pit in
      let remaining =
        that (λ hash. not (vector_contains_entry full_hashes hash)) pit.accepted_relay_msgs in
      handle_relay_messages remaining
        (reset_batch (remove_from_accepted deleted (mark_each deleted pit)))

  -- CreditPit::SwitchToNewChain without the messages to the peer: `none` is only for fuel.
  unfoldable pub switch_to_new_chain : ℕ → ℕ → CreditPit → Option (Bool × CreditPit)
  switch_to_new_chain fuel credit_hash pit =
      elim (change_chain stored.pool_data fuel stored.tip credit_hash pit.pool) [
        | none ↦ none
        | some (switched, pool, dropped_txs) ↦ some (switched, record pit { pool = pool })
      ]

  unfoldable pub handle_transactions : List ℕ → CreditPit → Option CreditPit
  handle_transactions [] pit = some pit
  handle_transactions (hash ∷ hashes) pit =
      elim (handle_transaction (stored.pool_data.stored_tx hash) pit) [
        | none ↦ none
        | some pit' ↦ handle_transactions hashes pit'
      ]

  unfoldable pub handle_nuggets : List ℕ → CreditPit → CreditPit
  unfolding handle_nugget
  handle_nuggets [] pit = pit
  handle_nuggets (hash ∷ hashes) pit =
      handle_nuggets hashes (handle_nugget (stored.nugget hash) pit)

  -- CreditPit::AddAccepted. The loops insert into the sets that they run over only what these hold, as
  -- the transaction and the mined credit stored under a hash have this hash.
  unfoldable pub add_accepted : CreditPit → Option CreditPit
  add_accepted pit = elim (handle_transactions (hashes_of pit.accepted_txs) pit) [
    | none ↦ none
    | some pit' ↦
        let pit'' = handle_nuggets (hashes_of pit'.accepted_mined_credits) pit' in
        some (handle_relay_messages pit''.accepted_relay_msgs pit'')
  ]

  -- CreditPit::StopMining, less digging and hashrate
  unfoldable pub stop_mining : CreditPit → CreditPit
  unfolding reset_batch
  stop_mining pit = record (reset_batch pit) {
    accepted_txs = [];
    accepted_mined_credits = [];
    accepted_relay_msgs = [];
  }
