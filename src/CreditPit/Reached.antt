-- ===== src/CreditPit/Reached.antt =====
-- The pits that a node reaches.
use flex.Common.{ℕ, ◌≡◌, refl, false, not, ◌&&◌, ◌||◌, some, List, [], arith}
use flex.StdMap.{count, lookup}
use flex.StdMap.Laws.{lookup-erase}
use flex.Credits.Batch.{new_batch}
use flex.CreditUtil.Transactions.{SignedTransaction}
use flex.MemPool.Reached.{empty_pool}
use flex.CreditPit.{
  PitData, Nugget, CreditPit, reset_batch, mark_as_unencoded, handle_nugget, handle_transaction,
  handle_relay_message, add_batch_to_tip, is_already_encoded, add_accepted, stop_mining,
}
use flex.CreditPit.Loops.{handle_relay_message_lem}
use flex.CreditPit.Tip.{add_batch_to_tip_empty}
use flex.CreditPit.Fresh.{
  IsFresh, empty-IsFresh, handle_nugget-IsFresh, handle_transaction-IsFresh, add_accepted-IsFresh,
}

-- The pit of a node that has started.
abbrev pub empty_pit : CreditPit
empty_pit = record {
  pool = empty_pool;
  batch = new_batch 0 0;
  accepted_txs = [];
  accepted_mined_credits = [];
  accepted_relay_msgs = [];
  encoded_in_chain = [];
  in_current_batch = [];
  mined_credit_contents = [];
}

-- The calls that change a pit, each with the stored data and the tip of its time, and with the outcome of
-- those that return.
pub data PitStep : CreditPit → CreditPit → Type 0 where
  nugget :
      (stored : PitData) (pit : CreditPit) (n : Nugget) → PitStep pit (handle_nugget stored n pit)
  transaction :
      {pit pit' : CreditPit} (stored : PitData) (tx : SignedTransaction)
      → handle_transaction stored tx pit ≡ some pit'
      → PitStep pit pit'
  relay_message :
      (stored : PitData) (pit : CreditPit) (hash : ℕ)
      → PitStep pit (handle_relay_message stored hash pit)
  batch :
      (stored : PitData) (pit : CreditPit) (full_hashes : List ℕ) (number : ℕ)
      → PitStep pit (add_batch_to_tip stored full_hashes number pit)
  reset : (stored : PitData) (pit : CreditPit) → PitStep pit (reset_batch stored pit)
  unencode :
      (stored : PitData) (pit : CreditPit) (hash : ℕ)
      → PitStep pit (mark_as_unencoded stored hash pit)
  accept :
      {pit pit' : CreditPit} (stored : PitData)
      → add_accepted stored pit ≡ some pit'
      → PitStep pit pit'
  stop : (stored : PitData) (pit : CreditPit) → PitStep pit (stop_mining stored pit)

pub data PitReached : CreditPit → Type 0 where
  start : PitReached empty_pit
  next : {pit pit' : CreditPit} → PitReached pit → PitStep pit pit' → PitReached pit'

PitStep-IsFresh : (pit pit' : CreditPit) → PitStep pit pit' → IsFresh pit → IsFresh pit'
unfolding mark_as_unencoded reset_batch stop_mining
PitStep-IsFresh pit pit' (nugget stored p n) f = handle_nugget-IsFresh stored n p f
PitStep-IsFresh pit pit' (transaction stored tx e) f =
    handle_transaction-IsFresh stored tx pit pit' e f
PitStep-IsFresh pit pit' (relay_message stored p hash) f =
    rw handle_relay_message_lem (record { new = λ h. f.new h; accepted = λ h. f.accepted h })
PitStep-IsFresh pit pit' (batch stored p full_hashes number) f =
    empty-IsFresh stored (add_batch_to_tip stored full_hashes number p)
      (add_batch_to_tip_empty stored full_hashes number p)
PitStep-IsFresh pit pit' (reset stored p) f = empty-IsFresh stored (reset_batch stored p) refl
PitStep-IsFresh pit pit' (unencode stored p hash) f = record {
  new = λ h. ground (arith, f.new h, lookup-erase h hash p.encoded_in_chain);
  accepted = λ h. f.accepted h;
}
PitStep-IsFresh pit pit' (accept stored e) f = add_accepted-IsFresh stored pit pit' e f
PitStep-IsFresh pit pit' (stop stored p) f = empty-IsFresh stored (stop_mining stored p) refl

PitReached-IsFresh : (pit : CreditPit) → PitReached pit → IsFresh pit
PitReached-IsFresh pit start = record {
  new = λ h. unfold lookup in refl;
  accepted = λ h. unfold lookup in refl;
}
PitReached-IsFresh pit (next {pit = p} r step) = PitStep-IsFresh p pit step (PitReached-IsFresh p r)

-- In a pit that a node reaches from an empty one, where the stored data and the tip may change from call
-- to call, by HandleNugget, HandleTransaction, HandleRelayMessage, AddBatchToTip, ResetBatch, MarkAsUnencoded, AddAccepted and StopMining, none of
-- them reading outside a vector, a hash of the current batch is not encoded in the chain, and is that
-- of an accepted transaction or of an accepted mined credit.
pub PitReached-current_batch :
    (stored : PitData) (pit : CreditPit) (h : ℕ)
    → PitReached pit
    → ((count h pit.in_current_batch && is_already_encoded stored h pit) ≡ false)
      × ((count h pit.in_current_batch
            && not (count h pit.accepted_txs || count h pit.accepted_mined_credits))
          ≡ false)
unfolding is_already_encoded
PitReached-current_batch stored pit h r =
    let f = PitReached-IsFresh pit r in (f.new h, f.accepted h)
