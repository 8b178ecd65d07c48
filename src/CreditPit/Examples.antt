-- ===== src/CreditPit/Examples.antt =====
-- A pit with a transaction, a mined credit and a relay message, and what the theorems say of it.
use flex.Common.{◌≡◌, refl, true, false, not, ◌&&◌, ◌||◌, none, [], ◌∷◌, ◌==◌, if◌then◌else◌, leb}
use flex.StdMap.{count}
use flex.VectorTools.{vector_contains_entry}
use flex.CreditUtil.Transactions.{SignedTransaction}
use flex.CreditPit.{PitData, CreditPit, Nugget, handle_nugget, is_already_encoded, add_batch_to_tip}
use flex.CreditPit.Loops.{holds}
use flex.CreditPit.Tip.{is_deleted, add_batch_to_tip-accepted}
use flex.CreditPit.Reached.{empty_pit, PitStep, PitReached, PitReached-current_batch}

abbrev a_tx : SignedTransaction
a_tx = record {
  rawtx = record { inputs = []; outputs = []; pubkeys = []; up_to_date = true; hash = 10 };
  hash = 10;
}

abbrev a_nugget : Nugget
a_nugget = record { hash = 20; credit = record { amount = 5; public_key = 1 } }

abbrev stored : PitData
stored = record {
  pool_data = record {
    history = record {
      previous = λ n. 0;
      batch_number = λ hash. if hash == 20 then 7 else 3;
      batch_hashes = λ n. [];
      transaction = λ n. none;
      spent_chain_length = λ n. 0;
    };
    stored_tx = λ hash. a_tx;
    credit_hash = λ n. 0;
    in_main_chain = λ n. false;
  };
  has_tx = λ hash. hash == 10;
  nugget = λ hash. a_nugget;
  tip = 1;
  next_offset = 4;
  key_bytes = λ point. point ∷ [];
}

abbrev full_pit : CreditPit
full_pit = record empty_pit {
  accepted_txs = (10, tt) ∷ [];
  accepted_mined_credits = (20, tt) ∷ [];
  accepted_relay_msgs = 30 ∷ [];
}

add_batch_to_tip-accepted_example :
    (count 20 (add_batch_to_tip stored (10 ∷ []) 5 full_pit).accepted_txs ≡ (
      count 20 full_pit.accepted_txs
      && (not (holds (10 ∷ []) 20)
          && not (
              count 20 full_pit.accepted_mined_credits
              && leb (stored.pool_data.history.batch_number 20) 5))))
    × (count 20 (add_batch_to_tip stored (10 ∷ []) 5 full_pit).accepted_mined_credits ≡ (
        count 20 full_pit.accepted_mined_credits
        && not (holds (10 ∷ []) 20 || leb (stored.pool_data.history.batch_number 20) 5)))
    × (holds (add_batch_to_tip stored (10 ∷ []) 5 full_pit).accepted_relay_msgs 20
        ≡ (holds full_pit.accepted_relay_msgs 20 && not (holds (10 ∷ []) 20)))
    × (count 20 (add_batch_to_tip stored (10 ∷ []) 5 full_pit).encoded_in_chain
        ≡ (is_deleted stored (10 ∷ []) 5 full_pit 20 || count 20 full_pit.encoded_in_chain))
    × (count 20 (add_batch_to_tip stored (10 ∷ []) 5 full_pit).in_current_batch ≡ false)
add_batch_to_tip-accepted_example =
    add_batch_to_tip-accepted stored (10 ∷ []) 5 full_pit 20
      (unfold vector_contains_entry in (refl, tt))

nugget-PitReached : PitReached (handle_nugget stored a_nugget empty_pit)
nugget-PitReached = PitReached.next PitReached.start (PitStep.nugget stored empty_pit a_nugget)

PitReached-current_batch_example :
    ((count 20 (handle_nugget stored a_nugget empty_pit).in_current_batch
        && is_already_encoded stored 20 (handle_nugget stored a_nugget empty_pit))
      ≡ false)
    × ((count 20 (handle_nugget stored a_nugget empty_pit).in_current_batch
          && not (
              count 20 (handle_nugget stored a_nugget empty_pit).accepted_txs
              || count 20 (handle_nugget stored a_nugget empty_pit).accepted_mined_credits))
        ≡ false)
PitReached-current_batch_example =
    PitReached-current_batch stored (handle_nugget stored a_nugget empty_pit) 20 nugget-PitReached
