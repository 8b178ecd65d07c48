-- ===== src/CreditPit/Tip.antt =====
-- What CreditPit::AddBatchToTip leaves accepted.
use flex.Common.{ℕ, ◌≡◌, ap, ◌∙◌, Bool, false, not, ◌&&◌, ◌||◌, List, [], arith, leb, nat_eq}
use flex.StdMap.{lookup, count}
use flex.VectorTools.Laws.{Distinct}
use flex.CreditPit.{
  PitData, CreditPit, reset_batch, remove_from_accepted, handle_relay_messages, that, hashes_of,
  hashes_to_delete, add_batch_to_tip,
}
use flex.CreditPit.Loops.{
  holds, holds_four, holds-that, holds-hashes_of, txs-removed, credits-removed, relay_msgs-removed,
  encoded-removed, insert_each, count-insert_each, mark_each_lem, push_each, holds-push_each,
  handle_relay_messages_lem,
}

module _ (stored : PitData) where
  -- The hashes that AddBatchToTip takes out of the accepted ones and marks as encoded.
  abbrev pub is_deleted : List ℕ → ℕ → CreditPit → ℕ → Bool
  is_deleted full_hashes number pit h =
      (holds full_hashes h
        && (stored.has_tx h
            || (count h pit.accepted_txs
                || (count h pit.accepted_mined_credits || holds pit.accepted_relay_msgs h))))
      || (count h pit.accepted_mined_credits
          && leb (stored.pool_data.history.batch_number h) number)

  holds-deleted :
      (full_hashes : List ℕ) (number : ℕ) (pit : CreditPit) (h : ℕ)
      → holds (hashes_to_delete stored full_hashes number pit) h
        ≡ is_deleted full_hashes number pit h
  unfolding hashes_to_delete
  holds-deleted full_hashes number pit h =
      let in_message = λ (x : ℕ). holds full_hashes x in
      let old =
        λ (x : ℕ). holds full_hashes x || leb (stored.pool_data.history.batch_number x) number in
      holds_four (that stored stored.has_tx full_hashes)
        (that stored in_message (hashes_of stored pit.accepted_txs))
        (that stored old (hashes_of stored pit.accepted_mined_credits))
        (that stored in_message pit.accepted_relay_msgs) h
      ∙ ground (
        arith,
        holds-that stored stored.has_tx full_hashes h,
        holds-that stored in_message (hashes_of stored pit.accepted_txs) h,
        holds-hashes_of stored pit.accepted_txs h,
        holds-that stored old (hashes_of stored pit.accepted_mined_credits) h,
        holds-hashes_of stored pit.accepted_mined_credits h,
        holds-that stored in_message pit.accepted_relay_msgs h,
      )

  module _ (full_hashes : List ℕ) (number : ℕ) (pit : CreditPit) where
    deleted : List ℕ
    deleted = hashes_to_delete stored full_hashes number pit

    remaining : List ℕ
    remaining = that stored (λ hash. not (holds full_hashes hash)) pit.accepted_relay_msgs

    -- The pit after the three steps that are not about the relay messages.
    abbrev marked : CreditPit
    marked = record pit { encoded_in_chain = insert_each stored deleted pit.encoded_in_chain }

    abbrev taken_out : CreditPit
    taken_out = remove_from_accepted stored deleted marked

    add_batch_to_tip_lem :
        add_batch_to_tip stored full_hashes number pit ≡ record (reset_batch stored taken_out) {
          accepted_relay_msgs = push_each stored remaining taken_out.accepted_relay_msgs;
        }
    unfolding add_batch_to_tip reset_batch deleted remaining
    add_batch_to_tip_lem =
        ap
          (λ p.
            handle_relay_messages stored remaining
              (reset_batch stored (remove_from_accepted stored deleted p)))
          (mark_each_lem stored deleted pit)
        ∙ handle_relay_messages_lem stored remaining (reset_batch stored taken_out)

  -- AddBatchToTip of the hashes of a message and its batch number, where no relay message is accepted
  -- twice. A transaction stays accepted exactly if the message does not contain it (nor is it an accepted
  -- mined credit of a batch up to the new one), a mined credit if the message does not contain it and it
  -- has a greater batch number, a relay message if the message does not contain it. What was encoded in
  -- the chain stays so, and what is encoded in addition is what the message contains and is either known
  -- as a transaction or was accepted, and the accepted mined credits up to the new batch number. The
  -- current batch is empty.
  pub add_batch_to_tip-accepted :
      (full_hashes : List ℕ) (number : ℕ) (pit : CreditPit) (h : ℕ)
      → Distinct pit.accepted_relay_msgs
      → (count h (add_batch_to_tip stored full_hashes number pit).accepted_txs ≡ (
          count h pit.accepted_txs
          && (not (holds full_hashes h)
              && not (
                  count h pit.accepted_mined_credits
                  && leb (stored.pool_data.history.batch_number h) number))))
        × (count h (add_batch_to_tip stored full_hashes number pit).accepted_mined_credits ≡ (
            count h pit.accepted_mined_credits
            && not (holds full_hashes h || leb (stored.pool_data.history.batch_number h) number)))
        × (holds (add_batch_to_tip stored full_hashes number pit).accepted_relay_msgs h
            ≡ (holds pit.accepted_relay_msgs h && not (holds full_hashes h)))
        × (count h (add_batch_to_tip stored full_hashes number pit).encoded_in_chain
            ≡ (is_deleted full_hashes number pit h || count h pit.encoded_in_chain))
        × (count h (add_batch_to_tip stored full_hashes number pit).in_current_batch ≡ false)
  unfolding reset_batch deleted remaining lookup
  add_batch_to_tip-accepted full_hashes number pit h d =
      let gone = deleted full_hashes number pit in
      let after = marked full_hashes number pit in
      let e = add_batch_to_tip_lem full_hashes number pit in
      let in_deleted = holds-deleted full_hashes number pit h in
      (
        ap (λ (p : CreditPit). count h p.accepted_txs) e
            ∙ ground (arith, txs-removed stored gone after h, in_deleted),
        ap (λ (p : CreditPit). count h p.accepted_mined_credits) e
            ∙ ground (arith, credits-removed stored gone after h, in_deleted),
        ap (λ (p : CreditPit). holds p.accepted_relay_msgs h) e
            ∙ holds-push_each stored (remaining full_hashes number pit)
                (taken_out full_hashes number pit).accepted_relay_msgs h
            ∙ ground (
              arith,
              relay_msgs-removed stored gone after h d,
              holds-that stored (λ hash. not (holds full_hashes hash)) pit.accepted_relay_msgs h,
              in_deleted,
            ),
        ap (λ (p : CreditPit). count h p.encoded_in_chain) e
            ∙ ap (λ s. count h s) (encoded-removed stored gone after)
            ∙ ground (arith, count-insert_each stored gone pit.encoded_in_chain h, in_deleted),
        ap (λ (p : CreditPit). count h p.in_current_batch) e,
      )

  pub add_batch_to_tip_empty :
      (full_hashes : List ℕ) (number : ℕ) (pit : CreditPit)
      → (add_batch_to_tip stored full_hashes number pit).in_current_batch ≡ []
  unfolding reset_batch
  add_batch_to_tip_empty full_hashes number pit =
      ap (λ (p : CreditPit). p.in_current_batch) (add_batch_to_tip_lem full_hashes number pit)
