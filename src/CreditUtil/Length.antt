-- ===== src/CreditUtil/Length.antt =====
-- Where the spent chain of a credit ends.
use flex.Common.{
  ℕ, ◌+◌, ◌%◌, ◌^◌, ◌≡◌, refl, ap, ◌∙◌, sym, Option, none, some, List, [], ◌∷◌, ◌++◌, arith, length,
  length-append, Bool-cases, Option-cases, inl, inr,
}
use flex.StdMap.{Set}
use flex.VectorTools.{vector_contains_entry}
use flex.RelayState.Platform.{Point}
use flex.HashTrees.Ordered.{add_element_data}
use flex.Credits.{Credit, credit_bytes, bytes_eq}
use flex.Credits.Batch.{CreditBatch, new_batch, add, add_all}
use flex.CreditUtil.Calends.{is_calend}
use flex.CreditUtil.Batches.{
  BatchData, get_credits_from_hashes, fees_after, reconstruct_batch, spent_chain_length,
}

-- The position behind the last credit of a batch, as a number of 64 bits.
abbrev pub end_of : CreditBatch → ℕ
end_of batch = (batch.tree.offset + length batch.credits) % 2 ^ 64

abbrev pub end_of_each : Option (CreditBatch × Set) → Option (ℕ × Set)
end_of_each none = none
end_of_each (some (batch, flags)) = some (end_of batch, flags)

module _ (key_bytes : Point → List ℕ) where
  added-length :
      (credit : Credit) (b : CreditBatch)
      → (length (add key_bytes credit b).1.credits ≡ length b.credits + 1)
        × ((add key_bytes credit b).1.tree.offset ≡ b.tree.offset)
  unfolding add add_element_data
  added-length credit b =
      elim (Bool-cases
        (vector_contains_entry b.serialized_credits (credit_bytes key_bytes credit))) [
          | inl known ↦ rw known (length-append b.credits (credit ∷ []) ∙ omega arith, refl)
          | inr new ↦ rw new (length-append b.credits (credit ∷ []) ∙ omega arith, refl)
        ]

  all_added-length :
      (credits : List Credit) (b : CreditBatch)
      → (length (add_all key_bytes credits b).credits ≡ length b.credits + length credits)
        × ((add_all key_bytes credits b).tree.offset ≡ b.tree.offset)
  unfolding add_all
  all_added-length [] b = (omega arith, refl)
  all_added-length (credit ∷ credits) b =
      let one = added-length credit b in
      let rest = all_added-length credits (add key_bytes credit b).1 in
      (rest.0 ∙ omega (arith, one.0), rest.1 ∙ one.1)

-- SpentChainLength of a credit is the offset of the batch that ReconstructBatch makes of its message with
-- the number of the credits of that batch, as a number of 64 bits, and where one of them throws, so does
-- the other. Both leave the same marks of calends.
pub spent_chain_length-reconstruct_batch :
    (stored : BatchData) (hash : ℕ) (flags : Set)
    → spent_chain_length stored hash flags ≡ end_of_each (reconstruct_batch stored hash flags)
unfolding spent_chain_length reconstruct_batch
spent_chain_length-reconstruct_batch stored hash flags =
    let previous = stored.msg_previous hash in
    let asked = is_calend stored.calends previous flags in
    let credits = get_credits_from_hashes stored (stored.msg_hashes hash) in
    elim (Option-cases (fees_after stored asked.0 previous)) [
      | inl throws ↦
          let this : spent_chain_length stored hash flags ≡ none =
            rw (throws, spent_chain_length) refl in
          let that : reconstruct_batch stored hash flags ≡ none =
            rw (throws, reconstruct_batch) refl in
          this ∙ sym (ap end_of_each that)
      | inr (fees, owed) ↦
          let start = new_batch previous (stored.msg_offset hash) in
          let batch = add_all stored.key_bytes (credits ++ fees) start in
          let total = ((stored.msg_offset hash + length credits) % 2 ^ 64 + length fees) % 2 ^ 64 in
          let this : spent_chain_length stored hash flags ≡ some (total, asked.1) =
            rw (owed, spent_chain_length) refl in
          let that : reconstruct_batch stored hash flags ≡ some (batch, asked.1) =
            rw (owed, reconstruct_batch) refl in
          let all = all_added-length stored.key_bytes (credits ++ fees) start in
          let same : total ≡ end_of batch =
            ground (arith, all.0, all.1, length-append credits fees) in
          this ∙ ap (λ n. some (n, asked.1)) same ∙ sym (ap end_of_each that)
    ]
