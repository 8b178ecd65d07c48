-- ===== src/CreditUtil/Batches.antt =====
-- GetFeesOwed, ReconstructBatch and SpentChainLength of src/credits/creditutil.cpp.
use flex.Common.{
  ℕ, ◌+◌, ◌%◌, ◌^◌, Bool, true, false, not, ◌&&◌, ◌||◌, Option, none, some, List, [], ◌∷◌, ◌++◌,
  ltb, ◌==◌, if◌then◌else◌, length,
}
use flex.StdMap.{Map, Set, count}
use flex.RelayState.Platform.{Point}
use flex.RelayState.{RelayState, get_join_hash}
use flex.Credits.{Credit}
use flex.Credits.Batch.{CreditBatch, new_batch, add_all}
use flex.CreditUtil.Calends.{CalendData, is_calend}

-- The stored data of a batch, by hashes: creditdata[hash]["tx"].rawtx.outputs where there is a
-- transaction, the amount and the key of creditdata[hash]["mined_credit"] where there is one; of
-- creditdata[hash]["msg"] the offset, the previous_mined_credit_hash and the full_hashes after
-- RecoverFullHashes; GetRelayState(hash); of msgdata[hash]["join"] the credit_hash and VerificationKey().
-- RELAY_FEE is a macro that the repository does not define, and Point::getvch is OpenSSL's.
pub record BatchData : Type 0 where
  pub calends : CalendData
  pub tx_outputs : ℕ → Option (List Credit)
  pub mined_credit : ℕ → Option Credit
  pub msg_offset : ℕ → ℕ
  pub msg_previous : ℕ → ℕ
  pub msg_hashes : ℕ → List ℕ
  pub relay_state : ℕ → RelayState
  pub join_credit_hash : ℕ → ℕ
  pub join_key : ℕ → Point
  pub relay_fee : ℕ
  pub key_bytes : Point → List ℕ

-- operator< of vectors of bytes
unfoldable pub less_bytes : List ℕ → List ℕ → Bool
less_bytes [] [] = false
less_bytes [] (y ∷ ys) = true
less_bytes (x ∷ xs) [] = false
less_bytes (x ∷ xs) (y ∷ ys) = ltb x y || (x == y && less_bytes xs ys)

module _ (stored : BatchData) where
  -- Credit::operator<
  unfoldable pub less_credit : Credit → Credit → Bool
  unfolding less_bytes
  less_credit a b =
      ltb a.amount b.amount
      || (a.amount == b.amount
          && less_bytes (stored.key_bytes a.public_key) (stored.key_bytes b.public_key))

  -- std::sort of credits
  unfoldable pub insert_credit : Credit → List Credit → List Credit
  insert_credit credit [] = credit ∷ []
  insert_credit credit (x ∷ credits) =
      let rest = insert_credit credit credits in
      if less_credit x credit then x ∷ rest else credit ∷ x ∷ credits

  unfoldable pub sort_credits : List Credit → List Credit
  sort_credits [] = []
  sort_credits (credit ∷ credits) = insert_credit credit (sort_credits credits)

  -- The loop of GetFeesOwed over the relays: `none` for a MissingDataException.
  unfoldable pub fees_among : RelayState → Map ℕ → Option (List Credit)
  unfolding get_join_hash
  fees_among state [] = some []
  fees_among state ((relay, number) ∷ relays) =
      let join = get_join_hash relay state in
      let fee : Credit = record { amount = stored.relay_fee; public_key = stored.join_key join } in
      let rest = fees_among state relays in
      if not (count relay state.disqualifications) && not (count relay state.actual_successions)
      then elim (stored.mined_credit (stored.join_credit_hash join)) [
        | none ↦ none
        | some credit ↦ elim rest [ none ↦ none | some fees ↦ some (fee ∷ fees) ]
      ]
      else rest

  -- GetFeesOwed
  unfoldable pub get_fees_owed : RelayState → Option (List Credit)
  get_fees_owed state = elim (fees_among state state.relays) [
    | none ↦ none
    | some fees ↦ some (sort_credits fees)
  ]

  -- GetCreditsFromHashes
  unfoldable pub get_credits_from_hashes : List ℕ → List Credit
  get_credits_from_hashes [] = []
  get_credits_from_hashes (hash ∷ hashes) = elim (stored.tx_outputs hash) [
    | some outputs ↦ outputs ++ get_credits_from_hashes hashes
    | none ↦ elim (stored.mined_credit hash) [
      | some credit ↦ credit ∷ get_credits_from_hashes hashes
      | none ↦ get_credits_from_hashes hashes
    ]
  ]

  -- The fees that follow a calend, of which IsCalend has been asked.
  unfoldable pub fees_after : Bool → ℕ → Option (List Credit)
  fees_after after_calend prev_hash =
      if after_calend then get_fees_owed (stored.relay_state prev_hash) else some []

  -- ReconstructBatch(creditdata[credit_hash]["msg"])
  unfoldable pub reconstruct_batch : ℕ → Set → Option (CreditBatch × Set)
  reconstruct_batch credit_hash flags =
      let prev_hash = stored.msg_previous credit_hash in
      let credits = get_credits_from_hashes (stored.msg_hashes credit_hash) in
      let asked = is_calend stored.calends prev_hash flags in
      elim (fees_after asked.0 prev_hash) [
        | none ↦ none
        | some fees ↦ some (
          add_all stored.key_bytes (credits ++ fees)
              (new_batch prev_hash (stored.msg_offset credit_hash)),
          asked.1,
        )
      ]

  -- SpentChainLength
  unfoldable pub spent_chain_length : ℕ → Set → Option (ℕ × Set)
  spent_chain_length mined_credit_hash flags =
      let credits = get_credits_from_hashes (stored.msg_hashes mined_credit_hash) in
      let length_of_chain = (stored.msg_offset mined_credit_hash + length credits) % 2 ^ 64 in
      let previous_hash = stored.msg_previous mined_credit_hash in
      let asked = is_calend stored.calends previous_hash flags in
      elim (fees_after asked.0 previous_hash) [
        | none ↦ none
        | some fees ↦ some ((length_of_chain + length fees) % 2 ^ 64, asked.1)
      ]
