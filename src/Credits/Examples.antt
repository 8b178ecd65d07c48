-- ===== src/Credits/Examples.antt =====
-- A batch of two credits and a transaction, and what the theorems about credits say of them.
use flex.Common.{ℕ, ◌+◌, ◌*◌, ◌≡◌, ◌⊎◌, refl, true, false, List, [], ◌∷◌, arith, nat_eq, map}
use flex.VectorTools.{vector_contains_entry}
use flex.VectorTools.Laws.{Distinct}
use flex.RelayState.Platform.{Point}
use flex.HashTrees.{bytes_of}
use flex.HashTrees.Ordered.Placed.{hashes_of}
use flex.HashTrees.Ordered.{add_element_data, verify_branch_from_ordered_hash_tree}
use flex.Credits.{Credit, CreditInBatch, credit_eq, bytes_eq, credit_bytes}
use flex.Credits.Batch.{CreditBatch, new_batch, add, get_credit_in_batch, batch_root}
use flex.Credits.Batch.Accepted.{element_for, get_credit_in_batch-verify}
use flex.Credits.Batch.Copy.{IsBatch, with_credit, add-IsBatch}
use flex.Credits.Transaction.{UnsignedTransaction, new_transaction, add_output, get_hash}
use flex.Credits.Transaction.Hashed.{start, output, hashed, get_hash-Reached}

abbrev pub one_byte : Point → List ℕ
one_byte key = key ∷ []

abbrev pub sum_of : List ℕ → ℕ
sum_of [] = 7
sum_of (byte ∷ bytes) = byte + 3 * sum_of bytes

abbrev five : Credit
five = record { amount = 5; public_key = 2 }

abbrev pub six : Credit
six = record { amount = 6; public_key = 2 }

abbrev pub two_credits : CreditBatch
two_credits = with_credit one_byte six (with_credit one_byte five (new_batch 44 0))

pub two_credits-IsBatch : IsBatch one_byte two_credits
unfolding add_element_data vector_contains_entry credit_bytes bytes_of
two_credits-IsBatch = record {
  new_credits = (refl, (refl, tt));
  serialized = refl;
  elements = refl;
}

add-IsBatch_example :
    (((add one_byte six two_credits).0 ≡ true)
      × ((add one_byte six two_credits).1.credits ≡ five ∷ six ∷ six ∷ [])
      × IsBatch one_byte (add one_byte six two_credits).1)
    ⊎ (((add one_byte six two_credits).0 ≡ false)
        × ((add one_byte six two_credits).1.credits ≡ five ∷ six ∷ six ∷ [])
        × ((add one_byte six two_credits).1.tree ≡ two_credits.tree)
        × ((add one_byte six two_credits).1.serialized_credits ≡ two_credits.serialized_credits)
        × ¬ IsBatch one_byte (add one_byte six two_credits).1)
add-IsBatch_example = add-IsBatch one_byte six two_credits two_credits-IsBatch

abbrev hash_of : List CreditInBatch → List Credit → List Point → ℕ
hash_of inputs [] pubkeys = 1
hash_of inputs (credit ∷ credits) pubkeys = credit.amount + 3 * hash_of inputs credits pubkeys

abbrev hashed_once : UnsignedTransaction
hashed_once = (get_hash hash_of (add_output five new_transaction).1).1

get_hash-Reached_example :
    ((get_hash hash_of (add_output six hashed_once).1).0
      ≡ hash_of
          (add_output six hashed_once).1.inputs
          (add_output six hashed_once).1.outputs
          (add_output six hashed_once).1.pubkeys)
    × Distinct (add_output six hashed_once).1.outputs
get_hash-Reached_example = get_hash-Reached hash_of (add_output six hashed_once).1 (
    output six hashed_once
      (hashed (add_output five new_transaction).1 (output five new_transaction start)))

pub two_credits-Distinct :
    Distinct (hashes_of sum_of (map (element_for one_byte) two_credits.credits))
unfolding vector_contains_entry credit_bytes bytes_of
two_credits-Distinct = (refl, (refl, tt))

get_credit_in_batch-verify_example :
    verify_branch_from_ordered_hash_tree sum_of
      (get_credit_in_batch one_byte sum_of six two_credits).0.position
      (credit_bytes one_byte six)
      (get_credit_in_batch one_byte sum_of six two_credits).0.branch
      (batch_root one_byte sum_of (get_credit_in_batch one_byte sum_of six two_credits).1).0
    ≡ true
get_credit_in_batch-verify_example =
    get_credit_in_batch-verify one_byte sum_of two_credits 1 six two_credits-IsBatch
      (unfold add_element_data in refl) (unfold add_element_data in refl) two_credits-Distinct
      (unfold add_element_data in omega arith) refl
