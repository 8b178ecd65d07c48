-- ===== src/Credits/Transaction/Hashed.antt =====
-- A transaction that is built by its methods remembers no stale hash.
use flex.Common.{ℕ, ◌≡◌, refl, inl, inr, true, List, Bool-cases, arith}
use flex.VectorTools.{vector_contains_entry}
use flex.VectorTools.Laws.{Distinct, append-Distinct}
use flex.RelayState.Platform.{Point}
use flex.Credits.{Credit, CreditInBatch, credit_eq}
use flex.Credits.Transaction.{UnsignedTransaction, new_transaction, add_input, add_output, get_hash}

-- The transactions that the methods reach from a new one.
pub data Reached (hash_of : List CreditInBatch → List Credit → List Point → ℕ)
    : UnsignedTransaction → Type 0 where
  start : Reached hash_of new_transaction
  input :
      (credit : CreditInBatch) (tx : UnsignedTransaction)
      → Reached hash_of tx
      → Reached hash_of (add_input credit tx)
  output :
      (credit : Credit) (tx : UnsignedTransaction)
      → Reached hash_of tx
      → Reached hash_of (add_output credit tx).1
  hashed : (tx : UnsignedTransaction) → Reached hash_of tx → Reached hash_of (get_hash hash_of tx).1

module _ (hash_of : List CreditInBatch → List Credit → List Point → ℕ) where
  -- A hash that is up to date is the hash of the transaction, and no output stands twice.
  abbrev IsCurrent : UnsignedTransaction → Type 0
  IsCurrent tx =
      (tx.up_to_date ≡ true → tx.hash ≡ hash_of tx.inputs tx.outputs tx.pubkeys)
      × Distinct tx.outputs

  input-IsCurrent :
      (credit : CreditInBatch) (tx : UnsignedTransaction)
      → IsCurrent tx
      → IsCurrent (add_input credit tx)
  unfolding add_input
  input-IsCurrent credit tx v = (λ e. absurd (ground (arith, e)), v.1)

  output-IsCurrent :
      (credit : Credit) (tx : UnsignedTransaction)
      → IsCurrent tx
      → IsCurrent (add_output credit tx).1
  unfolding add_output
  output-IsCurrent credit tx v = elim (Bool-cases (vector_contains_entry tx.outputs credit)) [
    | inl there ↦ rw there v
    | inr new ↦ rw new (λ e. absurd (ground (arith, e)), append-Distinct tx.outputs credit v.1 new)
  ]

  hashed-IsCurrent : (tx : UnsignedTransaction) → IsCurrent tx → IsCurrent (get_hash hash_of tx).1
  unfolding get_hash
  hashed-IsCurrent tx v = elim (Bool-cases tx.up_to_date) [
    | inl done ↦ rw done (λ e. v.0 done, v.1)
    | inr stale ↦ rw stale (λ e. refl, v.1)
  ]

  Reached-IsCurrent : (tx : UnsignedTransaction) → Reached hash_of tx → IsCurrent tx
  Reached-IsCurrent _ start = (λ e. absurd (ground (arith, e)), tt)
  Reached-IsCurrent _ (input credit tx r) = input-IsCurrent credit tx (Reached-IsCurrent tx r)
  Reached-IsCurrent _ (output credit tx r) = output-IsCurrent credit tx (Reached-IsCurrent tx r)
  Reached-IsCurrent _ (hashed tx r) = hashed-IsCurrent tx (Reached-IsCurrent tx r)

  -- Of every transaction that AddInput, AddOutput and GetHash reach from a new one, GetHash returns the
  -- hash of the inputs, outputs and keys that the transaction has, and no output stands twice.
  pub get_hash-Reached :
      (tx : UnsignedTransaction)
      → Reached hash_of tx
      → ((get_hash hash_of tx).0 ≡ hash_of tx.inputs tx.outputs tx.pubkeys) × Distinct tx.outputs
  get_hash-Reached tx r =
      let v = Reached-IsCurrent tx r in
      elim (Bool-cases tx.up_to_date) [
        | inl done ↦ (unfold get_hash in rw done (v.0 done), v.1)
        | inr stale ↦ (unfold get_hash in rw stale refl, v.1)
      ]
