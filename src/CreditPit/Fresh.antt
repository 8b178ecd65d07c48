-- ===== src/CreditPit/Fresh.antt =====
-- What the current batch holds is accepted, and is not in the chain yet.
use flex.Common.{
  ℕ, ◌≡◌, refl, ap, ◌∙◌, sym, false, not, ◌&&◌, ◌||◌, none, some, List, [], ◌∷◌, arith, ◌==◌,
  if◌then◌else◌, Bool-cases, Option-cases, inl, inr,
}
use mathlib.Core.Option.{some-injective, none-ne-some}
use flex.StdMap.{lookup, count}
use flex.StdMap.Laws.{lookup-put}
use flex.Credits.Batch.{add_credits}
use flex.MemPool.{add_transaction, is_double_spend}
use flex.CreditUtil.Transactions.{SignedTransaction}
use flex.CreditPit.{
  PitData, Nugget, CreditPit, handle_nugget, handle_nuggets, handle_transaction,
  handle_transactions, add_transaction_to_current_batch, handle_relay_messages, add_accepted,
  hashes_of,
}
use flex.CreditPit.Loops.{handle_relay_messages_lem}

-- A hash of the current batch is not encoded in the chain, and is accepted.
pub record IsFresh (pit : CreditPit) : Type 0 where
  pub new : (h : ℕ) → (count h pit.in_current_batch && count h pit.encoded_in_chain) ≡ false
  pub accepted :
      (h : ℕ)
      → (count h pit.in_current_batch
          && not (count h pit.accepted_txs || count h pit.accepted_mined_credits))
        ≡ false

module _ (stored : PitData) where
  -- A pit with an empty batch is fresh.
  pub empty-IsFresh : (pit : CreditPit) → pit.in_current_batch ≡ [] → IsFresh pit
  unfolding lookup
  empty-IsFresh pit e = record {
    new = λ h. ap (λ s. count h s && count h pit.encoded_in_chain) e;
    accepted = λ h.
        ap (λ s. count h s && not (count h pit.accepted_txs || count h pit.accepted_mined_credits))
          e;
  }

  pub handle_nugget-IsFresh :
      (n : Nugget) (pit : CreditPit) → IsFresh pit → IsFresh (handle_nugget stored n pit)
  unfolding handle_nugget
  handle_nugget-IsFresh n pit f = elim (Bool-cases (count n.hash pit.in_current_batch)) [
    | inl held ↦ rw held f
    | inr fresh ↦ elim (Bool-cases (count n.hash pit.encoded_in_chain)) [
      | inl encoded ↦ rw (fresh, encoded) f
      | inr new ↦
          rw (fresh, new)
            (record {
              new = λ h. elim (Bool-cases (h == n.hash)) [
                | inl e ↦ let same : h ≡ n.hash = ground (arith, e) in rw same (ground (arith, new))
                | inr ne ↦ ground (arith, ne, f.new h, lookup-put h n.hash tt pit.in_current_batch)
              ];
              accepted = λ h. ground (
                arith,
                f.accepted h,
                lookup-put h n.hash tt pit.in_current_batch,
                lookup-put h n.hash tt pit.accepted_mined_credits,
              );
            })
    ]
  ]

  added-IsFresh :
      (tx : SignedTransaction) (pit : CreditPit)
      → count tx.hash pit.encoded_in_chain ≡ false
      → IsFresh pit
      → IsFresh (add_transaction_to_current_batch stored tx pit)
  unfolding add_transaction_to_current_batch
  added-IsFresh tx pit new f =
      elim (Bool-cases (add_credits stored.key_bytes tx.rawtx.outputs pit.batch).0) [
        | inr conflicting ↦ rw conflicting (record {
          new = λ h. f.new h;
          accepted = λ h. ground (arith, f.accepted h, lookup-put h tx.hash tt pit.accepted_txs);
        })
        | inl taken ↦ rw taken (record {
          new = λ h. elim (Bool-cases (h == tx.hash)) [
            | inl e ↦ let same : h ≡ tx.hash = ground (arith, e) in rw same (ground (arith, new))
            | inr ne ↦ ground (arith, ne, f.new h, lookup-put h tx.hash tt pit.in_current_batch)
          ];
          accepted = λ h. ground (
            arith,
            f.accepted h,
            lookup-put h tx.hash tt pit.in_current_batch,
            lookup-put h tx.hash tt pit.accepted_txs,
          );
        })
      ]

  pub handle_transaction-IsFresh :
      (tx : SignedTransaction) (pit pit' : CreditPit)
      → handle_transaction stored tx pit ≡ some pit'
      → IsFresh pit
      → IsFresh pit'
  unfolding handle_transaction
  handle_transaction-IsFresh tx pit pit' e f =
      elim (Bool-cases (count tx.hash pit.in_current_batch)) [
        | inl held ↦
            let same : handle_transaction stored tx pit ≡ some pit = rw held refl in
            rw (sym (some-injective pit pit' (sym same ∙ e))) f
        | inr fresh ↦ elim (Bool-cases (count tx.hash pit.encoded_in_chain)) [
          | inl encoded ↦
              let same : handle_transaction stored tx pit ≡ some pit = rw (fresh, encoded) refl in
              rw (sym (some-injective pit pit' (sym same ∙ e))) f
          | inr new ↦ elim (Option-cases (add_transaction stored.pool_data tx pit.pool)) [
            | inl outside ↦
                let fails : handle_transaction stored tx pit ≡ none =
                  rw (fresh, new) (rw (outside, handle_transaction) refl) in
                absurd (none-ne-some pit' (sym fails ∙ e))
            | inr (pool, ok) ↦
                let read = is_double_spend tx.hash pool in
                let with_pool : CreditPit = record pit { pool = read.1 } in
                let result =
                  if read.0
                  then with_pool
                  else add_transaction_to_current_batch stored tx with_pool in
                let same : handle_transaction stored tx pit ≡ some result =
                  rw (fresh, new) (rw (ok, handle_transaction) refl) in
                let kept : IsFresh with_pool = record {
                  new = λ h. f.new h;
                  accepted = λ h. f.accepted h;
                } in
                rw (sym (some-injective result pit' (sym same ∙ e))) (elim (Bool-cases read.0) [
                  | inl double ↦ rw double kept
                  | inr single ↦ rw single (added-IsFresh tx with_pool new kept)
                ])
          ]
        ]
      ]

  handle_transactions-IsFresh :
      (hashes : List ℕ) (pit pit' : CreditPit)
      → handle_transactions stored hashes pit ≡ some pit'
      → IsFresh pit
      → IsFresh pit'
  unfolding handle_transactions
  handle_transactions-IsFresh [] pit pit' e f = rw (sym (some-injective pit pit' e)) f
  handle_transactions-IsFresh (hash ∷ hashes) pit pit' e f =
      elim (Option-cases (handle_transaction stored (stored.pool_data.stored_tx hash) pit)) [
        | inl outside ↦
            let fails : handle_transactions stored (hash ∷ hashes) pit ≡ none =
              rw (outside, handle_transactions) refl in
            absurd (none-ne-some pit' (sym fails ∙ e))
        | inr (next, ok) ↦
            let same : handle_transactions stored (hash ∷ hashes) pit
                ≡ handle_transactions stored hashes next =
              rw (ok, handle_transactions) refl in
            handle_transactions-IsFresh hashes next pit' (sym same ∙ e)
              (handle_transaction-IsFresh (stored.pool_data.stored_tx hash) pit next ok f)
      ]

  handle_nuggets-IsFresh :
      (hashes : List ℕ) (pit : CreditPit) → IsFresh pit → IsFresh (handle_nuggets stored hashes pit)
  unfolding handle_nuggets
  handle_nuggets-IsFresh [] pit f = f
  handle_nuggets-IsFresh (hash ∷ hashes) pit f =
      handle_nuggets-IsFresh hashes (handle_nugget stored (stored.nugget hash) pit)
        (handle_nugget-IsFresh (stored.nugget hash) pit f)

  pub relay_messages-IsFresh :
      (hashes : List ℕ) (pit : CreditPit)
      → IsFresh pit
      → IsFresh (handle_relay_messages stored hashes pit)
  relay_messages-IsFresh hashes pit f =
      rw handle_relay_messages_lem (record { new = λ h. f.new h; accepted = λ h. f.accepted h })

  pub add_accepted-IsFresh :
      (pit pit' : CreditPit) → add_accepted stored pit ≡ some pit' → IsFresh pit → IsFresh pit'
  unfolding add_accepted
  add_accepted-IsFresh pit pit' e f =
      elim (Option-cases (handle_transactions stored (hashes_of stored pit.accepted_txs) pit)) [
        | inl outside ↦
            let fails : add_accepted stored pit ≡ none = rw (outside, add_accepted) refl in
            absurd (none-ne-some pit' (sym fails ∙ e))
        | inr (p, ok) ↦
            let q = handle_nuggets stored (hashes_of stored p.accepted_mined_credits) p in
            let same : add_accepted stored pit
                ≡ some (handle_relay_messages stored q.accepted_relay_msgs q) =
              rw (ok, add_accepted) refl in
            rw (sym (some-injective _ pit' (sym same ∙ e))) (
              relay_messages-IsFresh q.accepted_relay_msgs q (
                handle_nuggets-IsFresh (hashes_of stored p.accepted_mined_credits) p
                  (handle_transactions-IsFresh (hashes_of stored pit.accepted_txs) pit p ok f)))
      ]
