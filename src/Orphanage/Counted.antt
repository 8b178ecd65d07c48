-- ===== src/Orphanage/Counted.antt =====
-- The missing parents of a hash are counted.
use flex.Common.{
  ℕ, ◌+◌, ◌%◌, ◌^◌, ◌≡◌, refl, ap, ◌∙◌, sym, not, ◌&&◌, none, some, List, [], ◌∷◌, ◌++◌, arith,
  ◌==◌, if◌then◌else◌, length, Bool-cases, Option-cases, inl, inr,
}
use mathlib.Core.Option.{some-injective, none-ne-some}
use flex.StdMap.{Set, put, count, insert}
use flex.StdMap.Order.{IsSorted, put-IsSorted}
use flex.Credits.{CreditInBatch}
use flex.CreditUtil.Transactions.{SignedTransaction}
use flex.Orphanage.{
  Message, OrphanData, Orphanage, entries_at, num_parents, increment_num_parents, tx_hash, msg_hash,
  batch_is_known, contains_message, add_missing_hashes, add_mined_credit_message,
  mined_credit_hash_of, add_missing_credits, add_transaction,
}
use flex.Orphanage.Total.{total, total-put, total-append, increment_num_parents_lem}

-- How often transactions and messages with a hash wait.
abbrev pub waiting : ℕ → Orphanage → ℕ
waiting h o =
    total tx_hash h o.txorphandb
    + (total msg_hash h o.nuggetorphandb + total msg_hash h o.short_nuggetorphandb)

pub record IsCounted (o : Orphanage) : Type 0 where
  pub txs_sorted : IsSorted o.txorphandb
  pub nuggets_sorted : IsSorted o.nuggetorphandb
  pub short_sorted : IsSorted o.short_nuggetorphandb
  pub counted : (h : ℕ) → num_parents h o.missing_parent_counts ≡ waiting h o % 2 ^ 32

abbrev tx_added : ℕ → SignedTransaction → Orphanage → Orphanage
tx_added key tx o = record o {
  txorphandb = put key (entries_at key o.txorphandb ++ tx ∷ []) o.txorphandb;
  missing_parent_counts = increment_num_parents tx.hash o.missing_parent_counts;
}

abbrev nugget_added : ℕ → Message → Orphanage → Orphanage
nugget_added key msg o = record o {
  nuggetorphandb = put key (entries_at key o.nuggetorphandb ++ msg ∷ []) o.nuggetorphandb;
  missing_parent_counts = increment_num_parents msg.hash o.missing_parent_counts;
}

abbrev short_added : ℕ → Message → Orphanage → Orphanage
short_added key msg o = record o {
  short_nuggetorphandb =
      put key (entries_at key o.short_nuggetorphandb ++ msg ∷ []) o.short_nuggetorphandb;
  missing_parent_counts = increment_num_parents msg.hash o.missing_parent_counts;
}

tx_added-IsCounted :
    (key : ℕ) (tx : SignedTransaction) (o : Orphanage) → IsCounted o → IsCounted (tx_added key tx o)
tx_added-IsCounted key tx o c = record {
  txs_sorted = put-IsSorted key (entries_at key o.txorphandb ++ tx ∷ []) o.txorphandb c.txs_sorted;
  nuggets_sorted = c.nuggets_sorted;
  short_sorted = c.short_sorted;
  counted = λ h.
      increment_num_parents_lem h tx.hash (waiting h o) o.missing_parent_counts (c.counted h)
      ∙ ap (λ n. n % 2 ^ 32)
          (ground (arith, total-append tx_hash h key tx o.txorphandb c.txs_sorted));
}

nugget_added-IsCounted :
    (key : ℕ) (msg : Message) (o : Orphanage) → IsCounted o → IsCounted (nugget_added key msg o)
nugget_added-IsCounted key msg o c = record {
  txs_sorted = c.txs_sorted;
  nuggets_sorted =
      put-IsSorted key (entries_at key o.nuggetorphandb ++ msg ∷ []) o.nuggetorphandb
        c.nuggets_sorted;
  short_sorted = c.short_sorted;
  counted = λ h.
      increment_num_parents_lem h msg.hash (waiting h o) o.missing_parent_counts (c.counted h)
      ∙ ap (λ n. n % 2 ^ 32)
          (ground (arith, total-append msg_hash h key msg o.nuggetorphandb c.nuggets_sorted));
}

short_added-IsCounted :
    (key : ℕ) (msg : Message) (o : Orphanage) → IsCounted o → IsCounted (short_added key msg o)
short_added-IsCounted key msg o c = record {
  txs_sorted = c.txs_sorted;
  nuggets_sorted = c.nuggets_sorted;
  short_sorted =
      put-IsSorted key (entries_at key o.short_nuggetorphandb ++ msg ∷ []) o.short_nuggetorphandb
        c.short_sorted;
  counted = λ h.
      increment_num_parents_lem h msg.hash (waiting h o) o.missing_parent_counts (c.counted h)
      ∙ ap (λ n. n % 2 ^ 32)
          (ground (arith, total-append msg_hash h key msg o.short_nuggetorphandb c.short_sorted));
}

-- Writing back what was read.
rewritten-IsCounted :
    (key : ℕ) (o : Orphanage)
    → IsCounted o
    → IsCounted (record o {
      short_nuggetorphandb = put key (entries_at key o.short_nuggetorphandb) o.short_nuggetorphandb;
    })
rewritten-IsCounted key o c = record {
  txs_sorted = c.txs_sorted;
  nuggets_sorted = c.nuggets_sorted;
  short_sorted =
      put-IsSorted key (entries_at key o.short_nuggetorphandb) o.short_nuggetorphandb
        c.short_sorted;
  counted = λ h.
      c.counted h
      ∙ ap (λ n. n % 2 ^ 32)
          (ground (
            arith,
            total-put msg_hash 0 h key (entries_at key o.short_nuggetorphandb)
                o.short_nuggetorphandb c.short_sorted,
          ));
}

module _ (stored : OrphanData) where
  missing_hashes-IsCounted :
      (msg : Message) (hashes : List ℕ) (o : Orphanage)
      → IsCounted o
      → IsCounted (add_missing_hashes stored msg hashes o)
  unfolding add_missing_hashes
  missing_hashes-IsCounted msg [] o c = c
  missing_hashes-IsCounted msg (hash ∷ hashes) o c =
      missing_hashes-IsCounted msg hashes _
        (elim (Bool-cases (hash == msg.previous_mined_credit_hash % 2 ^ 32)) [
          | inl previous ↦ rw previous c
          | inr other ↦ elim (Bool-cases (not (length (stored.matches hash) == 0))) [
            | inl known ↦ rw (other, known) c
            | inr missing ↦
                elim (Bool-cases
                  (contains_message stored (entries_at hash o.short_nuggetorphandb) msg)) [
                    | inl there ↦ rw (other, missing, there) (rewritten-IsCounted hash o c)
                    | inr new ↦ rw (other, missing, new) (short_added-IsCounted hash msg o c)
                  ]
          ]
        ])

  pub add_mined_credit_message-IsCounted :
      (msg : Message) (o : Orphanage)
      → IsCounted o
      → IsCounted (add_mined_credit_message stored msg o).1
  unfolding add_mined_credit_message
  add_mined_credit_message-IsCounted msg o c =
      missing_hashes-IsCounted msg msg.short_hashes _
        (elim (Bool-cases (batch_is_known stored msg.previous_mined_credit_hash)) [
          | inl known ↦ rw known c
          | inr missing ↦ rw missing (nugget_added-IsCounted msg.previous_mined_credit_hash msg o c)
        ])

  missing_credits-IsCounted :
      (tx : SignedTransaction) (inputs : List CreditInBatch) (missing : Set) (o o' : Orphanage)
      → add_missing_credits stored tx inputs missing o ≡ some o'
      → IsCounted o
      → IsCounted o'
  unfolding add_missing_credits
  missing_credits-IsCounted tx [] missing o o' e c = rw (sym (some-injective o o' e)) c
  missing_credits-IsCounted tx (credit ∷ inputs) missing o o' e c =
      elim (Option-cases (mined_credit_hash_of stored credit)) [
        | inl outside ↦
            let fails : add_missing_credits stored tx (credit ∷ inputs) missing o ≡ none =
              rw (outside, add_missing_credits) refl in
            absurd (none-ne-some o' (sym fails ∙ e))
        | inr (hash, ok) ↦
            let is_new = not (batch_is_known stored hash) && not (count hash missing) in
            let next = if is_new then tx_added hash tx o else o in
            let noted = if is_new then insert hash missing else missing in
            let same : add_missing_credits stored tx (credit ∷ inputs) missing o
                ≡ add_missing_credits stored tx inputs noted next =
              rw (ok, add_missing_credits) refl in
            missing_credits-IsCounted tx inputs noted next o' (sym same ∙ e)
              (elim (Bool-cases is_new) [
                | inl new ↦ rw new (tx_added-IsCounted hash tx o c)
                | inr old ↦ rw old c
              ])
      ]

  pub add_transaction-IsCounted :
      (tx : SignedTransaction) (o o' : Orphanage)
      → add_transaction stored tx o ≡ some o'
      → IsCounted o
      → IsCounted o'
  unfolding add_transaction
  add_transaction-IsCounted tx o o' e c = missing_credits-IsCounted tx tx.rawtx.inputs [] o o' e c
