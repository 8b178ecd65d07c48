-- ===== src/Orphanage/Released.antt =====
-- What is returned after a batch or a hash, and the orphanages that a node reaches.
use flex.Common.{
  ℕ, ◌+◌, ◌%◌, ◌^◌, ◌≡◌, ◌<◌, refl, ap, ◌∙◌, sym, ◌&&◌, some, List, [], arith, ltb, ◌==◌,
  if◌then◌else◌,
}
use flex.StdMap.{Map, lookup}
use flex.StdMap.Order.{erase-IsSorted}
use flex.CreditUtil.Transactions.{SignedTransaction}
use flex.Orphanage.{
  Message, OrphanData, Orphanage, entries_at, num_parents, is_orphan, non_orphans, tx_hash,
  msg_hash, tx_non_orphans_after_batch, nugget_non_orphans_after_batch,
  nugget_non_orphans_after_hash, add_mined_credit_message, add_transaction,
}
use flex.Orphanage.Total.{times, total-erase, num_parents-non_orphans, times-non_orphans}
use flex.Orphanage.Counted.{
  waiting, IsCounted, add_mined_credit_message-IsCounted, add_transaction-IsCounted,
}

-- The counts after the entries of a list are no longer waiting.
module _ {ℓ} {A : Type ℓ} (hash_of : A → ℕ) where
  released-counted :
      (h before after : ℕ) (xs : List A) (counts : Map ℕ)
      → num_parents h counts ≡ before % 2 ^ 32
      → after + times hash_of h xs ≡ before
      → num_parents h (non_orphans hash_of xs counts).1 ≡ after % 2 ^ 32
  released-counted h before after xs counts e split =
      num_parents-non_orphans hash_of h after xs counts (e ∙ ap (λ n. n % 2 ^ 32) (sym split))

  released-times :
      (h before after : ℕ) (xs : List A) (counts : Map ℕ)
      → num_parents h counts ≡ before % 2 ^ 32
      → after + times hash_of h xs ≡ before
      → before < 2 ^ 31
      → times hash_of h (non_orphans hash_of xs counts).0
        ≡ (if ltb 0 (times hash_of h xs) && (after == 0) then 1 else 0)
  released-times h before after xs counts e split small =
      times-non_orphans hash_of h before xs counts (e ∙ omega arith) (omega arith) small
      ∙ ground (arith, split)

-- What stays in the database is what was there, less the entries of the batch.
tx_erased :
    (h key : ℕ) (o : Orphanage)
    → IsCounted o
    → waiting h (tx_non_orphans_after_batch key o).1 + times tx_hash h (entries_at key o.txorphandb)
      ≡ waiting h o
unfolding tx_non_orphans_after_batch
tx_erased h key o c = ground (arith, total-erase tx_hash 0 h key o.txorphandb c.txs_sorted)

nugget_erased :
    (h key : ℕ) (o : Orphanage)
    → IsCounted o
    → waiting h (nugget_non_orphans_after_batch key o).1
        + times msg_hash h (entries_at key o.nuggetorphandb)
      ≡ waiting h o
unfolding nugget_non_orphans_after_batch
nugget_erased h key o c =
    ground (arith, total-erase msg_hash 0 h key o.nuggetorphandb c.nuggets_sorted)

short_erased :
    (h hash : ℕ) (o : Orphanage)
    → IsCounted o
    → waiting h (nugget_non_orphans_after_hash hash o).1
        + times msg_hash h (entries_at (hash % 2 ^ 32) o.short_nuggetorphandb)
      ≡ waiting h o
unfolding nugget_non_orphans_after_hash
short_erased h hash o c =
    ground (arith, total-erase msg_hash 0 h (hash % 2 ^ 32) o.short_nuggetorphandb c.short_sorted)

tx_non_orphans-IsCounted :
    (key : ℕ) (o : Orphanage) → IsCounted o → IsCounted (tx_non_orphans_after_batch key o).1
unfolding tx_non_orphans_after_batch
tx_non_orphans-IsCounted key o c = record {
  txs_sorted = erase-IsSorted key o.txorphandb c.txs_sorted;
  nuggets_sorted = c.nuggets_sorted;
  short_sorted = c.short_sorted;
  counted = λ h.
      released-counted tx_hash h (waiting h o) (waiting h (tx_non_orphans_after_batch key o).1)
        (entries_at key o.txorphandb) o.missing_parent_counts (c.counted h) (tx_erased h key o c);
}

nugget_non_orphans-IsCounted :
    (key : ℕ) (o : Orphanage) → IsCounted o → IsCounted (nugget_non_orphans_after_batch key o).1
unfolding nugget_non_orphans_after_batch
nugget_non_orphans-IsCounted key o c = record {
  txs_sorted = c.txs_sorted;
  nuggets_sorted = erase-IsSorted key o.nuggetorphandb c.nuggets_sorted;
  short_sorted = c.short_sorted;
  counted = λ h.
      released-counted msg_hash h (waiting h o) (waiting h (nugget_non_orphans_after_batch key o).1)
        (entries_at key o.nuggetorphandb) o.missing_parent_counts (c.counted h)
        (nugget_erased h key o c);
}

short_non_orphans-IsCounted :
    (hash : ℕ) (o : Orphanage) → IsCounted o → IsCounted (nugget_non_orphans_after_hash hash o).1
unfolding nugget_non_orphans_after_hash
short_non_orphans-IsCounted hash o c = record {
  txs_sorted = c.txs_sorted;
  nuggets_sorted = c.nuggets_sorted;
  short_sorted = erase-IsSorted (hash % 2 ^ 32) o.short_nuggetorphandb c.short_sorted;
  counted = λ h.
      released-counted msg_hash h (waiting h o) (waiting h (nugget_non_orphans_after_hash hash o).1)
        (entries_at (hash % 2 ^ 32) o.short_nuggetorphandb) o.missing_parent_counts (c.counted h)
        (short_erased h hash o c);
}

abbrev pub empty_orphanage : Orphanage
empty_orphanage = record {
  txorphandb = [];
  nuggetorphandb = [];
  short_nuggetorphandb = [];
  missing_parent_counts = [];
}

-- The calls that change an orphanage, each with the stored data of its time.
pub data OrphanStep : Orphanage → Orphanage → Type 0 where
  message :
      (stored : OrphanData) (msg : Message) (o : Orphanage)
      → OrphanStep o (add_mined_credit_message stored msg o).1
  transaction :
      {o o' : Orphanage} (stored : OrphanData) (tx : SignedTransaction)
      → add_transaction stored tx o ≡ some o'
      → OrphanStep o o'
  txs_after_batch : (hash : ℕ) (o : Orphanage) → OrphanStep o (tx_non_orphans_after_batch hash o).1
  nuggets_after_batch :
      (hash : ℕ) (o : Orphanage) → OrphanStep o (nugget_non_orphans_after_batch hash o).1
  nuggets_after_hash :
      (hash : ℕ) (o : Orphanage) → OrphanStep o (nugget_non_orphans_after_hash hash o).1

pub data OrphansReached : Orphanage → Type 0 where
  start : OrphansReached empty_orphanage
  next : {o o' : Orphanage} → OrphansReached o → OrphanStep o o' → OrphansReached o'

OrphanStep-IsCounted : (o o' : Orphanage) → OrphanStep o o' → IsCounted o → IsCounted o'
OrphanStep-IsCounted o o' (message stored msg p) c =
    add_mined_credit_message-IsCounted stored msg p c
OrphanStep-IsCounted o o' (transaction stored tx e) c = add_transaction-IsCounted stored tx o o' e c
OrphanStep-IsCounted o o' (txs_after_batch hash p) c = tx_non_orphans-IsCounted hash p c
OrphanStep-IsCounted o o' (nuggets_after_batch hash p) c = nugget_non_orphans-IsCounted hash p c
OrphanStep-IsCounted o o' (nuggets_after_hash hash p) c = short_non_orphans-IsCounted hash p c

OrphansReached-IsCounted : (o : Orphanage) → OrphansReached o → IsCounted o
unfolding lookup
OrphansReached-IsCounted o start = record {
  txs_sorted = tt;
  nuggets_sorted = tt;
  short_sorted = tt;
  counted = λ h. refl;
}
OrphansReached-IsCounted o (next {o = p} r step) =
    OrphanStep-IsCounted p o step (OrphansReached-IsCounted p r)

-- In an orphanage that is reached from an empty one by its calls, where the stored data may change from
-- call to call and none of them reads outside a vector, IsOrphan holds of a hash exactly if a transaction
-- or a message with this hash waits in one of the databases, as long as fewer than 2^31 of them wait.
pub is_orphan-waiting :
    (o : Orphanage) (h : ℕ)
    → OrphansReached o
    → waiting h o < 2 ^ 31
    → is_orphan h o ≡ ltb 0 (waiting h o)
unfolding is_orphan
is_orphan-waiting o h r small =
    let c = OrphansReached-IsCounted o r in
    let exact : num_parents h o.missing_parent_counts ≡ waiting h o = c.counted h ∙ omega arith in
    rw exact (ground (arith, small))

-- In an orphanage that is reached from an empty one by its calls, where the stored data may change from
-- call to call and none of them reads outside a vector, with fewer than 2^31 waiting entries of a hash,
-- each of the three functions that release orphans returns one transaction (or message) of this hash if one waits under the key that
-- became known and none waits elsewhere afterwards, and otherwise none. Afterwards fewer entries of the
-- hash wait, by those under the key.
pub non_orphans-released :
    (o : Orphanage) (key h : ℕ)
    → OrphansReached o
    → waiting h o < 2 ^ 31
    → ((times tx_hash h (tx_non_orphans_after_batch key o).0 ≡ (
          if ltb 0 (times tx_hash h (entries_at key o.txorphandb))
            && (waiting h (tx_non_orphans_after_batch key o).1 == 0)
          then 1
          else 0))
        × (waiting h (tx_non_orphans_after_batch key o).1
              + times tx_hash h (entries_at key o.txorphandb)
            ≡ waiting h o))
      × ((times msg_hash h (nugget_non_orphans_after_batch key o).0 ≡ (
            if ltb 0 (times msg_hash h (entries_at key o.nuggetorphandb))
              && (waiting h (nugget_non_orphans_after_batch key o).1 == 0)
            then 1
            else 0))
          × (waiting h (nugget_non_orphans_after_batch key o).1
                + times msg_hash h (entries_at key o.nuggetorphandb)
              ≡ waiting h o))
      × ((times msg_hash h (nugget_non_orphans_after_hash key o).0 ≡ (
            if ltb 0 (times msg_hash h (entries_at (key % 2 ^ 32) o.short_nuggetorphandb))
              && (waiting h (nugget_non_orphans_after_hash key o).1 == 0)
            then 1
            else 0))
          × (waiting h (nugget_non_orphans_after_hash key o).1
                + times msg_hash h (entries_at (key % 2 ^ 32) o.short_nuggetorphandb)
              ≡ waiting h o))
unfolding tx_non_orphans_after_batch nugget_non_orphans_after_batch nugget_non_orphans_after_hash
non_orphans-released o key h r small =
    let c = OrphansReached-IsCounted o r in
    let counts = o.missing_parent_counts in
    (
      (
        released-times tx_hash h (waiting h o) (waiting h (tx_non_orphans_after_batch key o).1)
            (entries_at key o.txorphandb) counts (c.counted h) (tx_erased h key o c) small,
        tx_erased h key o c,
      ),
      (
        released-times msg_hash h (waiting h o) (waiting h (nugget_non_orphans_after_batch key o).1)
            (entries_at key o.nuggetorphandb) counts (c.counted h) (nugget_erased h key o c) small,
        nugget_erased h key o c,
      ),
      (
        released-times msg_hash h (waiting h o) (waiting h (nugget_non_orphans_after_hash key o).1)
            (entries_at (key % 2 ^ 32) o.short_nuggetorphandb) counts (c.counted h)
            (short_erased h key o c) small,
        short_erased h key o c,
      ),
    )
