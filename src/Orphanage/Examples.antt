-- ===== src/Orphanage/Examples.antt =====
-- A message that waits for a batch and for a hash.
use flex.Common.{
  ◌+◌, ◌%◌, ◌^◌, ◌≡◌, refl, sym, false, ◌&&◌, [], ◌∷◌, arith, ltb, ◌==◌, if◌then◌else◌,
}
use flex.StdMap.{lookup, put, erase}
use flex.Orphanage.{
  Message, OrphanData, Orphanage, entries_at, is_orphan, tx_hash, msg_hash,
  tx_non_orphans_after_batch, nugget_non_orphans_after_batch, nugget_non_orphans_after_hash,
  add_mined_credit_message, add_missing_hashes, batch_is_known, contains_message,
  increment_num_parents, non_orphans, decrement_num_parents_and_check_still_orphan,
}
use flex.Orphanage.Total.{times}
use flex.Orphanage.Counted.{waiting}
use flex.Orphanage.Released.{
  empty_orphanage, OrphanStep, OrphansReached, is_orphan-waiting, non_orphans-released,
}

abbrev stored : OrphanData
stored = record {
  has_mined_credit = λ hash. false;
  has_branch = λ hash. false;
  matches = λ hash. [];
  same_message = λ a b. a.hash == b.hash;
  tree_hash = λ bytes. 0;
}

abbrev a_message : Message
a_message = record { hash = 5; previous_mined_credit_hash = 7; short_hashes = 9 ∷ [] }

abbrev with_message : Orphanage
with_message = record {
  txorphandb = [];
  nuggetorphandb = (7, a_message ∷ []) ∷ [];
  short_nuggetorphandb = (9, a_message ∷ []) ∷ [];
  missing_parent_counts = (5, 2) ∷ [];
}

added_message : (add_mined_credit_message stored a_message empty_orphanage).1 ≡ with_message
unfolding add_mined_credit_message add_missing_hashes batch_is_known contains_message
    increment_num_parents lookup put
added_message = refl

message-OrphansReached : OrphansReached with_message
message-OrphansReached =
    rw (sym added_message) (
      OrphansReached.next OrphansReached.start
        (OrphanStep.message stored a_message empty_orphanage))

is_orphan-waiting_example : is_orphan 5 with_message ≡ ltb 0 (waiting 5 with_message)
is_orphan-waiting_example = is_orphan-waiting with_message 5 message-OrphansReached (omega arith)

after_both :
    (nugget_non_orphans_after_hash 9 (nugget_non_orphans_after_batch 7 with_message).1).0
    ≡ a_message ∷ []
unfolding nugget_non_orphans_after_hash nugget_non_orphans_after_batch non_orphans
    decrement_num_parents_and_check_still_orphan lookup put erase
after_both = refl

non_orphans-released_example :
    ((times tx_hash 5 (tx_non_orphans_after_batch 7 with_message).0 ≡ (
        if ltb 0 (times tx_hash 5 (entries_at 7 with_message.txorphandb))
          && (waiting 5 (tx_non_orphans_after_batch 7 with_message).1 == 0)
        then 1
        else 0))
      × (waiting 5 (tx_non_orphans_after_batch 7 with_message).1
            + times tx_hash 5 (entries_at 7 with_message.txorphandb)
          ≡ waiting 5 with_message))
    × ((times msg_hash 5 (nugget_non_orphans_after_batch 7 with_message).0 ≡ (
          if ltb 0 (times msg_hash 5 (entries_at 7 with_message.nuggetorphandb))
            && (waiting 5 (nugget_non_orphans_after_batch 7 with_message).1 == 0)
          then 1
          else 0))
        × (waiting 5 (nugget_non_orphans_after_batch 7 with_message).1
              + times msg_hash 5 (entries_at 7 with_message.nuggetorphandb)
            ≡ waiting 5 with_message))
    × ((times msg_hash 5 (nugget_non_orphans_after_hash 7 with_message).0 ≡ (
          if ltb 0 (times msg_hash 5 (entries_at (7 % 2 ^ 32) with_message.short_nuggetorphandb))
            && (waiting 5 (nugget_non_orphans_after_hash 7 with_message).1 == 0)
          then 1
          else 0))
        × (waiting 5 (nugget_non_orphans_after_hash 7 with_message).1
              + times msg_hash 5 (entries_at (7 % 2 ^ 32) with_message.short_nuggetorphandb)
            ≡ waiting 5 with_message))
non_orphans-released_example =
    non_orphans-released with_message 7 5 message-OrphansReached (omega arith)
