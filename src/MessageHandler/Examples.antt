-- ===== src/MessageHandler/Examples.antt =====
-- A message that arrives before the one it depends on.
use flex.Common.{
  ℕ, ◌≡◌, refl, true, false, not, ◌&&◌, some, List, [], ◌∷◌, ◌==◌, if◌then◌else◌, nat_eq,
}
use flex.StdMap.{lookup, put, erase, count, insert}
use flex.VectorTools.{vector_contains_entry}
use flex.MessageHandler.{
  MsgStore, Receiver, set_at, handle_stream, handle, handle_non_orphans, handle_orphans,
  call_handler, mark_handled, is_orphan, any_rejected, register_incoming_message,
  register_as_orphan_if_appropriate, record_new_non_orphans, missing_among, add_to_each,
  add_to_orphans, remove_from_each,
}
use flex.MessageHandler.Missing.{is_empty}
use flex.MessageHandler.Delivery.{is_accepted}
use flex.MessageHandler.Delivered.{
  empty_store, Delivered, AreQuiet, Delivered-missing, Delivered-calls, handle_stream-returns,
}

-- The message 20 depends on 10, and 10 on nothing.
abbrev needs : ℕ → List ℕ
needs x = if x == 20 then 10 ∷ [] else []

-- Objects that share msgdata: the first has no class of 20, and the handlers of all reject 40.
abbrev receivers : ℕ → Receiver
receivers n = record {
  of_class = λ x. not (n == 0 && x == 20);
  handler = λ h s. record s { rejected = if h == 40 then insert h s.rejected else s.rejected };
}

receivers-AreQuiet : AreQuiet receivers
receivers-AreQuiet n h s = refl

abbrev one_waits : MsgStore
one_waits = record {
  received = (20, tt) ∷ [];
  rejected = [];
  handled = [];
  missing_dependencies = (20, (10, tt) ∷ []) ∷ [];
  orphans = (10, (20, tt) ∷ []) ∷ [];
  new_non_orphans = (20, []) ∷ [];
  calls = [];
}

abbrev both_handled : MsgStore
both_handled = record {
  received = (10, tt) ∷ (20, tt) ∷ [];
  rejected = [];
  handled = (10, tt) ∷ (20, tt) ∷ [];
  missing_dependencies = (10, []) ∷ (20, []) ∷ [];
  orphans = (10, (20, tt) ∷ []) ∷ [];
  new_non_orphans = (10, []) ∷ (20, []) ∷ [];
  calls = 20 ∷ 10 ∷ [];
}

waits : handle_stream needs (receivers 0) 1 20 empty_store ≡ some one_waits
unfolding handle_stream handle handle_non_orphans handle_orphans call_handler mark_handled is_orphan
    any_rejected register_incoming_message register_as_orphan_if_appropriate record_new_non_orphans
    missing_among add_to_each add_to_orphans remove_from_each lookup put erase
waits = refl

handles_both : handle_stream needs (receivers 1) 2 10 one_waits ≡ some both_handled
unfolding handle_stream handle handle_non_orphans handle_orphans call_handler mark_handled is_orphan
    any_rejected register_incoming_message register_as_orphan_if_appropriate record_new_non_orphans
    missing_among add_to_each add_to_orphans remove_from_each lookup put erase
handles_both = refl

one-Delivered : Delivered needs receivers 1 one_waits
one-Delivered = Delivered.next 20 Delivered.start waits

both-Delivered : Delivered needs receivers 2 both_handled
both-Delivered = Delivered.next 10 one-Delivered handles_both

Delivered-missing_example :
    count 10 (set_at 20 one_waits.missing_dependencies)
    ≡ (vector_contains_entry (needs 20) 10 && (not (10 == 0) && not (count 10 one_waits.received)))
Delivered-missing_example =
    Delivered-missing needs receivers receivers-AreQuiet 1 one_waits 20 10 one-Delivered
      (unfold lookup in refl)

Delivered-calls_example :
    (count 20 both_handled.received ≡ true)
    × ((vector_contains_entry (needs 20) 10
          && (not (10 == 0) && not (count 10 both_handled.received)))
        ≡ false)
Delivered-calls_example =
    Delivered-calls needs receivers receivers-AreQuiet 2 both_handled 20 10 both-Delivered
      (unfold vector_contains_entry in refl)

handle_stream-returns_example :
    (s' : MsgStore) × (handle_stream needs (receivers 1) 2 10 one_waits ≡ some s')
    × ((is_accepted needs (receivers 1) 10 one_waits && not (vector_contains_entry s'.calls 10))
        ≡ false)
    × ((is_accepted needs (receivers 1) 10 one_waits
          && ((receivers 1).of_class 20
              && ((count 20 (set_at 10 one_waits.orphans)
                    && is_empty (erase 10 (set_at 20 one_waits.missing_dependencies)))
                  && not (vector_contains_entry s'.calls 20))))
        ≡ false)
handle_stream-returns_example =
    handle_stream-returns needs receivers receivers-AreQuiet 1 10 20 one_waits one-Delivered refl

-- The first object frees 20 and does not call its handler.
frees_only :
    handle_stream needs (receivers 0) 2 10 one_waits
    ≡ some (record both_handled { handled = (10, tt) ∷ []; calls = 10 ∷ [] })
unfolding handle_stream handle handle_non_orphans handle_orphans call_handler mark_handled is_orphan
    any_rejected register_incoming_message register_as_orphan_if_appropriate record_new_non_orphans
    missing_among add_to_each add_to_orphans remove_from_each lookup put erase
frees_only = refl
