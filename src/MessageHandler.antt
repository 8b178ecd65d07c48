-- ===== src/MessageHandler.antt =====
-- The class MessageHandlerWithOrphanage and the macro HANDLECLASS, of
-- test/teleport_tests/node/MessageHandlerWithOrphanage.h.
pub mod Missing
pub mod Registered
pub mod Handled
pub mod Delivery
pub mod Delivered
pub mod Examples
use flex.Common.{
  ℕ, zero, suc, Bool, true, false, not, ◌&&◌, ◌||◌, Option, none, some, List, [], ◌∷◌, ◌++◌, ◌==◌,
  if◌then◌else◌, length, get_or,
}
use flex.StdMap.{Map, Set, lookup, put, erase, count, insert}

-- What msgdata holds of messages, by their hashes, and the hashes of the messages for which the function
-- Handle...() of their class has been called.
pub record MsgStore : Type 0 where
  pub received : Set
  pub rejected : Set
  pub handled : Set
  pub missing_dependencies : Map Set
  pub orphans : Map Set
  pub new_non_orphans : Map Set
  pub calls : List ℕ

-- The set that is stored under a hash: empty where there is none.
abbrev pub set_at : ℕ → Map Set → Set
set_at hash sets = get_or (lookup hash sets) []

-- The loop of GetMissingDependencies.
unfoldable pub missing_among : List ℕ → Set → Set → Set
missing_among [] received missing = missing
missing_among (dependency ∷ dependencies) received missing = missing_among dependencies received (
    if not (dependency == 0) && not (count dependency received)
    then insert dependency missing
    else missing)

-- MessageHandlerWithOrphanage::AddToOrphans
unfoldable pub add_to_orphans : ℕ → ℕ → Map Set → Map Set
add_to_orphans orphan dependency orphans =
    put dependency (insert orphan (set_at dependency orphans)) orphans

unfoldable pub add_to_each : ℕ → Set → Map Set → Map Set
add_to_each orphan [] orphans = orphans
add_to_each orphan ((dependency, u) ∷ missing) orphans =
    add_to_each orphan missing (add_to_orphans orphan dependency orphans)

-- The loop of RemoveFromMissingDependenciesAndRecordNewNonOrphans.
unfoldable pub remove_from_each : ℕ → Set → Set → Map Set → Set × Map Set
remove_from_each message_hash [] new_non_orphans missing = (new_non_orphans, missing)
remove_from_each message_hash ((orphan, u) ∷ orphans) new_non_orphans missing =
    let left = erase message_hash (set_at orphan missing) in
    remove_from_each message_hash orphans
      (if length left == 0 then insert orphan new_non_orphans else new_non_orphans)
      (put orphan left missing)

-- MessageHandlerWithOrphanage::RemoveFromMissingDependenciesAndRecordNewNonOrphans
unfoldable pub record_new_non_orphans : ℕ → MsgStore → MsgStore
unfolding remove_from_each
record_new_non_orphans message_hash s =
    let removed =
      remove_from_each message_hash (set_at message_hash s.orphans) [] s.missing_dependencies in
    record s {
      missing_dependencies = removed.1;
      new_non_orphans = put message_hash removed.0 s.new_non_orphans;
    }

-- MessageHandlerWithOrphanage::IsOrphan
unfoldable pub is_orphan : ℕ → MsgStore → Bool
is_orphan message_hash s = not (length (set_at message_hash s.missing_dependencies) == 0)

unfoldable pub mark_handled : ℕ → MsgStore → MsgStore
mark_handled message_hash s = record s { handled = insert message_hash s.handled }

-- HandleMessage, as the derived classes define it: HANDLEHASH compares the type of the message with each
-- class of the object, and calls Handle of HANDLECLASS for the one that it is of.
abbrev pub handle_hash :
    (ℕ → Bool) → (ℕ → MsgStore → Option MsgStore) → ℕ → MsgStore → Option MsgStore
handle_hash of_class handle_object message_hash s =
    if of_class message_hash then handle_object message_hash s else some s

-- The loop of HandleOrphans.
unfoldable pub handle_non_orphans :
    (ℕ → Bool) → (ℕ → MsgStore → Option MsgStore) → Set → MsgStore → Option MsgStore
handle_non_orphans of_class handle_object [] s = some s
handle_non_orphans of_class handle_object ((non_orphan, u) ∷ non_orphans) s =
    elim (handle_hash of_class handle_object non_orphan s) [
      | none ↦ none
      | some s' ↦ handle_non_orphans of_class handle_object non_orphans s'
    ]

-- MessageHandlerWithOrphanage::HandleOrphans
unfoldable pub handle_orphans :
    (ℕ → Bool) → (ℕ → MsgStore → Option MsgStore) → ℕ → MsgStore → Option MsgStore
handle_orphans of_class handle_object message_hash s =
    elim (handle_non_orphans of_class handle_object (set_at message_hash s.new_non_orphans) s) [
      | none ↦ none
      | some s' ↦ some (record s' { new_non_orphans = put message_hash [] s'.new_non_orphans })
    ]

-- The loop of HasRejectedDependencies.
unfoldable pub any_rejected : List ℕ → Set → Bool
any_rejected [] rejected = false
any_rejected (dependency ∷ rest) rejected =
    if count dependency rejected then true else any_rejected rest rejected

-- An object of a class derived from MessageHandlerWithOrphanage; several share one msgdata. Which
-- messages, by their hashes, are of a class that its HandleMessage names in a HANDLEHASH, and what the
-- function Handle...() of the class does to msgdata, with the calls that it makes itself.
pub record Receiver : Type 0 where
  pub of_class : ℕ → Bool
  pub handler : ℕ → MsgStore → MsgStore

-- What is known of the messages: the Dependencies() of the one with a hash.
module _ (dependencies : ℕ → List ℕ) where
  -- MessageHandlerWithOrphanage::RegisterAsOrphanIfAppropriate
  unfoldable pub register_as_orphan_if_appropriate : ℕ → MsgStore → MsgStore
  register_as_orphan_if_appropriate message_hash s =
      let missing = missing_among (dependencies message_hash) s.received [] in
      record s {
        missing_dependencies = put message_hash missing s.missing_dependencies;
        orphans = add_to_each message_hash missing s.orphans;
      }

  -- MessageHandlerWithOrphanage::RegisterIncomingMessage
  unfoldable pub register_incoming_message : ℕ → MsgStore → MsgStore
  register_incoming_message message_hash s = record_new_non_orphans message_hash (
      register_as_orphan_if_appropriate message_hash
        (record s { received = insert message_hash s.received }))

module _ (receiver : Receiver) where
  -- Handle...(instance) of a class
  unfoldable pub call_handler : ℕ → MsgStore → MsgStore
  call_handler message_hash s =
      let after = receiver.handler message_hash s in
      record after { calls = message_hash ∷ after.calls }

  -- Handle of HANDLECLASS: `none` is only for fuel.
  unfoldable pub handle : ℕ → ℕ → MsgStore → Option MsgStore
  handle zero message_hash s = none
  handle (suc fuel) message_hash s =
      let called = call_handler message_hash s in
      let after = handle_orphans receiver.of_class (handle fuel) message_hash called in
      if count message_hash called.rejected
      then some (mark_handled message_hash called)
      else elim after [ none ↦ none | some s' ↦ some (mark_handled message_hash s') ]

-- Handle...Stream of HANDLECLASS, without FetchDependencies
unfoldable pub handle_stream : (ℕ → List ℕ) → Receiver → ℕ → ℕ → MsgStore → Option MsgStore
handle_stream dependencies receiver fuel message_hash s =
    let registered = register_incoming_message dependencies message_hash s in
    let result = handle receiver fuel message_hash registered in
    if any_rejected (dependencies message_hash) registered.rejected
    then some (record registered { rejected = insert message_hash registered.rejected })
    else if not (is_orphan message_hash registered)
    then result
    else some registered
