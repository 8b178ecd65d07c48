-- ===== src/MessageHandler/Delivered.antt =====
-- The stores that a node reaches as messages arrive, and what happens to each of them.
use flex.Common.{
  ℕ, ◌+◌, ◌≡◌, ap, ◌∙◌, sym, true, false, not, ◌&&◌, some, List, [], arith, ◌==◌, if◌then◌else◌,
  nat_eq,
}
use mathlib.Core.Option.{some-injective}
use flex.StdMap.{lookup, erase, count}
use flex.VectorTools.{vector_contains_entry}
use flex.MessageHandler.{MsgStore, Receiver, set_at, handle_stream}
use flex.MessageHandler.Missing.{is_empty, is_empty-count}
use flex.MessageHandler.Registered.{
  IsRegistered, own, before_removal, waiting-after, freed-after_own,
}
use flex.MessageHandler.Handled.{CallsReady, IsQuiet}
use flex.MessageHandler.Delivery.{is_accepted, delivery}

abbrev pub empty_store : MsgStore
empty_store = record {
  received = [];
  rejected = [];
  handled = [];
  missing_dependencies = [];
  orphans = [];
  new_non_orphans = [];
  calls = [];
}

-- The objects that receive the messages that arrive do nothing to msgdata in their handlers but reject.
abbrev pub AreQuiet : (ℕ → Receiver) → Type 0
AreQuiet receivers = (n : ℕ) → IsQuiet (receivers n)

-- The stores after `n` messages have come from peers, each to an object of its own that shares msgdata
-- with the others, with one more than the messages before it as the fuel.
pub data Delivered (dependencies : ℕ → List ℕ) (receivers : ℕ → Receiver)
    : ℕ → MsgStore → Type 0 where
  start : Delivered dependencies receivers 0 empty_store
  next :
      {n : ℕ} {s s' : MsgStore} (h : ℕ)
      → Delivered dependencies receivers n s
      → handle_stream dependencies (receivers n) (n + 1) h s ≡ some s'
      → Delivered dependencies receivers (n + 1) s'

module _ (dependencies : ℕ → List ℕ) (receivers : ℕ → Receiver) (quiet : AreQuiet receivers) where
  Delivered-IsRegistered :
      (n : ℕ) (s : MsgStore)
      → Delivered dependencies receivers n s
      → IsRegistered dependencies n s × CallsReady s
  unfolding lookup vector_contains_entry
  Delivered-IsRegistered n s start = (
    record {
      rank = λ x. 0;
      rank_below = λ x e. absurd (ground (arith, e));
      orphan_rank = λ m x e. absurd (ground (arith, e));
      missing = λ x d e. absurd (ground (arith, e));
      linked = λ x d e. absurd (ground (arith, e));
      freed = λ m x e. absurd (ground (arith, e));
    },
    λ x e. absurd (ground (arith, e)),
  )
  Delivered-IsRegistered n s (next {n = m} {s = before} h r e) =
      let old = Delivered-IsRegistered m before r in
      let d = delivery dependencies (receivers m) m h before (quiet m) old.0 old.1 in
      let same : d.store ≡ s = some-injective d.store s (sym d.returns ∙ e) in
      rw (sym same) (d.registered, d.ready)

  -- Messages have come in any order, each to an object whose handlers do nothing to msgdata but reject.
  -- Then what is missing for each message that was received is the dependencies of it, other than the
  -- hash 0, that were not received.
  pub Delivered-missing :
      (n : ℕ) (s : MsgStore) (x d : ℕ)
      → Delivered dependencies receivers n s
      → count x s.received ≡ true
      → count d (set_at x s.missing_dependencies)
        ≡ (vector_contains_entry (dependencies x) d && (not (d == 0) && not (count d s.received)))
  Delivered-missing n s x d r e = (Delivered-IsRegistered n s r).0.missing x d e

  -- Messages have come in any order, each to an object whose handlers do nothing to msgdata but reject.
  -- Then a message for which the handler of its class has been called was received, and so was each of
  -- its dependencies other than the hash 0.
  pub Delivered-calls :
      (n : ℕ) (s : MsgStore) (x d : ℕ)
      → Delivered dependencies receivers n s
      → vector_contains_entry s.calls x ≡ true
      → (count x s.received ≡ true)
        × ((vector_contains_entry (dependencies x) d && (not (d == 0) && not (count d s.received)))
            ≡ false)
  Delivered-calls n s x d r e =
      let known = Delivered-IsRegistered n s r in
      let own = known.1 x e in
      (
        own.0,
        sym (known.0.missing x d own.0) ∙ is_empty-count (set_at x s.missing_dependencies) d own.1,
      )

  -- Messages have come in any order, each to an object whose handlers do nothing to msgdata but reject.
  -- Then the arrival of one more returns, with as much fuel as there are messages, this one included.
  -- Where it is handled as it comes and its handler does not reject it, the handler has been called for it,
  -- and for each other message of a class of the same object that had waited for it and misses nothing else.
  pub handle_stream-returns :
      (n h x : ℕ) (s : MsgStore)
      → Delivered dependencies receivers n s
      → (x == h) ≡ false
      → (s' : MsgStore) × (handle_stream dependencies (receivers n) (n + 1) h s ≡ some s')
        × ((is_accepted dependencies (receivers n) h s && not (vector_contains_entry s'.calls h))
            ≡ false)
        × ((is_accepted dependencies (receivers n) h s
              && ((receivers n).of_class x
                  && ((count x (set_at h s.orphans)
                        && is_empty (erase h (set_at x s.missing_dependencies)))
                      && not (vector_contains_entry s'.calls x))))
            ≡ false)
  handle_stream-returns n h x s r other =
      let known = Delivered-IsRegistered n s r in
      let d = delivery dependencies (receivers n) n h s (quiet n) known.0 known.1 in
      let recorded =
        freed-after_own dependencies n h s known.0 x
        ∙ ap (λ b. b && is_empty (erase h (before_removal dependencies n h s known.0 x)))
            (waiting-after dependencies n h s known.0 x) in
      let waits =
        recorded
        ∙ ap
            (λ b.
              count x (set_at h s.orphans)
              && is_empty (
                  erase h (
                    if b then own dependencies n h s known.0 else set_at x s.missing_dependencies)))
            other in
      (
        d.store,
        d.returns,
        d.called,
        sym (
              ap
                (λ b.
                  is_accepted dependencies (receivers n) h s
                  && ((receivers n).of_class x
                      && (b && not (vector_contains_entry d.store.calls x))))
                waits)
            ∙ d.freed x,
      )
