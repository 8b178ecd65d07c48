-- ===== src/MessageHandler/Delivery.antt =====
-- What the arrival of a message does.
use flex.Common.{
  ℕ, ◌+◌, ◌≡◌, refl, ap, ◌∙◌, sym, Bool, true, false, not, ◌&&◌, some, List, arith, nat_eq,
  Bool-cases, inl, inr,
}
use flex.StdMap.{lookup, put, count, insert}
use flex.VectorTools.{vector_contains_entry}
use flex.MessageHandler.{
  MsgStore, Receiver, set_at, is_orphan, call_handler, any_rejected, handle_stream,
  register_incoming_message, register_as_orphan_if_appropriate, record_new_non_orphans,
}
use flex.MessageHandler.Missing.{is_missing, is_empty}
use flex.MessageHandler.Registered.{
  IsRegistered, received-after, still_empty, register-IsRegistered,
}
use flex.MessageHandler.Handled.{IsReady, CallsReady, IsKept, IsQuiet, Falls, handle-HandleEnds}

module _ (dependencies : ℕ → List ℕ) where
  IsRegistered-kept :
      (n : ℕ) (s s' : MsgStore)
      → IsKept s s'
      → IsRegistered dependencies n s
      → IsRegistered dependencies n s'
  IsRegistered-kept n s s' k r =
      let was : (x : ℕ) → count x s'.received ≡ true → count x s.received ≡ true =
        λ x e. sym (ap (λ set. count x set) k.received) ∙ e in
      let waited : (m x : ℕ)
          → count x (set_at m s'.orphans) ≡ true
          → count x (set_at m s.orphans) ≡ true =
        λ m x e. sym (ap (λ sets. count x (set_at m sets)) k.orphans) ∙ e in
      record {
        rank = r.rank;
        rank_below = λ x e. r.rank_below x (was x e);
        orphan_rank = λ m x e.
            let old = r.orphan_rank m x (waited m x e) in
            (ap (λ set. count x set) k.received ∙ old.0, λ f. old.1 (was m f));
        missing = λ x d e.
            ap (λ sets. count d (set_at x sets)) k.missing
            ∙ r.missing x d (was x e)
            ∙ ap (λ set. is_missing (dependencies x) set d) (sym k.received);
        linked = λ x d e.
            ap (λ sets. count x (set_at d sets)) k.orphans
            ∙ r.linked x d (sym (ap (λ sets. count d (set_at x sets)) k.missing) ∙ e);
        freed = λ m x e.
            let old = r.freed m x (k.freed m x e) in
            (
              ap (λ sets. count x (set_at m sets)) k.orphans ∙ old.0,
              ap (λ set. count m set) k.received ∙ old.1,
              ap (λ sets. is_empty (set_at x sets)) k.missing ∙ old.2,
            );
      }

  IsRegistered-Falls : (n : ℕ) (s : MsgStore) (r : IsRegistered dependencies n s) → Falls r.rank s
  IsRegistered-Falls n s r m x e =
      let f = r.freed m x e in let o = r.orphan_rank m x f.0 in (o.1 f.1, (o.0, f.2))

  register-CallsReady :
      (n h : ℕ) (s : MsgStore)
      → IsRegistered dependencies n s
      → CallsReady s
      → CallsReady (register_incoming_message dependencies h s)
  register-CallsReady n h s r ready x e =
      let old = ready x (
        unfold register_incoming_message register_as_orphan_if_appropriate record_new_non_orphans in
        e) in
      (
        received-after dependencies n h s r x ∙ ground (arith, old.0),
        still_empty dependencies n h s r x old.0 old.1,
      )

module _ (dependencies : ℕ → List ℕ) (receiver : Receiver) where
  -- The message is handled as soon as it comes, and its handler does not reject it.
  abbrev pub is_accepted : ℕ → MsgStore → Bool
  is_accepted h s =
      let registered = register_incoming_message dependencies h s in
      not (any_rejected (dependencies h) registered.rejected)
      && (not (is_orphan h registered) && not (count h (receiver.handler h registered).rejected))

  -- What a delivery ends with.
  pub record Delivery (n h : ℕ) (s : MsgStore) : Type 0 where
    pub store : MsgStore
    pub returns : handle_stream dependencies receiver (n + 1) h s ≡ some store
    pub registered : IsRegistered dependencies (n + 1) store
    pub ready : CallsReady store
    pub called : (is_accepted h s && not (vector_contains_entry store.calls h)) ≡ false
    pub freed :
        (x : ℕ)
        → (is_accepted h s
            && (receiver.of_class x
                && (count x (set_at h (register_incoming_message dependencies h s).new_non_orphans)
                    && not (vector_contains_entry store.calls x))))
          ≡ false

  pub delivery :
      (n h : ℕ) (s : MsgStore)
      → IsQuiet receiver
      → IsRegistered dependencies n s
      → CallsReady s
      → Delivery n h s
  unfolding handle_stream call_handler
  delivery n h s quiet r ready =
      let reg = register_incoming_message dependencies h s in
      let r' = register-IsRegistered dependencies n h s r in
      let ready' = register-CallsReady dependencies n h s r ready in
      elim (Bool-cases (any_rejected (dependencies h) reg.rejected)) [
        | inl bad ↦ record {
          store = record reg { rejected = insert h reg.rejected };
          returns = rw bad refl;
          registered = record {
            rank = r'.rank;
            rank_below = r'.rank_below;
            orphan_rank = r'.orphan_rank;
            missing = r'.missing;
            linked = r'.linked;
            freed = r'.freed;
          };
          ready = ready';
          called = ground (arith, bad);
          freed = λ x. ground (arith, bad);
        }
        | inr fine ↦ elim (Bool-cases (is_orphan h reg)) [
          | inl waits ↦ record {
            store = reg;
            returns = rw (fine, waits) refl;
            registered = r';
            ready = ready';
            called = ground (arith, waits);
            freed = λ x. ground (arith, waits);
          }
          | inr comes ↦
              let own : IsReady reg h = (
                received-after dependencies n h s r h ∙ ground arith,
                unfold is_orphan in ground (arith, comes),
              ) in
              let done =
                handle-HandleEnds receiver quiet r'.rank (n + 1) h reg
                  (IsRegistered-Falls dependencies (n + 1) reg r') ready' own
                  (r'.rank_below h own.0) in
              record {
                store = done.all.store;
                returns = rw (fine, comes) done.all.returns;
                registered =
                    IsRegistered-kept dependencies (n + 1) reg done.all.store done.all.kept r';
                ready = done.all.ready;
                called = ground (arith, done.all.called h (unfold lookup put in ground arith));
                freed = λ x.
                    elim (Bool-cases
                      (receiver.of_class x && not (count h (receiver.handler h reg).rejected))) [
                        | inl ok ↦ elim (Bool-cases (count x (set_at h reg.new_non_orphans))) [
                          | inl there ↦
                              ground
                                (arith, done.next (ground (arith, ok)) x there (ground (arith, ok)))
                          | inr absent ↦ ground (arith, absent)
                        ]
                        | inr bad ↦ ground (arith, bad)
                      ];
              }
        ]
      ]
