-- ===== src/MessageHandler/Handled.antt =====
-- What HandleOrphans does with the messages that it hands on.
use flex.Common.{
  ℕ, zero, suc, ◌<◌, ◌≡◌, refl, ap, ◌∙◌, sym, Bool, true, false, Option, some, [], ◌∷◌, arith, ◌==◌,
  if◌then◌else◌, nat_eq, Bool-cases, inl, inr,
}
use flex.StdMap.{Set, lookup, put, count, insert}
use flex.VectorTools.{vector_contains_entry}
use flex.MessageHandler.{
  MsgStore, Receiver, set_at, handle, handle_non_orphans, handle_orphans, call_handler,
  mark_handled,
}
use flex.MessageHandler.Missing.{is_empty, set_at-put}

-- A message that is received and misses nothing.
abbrev pub IsReady : MsgStore → ℕ → Type 0
IsReady s x = (count x s.received ≡ true) × (is_empty (set_at x s.missing_dependencies) ≡ true)

abbrev pub CallsReady : MsgStore → Type 0
CallsReady s = (x : ℕ) → vector_contains_entry s.calls x ≡ true → IsReady s x

-- What Handle leaves as it was.
pub record IsKept (s s' : MsgStore) : Type 0 where
  pub received : s'.received ≡ s.received
  pub missing : s'.missing_dependencies ≡ s.missing_dependencies
  pub orphans : s'.orphans ≡ s.orphans
  pub freed :
      (m x : ℕ)
      → count x (set_at m s'.new_non_orphans) ≡ true
      → count x (set_at m s.new_non_orphans) ≡ true
  pub called :
      (x : ℕ) → vector_contains_entry s.calls x ≡ true → vector_contains_entry s'.calls x ≡ true

pub IsKept-trans : (a b c : MsgStore) → IsKept a b → IsKept b c → IsKept a c
IsKept-trans a b c k l = record {
  received = l.received ∙ k.received;
  missing = l.missing ∙ k.missing;
  orphans = l.orphans ∙ k.orphans;
  freed = λ m x e. k.freed m x (l.freed m x e);
  called = λ x e. l.called x (k.called x e);
}

pub IsReady-kept : (s s' : MsgStore) (x : ℕ) → IsKept s s' → IsReady s x → IsReady s' x
IsReady-kept s s' x k e = (
  ap (λ set. count x set) k.received ∙ e.0,
  ap (λ sets. is_empty (set_at x sets)) k.missing ∙ e.1,
)

-- The hashes recorded under a hash have a smaller rank and are ready.
abbrev pub Falls : (ℕ → ℕ) → MsgStore → Type 0
Falls rank s =
    (m x : ℕ) → count x (set_at m s.new_non_orphans) ≡ true → (rank x < rank m) × IsReady s x

pub Falls-kept : (rank : ℕ → ℕ) (s s' : MsgStore) → IsKept s s' → Falls rank s → Falls rank s'
Falls-kept rank s s' k falls m x e =
    let old = falls m x (k.freed m x e) in (old.0, IsReady-kept s s' x k old.1)

pub mark_handled-IsKept : (h : ℕ) (s : MsgStore) → IsKept s (mark_handled h s)
unfolding mark_handled
mark_handled-IsKept h s = record {
  received = refl;
  missing = refl;
  orphans = refl;
  freed = λ m x e. e;
  called = λ x e. e;
}

IsKept-refl : (s : MsgStore) → IsKept s s
IsKept-refl s = record {
  received = refl;
  missing = refl;
  orphans = refl;
  freed = λ m x e. e;
  called = λ x e. e;
}

-- A call that returns, and what it has called, among the hashes that pass a test.
pub record EachHandled (test : ℕ → Bool) (result : Option MsgStore) (hashes : Set) (s : MsgStore)
    : Type 0 where
  pub store : MsgStore
  pub returns : result ≡ some store
  pub kept : IsKept s store
  pub ready : CallsReady store
  pub called :
      (x : ℕ) → count x hashes ≡ true → test x ≡ true → vector_contains_entry store.calls x ≡ true

-- The test of HANDLEHASH.
one-EachHandled :
    (of_class : ℕ → Bool) (h : ℕ) (result : Option MsgStore) (s : MsgStore)
    → CallsReady s
    → EachHandled (λ x. true) result (insert h []) s
    → EachHandled of_class (if of_class h then result else some s) (insert h []) s
unfolding lookup put
one-EachHandled of_class h result s ready e = elim (Bool-cases (of_class h)) [
  | inl mine ↦ record {
    store = e.store;
    returns = rw mine e.returns;
    kept = e.kept;
    ready = e.ready;
    called = λ x is passed. e.called x is refl;
  }
  | inr not_mine ↦ record {
    store = s;
    returns = rw not_mine refl;
    kept = IsKept-refl s;
    ready = ready;
    called = λ x is passed.
        let same : x ≡ h = ground (arith, is) in
        absurd (ground (arith, sym passed ∙ ap of_class same ∙ not_mine));
  }
]

pub each-EachHandled :
    (rank : ℕ → ℕ) (fuel : ℕ) (of_class : ℕ → Bool) (f : ℕ → MsgStore → Option MsgStore)
    (each : (x : ℕ) (s : MsgStore)
      → Falls rank s
      → CallsReady s
      → IsReady s x
      → rank x < fuel
      → EachHandled (λ x. true) (f x s) (insert x []) s)
    (hashes : Set) (s : MsgStore)
    → Falls rank s
    → CallsReady s
    → ((x : ℕ) → count x hashes ≡ true → (rank x < fuel) × IsReady s x)
    → EachHandled of_class (handle_non_orphans of_class f hashes s) hashes s
unfolding handle_non_orphans lookup put
each-EachHandled rank fuel of_class f each [] s falls ready all = record {
  store = s;
  returns = refl;
  kept = IsKept-refl s;
  ready = ready;
  called = λ x e passed. absurd (ground (arith, e));
}
each-EachHandled rank fuel of_class f each ((h, u) ∷ hashes) s falls ready all =
    let own = all h (ground arith) in
    let first = one-EachHandled of_class h (f h s) s ready (each h s falls ready own.1 own.0) in
    let next = first.store in
    let k = first.kept in
    let rest =
      each-EachHandled rank fuel of_class f each hashes next (Falls-kept rank s next k falls)
        first.ready
        (λ x e. let one = all x (ground (arith, e)) in (one.0, IsReady-kept s next x k one.1)) in
    record {
      store = rest.store;
      returns = rw (first.returns, handle_non_orphans) rest.returns;
      kept = IsKept-trans s next rest.store k rest.kept;
      ready = rest.ready;
      called = λ x e passed. elim (Bool-cases (x == h)) [
        | inl is ↦ rest.kept.called x (first.called x (rw is refl) passed)
        | inr isnt ↦ rest.called x (ground (arith, isnt, e)) passed
      ];
    }

-- The handlers of an object do nothing to msgdata but reject messages.
abbrev pub IsQuiet : Receiver → Type 0
IsQuiet receiver =
    (h : ℕ) (s : MsgStore)
    → receiver.handler h s ≡ record s { rejected = (receiver.handler h s).rejected }

module _ (receiver : Receiver) (quiet : IsQuiet receiver) where
  -- The store after such a handler.
  abbrev after_call : ℕ → MsgStore → MsgStore
  after_call h s = record s { rejected = (receiver.handler h s).rejected; calls = h ∷ s.calls }

  quiet_call : (h : ℕ) (s : MsgStore) → call_handler receiver h s ≡ after_call h s
  unfolding call_handler
  quiet_call h s = ap (λ (t : MsgStore). record t { calls = h ∷ t.calls }) (quiet h s)

  called-IsKept : (h : ℕ) (s : MsgStore) → IsKept s (call_handler receiver h s)
  unfolding vector_contains_entry
  called-IsKept h s = rw (quiet_call h s) (record {
    received = refl;
    missing = refl;
    orphans = refl;
    freed = λ m x e. e;
    called = λ x e. ground (arith, e);
  })

  called-CallsReady :
      (h : ℕ) (s : MsgStore) → CallsReady s → IsReady s h → CallsReady (call_handler receiver h s)
  unfolding vector_contains_entry
  called-CallsReady h s ready own = rw (quiet_call h s) (λ x e. elim (Bool-cases (h == x)) [
    | inl is ↦
        let same : h ≡ x = ground (arith, is) in
        (
          ap (λ k. count k s.received) (sym same) ∙ own.0,
          ap (λ k. is_empty (set_at k s.missing_dependencies)) (sym same) ∙ own.1,
        )
    | inr isnt ↦ ready x (ground (arith, isnt, e))
  ])

  called_itself :
      (h x : ℕ) (s : MsgStore)
      → count x (insert h []) ≡ true
      → vector_contains_entry (call_handler receiver h s).calls x ≡ true
  unfolding call_handler vector_contains_entry lookup put
  called_itself h x s e = ground (arith, e)

  forgotten-IsKept :
      (h : ℕ) (s : MsgStore) → IsKept s (record s { new_non_orphans = put h [] s.new_non_orphans })
  unfolding lookup
  forgotten-IsKept h s = record {
    received = refl;
    missing = refl;
    orphans = refl;
    freed = λ m x e. elim (Bool-cases (m == h)) [
      | inl is ↦ absurd (
          ground (
            arith,
            sym e ∙ ap (λ set. count x set) (set_at-put m h [] s.new_non_orphans),
            ap (λ b. count x (if b then [] else set_at m s.new_non_orphans)) is,
          ))
      | inr isnt ↦ ground (
        arith,
        sym e ∙ ap (λ set. count x set) (set_at-put m h [] s.new_non_orphans),
        ap (λ b. count x (if b then [] else set_at m s.new_non_orphans)) isnt,
      )
    ];
    called = λ x e. e;
  }

  -- A call of Handle returns, and has called the handlers of the message and of those it frees.
  pub record HandleEnds (fuel h : ℕ) (s : MsgStore) : Type 0 where
    pub all : EachHandled (λ x. true) (handle receiver fuel h s) (insert h []) s
    pub next :
        count h (call_handler receiver h s).rejected ≡ false
        → (x : ℕ) → count x (set_at h s.new_non_orphans) ≡ true
        → receiver.of_class x ≡ true
        → vector_contains_entry all.store.calls x ≡ true

  pub handle-HandleEnds :
      (rank : ℕ → ℕ) (fuel h : ℕ) (s : MsgStore)
      → Falls rank s
      → CallsReady s
      → IsReady s h
      → rank h < fuel
      → HandleEnds fuel h s
  unfolding handle mark_handled handle_orphans
  handle-HandleEnds rank zero h s falls ready own less = absurd (omega arith)
  handle-HandleEnds rank (suc fuel) h s falls ready own less =
      let called = call_handler receiver h s in
      let k = called-IsKept h s in
      let called_ready = called-CallsReady h s ready own in
      elim (Bool-cases (count h called.rejected)) [
        | inl rejected ↦ record {
          all = record {
            store = mark_handled h called;
            returns = rw rejected refl;
            kept = IsKept-trans s called (mark_handled h called) k (mark_handled-IsKept h called);
            ready = called_ready;
            called = λ x e passed. called_itself h x s e;
          };
          next = λ accepted. absurd (ground (arith, rejected, accepted));
        }
        | inr accepted ↦
            let each =
              each-EachHandled rank fuel receiver.of_class (handle receiver fuel)
                (λ x t f c i l. (handle-HandleEnds rank fuel x t f c i l).all)
                (set_at h called.new_non_orphans) called (Falls-kept rank s called k falls)
                called_ready
                (λ x e.
                  let fall = falls h x (k.freed h x e) in
                  (omega arith, IsReady-kept s called x k fall.1)) in
            let forgotten : MsgStore = record each.store {
              new_non_orphans = put h [] each.store.new_non_orphans;
            } in
            let l =
              IsKept-trans called each.store forgotten each.kept (forgotten-IsKept h each.store) in
            let ends : handle_orphans receiver.of_class (handle receiver fuel) h called
                ≡ some forgotten =
              rw (each.returns, handle_orphans) refl in
            record {
              all = record {
                store = mark_handled h forgotten;
                returns = rw accepted (rw (ends, handle) refl);
                kept = IsKept-trans s called (mark_handled h forgotten) k (
                    IsKept-trans called forgotten (mark_handled h forgotten) l
                      (mark_handled-IsKept h forgotten));
                ready = each.ready;
                called = λ x e passed. l.called x (called_itself h x s e);
              };
              next = λ a x e. each.called x (
                  ap (λ (t : MsgStore). count x (set_at h t.new_non_orphans)) (quiet_call h s) ∙ e);
            }
      ]
