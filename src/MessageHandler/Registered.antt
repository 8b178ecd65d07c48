-- ===== src/MessageHandler/Registered.antt =====
-- What RegisterIncomingMessage keeps of the dependencies.
use flex.Common.{
  ℕ, ◌+◌, ◌<◌, ◌≡◌, refl, ap, ◌∙◌, sym, true, false, not, ◌&&◌, ◌||◌, List, [], arith, ◌==◌,
  if◌then◌else◌, nat_eq, Bool-cases, inl, inr,
}
use flex.StdMap.{Set, lookup, put, erase, count, insert}
use flex.StdMap.Laws.{lookup-put, lookup-erase}
use flex.MessageHandler.{
  MsgStore, set_at, missing_among, remove_from_each, record_new_non_orphans,
  register_as_orphan_if_appropriate, register_incoming_message,
}
use flex.MessageHandler.Missing.{
  is_missing, missing_among_lem, set_at-put, add_to_each_lem, removed_lem, recorded_lem, is_empty,
  is_empty-count, count-is_empty,
}

module _ (dependencies : ℕ → List ℕ) where
  -- The missing dependencies of each message received are its dependencies that are not, and the orphans
  -- of a hash those messages that waited for it. A message that waited for another came before it: its
  -- rank, which is below `n`, is less.
  pub record IsRegistered (n : ℕ) (s : MsgStore) : Type 0 where
    pub rank : ℕ → ℕ
    pub rank_below : (x : ℕ) → count x s.received ≡ true → rank x < n
    pub orphan_rank :
        (m x : ℕ)
        → count x (set_at m s.orphans) ≡ true
        → (count x s.received ≡ true) × (count m s.received ≡ true → rank x < rank m)
    pub missing :
        (x d : ℕ)
        → count x s.received ≡ true
        → count d (set_at x s.missing_dependencies) ≡ is_missing (dependencies x) s.received d
    pub linked :
        (x d : ℕ)
        → count d (set_at x s.missing_dependencies) ≡ true
        → count x (set_at d s.orphans) ≡ true
    pub freed :
        (m x : ℕ)
        → count x (set_at m s.new_non_orphans) ≡ true
        → (count x (set_at m s.orphans) ≡ true)
          × (count m s.received ≡ true)
          × (is_empty (set_at x s.missing_dependencies) ≡ true)

  module _ (n h : ℕ) (s : MsgStore) (r : IsRegistered n s) where
    abbrev pub after : MsgStore
    after = register_incoming_message dependencies h s

    abbrev pub own : Set
    own = missing_among (dependencies h) (insert h s.received) []

    pub received-after : (x : ℕ) → count x after.received ≡ ((x == h) || count x s.received)
    unfolding register_incoming_message register_as_orphan_if_appropriate record_new_non_orphans
    received-after x = ground (arith, lookup-put x h tt s.received)

    own_lem : (d : ℕ) → count d own ≡ is_missing (dependencies h) (insert h s.received) d
    unfolding lookup
    own_lem d = missing_among_lem (dependencies h) (insert h s.received) [] d ∙ ground arith

    own_self : count h own ≡ false
    own_self = own_lem h ∙ ground (arith, lookup-put h h tt s.received)

    orphans-after :
        (m x : ℕ)
        → count x (set_at m after.orphans)
          ≡ ((x == h && count m own) || count x (set_at m s.orphans))
    unfolding register_incoming_message register_as_orphan_if_appropriate record_new_non_orphans
    orphans-after m x = add_to_each_lem h own s.orphans m x

    -- The orphans of the message itself do not change.
    pub waiting-after : (x : ℕ) → count x (set_at h after.orphans) ≡ count x (set_at h s.orphans)
    waiting-after x = orphans-after h x ∙ ground (arith, own_self)

    abbrev pub before_removal : ℕ → Set
    before_removal x = if x == h then own else set_at x s.missing_dependencies

    missing-after_set :
        (x : ℕ)
        → set_at x after.missing_dependencies ≡ (
            if count x (set_at h after.orphans)
            then erase h (before_removal x)
            else before_removal x)
    unfolding register_incoming_message register_as_orphan_if_appropriate record_new_non_orphans
    missing-after_set x =
        removed_lem h (set_at h after.orphans) [] (put h own s.missing_dependencies) x
        ∙ ap (λ set. if count x (set_at h after.orphans) then erase h set else set)
            (set_at-put x h own s.missing_dependencies)

    missing-after_count :
        (x d : ℕ)
        → count d (set_at x after.missing_dependencies)
          ≡ (count d (before_removal x) && not (d == h && count x (set_at h s.orphans)))
    missing-after_count x d =
        ap (λ set. count d set) (missing-after_set x)
        ∙ ap (λ b. count d (if b then erase h (before_removal x) else before_removal x))
            (waiting-after x)
        ∙ elim (Bool-cases (count x (set_at h s.orphans))) [
          | inl there ↦ rw there (ground (arith, lookup-erase d h (before_removal x)))
          | inr absent ↦ rw absent (ground arith)
        ]

    missing-after :
        (x d : ℕ)
        → count x after.received ≡ true
        → count d (set_at x after.missing_dependencies)
          ≡ is_missing (dependencies x) after.received d
    missing-after x d e = missing-after_count x d ∙ elim (Bool-cases (x == h)) [
      | inl is ↦
          let same : x ≡ h = ground (arith, is) in
          rw (is, same)
            (ground (
              arith,
              own_lem d,
              own_self,
              received-after d,
              lookup-put d h tt s.received,
              lookup-put h h tt s.received,
              ap (λ k. count k own) {x = d} {y = h},
            ))
      | inr isnt ↦
          let old : count x s.received ≡ true = ground (arith, received-after x, isnt, e) in
          rw isnt (elim (Bool-cases (d == h)) [
            | inl is_h ↦
                let same : d ≡ h = ground (arith, is_h) in
                rw same (elim (Bool-cases (count h (set_at x s.missing_dependencies))) [
                  | inl there ↦ ground (arith, there, r.linked x h there, received-after h)
                  | inr absent ↦ ground (arith, absent, received-after h)
                ])
            | inr isnt_h ↦ ground (arith, isnt_h, r.missing x d old, received-after d)
          ])
    ]

    linked-after :
        (x d : ℕ)
        → count d (set_at x after.missing_dependencies) ≡ true
        → count x (set_at d after.orphans) ≡ true
    linked-after x d e = elim (Bool-cases (x == h)) [
      | inl is ↦
          let kept : count d own ≡ true = ground (
            arith,
            sym (missing-after_count x d) ∙ e,
            ap (λ b. count d (if b then own else set_at x s.missing_dependencies)) is,
          ) in
          ground (arith, orphans-after d x, is, kept)
      | inr isnt ↦
          let kept : count d (set_at x s.missing_dependencies) ≡ true = ground (
            arith,
            sym (missing-after_count x d) ∙ e,
            ap (λ b. count d (if b then own else set_at x s.missing_dependencies)) isnt,
          ) in
          ground (arith, orphans-after d x, r.linked x d kept)
    ]

    abbrev rank-after : ℕ → ℕ
    rank-after x = if x == h && not (count h s.received) then n else r.rank x

    received_before :
        (m : ℕ)
        → count h s.received ≡ true
        → count m after.received ≡ true
        → count m s.received ≡ true
    received_before m known e = elim (Bool-cases (m == h)) [
      | inl is ↦ ap (λ k. count k s.received) (ground (arith, is)) ∙ known
      | inr isnt ↦ ground (arith, received-after m, isnt, e)
    ]

    before_new : (x : ℕ) → count x s.received ≡ true → count h s.received ≡ false → (x == h) ≡ false
    before_new x old new = elim (Bool-cases (x == h)) [
      | inl is ↦
          let same : h ≡ x = ground (arith, is) in
          absurd (ground (arith, old, sym (ap (λ k. count k s.received) same) ∙ new))
      | inr isnt ↦ isnt
    ]

    orphan_rank-after :
        (m x : ℕ)
        → count x (set_at m after.orphans) ≡ true
        → (count x after.received ≡ true)
          × (count m after.received ≡ true → rank-after x < rank-after m)
    orphan_rank-after m x e = elim (Bool-cases (x == h && count m own)) [
      | inl own_wait ↦ (
        ground (arith, received-after x, own_wait),
        λ m_received. absurd (
            ground (
              arith,
              own_wait,
              own_lem m,
              lookup-put m h tt s.received,
              received-after m,
              m_received,
            )),
      )
      | inr not_own ↦
          let old = r.orphan_rank m x (ground (arith, orphans-after m x, not_own, e)) in
          (
            ground (arith, received-after x, old.0),
            λ m_received. elim (Bool-cases (count h s.received)) [
              | inl known ↦ ground (arith, known, old.1 (received_before m known m_received))
              | inr new ↦
                  let other = before_new x old.0 new in
                  elim (Bool-cases (m == h)) [
                    | inl is ↦ ground (arith, new, is, other, r.rank_below x old.0)
                    | inr isnt ↦
                        let m_old : count m s.received ≡ true =
                          ground (arith, received-after m, isnt, m_received) in
                        ground (arith, isnt, other, old.1 m_old)
                  ]
            ],
          )
    ]

    pub still_empty :
        (x : ℕ)
        → count x s.received ≡ true
        → is_empty (set_at x s.missing_dependencies) ≡ true
        → is_empty (set_at x after.missing_dependencies) ≡ true
    still_empty x known e = count-is_empty (set_at x after.missing_dependencies) (λ d.
        missing-after x d (ground (arith, received-after x, known))
        ∙ ground (
          arith,
          sym (r.missing x d known) ∙ is_empty-count (set_at x s.missing_dependencies) d e,
          received-after d,
        ))

    pub freed-after_own :
        (x : ℕ)
        → count x (set_at h after.new_non_orphans)
          ≡ (count x (set_at h after.orphans) && is_empty (erase h (before_removal x)))
    unfolding register_incoming_message register_as_orphan_if_appropriate record_new_non_orphans
        lookup
    freed-after_own x =
        ap (λ set. count x set)
          (set_at-put h h
              (remove_from_each h (set_at h after.orphans) [] (put h own s.missing_dependencies)).0
              s.new_non_orphans
            ∙ ground arith)
        ∙ recorded_lem h (set_at h after.orphans) [] (put h own s.missing_dependencies) x
        ∙ ap (λ set. count x (set_at h after.orphans) && is_empty (erase h set))
            (set_at-put x h own s.missing_dependencies)

    freed-after_other :
        (m : ℕ) → (m == h) ≡ false → set_at m after.new_non_orphans ≡ set_at m s.new_non_orphans
    unfolding register_incoming_message register_as_orphan_if_appropriate record_new_non_orphans
    freed-after_other m isnt =
        set_at-put m h
          (remove_from_each h (set_at h after.orphans) [] (put h own s.missing_dependencies)).0
          s.new_non_orphans
        ∙ rw isnt refl

    freed-after :
        (m x : ℕ)
        → count x (set_at m after.new_non_orphans) ≡ true
        → (count x (set_at m after.orphans) ≡ true)
          × (count m after.received ≡ true)
          × (is_empty (set_at x after.missing_dependencies) ≡ true)
    freed-after m x e = elim (Bool-cases (m == h)) [
      | inl is ↦
          let same : m ≡ h = ground (arith, is) in
          let now =
            sym (freed-after_own x)
            ∙ ap (λ k. count x (set_at k after.new_non_orphans)) (sym same)
            ∙ e in
          let waits : count x (set_at h after.orphans) ≡ true = ground (arith, now) in
          (
            ap (λ k. count x (set_at k after.orphans)) same ∙ waits,
            ground (arith, received-after m, is),
            ap is_empty (missing-after_set x)
                ∙ ap (λ b. is_empty (if b then erase h (before_removal x) else before_removal x))
                    waits
                ∙ ground (arith, now),
          )
      | inr isnt ↦
          let old = r.freed m x (sym (ap (λ set. count x set) (freed-after_other m isnt)) ∙ e) in
          (
            ground (arith, orphans-after m x, old.0),
            ground (arith, received-after m, old.1),
            still_empty x (r.orphan_rank m x old.0).0 old.2,
          )
    ]

  pub register-IsRegistered :
      (n h : ℕ) (s : MsgStore)
      → IsRegistered n s
      → IsRegistered (n + 1) (register_incoming_message dependencies h s)
  register-IsRegistered n h s r = record {
    rank = rank-after n h s r;
    rank_below = λ x e. elim (Bool-cases (count x s.received)) [
      | inl known ↦ ground (arith, r.rank_below x known)
      | inr new ↦ ground (arith, received-after n h s r x, e, new)
    ];
    orphan_rank = orphan_rank-after n h s r;
    missing = missing-after n h s r;
    linked = linked-after n h s r;
    freed = freed-after n h s r;
  }
