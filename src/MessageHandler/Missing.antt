-- ===== src/MessageHandler/Missing.antt =====
-- What registering a message does to the missing dependencies and to the orphans.
use flex.Common.{
  ℕ, ◌≡◌, refl, ◌∙◌, Bool, true, false, not, ◌&&◌, ◌||◌, List, [], ◌∷◌, arith, ◌==◌, if◌then◌else◌,
  length, nat_eq, Bool-cases, inl, inr,
}
use flex.StdMap.{Map, Set, lookup, put, erase, count, insert}
use flex.StdMap.Laws.{lookup-put, lookup-erase, erase_absent}
use flex.VectorTools.{vector_contains_entry}
use flex.MessageHandler.{set_at, missing_among, add_to_orphans, add_to_each, remove_from_each}

-- A dependency that a message waits for.
abbrev pub is_missing : List ℕ → Set → ℕ → Bool
is_missing dependencies received d =
    vector_contains_entry dependencies d && (not (d == 0) && not (count d received))

pub missing_among_lem :
    (dependencies : List ℕ) (received missing : Set) (d : ℕ)
    → count d (missing_among dependencies received missing)
      ≡ (is_missing dependencies received d || count d missing)
unfolding missing_among vector_contains_entry
missing_among_lem [] received missing d = refl
missing_among_lem (x ∷ dependencies) received missing d =
    let is_new = not (x == 0) && not (count x received) in
    missing_among_lem dependencies received (if is_new then insert x missing else missing) d
    ∙ elim (Bool-cases (x == d)) [
      | inl is ↦
          let same : x ≡ d = ground (arith, is) in
          rw same (elim (Bool-cases (not (d == 0) && not (count d received))) [
            | inl new ↦ rw new (ground (arith, lookup-put d d tt missing))
            | inr old ↦ rw old (ground arith)
          ])
      | inr isnt ↦ elim (Bool-cases is_new) [
        | inl new ↦ rw (new, isnt) (ground (arith, isnt, lookup-put d x tt missing))
        | inr old ↦ rw (old, isnt) (ground (arith, isnt))
      ]
    ]

-- A set in a map after one is written.
pub set_at-put :
    (h k : ℕ) (set : Set) (sets : Map Set)
    → set_at h (put k set sets) ≡ (if h == k then set else set_at h sets)
set_at-put h k set sets = rw lookup-put (ground arith)

pub add_to_each_lem :
    (orphan : ℕ) (missing : Set) (orphans : Map Set) (d x : ℕ)
    → count x (set_at d (add_to_each orphan missing orphans))
      ≡ ((x == orphan && count d missing) || count x (set_at d orphans))
unfolding add_to_each add_to_orphans lookup
add_to_each_lem orphan [] orphans d x = ground arith
add_to_each_lem orphan ((k, u) ∷ missing) orphans d x =
    add_to_each_lem orphan missing (add_to_orphans orphan k orphans) d x
    ∙ rw (set_at-put d k (insert orphan (set_at k orphans)) orphans) (elim (Bool-cases (d == k)) [
      | inl is ↦
          let same : k ≡ d = ground (arith, is) in
          rw (is, same) (ground (arith, is, lookup-put x orphan tt (set_at d orphans)))
      | inr isnt ↦ rw isnt (ground (arith, isnt))
    ])

erase-erase : (k : ℕ) (set : Set) → erase k (erase k set) ≡ erase k set
erase-erase k set = erase_absent k (erase k set) (lookup-erase k k set ∙ ground arith)

-- The hash is erased from the sets of the orphans.
pub removed_lem :
    (hash : ℕ) (orphans new : Set) (missing : Map Set) (x : ℕ)
    → set_at x (remove_from_each hash orphans new missing).1
      ≡ (if count x orphans then erase hash (set_at x missing) else set_at x missing)
unfolding remove_from_each lookup
removed_lem hash [] new missing x = refl
removed_lem hash ((o, u) ∷ orphans) new missing x =
    let left = erase hash (set_at o missing) in
    removed_lem hash orphans (if length left == 0 then insert o new else new) (put o left missing) x
    ∙ rw (set_at-put x o left missing) (elim (Bool-cases (x == o)) [
      | inl is ↦
          let same : o ≡ x = ground (arith, is) in
          rw (is, same)
            (elim (Bool-cases (count x orphans)) [
              | inl again ↦ rw again (erase-erase hash (set_at x missing))
              | inr once ↦ rw once refl
            ])
      | inr isnt ↦ rw isnt refl
    ])

abbrev pub is_empty : Set → Bool
is_empty set = length set == 0

-- The hashes that are recorded are those of orphans for which nothing is missing any more.
pub recorded_lem :
    (hash : ℕ) (orphans new : Set) (missing : Map Set) (x : ℕ)
    → count x (remove_from_each hash orphans new missing).0
      ≡ (count x new || (count x orphans && is_empty (erase hash (set_at x missing))))
unfolding remove_from_each lookup
recorded_lem hash [] new missing x = ground arith
recorded_lem hash ((o, u) ∷ orphans) new missing x =
    let left = erase hash (set_at o missing) in
    recorded_lem hash orphans (if length left == 0 then insert o new else new) (put o left missing)
      x
    ∙ rw (set_at-put x o left missing) (elim (Bool-cases (x == o)) [
      | inl is ↦
          let same : o ≡ x = ground (arith, is) in
          rw (is, same)
            (rw (erase-erase hash (set_at x missing))
              (elim (Bool-cases (is_empty (erase hash (set_at x missing)))) [
                | inl empty ↦ rw empty (ground (arith, lookup-put x x tt new))
                | inr full ↦ rw full (ground arith)
              ]))
      | inr isnt ↦ rw isnt (elim (Bool-cases (is_empty left)) [
        | inl empty ↦ rw empty (ground (arith, isnt, lookup-put x o tt new))
        | inr full ↦ rw full refl
      ])
    ])

pub is_empty-count : (set : Set) (d : ℕ) → is_empty set ≡ true → count d set ≡ false
unfolding lookup
is_empty-count [] d e = refl
is_empty-count ((k, u) ∷ set) d e = absurd (ground (arith, e))

pub count-is_empty : (set : Set) → ((d : ℕ) → count d set ≡ false) → is_empty set ≡ true
unfolding lookup
count-is_empty [] none_there = refl
count-is_empty ((k, u) ∷ set) none_there = absurd (ground (arith, none_there k))
