-- ===== src/CreditUtil/Rounds.antt =====
-- A round of the loop of GetFork, and the hashes that it has seen.
use flex.Common.{
  ℕ, suc, ◌+◌, ◌%◌, ◌≤◌, ◌<◌, ◌≡◌, ◌≢◌, refl, ap, ◌∙◌, Bool, true, false, not, ◌&&◌, ◌||◌, some,
  arith, ltb, ◌==◌, if◌then◌else◌, ◌⊎◌, inl, inr, Bool-cases,
}
use flex.StdMap.{Set, count}
use flex.StdMap.Laws.{lookup-put}
use flex.RelayState.Platform.{u32_mod}
use flex.CreditUtil.{History, insert_nonzero, fork_loop}
use flex.CreditUtil.Ancestors.{before}

pub count-insert_nonzero :
    (x hash : ℕ) (seen : Set)
    → count x (insert_nonzero hash seen) ≡ ((x == hash && ltb 0 hash) || count x seen)
count-insert_nonzero x hash seen = ground (arith, lookup-put x hash tt seen)

-- One round of the loop of GetFork, by what it finds.
module _ (history : History) (fuel hash1 hash2 : ℕ) (seen : Set) (steps : ℕ) where
  abbrev pub round_steps : ℕ
  round_steps = if history.previous hash1 == 0 then steps else (steps + 1) % u32_mod

  abbrev pub found_in : ℕ → Bool
  found_in hash = not (hash == 0) && count hash (insert_nonzero hash2 (insert_nonzero hash1 seen))

  abbrev pub at_roots : Bool
  at_roots = history.previous hash1 == 0 && history.previous hash2 == 0

  pub round_first :
      at_roots ≡ false
      → found_in (history.previous hash1) ≡ true
      → fork_loop history (suc fuel) hash1 hash2 seen steps
        ≡ some (history.previous hash1, round_steps)
  unfolding fork_loop
  round_first r f = rw (r, f) refl

  pub round_second :
      at_roots ≡ false
      → found_in (history.previous hash1) ≡ false
      → found_in (history.previous hash2) ≡ true
      → fork_loop history (suc fuel) hash1 hash2 seen steps
        ≡ some (history.previous hash2, round_steps)
  unfolding fork_loop
  round_second r f g = rw (r, f, g) refl

  pub round_on :
      at_roots ≡ false
      → found_in (history.previous hash1) ≡ false
      → found_in (history.previous hash2) ≡ false
      → fork_loop history (suc fuel) hash1 hash2 seen steps
        ≡ fork_loop history fuel
            (history.previous hash1)
            (history.previous hash2)
            (insert_nonzero hash2 (insert_nonzero hash1 seen))
            round_steps
  unfolding fork_loop
  round_on r f g = rw (r, f, g) refl

  pub round_end :
      at_roots ≡ true → fork_loop history (suc fuel) hash1 hash2 seen steps ≡ some (0, steps)
  unfolding fork_loop
  round_end r = rw r refl

module _ (history : History) where
  -- The latest common credit stands `a` steps before the first hash and `b` before the second.
  pub record IsFork (s1 s2 a b : ℕ) : Type 0 where
    pub meet : before history a s1 ≡ before history b s2
    pub real : before history a s1 ≢ 0
    pub latest :
        (j k : ℕ)
        → before history j s1 ≡ before history k s2
        → before history j s1 ≢ 0
        → (a ≤ j) × (b ≤ k)

  module _ (s1 s2 : ℕ) where
    -- The hashes that the first i rounds have seen.
    pub record Seen (i : ℕ) (seen : Set) : Type 0 where
      pub only :
          (x : ℕ)
          → count x seen ≡ true
          → (j : ℕ) × (j < i) × ((x ≡ before history j s1) ⊎ (x ≡ before history j s2))
      pub first :
          (j : ℕ) → j < i → before history j s1 ≢ 0 → count (before history j s1) seen ≡ true
      pub second :
          (j : ℕ) → j < i → before history j s2 ≢ 0 → count (before history j s2) seen ≡ true

    abbrev pub next_seen : ℕ → Set → Set
    next_seen i seen =
        insert_nonzero (before history i s2) (insert_nonzero (before history i s1) seen)

    count-next :
        (x i : ℕ) (seen : Set)
        → count x (next_seen i seen) ≡ (
            (x == before history i s2 && ltb 0 (before history i s2))
            || ((x == before history i s1 && ltb 0 (before history i s1)) || count x seen))
    count-next x i seen =
        count-insert_nonzero x (before history i s2) (insert_nonzero (before history i s1) seen)
        ∙ ap (λ b. (x == before history i s2 && ltb 0 (before history i s2)) || b)
            (count-insert_nonzero x (before history i s1) seen)

    next_only :
        (i : ℕ) (seen : Set) (x : ℕ)
        → Seen i seen
        → count x (next_seen i seen) ≡ true
        → (j : ℕ) × (j < suc i) × ((x ≡ before history j s1) ⊎ (x ≡ before history j s2))
    next_only i seen x s h = elim (Bool-cases (x == before history i s1)) [
      | inl e ↦ (i, omega arith, inl (ground (arith, e)))
      | inr ne1 ↦ elim (Bool-cases (x == before history i s2)) [
        | inl e ↦ (i, omega arith, inr (ground (arith, e)))
        | inr ne2 ↦
            let (j, lt, e) = s.only x (ground (arith, h, count-next x i seen, ne1, ne2)) in
            (j, omega (arith, lt), e)
      ]
    ]

    next_first :
        (i : ℕ) (seen : Set) (j : ℕ)
        → Seen i seen
        → j < suc i
        → before history j s1 ≢ 0
        → count (before history j s1) (next_seen i seen) ≡ true
    next_first i seen j s lt n = elim (Bool-cases (j == i)) [
      | inl e ↦
          let same : before history j s1 ≡ before history i s1 =
            ap (λ k. before history k s1) (ground (arith, e)) in
          ground (arith, count-next (before history j s1) i seen, same, n)
      | inr ne ↦
          ground
            (arith, count-next (before history j s1) i seen, s.first j (ground (arith, ne, lt)) n)
    ]

    next_second :
        (i : ℕ) (seen : Set) (j : ℕ)
        → Seen i seen
        → j < suc i
        → before history j s2 ≢ 0
        → count (before history j s2) (next_seen i seen) ≡ true
    next_second i seen j s lt n = elim (Bool-cases (j == i)) [
      | inl e ↦
          let same : before history j s2 ≡ before history i s2 =
            ap (λ k. before history k s2) (ground (arith, e)) in
          ground (arith, count-next (before history j s2) i seen, same, n)
      | inr ne ↦
          ground
            (arith, count-next (before history j s2) i seen, s.second j (ground (arith, ne, lt)) n)
    ]

    pub next-Seen : (i : ℕ) (seen : Set) → Seen i seen → Seen (suc i) (next_seen i seen)
    next-Seen i seen s = record {
      only = λ x h. next_only i seen x s h;
      first = λ j lt n. next_first i seen j s lt n;
      second = λ j lt n. next_second i seen j s lt n;
    }
