-- ===== src/CreditUtil/Found.antt =====
-- The rounds of GetFork in which the fork is found or missed.
use flex.Common.{
  ℕ, zero, suc, ◌+◌, ◌-◌, ◌≤◌, ◌<◌, ◌≡◌, ◌≢◌, sym, ap, ◌∙◌, true, false, not, ◌&&◌, some, arith,
  ◌==◌, ◌⊎◌, inl, inr, Bool-cases,
}
use flex.StdMap.{Set, count}
use flex.CreditUtil.{History, fork_loop}
use flex.CreditUtil.Ancestors.{IsHistory, before, before-ne, before_root, before-add}
use flex.CreditUtil.Rounds.{
  IsFork, Seen, next_seen, next-Seen, round_steps, at_roots, round_first, round_second, round_on,
}

module _ (history : History) where
  module _ (h : IsHistory history) where
    -- A hash that no earlier round of its own chain has is new, unless the other chain has it.
    pub miss :
        (s t i : ℕ) (seen : Set)
        → ((x : ℕ)
            → count x seen ≡ true
            → (j : ℕ) × (j < i) × ((x ≡ before history j s) ⊎ (x ≡ before history j t)))
        → before history i s ≢ 0
        → ((j : ℕ) → j < i → before history i s ≢ before history j t)
        → count (before history i s) seen ≡ false
    miss s t i seen only n other = elim (Bool-cases (count (before history i s) seen)) [
      | inr new ↦ new
      | inl old ↦
          let (j, lt, e) = only (before history i s) old in
          absurd
            (elim e [ inl own ↦ before-ne history h j i s lt n own | inr met ↦ other j lt met ])
    ]

    before_nonzero : (j i s : ℕ) → j ≤ i → before history i s ≢ 0 → before history j s ≢ 0
    before_nonzero j i s le n e =
        let back : i - j + j ≡ i = omega (arith, le) in
        n (
          ap (λ k. before history k s) (sym back)
          ∙ sym (before-add history (i - j) j s)
          ∙ ap (before history (i - j)) e
          ∙ before_root history h (i - j))

    module _ (s1 s2 a b : ℕ) (f : IsFork history s1 s2 a b) where
      other :
          (x : ℕ) (i : ℕ) (seen : Set)
          → Seen history s1 s2 i seen
          → count x seen ≡ true
          → (j : ℕ) × (j < i) × ((x ≡ before history j s2) ⊎ (x ≡ before history j s1))
      other x i seen s c =
          let (j, lt, e) = s.only x c in (j, lt, elim e [ inl p ↦ inr p | inr p ↦ inl p ])

      -- Before either chain reaches the fork, no round finds anything.
      miss_first :
          (i : ℕ) (seen : Set)
          → Seen history s1 s2 (suc i) seen
          → ((i + 1 < a) ⊎ (i < b))
          → (not (before history (suc i) s1 == 0) && count (before history (suc i) s1) seen) ≡ false
      miss_first i seen s early = elim (Bool-cases (before history (suc i) s1 == 0)) [
        | inl z ↦ rw z
        | inr nz ↦
            let n : before history (suc i) s1 ≢ 0 = λ e. ground (arith, nz, e) in
            rw nz (
              miss s1 s2 (suc i) seen (λ x. s.only x) n
                λ j lt e. let (p, q) = f.latest (suc i) j e n in omega (arith, early, p, q, lt))
      ]

      miss_second :
          (i : ℕ) (seen : Set)
          → Seen history s1 s2 (suc i) seen
          → ((i < a) ⊎ (i + 1 < b))
          → (not (before history (suc i) s2 == 0) && count (before history (suc i) s2) seen) ≡ false
      miss_second i seen s early = elim (Bool-cases (before history (suc i) s2 == 0)) [
        | inl z ↦ rw z
        | inr nz ↦
            let n : before history (suc i) s2 ≢ 0 = λ e. ground (arith, nz, e) in
            rw nz (
              miss s2 s1 (suc i) seen (λ x c. other x (suc i) seen s c) n
                λ j lt e.
                  let (p, q) = f.latest j (suc i) (sym e) (λ z. n (e ∙ z)) in
                  omega (arith, early, p, q, lt))
      ]

      at_first : (i : ℕ) → i ≡ a → before history i s1 ≡ before history a s1
      at_first i e = ap (λ k. before history k s1) e

      at_second : (i : ℕ) → i ≡ b → before history i s2 ≡ before history a s1
      at_second i e = ap (λ k. before history k s2) e ∙ sym f.meet

      -- The second chain is at the fork before the first one.
      pub first_finds :
          (fuel i : ℕ) (seen : Set) (steps : ℕ)
          → Seen history s1 s2 i seen
          → b < a
          → i < a
          → a ≤ i + fuel
          → (steps' : ℕ) × (fork_loop history fuel
                (before history i s1)
                (before history i s2)
                seen
                steps
              ≡ some (before history a s1, steps'))
      first_finds zero i seen steps s ba ia af = absurd (omega arith)
      first_finds (suc fuel) i seen steps s ba ia af =
          let s' = next-Seen history s1 s2 i seen s in
          let n : before history (suc i) s1 ≢ 0 =
            before_nonzero (suc i) a s1 (omega arith) f.real in
          let going : at_roots history fuel (before history i s1) (before history i s2) seen steps
              ≡ false =
            ground (arith, n) in
          let steps' =
            round_steps history fuel (before history i s1) (before history i s2) seen steps in
          elim (Bool-cases (suc i == a)) [
            | inl at ↦
                let e = at_first (suc i) (ground (arith, at)) in
                let hit : count (before history (suc i) s1) (next_seen history s1 s2 i seen)
                    ≡ true =
                  rw (e ∙ f.meet)
                    (s'.second b (ground (arith, at, ba)) (λ z. f.real (f.meet ∙ z))) in
                (
                  steps',
                  round_first history fuel (before history i s1) (before history i s2) seen steps
                        going (ground (arith, hit, n))
                      ∙ ap (λ x. some (x, steps')) e,
                )
            | inr early ↦
                let less : suc i < a = ground (arith, early, ia) in
                let (last, found) =
                  first_finds fuel (suc i) (next_seen history s1 s2 i seen) steps' s' ba less
                    (omega (arith, af)) in
                (
                  last,
                  round_on history fuel (before history i s1) (before history i s2) seen steps going
                        (miss_first i (next_seen history s1 s2 i seen) s'
                          (inl (omega (arith, less))))
                        (miss_second i (next_seen history s1 s2 i seen) s'
                          (inl (omega (arith, less))))
                      ∙ found,
                )
          ]

      -- The first chain is at the fork before the second one.
      pub second_finds :
          (fuel i : ℕ) (seen : Set) (steps : ℕ)
          → Seen history s1 s2 i seen
          → a < b
          → i < b
          → b ≤ i + fuel
          → (steps' : ℕ) × (fork_loop history fuel
                (before history i s1)
                (before history i s2)
                seen
                steps
              ≡ some (before history a s1, steps'))
      second_finds zero i seen steps s ab ib bf = absurd (omega arith)
      second_finds (suc fuel) i seen steps s ab ib bf =
          let s' = next-Seen history s1 s2 i seen s in
          let n : before history (suc i) s2 ≢ 0 =
            before_nonzero (suc i) b s2 (omega arith) (λ z. f.real (f.meet ∙ z)) in
          let going : at_roots history fuel (before history i s1) (before history i s2) seen steps
              ≡ false =
            ground (arith, n) in
          let steps' =
            round_steps history fuel (before history i s1) (before history i s2) seen steps in
          elim (Bool-cases (suc i == b)) [
            | inl at ↦
                let e = at_second (suc i) (ground (arith, at)) in
                let hit : count (before history (suc i) s2) (next_seen history s1 s2 i seen)
                    ≡ true =
                  rw e (s'.first a (ground (arith, at, ab)) f.real) in
                (
                  steps',
                  round_second history fuel (before history i s1) (before history i s2) seen steps
                        going
                        (miss_first i (next_seen history s1 s2 i seen) s'
                          (inr (ground (arith, at))))
                        (ground (arith, hit, n))
                      ∙ ap (λ x. some (x, steps')) e,
                )
            | inr early ↦
                let less : suc i < b = ground (arith, early, ib) in
                let (last, found) =
                  second_finds fuel (suc i) (next_seen history s1 s2 i seen) steps' s' ab less
                    (omega (arith, bf)) in
                (
                  last,
                  round_on history fuel (before history i s1) (before history i s2) seen steps going
                        (miss_first i (next_seen history s1 s2 i seen) s'
                          (inr (omega (arith, less))))
                        (miss_second i (next_seen history s1 s2 i seen) s'
                          (inr (omega (arith, less))))
                      ∙ found,
                )
          ]
