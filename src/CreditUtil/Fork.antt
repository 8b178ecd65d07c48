-- ===== src/CreditUtil/Fork.antt =====
-- Where GetFork finds the fork of two chains of credits.
use flex.Common.{
  ℕ, zero, suc, ◌+◌, ◌-◌, ◌≤◌, ◌<◌, ◌≡◌, ◌≢◌, sym, ap, ◌∙◌, false, ◌&&◌, some, [], arith, ◌==◌,
  if◌then◌else◌, ◌⊎◌, inl, inr, Bool-cases,
}
use flex.StdMap.{Set, lookup}
use flex.CreditUtil.{History, fork_loop, get_fork}
use flex.CreditUtil.Ancestors.{IsHistory, before, before-ne, before-falls, before-add}
use flex.CreditUtil.Rounds.{
  IsFork, Seen, next_seen, next-Seen, round_steps, at_roots, round_on, round_end,
}
use flex.CreditUtil.Found.{miss, first_finds, second_finds}

compare_cases : (a b : ℕ) → (a < b) ⊎ ((b < a) ⊎ (a ≡ b))
compare_cases a b = ground arith

module _ (history : History) where
  module _ (h : IsHistory history) where
    pos_of :
        (fuel i s1 s2 : ℕ)
        → (before history (suc i) s1 == 0 && before history (suc i) s2 == 0) ≡ false
        → history.batch_number s1 < i + suc fuel
        → history.batch_number s2 < i + suc fuel
        → 0 < fuel
    pos_of fuel i s1 s2 going b1 b2 = elim (Bool-cases (before history (suc i) s1 == 0)) [
      | inr nz ↦ omega (arith, b1, before-falls history h (suc i) s1 (λ e. ground (arith, nz, e)))
      | inl z ↦
          omega (arith, b2, before-falls history h (suc i) s2 (λ e. ground (arith, z, going, e)))
    ]

    module _ (s1 s2 : ℕ)
        (apart : (i : ℕ)
          → before history (suc i) s1 ≢ 0
          → (j : ℕ) → j < suc i
          → before history (suc i) s1 ≢ before history j s2)
        (apart' : (i : ℕ)
          → before history (suc i) s2 ≢ 0
          → (j : ℕ) → j < suc i
          → before history (suc i) s2 ≢ before history j s1) where
      -- Where no hash of a chain stands nearer on the other one, the loop ends at the roots.
      finds_nothing :
          (fuel i : ℕ) (seen : Set) (steps : ℕ)
          → Seen history s1 s2 i seen
          → 0 < fuel
          → history.batch_number s1 < i + fuel
          → history.batch_number s2 < i + fuel
          → (steps' : ℕ) × (fork_loop history fuel
                (before history i s1)
                (before history i s2)
                seen
                steps
              ≡ some (0, steps'))
      finds_nothing zero i seen steps s pos b1 b2 = absurd (omega arith)
      finds_nothing (suc fuel) i seen steps s pos b1 b2 =
          let s' = next-Seen history s1 s2 i seen s in
          let seen' = next_seen history s1 s2 i seen in
          elim (Bool-cases
            (at_roots history fuel (before history i s1) (before history i s2) seen steps)) [
              | inl roots ↦ (
                steps,
                round_end history fuel (before history i s1) (before history i s2) seen steps roots,
              )
              | inr going ↦
                  let steps' =
                    round_steps history fuel (before history i s1) (before history i s2) seen
                      steps in
                  let (last, found) =
                    finds_nothing fuel (suc i) seen' steps' s' (pos_of fuel i s1 s2 going b1 b2)
                      (omega (arith, b1)) (omega (arith, b2)) in
                  (
                    last,
                    round_on history fuel (before history i s1) (before history i s2) seen steps
                          going
                          (elim (Bool-cases (before history (suc i) s1 == 0)) [
                            | inl z ↦ rw z
                            | inr nz ↦
                                let n : before history (suc i) s1 ≢ 0 =
                                  λ e. ground (arith, nz, e) in
                                rw nz (
                                  miss history h s1 s2 (suc i) seen' (λ x. s'.only x) n (apart i n))
                          ])
                          (elim (Bool-cases (before history (suc i) s2 == 0)) [
                            | inl z ↦ rw z
                            | inr nz ↦
                                let n : before history (suc i) s2 ≢ 0 =
                                  λ e. ground (arith, nz, e) in
                                rw nz (
                                  miss history h s2 s1 (suc i) seen'
                                    (λ x c.
                                      let (j, lt, e) = s'.only x c in
                                      (j, lt, elim e [ inl p ↦ inr p | inr p ↦ inl p ]))
                                    n (apart' i n))
                          ])
                        ∙ found,
                  )
            ]

    module _ (s1 s2 a b : ℕ) (f : IsFork history s1 s2 a b) (level : a ≡ b) where
      -- From the fork on the two chains are one.
      meet_level : (i : ℕ) → a ≤ i → before history i s1 ≡ before history i s2
      meet_level i le =
          let first : i - a + a ≡ i = omega (arith, le) in
          let second : i - a + b ≡ i = omega (arith, le, level) in
          ap (λ k. before history k s1) (sym first)
          ∙ sym (before-add history (i - a) a s1)
          ∙ ap (before history (i - a)) f.meet
          ∙ before-add history (i - a) b s2
          ∙ ap (λ k. before history k s2) second

      level_apart :
          (i : ℕ)
          → before history (suc i) s1 ≢ 0
          → (j : ℕ) → j < suc i
          → before history (suc i) s1 ≢ before history j s2
      level_apart i n j lt e =
          let (p, q) = f.latest (suc i) j e n in
          let same = meet_level (suc i) p in
          before-ne history h j (suc i) s2 lt (λ z. n (same ∙ z)) (sym same ∙ e)

      level_apart' :
          (i : ℕ)
          → before history (suc i) s2 ≢ 0
          → (j : ℕ) → j < suc i
          → before history (suc i) s2 ≢ before history j s1
      level_apart' i n j lt e =
          let (p, q) = f.latest j (suc i) (sym e) (λ z. n (e ∙ z)) in
          let same = meet_level (suc i) (omega (arith, q, level)) in
          before-ne history h j (suc i) s1 lt (λ z. n (sym same ∙ z)) (same ∙ e)

    nothing_Seen : (s1 s2 : ℕ) → Seen history s1 s2 0 []
    unfolding lookup
    nothing_Seen s1 s2 = record {
      only = λ x c. absurd (cc);
      first = λ j lt n. absurd (omega (arith, lt));
      second = λ j lt n. absurd (omega (arith, lt));
    }

    -- Two different hashes have a latest common credit, `a` steps before the first and `b` steps before
    -- the second, and the fuel is more than both batch numbers. GetFork then ends, and returns the hash
    -- of that credit if `a` and `b` differ. If they are equal it returns 0, as if there were none.
    pub get_fork-IsFork :
        (fuel s1 s2 a b : ℕ)
        → s1 ≢ s2
        → history.batch_number s1 < fuel
        → history.batch_number s2 < fuel
        → IsFork history s1 s2 a b
        → (steps : ℕ) × (get_fork history fuel s1 s2
            ≡ some (if a == b then 0 else before history a s1, steps))
    unfolding get_fork
    get_fork-IsFork fuel s1 s2 a b ne b1 b2 f =
        let differ : (s1 == s2) ≡ false = elim (Bool-cases (s1 == s2)) [
          | inl e ↦ absurd (ne (ground (arith, e)))
          | inr n ↦ n
        ] in
        let start = nothing_Seen s1 s2 in
        let a_le : a ≤ fuel = omega (arith, b1, before-falls history h a s1 f.real) in
        let b_le : b ≤ fuel =
          omega (arith, b2, before-falls history h b s2 (λ z. f.real (f.meet ∙ z))) in
        rw differ (elim (compare_cases a b) [
          | inl less ↦
              let (steps, found) =
                second_finds history h s1 s2 a b f fuel 0 [] 0 start less (omega arith)
                  (omega (arith, b_le)) in
              (steps, found ∙ ground (arith, less))
          | inr (inl more) ↦
              let (steps, found) =
                first_finds history h s1 s2 a b f fuel 0 [] 0 start more (omega arith)
                  (omega (arith, a_le)) in
              (steps, found ∙ ground (arith, more))
          | inr (inr level) ↦
              let (steps, found) =
                finds_nothing s1 s2 (level_apart s1 s2 a b f level) (level_apart' s1 s2 a b f level)
                  fuel 0 [] 0 start (omega (arith, b1)) (omega (arith, b1)) (omega (arith, b2)) in
              (steps, found ∙ ground (arith, level))
        ])
