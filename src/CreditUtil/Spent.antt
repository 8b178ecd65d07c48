-- ===== src/CreditUtil/Spent.antt =====
-- The positions that a chain of credits spends, and what ChangeSpentChain makes of them.
use flex.Common.{
  ℕ, zero, suc, ◌+◌, ◌≤◌, ◌<◌, ◌≡◌, refl, sym, ap, ◌∙◌, some, List, [], ◌∷◌, ◌++◌, arith, ltb, ◌==◌,
  ◌⊎◌, inl, inr, Bool-cases, ==_refl,
}
use flex.BitChain.Changed.{among}
use flex.CreditUtil.{
  History, get_bits_set_in_batch, previous_credit_hash, get_fork, look_back, cancel,
  get_spent_chain_differences,
}
use flex.CreditUtil.Ancestors.{IsHistory, before, before_previous}
use flex.CreditUtil.Cancel.{occurrences, occurrences-append, cancel-balance, cancel-disjoint}

pub among-occurrences : (q : ℕ) (xs : List ℕ) → among q xs ≡ ltb 0 (occurrences q xs)
among-occurrences q [] = refl
among-occurrences q (x ∷ xs) = ground (arith, among-occurrences q xs)

module _ (history : History) (h : IsHistory history) where
  -- How often a credit and the `n` credits before it spend a position.
  abbrev spent_within : ℕ → ℕ → ℕ → ℕ
  spent_within q zero hash = 0
  spent_within q (suc n) hash =
      occurrences q (get_bits_set_in_batch history hash) + spent_within q n (history.previous hash)

  -- How often the chain of credits that ends with a credit spends a position.
  abbrev pub times_spent : ℕ → ℕ → ℕ
  times_spent q hash = spent_within q (suc (history.batch_number hash)) hash

  spent_root : (q n : ℕ) → spent_within q n 0 ≡ 0
  spent_root q zero = refl
  spent_root q (suc n) = rw (h.nothing_spent, h.root) (omega (arith, spent_root q n))

  spent_within_stable :
      (q n m hash : ℕ)
      → history.batch_number hash < n
      → history.batch_number hash < m
      → spent_within q n hash ≡ spent_within q m hash
  spent_within_stable q zero m hash p r = absurd (omega arith)
  spent_within_stable q (suc n) zero hash p r = absurd (omega arith)
  spent_within_stable q (suc n) (suc m) hash p r =
      ap (λ k. occurrences q (get_bits_set_in_batch history hash) + k)
        (elim (Bool-cases (history.previous hash == 0)) [
          | inl z ↦
              let e : history.previous hash ≡ 0 = ground (arith, z) in
              ap (spent_within q n) e
              ∙ spent_root q n
              ∙ sym (ap (spent_within q m) e ∙ spent_root q m)
          | inr nz ↦
              let less = h.rising hash (λ e. ground (arith, nz, e)) in
              spent_within_stable q n m (history.previous hash) (omega (arith, less, p))
                (omega (arith, less, r))
        ])

  times_spent_step :
      (q hash : ℕ)
      → times_spent q hash
        ≡ occurrences q (get_bits_set_in_batch history hash) + times_spent q (history.previous hash)
  times_spent_step q hash =
      ap (λ k. occurrences q (get_bits_set_in_batch history hash) + k)
        (elim (Bool-cases (history.previous hash == 0)) [
          | inl z ↦
              let e : history.previous hash ≡ 0 = ground (arith, z) in
              ap (spent_within q (history.batch_number hash)) e
              ∙ spent_root q (history.batch_number hash)
              ∙ sym (spent_root q (suc (history.batch_number 0)))
              ∙ sym (ap (times_spent q) e)
          | inr nz ↦
              spent_within_stable q (history.batch_number hash)
                (suc (history.batch_number (history.previous hash))) (history.previous hash)
                (h.rising hash (λ e. ground (arith, nz, e))) (omega arith)
        ])

  -- A loop back to the fork collects what is spent after it.
  look_back-collects :
      (d rounds hash fork : ℕ) (bits : List ℕ)
      → before history d hash ≡ fork
      → d ≤ rounds
      → (found : List ℕ) × (left : ℕ) × (look_back history rounds hash fork bits
          ≡ some (found, left))
        × (rounds ≤ left + d)
        × ((q : ℕ)
            → occurrences q found + times_spent q fork ≡ occurrences q bits + times_spent q hash)
  unfolding look_back previous_credit_hash
  look_back-collects zero zero hash fork bits e le =
      (bits, 0, rw (e, ==_refl fork) refl, omega arith, λ q. rw e refl)
  look_back-collects zero (suc rounds) hash fork bits e le =
      (bits, suc rounds, rw (e, ==_refl fork) refl, omega arith, λ q. rw e refl)
  look_back-collects (suc d) zero hash fork bits e le = absurd (omega arith)
  look_back-collects (suc d) (suc rounds) hash fork bits e le = elim (Bool-cases (hash == fork)) [
    | inl there ↦
        let same : hash ≡ fork = ground (arith, there) in
        (bits, suc rounds, rw there refl, omega arith, λ q. rw same refl)
    | inr away ↦
        let (found, left, ok, rounds_le, counts) =
          look_back-collects d rounds (history.previous hash) fork
            (bits ++ get_bits_set_in_batch history hash) (before_previous history d hash ∙ e)
            (omega arith) in
        (
          found,
          left,
          rw away ok,
          omega (arith, rounds_le),
          λ q. omega (
            arith,
            counts q,
            times_spent_step q hash,
            occurrences-append q bits (get_bits_set_in_batch history hash),
          ),
        )
  ]

  differences_step :
      (fuel start target fork steps rounds left : ℕ) (to_set to_clear : List ℕ)
      → get_fork history fuel start target ≡ some (fork, steps)
      → look_back history 300 target fork [] ≡ some (to_set, rounds)
      → look_back history rounds start fork [] ≡ some (to_clear, left)
      → get_spent_chain_differences history fuel start target ≡ some (cancel to_set to_clear)
  unfolding get_spent_chain_differences
  differences_step fuel start target fork steps rounds left to_set to_clear found ok2 ok1 =
      rw (found, get_spent_chain_differences)
        (rw (ok2, get_spent_chain_differences) (rw (ok1, get_spent_chain_differences) refl))

  module _ (fuel start target fork steps d1 d2 : ℕ)
      (found : get_fork history fuel start target ≡ some (fork, steps))
      (from_start : before history d1 start ≡ fork) (from_target : before history d2 target ≡ fork)
      (near : d1 + d2 ≤ 300) where
    -- Within 300 credits the differences are found, and what is to be set is spent in the chain of the
    -- target alone, what is to be cleared in the chain of the start alone.
    pub differences_balance :
        (to_set : List ℕ) × (to_clear : List ℕ) × (get_spent_chain_differences history fuel start
            target
          ≡ some (to_set, to_clear))
        × ((q : ℕ)
            → occurrences q to_set + times_spent q start
              ≡ occurrences q to_clear + times_spent q target)
        × ((q : ℕ) → (occurrences q to_set ≡ 0) ⊎ (occurrences q to_clear ≡ 0))
    differences_balance =
        let (to_set, rounds, ok2, enough, counts2) =
          look_back-collects d2 300 target fork [] from_target (omega (arith, near)) in
        let (to_clear, left, ok1, rest, counts1) =
          look_back-collects d1 rounds start fork [] from_start (omega (arith, near, enough)) in
        (
          (cancel to_set to_clear).0,
          (cancel to_set to_clear).1,
          differences_step fuel start target fork steps rounds left to_set to_clear found ok2 ok1,
          λ q. omega (arith, cancel-balance q to_set to_clear, counts1 q, counts2 q),
          λ q. cancel-disjoint q to_set to_clear,
        )
