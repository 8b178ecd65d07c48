-- ===== src/CreditUtil/Ancestors.antt =====
-- The credits before a credit, and what they spend.
use flex.Common.{
  ℕ, zero, suc, ◌+◌, ◌-◌, ◌≤◌, ◌<◌, ◌≡◌, ◌≢◌, refl, sym, ap, ◌∙◌, [], arith, ◌==◌, inl, inr,
  Bool-cases,
}
use flex.CreditUtil.{History, get_bits_set_in_batch}

-- What the stored chains of credits have: the hash 0 stands for no credit, and a credit has a greater
-- batch number than the one before it.
pub record IsHistory (history : History) : Type 0 where
  pub root : history.previous 0 ≡ 0
  pub nothing_spent : get_bits_set_in_batch history 0 ≡ []
  pub rising :
      (hash : ℕ)
      → history.previous hash ≢ 0
      → history.batch_number (history.previous hash) < history.batch_number hash

module _ (history : History) where
  -- The hash `steps` credits before a credit.
  abbrev pub before : ℕ → ℕ → ℕ
  before zero hash = hash
  before (suc steps) hash = history.previous (before steps hash)

  pub before_previous :
      (steps hash : ℕ) → before steps (history.previous hash) ≡ before (suc steps) hash
  before_previous zero hash = refl
  before_previous (suc steps) hash = ap history.previous (before_previous steps hash)

  pub before-add : (i j hash : ℕ) → before i (before j hash) ≡ before (i + j) hash
  before-add zero j hash = ap (λ k. before k hash) (omega arith)
  before-add (suc i) j hash =
      let e : suc (i + j) ≡ suc i + j = omega arith in
      ap history.previous (before-add i j hash) ∙ ap (λ k. before k hash) e

  module _ (h : IsHistory history) where
    pub before_root : (steps : ℕ) → before steps 0 ≡ 0
    before_root zero = refl
    before_root (suc steps) = ap history.previous (before_root steps) ∙ h.root

    -- Batch numbers fall on the way back.
    pub before-falls :
        (steps hash : ℕ)
        → before steps hash ≢ 0
        → history.batch_number (before steps hash) + steps ≤ history.batch_number hash
    before-falls zero hash n = omega arith
    before-falls (suc steps) hash n = omega (
      arith,
      h.rising (before steps hash) n,
      before-falls steps hash (λ e. n (ap history.previous e ∙ h.root)),
    )

    pub before_end : (steps hash : ℕ) → history.batch_number hash < steps → before steps hash ≡ 0
    before_end steps hash lt = elim (Bool-cases (before steps hash == 0)) [
      | inl e ↦ ground (arith, e)
      | inr ne ↦ absurd (omega (arith, lt, before-falls steps hash (λ e. ground (arith, ne, e))))
    ]

    -- No credit stands before itself.
    pub before-ne : (j i hash : ℕ) → j < i → before i hash ≢ 0 → before i hash ≢ before j hash
    before-ne j i hash lt n e =
        let again : before (i - j) (before j hash) ≡ before i hash =
          before-add (i - j) j hash ∙ ap (λ k. before k hash) (omega arith) in
        let falls = before-falls (i - j) (before j hash) (λ z. n (sym again ∙ z)) in
        let same : history.batch_number (before (i - j) (before j hash))
            ≡ history.batch_number (before j hash) =
          ap history.batch_number (again ∙ e) in
        omega (arith, falls, same, lt)
