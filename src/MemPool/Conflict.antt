-- ===== src/MemPool/Conflict.antt =====
-- When TransactionsConflict finds a common input, and when it reads outside a vector.
use flex.Common.{
  ℕ, zero, suc, ◌+◌, ◌≤◌, ◌<◌, ◌≡◌, ◌≢◌, refl, ap, ◌∙◌, Bool, true, false, ◌||◌, Option, none, some,
  List, [], ◌∷◌, arith, if◌then◌else◌, length, get_elem?, drop, ◌⊎◌, inl, inr, Bool-cases,
  Option-cases, ◌==◌, sym,
}
use flex.Credits.{CreditInBatch}
use flex.CreditUtil.Transactions.{
  SignedTransaction, same_input, conflict_at, conflict_from, transactions_conflict,
}

-- An input is among those of a transaction.
unfoldable pub has_input : CreditInBatch → List CreditInBatch → Bool
has_input b [] = false
has_input b (a ∷ inputs) = same_input a b || has_input b inputs

-- Two transactions have a common input.
unfoldable pub share_input : List CreditInBatch → List CreditInBatch → Bool
share_input inputs1 [] = false
share_input inputs1 (b ∷ inputs2) = has_input b inputs1 || share_input inputs1 inputs2

module _ {ℓ} {A : Type ℓ} where
  drop-some :
      (k : ℕ) (all : List A) (x : A) (xs : List A)
      → drop k all ≡ x ∷ xs
      → (get_elem? all k ≡ some x) × (drop (suc k) all ≡ xs)
  drop-some zero [] x xs e = absurd (cc)
  drop-some zero (y ∷ all) x xs e = (cc, cc)
  drop-some (suc k) [] x xs e = absurd (cc)
  drop-some (suc k) (y ∷ all) x xs e = drop-some k all x xs e

  drop-none : (k : ℕ) (all : List A) → drop k all ≡ [] → get_elem? all k ≡ none
  drop-none zero [] e = refl
  drop-none zero (y ∷ all) e = absurd (cc)
  drop-none (suc k) [] e = refl
  drop-none (suc k) (y ∷ all) e = drop-none k all e

-- The inner loop over the inputs that are left.
scan : ℕ → List CreditInBatch → CreditInBatch → Option Bool
scan zero inputs b = some false
scan (suc rounds) [] b = none
scan (suc rounds) (a ∷ inputs) b =
    let rest = scan rounds inputs b in if same_input a b then some true else rest

inner_step :
    (rounds k j : ℕ) (inputs1 inputs2 : List CreditInBatch) (a b : CreditInBatch)
    → get_elem? inputs1 k ≡ some a
    → get_elem? inputs2 j ≡ some b
    → conflict_at (suc rounds) k j inputs1 inputs2
      ≡ (if same_input a b then some true else conflict_at rounds (k + 1) j inputs1 inputs2)
unfolding conflict_at
inner_step rounds k j inputs1 inputs2 a b e1 e2 = rw (e1, conflict_at) (rw (e2, conflict_at) refl)

inner_end :
    (rounds k j : ℕ) (inputs1 inputs2 : List CreditInBatch)
    → get_elem? inputs1 k ≡ none
    → conflict_at (suc rounds) k j inputs1 inputs2 ≡ none
unfolding conflict_at
inner_end rounds k j inputs1 inputs2 e1 = rw (e1, conflict_at) refl

inner_outside :
    (rounds k j : ℕ) (inputs1 inputs2 : List CreditInBatch)
    → get_elem? inputs2 j ≡ none
    → conflict_at (suc rounds) k j inputs1 inputs2 ≡ none
unfolding conflict_at
inner_outside rounds k j inputs1 inputs2 e2 = elim (Option-cases (get_elem? inputs1 k)) [
  | inl e1 ↦ rw (e1, conflict_at) refl
  | inr (a, e1) ↦ rw (e1, conflict_at) (rw (e2, conflict_at) refl)
]

plus_one : (k : ℕ) → suc k ≡ k + 1
plus_one k = omega arith

conflict_at-scan :
    (rounds k j : ℕ) (inputs1 inputs2 rest : List CreditInBatch) (b : CreditInBatch)
    → drop k inputs1 ≡ rest
    → get_elem? inputs2 j ≡ some b
    → conflict_at rounds k j inputs1 inputs2 ≡ scan rounds rest b
unfolding scan conflict_at
conflict_at-scan zero k j inputs1 inputs2 rest b d e = refl
conflict_at-scan (suc rounds) k j inputs1 inputs2 [] b d e =
    inner_end rounds k j inputs1 inputs2 (drop-none k inputs1 d)
conflict_at-scan (suc rounds) k j inputs1 inputs2 (a ∷ rest) b d e =
    let (at, next) = drop-some k inputs1 a rest d in
    inner_step rounds k j inputs1 inputs2 a b at e
    ∙ ap (λ r. if same_input a b then some true else r)
        (conflict_at-scan rounds (k + 1) j inputs1 inputs2 rest b
          (ap (λ n. drop n inputs1) (sym (plus_one k)) ∙ next) e)

scan_all :
    (inputs : List CreditInBatch) (b : CreditInBatch)
    → scan (length inputs) inputs b ≡ some (has_input b inputs)
unfolding scan has_input
scan_all [] b = refl
scan_all (a ∷ inputs) b = ground (arith, scan_all inputs b)

scan_outside :
    (rounds : ℕ) (inputs : List CreditInBatch) (b : CreditInBatch)
    → length inputs < rounds
    → has_input b inputs ≡ false
    → scan rounds inputs b ≡ none
unfolding scan has_input
scan_outside zero inputs b lt h = absurd (omega arith)
scan_outside (suc rounds) [] b lt h = refl
scan_outside (suc rounds) (a ∷ inputs) b lt h = ground (arith, scan_outside rounds inputs b)

scan_within :
    (rounds : ℕ) (inputs : List CreditInBatch) (b : CreditInBatch)
    → rounds ≤ length inputs
    → has_input b inputs ≡ false
    → scan rounds inputs b ≡ some false
unfolding scan has_input
scan_within zero inputs b le h = refl
scan_within (suc rounds) [] b le h = absurd (omega arith)
scan_within (suc rounds) (a ∷ inputs) b le h = ground (arith, scan_within rounds inputs b)

outer_step :
    (rounds j : ℕ) (inputs1 inputs2 : List CreditInBatch) (found : Bool)
    → conflict_at (length inputs2) 0 j inputs1 inputs2 ≡ some found
    → conflict_from (suc rounds) j inputs1 inputs2
      ≡ (if found then some true else conflict_from rounds (j + 1) inputs1 inputs2)
unfolding conflict_from
outer_step rounds j inputs1 inputs2 found e = rw (e, conflict_from) refl

outer_outside :
    (rounds j : ℕ) (inputs1 inputs2 : List CreditInBatch)
    → conflict_at (length inputs2) 0 j inputs1 inputs2 ≡ none
    → conflict_from (suc rounds) j inputs1 inputs2 ≡ none
unfolding conflict_from
outer_outside rounds j inputs1 inputs2 e = rw (e, conflict_from) refl

conflict_from-share :
    (j : ℕ) (inputs1 inputs2 rest : List CreditInBatch)
    → drop j inputs2 ≡ rest
    → length inputs1 ≡ length inputs2
    → conflict_from (length rest) j inputs1 inputs2 ≡ some (share_input inputs1 rest)
unfolding share_input conflict_from
conflict_from-share j inputs1 inputs2 [] d n = refl
conflict_from-share j inputs1 inputs2 (b ∷ rest) d n =
    let (at, next) = drop-some j inputs2 b rest d in
    let inner : conflict_at (length inputs2) 0 j inputs1 inputs2 ≡ some (has_input b inputs1) =
      conflict_at-scan (length inputs2) 0 j inputs1 inputs2 inputs1 b refl at
      ∙ ap (λ r. scan r inputs1 b) (sym n)
      ∙ scan_all inputs1 b in
    outer_step (length rest) j inputs1 inputs2 (has_input b inputs1) inner
    ∙ ground (
      arith,
      conflict_from-share (j + 1) inputs1 inputs2 rest
          (ap (λ n. drop n inputs2) (sym (plus_one j)) ∙ next) n,
    )

pub transactions_conflict-share :
    (tx1 tx2 : SignedTransaction)
    → length tx1.rawtx.inputs ≡ length tx2.rawtx.inputs
    → transactions_conflict tx1 tx2 ≡ some (share_input tx1.rawtx.inputs tx2.rawtx.inputs)
unfolding transactions_conflict
transactions_conflict-share tx1 tx2 e =
    ap (λ r. conflict_from r 0 tx1.rawtx.inputs tx2.rawtx.inputs) e
    ∙ conflict_from-share 0 tx1.rawtx.inputs tx2.rawtx.inputs tx2.rawtx.inputs refl e

-- With fewer inputs in the second transaction the outer loop runs past them.
conflict_from-outside :
    (rounds j : ℕ) (inputs1 inputs2 rest : List CreditInBatch)
    → drop j inputs2 ≡ rest
    → length rest < rounds
    → 0 < length inputs2
    → length inputs2 ≤ length inputs1
    → share_input inputs1 rest ≡ false
    → conflict_from rounds j inputs1 inputs2 ≡ none
unfolding share_input
conflict_from-outside zero j inputs1 inputs2 rest d lt pos le h = absurd (omega arith)
conflict_from-outside (suc rounds) j inputs1 [] [] d lt pos le h = absurd (omega arith)
conflict_from-outside (suc rounds) j inputs1 (c ∷ inputs2) [] d lt pos le h =
    outer_outside rounds j inputs1 (c ∷ inputs2)
      (inner_outside (length inputs2) 0 j inputs1 (c ∷ inputs2) (drop-none j (c ∷ inputs2) d))
conflict_from-outside (suc rounds) j inputs1 inputs2 (b ∷ rest) d lt pos le h =
    let (at, next) = drop-some j inputs2 b rest d in
    let inner : conflict_at (length inputs2) 0 j inputs1 inputs2 ≡ some false =
      conflict_at-scan (length inputs2) 0 j inputs1 inputs2 inputs1 b refl at
      ∙ scan_within (length inputs2) inputs1 b le (ground (arith, h)) in
    outer_step rounds j inputs1 inputs2 false inner
    ∙ conflict_from-outside rounds (j + 1) inputs1 inputs2 rest
        (ap (λ n. drop n inputs2) (sym (plus_one j)) ∙ next) (omega arith) pos le
        (ground (arith, h))

-- With fewer inputs in the first transaction the inner loop does.
inner_runs_past :
    (rounds : ℕ) (inputs1 inputs2 : List CreditInBatch)
    → length inputs1 < length inputs2
    → share_input inputs1 inputs2 ≡ false
    → conflict_from (suc rounds) 0 inputs1 inputs2 ≡ none
unfolding share_input
inner_runs_past rounds inputs1 [] lt h = absurd (omega arith)
inner_runs_past rounds inputs1 (b ∷ inputs2) lt h = outer_outside rounds 0 inputs1 (b ∷ inputs2) (
    conflict_at-scan (suc (length inputs2)) 0 0 inputs1 (b ∷ inputs2) inputs1 b refl refl
    ∙ scan_outside (suc (length inputs2)) inputs1 b lt (ground (arith, h)))

lt_or_gt : (a b : ℕ) → a ≢ b → (a < b) ⊎ (b < a)
lt_or_gt a b ne = ground arith

all_outside :
    (inputs1 inputs2 : List CreditInBatch)
    → 0 < length inputs1
    → 0 < length inputs2
    → length inputs1 ≢ length inputs2
    → share_input inputs1 inputs2 ≡ false
    → conflict_from (length inputs1) 0 inputs1 inputs2 ≡ none
all_outside [] inputs2 p1 p2 ne h = absurd (omega arith)
all_outside (a ∷ inputs1) inputs2 p1 p2 ne h =
    elim (lt_or_gt (suc (length inputs1)) (length inputs2) ne) [
      | inl less ↦ inner_runs_past (length inputs1) (a ∷ inputs1) inputs2 less h
      | inr more ↦
          conflict_from-outside (suc (length inputs1)) 0 (a ∷ inputs1) inputs2 inputs2 refl more p2
            (omega (arith, more)) h
    ]

-- Of two transactions that have inputs and share none, TransactionsConflict returns false if they have
-- equally many inputs, and reads outside one of the vectors if they do not.
pub transactions_conflict-none :
    (tx1 tx2 : SignedTransaction)
    → 0 < length tx1.rawtx.inputs
    → 0 < length tx2.rawtx.inputs
    → share_input tx1.rawtx.inputs tx2.rawtx.inputs ≡ false
    → transactions_conflict tx1 tx2
      ≡ (if length tx1.rawtx.inputs == length tx2.rawtx.inputs then some false else none)
unfolding transactions_conflict
transactions_conflict-none tx1 tx2 p1 p2 h =
    elim (Bool-cases (length tx1.rawtx.inputs == length tx2.rawtx.inputs)) [
      | inl e ↦ rw e (transactions_conflict-share tx1 tx2 (ground (arith, e)) ∙ ap some h)
      | inr ne ↦
          rw ne (all_outside tx1.rawtx.inputs tx2.rawtx.inputs p1 p2 (λ e. ground (arith, ne, e)) h)
    ]
