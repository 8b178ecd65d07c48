-- ===== src/Calendar/Connection/Whole.antt =====
-- A credit of a batch, the branch of its mined credit in a diurn, and the calendar: they are connected.
use flex.Common.{
  ℕ, ◌+◌, ◌%◌, ◌<◌, ◌^◌, ◌≡◌, refl, ap, ◌∙◌, sym, Bool, true, false, none, some, List, [], ◌∷◌,
  ◌++◌, arith, ◌==◌, length, All, Bool-cases, inl, inr, get_elem?, map, nat_eq,
}
use flex.VectorTools.Laws.{Distinct}
use flex.RelayState.Platform.{Point, u32_mod}
use flex.HashTrees.{symmetric_combine, evaluate_branch_with_hash, evaluate_rest}
use flex.HashTrees.DiurnalBlock.{contains}
use flex.HashTrees.DiurnalBlock.Filled.{IsFilled}
use flex.HashTrees.Ordered.{last_entry, verify_branch_from_ordered_hash_tree}
use flex.HashTrees.Ordered.Placed.{hashes_of}
use flex.Credits.{Credit, CreditInBatch, credit_bytes}
use flex.Credits.Batch.{CreditBatch, batch_root, get_credit_in_batch}
use flex.Credits.Batch.Copy.{IsBatch}
use flex.Credits.Batch.Accepted.{element_for, get_credit_in_batch-verify}
use flex.Calendar.{MinedCreditMessage}
use flex.Calendar.Diurn.{Diurn, root, branch}
use flex.Calendar.Diurn.Branch.{branch-root}
use flex.Calendar.Tip.{CalendarData}
use flex.Calendar.Check.{contains_diurn}
use flex.Calendar.Connection.{check_branches, credit_in_batch_has_valid_connection}

module _ (key_bytes : Point → List ℕ) (stored : CalendarData) where
  -- A branch that verifies is not empty and ends with the claimed hash.
  verified_ends :
      (at claimed : ℕ) (bytes entries : List ℕ)
      → verify_branch_from_ordered_hash_tree stored.tree_hash at bytes entries claimed ≡ true
      → ((length entries == 0) ≡ false) × (claimed ≡ last_entry stored.tree_hash entries)
  unfolding verify_branch_from_ordered_hash_tree
  verified_ends at claimed bytes entries e = elim (Bool-cases (length entries == 0)) [
    | inl empty ↦ cc
    | inr some_entry ↦ elim (Bool-cases (claimed == last_entry stored.tree_hash entries)) [
      | inl ends ↦ (some_entry, ground (arith, ends))
      | inr other ↦ cc
    ]
  ]

  last_of-append :
      (entries : List ℕ) (entry : ℕ) → last_entry stored.tree_hash (entries ++ entry ∷ []) ≡ entry
  unfolding last_entry
  last_of-append [] entry = refl
  last_of-append (x ∷ []) entry = refl
  last_of-append (x ∷ y ∷ entries) entry = last_of-append (y ∷ entries) entry

  -- A branch behind one more entry.
  bridged :
      (bridge end hash : ℕ) (entries : List ℕ)
      → (evaluate_branch_with_hash stored.tree_hash (bridge ∷ entries ++ end ∷ []) hash 0
          ≡ evaluate_branch_with_hash stored.tree_hash
              (entries ++ end ∷ [])
              (symmetric_combine stored.tree_hash hash bridge)
              0)
        × (last_entry stored.tree_hash (bridge ∷ entries ++ end ∷ []) ≡ end)
        × ((length (bridge ∷ entries ++ end ∷ []) == 1) ≡ false)
        × ((length (bridge ∷ entries ++ end ∷ []) == 0) ≡ false)
  unfolding evaluate_branch_with_hash evaluate_rest
  bridged bridge end hash [] = (refl, last_of-append (bridge ∷ []) end, ground arith, ground arith)
  bridged bridge end hash (x ∷ entries) =
      (refl, last_of-append (bridge ∷ x ∷ entries) end, ground arith, ground arith)

  abbrev IsVerified : CreditInBatch → Type 0
  IsVerified credit =
      verify_branch_from_ordered_hash_tree stored.tree_hash (credit.position % u32_mod)
        (credit_bytes key_bytes credit.credit) credit.branch
        (last_entry stored.tree_hash credit.branch)
      ≡ true

  passes_branches :
      (credit : CreditInBatch) (bridge end : ℕ) (entries : List ℕ)
      → credit.diurn_branch ≡ bridge ∷ entries ++ end ∷ []
      → IsVerified credit
      → evaluate_branch_with_hash stored.tree_hash
          (entries ++ end ∷ [])
          (symmetric_combine stored.tree_hash (last_entry stored.tree_hash credit.branch) bridge)
          0
        ≡ end
      → check_branches key_bytes stored credit ≡ true
  unfolding check_branches
  passes_branches credit bridge end entries e verified up =
      let b = bridged bridge end (last_entry stored.tree_hash credit.branch) entries in
      let same : (end == end) ≡ true = ground arith in
      rw verified (rw e (rw (b.2, b.1, b.0, up) same))

  connected :
      (in_main_chain : ℕ → Bool) (credit : CreditInBatch) (calends : List MinedCreditMessage)
      (bridge end : ℕ) (entries : List ℕ)
      → credit.diurn_branch ≡ bridge ∷ entries ++ end ∷ []
      → IsVerified credit
      → evaluate_branch_with_hash stored.tree_hash
          (entries ++ end ∷ [])
          (symmetric_combine stored.tree_hash (last_entry stored.tree_hash credit.branch) bridge)
          0
        ≡ end
      → contains_diurn stored end calends ≡ true
      → credit_in_batch_has_valid_connection key_bytes stored in_main_chain credit calends ≡ true
  unfolding credit_in_batch_has_valid_connection
  connected in_main_chain credit calends bridge end entries e verified up held =
      let batch_root = last_entry stored.tree_hash credit.branch in
      let b = bridged bridge end batch_root entries in
      let some_entry =
        (verified_ends (credit.position % u32_mod) batch_root (credit_bytes key_bytes credit.credit)
          credit.branch verified).0 in
      rw (passes_branches credit bridge end entries e verified up)
        (rw e (rw (b.2, b.3, some_entry, b.1, held) refl))

  credit_stays :
      (credit : Credit) (b : CreditBatch)
      → (get_credit_in_batch key_bytes stored.tree_hash credit b).0.credit ≡ credit
  unfolding get_credit_in_batch
  credit_stays credit b = refl

  -- What GetCreditInBatch gives is verified, against the root of the batch.
  get_credit_in_batch-IsVerified :
      (b : CreditBatch) (i : ℕ) (credit : Credit) (diurn_branch : List ℕ)
      → IsBatch key_bytes b
      → b.tree.tree ≡ none
      → b.tree.positions_assigned ≡ false
      → Distinct (hashes_of stored.tree_hash (map (element_for key_bytes) b.credits))
      → b.tree.offset + length b.credits + length b.credits + 2 < u32_mod
      → get_elem? b.credits i ≡ some credit
      → (get_credit_in_batch key_bytes stored.tree_hash credit b).0.position < u32_mod
      → IsVerified (record (get_credit_in_batch key_bytes stored.tree_hash credit b).0 {
        diurn_branch = diurn_branch;
      })
        × ((batch_root key_bytes stored.tree_hash
              (get_credit_in_batch key_bytes stored.tree_hash credit b).1).0
            ≡ last_entry stored.tree_hash
                (get_credit_in_batch key_bytes stored.tree_hash credit b).0.branch)
  get_credit_in_batch-IsVerified b i credit diurn_branch v unbuilt unassigned d fits at small =
      let got = get_credit_in_batch key_bytes stored.tree_hash credit b in
      let batch_hash = (batch_root key_bytes stored.tree_hash got.1).0 in
      let e =
        get_credit_in_batch-verify key_bytes stored.tree_hash b i credit v unbuilt unassigned d fits
          at in
      let ends =
        verified_ends got.0.position batch_hash (credit_bytes key_bytes credit) got.0.branch e in
      let low : got.0.position % u32_mod ≡ got.0.position = omega (arith, small) in
      (
        ap
              (λ p.
                verify_branch_from_ordered_hash_tree stored.tree_hash p
                  (credit_bytes key_bytes got.0.credit) got.0.branch
                  (last_entry stored.tree_hash got.0.branch))
              low
            ∙ ap
                (λ k.
                  verify_branch_from_ordered_hash_tree stored.tree_hash got.0.position
                    (credit_bytes key_bytes k) got.0.branch
                    (last_entry stored.tree_hash got.0.branch))
                (credit_stays credit b)
            ∙ ap
                (λ r.
                  verify_branch_from_ordered_hash_tree stored.tree_hash got.0.position
                    (credit_bytes key_bytes credit) got.0.branch r)
                (sym ends.1)
            ∙ e,
        ends.1,
      )

  -- A batch holds credits with different data hashes, in a tree with no positions yet, and so few that no
  -- position needs 32 bits. Its root, combined with a bridge, is the hash of a mined credit that a diurn
  -- contains, with fewer than 2^31 - 2 hashes of 160 bits, and the root of the diurn is that of a calend.
  -- Then Branch of the diurn returns a branch for the mined credit, and what GetCreditInBatch gives for a
  -- credit of the batch, at a position of 32 bits, has a valid connection to the calendar with the bridge
  -- and that branch as its diurn branch.
  pub credit_in_batch_has_valid_connection-branch :
      (b : CreditBatch) (i : ℕ) (credit : Credit) (bridge : ℕ) (diurn : Diurn)
      (calends : List MinedCreditMessage) (in_main_chain : ℕ → Bool) (batch_hash : ℕ)
      → IsBatch key_bytes b
      → b.tree.tree ≡ none
      → b.tree.positions_assigned ≡ false
      → Distinct (hashes_of stored.tree_hash (map (element_for key_bytes) b.credits))
      → b.tree.offset + length b.credits + length b.credits + 2 < u32_mod
      → get_elem? b.credits i ≡ some credit
      → (get_credit_in_batch key_bytes stored.tree_hash credit b).0.position < u32_mod
      → (batch_root key_bytes stored.tree_hash
          (get_credit_in_batch key_bytes stored.tree_hash credit b).1).0
        ≡ batch_hash
      → IsFilled stored.tree_hash diurn.diurnal_block
      → contains (symmetric_combine stored.tree_hash batch_hash bridge) diurn.diurnal_block ≡ true
      → length diurn.diurnal_block.hashes + length diurn.diurnal_block.hashes + 2 < u32_mod
      → All (λ hash. hash < 256 ^ 20) diurn.diurnal_block.hashes
      → contains_diurn stored (root stored.tree_hash diurn) calends ≡ true
      → (diurn_branch : List ℕ) × (diurn' : Diurn) × (branch stored.tree_hash
            (symmetric_combine stored.tree_hash batch_hash bridge)
            diurn
          ≡ some (diurn_branch, diurn'))
        × (credit_in_batch_has_valid_connection key_bytes stored in_main_chain
              (record (get_credit_in_batch key_bytes stored.tree_hash credit b).0 {
                diurn_branch = bridge ∷ diurn_branch;
              })
              calends
            ≡ true)
  credit_in_batch_has_valid_connection-branch b i credit bridge diurn calends in_main_chain
        batch_hash v unbuilt unassigned d fits at small named filled here few bounded held =
      let got = get_credit_in_batch key_bytes stored.tree_hash credit b in
      let (entries, diurn', gives, up, rest) =
        branch-root stored.tree_hash (symmetric_combine stored.tree_hash batch_hash bridge) diurn
          filled here few bounded in
      let end = root stored.tree_hash diurn in
      let ready =
        get_credit_in_batch-IsVerified b i credit (bridge ∷ entries ++ end ∷ []) v unbuilt
          unassigned d fits at small in
      let same : last_entry stored.tree_hash got.0.branch ≡ batch_hash = sym ready.1 ∙ named in
      (
        entries ++ end ∷ [],
        diurn',
        gives,
        connected in_main_chain (record got.0 { diurn_branch = bridge ∷ entries ++ end ∷ [] })
            calends bridge end entries refl ready.0
            (ap
                (λ h.
                  evaluate_branch_with_hash stored.tree_hash (entries ++ end ∷ [])
                    (symmetric_combine stored.tree_hash h bridge) 0)
                same
              ∙ up)
            held,
      )
