-- ===== src/Calendar/Diurn/Branch.antt =====
-- The branch of a credit in a diurn, and removing the last credit.
use flex.Common.{
  ℕ, ◌+◌, ◌^◌, ◌<◌, ◌≡◌, sym, ap, ◌∙◌, true, some, List, [], ◌∷◌, ◌++◌, arith, length, All,
}
use flex.RelayState.Platform.{u32_mod}
use flex.HashTrees.{symmetric_combine, evaluate_branch_with_hash}
use flex.HashTrees.Combine.{climb, climb-append, evaluate_rest-climb, symmetric_combine_comm}
use flex.HashTrees.Node.Hashed.{root_of, root_of_unique}
use flex.HashTrees.DiurnalBlock
use flex.HashTrees.DiurnalBlock.{
  DiurnalBlock, empty_block, getvch, setvch, contains, new_tree, datum_hash,
}
use flex.HashTrees.DiurnalBlock.Bytes.{setvch-getvch}
use flex.HashTrees.DiurnalBlock.Filled.{
  IsFilled, new_tree-IsFilled, root_lem, branch_lem, position_found,
}
use flex.Calendar.Diurn.{Diurn, block_root, root, branch}

module _ (tree_hash : List ℕ → ℕ) where
  -- BlockRoot, which reads a copy of the block, is the root of the block.
  block_root_lem :
      (diurn : Diurn) (filled : IsFilled tree_hash diurn.diurnal_block)
      → 0 < length diurn.diurnal_block.hashes
      → length diurn.diurnal_block.hashes + length diurn.diurnal_block.hashes + 2 < u32_mod
      → All (λ hash. hash < 256 ^ 20) diurn.diurnal_block.hashes
      → block_root tree_hash diurn
        ≡ root_of tree_hash (datum_hash diurn.diurnal_block.hashes) filled.0
  unfolding block_root
  block_root_lem diurn filled h k v =
      let hashes : List ℕ = diurn.diurnal_block.hashes in
      let anew : DiurnalBlock = record { hashes = hashes; tree = some (new_tree hashes) } in
      let fresh = new_tree-IsFilled tree_hash hashes h k in
      ap (λ b. (DiurnalBlock.root tree_hash b).0) (setvch-getvch hashes empty_block h v)
      ∙ (root_lem tree_hash anew fresh h (omega arith)).0
      ∙ root_of_unique tree_hash (datum_hash hashes) 0 (length hashes) fresh.0 filled.0 fresh.2
          filled.2

  same_root :
      (diurn : Diurn) (block : DiurnalBlock)
      → block.hashes ≡ diurn.diurnal_block.hashes
      → root tree_hash (record diurn { diurnal_block = block }) ≡ root tree_hash diurn
  unfolding root block_root
  same_root diurn block same =
      ap
        (λ hashes.
          symmetric_combine tree_hash diurn.previous_diurn_root
            (DiurnalBlock.root tree_hash (setvch (getvch hashes) empty_block)).0)
        same

  evaluates :
      (credit_hash : ℕ) (diurn : Diurn) (entries : List ℕ)
      → climb tree_hash entries credit_hash ≡ block_root tree_hash diurn
      → evaluate_branch_with_hash tree_hash
          ((entries ++ diurn.previous_diurn_root ∷ []) ++ root tree_hash diurn ∷ [])
          credit_hash
          0
        ≡ root tree_hash diurn
  unfolding evaluate_branch_with_hash root
  evaluates credit_hash diurn entries up =
      evaluate_rest-climb tree_hash (entries ++ diurn.previous_diurn_root ∷ [])
        (root tree_hash diurn) credit_hash
      ∙ climb-append tree_hash entries (diurn.previous_diurn_root ∷ []) credit_hash
      ∙ ap (λ h. symmetric_combine tree_hash h diurn.previous_diurn_root) up
      ∙ symmetric_combine_comm tree_hash (block_root tree_hash diurn) diurn.previous_diurn_root

  -- Of a diurn that contains a credit hash, with fewer than 2^31 - 2 hashes of 160 bits, Branch returns
  -- a branch that ends with the root of the diurn, and that EvaluateBranchWithHash takes from the credit
  -- hash to that root. The trees remain in order.
  pub branch-root :
      (credit_hash : ℕ) (diurn : Diurn)
      → IsFilled tree_hash diurn.diurnal_block
      → contains credit_hash diurn.diurnal_block ≡ true
      → length diurn.diurnal_block.hashes + length diurn.diurnal_block.hashes + 2 < u32_mod
      → All (λ hash. hash < 256 ^ 20) diurn.diurnal_block.hashes
      → (entries : List ℕ) × (diurn' : Diurn) × (branch tree_hash credit_hash diurn
          ≡ some (entries ++ root tree_hash diurn ∷ [], diurn'))
        × (evaluate_branch_with_hash tree_hash (entries ++ root tree_hash diurn ∷ []) credit_hash 0
            ≡ root tree_hash diurn)
        × IsFilled tree_hash diurn'.diurnal_block
  branch-root credit_hash diurn filled here k v =
      let found = position_found credit_hash diurn.diurnal_block.hashes (unfold contains in here) in
      let (entries, block, e, up, filled', same) =
        branch_lem tree_hash credit_hash diurn.diurnal_block filled here (omega arith) in
      let all : List ℕ = entries ++ diurn.previous_diurn_root ∷ [] in
      (
        all,
        record diurn { diurnal_block = block },
        unfold branch in
            rw (e, branch)
              (ap (λ r. some (all ++ r ∷ [], record diurn { diurnal_block = block }))
                (same_root diurn block same)),
        evaluates credit_hash diurn entries
            (up ∙ sym (block_root_lem diurn filled (omega (arith, found.2)) k v)),
        filled',
      )
