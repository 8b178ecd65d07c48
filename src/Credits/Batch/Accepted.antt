-- ===== src/Credits/Batch/Accepted.antt =====
-- GetCreditInBatch gives a credit a position and a branch that verify.
use flex.Common.{
  ℕ, zero, suc, ◌+◌, ◌%◌, ◌^◌, ◌<◌, ◌≡◌, refl, sym, ap, ◌∙◌, true, false, Option, none, some, List,
  [], ◌∷◌, ◌++◌, arith, length, get_elem?, map, nat_eq, append_assoc,
}
use flex.RelayState.Platform.{Point, u32_mod}
use flex.VectorTools.Laws.{Distinct}
use flex.HashTrees.{symmetric_combine}
use flex.HashTrees.Combine.{climb, climb-append, symmetric_combine_comm}
use flex.HashTrees.Ordered
use flex.HashTrees.Ordered.{
  OrderedDataElement, OrderedHashTree, element_hash, verify_branch_from_ordered_hash_tree,
}
use flex.HashTrees.Ordered.Placed.{hashes_of}
use flex.HashTrees.Ordered.Branch.{verify_lem}
use flex.HashTrees.Ordered.Found.{unordered}
use flex.HashTrees.Ordered.Accepted.{element_lem}
use flex.Credits.{Credit, credit_bytes}
use flex.Credits.Batch.{CreditBatch, batch_root, batch_position, batch_branch, get_credit_in_batch}
use flex.Credits.Batch.Copy.{IsBatch, elements_of}

module _ (key_bytes : Point → List ℕ) where
  abbrev pub element_for : Credit → OrderedDataElement
  element_for credit = record { position = 0; bytes = credit_bytes key_bytes credit }

  elements_of-map :
      (credits : List Credit) → elements_of key_bytes credits ≡ map some (map element_for credits)
  elements_of-map [] = refl
  elements_of-map (credit ∷ credits) =
      ap (λ rest. some (element_for credit) ∷ rest) (elements_of-map credits)

  get_elem-map :
      (i : ℕ) (credit : Credit) (credits : List Credit)
      → get_elem? credits i ≡ some credit
      → get_elem? (map element_for credits) i ≡ some (element_for credit)
  get_elem-map i credit [] at = absurd (cc)
  get_elem-map zero credit (first ∷ credits) at =
      ap (λ c. some (element_for c)) (head first credit at)
    where
      head : (a b : Credit) → some a ≡ some b → a ≡ b
      head a b e = ground (arith, e)
  get_elem-map (suc i) credit (first ∷ credits) at = get_elem-map i credit credits at

  length-map : (credits : List Credit) → length (map element_for credits) ≡ length credits
  length-map [] = refl
  length-map (credit ∷ credits) = omega (arith, length-map credits)

  abbrev in_tree : CreditBatch → OrderedHashTree → CreditBatch
  in_tree b tree = record b { tree = tree }

  batch_tree :
      (b : CreditBatch)
      → IsBatch key_bytes b
      → b.tree.tree ≡ none
      → b.tree.positions_assigned ≡ false
      → b ≡ in_tree b (unordered b.tree.offset (map element_for b.credits))
  batch_tree b v unbuilt unassigned i = record b {
    tree = record {
      elements = (v.elements ∙ elements_of-map b.credits) i;
      tree = unbuilt i;
      positions_assigned = unassigned i;
      offset = b.tree.offset;
    };
  }

  module _ (tree_hash : List ℕ → ℕ) where
    position-in_tree :
        (credit : Credit) (b : CreditBatch) (tree tree' : OrderedHashTree) (at : Option ℕ)
        → Ordered.position tree_hash (credit_bytes key_bytes credit) tree ≡ (at, tree')
        → batch_position key_bytes tree_hash credit (in_tree b tree) ≡ (at, in_tree b tree')
    unfolding batch_position
    position-in_tree credit b tree tree' at e = ap (λ r. (r.0, in_tree b r.1)) e

    root-in_tree :
        (b : CreditBatch) (tree tree' : OrderedHashTree) (hash : ℕ)
        → Ordered.root tree_hash tree ≡ (hash, tree')
        → batch_root key_bytes tree_hash (in_tree b tree)
          ≡ (symmetric_combine tree_hash b.previous_credit_hash hash, in_tree b tree')
    unfolding batch_root
    root-in_tree b tree tree' hash e =
        ap (λ r. (symmetric_combine tree_hash b.previous_credit_hash r.0, in_tree b r.1)) e

    branch-in_tree :
        (credit : Credit) (b : CreditBatch) (at : ℕ) (t1 t2 : OrderedHashTree) (entries : List ℕ)
        (hash : ℕ)
        → at % 2 ^ 32 ≡ at
        → Ordered.position tree_hash (credit_bytes key_bytes credit) t1 ≡ (some at, t1)
        → Ordered.branch tree_hash at t1 ≡ (entries, t2)
        → Ordered.root tree_hash t2 ≡ (hash, t2)
        → batch_branch key_bytes tree_hash credit (in_tree b t1) ≡ (
          entries
              ++ b.previous_credit_hash
                ∷ symmetric_combine tree_hash b.previous_credit_hash hash
                ∷ [],
          in_tree b t2,
        )
    branch-in_tree credit b at t1 t2 entries hash small p br rt =
        unfold batch_branch in
        rw
          (
            position-in_tree credit b t1 t1 (some at) p,
            batch_branch,
            small,
            br,
            root-in_tree b t2 t2 hash rt,
          )
          refl

    credit_in_tree :
        (credit : Credit) (b : CreditBatch) (at : ℕ) (t0 t1 t2 : OrderedHashTree) (entries : List ℕ)
        (hash : ℕ)
        → at % 2 ^ 32 ≡ at
        → Ordered.position tree_hash (credit_bytes key_bytes credit) t0 ≡ (some at, t1)
        → Ordered.position tree_hash (credit_bytes key_bytes credit) t1 ≡ (some at, t1)
        → Ordered.branch tree_hash at t1 ≡ (entries, t2)
        → Ordered.root tree_hash t2 ≡ (hash, t2)
        → get_credit_in_batch key_bytes tree_hash credit (in_tree b t0) ≡ (
          record {
            credit = credit;
            position = at;
            branch =
                entries
                ++ b.previous_credit_hash
                  ∷ symmetric_combine tree_hash b.previous_credit_hash hash
                  ∷ [];
            diurn_branch = [];
          },
          in_tree b t2,
        )
    credit_in_tree credit b at t0 t1 t2 entries hash small p0 p br rt =
        unfold get_credit_in_batch in
        rw
          (
            position-in_tree credit b t0 t1 (some at) p0,
            get_credit_in_batch,
            branch-in_tree credit b at t1 t2 entries hash small p br rt,
          )
          refl

    leads :
        (entries : List ℕ) (previous hash start : ℕ)
        → hash ≡ climb tree_hash entries start
        → climb tree_hash (entries ++ previous ∷ []) start
          ≡ symmetric_combine tree_hash previous hash
    leads entries previous hash start e =
        climb-append tree_hash entries (previous ∷ []) start
        ∙ ap (λ h. symmetric_combine tree_hash h previous) (sym e)
        ∙ symmetric_combine_comm tree_hash hash previous

    -- Of a batch that holds credits with different data hashes, in a tree with no positions yet, and so few
    -- that no position needs 32 bits: GetCreditInBatch of one of the credits gives a position and a branch
    -- that VerifyBranchFromOrderedHashTree accepts, with the bytes of the credit, against the root that
    -- Root then returns.
    pub get_credit_in_batch-verify :
        (b : CreditBatch) (i : ℕ) (credit : Credit)
        → IsBatch key_bytes b
        → b.tree.tree ≡ none
        → b.tree.positions_assigned ≡ false
        → Distinct (hashes_of tree_hash (map element_for b.credits))
        → b.tree.offset + length b.credits + length b.credits + 2 < u32_mod
        → get_elem? b.credits i ≡ some credit
        → verify_branch_from_ordered_hash_tree tree_hash
            (get_credit_in_batch key_bytes tree_hash credit b).0.position
            (credit_bytes key_bytes credit)
            (get_credit_in_batch key_bytes tree_hash credit b).0.branch
            (batch_root key_bytes tree_hash (get_credit_in_batch key_bytes tree_hash credit b).1).0
          ≡ true
    get_credit_in_batch-verify b i credit v unbuilt unassigned d fits at =
        let es : List OrderedDataElement = map element_for b.credits in
        let (k, entries, t1, t2, lt, p0, p, br, rt) =
          element_lem tree_hash b.tree.offset i (element_for credit) es d
            (omega (arith, length-map b.credits, fits)) (get_elem-map i credit b.credits at) in
        let position : ℕ = b.tree.offset + k in
        let hash : ℕ = climb tree_hash entries (
          element_hash tree_hash
            (record { position = position; bytes = credit_bytes key_bytes credit })) in
        let root : ℕ = symmetric_combine tree_hash b.previous_credit_hash hash in
        let given =
          ap (get_credit_in_batch key_bytes tree_hash credit) (batch_tree b v unbuilt unassigned)
          ∙ credit_in_tree credit b position (unordered b.tree.offset es) t1 t2 entries hash
              (omega (arith, lt, length-map b.credits, fits)) p0 p br rt in
        rw
          (
            given,
            root-in_tree b t2 t2 hash rt,
            sym (append_assoc entries (b.previous_credit_hash ∷ []) (root ∷ [])),
          )
          (verify_lem tree_hash position root (credit_bytes key_bytes credit)
            (entries ++ b.previous_credit_hash ∷ [])
            (leads entries b.previous_credit_hash hash _ refl))
