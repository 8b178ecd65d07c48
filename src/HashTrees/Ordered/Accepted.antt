-- ===== src/HashTrees/Ordered/Accepted.antt =====
-- An element of an ordered tree, its position, its branch and the root: they verify.
use flex.Common.{
  ℕ, ◌+◌, ◌<◌, ◌≡◌, sym, ap, ◌∙◌, true, none, some, List, [], ◌∷◌, ◌++◌, arith, length, get_elem?,
  nat_eq,
}
use flex.RelayState.Platform.{u32_mod}
use flex.VectorTools.Laws.{Distinct}
use flex.HashTrees.Combine.{climb}
use flex.HashTrees.Ordered
use flex.HashTrees.Ordered.{
  OrderedDataElement, OrderedHashTree, data_hash, element_hash, slot_hash, sort_hashes, equal_bytes,
  find_data, assign_positions, build_tree, built, verify_branch_from_ordered_hash_tree,
}
use flex.HashTrees.Ordered.Placed.{hashes_of}
use flex.HashTrees.Ordered.Branch.{in_order, in_order-Distinct, in_order_again, verify_lem}
use flex.HashTrees.Ordered.Found.{
  unordered, ordered, position_lem, length-in_order, found_lem, branch_lem, hash_at, position_again,
}

module _ (tree_hash : List ℕ → ℕ) where
  -- What Position, Branch and Root say of an element that was added.
  pub element_lem :
      (offset i : ℕ) (e : OrderedDataElement) (es : List OrderedDataElement)
      → Distinct (hashes_of tree_hash es)
      → offset + length es + length es + 2 < u32_mod
      → get_elem? es i ≡ some e
      → (k : ℕ) × (entries : List ℕ) × (t1 t2 : OrderedHashTree) × (k < length es)
        × (Ordered.position tree_hash e.bytes (unordered offset es) ≡ (some (offset + k), t1))
        × (Ordered.position tree_hash e.bytes t1 ≡ (some (offset + k), t1))
        × (Ordered.branch tree_hash (offset + k) t1 ≡ (entries, t2))
        × (Ordered.root tree_hash t2 ≡ (
          climb tree_hash entries
              (element_hash tree_hash (record { position = offset + k; bytes = e.bytes })),
          t2,
        ))
  element_lem offset i e es d fits at =
      let rs : List OrderedDataElement = in_order tree_hash offset es in
      let (k, r, here, bytes, lt, found) =
        found_lem tree_hash offset i e es d (omega (arith, fits)) at in
      let d' = in_order-Distinct tree_hash offset es d in
      let size = length-in_order tree_hash offset es in
      let (entries, hashed, b, up) =
        branch_lem tree_hash offset k rs d' (omega (arith, lt, size)) (omega (arith, fits, size)) in
      let again = in_order_again tree_hash offset k r es d here in
      (
        k,
        entries,
        ordered offset rs none,
        ordered offset (in_order tree_hash offset rs) (some hashed),
        lt,
        position_lem tree_hash offset es e.bytes d ∙ (λ i. (found i, ordered offset rs none)),
        position_again tree_hash offset rs e.bytes ∙ (λ i. (found i, ordered offset rs none)),
        b,
        up ∙ (λ i. (
          climb tree_hash entries (
              (hash_at tree_hash offset k r (in_order tree_hash offset rs) (omega (arith, lt, fits))
                    again
                  ∙ ap (λ bs. element_hash tree_hash (record { position = offset + k; bytes = bs }))
                      bytes)
                i),
          ordered offset (in_order tree_hash offset rs) (some hashed),
        )),
      )

  -- To a tree were added elements with different data hashes, fewer than 2^31 - 2 of them, and so few
  -- that no position needs 32 bits. Position of the data of one of them returns a position, Branch of
  -- that position a branch, and VerifyBranchFromOrderedHashTree accepts the position, the data and the
  -- branch with the root at its end, against the root that Root then returns.
  verify_branch-branch :
      (offset i : ℕ) (e : OrderedDataElement) (es : List OrderedDataElement)
      → Distinct (hashes_of tree_hash es)
      → offset + length es + length es + 2 < u32_mod
      → get_elem? es i ≡ some e
      → (at : ℕ) × (t1 : OrderedHashTree) × (entries : List ℕ) × (t2 : OrderedHashTree)
        × (Ordered.position tree_hash e.bytes (unordered offset es) ≡ (some at, t1))
        × (Ordered.branch tree_hash at t1 ≡ (entries, t2))
        × (verify_branch_from_ordered_hash_tree tree_hash at e.bytes
              (entries ++ (Ordered.root tree_hash t2).0 ∷ [])
              (Ordered.root tree_hash t2).0
            ≡ true)
  verify_branch-branch offset i e es d fits at =
      let (k, entries, t1, t2, lt, p, again, b, up) = element_lem offset i e es d fits at in
      (
        offset + k,
        t1,
        entries,
        t2,
        p,
        b,
        verify_lem tree_hash (offset + k) _ e.bytes entries (sym (ap (λ r. r.0) up)),
      )
