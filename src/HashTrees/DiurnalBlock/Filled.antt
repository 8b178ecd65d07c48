-- ===== src/HashTrees/DiurnalBlock/Filled.antt =====
-- The tree of a block that is not empty, and where the branch of a hash leads.
use flex.Common.{
  ℕ, zero, suc, ◌+◌, ◌<◌, ◌≡◌, refl, sym, ◌∙◌, ◌⊎◌, inl, inr, true, some, List, [], ◌∷◌, arith,
  length, ◌==◌, is_some, Bool-cases, ==_iff,
}
use flex.RelayState.Platform.{u32_mod}
use flex.HashTrees.Combine.{climb}
use flex.HashTrees.Node.{
  HashNode, data_of, leaf, inner, new_node, hash_node, branch_node, branch_tree,
}
use flex.HashTrees.Node.Hashed.{
  IsNode, IsStale, IsHashed, root_of, new_node-IsNode, hash_node_stale, hash_node_hashed,
  branch_node_hashed,
}
use flex.HashTrees.DiurnalBlock.{
  DiurnalBlock, datum_hash, new_tree, position, contains, root, branch,
}

-- Position finds the hash.
pub position_found :
    (hash : ℕ) (hashes : List ℕ)
    → is_some (position hash hashes) ≡ true
    → (i : ℕ) × (position hash hashes ≡ some i) × (i < length hashes) × (datum_hash hashes i ≡ hash)
unfolding position
position_found hash [] e = absurd (ground arith)
position_found hash (x ∷ hashes) e = elim (Bool-cases (x == hash)) [
  | inl hit ↦ (0, rw hit, omega arith, (==_iff x hash).0 hit)
  | inr miss ↦
      let (i, f, lt, at) = position_found hash hashes (ground (arith, miss, e)) in
      (suc i, rw (miss, f) (ground arith), omega (arith, lt), at)
]

pub new_node_total :
    (fuel start end : ℕ) → (data_of (new_node fuel start end 1 true)).total_length ≡ 0
unfolding new_node
new_node_total zero start end = refl
new_node_total (suc fuel) start end = ground arith

module _ (tree_hash : List ℕ → ℕ) where
  -- The tree is built anew over the hashes, or holds what it has hashed at their number.
  abbrev pub IsFilled : DiurnalBlock → Type 0
  IsFilled b =
      (tree : HashNode) × (b.tree ≡ some tree)
      × IsNode 0 (length b.hashes) tree
      × ((IsStale tree × ((data_of tree).total_length ≡ 0))
          ⊎ IsHashed tree_hash (datum_hash b.hashes) (length b.hashes) tree)

  pub new_tree-IsFilled :
      (hashes : List ℕ)
      → 0 < length hashes
      → length hashes + length hashes + 2 < u32_mod
      → IsFilled (record { hashes = hashes; tree = some (new_tree hashes) })
  new_tree-IsFilled hashes h k =
      let (v, s) =
        new_node-IsNode (length hashes) 0 (length hashes) h (omega arith) (omega arith) in
      (new_tree hashes, refl, v, inl (s, new_node_total (length hashes) 0 (length hashes)))

  -- Root of a filled block, and what it leaves.
  pub root_lem :
      (b : DiurnalBlock) (filled : IsFilled b)
      → 0 < length b.hashes
      → length b.hashes < u32_mod
      → ((root tree_hash b).0 ≡ root_of tree_hash (datum_hash b.hashes) filled.0)
        × IsFilled (root tree_hash b).1
        × ((root tree_hash b).1.hashes ≡ b.hashes)
  unfolding root
  root_lem b (tree, e, v, inl (stale, total)) h k =
      let (r, v', g, _) =
        hash_node_stale tree_hash (datum_hash b.hashes) 0 (length b.hashes) (length b.hashes) tree v
          stale (omega arith) k in
      rw e (r, (_, refl, v', inr g), refl)
  root_lem b (tree, e, v, inr g) h k =
      rw (e, hash_node_hashed tree_hash (datum_hash b.hashes) (length b.hashes) tree h g)
        (refl, (tree, refl, v, inr g), refl)

  total_length_hashed :
      (elements : ℕ → ℕ) (size : ℕ) (tree : HashNode)
      → IsHashed tree_hash elements size tree
      → (data_of tree).total_length ≡ size
  total_length_hashed elements size (leaf n) g = g.1
  total_length_hashed elements size (inner n child1 child2) g = g.1

  pub branch_tree_lem :
      (size position : ℕ) (tree : HashNode) (elements : ℕ → ℕ)
      → IsNode 0 size tree
      → (IsStale tree × ((data_of tree).total_length ≡ 0)) ⊎ IsHashed tree_hash elements size tree
      → position < size
      → size < u32_mod
      → (entries : List ℕ) × (tree' : HashNode) × (branch_tree tree_hash elements size position tree
          ≡ (entries, tree'))
        × (climb tree_hash entries (elements position) ≡ root_of tree_hash elements tree)
        × IsNode 0 size tree'
        × IsHashed tree_hash elements size tree'
  unfolding branch_tree
  branch_tree_lem size position tree elements v (inl (stale, total)) h k =
      let (_, v', g, same) =
        hash_node_stale tree_hash elements 0 size size tree v stale (omega arith) k in
      let tree' : HashNode = (hash_node tree_hash elements size tree).1 in
      let (up, kept) =
        branch_node_hashed tree_hash elements 0 size size position tree' v' g (omega arith) k
          (omega arith) h in
      (
        (branch_node tree_hash elements position tree').0,
        tree',
        rw total (ground (arith, kept)),
        up ∙ same,
        v',
        g,
      )
  branch_tree_lem size position tree elements v (inr g) h k =
      let (up, kept) =
        branch_node_hashed tree_hash elements 0 size size position tree v g (omega arith) k
          (omega arith) h in
      (
        (branch_node tree_hash elements position tree).0,
        tree,
        rw (total_length_hashed elements size tree g) (ground (arith, kept, h)),
        up,
        v,
        g,
      )

  -- Branch of a hash of a filled block.
  pub branch_lem :
      (hash : ℕ) (b : DiurnalBlock) (filled : IsFilled b)
      → contains hash b ≡ true
      → length b.hashes < u32_mod
      → (entries : List ℕ) × (b' : DiurnalBlock) × (branch tree_hash hash b ≡ some (entries, b'))
        × (climb tree_hash entries hash ≡ root_of tree_hash (datum_hash b.hashes) filled.0)
        × IsFilled b'
        × (b'.hashes ≡ b.hashes)
  branch_lem hash b (tree, e, v, state) here k =
      let (i, f, lt, at) = position_found hash b.hashes (unfold contains in here) in
      let elements : ℕ → ℕ = datum_hash b.hashes in
      let (entries, tree', same, up, v', g) =
        branch_tree_lem (length b.hashes) i tree elements v state lt k in
      (
        entries,
        record b { tree = some tree' },
        unfold branch in rw (e, f, same),
        rw (sym at) up,
        (tree', refl, v', inr g),
        refl,
      )
