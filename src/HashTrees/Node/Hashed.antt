-- ===== src/HashTrees/Node/Hashed.antt =====
-- A tree of hashes that is built anew, then hashed at its length: what its nodes hold, and where the
-- branch of a position leads.
use flex.Common.{
  ℕ, zero, suc, ◌+◌, ◌/◌, ◌%◌, ◌≤◌, ◌<◌, ◌≡◌, refl, sym, ◌∙◌, inl, inr, true, false, List, [], ◌∷◌,
  ◌++◌, ltb, leb, ◌==◌, if◌then◌else◌, arith, Bool-cases,
}
use flex.RelayState.Platform.{u32_mod}
use flex.HashTrees.{symmetric_combine}
use flex.HashTrees.Combine.{climb, climb-append, symmetric_combine_comm}
use flex.HashTrees.Node.{
  NodeData, HashNode, leaf, inner, new_node, combine_hash, hash_node, branch_node,
}

-- A tree over the elements from `start` up to `end`, of one element each and combined symmetrically.
abbrev pub IsNode : ℕ → ℕ → HashNode → Type 0
IsNode start end (leaf n) =
    (n.start ≡ start)
    × (n.end ≡ end)
    × (n.element_size ≡ 1)
    × (n.symmetric ≡ true)
    × (start < end)
    × (end ≤ start + 2)
IsNode start end (inner n child1 child2) =
    (n.element_size ≡ 1)
    × (n.symmetric ≡ true)
    × (n.middle ≡ (end + start) / 2)
    × (start + 2 < end)
    × IsNode start n.middle child1
    × IsNode n.middle end child2

abbrev pub IsStale : HashNode → Type 0
IsStale (leaf n) = n.up_to_date ≡ false
IsStale (inner n child1 child2) = (n.up_to_date ≡ false) × IsStale child1 × IsStale child2

-- The constructor, with fuel for each element, builds such a tree.
pub new_node-IsNode :
    (fuel start end : ℕ)
    → start < end
    → end + end + 2 < u32_mod
    → end ≤ start + 1 + fuel
    → IsNode start end (new_node fuel start end 1 true) × IsStale (new_node fuel start end 1 true)
unfolding new_node
new_node-IsNode zero start end h k f = ((refl, refl, refl, refl, omega arith, omega arith), refl)
new_node-IsNode (suc fuel) start end h k f = elim (Bool-cases (ltb ((start + 2) % u32_mod) end)) [
  | inl large ↦
      let middle : ℕ = (end + start) % u32_mod / 2 in
      let (l, sl) =
        new_node-IsNode fuel start middle (ground (arith, large)) (ground (arith, large))
          (ground (arith, large)) in
      let (r, sr) =
        new_node-IsNode fuel middle end (ground (arith, large)) (ground (arith, large))
          (ground (arith, large)) in
      rw large ((refl, refl, ground (arith, large), ground (arith, large), l, r), (refl, sl, sr))
  | inr small ↦ rw small ((refl, refl, refl, refl, omega arith, ground (arith, small)), refl)
]

module _ (tree_hash : List ℕ → ℕ) (elements : ℕ → ℕ) where
  -- The root of a tree, with no regard to what its nodes remember.
  abbrev pub root_of : HashNode → ℕ
  root_of (leaf n) =
      if n.end == n.start + 1
      then elements n.start
      else symmetric_combine tree_hash (elements n.start) (elements (n.start + 1))
  root_of (inner n child1 child2) = symmetric_combine tree_hash (root_of child1) (root_of child2)

  -- The root depends on the elements only.
  pub root_of_unique :
      (start end : ℕ) (node other : HashNode)
      → IsNode start end node
      → IsNode start end other
      → root_of node ≡ root_of other
  root_of_unique start end (leaf n) (leaf m) v w = ground (arith, v, w)
  root_of_unique start end (leaf n) (inner m a b) v w = absurd (omega (arith, v.5, w.3))
  root_of_unique start end (inner n a b) (leaf m) v w = absurd (omega (arith, w.5, v.3))
  root_of_unique start end (inner n a b) (inner m c d) (_, _, e, _, l, r) (_, _, f, _, l', r') =
      let same : n.middle ≡ m.middle = e ∙ sym f in
      rw
        (
          root_of_unique start n.middle a c l (rw same l'),
          root_of_unique n.middle end b d r (rw same r'),
        )
        refl

  -- Each node remembers its root at the length.
  abbrev pub IsHashed : ℕ → HashNode → Type 0
  IsHashed length (leaf n) =
      (n.up_to_date ≡ true) × (n.total_length ≡ length) × (n.hash ≡ root_of (leaf n))
  IsHashed length (inner n child1 child2) =
      (n.up_to_date ≡ true)
      × (n.total_length ≡ length)
      × (n.hash ≡ root_of (inner n child1 child2))
      × IsHashed length child1
      × IsHashed length child2

  hash_leaf :
      (start end length : ℕ) (n : NodeData)
      → IsNode start end (leaf n)
      → IsStale (leaf n)
      → end ≤ length
      → end < u32_mod
      → hash_node tree_hash elements length (leaf n) ≡ (
        root_of (leaf n),
        leaf (record n { total_length = length; hash = root_of (leaf n); up_to_date = true }),
      )
  unfolding hash_node combine_hash
  hash_leaf start end length n (es, ee, size, symmetric, lt, le) s h k =
      elim (Bool-cases (n.end == n.start + 1)) [
        | inl single ↦ rw (s, symmetric, size) (ground (arith, single, es, ee))
        | inr double ↦ rw (s, symmetric, size) (ground (arith, double, es, ee))
      ]

  hash_inner :
      (start end length : ℕ) (n : NodeData) (child1 child2 : HashNode)
      → IsNode start end (inner n child1 child2)
      → IsStale (inner n child1 child2)
      → end ≤ length
      → end < u32_mod
      → hash_node tree_hash elements length (inner n child1 child2) ≡ (
        symmetric_combine tree_hash
            (hash_node tree_hash elements length child1).0
            (hash_node tree_hash elements length child2).0,
        inner
            (record n {
              total_length = length;
              hash =
                  symmetric_combine tree_hash
                    (hash_node tree_hash elements length child1).0
                    (hash_node tree_hash elements length child2).0;
              up_to_date = true;
            })
            (hash_node tree_hash elements length child1).1
            (hash_node tree_hash elements length child2).1,
      )
  unfolding hash_node combine_hash
  hash_inner start end length n child1 child2 (size, symmetric, lo, hi, l, r) s h k =
      rw (s.0, symmetric, size) (ground (arith))

  -- Hash of a tree that is built anew.
  pub hash_node_stale :
      (start end length : ℕ) (node : HashNode)
      → IsNode start end node
      → IsStale node
      → end ≤ length
      → end < u32_mod
      → ((hash_node tree_hash elements length node).0 ≡ root_of node)
        × IsNode start end (hash_node tree_hash elements length node).1
        × IsHashed length (hash_node tree_hash elements length node).1
        × (root_of (hash_node tree_hash elements length node).1 ≡ root_of node)
  hash_node_stale start end length (leaf n) v s h k =
      rw (hash_leaf start end length n v s h k) (refl, v, (refl, refl, refl), refl)
  hash_node_stale start end length (inner n child1 child2) v s h k =
      let (size, symmetric, lo, hi, l, r) = v in
      let (e1, v1, h1, f1) =
        hash_node_stale start n.middle length child1 l s.1 (omega arith) (omega arith) in
      let (e2, v2, h2, f2) = hash_node_stale n.middle end length child2 r s.2 h k in
      rw (hash_inner start end length n child1 child2 v s h k, e1, e2, f1, f2)
        (refl, (size, symmetric, lo, hi, v1, v2), (refl, refl, refl, h1, h2), refl)

  pub hash_node_hashed :
      (length : ℕ) (node : HashNode)
      → 0 < length
      → IsHashed length node
      → hash_node tree_hash elements length node ≡ (root_of node, node)
  unfolding hash_node
  hash_node_hashed length (leaf n) h v = ground (arith, v)
  hash_node_hashed length (inner n child1 child2) h v = ground (arith, v)

  branch_inner :
      (start end length position : ℕ) (n : NodeData) (child1 child2 : HashNode)
      → IsNode start end (inner n child1 child2)
      → IsHashed length (inner n child1 child2)
      → 0 < length
      → end < u32_mod
      → branch_node tree_hash elements position (inner n child1 child2) ≡ (
          if leb n.middle position
          then (
            (branch_node tree_hash elements position child2).0 ++ root_of child1 ∷ [],
            inner n child1 (branch_node tree_hash elements position child2).1,
          )
          else (
            (branch_node tree_hash elements position child1).0 ++ root_of child2 ∷ [],
            inner n (branch_node tree_hash elements position child1).1 child2,
          ))
  unfolding branch_node
  branch_inner start end length position n child1 child2 (size, symmetric, lo, hi, _, _)
        (_, total, _, g1, g2) pos h =
      rw (size, total, hash_node_hashed length child1 pos g1, hash_node_hashed length child2 pos g2)
        (ground (arith, hi, h))

  -- The branch of a position leads from the element there to the root, and the tree stays as it is.
  pub branch_node_hashed :
      (start end length position : ℕ) (node : HashNode)
      → IsNode start end node
      → IsHashed length node
      → 0 < length
      → end < u32_mod
      → start ≤ position
      → position < end
      → (climb tree_hash (branch_node tree_hash elements position node).0 (elements position)
          ≡ root_of node)
        × ((branch_node tree_hash elements position node).1 ≡ node)
  branch_node_hashed start end length position (leaf n) (es, ee, size, symmetric, lt, le) g pos h k
        l =
      unfold branch_node in
      elim (Bool-cases (n.end == n.start + 1)) [
        | inl single ↦ ground (arith, single, es, ee)
        | inr double ↦
            let comm =
              symmetric_combine_comm tree_hash (elements n.start) (elements (n.start + 1)) in
            elim (Bool-cases (position == n.start)) [
              | inl first ↦ rw size (ground (arith, double, es, ee, first))
              | inr second ↦ rw size (ground (arith, double, es, ee, second, comm))
            ]
      ]
  branch_node_hashed start end length position (inner n child1 child2) v g pos h k l =
      let (size, symmetric, lo, hi, left, right) = v in
      let (fresh_, total, own, g1, g2) = g in
      let comm = symmetric_combine_comm tree_hash (root_of child1) (root_of child2) in
      elim (Bool-cases (leb n.middle position)) [
        | inr low ↦
            let (e, same) =
              branch_node_hashed start n.middle length position child1 left g1 pos (omega arith) k
                (ground (arith, low)) in
            let up =
              climb-append tree_hash (branch_node tree_hash elements position child1).0
                (root_of child2 ∷ []) (elements position) in
            rw (branch_inner start end length position n child1 child2 v g pos h, low, same)
              (rw up (rw e refl), refl)
        | inl high ↦
            let (e, same) =
              branch_node_hashed n.middle end length position child2 right g2 pos h
                (ground (arith, high)) l in
            let up =
              climb-append tree_hash (branch_node tree_hash elements position child2).0
                (root_of child1 ∷ []) (elements position) in
            rw (branch_inner start end length position n child1 child2 v g pos h, high, same)
              (rw up (rw e (sym comm)), refl)
      ]
