-- ===== src/HashTrees/Node.antt =====
-- The classes HashNode and HashTree of src/crypto/hashtrees.h, over elements that ignore Set and
-- Clear, as uint160Datum and OrderedDataElement do. elements[i]->Hash() is a function of i.
pub mod Hashed
use flex.Common.{
  ℕ, zero, suc, ◌+◌, ◌-◌, ◌*◌, ◌/◌, ◌%◌, Bool, true, false, not, ◌&&◌, ◌||◌, List, [], ◌∷◌, ◌++◌,
  ltb, leb, ◌==◌, if◌then◌else◌, length,
}
use flex.RelayState.Platform.{u32_mod}
use flex.HashTrees.{asymmetric_combine, symmetric_combine}

pub record NodeData : Type 0 where
  pub start : ℕ
  pub middle : ℕ
  pub end : ℕ
  pub element_size : ℕ
  pub symmetric : Bool
  pub total_length : ℕ
  pub hash : ℕ
  pub up_to_date : Bool

-- A node whose middle is not zero has children.
pub data HashNode : Type 0 where
  leaf : NodeData → HashNode
  inner : NodeData → HashNode → HashNode → HashNode

abbrev pub data_of : HashNode → NodeData
data_of (leaf n) = n
data_of (inner n child1 child2) = n

abbrev pub fresh : ℕ → ℕ → ℕ → ℕ → Bool → NodeData
fresh start middle end element_size symmetric = record {
  start = start;
  middle = middle;
  end = end;
  element_size = element_size;
  symmetric = symmetric;
  total_length = 0;
  hash = 0;
  up_to_date = false;
}

-- HashNode::HashNode, on fuel
unfoldable pub new_node : ℕ → ℕ → ℕ → ℕ → Bool → HashNode
new_node zero start end element_size symmetric = leaf (fresh start 0 end element_size symmetric)
new_node (suc fuel) start end element_size symmetric =
    let middle = (end + start) % u32_mod / 2 in
    let child1 = new_node fuel start middle element_size symmetric in
    let child2 = new_node fuel middle end element_size symmetric in
    if ltb ((start + 2) % u32_mod) end
    then inner (fresh start middle end element_size symmetric) child1 child2
    else leaf (fresh start 0 end element_size symmetric)

-- HashNode::AddElement
unfoldable pub add_element : HashNode → Bool × HashNode
add_element (inner n child1 child2) =
    let (added, child) = add_element child2 in
    (added, inner (if added then record n { end = (n.end + 1) % u32_mod } else n) child1 child)
add_element (leaf n) =
    if n.end == (n.start + 1) % u32_mod
    then (true, leaf (record n { end = (n.end + 1) % u32_mod; up_to_date = false }))
    else (false, leaf (record n { total_length = n.total_length + 1 }))

-- HashNode::Set and HashNode::Clear: the first component tells whether a HashTreeException is thrown.
unfoldable pub touch : ℕ → HashNode → Bool × HashNode
touch position (inner n child1 child2) =
    let (thrown1, left) = touch position child1 in
    let (thrown2, right) = touch position child2 in
    if ltb position (n.middle * n.element_size % u32_mod)
    then (thrown1, inner (record n { up_to_date = false }) left child2)
    else (thrown2, inner (record n { up_to_date = false }) child1 right)
touch position (leaf n) = (
  not (leb n.start (position / n.element_size) && leb (position / n.element_size) n.end),
  leaf (record n { up_to_date = false }),
)

module _ (tree_hash : List ℕ → ℕ) where
  -- HashNode::CombineHash
  unfoldable pub combine_hash : NodeData → ℕ → ℕ → ℕ
  combine_hash n hash1 hash2 =
      if n.symmetric
      then symmetric_combine tree_hash hash1 hash2
      else asymmetric_combine tree_hash hash1 hash2

  module _ (elements : ℕ → ℕ) where
    -- HashNode::Hash
    unfoldable pub hash_node : ℕ → HashNode → ℕ × HashNode
    unfolding combine_hash
    hash_node length (leaf n) =
        let hash =
          if n.end == (n.start + 1) % u32_mod
            || ltb length ((n.start + 1) % u32_mod * n.element_size % u32_mod)
          then elements n.start
          else combine_hash n (elements n.start) (elements ((n.end + u32_mod - 1) % u32_mod)) in
        if length == 0
        then (0, leaf n)
        else if n.up_to_date && (length == n.total_length)
        then (n.hash, leaf n)
        else (hash, leaf (record n { total_length = length; hash = hash; up_to_date = true }))
    hash_node length (inner n child1 child2) =
        let (hash1, left) = hash_node length child1 in
        let (hash2, right) = hash_node length child2 in
        let both = leb (n.middle * n.element_size % u32_mod) length in
        let hash = if both then combine_hash n hash1 hash2 else hash1 in
        if length == 0
        then (0, inner n child1 child2)
        else if n.up_to_date && (length == n.total_length)
        then (n.hash, inner n child1 child2)
        else (
          hash,
          inner (record n { total_length = length; hash = hash; up_to_date = true }) left
              (if both then right else child2),
        )

    -- HashNode::Branch
    unfoldable pub branch_node : ℕ → HashNode → List ℕ × HashNode
    unfolding hash_node
    branch_node position (leaf n) =
        if n.end == (n.start + 1) % u32_mod
        then ([], leaf n)
        else if not (position / n.element_size == n.start)
        then (elements n.start ∷ [], leaf n)
        else (elements ((n.end + u32_mod - 1) % u32_mod) ∷ [], leaf n)
    branch_node position (inner n child1 child2) =
        let (branch1, down1) = branch_node position child1 in
        let (branch2, down2) = branch_node position child2 in
        let (hash1, left) = hash_node n.total_length child1 in
        let (hash2, right) = hash_node n.total_length child2 in
        if leb (n.middle * n.element_size % u32_mod) position
        then (branch2 ++ hash1 ∷ [], inner n left down2)
        else (branch1 ++ hash2 ∷ [], inner n down1 right)

    -- HashTree::Branch, of a tree with `size` elements
    unfoldable pub branch_tree : ℕ → ℕ → HashNode → List ℕ × HashNode
    unfolding hash_node branch_node
    branch_tree size position root =
        branch_node position
          (if (data_of root).total_length == 0 then (hash_node size root).1 else root)
