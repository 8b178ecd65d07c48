-- ===== src/HashTrees/Ordered.antt =====
-- The classes OrderedDataElement and OrderedHashTree of src/crypto/hashtrees.h. A pointer of the vector
-- that is NULL, as AssignPositions leaves where two elements have the same data hash, is none.
pub mod Verify
pub mod Sorted
pub mod Placed
pub mod Ranked
pub mod Branch
pub mod Found
pub mod Accepted
use flex.Common.{
  ℕ, zero, suc, ◌+◌, ◌-◌, ◌%◌, ◌^◌, Bool, true, false, not, ◌&&◌, ◌||◌, Option, none, some, List,
  [], ◌∷◌, ◌++◌, ltb, ◌==◌, if◌then◌else◌, length, get_elem?, get_or, map, Eq, nat_eq,
}
use flex.VectorTools.{position_of_entry_in_vector}
use flex.HashTrees.{bytes_of, evaluate_branch_with_hash}
use flex.HashTrees.Node.{HashNode, new_node, hash_node, branch_tree}

pub record OrderedDataElement : Type 0 where
  pub position : ℕ
  pub bytes : List ℕ

pub record OrderedHashTree : Type 0 where
  pub elements : List (Option OrderedDataElement)
  pub tree : Option HashNode
  pub positions_assigned : Bool
  pub offset : ℕ

-- OrderedHashTree(offset)
abbrev pub empty_tree : ℕ → OrderedHashTree
empty_tree offset = record {
  elements = [];
  tree = none;
  positions_assigned = false;
  offset = offset;
}

-- vch_t of `n` zero bytes
unfoldable pub zeros : ℕ → List ℕ
zeros zero = []
zeros (suc n) = 0 ∷ zeros n

-- memcpy of the bytes to the front of the buffer
unfoldable pub write : List ℕ → List ℕ → List ℕ
write [] buffer = buffer
write (byte ∷ bytes) [] = []
write (byte ∷ bytes) (old ∷ buffer) = byte ∷ write bytes buffer

-- position_plus_data of OrderedDataElement::Hash
unfoldable pub position_plus_data : OrderedDataElement → List ℕ
unfolding zeros write bytes_of
position_plus_data element =
    write element.bytes (write (bytes_of 4 element.position) (zeros (4 + length element.bytes)))

-- OrderedHashTree::AddElement, AddOrderedDataElement
unfoldable pub add_element_data : List ℕ → OrderedHashTree → OrderedHashTree
add_element_data bytes t = record t {
  elements = t.elements ++ some (record { position = 0; bytes = bytes }) ∷ [];
  positions_assigned = false;
}

unfoldable pub insert_hash : ℕ → List ℕ → List ℕ
insert_hash hash [] = hash ∷ []
insert_hash hash (first ∷ hashes) =
    let rest = insert_hash hash hashes in
    if ltb first hash then first ∷ rest else hash ∷ first ∷ hashes

-- sort(sorted_hashes.begin(), sorted_hashes.end())
unfoldable pub sort_hashes : List ℕ → List ℕ
unfolding insert_hash
sort_hashes [] = []
sort_hashes (hash ∷ hashes) = insert_hash hash (sort_hashes hashes)

-- sorted_elements[i] = element
unfoldable pub set_element :
    ℕ → OrderedDataElement → List (Option OrderedDataElement) → List (Option OrderedDataElement)
set_element i element [] = []
set_element zero element (old ∷ elements) = some element ∷ elements
set_element (suc i) element (old ∷ elements) = old ∷ set_element i element elements

abbrev pub equal_bytes : List ℕ → List ℕ → Bool
equal_bytes [] [] = true
equal_bytes [] (y ∷ ys) = false
equal_bytes (x ∷ xs) [] = false
equal_bytes (x ∷ xs) (y ∷ ys) = (x == y) && equal_bytes xs ys

-- sorted_elements.resize(n)
unfoldable pub null_elements : ℕ → List (Option OrderedDataElement)
null_elements zero = []
null_elements (suc n) = none ∷ null_elements n

module _ (tree_hash : List ℕ → ℕ) where
  -- OrderedDataElement::DataHash
  abbrev pub data_hash : OrderedDataElement → ℕ
  data_hash element = tree_hash element.bytes

  -- OrderedDataElement::Hash
  unfoldable pub element_hash : OrderedDataElement → ℕ
  unfolding position_plus_data
  element_hash element = tree_hash (position_plus_data element)

  -- elements[i]->Hash(), with 0 for a null pointer or no element
  abbrev pub slot_hash : List (Option OrderedDataElement) → ℕ → ℕ
  slot_hash elements i = elim (get_or (get_elem? elements i) none) [
    | none ↦ 0
    | some element ↦ element_hash element
  ]

  -- these_hashes, with 0 for a null pointer
  unfoldable pub these_hashes : List (Option OrderedDataElement) → List ℕ
  these_hashes [] = []
  these_hashes (none ∷ elements) = 0 ∷ these_hashes elements
  these_hashes (some element ∷ elements) = data_hash element ∷ these_hashes elements

  -- The second and the third loop of AssignPositions: the position of each element, and its place.
  unfoldable pub place_each :
      ℕ
      → List ℕ
      → List (Option OrderedDataElement)
      → List (Option OrderedDataElement)
      → List (Option OrderedDataElement)
  unfolding set_element position_of_entry_in_vector
  place_each offset sorted [] placed = placed
  place_each offset sorted (none ∷ elements) placed = place_each offset sorted elements placed
  place_each offset sorted (some element ∷ elements) placed =
      let index = position_of_entry_in_vector (data_hash element) sorted in
      place_each offset sorted elements
        (set_element index (record element { position = (offset + index) % 2 ^ 64 }) placed)

  -- OrderedHashTree::AssignPositions
  unfoldable pub assign_positions : OrderedHashTree → OrderedHashTree
  unfolding these_hashes sort_hashes place_each null_elements
  assign_positions t = record t {
    elements =
        place_each t.offset (sort_hashes (these_hashes t.elements)) t.elements
          (null_elements (length t.elements));
    positions_assigned = true;
  }

  -- OrderedHashTree::BuildTree
  unfoldable pub build_tree : OrderedHashTree → OrderedHashTree
  unfolding assign_positions
  build_tree t =
      let assigned = assign_positions t in
      record assigned {
        tree = some (new_node (length assigned.elements) 0 (length assigned.elements) 1 true);
      }

  -- if (!tree || !positions_assigned) BuildTree()
  unfoldable pub built : OrderedHashTree → OrderedHashTree
  unfolding build_tree
  built t = elim t.tree [
    | none ↦ build_tree t
    | some tree ↦ if t.positions_assigned then t else build_tree t
  ]

  unfoldable pub find_data : List ℕ → List (Option OrderedDataElement) → Option ℕ
  find_data bytes [] = none
  find_data bytes (none ∷ elements) = find_data bytes elements
  find_data bytes (some element ∷ elements) =
      let rest = find_data bytes elements in
      if equal_bytes bytes element.bytes then some element.position else rest

  -- OrderedHashTree::Position: `none` is -1
  unfoldable pub position : List ℕ → OrderedHashTree → Option ℕ × OrderedHashTree
  unfolding find_data assign_positions
  position bytes t =
      let assigned = if t.positions_assigned then t else assign_positions t in
      (find_data bytes assigned.elements, assigned)

  -- OrderedHashTree::Branch
  unfoldable pub branch : ℕ → OrderedHashTree → List ℕ × OrderedHashTree
  branch at t =
      let ready = built t in
      elim ready.tree [
        | none ↦ ([], ready)
        | some tree ↦
            let (entries, hashed) =
              branch_tree tree_hash (slot_hash ready.elements) (length ready.elements)
                ((at + 2 ^ 64 - ready.offset) % 2 ^ 64) tree in
            (entries, record ready { tree = some hashed })
      ]

  -- OrderedHashTree::Root
  unfoldable pub root : OrderedHashTree → ℕ × OrderedHashTree
  root t =
      let ready = built t in
      elim ready.tree [
        | none ↦ (0, ready)
        | some tree ↦
            let (hash, hashed) =
              hash_node tree_hash (slot_hash ready.elements) (length ready.elements) tree in
            (hash, record ready { tree = some hashed })
      ]

  unfoldable pub last_entry : List ℕ → ℕ
  last_entry [] = 0
  last_entry (entry ∷ []) = entry
  last_entry (entry ∷ next ∷ entries) = last_entry (next ∷ entries)

  -- VerifyBranchFromOrderedHashTree
  unfoldable pub verify_branch_from_ordered_hash_tree : ℕ → List ℕ → List ℕ → ℕ → Bool
  unfolding last_entry element_hash evaluate_branch_with_hash
  verify_branch_from_ordered_hash_tree at element entries claimed =
      if length entries == 0 || not (claimed == last_entry entries)
      then false
      else evaluate_branch_with_hash tree_hash entries
          (element_hash (record { position = at; bytes = element })) 0
        == claimed
