-- ===== src/HashTrees/DiurnalBlock.antt =====
-- The classes uint160Datum and DiurnalBlock of src/crypto/hashtrees.h: hashes in a row, with the tree
-- over them.
pub mod Bytes
pub mod Filled
use flex.Common.{
  ℕ, zero, suc, ◌+◌, ◌*◌, Bool, true, Option, none, some, List, [], ◌∷◌, ◌++◌, ◌==◌, if◌then◌else◌,
  length, get_elem?, get_or, drop, is_some,
}
use flex.HashTrees.{bytes_of}
use flex.HashTrees.Node.{HashNode, new_node, hash_node, branch_tree}

-- `tree` is none for NULL.
pub record DiurnalBlock : Type 0 where
  pub hashes : List ℕ
  pub tree : Option HashNode

abbrev pub empty_block : DiurnalBlock
empty_block = record { hashes = []; tree = none }

-- new HashTree<uint160Datum>(hashes, 1, true)
abbrev pub new_tree : List ℕ → HashNode
new_tree hashes = new_node (length hashes) 0 (length hashes) 1 true

-- hashes[i]->Hash()
abbrev pub datum_hash : List ℕ → ℕ → ℕ
datum_hash hashes i = get_or (get_elem? hashes i) 0

-- DiurnalBlock::Add
unfoldable pub add : ℕ → DiurnalBlock → DiurnalBlock
add hash b =
    let hashes = b.hashes ++ hash ∷ [] in record { hashes = hashes; tree = some (new_tree hashes) }

-- hashes.resize(hashes.size() - 1)
unfoldable pub without_last : List ℕ → List ℕ
without_last [] = []
without_last (x ∷ []) = []
without_last (x ∷ y ∷ xs) = x ∷ without_last (y ∷ xs)

-- DiurnalBlock::RemoveLast. An empty block has no last element to delete.
unfoldable pub remove_last : DiurnalBlock → Option DiurnalBlock
unfolding without_last
remove_last b = elim b.hashes [
  | [] ↦ none
  | x ∷ xs ↦
      some
        (record { hashes = without_last (x ∷ xs); tree = some (new_tree (without_last (x ∷ xs))) })
]

-- DiurnalBlock::Position: `none` is -1
unfoldable pub position : ℕ → List ℕ → Option ℕ
position hash [] = none
position hash (x ∷ xs) =
    let rest = position hash xs in
    if x == hash then some 0 else elim rest [ none ↦ none | some i ↦ some (i + 1) ]

-- DiurnalBlock::Contains
unfoldable pub contains : ℕ → DiurnalBlock → Bool
unfolding position
contains hash b = is_some (position hash b.hashes)

-- DiurnalBlock::getvch
unfoldable pub getvch : List ℕ → List ℕ
unfolding bytes_of
getvch [] = []
getvch (hash ∷ hashes) = bytes_of 20 hash ++ getvch hashes

-- memcpy of bytes into a number, lowest first
unfoldable pub number_of : ℕ → List ℕ → ℕ
number_of zero bytes = 0
number_of (suc width) [] = 0
number_of (suc width) (byte ∷ bytes) = byte + 256 * number_of width bytes

-- The last loop of DiurnalBlock::setvch, with fuel for each byte.
unfoldable pub add_each : ℕ → List ℕ → DiurnalBlock → DiurnalBlock
unfolding add number_of
add_each zero bytes b = b
add_each (suc fuel) [] b = b
add_each (suc fuel) (byte ∷ bytes) b =
    add_each fuel (drop 20 (byte ∷ bytes)) (add (number_of 20 (byte ∷ bytes)) b)

-- The first loop of DiurnalBlock::setvch, with fuel for each hash.
unfoldable pub remove_each : ℕ → DiurnalBlock → DiurnalBlock
unfolding remove_last
remove_each zero b = b
remove_each (suc fuel) b = elim (remove_last b) [
  | none ↦ b
  | some shorter ↦ remove_each fuel shorter
]

-- DiurnalBlock::setvch
unfoldable pub setvch : List ℕ → DiurnalBlock → DiurnalBlock
unfolding add_each remove_each
setvch bytes b = add_each (length bytes) bytes (remove_each (length b.hashes) b)

module _ (tree_hash : List ℕ → ℕ) where
  -- DiurnalBlock::Root
  unfoldable pub root : DiurnalBlock → ℕ × DiurnalBlock
  unfolding hash_node
  root b = elim b.tree [
    | none ↦ (0, b)
    | some tree ↦
        let (hash, hashed) = hash_node tree_hash (datum_hash b.hashes) (length b.hashes) tree in
        (hash, record b { tree = some hashed })
  ]

  -- DiurnalBlock::Branch: `none` where there is no tree. The position -1 becomes the greatest
  -- number of 64 bits.
  unfoldable pub branch : ℕ → DiurnalBlock → Option (List ℕ × DiurnalBlock)
  unfolding branch_tree position
  branch hash b = elim b.tree [
    | none ↦ none
    | some tree ↦
        let at = get_or (position hash b.hashes) 18_446_744_073_709_551_615 in
        let (entries, hashed) =
          branch_tree tree_hash (datum_hash b.hashes) (length b.hashes) at tree in
        some (entries, record b { tree = some hashed })
  ]
