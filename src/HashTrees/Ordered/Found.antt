-- ===== src/HashTrees/Ordered/Found.antt =====
-- The position, the branch and the root that an ordered tree gives for an element.
use flex.Common.{
  ℕ, zero, suc, ◌+◌, ◌-◌, ◌%◌, ◌^◌, ◌<◌, ◌≡◌, refl, sym, ap, ◌∙◌, true, false, Option, none, some,
  List, [], ◌∷◌, arith, length, get_elem?, map, nat_eq,
}
use flex.RelayState.Platform.{u32_mod}
use flex.VectorTools.{position_of_entry_in_vector}
use flex.VectorTools.Laws.{Distinct}
use flex.HashTrees.Node.{HashNode, new_node, branch_tree, hash_node}
use flex.HashTrees.Combine.{climb}
use flex.HashTrees.Ordered
use flex.HashTrees.Ordered.{
  OrderedDataElement, OrderedHashTree, data_hash, element_hash, slot_hash, sort_hashes, equal_bytes,
  find_data, assign_positions, build_tree, built, verify_branch_from_ordered_hash_tree,
}
use flex.HashTrees.Ordered.Sorted.{
  contains-sort_hashes, length-sort_hashes, position_of_contained, get_elem_contained,
}
use flex.HashTrees.Ordered.Placed.{hashes_of}
use flex.HashTrees.Ordered.Ranked.{
  get_elem-ranked, length-ranked, find_own, find_hash, get_elem-hashes_of, get_elem-map-some,
  length-map-some, length-hashes_of,
}
use flex.HashTrees.Ordered.Branch.{
  in_order, repositioned, assign_positions_lem, in_order_position, find_data_lem, tree_lem,
}

equal_bytes_refl : (a : List ℕ) → equal_bytes a a ≡ true
equal_bytes_refl [] = refl
equal_bytes_refl (x ∷ xs) = ground (arith, equal_bytes_refl xs)

equal_bytes_sound : (a b : List ℕ) → equal_bytes a b ≡ true → a ≡ b
equal_bytes_sound [] [] h = refl
equal_bytes_sound [] (y ∷ ys) h = absurd (cc)
equal_bytes_sound (x ∷ xs) [] h = absurd (cc)
equal_bytes_sound (x ∷ xs) (y ∷ ys) h =
    let head : x ≡ y = ground (arith, h) in
    let tail = equal_bytes_sound xs ys (ground (arith, h)) in λ i. head i ∷ tail i

get_elem-lt :
    (k : ℕ) (r : OrderedDataElement) (rs : List OrderedDataElement)
    → get_elem? rs k ≡ some r
    → k < length rs
get_elem-lt k r [] at = absurd (cc)
get_elem-lt zero r (x ∷ rs) at = omega arith
get_elem-lt (suc k) r (x ∷ rs) at = omega (arith, get_elem-lt k r rs at)

-- A tree to which the elements were added, with no positions yet.
abbrev pub unordered : ℕ → List OrderedDataElement → OrderedHashTree
unordered offset es = record {
  elements = map some es;
  tree = none;
  positions_assigned = false;
  offset = offset;
}

-- ... and after positions were assigned, with a tree or none.
abbrev pub ordered : ℕ → List OrderedDataElement → Option HashNode → OrderedHashTree
ordered offset rs tree = record {
  elements = map some rs;
  tree = tree;
  positions_assigned = true;
  offset = offset;
}

-- The tree that BuildTree builds over the elements.
abbrev with_tree : OrderedHashTree → OrderedHashTree
with_tree t = record t { tree = some (new_node (length t.elements) 0 (length t.elements) 1 true) }

module _ (tree_hash : List ℕ → ℕ) where
  pub position_lem :
      (offset : ℕ) (es : List OrderedDataElement) (bytes : List ℕ)
      → Distinct (hashes_of tree_hash es)
      → Ordered.position tree_hash bytes (unordered offset es) ≡ (
        find_data tree_hash bytes (map some (in_order tree_hash offset es)),
        ordered offset (in_order tree_hash offset es) none,
      )
  unfolding Ordered.position
  position_lem offset es bytes d =
      ap (λ t. (find_data tree_hash bytes t.elements, t))
        (assign_positions_lem tree_hash (unordered offset es) es refl d)

  pub length-in_order :
      (offset : ℕ) (es : List OrderedDataElement)
      → length (in_order tree_hash offset es) ≡ length es
  length-in_order offset es =
      length-ranked tree_hash offset 0 es (sort_hashes (hashes_of tree_hash es))
      ∙ length-sort_hashes (hashes_of tree_hash es)
      ∙ length-hashes_of tree_hash es

  -- An element that was added is found at some place of the order, under that place's position.
  pub found_lem :
      (offset i : ℕ) (e : OrderedDataElement) (es : List OrderedDataElement)
      → Distinct (hashes_of tree_hash es)
      → offset + length es < 2 ^ 64
      → get_elem? es i ≡ some e
      → (k : ℕ) × (r : OrderedDataElement) × (get_elem? (in_order tree_hash offset es) k ≡ some r)
        × (r.bytes ≡ e.bytes)
        × (k < length es)
        × (find_data tree_hash e.bytes (map some (in_order tree_hash offset es))
            ≡ some (offset + k))
  found_lem offset i e es d fits at =
      let hash : ℕ = data_hash tree_hash e in
      let sorted : List ℕ = sort_hashes (hashes_of tree_hash es) in
      let inside =
        contains-sort_hashes hash (hashes_of tree_hash es)
        ∙ get_elem_contained i hash (hashes_of tree_hash es)
            (get_elem-hashes_of tree_hash i e es at) in
      let j : ℕ = position_of_entry_in_vector hash sorted in
      let there =
        get_elem-ranked tree_hash offset 0 j hash es sorted
          (position_of_contained hash sorted inside).1 in
      let same : equal_bytes e.bytes (find_hash tree_hash hash es).bytes ≡ true =
        ap (λ x. equal_bytes e.bytes x.bytes) (find_own tree_hash i e es d at)
        ∙ equal_bytes_refl e.bytes in
      let (k, r, here, equal, found) =
        find_data_lem tree_hash j
          (repositioned ((offset + (0 + j)) % 2 ^ 64) (find_hash tree_hash hash es)) e.bytes
          (in_order tree_hash offset es) there same in
      let lt = get_elem-lt k r (in_order tree_hash offset es) here in
      (
        k,
        r,
        here,
        sym (equal_bytes_sound e.bytes r.bytes equal),
        omega (arith, lt, length-in_order offset es),
        found
            ∙ ap some (
                in_order_position tree_hash offset k r es here
                ∙ small (offset + k) (omega (arith, lt, length-in_order offset es, fits))),
      )
    where
      small : (n : ℕ) → n < 2 ^ 64 → n % 2 ^ 64 ≡ n
      small n h = omega arith

  built_lem :
      (offset : ℕ) (rs : List OrderedDataElement)
      → Distinct (hashes_of tree_hash rs)
      → built tree_hash (ordered offset rs none)
        ≡ ordered offset (in_order tree_hash offset rs) (
            some (
              new_node
                (length (map some (in_order tree_hash offset rs)))
                0
                (length (map some (in_order tree_hash offset rs)))
                1
                true))
  unfolding built build_tree
  built_lem offset rs d =
      ap with_tree (assign_positions_lem tree_hash (ordered offset rs none) rs refl d)

  branches :
      (offset k : ℕ) (rs : List OrderedDataElement) (entries : List ℕ) (hashed : HashNode)
      → (offset + k + 2 ^ 64 - offset) % 2 ^ 64 ≡ k
      → Distinct (hashes_of tree_hash rs)
      → branch_tree tree_hash
          (slot_hash tree_hash (map some (in_order tree_hash offset rs)))
          (length (map some (in_order tree_hash offset rs)))
          k
          (new_node
            (length (map some (in_order tree_hash offset rs)))
            0
            (length (map some (in_order tree_hash offset rs)))
            1
            true)
        ≡ (entries, hashed)
      → Ordered.branch tree_hash (offset + k) (ordered offset rs none)
        ≡ (entries, ordered offset (in_order tree_hash offset rs) (some hashed))
  unfolding Ordered.branch
  branches offset k rs entries hashed at d e =
      rw (built_lem offset rs d, Ordered.branch, built_lem offset rs d, at, e) refl

  roots :
      (offset : ℕ) (rs : List OrderedDataElement) (hashed : HashNode) (hash : ℕ)
      → hash_node tree_hash (slot_hash tree_hash (map some rs)) (length (map some rs)) hashed
        ≡ (hash, hashed)
      → Ordered.root tree_hash (ordered offset rs (some hashed))
        ≡ (hash, ordered offset rs (some hashed))
  unfolding Ordered.root built
  roots offset rs hashed hash f = ap (λ r. (r.0, ordered offset rs (some r.1))) f

  -- Branch and Root after positions are assigned.
  pub branch_lem :
      (offset k : ℕ) (rs : List OrderedDataElement)
      → Distinct (hashes_of tree_hash rs)
      → k < length rs
      → offset + length rs + length rs + 2 < u32_mod
      → (entries : List ℕ) × (hashed : HashNode) × (Ordered.branch tree_hash
            (offset + k)
            (ordered offset rs none)
          ≡ (entries, ordered offset (in_order tree_hash offset rs) (some hashed)))
        × (Ordered.root tree_hash (ordered offset (in_order tree_hash offset rs) (some hashed)) ≡ (
          climb tree_hash entries (slot_hash tree_hash (map some (in_order tree_hash offset rs)) k),
          ordered offset (in_order tree_hash offset rs) (some hashed),
        ))
  branch_lem offset k rs d h fits =
      let placed : List (Option OrderedDataElement) = map some (in_order tree_hash offset rs) in
      let size : ℕ = length placed in
      let same =
        length-map-some tree_hash (in_order tree_hash offset rs) ∙ length-in_order offset rs in
      let (entries, hashed, e, f) =
        tree_lem tree_hash size k placed (omega (arith, same)) (omega (arith, same)) in
      let at : (offset + k + 2 ^ 64 - offset) % 2 ^ 64 ≡ k = omega (arith) in
      (
        entries,
        hashed,
        branches offset k rs entries hashed at d e,
        roots offset (in_order tree_hash offset rs) hashed _ f,
      )

  pub hash_at :
      (offset k : ℕ) (r : OrderedDataElement) (rs : List OrderedDataElement)
      → offset + k < 2 ^ 64
      → get_elem? rs k ≡ some (repositioned ((offset + (0 + k)) % 2 ^ 64) r)
      → slot_hash tree_hash (map some rs) k
        ≡ element_hash tree_hash (record { position = offset + k; bytes = r.bytes })
  hash_at offset k r rs fits at =
      let p : (offset + (0 + k)) % 2 ^ 64 ≡ offset + k = omega arith in
      rw
        (
          get_elem-map-some tree_hash k (repositioned ((offset + (0 + k)) % 2 ^ 64) r) rs at,
          slot_hash,
        )
        (ap (λ q. element_hash tree_hash (record { position = q; bytes = r.bytes })) p)

  pub position_again :
      (offset : ℕ) (rs : List OrderedDataElement) (bytes : List ℕ)
      → Ordered.position tree_hash bytes (ordered offset rs none)
        ≡ (find_data tree_hash bytes (map some rs), ordered offset rs none)
  unfolding Ordered.position
  position_again offset rs bytes = refl
