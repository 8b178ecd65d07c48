-- ===== src/HashTrees/Ordered/Branch.antt =====
-- The branch of an element of an ordered tree verifies.
use flex.Common.{
  ℕ, zero, suc, ◌+◌, ◌%◌, ◌^◌, ◌<◌, ◌≡◌, refl, sym, ap, ◌∙◌, inl, inr, true, false, Option, some,
  List, [], ◌∷◌, ◌++◌, arith, ◌==◌, length, get_elem?, map, All, Bool-cases, nat_eq, ==_refl,
  length-append,
}
use flex.RelayState.Platform.{u32_mod}
use flex.VectorTools.{vector_contains_entry}
use flex.VectorTools.Laws.{Distinct}
use flex.HashTrees.{evaluate_branch_with_hash}
use flex.HashTrees.Combine.{climb, evaluate_rest-climb}
use flex.HashTrees.Node.{HashNode, new_node, hash_node, branch_tree}
use flex.HashTrees.Node.Hashed.{root_of_unique, new_node-IsNode, hash_node_hashed}
use flex.HashTrees.DiurnalBlock.Filled.{branch_tree_lem, new_node_total}
use flex.HashTrees.Ordered.{
  OrderedDataElement, OrderedHashTree, data_hash, element_hash, slot_hash, these_hashes, place_each,
  null_elements, sort_hashes, equal_bytes, find_data, assign_positions, last_entry,
  verify_branch_from_ordered_hash_tree,
}
use flex.HashTrees.Ordered.Sorted.{
  contains-sort_hashes, sort_hashes-Distinct, sort_hashes-IsAscending, sort_hashes-ascending,
}
use flex.HashTrees.Ordered.Placed.{hashes_of, these_hashes-some}
use flex.HashTrees.Ordered.Ranked.{
  ranked, placed-ranked, hashes_of-ranked, get_elem-ranked, find_own, find_hash, get_elem-hashes_of,
  length-map-some, same_some,
}

abbrev pub repositioned : ℕ → OrderedDataElement → OrderedDataElement
repositioned at e = record e { position = at }

module _ (tree_hash : List ℕ → ℕ) where
  -- The elements of a tree in the order of their hashes, under their positions.
  abbrev pub in_order : ℕ → List OrderedDataElement → List OrderedDataElement
  in_order offset es = ranked tree_hash offset 0 es (sort_hashes (hashes_of tree_hash es))

  pub assign_positions_lem :
      (t : OrderedHashTree) (es : List OrderedDataElement)
      → t.elements ≡ map some es
      → Distinct (hashes_of tree_hash es)
      → assign_positions tree_hash t
        ≡ record t { elements = map some (in_order t.offset es); positions_assigned = true }
  unfolding assign_positions
  assign_positions_lem t es e d =
      ap
        (λ xs. record t {
          elements =
              place_each tree_hash t.offset (sort_hashes (these_hashes tree_hash xs)) xs
                (null_elements (length xs));
          positions_assigned = true;
        })
        e
      ∙ ap (λ xs. record t { elements = xs; positions_assigned = true })
          (ap
              (λ hs.
                place_each tree_hash t.offset (sort_hashes hs) (map some es)
                  (null_elements (length (map some es))))
              (these_hashes-some tree_hash es)
            ∙ ap
                (λ n.
                  place_each tree_hash t.offset (sort_hashes (hashes_of tree_hash es)) (map some es)
                    (null_elements n))
                (length-map-some tree_hash es)
            ∙ placed-ranked tree_hash t.offset es d)

  All-contained :
      (es : List OrderedDataElement) (hashes : List ℕ)
      → ((x : ℕ)
          → vector_contains_entry hashes x ≡ true
          → vector_contains_entry (hashes_of tree_hash es) x ≡ true)
      → All (λ hash. vector_contains_entry (hashes_of tree_hash es) hash ≡ true) hashes
  All-contained es [] h = tt
  All-contained es (x ∷ hashes) h = (
    h x (unfold vector_contains_entry in ground arith),
    All-contained es hashes (λ y p. h y (unfold vector_contains_entry in ground (arith, p))),
  )

  -- The hashes of the elements in order are the sorted hashes.
  pub hashes-in_order :
      (offset : ℕ) (es : List OrderedDataElement)
      → hashes_of tree_hash (in_order offset es) ≡ sort_hashes (hashes_of tree_hash es)
  hashes-in_order offset es =
      hashes_of-ranked tree_hash offset 0 es (sort_hashes (hashes_of tree_hash es)) (
        All-contained es (sort_hashes (hashes_of tree_hash es))
          (λ x p. sym (contains-sort_hashes x (hashes_of tree_hash es)) ∙ p))

  pub in_order-Distinct :
      (offset : ℕ) (es : List OrderedDataElement)
      → Distinct (hashes_of tree_hash es)
      → Distinct (hashes_of tree_hash (in_order offset es))
  in_order-Distinct offset es d =
      rw (hashes-in_order offset es) (sort_hashes-Distinct (hashes_of tree_hash es) d)

  -- An element at place `k` of the order has position `k` after the offset.
  pub in_order_position :
      (offset k : ℕ) (r : OrderedDataElement) (es : List OrderedDataElement)
      → get_elem? (in_order offset es) k ≡ some r
      → r.position ≡ (offset + k) % 2 ^ 64
  in_order_position offset k r es at =
      let hash = get_elem-hashes_of tree_hash k r (in_order offset es) at in
      let sorted_at : get_elem? (sort_hashes (hashes_of tree_hash es)) k
          ≡ some (data_hash tree_hash r) =
        ap (λ hs. get_elem? hs k) (sym (hashes-in_order offset es)) ∙ hash in
      let moved : OrderedDataElement =
        repositioned ((offset + (0 + k)) % 2 ^ 64)
          (find_hash tree_hash (data_hash tree_hash r) es) in
      let same : r ≡ moved = same_some tree_hash r moved (
        sym at
        ∙ get_elem-ranked tree_hash offset 0 k (data_hash tree_hash r) es
            (sort_hashes (hashes_of tree_hash es)) sorted_at) in
      let start : 0 + k ≡ k = omega arith in
      ap (λ e. e.position) same ∙ ap (λ j. (offset + j) % 2 ^ 64) start

  -- Assigning positions again leaves the elements in their places.
  pub in_order_again :
      (offset k : ℕ) (r : OrderedDataElement) (es : List OrderedDataElement)
      → Distinct (hashes_of tree_hash es)
      → get_elem? (in_order offset es) k ≡ some r
      → get_elem? (in_order offset (in_order offset es)) k
        ≡ some (record r { position = (offset + (0 + k)) % 2 ^ 64 })
  in_order_again offset k r es d at =
      let hash = get_elem-hashes_of tree_hash k r (in_order offset es) at in
      let sorted_at : get_elem? (sort_hashes (hashes_of tree_hash (in_order offset es))) k
          ≡ some (data_hash tree_hash r) =
        ap (λ hs. get_elem? (sort_hashes hs) k) (hashes-in_order offset es)
        ∙ ap (λ hs. get_elem? hs k)
            (sort_hashes-ascending (sort_hashes (hashes_of tree_hash es))
              (sort_hashes-IsAscending (hashes_of tree_hash es)))
        ∙ ap (λ hs. get_elem? hs k) (sym (hashes-in_order offset es))
        ∙ hash in
      get_elem-ranked tree_hash offset 0 k (data_hash tree_hash r) (in_order offset es)
        (sort_hashes (hashes_of tree_hash (in_order offset es))) sorted_at
      ∙ ap (λ e. some (repositioned ((offset + (0 + k)) % 2 ^ 64) e))
          (find_own tree_hash k r (in_order offset es) (in_order-Distinct offset es d) at)

  -- Position finds an element with the bytes.
  pub find_data_lem :
      (i : ℕ) (r : OrderedDataElement) (bytes : List ℕ) (rs : List OrderedDataElement)
      → get_elem? rs i ≡ some r
      → equal_bytes bytes r.bytes ≡ true
      → (k : ℕ) × (found : OrderedDataElement) × (get_elem? rs k ≡ some found)
        × (equal_bytes bytes found.bytes ≡ true)
        × (find_data tree_hash bytes (map some rs) ≡ some found.position)
  unfolding find_data
  find_data_lem i r bytes [] at same = absurd (cc)
  find_data_lem zero r bytes (x ∷ rs) at same =
      let e : equal_bytes bytes x.bytes ≡ true =
        ap (λ y. equal_bytes bytes y.bytes) (same_some tree_hash x r at) ∙ same in
      (0, x, refl, e, rw e refl)
  find_data_lem (suc i) r bytes (x ∷ rs) at same = elim (Bool-cases (equal_bytes bytes x.bytes)) [
    | inl hit ↦ (0, x, refl, hit, rw hit refl)
    | inr miss ↦
        let (k, found, here, e, f) = find_data_lem i r bytes rs at same in
        (suc k, found, here, e, rw (miss, f) refl)
  ]

  -- The tree that BuildTree builds, and what Branch and Root find in it.
  pub tree_lem :
      (size k : ℕ) (elements : List (Option OrderedDataElement))
      → k < size
      → size + size + 2 < u32_mod
      → (entries : List ℕ) × (hashed : HashNode) × (branch_tree tree_hash
            (slot_hash tree_hash elements)
            size
            k
            (new_node size 0 size 1 true)
          ≡ (entries, hashed))
        × (hash_node tree_hash (slot_hash tree_hash elements) size hashed
            ≡ (climb tree_hash entries (slot_hash tree_hash elements k), hashed))
  tree_lem size k elements h fits =
      let (v, stale) = new_node-IsNode size 0 size (omega arith) (omega arith) (omega arith) in
      let (entries, hashed, e, up, w, g) =
        branch_tree_lem tree_hash size k (new_node size 0 size 1 true)
          (slot_hash tree_hash elements) v (inl (stale, new_node_total size 0 size)) h
          (omega arith) in
      (
        entries,
        hashed,
        e,
        hash_node_hashed tree_hash (slot_hash tree_hash elements) size hashed (omega arith) g
            ∙ (λ i. (
              (root_of_unique tree_hash (slot_hash tree_hash elements) 0 size hashed
                      (new_node size 0 size 1 true) w v
                    ∙ sym up)
                  i,
              hashed,
            )),
      )

  length-append_ne : (entries : List ℕ) (x : ℕ) → (length (entries ++ x ∷ []) == 0) ≡ false
  length-append_ne entries x = ground (arith, length-append entries (x ∷ []))

  last_entry-append : (entries : List ℕ) (x : ℕ) → last_entry tree_hash (entries ++ x ∷ []) ≡ x
  unfolding last_entry
  last_entry-append [] x = refl
  last_entry-append (y ∷ []) x = refl
  last_entry-append (y ∷ z ∷ entries) x = last_entry-append (z ∷ entries) x

  -- A branch that leads from the hash of the element to the root verifies.
  pub verify_lem :
      (at root : ℕ) (bytes entries : List ℕ)
      → climb tree_hash entries (element_hash tree_hash (record { position = at; bytes = bytes }))
        ≡ root
      → verify_branch_from_ordered_hash_tree tree_hash at bytes (entries ++ root ∷ []) root ≡ true
  unfolding verify_branch_from_ordered_hash_tree evaluate_branch_with_hash
  verify_lem at root bytes entries up =
      rw
        (
          length-append_ne entries root,
          last_entry-append entries root,
          ==_refl root,
          evaluate_rest-climb tree_hash entries root
              (element_hash tree_hash (record { position = at; bytes = bytes })),
          up,
        )
        (==_refl root)
