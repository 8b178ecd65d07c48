-- ===== src/HashTrees/Ordered/Ranked.antt =====
-- AssignPositions puts the elements of a tree in the order of their hashes, if these are different.
use flex.Common.{
  ℕ, zero, suc, ◌+◌, ◌%◌, ◌^◌, ◌≡◌, refl, sym, ap, ◌∙◌, inl, inr, true, Option, some, List, [], ◌∷◌,
  arith, ◌==◌, if◌then◌else◌, length, get_elem?, map, All, Bool-cases, nat_eq, ==_iff,
}
use flex.VectorTools.{vector_contains_entry, position_of_entry_in_vector}
use flex.VectorTools.Laws.{Distinct}
use flex.HashTrees.Ordered.{OrderedDataElement, data_hash, place_each, null_elements, sort_hashes}
use flex.HashTrees.Ordered.Sorted.{
  contains-sort_hashes, length-sort_hashes, sort_hashes-Distinct, position_of_Distinct,
  get_elem_contained,
}
use flex.HashTrees.Ordered.Placed.{hashes_of, moved, length-place, place_own}

module _ (tree_hash : List ℕ → ℕ) where
  -- An element with the hash, if there is one.
  abbrev pub find_hash : ℕ → List OrderedDataElement → OrderedDataElement
  find_hash hash [] = record { position = 0; bytes = [] }
  find_hash hash (e ∷ es) =
      let rest = find_hash hash es in if data_hash tree_hash e == hash then e else rest

  find_hash_lem :
      (hash : ℕ) (es : List OrderedDataElement)
      → vector_contains_entry (hashes_of tree_hash es) hash ≡ true
      → (data_hash tree_hash (find_hash hash es) ≡ hash)
        × ((i : ℕ) × (get_elem? es i ≡ some (find_hash hash es)))
  unfolding vector_contains_entry
  find_hash_lem hash [] h = absurd (ground arith)
  find_hash_lem hash (e ∷ es) h = elim (Bool-cases (data_hash tree_hash e == hash)) [
    | inl hit ↦ rw hit ((==_iff (data_hash tree_hash e) hash).0 hit, (0, refl))
    | inr miss ↦
        let (same, (i, at)) = find_hash_lem hash es (ground (arith, h, miss)) in
        rw miss (same, (suc i, at))
  ]

  -- The elements in the order of the hashes, under their positions from `k` on.
  abbrev pub ranked : ℕ → ℕ → List OrderedDataElement → List ℕ → List OrderedDataElement
  ranked offset k es [] = []
  ranked offset k es (hash ∷ hashes) =
      record (find_hash hash es) { position = (offset + k) % 2 ^ 64 }
      ∷ ranked offset (k + 1) es hashes

  pub hashes_of-ranked :
      (offset k : ℕ) (es : List OrderedDataElement) (hashes : List ℕ)
      → All (λ hash. vector_contains_entry (hashes_of tree_hash es) hash ≡ true) hashes
      → hashes_of tree_hash (ranked offset k es hashes) ≡ hashes
  hashes_of-ranked offset k es [] v = refl
  hashes_of-ranked offset k es (hash ∷ hashes) v =
      rw ((find_hash_lem hash es v.0).0, hashes_of-ranked offset (k + 1) es hashes v.1) refl

  pub length-ranked :
      (offset k : ℕ) (es : List OrderedDataElement) (hashes : List ℕ)
      → length (ranked offset k es hashes) ≡ length hashes
  length-ranked offset k es [] = refl
  length-ranked offset k es (hash ∷ hashes) = omega (arith, length-ranked offset (k + 1) es hashes)

  pub get_elem-ranked :
      (offset k j hash : ℕ) (es : List OrderedDataElement) (hashes : List ℕ)
      → get_elem? hashes j ≡ some hash
      → get_elem? (ranked offset k es hashes) j
        ≡ some (record (find_hash hash es) { position = (offset + (k + j)) % 2 ^ 64 })
  get_elem-ranked offset k j hash es [] e = absurd (cc)
  get_elem-ranked offset k zero hash es (first ∷ hashes) e =
      let p : k ≡ k + 0 = omega arith in
      let q : first ≡ hash = ground (arith, e) in
      λ i. some (record { position = (offset + p i) % 2 ^ 64; bytes = (find_hash (q i) es).bytes })
  get_elem-ranked offset k (suc j) hash es (first ∷ hashes) e =
      let p : k + 1 + j ≡ k + suc j = omega arith in
      get_elem-ranked offset (k + 1) j hash es hashes e ∙ (λ i.
        some (record { position = (offset + p i) % 2 ^ 64; bytes = (find_hash hash es).bytes }))

  pub get_elem-map-some :
      (j : ℕ) (r : OrderedDataElement) (rs : List OrderedDataElement)
      → get_elem? rs j ≡ some r
      → get_elem? (map some rs) j ≡ some (some r)
  get_elem-map-some j r [] e = absurd (cc)
  get_elem-map-some zero r (x ∷ rs) e = ap (λ o. o) (ground (arith, e))
  get_elem-map-some (suc j) r (x ∷ rs) e = get_elem-map-some j r rs e

  same_list :
      (xs ys : List (Option OrderedDataElement)) (hashes : List ℕ)
      → length xs ≡ length hashes
      → length ys ≡ length hashes
      → ((j hash : ℕ) → get_elem? hashes j ≡ some hash → get_elem? xs j ≡ get_elem? ys j)
      → xs ≡ ys
  same_list [] [] hashes h k at = refl
  same_list [] (y ∷ ys) [] h k at = absurd (omega arith)
  same_list [] (y ∷ ys) (x ∷ hashes) h k at = absurd (omega arith)
  same_list (x ∷ xs) [] [] h k at = absurd (omega arith)
  same_list (x ∷ xs) [] (y ∷ hashes) h k at = absurd (omega arith)
  same_list (x ∷ xs) (y ∷ ys) [] h k at = absurd (omega arith)
  same_list (x ∷ xs) (y ∷ ys) (hash ∷ hashes) h k at =
      let head : x ≡ y = ground (arith, at 0 hash refl) in
      let tail =
        same_list xs ys hashes (omega (arith, h)) (omega (arith, k))
          (λ j other e. at (suc j) other e) in
      λ i. head i ∷ tail i

  length-null : (n : ℕ) → length (null_elements n) ≡ n
  unfolding null_elements
  length-null zero = refl
  length-null (suc n) = omega (arith, length-null n)

  pub length-hashes_of :
      (es : List OrderedDataElement) → length (hashes_of tree_hash es) ≡ length es
  length-hashes_of [] = refl
  length-hashes_of (e ∷ es) = omega (arith, length-hashes_of es)

  contains_own :
      (es : List OrderedDataElement) (sorted : List ℕ)
      → ((x : ℕ)
          → vector_contains_entry (hashes_of tree_hash es) x ≡ true
          → vector_contains_entry sorted x ≡ true)
      → All (λ e. vector_contains_entry sorted (data_hash tree_hash e) ≡ true) es
  contains_own [] sorted h = tt
  contains_own (e ∷ es) sorted h = (
    h (data_hash tree_hash e) (unfold vector_contains_entry in ground arith),
    contains_own es sorted (λ x p. h x (unfold vector_contains_entry in ground (arith, p))),
  )

  pub length-map-some : (rs : List OrderedDataElement) → length (map some rs) ≡ length rs
  length-map-some [] = refl
  length-map-some (r ∷ rs) = omega (arith, length-map-some rs)

  at_rank :
      (offset j hash : ℕ) (es : List OrderedDataElement) (sorted : List ℕ)
      (placed : List (Option OrderedDataElement))
      → get_elem? sorted j ≡ some hash
      → data_hash tree_hash (find_hash hash es) ≡ hash
      → position_of_entry_in_vector hash sorted ≡ j
      → get_elem?
          (place_each tree_hash offset sorted (map some es) placed)
          (position_of_entry_in_vector (data_hash tree_hash (find_hash hash es)) sorted)
        ≡ some (some (moved tree_hash offset sorted (find_hash hash es)))
      → get_elem? (place_each tree_hash offset sorted (map some es) placed) j
        ≡ get_elem? (map some (ranked offset 0 es sorted)) j
  at_rank offset j hash es sorted placed at own rank own_place =
      let here : position_of_entry_in_vector (data_hash tree_hash (find_hash hash es)) sorted ≡ j =
        ap (λ h. position_of_entry_in_vector h sorted) own ∙ rank in
      let start : 0 + j ≡ j = omega arith in
      sym (ap (get_elem? (place_each tree_hash offset sorted (map some es) placed)) here)
      ∙ own_place
      ∙ (λ i. some (
          some
            (record { position = (offset + here i) % 2 ^ 64; bytes = (find_hash hash es).bytes })))
      ∙ sym (
          get_elem-map-some j _ (ranked offset 0 es sorted) (
            get_elem-ranked offset 0 j hash es sorted at ∙ (λ i. some (record {
              position = (offset + start i) % 2 ^ 64;
              bytes = (find_hash hash es).bytes;
            }))))

  -- AssignPositions of elements with different hashes puts each under its rank, with none missing.
  pub placed-ranked :
      (offset : ℕ) (es : List OrderedDataElement)
      → Distinct (hashes_of tree_hash es)
      → place_each tree_hash offset
          (sort_hashes (hashes_of tree_hash es))
          (map some es)
          (null_elements (length es))
        ≡ map some (ranked offset 0 es (sort_hashes (hashes_of tree_hash es)))
  placed-ranked offset es d =
      let sorted : List ℕ = sort_hashes (hashes_of tree_hash es) in
      let placed : List (Option OrderedDataElement) = null_elements (length es) in
      let size : length sorted ≡ length placed =
        length-sort_hashes (hashes_of tree_hash es)
        ∙ length-hashes_of es
        ∙ sym (length-null (length es)) in
      let all =
        contains_own es sorted (λ x p. contains-sort_hashes x (hashes_of tree_hash es) ∙ p) in
      same_list _ _ sorted (length-place tree_hash offset sorted es placed ∙ sym size)
        (length-map-some (ranked offset 0 es sorted) ∙ length-ranked offset 0 es sorted)
        (λ j hash at.
          let here =
            sym (contains-sort_hashes hash (hashes_of tree_hash es))
            ∙ get_elem_contained j hash sorted at in
          let (own, (i, found)) = find_hash_lem hash es here in
          let rank =
            position_of_Distinct j hash sorted (sort_hashes-Distinct (hashes_of tree_hash es) d)
              at in
          at_rank offset j hash es sorted placed at own rank
            (place_own tree_hash offset sorted i (find_hash hash es) es placed d all size found))

  pub same_some : (x e : OrderedDataElement) → some x ≡ some e → x ≡ e
  same_some x e at = ground (arith, at)

  pub get_elem-hashes_of :
      (i : ℕ) (e : OrderedDataElement) (es : List OrderedDataElement)
      → get_elem? es i ≡ some e
      → get_elem? (hashes_of tree_hash es) i ≡ some (data_hash tree_hash e)
  get_elem-hashes_of i e [] at = absurd (cc)
  get_elem-hashes_of zero e (x ∷ es) at = ap (λ x. some (data_hash tree_hash x)) (same_some x e at)
  get_elem-hashes_of (suc i) e (x ∷ es) at = get_elem-hashes_of i e es at

  -- An element is found under its hash.
  pub find_own :
      (i : ℕ) (e : OrderedDataElement) (es : List OrderedDataElement)
      → Distinct (hashes_of tree_hash es)
      → get_elem? es i ≡ some e
      → find_hash (data_hash tree_hash e) es ≡ e
  find_own i e [] d at = absurd (cc)
  find_own zero e (x ∷ es) d at =
      let same : x ≡ e = ground (arith, at) in rw (sym same) (ground arith)
  find_own (suc i) e (x ∷ es) d at =
      let inside =
        get_elem_contained i (data_hash tree_hash e) (hashes_of tree_hash es)
          (get_elem-hashes_of i e es at) in
      ground (arith, find_own i e es d.1 at, inside, d.0)
