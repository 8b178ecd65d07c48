-- ===== src/HashTrees/Ordered/Placed.antt =====
-- Where AssignPositions puts the elements, if no two have the same data hash.
use flex.Common.{
  ℕ, zero, suc, ◌+◌, ◌%◌, ◌^◌, ◌≡◌, refl, sym, ap, ◌∙◌, true, false, ◌&&◌, Option, some, List, [],
  ◌∷◌, arith, ltb, ◌==◌, if◌then◌else◌, length, get_elem?, map, All, nat_eq,
}
use flex.VectorTools.{vector_contains_entry, position_of_entry_in_vector}
use flex.VectorTools.Laws.{Distinct}
use flex.HashTrees.Ordered.{OrderedDataElement, data_hash, these_hashes, set_element, place_each}
use flex.HashTrees.Ordered.Sorted.{position_of_contained}

get_elem-set_element :
    (i j : ℕ) (e : OrderedDataElement) (xs : List (Option OrderedDataElement))
    → get_elem? (set_element i e xs) j
      ≡ (if (i == j) && ltb j (length xs) then some (some e) else get_elem? xs j)
unfolding set_element
get_elem-set_element i j e [] = ground arith
get_elem-set_element zero zero e (x ∷ xs) = ground arith
get_elem-set_element zero (suc j) e (x ∷ xs) = ground arith
get_elem-set_element (suc i) zero e (x ∷ xs) = ground arith
get_elem-set_element (suc i) (suc j) e (x ∷ xs) = ground (arith, get_elem-set_element i j e xs)

length-set_element :
    (i : ℕ) (e : OrderedDataElement) (xs : List (Option OrderedDataElement))
    → length (set_element i e xs) ≡ length xs
unfolding set_element
length-set_element i e [] = refl
length-set_element zero e (x ∷ xs) = refl
length-set_element (suc i) e (x ∷ xs) = omega (arith, length-set_element i e xs)

module _ (tree_hash : List ℕ → ℕ) where
  abbrev pub hashes_of : List OrderedDataElement → List ℕ
  hashes_of es = map (data_hash tree_hash) es

  pub these_hashes-some :
      (es : List OrderedDataElement) → these_hashes tree_hash (map some es) ≡ hashes_of es
  unfolding these_hashes
  these_hashes-some [] = refl
  these_hashes-some (e ∷ es) = ap (λ rest. data_hash tree_hash e ∷ rest) (these_hashes-some es)

  module _ (offset : ℕ) (sorted : List ℕ) where
    abbrev index : OrderedDataElement → ℕ
    index e = position_of_entry_in_vector (data_hash tree_hash e) sorted

    -- The element under its position.
    abbrev pub moved : OrderedDataElement → OrderedDataElement
    moved e = record e { position = (offset + index e) % 2 ^ 64 }

    abbrev place :
        List OrderedDataElement
        → List (Option OrderedDataElement)
        → List (Option OrderedDataElement)
    place es placed = place_each tree_hash offset sorted (map some es) placed

    pub length-place :
        (es : List OrderedDataElement) (placed : List (Option OrderedDataElement))
        → length (place es placed) ≡ length placed
    unfolding place_each
    length-place [] placed = refl
    length-place (e ∷ es) placed =
        length-place es (set_element (index e) (moved e) placed)
        ∙ length-set_element (index e) (moved e) placed

    place_other :
        (k : ℕ) (es : List OrderedDataElement) (placed : List (Option OrderedDataElement))
        → All (λ e. (index e == k) ≡ false) es
        → get_elem? (place es placed) k ≡ get_elem? placed k
    unfolding place_each
    place_other k [] placed h = refl
    place_other k (e ∷ es) placed h =
        place_other k es (set_element (index e) (moved e) placed) h.1
        ∙ get_elem-set_element (index e) k (moved e) placed
        ∙ (rw h.0 refl)

    different_index :
        (a b : OrderedDataElement)
        → vector_contains_entry sorted (data_hash tree_hash a) ≡ true
        → vector_contains_entry sorted (data_hash tree_hash b) ≡ true
        → (data_hash tree_hash a == data_hash tree_hash b) ≡ false
        → (index a == index b) ≡ false
    different_index a b ha hb ne = ground (
      arith,
      (position_of_contained (data_hash tree_hash a) sorted ha).1,
      (position_of_contained (data_hash tree_hash b) sorted hb).1,
      ne,
      ap (get_elem? sorted),
    )

    different_indices :
        (e : OrderedDataElement) (es : List OrderedDataElement)
        → vector_contains_entry sorted (data_hash tree_hash e) ≡ true
        → All (λ x. vector_contains_entry sorted (data_hash tree_hash x) ≡ true) es
        → vector_contains_entry (hashes_of es) (data_hash tree_hash e) ≡ false
        → All (λ x. (index x == index e) ≡ false) es
    unfolding vector_contains_entry
    different_indices e [] he v h = tt
    different_indices e (x ∷ es) he v h = (
      different_index x e v.0 he (ground (arith, h)),
      different_indices e es he v.1 (ground (arith, h)),
    )

    -- Each element is placed at the index of its hash.
    pub place_own :
        (i : ℕ) (e : OrderedDataElement) (es : List OrderedDataElement)
        (placed : List (Option OrderedDataElement))
        → Distinct (hashes_of es)
        → All (λ x. vector_contains_entry sorted (data_hash tree_hash x) ≡ true) es
        → length sorted ≡ length placed
        → get_elem? es i ≡ some e
        → get_elem? (place es placed) (index e) ≡ some (some (moved e))
    unfolding place_each
    place_own i e [] placed d v h at = absurd (cc)
    place_own zero e (x ∷ es) placed d v h at =
        let same : x ≡ e = ground (arith, at) in
        let lt = (position_of_contained (data_hash tree_hash x) sorted v.0).0 in
        rw (sym same) (
          place_other (index x) es (set_element (index x) (moved x) placed)
            (different_indices x es v.0 v.1 d.0)
          ∙ get_elem-set_element (index x) (index x) (moved x) placed
          ∙ ground (arith, lt, h))
    place_own (suc i) e (x ∷ es) placed d v h at =
        place_own i e es (set_element (index x) (moved x) placed) d.1 v.1
          (h ∙ sym (length-set_element (index x) (moved x) placed)) at
