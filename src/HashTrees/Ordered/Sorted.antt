-- ===== src/HashTrees/Ordered/Sorted.antt =====
-- The sorted hashes of AssignPositions, and the position of a hash among them.
use flex.Common.{
  ℕ, zero, suc, ◌+◌, ◌≤◌, ◌<◌, ◌≡◌, refl, ◌∙◌, inl, inr, true, false, ◌||◌, some, List, [], ◌∷◌,
  arith, ltb, ◌==◌, length, get_elem?, All, All-mono, Bool-cases, nat_eq,
}
use flex.VectorTools.{vector_contains_entry, position_of_entry_in_vector}
use flex.VectorTools.Laws.{Distinct}
use flex.HashTrees.Ordered.{insert_hash, sort_hashes}

contains-insert_hash :
    (hash x : ℕ) (hashes : List ℕ)
    → vector_contains_entry (insert_hash hash hashes) x
      ≡ ((hash == x) || vector_contains_entry hashes x)
unfolding insert_hash vector_contains_entry
contains-insert_hash hash x [] = refl
contains-insert_hash hash x (first ∷ hashes) = ground (arith, contains-insert_hash hash x hashes)

pub contains-sort_hashes :
    (x : ℕ) (hashes : List ℕ)
    → vector_contains_entry (sort_hashes hashes) x ≡ vector_contains_entry hashes x
unfolding sort_hashes vector_contains_entry
contains-sort_hashes x [] = refl
contains-sort_hashes x (hash ∷ hashes) =
    ground (arith, contains-insert_hash hash x (sort_hashes hashes), contains-sort_hashes x hashes)

length-insert_hash :
    (hash : ℕ) (hashes : List ℕ) → length (insert_hash hash hashes) ≡ length hashes + 1
unfolding insert_hash
length-insert_hash hash [] = omega arith
length-insert_hash hash (first ∷ hashes) = ground (arith, length-insert_hash hash hashes)

pub length-sort_hashes : (hashes : List ℕ) → length (sort_hashes hashes) ≡ length hashes
unfolding sort_hashes
length-sort_hashes [] = refl
length-sort_hashes (hash ∷ hashes) =
    omega (arith, length-insert_hash hash (sort_hashes hashes), length-sort_hashes hashes)

insert_hash-Distinct :
    (hash : ℕ) (hashes : List ℕ)
    → Distinct hashes
    → vector_contains_entry hashes hash ≡ false
    → Distinct (insert_hash hash hashes)
unfolding insert_hash vector_contains_entry
insert_hash-Distinct hash [] d h = (refl, tt)
insert_hash-Distinct hash (first ∷ hashes) d h =
    ground (arith, insert_hash-Distinct hash hashes d.1, contains-insert_hash hash first hashes)

pub sort_hashes-Distinct : (hashes : List ℕ) → Distinct hashes → Distinct (sort_hashes hashes)
unfolding sort_hashes
sort_hashes-Distinct [] d = tt
sort_hashes-Distinct (hash ∷ hashes) d =
    insert_hash-Distinct hash (sort_hashes hashes) (sort_hashes-Distinct hashes d.1)
      (contains-sort_hashes hash hashes ∙ d.0)

-- Each hash is at most the hashes after it.
abbrev pub IsAscending : List ℕ → Type 0
IsAscending [] = Unit
IsAscending (hash ∷ hashes) = All (λ x. hash ≤ x) hashes × IsAscending hashes

All-insert_hash :
    (low hash : ℕ) (hashes : List ℕ)
    → low ≤ hash
    → All (λ x. low ≤ x) hashes
    → All (λ x. low ≤ x) (insert_hash hash hashes)
unfolding insert_hash
All-insert_hash low hash [] h v = (h, tt)
All-insert_hash low hash (first ∷ hashes) h v =
    ground (arith, All-insert_hash low hash hashes h v.1)

insert_hash-IsAscending :
    (hash : ℕ) (hashes : List ℕ) → IsAscending hashes → IsAscending (insert_hash hash hashes)
unfolding insert_hash
insert_hash-IsAscending hash [] v = (tt, tt)
insert_hash-IsAscending hash (first ∷ hashes) v = elim (Bool-cases (ltb first hash)) [
  | inl less ↦ rw less (
    All-insert_hash first hash hashes (ground (arith, less)) v.0,
    insert_hash-IsAscending hash hashes v.1,
  )
  | inr more ↦
      rw more ((ground (arith, more), All-mono hashes (λ x h. ground (arith, more, h)) v.0), v)
]

pub sort_hashes-IsAscending : (hashes : List ℕ) → IsAscending (sort_hashes hashes)
unfolding sort_hashes
sort_hashes-IsAscending [] = tt
sort_hashes-IsAscending (hash ∷ hashes) =
    insert_hash-IsAscending hash (sort_hashes hashes) (sort_hashes-IsAscending hashes)

insert_first :
    (hash : ℕ) (hashes : List ℕ)
    → All (λ x. hash ≤ x) hashes
    → insert_hash hash hashes ≡ hash ∷ hashes
unfolding insert_hash
insert_first hash [] v = refl
insert_first hash (first ∷ hashes) v = ground (arith, v.0)

-- Sorting again changes nothing.
pub sort_hashes-ascending : (hashes : List ℕ) → IsAscending hashes → sort_hashes hashes ≡ hashes
unfolding sort_hashes
sort_hashes-ascending [] v = refl
sort_hashes-ascending (hash ∷ hashes) v =
    rw (sort_hashes-ascending hashes v.1) (insert_first hash hashes v.0)

pub position_of_contained :
    (x : ℕ) (hashes : List ℕ)
    → vector_contains_entry hashes x ≡ true
    → (position_of_entry_in_vector x hashes < length hashes)
      × (get_elem? hashes (position_of_entry_in_vector x hashes) ≡ some x)
unfolding vector_contains_entry position_of_entry_in_vector
position_of_contained x [] h = absurd (ground arith)
position_of_contained x (first ∷ hashes) h = elim (Bool-cases (first == x)) [
  | inl hit ↦ rw hit (omega arith, ground (arith, hit))
  | inr miss ↦
      let (lt, e) = position_of_contained x hashes (ground (arith, miss, h)) in
      rw miss (omega (arith, lt), e)
]

pub get_elem_contained :
    (k x : ℕ) (hashes : List ℕ)
    → get_elem? hashes k ≡ some x
    → vector_contains_entry hashes x ≡ true
unfolding vector_contains_entry
get_elem_contained k x [] e = absurd (cc)
get_elem_contained zero x (first ∷ hashes) e = ground (arith, e)
get_elem_contained (suc k) x (first ∷ hashes) e = ground (arith, get_elem_contained k x hashes e)

pub position_of_Distinct :
    (k x : ℕ) (hashes : List ℕ)
    → Distinct hashes
    → get_elem? hashes k ≡ some x
    → position_of_entry_in_vector x hashes ≡ k
unfolding position_of_entry_in_vector
position_of_Distinct k x [] d e = absurd (cc)
position_of_Distinct zero x (first ∷ hashes) d e = ground (arith, e)
position_of_Distinct (suc k) x (first ∷ hashes) d e =
    ground (arith, d.0, get_elem_contained k x hashes e, position_of_Distinct k x hashes d.1 e)
