-- ===== src/CreditUtil/Cancel.antt =====
-- The bits to set and to clear, with those that stand in both taken out.
use flex.Common.{
  ℕ, ◌+◌, ◌≤◌, ◌≡◌, refl, false, ◌&&◌, List, [], ◌∷◌, ◌++◌, arith, ◌==◌, if◌then◌else◌, ◌⊎◌, inl,
  inr, Bool-cases, nat_eq,
}
use flex.VectorTools.{vector_contains_entry, erase_entry_from_vector}
use flex.VectorTools.Laws.{erase_entry_cons, erase_entry_nil}
use flex.CreditUtil.{cancel}

-- How often an entry stands in a vector.
abbrev pub occurrences : ℕ → List ℕ → ℕ
occurrences q [] = 0
occurrences q (x ∷ xs) = (if x == q then 1 else 0) + occurrences q xs

pub occurrences-append :
    (q : ℕ) (xs ys : List ℕ) → occurrences q (xs ++ ys) ≡ occurrences q xs + occurrences q ys
occurrences-append q [] ys = omega arith
occurrences-append q (x ∷ xs) ys = omega (arith, occurrences-append q xs ys)

contains-occurrences :
    (x : ℕ) (xs : List ℕ) → (if vector_contains_entry xs x then 1 else 0) ≤ occurrences x xs
unfolding vector_contains_entry
contains-occurrences x [] = omega arith
contains-occurrences x (y ∷ xs) = ground (arith, contains-occurrences x xs)

not_contained : (x : ℕ) (xs : List ℕ) → vector_contains_entry xs x ≡ false → occurrences x xs ≡ 0
unfolding vector_contains_entry
not_contained x [] h = refl
not_contained x (y ∷ xs) h = ground (arith, not_contained x xs)

occurrences-erase :
    (q x : ℕ) (xs : List ℕ)
    → occurrences q (erase_entry_from_vector x xs)
        + (if x == q && vector_contains_entry xs x then 1 else 0)
      ≡ occurrences q xs
unfolding vector_contains_entry
occurrences-erase q x [] = rw erase_entry_nil (ground arith)
occurrences-erase q x (y ∷ xs) = ground (arith, erase_entry_cons x y xs, occurrences-erase q x xs)

-- What is taken out of one vector is taken out of the other.
pub cancel-balance :
    (q : ℕ) (to_set to_clear : List ℕ)
    → occurrences q (cancel to_set to_clear).0 + occurrences q to_clear
      ≡ occurrences q (cancel to_set to_clear).1 + occurrences q to_set
unfolding cancel
cancel-balance q [] to_clear = omega arith
cancel-balance q (bit ∷ to_set) to_clear = elim (Bool-cases (vector_contains_entry to_clear bit)) [
  | inl old ↦ rw old (
      ground (
        arith,
        old,
        cancel-balance q to_set (erase_entry_from_vector bit to_clear),
        occurrences-erase q bit to_clear,
      ))
  | inr new ↦ rw new (ground (arith, cancel-balance q to_set to_clear))
]

cancel_second-le :
    (q : ℕ) (to_set to_clear : List ℕ)
    → occurrences q (cancel to_set to_clear).1 ≤ occurrences q to_clear
unfolding cancel
cancel_second-le q [] to_clear = omega arith
cancel_second-le q (bit ∷ to_set) to_clear =
    elim (Bool-cases (vector_contains_entry to_clear bit)) [
      | inl old ↦ rw old (
          ground (
            arith,
            cancel_second-le q to_set (erase_entry_from_vector bit to_clear),
            occurrences-erase q bit to_clear,
          ))
      | inr new ↦ rw new (cancel_second-le q to_set to_clear)
    ]

-- No entry is left in both.
pub cancel-disjoint :
    (q : ℕ) (to_set to_clear : List ℕ)
    → (occurrences q (cancel to_set to_clear).0 ≡ 0)
      ⊎ (occurrences q (cancel to_set to_clear).1 ≡ 0)
unfolding cancel
cancel-disjoint q [] to_clear = inl refl
cancel-disjoint q (bit ∷ to_set) to_clear = elim (Bool-cases (vector_contains_entry to_clear bit)) [
  | inl old ↦ rw old (cancel-disjoint q to_set (erase_entry_from_vector bit to_clear))
  | inr new ↦ rw new (
      ground (
        arith,
        cancel-disjoint q to_set to_clear,
        not_contained bit to_clear new,
        cancel_second-le q to_set to_clear,
      ))
]
