-- ===== src/VectorTools/Laws.antt =====
-- What src/vector_tools.h promises: an erase takes out one entry and leaves the others.
use flex.Common.{
  ◌+◌, ◌≡◌, refl, sym, true, false, List, [], ◌∷◌, ◌++◌, arith, if◌then◌else◌, length, Eq, ◌||◌,
  Bool-cases, inl, inr,
}
use flex.VectorTools.{
  erase_at, vector_contains_entry, position_of_entry_in_vector, erase_entry_from_vector,
}

module _ {ℓ} {A : Type ℓ} ⦃e : Eq A⦄ where
  beq_refl : (a : A) → e.beq a a ≡ true
  beq_refl a = (e.beq_iff a a).1 refl

  -- The code's erase by position is the recursion that drops the first equal entry.
  pub erase_entry_cons :
      (x y : A) (xs : List A)
      → erase_entry_from_vector x (y ∷ xs)
        ≡ (if e.beq y x then xs else y ∷ erase_entry_from_vector x xs)
  unfolding erase_entry_from_vector position_of_entry_in_vector erase_at
  erase_entry_cons x y xs = ground arith

  pub erase_entry_nil : (x : A) → erase_entry_from_vector x [] ≡ []
  unfolding erase_entry_from_vector position_of_entry_in_vector erase_at
  erase_entry_nil x = refl

  -- An entry that is not there leaves the vector as it was; one that is there shortens it by one.
  pub length-erase_entry :
      (x : A) (xs : List A)
      → length (erase_entry_from_vector x xs) + (if vector_contains_entry xs x then 1 else 0)
        ≡ length xs
  unfolding vector_contains_entry
  length-erase_entry x [] = rw erase_entry_nil (omega arith)
  length-erase_entry x (y ∷ xs) = ground (arith, erase_entry_cons x y xs, length-erase_entry x xs)

  -- Other entries stay.
  pub contains-erase_entry_ne :
      (x y : A) (xs : List A)
      → e.beq x y ≡ false
      → vector_contains_entry (erase_entry_from_vector x xs) y ≡ vector_contains_entry xs y
  unfolding vector_contains_entry
  contains-erase_entry_ne x y [] h = rw erase_entry_nil
  contains-erase_entry_ne x y (z ∷ xs) h =
      ground (arith, erase_entry_cons x z xs, contains-erase_entry_ne x y xs, e.beq_iff z x)

  pub contains-append :
      (x : A) (xs ys : List A)
      → vector_contains_entry (xs ++ ys) x
        ≡ (vector_contains_entry xs x || vector_contains_entry ys x)
  unfolding vector_contains_entry
  contains-append x [] ys = refl
  contains-append x (y ∷ xs) ys = ground (arith, contains-append x xs ys)

  -- No entry stands twice.
  abbrev pub Distinct : List A → Type 0
  Distinct [] = Unit
  Distinct (x ∷ xs) = (vector_contains_entry xs x ≡ false) × Distinct xs

  beq_sym : (x y : A) → e.beq x y ≡ false → e.beq y x ≡ false
  beq_sym x y h = elim (Bool-cases (e.beq y x)) [
    | inr ne ↦ ne
    | inl same ↦ absurd (ground (arith, h, (e.beq_iff x y).1 (sym ((e.beq_iff y x).0 same))))
  ]

  pub append-Distinct :
      (xs : List A) (y : A)
      → Distinct xs
      → vector_contains_entry xs y ≡ false
      → Distinct (xs ++ y ∷ [])
  unfolding vector_contains_entry
  append-Distinct [] y d h = (refl, tt)
  append-Distinct (x ∷ xs) y d h = (
    ground (arith, contains-append x xs (y ∷ []), beq_sym x y, d, h),
    append-Distinct xs y d.1 (ground (arith, h)),
  )

  pub contains-erase_entry_self :
      (x : A) (xs : List A)
      → Distinct xs
      → vector_contains_entry (erase_entry_from_vector x xs) x ≡ false
  unfolding vector_contains_entry
  contains-erase_entry_self x [] d = rw erase_entry_nil
  contains-erase_entry_self x (y ∷ xs) d =
      ground (arith, erase_entry_cons x y xs, contains-erase_entry_self x xs d.1, e.beq_iff y x)

  contains-erase_entry_mono :
      (x y : A) (xs : List A)
      → vector_contains_entry xs y ≡ false
      → vector_contains_entry (erase_entry_from_vector x xs) y ≡ false
  unfolding vector_contains_entry
  contains-erase_entry_mono x y [] h = rw erase_entry_nil
  contains-erase_entry_mono x y (z ∷ xs) h =
      ground (arith, erase_entry_cons x z xs, contains-erase_entry_mono x y xs)

  pub erase_entry-Distinct :
      (x : A) (xs : List A) → Distinct xs → Distinct (erase_entry_from_vector x xs)
  unfolding vector_contains_entry
  erase_entry-Distinct x [] d = rw erase_entry_nil tt
  erase_entry-Distinct x (y ∷ xs) d = elim (Bool-cases (e.beq y x)) [
    | inl hit ↦ rw (erase_entry_cons, hit) d.1
    | inr miss ↦
        rw (erase_entry_cons, miss)
          (contains-erase_entry_mono x y xs d.0, erase_entry-Distinct x xs d.1)
  ]
