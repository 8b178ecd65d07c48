-- ===== src/StdMap/Order.antt =====
-- Keys rise along a map, so each key stands once.
use flex.Common.{ℕ, ◌<◌, ◌≤◌, ◌≡◌, refl, [], ◌∷◌, none, some, length, arith, ◌+◌}
use flex.StdMap.{Map, lookup, put, erase}
use flex.StdMap.Laws.{erase_absent}

module _ {ℓ} {V : Type ℓ} where
  -- Every key is at least `n`.
  abbrev pub From : ℕ → Map V → Type 0
  From n [] = Unit
  From n ((j, v) ∷ m) = (n ≤ j) × From (j + 1) m

  abbrev pub IsSorted : Map V → Type 0
  IsSorted m = From 0 m

  From-mono : (a b : ℕ) (m : Map V) → a ≤ b → From b m → From a m
  From-mono a b [] h f = tt
  From-mono a b ((j, v) ∷ m) h f = (omega arith, f.1)

  pub put-From : (n k : ℕ) (v : V) (m : Map V) → n ≤ k → From n m → From n (put k v m)
  unfolding put
  put-From n k v [] h f = (h, tt)
  put-From n k v ((j, w) ∷ m) h f = ground (arith, put-From (j + 1) k v m)

  pub erase-From : (n k : ℕ) (m : Map V) → From n m → From n (erase k m)
  unfolding erase
  erase-From n k [] f = tt
  erase-From n k ((j, w) ∷ m) f =
      ground (arith, erase-From (j + 1) k m, From-mono n (j + 1) (erase k m))

  pub put-IsSorted : (k : ℕ) (v : V) (m : Map V) → IsSorted m → IsSorted (put k v m)
  put-IsSorted k v m = put-From 0 k v m (omega arith)

  pub erase-IsSorted : (k : ℕ) (m : Map V) → IsSorted m → IsSorted (erase k m)
  erase-IsSorted k m = erase-From 0 k m

  pub lookup_below : (n k : ℕ) (m : Map V) → From n m → k < n → lookup k m ≡ none
  unfolding lookup
  lookup_below n k [] f h = refl
  lookup_below n k ((j, w) ∷ m) f h = ground (arith, lookup_below (j + 1) k m)

  -- A key stands once, so erasing it takes out one entry.
  pub length-erase :
      (n k : ℕ) (v : V) (m : Map V)
      → From n m
      → lookup k m ≡ some v
      → length (erase k m) + 1 ≡ length m
  unfolding lookup erase
  length-erase n k v [] f h = absurd (ground arith)
  length-erase n k v ((j, w) ∷ m) f h =
      ground (arith, length-erase (j + 1) k v m f.1, erase_absent k m, lookup_below (j + 1) k m f.1)

  pub first_entry : (m : Map V) → 0 < length m → (k : ℕ) × (v : V) × (lookup k m ≡ some v)
  unfolding lookup
  first_entry [] h = absurd (omega arith)
  first_entry ((k, v) ∷ m) h = (k, v, ground arith)
