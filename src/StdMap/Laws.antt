-- ===== src/StdMap/Laws.antt =====
-- Reading a map after a write.
use flex.Common.{
  ℕ, ◌≡◌, refl, none, some, [], ◌∷◌, arith, ◌==◌, if◌then◌else◌, length, ◌≤◌, ◌<◌, ◌+◌,
}
use flex.StdMap.{Map, lookup, put, erase}

module _ {ℓ} {V : Type ℓ} where
  pub lookup-put :
      (j k : ℕ) (v : V) (m : Map V) → lookup j (put k v m) ≡ (if j == k then some v else lookup j m)
  unfolding lookup put
  lookup-put j k v [] = refl
  lookup-put j k v ((i, w) ∷ m) = ground (arith, lookup-put j k v m)

  pub lookup-erase :
      (j k : ℕ) (m : Map V) → lookup j (erase k m) ≡ (if j == k then none else lookup j m)
  unfolding lookup erase
  lookup-erase j k [] = ground arith
  lookup-erase j k ((i, w) ∷ m) = ground (arith, lookup-erase j k m)

  -- Erasing a key that is not there changes nothing.
  pub erase_absent : (k : ℕ) (m : Map V) → lookup k m ≡ none → erase k m ≡ m
  unfolding lookup erase
  erase_absent k [] h = refl
  erase_absent k ((i, w) ∷ m) h = ground (arith, erase_absent k m)

  -- Erasing undoes the insertion of a new key.
  pub erase-put : (k : ℕ) (v : V) (m : Map V) → lookup k m ≡ none → erase k (put k v m) ≡ m
  unfolding lookup erase put
  erase-put k v [] h = ground arith
  erase-put k v ((i, w) ∷ m) h = ground (arith, erase-put k v m, erase_absent k m)

  pub length-put_new :
      (k : ℕ) (v : V) (m : Map V) → lookup k m ≡ none → length (put k v m) ≡ length m + 1
  unfolding lookup put
  length-put_new k v [] h = omega arith
  length-put_new k v ((i, w) ∷ m) h = ground (arith, length-put_new k v m)

  pub length-erase-le : (k : ℕ) (m : Map V) → length (erase k m) ≤ length m
  unfolding erase
  length-erase-le k [] = omega arith
  length-erase-le k ((i, w) ∷ m) = ground (arith, length-erase-le k m)

  pub length-erase-lt :
      (k : ℕ) (v : V) (m : Map V) → lookup k m ≡ some v → length (erase k m) < length m
  unfolding lookup erase
  length-erase-lt k v [] h = absurd (ground arith)
  length-erase-lt k v ((i, w) ∷ m) h = ground (arith, length-erase-lt k v m, length-erase-le k m)

pub ruleset map_laws = (lookup-put, lookup-erase)
