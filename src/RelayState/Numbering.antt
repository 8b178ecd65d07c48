-- ===== src/RelayState/Numbering.antt =====
-- The scans of a Numbering, the map from the relays to their numbers.
use flex.Common.{
  ℕ, ◌+◌, ◌≤◌, ◌≡◌, refl, ◌⊎◌, inl, inr, some, [], ◌∷◌, arith, ltb, ◌==◌, ==_refl, if◌then◌else◌,
  Bool-cases,
}
use flex.StdMap.{Map, lookup, put}
use flex.StdMap.Order.{From, lookup_below}

-- The first key that holds `value`.
unfoldable pub find_number : ℕ → ℕ → Map ℕ → ℕ
find_number missing value [] = missing
find_number missing value ((key, v) ∷ m) = if v == value then key else find_number missing value m

-- The loop of OldestRelay.
unfoldable pub minimum_number : ℕ → Map ℕ → ℕ
minimum_number minimum [] = minimum
minimum_number minimum ((key, n) ∷ m) = minimum_number (if ltb n minimum then n else minimum) m

-- The loop of RelaysByNumber.
unfoldable pub numbered : Map ℕ → Map ℕ → Map ℕ
numbered [] by_number = by_number
numbered ((key, n) ∷ m) by_number = numbered m (put n key by_number)

pub minimum_number-le : (minimum : ℕ) (m : Map ℕ) → minimum_number minimum m ≤ minimum
unfolding minimum_number
minimum_number-le minimum [] = omega arith
minimum_number-le minimum ((key, n) ∷ m) =
    ground (arith, minimum_number-le (if ltb n minimum then n else minimum) m)

-- The loop of OldestRelay finds a lower bound of the numbers.
pub minimum_number_lower :
    (minimum k n : ℕ) (m : Map ℕ) → lookup k m ≡ some n → minimum_number minimum m ≤ n
unfolding minimum_number lookup
minimum_number_lower minimum k n [] h = absurd (ground arith)
minimum_number_lower minimum k n ((key, x) ∷ m) h = ground (
  arith,
  minimum_number-le (if ltb x minimum then x else minimum) m,
  minimum_number_lower (if ltb x minimum then x else minimum) k n m,
)

pub lookup_above :
    (key k x n : ℕ) (m : Map ℕ)
    → From (key + 1) m
    → lookup k m ≡ some n
    → lookup k ((key, x) ∷ m) ≡ some n
unfolding lookup
lookup_above key k x n m f h = ground (arith, lookup_below (key + 1) k m f)

-- ... and one that some relay has, or else the start of the search.
pub minimum_number_attained :
    (low minimum : ℕ) (m : Map ℕ)
    → From low m
    → (minimum_number minimum m ≡ minimum)
      ⊎ ((k : ℕ) × (lookup k m ≡ some (minimum_number minimum m)))
unfolding minimum_number
minimum_number_attained low minimum [] f = inl refl
minimum_number_attained low minimum ((key, x) ∷ m) f = elim (Bool-cases (ltb x minimum)) [
  | inl less ↦ rw less (elim (minimum_number_attained (key + 1) x m f.1) [
    | inl e ↦ inr (key, rw e (unfold lookup in rw ==_refl))
    | inr (k, e) ↦ inr (k, lookup_above key k x _ m f.1 e)
  ])
  | inr more ↦ rw more (elim (minimum_number_attained (key + 1) minimum m f.1) [
    | inl e ↦ inl e
    | inr (k, e) ↦ inr (k, lookup_above key k x _ m f.1 e)
  ])
]

-- The scan for a number that some key holds returns such a key.
pub lookup-find_number :
    (low missing value k : ℕ) (m : Map ℕ)
    → From low m
    → lookup k m ≡ some value
    → lookup (find_number missing value m) m ≡ some value
unfolding find_number
lookup-find_number low missing value k [] f h = absurd (unfold lookup in ground arith)
lookup-find_number low missing value k ((key, x) ∷ m) f h = elim (Bool-cases (x == value)) [
  | inl hit ↦ rw hit (unfold lookup in ground arith)
  | inr miss ↦ rw miss (
      lookup_above key (find_number missing value m) x value m f.1
        (lookup-find_number (key + 1) missing value k m f.1 (unfold lookup in ground arith)))
]
