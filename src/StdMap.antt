-- ===== src/StdMap.antt =====
-- std::map and std::set over ordered keys, as the code uses them: `count`, `find`, `m[k] = v`,
-- `erase`, `size` and iteration in the order of the keys. Keys are numbers.
pub mod Laws
pub mod Order
use flex.Common.{
  ℕ, ◌≡◌, Bool, true, false, Option, none, some, List, [], ◌∷◌, ltb, ◌==◌, if◌then◌else◌, is_some,
  length,
}

abbrev pub Map {ℓ} : Type ℓ → Type ℓ
Map V = List (ℕ × V)

module _ {ℓ} {V : Type ℓ} where
  -- m.find(k), and the value of m[k] where there is one
  unfoldable pub lookup : ℕ → Map V → Option V
  lookup k [] = none
  lookup k ((j, v) ∷ m) = if k == j then some v else lookup k m

  -- m[k] = v
  unfoldable pub put : ℕ → V → Map V → Map V
  put k v [] = (k, v) ∷ []
  put k v ((j, w) ∷ m) =
      let rest = put k v m in
      if ltb k j then (k, v) ∷ (j, w) ∷ m else if k == j then (k, v) ∷ m else (j, w) ∷ rest

  -- m.erase(k)
  unfoldable pub erase : ℕ → Map V → Map V
  erase k [] = []
  erase k ((j, v) ∷ m) = let rest = erase k m in if k == j then rest else (j, v) ∷ rest

  -- m.count(k)
  abbrev pub count : ℕ → Map V → Bool
  count k m = is_some (lookup k m)

abbrev pub Set : Type 0
Set = Map (Unit {0})

-- s.insert(k)
abbrev pub insert : ℕ → Set → Set
insert k s = put k tt s
