-- ===== src/RelayState/Selection/Pool.antt =====
-- The pool of relays that ChooseRelays chooses from.
use Prim.Native.Nat.{min}
use flex.Common.{
  ℕ, zero, suc, ◌≤◌, ◌<◌, ◌≡◌, true, List, [], ◌∷◌, arith, ltb, if◌then◌else◌, length, nat_eq,
  ==_refl, get_or, get_elem?, inl, inr, Bool-cases,
}
use flex.VectorTools.{vector_contains_entry}
use flex.VectorTools.Laws.{Distinct, erase_entry_cons}
use flex.RelayState.Platform.{Point, infinity}
use flex.RelayState.Selection.{trim_pool}

-- Every entry of `xs` is one of `ys`.
abbrev pub Within : List Point → List Point → Type 0
Within xs ys =
    (point : Point) → vector_contains_entry xs point ≡ true → vector_contains_entry ys point ≡ true

pub get_elem_contained :
    (i : ℕ) (xs : List Point)
    → i < length xs
    → vector_contains_entry xs (get_or (get_elem? xs i) infinity) ≡ true
unfolding vector_contains_entry
get_elem_contained i [] h = absurd (omega arith)
get_elem_contained zero (x ∷ xs) h = ground arith
get_elem_contained (suc i) (x ∷ xs) h = ground (arith, get_elem_contained i xs)

trim_pool_step :
    (limit fuel : ℕ) (x : Point) (xs : List Point)
    → trim_pool limit (suc fuel) (x ∷ xs)
      ≡ (if ltb limit (length (x ∷ xs)) then trim_pool limit fuel xs else x ∷ xs)
unfolding trim_pool
trim_pool_step limit fuel x xs = rw (erase_entry_cons x x xs, ==_refl x)

Within-cons : (x : Point) (pool xs : List Point) → Within pool xs → Within pool (x ∷ xs)
unfolding vector_contains_entry
Within-cons x pool xs h p e = ground (arith, h p e)

pub record IsPool (limit : ℕ) (pool eligible : List Point) : Type 0 where
  pub size : length pool ≡ min limit (length eligible)
  pub distinct : Distinct pool
  pub within : Within pool eligible

pub trim_pool-IsPool :
    (limit fuel : ℕ) (xs : List Point)
    → length xs ≤ fuel
    → Distinct xs
    → IsPool limit (trim_pool limit fuel xs) xs
trim_pool-IsPool limit zero [] h d =
    unfold trim_pool in record { size = omega arith; distinct = tt; within = λ p e. e }
trim_pool-IsPool limit zero (x ∷ xs) h d = absurd (omega arith)
trim_pool-IsPool limit (suc fuel) [] h d =
    unfold trim_pool in record { size = omega arith; distinct = tt; within = λ p e. e }
trim_pool-IsPool limit (suc fuel) (x ∷ xs) h d =
    rw trim_pool_step (elim (Bool-cases (ltb limit (length (x ∷ xs)))) [
      | inl full ↦
          let rest = trim_pool-IsPool limit fuel xs (omega arith) d.1 in
          rw full (record {
            size = ground (arith, rest.size);
            distinct = rest.distinct;
            within = Within-cons x (trim_pool limit fuel xs) xs rest.within;
          })
      | inr fits ↦ rw fits (record { size = ground arith; distinct = d; within = λ p e. e })
    ])
