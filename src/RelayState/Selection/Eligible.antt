-- ===== src/RelayState/Selection/Eligible.antt =====
-- GetEligibleRelays and NumberOfValidRelays.
use flex.Common.{
  ℕ, ◌+◌, ◌≡◌, refl, not, ◌&&◌, [], ◌∷◌, arith, ◌==◌, if◌then◌else◌, length, nat_eq, ==_iff, inl,
  inr, Bool-cases,
}
use flex.StdMap.{Map, lookup, count}
use flex.StdMap.Order.{From, IsSorted, lookup_below}
use flex.VectorTools.{vector_contains_entry}
use flex.VectorTools.Laws.{Distinct}
use flex.RelayState.Platform.{Point}
use flex.RelayState.{RelayState}
use flex.RelayState.Selection.{
  is_eligible, eligible_among, get_eligible_relays, valid_among, number_of_valid_relays,
}

valid_among_lem :
    (s : RelayState) (m : Map ℕ) (num : ℕ) → valid_among s m num ≡ num + length (eligible_among s m)
unfolding valid_among eligible_among
valid_among_lem s [] num = omega arith
valid_among_lem s ((point, n) ∷ m) num =
    ground (arith, valid_among_lem s m (if is_eligible s point then num + 1 else num))

-- NumberOfValidRelays counts the relays that GetEligibleRelays returns.
number_of_valid_relays-length :
    (s : RelayState) → number_of_valid_relays s ≡ length (get_eligible_relays s)
unfolding number_of_valid_relays get_eligible_relays
number_of_valid_relays-length s = omega (arith, valid_among_lem s s.relays 0)

eligible_among_contains :
    (s : RelayState) (m : Map ℕ) (point : Point)
    → vector_contains_entry (eligible_among s m) point ≡ (count point m && is_eligible s point)
unfolding eligible_among vector_contains_entry lookup
eligible_among_contains s [] point = refl
eligible_among_contains s ((p, n) ∷ m) point = elim (Bool-cases (p == point)) [
  | inl hit ↦
      let e : p ≡ point = (==_iff p point).0 hit in
      rw e (ground (arith, eligible_among_contains s m point))
  | inr miss ↦ ground (arith, eligible_among_contains s m point)
]

-- A relay is eligible exactly when it has joined, has no actual succession and is not disqualified.
pub get_eligible_relays-contains :
    (s : RelayState) (point : Point)
    → vector_contains_entry (get_eligible_relays s) point ≡ (
        count point s.relays
        && (not (count point s.actual_successions) && not (count point s.disqualifications)))
unfolding get_eligible_relays
get_eligible_relays-contains s point = eligible_among_contains s s.relays point

eligible_among-Distinct :
    (low : ℕ) (s : RelayState) (m : Map ℕ) → From low m → Distinct (eligible_among s m)
unfolding eligible_among
eligible_among-Distinct low s [] f = tt
eligible_among-Distinct low s ((point, n) ∷ m) f = ground (
  arith,
  eligible_among-Distinct (point + 1) s m f.1,
  eligible_among_contains s m point,
  lookup_below (point + 1) point m f.1,
)

pub get_eligible_relays-Distinct :
    (s : RelayState) → IsSorted s.relays → Distinct (get_eligible_relays s)
unfolding get_eligible_relays
get_eligible_relays-Distinct s f = eligible_among-Distinct 0 s s.relays f
