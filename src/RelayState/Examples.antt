-- ===== src/RelayState/Examples.antt =====
-- A small state of the relays, and what the theorems about RelayState say of it.
use Prim.Native.Nat.{min}
use flex.Common.{
  ℕ, ◌+◌, ◌-◌, ◌^◌, nat_eq, ◌≡◌, refl, some, List, [], ◌∷◌, arith, ltb, if◌then◌else◌, length, All,
}
use flex.StdMap.{lookup}
use flex.VectorTools.Laws.{Distinct}
use flex.Exceptions.{ok}
use flex.RelayState.Platform.{Env, Point, test_build}
use flex.RelayState.{RelayState, empty, enrol, add_relay}
use flex.RelayState.Trim.{IsNumbered, KeepsNewest, add_relay-KeepsNewest}
use flex.RelayState.Selection.{executors, get_eligible_relays, choose_relays}
use flex.RelayState.Selection.Chosen.{choose_relays-Distinct}
use flex.RelayState.Selection.Pool.{Within}
use flex.RelayState.Selection.Constant.{choose_relays_constant}
use flex.RelayState.Selection.Executors.{
  AreExecutors, IsEarlier, offsets_below, executors-IsEarlier,
}

-- A word of ones for a number of more than 64 bits.
abbrev word_of : ℕ → ℕ
word_of n = if ltb n (2 ^ 64) then n else 2 ^ 64 - 1

abbrev large_hash : ℕ → ℕ
large_hash n = n + 2 ^ 64

abbrev sample_env : Env
sample_env = test_build 1 large_hash word_of

-- Four relays, of which 7 is disqualified and 9 has a successor.
abbrev four_relays : RelayState
four_relays = record empty {
  relays = (5, 1) ∷ (7, 2) ∷ (9, 3) ∷ (11, 4) ∷ [];
  disqualifications = (7, (100, tt) ∷ []) ∷ [];
  actual_successions = (9, 5) ∷ [];
  latest_relay_number = 4;
}

four_relays-IsNumbered : IsNumbered four_relays
four_relays-IsNumbered = record {
  sorted = (omega arith, (omega arith, (omega arith, (omega arith, tt))));
  small = λ k n h. unfold lookup in ground arith;
}

add_relay-KeepsNewest_example :
    (t : RelayState) × (add_relay sample_env 13 900 four_relays ≡ ok t)
    × (length t.relays ≡ min (length four_relays.relays + 1) 40)
    × (t.latest_relay_number ≡ four_relays.latest_relay_number + 1)
    × IsNumbered t
    × KeepsNewest (enrol 13 900 four_relays) t
add_relay-KeepsNewest_example =
    add_relay-KeepsNewest sample_env 13 900 four_relays four_relays-IsNumbered (omega arith)
      (unfold lookup in refl)

two_are_eligible : length (get_eligible_relays four_relays) ≡ 2
unfolding get_eligible_relays lookup
two_are_eligible = refl

choose_relays-Distinct_example :
    (chosen : List Point) × (choose_relays sample_env 3 77 2 four_relays ≡ some chosen)
    × (length chosen ≡ min 2 20)
    × Distinct chosen
    × Within chosen (get_eligible_relays four_relays)
choose_relays-Distinct_example =
    choose_relays-Distinct sample_env 3 77 2 four_relays four_relays-IsNumbered.sorted
      (unfold lookup in refl) (omega (arith, two_are_eligible)) (omega (arith, two_are_eligible))

choose_relays_constant_example :
    choose_relays sample_env 2 77 2 four_relays ≡ choose_relays sample_env 2 78 2 four_relays
choose_relays_constant_example =
    choose_relays_constant sample_env (λ n h. ground arith) 2 77 78 2 four_relays
      (omega arith, (omega arith, tt)) (omega arith, (omega arith, tt))

executors-IsEarlier_example :
    AreExecutors four_relays 4 (2 ∷ 3 ∷ 4 ∷ 5 ∷ 6 ∷ 7 ∷ []) (executors sample_env 4 four_relays)
    × All (IsEarlier four_relays 4) (executors sample_env 4 four_relays)
    × (length (executors sample_env 4 four_relays) ≡ offsets_below 4 (2 ∷ 3 ∷ 4 ∷ 5 ∷ 6 ∷ 7 ∷ []))
executors-IsEarlier_example =
    executors-IsEarlier sample_env 4 four_relays four_relays-IsNumbered.sorted
      (omega arith, (omega arith, (omega arith, (omega arith, (omega arith, (omega arith, tt))))))

abbrev twenty_one : ℕ
twenty_one = 21
