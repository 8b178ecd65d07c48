-- ===== src/RelayState/Selection.antt =====
-- src/relays/relaystate.cpp, lines 247 to 411: who executes, who succeeds, and who is chosen.
pub mod Eligible
pub mod Pool
pub mod Chosen
pub mod Constant
pub mod Executors
use flex.Common.{
  nat_eq, ℕ, zero, suc, ◌+◌, ◌-◌, ◌*◌, ◌%◌, ◌^◌, Bool, true, false, not, ◌&&◌, ◌||◌, Option, none,
  some, List, [], ◌∷◌, ◌++◌, ltb, leb, ◌==◌, if◌then◌else◌, get_or, get_elem?, length,
}
use flex.StdMap.{Map, Set, lookup, count}
use flex.VectorTools.{vector_contains_entry, erase_entry_from_vector}
use flex.RelayState.Platform.{Env, Point, infinity, u32_mod}
use flex.RelayState.Numbering.{find_number}
use flex.RelayState.{RelayState, relays_by_number, index_relay}

-- The loop of Executors(uint32_t) over executor_offsets.
unfoldable pub executors_at : List ℕ → ℕ → Map Point → List Point
executors_at [] relay_number by_number = []
executors_at (offset ∷ offsets) relay_number by_number =
    let rest = executors_at offsets relay_number by_number in
    if leb relay_number offset
    then rest
    else get_or (lookup (relay_number - offset) by_number) infinity ∷ rest

-- RelayState::Executors(uint32_t)
unfoldable pub executors : Env → ℕ → RelayState → List Point
unfolding executors_at
executors env relay_number s = executors_at env.executor_offsets relay_number (relays_by_number s)

-- RelayState::Executors(Point)
unfoldable pub executors_of : Env → Point → RelayState → List Point × RelayState
unfolding executors
executors_of env point s =
    let (relay_number, s') = index_relay point s in (executors env relay_number s', s')

-- The number that Successor(uint32_t) computes.
unfoldable pub successor_number : Env → ℕ → ℕ
successor_number env relay_number =
    if not (relay_number % env.future_successor_frequency == 1)
    then (relay_number + u32_mod - 1) % u32_mod
    else (relay_number + 2 * env.future_successor_frequency - 1) % u32_mod

-- RelayState::Successor(uint32_t)
unfoldable pub successor : Env → ℕ → RelayState → Point
unfolding successor_number
successor env relay_number s =
    if ltb s.latest_relay_number (successor_number env relay_number)
    then infinity
    else get_or (lookup (successor_number env relay_number) (relays_by_number s)) infinity

-- RelayState::Successor(Point)
unfoldable pub successor_of : Env → Point → RelayState → Point × RelayState
unfolding successor
successor_of env point s =
    let (relay_number, s') = index_relay point s in (successor env relay_number s', s')

-- RelayState::DeadPredecessor
unfoldable pub dead_predecessor : Point → RelayState → Point
dead_predecessor point s = find_number infinity point s.actual_successions

-- The loop of SurvivingSuccessor, on fuel; `none` means that the fuel ran out.
unfoldable pub surviving_loop : Env → ℕ → Point → RelayState → Option (Point × RelayState)
surviving_loop env zero point s = none
surviving_loop env (suc fuel) point s =
    let (next, s') = successor_of env point s in
    let rest = surviving_loop env fuel next s' in
    if count point s.actual_successions then rest else some (point, s)

-- RelayState::SurvivingSuccessor
unfoldable pub surviving_successor : Env → ℕ → Point → RelayState → Option (Point × RelayState)
unfolding surviving_loop
surviving_successor env fuel point s =
    let (first, s') = successor_of env point s in surviving_loop env fuel first s'

-- The test of GetEligibleRelays and NumberOfValidRelays.
abbrev pub is_eligible : RelayState → Point → Bool
is_eligible s point =
    not (count point s.actual_successions) && not (count point s.disqualifications)

unfoldable pub eligible_among : RelayState → Map ℕ → List Point
eligible_among s [] = []
eligible_among s ((point, n) ∷ m) =
    let rest = eligible_among s m in if is_eligible s point then point ∷ rest else rest

-- RelayState::GetEligibleRelays
unfoldable pub get_eligible_relays : RelayState → List Point
unfolding eligible_among
get_eligible_relays s = eligible_among s s.relays

unfoldable pub valid_among : RelayState → Map ℕ → ℕ → ℕ
valid_among s [] num = num
valid_among s ((point, n) ∷ m) num = valid_among s m (if is_eligible s point then num + 1 else num)

-- RelayState::NumberOfValidRelays
unfoldable pub number_of_valid_relays : RelayState → ℕ
unfolding valid_among
number_of_valid_relays s = valid_among s s.relays 0

-- The loop of SelectRelay, on fuel.
unfoldable pub select_loop : Env → ℕ → Map Point → Point → RelayState → Option (Point × RelayState)
select_loop env zero by_number point s = none
select_loop env (suc fuel) by_number point s =
    let (next, s') = successor_of env point s in
    let fallback = get_or (lookup s'.latest_relay_number by_number) infinity in
    let rest = select_loop env fuel by_number (if next == infinity then fallback else next) s' in
    if count point s.actual_successions || count point s.disqualifications
    then rest
    else some (point, s)

-- RelayState::SelectRelay
unfoldable pub select_relay : Env → ℕ → ℕ → RelayState → Option (Point × RelayState)
unfolding select_loop number_of_valid_relays
select_relay env fuel chooser_number s =
    if number_of_valid_relays s == 0
    then some (env.generator, s)
    else let number =
        if ltb env.max_pool_size s.latest_relay_number
        then s.latest_relay_number - env.max_pool_size + chooser_number % env.max_pool_size
        else 1 + chooser_number % s.latest_relay_number in
      select_loop env fuel (relays_by_number s)
        (get_or (lookup number (relays_by_number s)) infinity) s

-- CBigNum::getuint
unfoldable pub getuint : Env → ℕ → ℕ
getuint env n = env.bn_get_word n % u32_mod

-- while (eligible_relays.size() > MAX_POOL_SIZE), on fuel
unfoldable pub trim_pool : ℕ → ℕ → List Point → List Point
trim_pool limit zero pool = pool
trim_pool limit (suc fuel) [] = []
trim_pool limit (suc fuel) (point ∷ pool) =
    let rest = trim_pool limit fuel (erase_entry_from_vector point (point ∷ pool)) in
    if ltb limit (length (point ∷ pool)) then rest else point ∷ pool

-- The loop of ChooseRelays, on fuel: the relays chosen, and those that are still eligible.
unfoldable pub choose_loop : Env → ℕ → ℕ → ℕ → ℕ → List Point → List Point → Option (List Point)
unfolding getuint
choose_loop env zero chooser required valid chosen eligible = none
choose_loop env (suc fuel) chooser required valid chosen eligible =
    let hashed = env.hash_uint160 chooser in
    let point = get_or (get_elem? eligible (getuint env hashed % length eligible)) infinity in
    let taken =
      choose_loop env fuel hashed required valid (chosen ++ point ∷ [])
        (erase_entry_from_vector point eligible) in
    let passed = choose_loop env fuel hashed required valid chosen eligible in
    if ltb (length chosen) required && ltb (length chosen) valid && ltb 0 (length eligible)
    then (if not (point == infinity) && not (vector_contains_entry chosen point)
        then taken
        else passed)
    else some chosen

-- RelayState::ChooseRelays
unfoldable pub choose_relays : Env → ℕ → ℕ → ℕ → RelayState → Option (List Point)
unfolding choose_loop get_eligible_relays trim_pool
choose_relays env fuel chooser num_relays_required s =
    let eligible = get_eligible_relays s in
    if ltb (length eligible) num_relays_required
    then some []
    else choose_loop env fuel chooser num_relays_required (length eligible) []
        (trim_pool env.max_pool_size (length eligible) eligible)
