-- ===== src/RelayState.antt =====
-- src/relays/relaystate.h and relaystate.cpp: the class RelayState, who has joined as a relay, under
-- which number, who succeeds whom, and who is disqualified.
pub mod Platform
pub mod Numbering
pub mod Trim
pub mod Selection
pub mod Examples
use flex.Exceptions.{Result, ok, throw, relay_state_error, out_of_fuel, ◌>>=◌}
use Platform.{Env, Point, infinity, u32_mod}
use Numbering.{find_number, minimum_number, numbered}
use flex.Common.{
  ℕ, suc, zero, ◌+◌, ◌-◌, ◌*◌, ◌%◌, Bool, true, false, not, ◌&&◌, ◌||◌, Option, none, some, List,
  [], ◌∷◌, ◌++◌, ltb, leb, ◌==◌, if◌then◌else◌, get_or, length,
}
use flex.StdMap.{Map, Set, lookup, put, erase, count, insert}

pub record RelayState : Type 0 where
  pub relays : Map ℕ
  pub line_of_succession : Map Point
  pub actual_successions : Map Point
  pub subthreshold_succession_msgs : Map Set
  pub disqualifications : Map Set
  pub join_hash_to_relay : Map Point
  pub latest_credit_hash : ℕ
  pub latest_relay_number : ℕ

abbrev pub empty : RelayState
empty = record {
  relays = [];
  line_of_succession = [];
  actual_successions = [];
  subthreshold_succession_msgs = [];
  disqualifications = [];
  join_hash_to_relay = [];
  latest_credit_hash = 0;
  latest_relay_number = 0;
}

-- RelayState::Relay(uint32_t)
unfoldable pub relay : Env → ℕ → RelayState → Point
relay env relay_number s = find_number env.generator relay_number s.relays

-- RelayState::GetJoinHash
unfoldable pub get_join_hash : Point → RelayState → ℕ
get_join_hash point s = find_number 0 point s.join_hash_to_relay

-- RelayState::OldestRelay
unfoldable pub oldest_relay : Env → RelayState → Point
unfolding relay
oldest_relay env s = relay env (minimum_number 1_000_000_000 s.relays) s

-- RelayState::RelaysByNumber
unfoldable pub relays_by_number : RelayState → Map Point
relays_by_number s = numbered s.relays []

-- relays[relay]: a relay that is not there is put there, under number 0.
unfoldable pub index_relay : Point → RelayState → ℕ × RelayState
index_relay point s = elim (lookup point s.relays) [
  | none ↦ (0, record s { relays = put point 0 s.relays })
  | some number ↦ (number, s)
]

-- The keys that RemoveRelayFromSuccessors collects in to_delete.
unfoldable pub predecessors : Point → Map Point → List Point
predecessors point [] = []
predecessors point ((key, value) ∷ m) =
    let rest = predecessors point m in if value == point then key ∷ rest else rest

unfoldable pub erase_each : List Point → RelayState → RelayState
erase_each [] s = s
erase_each (key ∷ keys) s = erase_each keys (record s {
  line_of_succession = erase key s.line_of_succession;
  actual_successions = erase key s.actual_successions;
})

unfoldable pub remove_relay_from_successors : Point → RelayState → RelayState
unfolding predecessors erase_each
remove_relay_from_successors point s = erase_each (predecessors point s.line_of_succession) s

-- The erasures of RemoveRelay that are keyed by the relay or by its join.
unfoldable pub erase_relay : Point → RelayState → RelayState
unfolding get_join_hash
erase_relay point s = record s {
  relays = erase point s.relays;
  join_hash_to_relay = erase (get_join_hash point s) s.join_hash_to_relay;
  line_of_succession = erase point s.line_of_succession;
  actual_successions = erase point s.actual_successions;
  subthreshold_succession_msgs = erase point s.subthreshold_succession_msgs;
  disqualifications = erase point s.disqualifications;
}

-- RelayState::RemoveRelay
unfoldable pub remove_relay : Point → Bool → RelayState → Result RelayState
unfolding erase_relay remove_relay_from_successors
remove_relay point decrement s =
    if not (count point s.relays)
    then throw relay_state_error s
    else let removed = remove_relay_from_successors point (erase_relay point s) in
      ok (
        if decrement
        then record removed {
          latest_relay_number = (removed.latest_relay_number + u32_mod - 1) % u32_mod;
        }
        else removed)

-- RelayState::TrimRelays, on fuel
unfoldable pub trim_relays : Env → ℕ → RelayState → Result RelayState
trim_relays env zero s =
    if ltb env.max_relays_remembered (length s.relays) then throw out_of_fuel s else ok s
trim_relays env (suc fuel) s =
    let rest = remove_relay (oldest_relay env s) false s >>= trim_relays env fuel in
    if ltb env.max_relays_remembered (length s.relays) then rest else ok s

-- The state in which AddRelay calls TrimRelays.
unfoldable pub enrol : Point → ℕ → RelayState → RelayState
enrol point join_hash s =
    let number = (s.latest_relay_number + 1) % u32_mod in
    record s {
      latest_relay_number = number;
      relays = put point number s.relays;
      join_hash_to_relay = put join_hash point s.join_hash_to_relay;
    }

-- RelayState::AddRelay. Its result, which the only caller ignores, is the number of the relay.
unfoldable pub add_relay : Env → Point → ℕ → RelayState → Result RelayState
unfolding enrol
add_relay env point join_hash s =
    if count point s.relays
    then ok s
    else let enrolled = enrol point join_hash s in trim_relays env (length enrolled.relays) enrolled

-- RelayState::AddDisqualification, and RelayStateChain::AddDisqualification
unfoldable pub add_disqualification : Point → ℕ → RelayState → RelayState
add_disqualification point message_hash s = record s {
  disqualifications =
      put point (insert message_hash (get_or (lookup point s.disqualifications) []))
        s.disqualifications;
}

-- RelayState::SetLatestCreditHash
unfoldable pub set_latest_credit_hash : ℕ → RelayState → RelayState
set_latest_credit_hash credit_hash s = record s { latest_credit_hash = credit_hash }
