-- ===== src/RelayChain/Handlers.antt =====
-- HandleJoin, HandleLeave and the disqualifications of RelayStateChain, and what undoes them.
use flex.Common.{ℕ, ◌+◌, ◌%◌, true, not, none, some, ltb, ◌==◌, if◌then◌else◌, get_or, length}
use flex.Exceptions.{Result, ok, throw, missing_data, relay_state_error, ◌>>=◌}
use flex.StdMap.{lookup, put, erase, count}
use flex.RelayState.Platform.{Env, Point, u32_mod}
use flex.RelayState.{RelayState, add_relay, remove_relay, add_disqualification}
use flex.RelayChain.{Data, RelayStateChain, read_join, empty_leave}

-- A method of the state, called on the chain's state.
abbrev pub on_state : RelayStateChain → Result RelayState → Result RelayStateChain
on_state c (ok s) = ok (record c { state = s })
on_state c (throw e s) = throw e (record c { state = s })

-- RelaysRequired of src/crypto/teleportcrypto.cpp: of 6 succession secrets 5, of the secrets for a
-- trade (5 in the test build) 4, of the 4 for a part of an address 3
unfoldable pub relays_required : ℕ → ℕ
relays_required relays_in_total =
    if relays_in_total == 6
    then 5
    else if relays_in_total == 5
    then 4
    else if relays_in_total == 4
    then 3
    else 0

abbrev pub num_executors : ℕ
num_executors = 6

module _ (d : Data) where
  -- RelayStateChain::HandleJoin
  unfoldable pub handle_join : Env → ℕ → RelayStateChain → Result RelayStateChain
  unfolding read_join
  handle_join env message_hash c = elim (d.joins message_hash) [
    | none ↦ throw missing_data c
    | some msg ↦
        if count (d.point_of_number msg.relay_number) c.state.relays
        then ok c
        else if not (msg.relay_number == (1 + c.state.latest_relay_number) % u32_mod)
        then throw relay_state_error c
        else (on_state c (add_relay env msg.relay_pubkey message_hash c.state) >>= λ added. ok (
            if ltb 0 msg.preceding_relay_join_hash
            then record added {
              state = record added.state {
                line_of_succession =
                    put msg.relay_pubkey (read_join d msg.preceding_relay_join_hash).relay_pubkey
                      added.state.line_of_succession;
              };
            }
            else added))
  ]

  -- RelayStateChain::UnHandleJoin
  unfoldable pub unhandle_join : ℕ → RelayStateChain → Result RelayStateChain
  unfolding read_join
  unhandle_join message_hash c =
      on_state c (remove_relay (read_join d message_hash).relay_pubkey true c.state)

  -- RelayStateChain::HandleLeave
  unfoldable pub handle_leave : ℕ → RelayStateChain → RelayStateChain
  handle_leave message_hash c =
      let msg = get_or (d.leaves message_hash) empty_leave in
      record c {
        state = record c.state {
          actual_successions = put msg.relay_leaving msg.successor c.state.actual_successions;
        };
      }

  -- RelayStateChain::UnHandleLeave
  unfoldable pub unhandle_leave : ℕ → RelayStateChain → RelayStateChain
  unhandle_leave message_hash c =
      let msg = get_or (d.leaves message_hash) empty_leave in
      record c {
        state = record c.state {
          actual_successions = erase msg.relay_leaving c.state.actual_successions;
        };
      }

-- RelayStateChain::AddDisqualification
unfoldable pub disqualify : Point → ℕ → RelayStateChain → RelayStateChain
unfolding add_disqualification
disqualify relay message_hash c = record c {
  state = add_disqualification relay message_hash c.state;
}

-- RelayStateChain::RemoveDisqualification
unfoldable pub requalify : Point → ℕ → RelayStateChain → RelayStateChain
requalify relay message_hash c = elim (lookup relay c.state.disqualifications) [
  | none ↦ c
  | some hashes ↦
      let left = erase message_hash hashes in
      record c {
        state = record c.state {
          disqualifications =
              if length left == 0
              then erase relay (put relay left c.state.disqualifications)
              else put relay left c.state.disqualifications;
        };
      }
]
