-- ===== src/RelayChain/Validation.antt =====
-- The checks of RelayStateChain before a message is handled. `none` is a MissingDataException; no
-- check changes the state, but for what an index of a map that has no such key puts there.
use flex.Common.{
  ℕ, ◌+◌, ◌%◌, Bool, true, false, not, ◌||◌, Option, none, some, leb, ◌==◌, if◌then◌else◌, get_or,
  nat_eq, is_some,
}
use flex.StdMap.{lookup, count}
use flex.VectorTools.{vector_contains_entry}
use flex.RelayState.Platform.{Env, infinity, u32_mod}
use flex.RelayState.Selection.{executors_of}
use flex.RelayChain.{
  Data, RelayStateChain, MessageType, join, leave, successor, succession, trader_complaint,
  trader_complaint_refutation, relay_complaint_refutation, complaint_refutation, other, read_join,
  deceased, succession_successor, predecessor_key,
}

module _ (d : Data) where
  -- RelayStateChain::ValidateJoin
  unfoldable pub validate_join : ℕ → RelayStateChain → Bool
  validate_join message_hash c = elim (d.joins message_hash) [
    | none ↦ false
    | some msg ↦
        if leb msg.relay_number c.state.latest_relay_number
        then false
        else if not (msg.relay_number == (1 + c.state.latest_relay_number) % u32_mod)
        then false
        else not
            (count message_hash c.state.join_hash_to_relay || count msg.relay_pubkey c.state.relays)
  ]

  -- RelayStateChain::ValidateLeave
  unfoldable pub validate_leave : ℕ → RelayStateChain → Bool
  validate_leave message_hash c = elim (d.leaves message_hash) [
    | none ↦ false
    | some msg ↦ not (
        count msg.relay_leaving c.state.actual_successions
        || not (count msg.relay_leaving c.state.relays))
  ]

  -- RelayStateChain::ValidateSuccessor. A predecessor that has a successor is only logged.
  unfoldable pub validate_successor : ℕ → RelayStateChain → Option Bool
  unfolding predecessor_key read_join
  validate_successor message_hash c = elim (d.successors message_hash) [
    | none ↦ none
    | some msg ↦
        if not (count (predecessor_key d msg) c.state.relays)
        then some false
        else some (count (read_join d msg.successor_join_hash).relay_pubkey c.state.relays)
  ]

  -- RelayStateChain::ValidateSuccession. Executors(dead_relay) is called when dead_relay is a relay, so
  -- its index puts nothing.
  unfoldable pub validate_succession : Env → ℕ → RelayStateChain → Option Bool
  unfolding deceased succession_successor
  validate_succession env message_hash c = elim (d.successions message_hash) [
    | none ↦ none
    | some msg ↦
        let dead_relay = deceased d msg in
        let line = lookup dead_relay c.state.line_of_succession in
        if not (count dead_relay c.state.relays)
        then some false
        else if not (is_some line) || not (get_or line infinity == succession_successor d msg)
        then some false
        else some (vector_contains_entry (executors_of env dead_relay c.state).0 msg.executor)
  ]

  -- RelayStateChain::ValidateTraderComplaint
  unfoldable pub validate_trader_complaint : ℕ → Bool
  validate_trader_complaint message_hash =
      d.verify_signature (get_or (d.trader_complaints message_hash) (record { message_hash = 0 }))

  -- RelayStateChain::ValidateRefutationOfTraderComplaint
  unfoldable pub validate_refutation_of_trader_complaint : ℕ → Bool
  validate_refutation_of_trader_complaint message_hash =
      d.validate_refutation
        (get_or (d.trader_complaint_refutations message_hash) (record { complaint_hash = 0 }))

  -- RelayStateChain::ValidateRefutationOfRelayComplaint, which reads "trader_complaint_refutation"
  unfoldable pub validate_refutation_of_relay_complaint : ℕ → Bool
  validate_refutation_of_relay_complaint message_hash =
      d.validate_refutation
        (get_or (d.trader_complaint_refutations message_hash) (record { complaint_hash = 0 }))

  unfoldable pub validate_as : Env → MessageType → ℕ → RelayStateChain → Option Bool
  validate_as env join hash c = some (validate_join hash c)
  validate_as env leave hash c = some (validate_leave hash c)
  validate_as env successor hash c = validate_successor hash c
  validate_as env succession hash c = validate_succession env hash c
  validate_as env trader_complaint hash c = some (validate_trader_complaint hash)
  validate_as env trader_complaint_refutation hash c =
      some (validate_refutation_of_trader_complaint hash)
  validate_as env relay_complaint_refutation hash c =
      some (validate_refutation_of_relay_complaint hash)
  validate_as env complaint_refutation hash c = some true
  validate_as env other hash c = some true

  -- RelayStateChain::ValidateMessage
  unfoldable pub validate_message : Env → ℕ → RelayStateChain → Option Bool
  unfolding validate_as
  validate_message env message_hash c = validate_as env (d.message_type message_hash) message_hash c
