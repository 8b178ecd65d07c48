-- ===== src/RelayChain/Complaints.antt =====
-- The handlers of complaints, successions and refutations of src/relays/relaystate.cpp, and what
-- undoes them.
use flex.Common.{ℕ, [], ltb, leb, if◌then◌else◌, get_or, length}
use flex.StdMap.{lookup, put, erase, insert}
use flex.RelayChain.{
  Data, RelayStateChain, read_join, empty_successor, empty_succession, deceased,
  succession_successor, predecessor_key, complaint_join_hash, complaint_verification_key,
}
use flex.RelayChain.Handlers.{disqualify, requalify, num_executors, relays_required}

module _ (d : Data) where
  -- RelayStateChain::HandleComplaintFromFutureSuccessor
  unfoldable pub handle_complaint_from_future_successor : ℕ → RelayStateChain → RelayStateChain
  unfolding disqualify complaint_join_hash read_join
  handle_complaint_from_future_successor message_hash =
      let complaint =
        get_or (d.complaints_future_successor message_hash)
          (record { future_successor_msg_hash = 0 }) in
      disqualify (read_join d (complaint_join_hash d complaint)).relay_pubkey message_hash

  -- RelayStateChain::UnHandleComplaintFromFutureSuccessor
  unfoldable pub unhandle_complaint_from_future_successor : ℕ → RelayStateChain → RelayStateChain
  unfolding requalify complaint_join_hash read_join
  unhandle_complaint_from_future_successor message_hash =
      let complaint =
        get_or (d.complaints_future_successor message_hash)
          (record { future_successor_msg_hash = 0 }) in
      requalify (d.join_verification_key (read_join d (complaint_join_hash d complaint)))
        message_hash

  -- RelayStateChain::HandleRefutationOfComplaintFromFutureSuccessor
  unfoldable pub handle_refutation_of_complaint_from_future_successor :
      ℕ → RelayStateChain → RelayStateChain
  unfolding disqualify requalify complaint_join_hash complaint_verification_key read_join
  handle_refutation_of_complaint_from_future_successor message_hash c =
      let refutation =
        get_or (d.future_successor_refutations message_hash) (record { complaint_hash = 0 }) in
      let complaint =
        get_or (d.complaints_future_successor refutation.complaint_hash)
          (record { future_successor_msg_hash = 0 }) in
      disqualify (complaint_verification_key d complaint) message_hash (
        requalify (read_join d (complaint_join_hash d complaint)).relay_pubkey
          refutation.complaint_hash c)

  -- RelayStateChain::UnHandleRefutationOfComplaintFromFutureSuccessor
  unfoldable pub unhandle_refutation_of_complaint_from_future_successor :
      ℕ → RelayStateChain → RelayStateChain
  unfolding disqualify requalify complaint_join_hash complaint_verification_key read_join
  unhandle_refutation_of_complaint_from_future_successor message_hash c =
      let refutation =
        get_or (d.future_successor_refutations message_hash) (record { complaint_hash = 0 }) in
      let complaint =
        get_or (d.complaints_future_successor refutation.complaint_hash)
          (record { future_successor_msg_hash = 0 }) in
      requalify (complaint_verification_key d complaint) message_hash (
        disqualify (read_join d (complaint_join_hash d complaint)).relay_pubkey
          refutation.complaint_hash c)

  -- RelayStateChain::HandleSuccessor
  unfoldable pub handle_successor : ℕ → RelayStateChain → RelayStateChain
  unfolding predecessor_key read_join
  handle_successor message_hash c =
      let msg = get_or (d.successors message_hash) empty_successor in
      record c {
        state = record c.state {
          line_of_succession =
              put (predecessor_key d msg) (read_join d msg.successor_join_hash).relay_pubkey
                c.state.line_of_succession;
        };
      }

  -- RelayStateChain::UnHandleSuccessor
  unfoldable pub unhandle_successor : ℕ → RelayStateChain → RelayStateChain
  unfolding predecessor_key
  unhandle_successor message_hash c =
      let msg = get_or (d.successors message_hash) empty_successor in
      record c {
        state = record c.state {
          line_of_succession = erase (predecessor_key d msg) c.state.line_of_succession;
        };
      }

  -- RelayStateChain::HandleSuccession
  unfoldable pub handle_succession : ℕ → RelayStateChain → RelayStateChain
  unfolding deceased succession_successor relays_required
  handle_succession message_hash c =
      let msg = get_or (d.successions message_hash) empty_succession in
      let predecessor = deceased d msg in
      let msgs =
        insert message_hash (get_or (lookup predecessor c.state.subthreshold_succession_msgs) []) in
      record c {
        state = record c.state {
          subthreshold_succession_msgs = put predecessor msgs c.state.subthreshold_succession_msgs;
          actual_successions =
              if leb (relays_required num_executors) (length msgs)
              then put predecessor (succession_successor d msg) c.state.actual_successions
              else c.state.actual_successions;
        };
        succession_msgs = put predecessor msgs c.succession_msgs;
      }

  -- RelayStateChain::UnHandleSuccession
  unfoldable pub unhandle_succession : ℕ → RelayStateChain → RelayStateChain
  unfolding deceased relays_required
  unhandle_succession message_hash c =
      let msg = get_or (d.successions message_hash) empty_succession in
      let predecessor = deceased d msg in
      let stored = get_or (lookup predecessor c.succession_msgs) [] in
      let below = ltb (length (erase message_hash stored)) (relays_required num_executors) in
      let subthreshold =
        if below
        then put predecessor stored c.state.subthreshold_succession_msgs
        else c.state.subthreshold_succession_msgs in
      record c {
        state = record c.state {
          actual_successions =
              if below
              then erase predecessor c.state.actual_successions
              else c.state.actual_successions;
          subthreshold_succession_msgs =
              put predecessor (erase message_hash (get_or (lookup predecessor subthreshold) []))
                subthreshold;
        };
      }

  -- RelayStateChain::HandleTraderComplaint
  unfoldable pub handle_trader_complaint : ℕ → RelayStateChain → RelayStateChain
  unfolding disqualify
  handle_trader_complaint message_hash =
      let complaint = get_or (d.trader_complaints message_hash) (record { message_hash = 0 }) in
      disqualify (d.secret_key complaint.message_hash) message_hash

  -- RelayStateChain::UnHandleTraderComplaint
  unfoldable pub unhandle_trader_complaint : ℕ → RelayStateChain → RelayStateChain
  unfolding requalify
  unhandle_trader_complaint message_hash =
      let complaint = get_or (d.complaints message_hash) (record { message_hash = 0 }) in
      requalify (d.secret_key complaint.message_hash) message_hash

  -- RelayStateChain::HandleRefutationOfTraderComplaint
  unfoldable pub handle_refutation_of_trader_complaint : ℕ → RelayStateChain → RelayStateChain
  unfolding requalify
  handle_refutation_of_trader_complaint message_hash =
      let refutation =
        get_or (d.trader_complaint_refutations message_hash) (record { complaint_hash = 0 }) in
      let complaint =
        get_or (d.trader_complaints refutation.complaint_hash) (record { message_hash = 0 }) in
      requalify (d.secret_key complaint.message_hash) refutation.complaint_hash

  -- RelayStateChain::UnHandleRefutationOfTraderComplaint
  unfoldable pub unhandle_refutation_of_trader_complaint : ℕ → RelayStateChain → RelayStateChain
  unfolding disqualify
  unhandle_refutation_of_trader_complaint message_hash =
      let refutation =
        get_or (d.trader_complaint_refutations message_hash) (record { complaint_hash = 0 }) in
      let complaint =
        get_or (d.complaints refutation.complaint_hash) (record { message_hash = 0 }) in
      disqualify (d.secret_key complaint.message_hash) refutation.complaint_hash

  -- RelayStateChain::HandleRefutationOfRelayComplaint
  unfoldable pub handle_refutation_of_relay_complaint : ℕ → RelayStateChain → RelayStateChain
  unfolding disqualify
  handle_refutation_of_relay_complaint message_hash =
      let refutation =
        get_or (d.relay_complaint_refutations message_hash) (record { complaint_hash = 0 }) in
      disqualify (d.relay_complaint_key refutation.complaint_hash) message_hash

  -- RelayStateChain::UnHandleRefutationOfRelayComplaint
  unfoldable pub unhandle_refutation_of_relay_complaint : ℕ → RelayStateChain → RelayStateChain
  unfolding requalify
  unhandle_refutation_of_relay_complaint message_hash =
      let refutation =
        get_or (d.relay_complaint_refutations message_hash) (record { complaint_hash = 0 }) in
      requalify (d.relay_complaint_key refutation.complaint_hash) message_hash
