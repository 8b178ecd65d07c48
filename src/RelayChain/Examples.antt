-- ===== src/RelayChain/Examples.antt =====
-- A few stored messages and a chain of two relays, and what the theorems about RelayStateChain say.
use flex.Common.{
  ℕ, ◌+◌, ◌≡◌, ◌≢◌, refl, ◌↔◌, ◌⊎◌, true, none, some, [], ◌∷◌, arith, ltb, ◌==◌, if◌then◌else◌,
  length, All,
}
use flex.StdMap.{lookup}
use flex.Exceptions.{ok, throw, missing_data}
use flex.RelayState.Platform.{Env, test_build}
use flex.RelayState.{RelayState, empty}
use flex.RelayState.Trim.{IsNumbered}
use flex.RelayChain.{
  Data, RelayStateChain, MessageType, join, leave, successor, trader_complaint,
  trader_complaint_refutation, relay_complaint_refutation, other, RelayJoinMessage,
  RelayLeaveMessage, FutureSuccessorSecretMessage, TraderComplaint, read_join, predecessor_key,
}
use flex.RelayChain.Validation.{
  validate_message, validate_as, validate_join, validate_leave, validate_successor,
}
use flex.RelayChain.Batch.{
  final_messages, separate, in_message_types, sort_joins, insert_join, handle_messages, Handled,
  handle_message, unhandle_message,
}
use flex.RelayChain.Batch.Dispatch.{trader, relay, handle_messages_refutations}
use flex.RelayChain.Batch.Account.{is_accounted, handle_messages-Settles}
use flex.RelayChain.Batch.Next.{IsChain}
use flex.RelayChain.Undo.{IsUndone, leave-IsUndone, successor_not_undone}
use flex.RelayChain.UndoJoin.{IsNew, join-IsUndone}

abbrev no_join : RelayJoinMessage
no_join = record { relay_number = 0; relay_pubkey = 0; preceding_relay_join_hash = 0 }

abbrev third_join : RelayJoinMessage
third_join = record { relay_number = 3; relay_pubkey = 9; preceding_relay_join_hash = 0 }

abbrev first_leave : RelayLeaveMessage
first_leave = record { relay_leaving = 5; successor = 7 }

abbrev new_successor : FutureSuccessorSecretMessage
new_successor = record { credit_hash = 70; successor_join_hash = 500 }

abbrev a_complaint : TraderComplaint
a_complaint = record { message_hash = 60 }

abbrev sample_type : ℕ → MessageType
sample_type hash =
    if hash == 500
    then join
    else if hash == 501
    then leave
    else if hash == 502
    then successor
    else if hash == 503
    then trader_complaint
    else if hash == 504
    then trader_complaint_refutation
    else if hash == 505
    then relay_complaint_refutation
    else other

abbrev sample_data : Data
sample_data = record {
  message_type = sample_type;
  joins = λ hash. if hash == 500 then some third_join else none;
  default_join = no_join;
  leaves = λ hash. if hash == 501 then some first_leave else none;
  successors = λ hash. if hash == 502 then some new_successor else none;
  successions = λ hash. none;
  trader_complaints = λ hash. if hash == 503 then some a_complaint else none;
  complaints = λ hash. none;
  trader_complaint_refutations = λ hash. none;
  relay_complaint_refutations = λ hash. none;
  complaints_future_successor = λ hash. none;
  future_successor_refutations = λ hash. none;
  secret_key = λ hash. if hash == 60 then 7 else 0;
  relay_complaint_key = λ hash. 0;
  credit_key = λ hash. 5;
  accepted_join = λ hash. 0;
  join_verification_key = λ msg. msg.relay_pubkey;
  join_hash160 = λ msg. 500;
  join_before = λ msg other_msg. ltb msg.relay_number other_msg.relay_number;
  verify_signature = λ complaint. true;
  validate_refutation = λ refutation. true;
  point_of_number = λ n. 1000 + n;
}

abbrev sample_env : Env
sample_env = test_build 1 (λ n. n) (λ n. n)

abbrev two_relays : RelayState
two_relays = record empty {
  relays = (5, 1) ∷ (7, 2) ∷ [];
  line_of_succession = (5, 7) ∷ [];
  join_hash_to_relay = (300, 5) ∷ (301, 7) ∷ [];
  latest_relay_number = 2;
}

abbrev sample_chain : RelayStateChain
sample_chain = record {
  state = two_relays;
  handled_messages = (300, tt) ∷ [];
  succession_msgs = [];
}

two_relays-IsNumbered : IsNumbered two_relays
two_relays-IsNumbered = record {
  sorted = (omega arith, (omega arith, tt));
  small = λ k n h. unfold lookup in ground arith;
}

sample_final : final_messages sample_data (501 ∷ 500 ∷ []) ≡ 500 ∷ 501 ∷ []
unfolding final_messages separate in_message_types sort_joins insert_join read_join
sample_final = refl

sample_IsChain :
    IsChain sample_env (length (final_messages sample_data (501 ∷ 500 ∷ []))) sample_chain
sample_IsChain =
    rw sample_final
      (record { numbered = two_relays-IsNumbered; fits = omega arith; room = omega arith })

handle_messages-Settles_example :
    ((after : Handled) × (handle_messages sample_data sample_env (501 ∷ 500 ∷ []) sample_chain
        ≡ ok after)
      × IsChain sample_env 0 after.chain
      × All (λ hash. is_accounted hash after ≡ true) (final_messages sample_data (501 ∷ 500 ∷ []))
      × ((after.result ≡ true) ↔ (after.rejected ≡ [])))
    ⊎ ((left : Handled) × (handle_messages sample_data sample_env (501 ∷ 500 ∷ []) sample_chain
          ≡ throw missing_data left))
handle_messages-Settles_example =
    handle_messages-Settles sample_data sample_env (501 ∷ 500 ∷ []) sample_chain sample_IsChain

handle_messages_refutations_example :
    handle_messages sample_data sample_env (504 ∷ 505 ∷ []) sample_chain
    ≡ ok (record { chain = sample_chain; rejected = []; result = true })
handle_messages_refutations_example =
    handle_messages_refutations sample_data sample_env (504 ∷ 505 ∷ []) sample_chain
      (trader, (relay, tt))

leave-IsUndone_example : IsUndone sample_data sample_env 501 sample_chain
leave-IsUndone_example =
    leave-IsUndone sample_data sample_env 501 sample_chain refl (unfold lookup in refl)
      (unfold validate_message validate_as validate_leave lookup in refl)

ninth-IsNew : IsNew 9 two_relays
ninth-IsNew = record {
  no_line = unfold lookup in refl;
  no_actual = unfold lookup in refl;
  no_msgs = unfold lookup in refl;
  no_disqualification = unfold lookup in refl;
  no_predecessor = (refl, tt);
  no_join = (refl, (refl, tt));
}

join-IsUndone_example : IsUndone sample_data sample_env 500 sample_chain
join-IsUndone_example =
    join-IsUndone sample_data sample_env 500 third_join sample_chain refl refl
      (unfold lookup in refl) (unfold validate_message validate_as validate_join lookup in refl)
      ninth-IsNew (unfold lookup in refl) (omega arith) (omega arith)

-- The relay 7 is to succeed 5 once more.
abbrev first_relay_join : RelayJoinMessage
first_relay_join = record { relay_number = 2; relay_pubkey = 7; preceding_relay_join_hash = 0 }

abbrev again_data : Data
again_data = record sample_data { joins = λ hash. some first_relay_join }

successor_not_undone_example :
    (c' : RelayStateChain) × (c'' : RelayStateChain) × (handle_message again_data sample_env 502
        sample_chain
      ≡ ok c')
    × (unhandle_message again_data sample_env 502 c' ≡ ok c'')
    × (lookup (predecessor_key again_data new_successor) c''.state.line_of_succession ≡ none)
    × (c''.state.line_of_succession ≢ sample_chain.state.line_of_succession)
successor_not_undone_example =
    successor_not_undone again_data sample_env 502 new_successor 7 sample_chain refl refl
      (unfold validate_message validate_as validate_successor predecessor_key read_join lookup in
        refl)
      (unfold predecessor_key lookup in refl)
