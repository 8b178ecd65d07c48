-- ===== src/RelayChain/Batch.antt =====
-- RelayStateChain::HandleMessage, UnHandleMessage, HandleMessages and SharedChain::HandleBatch.
pub mod Dispatch
pub mod Frame
pub mod Next
pub mod Account
use flex.Common.{
  ℕ, Bool, true, false, not, ◌&&◌, Option, none, some, List, [], ◌∷◌, ◌++◌, ◌==◌, if◌then◌else◌,
  map,
}
use flex.Exceptions.{Exception, Result, ok, throw, missing_data, recover_hashes_failed, ◌>>=◌}
use flex.StdMap.{erase, insert}
use flex.RelayState.{set_latest_credit_hash}
use flex.RelayState.Platform.{Env}
use flex.RelayChain.{
  Data, RelayStateChain, RelayJoinMessage, MessageType, join, leave, successor, succession,
  trader_complaint, trader_complaint_refutation, relay_complaint_refutation, complaint_refutation,
  other, read_join,
}
use flex.RelayChain.Handlers
use flex.RelayChain.Complaints
use flex.RelayChain.Validation.{validate_message}

-- The list message_types that SetMessages fills.
unfoldable pub in_message_types : MessageType → Bool
in_message_types join = true
in_message_types leave = true
in_message_types successor = true
in_message_types succession = true
in_message_types trader_complaint = true
in_message_types complaint_refutation = true
in_message_types trader_complaint_refutation = false
in_message_types relay_complaint_refutation = false
in_message_types other = false

module _ (d : Data) (env : Env) where
  unfoldable pub handle_as : MessageType → ℕ → RelayStateChain → Result RelayStateChain
  handle_as join hash c = Handlers.handle_join d env hash c
  handle_as leave hash c = ok (Handlers.handle_leave d hash c)
  handle_as successor hash c = ok (Complaints.handle_successor d hash c)
  handle_as succession hash c = ok (Complaints.handle_succession d hash c)
  handle_as trader_complaint hash c = ok (Complaints.handle_trader_complaint d hash c)
  handle_as trader_complaint_refutation hash c =
      ok (Complaints.handle_refutation_of_trader_complaint d hash c)
  handle_as relay_complaint_refutation hash c =
      ok (Complaints.handle_refutation_of_relay_complaint d hash c)
  handle_as complaint_refutation hash c = ok c
  handle_as other hash c = ok c

  -- RelayStateChain::HandleMessage
  unfoldable pub handle_message : ℕ → RelayStateChain → Result RelayStateChain
  unfolding handle_as
  handle_message message_hash c = elim (handle_as (d.message_type message_hash) message_hash c) [
    | ok handled ↦
        ok (record handled { handled_messages = insert message_hash handled.handled_messages })
    | throw e left ↦ throw e left
  ]

  unfoldable pub unhandle_as : MessageType → ℕ → RelayStateChain → Result RelayStateChain
  unhandle_as join hash c = Handlers.unhandle_join d hash c
  unhandle_as leave hash c = ok (Handlers.unhandle_leave d hash c)
  unhandle_as successor hash c = ok (Complaints.unhandle_successor d hash c)
  unhandle_as succession hash c = ok (Complaints.unhandle_succession d hash c)
  unhandle_as trader_complaint hash c = ok (Complaints.unhandle_trader_complaint d hash c)
  unhandle_as trader_complaint_refutation hash c =
      ok (Complaints.unhandle_refutation_of_trader_complaint d hash c)
  unhandle_as relay_complaint_refutation hash c =
      ok (Complaints.unhandle_refutation_of_relay_complaint d hash c)
  unhandle_as complaint_refutation hash c = ok c
  unhandle_as other hash c = ok c

  -- RelayStateChain::UnHandleMessage
  unfoldable pub unhandle_message : ℕ → RelayStateChain → Result RelayStateChain
  unfolding unhandle_as
  unhandle_message message_hash c =
      elim (unhandle_as (d.message_type message_hash) message_hash c) [
        | ok handled ↦
            ok (record handled { handled_messages = erase message_hash handled.handled_messages })
        | throw e left ↦ throw e left
      ]

module _ (d : Data) where
  -- The first loop of HandleMessages: the joins, and the hashes of the other messages.
  unfoldable pub separate : List ℕ → List RelayJoinMessage × List ℕ
  unfolding in_message_types read_join
  separate [] = ([], [])
  separate (hash ∷ hashes) =
      let (joins, others) = separate hashes in
      elim (d.message_type hash) [
        | join ↦ (read_join d hash ∷ joins, others)
        | kind ↦ if in_message_types kind then (joins, hash ∷ others) else (joins, others)
      ]

  unfoldable pub insert_join : RelayJoinMessage → List RelayJoinMessage → List RelayJoinMessage
  insert_join msg [] = msg ∷ []
  insert_join msg (first ∷ joins) =
      let rest = insert_join msg joins in
      if d.join_before first msg then first ∷ rest else msg ∷ first ∷ joins

  -- sort(joins.begin(), joins.end())
  unfoldable pub sort_joins : List RelayJoinMessage → List RelayJoinMessage
  unfolding insert_join
  sort_joins [] = []
  sort_joins (msg ∷ joins) = insert_join msg (sort_joins joins)

  -- final_messages_to_handle
  unfoldable pub final_messages : List ℕ → List ℕ
  unfolding separate sort_joins
  final_messages messages =
      let (joins, others) = separate messages in map d.join_hash160 (sort_joins joins) ++ others

-- What HandleMessages has done: the chain, the messages it rejected, and its result.
pub record Handled : Type 0 where
  pub chain : RelayStateChain
  pub rejected : List ℕ
  pub result : Bool

module _ (d : Data) (env : Env) where
  -- The last loop of HandleMessages.
  unfoldable pub handle_each : List ℕ → Handled → Result Handled
  handle_each [] h = ok h
  handle_each (hash ∷ hashes) h = elim (validate_message d env hash h.chain) [
    | none ↦ throw missing_data h
    | some false ↦
        handle_each hashes (record h { rejected = h.rejected ++ hash ∷ []; result = false })
    | some true ↦ elim (handle_message d env hash h.chain) [
      | ok handled ↦ handle_each hashes (record h { chain = handled })
      | throw e left ↦ throw e (record h { chain = left })
    ]
  ]

  -- RelayStateChain::HandleMessages
  unfoldable pub handle_messages : List ℕ → RelayStateChain → Result Handled
  unfolding handle_each final_messages
  handle_messages messages c =
      handle_each (final_messages d messages) (record { chain = c; rejected = []; result = true })

  -- The loop of SharedChain::HandleBatch.
  unfoldable pub handle_known : List ℕ → RelayStateChain → Result RelayStateChain
  unfolding in_message_types
  handle_known [] c = ok c
  handle_known (hash ∷ hashes) c =
      elim (if in_message_types (d.message_type hash) then handle_message d env hash c else ok c) [
        | ok handled ↦ handle_known hashes handled
        | throw e left ↦ throw e left
      ]

  -- SharedChain::HandleBatch, given the hashes that RecoverFullHashes recovers, if it does.
  unfoldable pub handle_batch : ℕ → Option (List ℕ) → RelayStateChain → Result RelayStateChain
  unfolding handle_known set_latest_credit_hash
  handle_batch credit_hash none c = throw recover_hashes_failed c
  handle_batch credit_hash (some full_hashes) c = handle_known full_hashes c >>= λ handled.
      ok (record handled { state = set_latest_credit_hash credit_hash handled.state })
