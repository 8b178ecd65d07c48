-- ===== src/RelayChain/Undo.antt =====
-- What the UnHandle functions of RelayStateChain undo.
use flex.Common.{ℕ, true, ◌≡◌, ◌≢◌, refl, ap, inl, inr, none, some, [], arith, Option-cases, get_or}
use flex.Exceptions.{ok}
use flex.StdMap.{Map, lookup, put, erase, count, insert}
use flex.StdMap.Laws.{lookup-put, lookup-erase, erase-put}
use flex.RelayState.Platform.{Env, Point}
use flex.RelayChain.{
  Data, RelayStateChain, MessageType, leave, successor, predecessor_key,
  FutureSuccessorSecretMessage, TraderComplaint,
}
use flex.RelayChain.Handlers.{handle_leave, unhandle_leave, requalify}
use flex.RelayChain.Complaints.{
  handle_successor, unhandle_successor, handle_trader_complaint, unhandle_trader_complaint,
}
use flex.RelayChain.Validation.{validate_leave, validate_as, validate_message}
use flex.RelayChain.Batch.{handle_as, handle_message, unhandle_as, unhandle_message}

-- HandleMessage of the message returns, and UnHandleMessage then restores the chain.
abbrev pub IsUndone : Data → Env → ℕ → RelayStateChain → Type 0
IsUndone d env hash c =
    (c' : RelayStateChain) × (handle_message d env hash c ≡ ok c')
    × (unhandle_message d env hash c' ≡ ok c)

-- It is enough that the two functions for the message's type undo one another.
pub IsUndone-as :
    (d : Data) (env : Env) (hash : ℕ) (kind : MessageType) (c c' : RelayStateChain)
    → d.message_type hash ≡ kind
    → lookup hash c.handled_messages ≡ none
    → c'.handled_messages ≡ c.handled_messages
    → handle_as d env kind hash c ≡ ok c'
    → ((h : RelayStateChain)
        → h ≡ record c' { handled_messages = insert hash c'.handled_messages }
        → unhandle_as d env kind hash h
          ≡ ok (record c { handled_messages = insert hash c.handled_messages }))
    → IsUndone d env hash c
IsUndone-as d env hash kind c c' type fresh same handled undone =
    let marked : RelayStateChain = record c' {
      handled_messages = insert hash c'.handled_messages;
    } in
    (
      marked,
      unfold handle_message in rw (type, handled, handle_message),
      unfold unhandle_message in
          rw (type, undone marked refl, unhandle_message)
            (ground (arith, erase-put hash tt c.handled_messages fresh)),
    )

-- A leave that ValidateMessage accepts, and that was not handled, is undone.
pub leave-IsUndone :
    (d : Data) (env : Env) (hash : ℕ) (c : RelayStateChain)
    → d.message_type hash ≡ leave
    → lookup hash c.handled_messages ≡ none
    → validate_message d env hash c ≡ some true
    → IsUndone d env hash c
leave-IsUndone d env hash c type fresh accepted = elim (Option-cases (d.leaves hash)) [
  | inl missing ↦ absurd (
      unfold validate_message validate_as validate_leave in ground (arith, accepted, type, missing))
  | inr (msg, e) ↦
      let absent : lookup msg.relay_leaving c.state.actual_successions ≡ none =
        unfold validate_message validate_as validate_leave in ground (arith, accepted, type, e) in
      IsUndone-as d env hash leave c (handle_leave d hash c) type fresh
        (unfold handle_leave in refl) (unfold handle_as in refl)
        (λ h p.
          unfold unhandle_as unhandle_leave handle_leave in
          rw p (
            rw e (
              ground (
                arith,
                erase-put msg.relay_leaving msg.successor c.state.actual_successions absent,
              ))))
]

-- HandleTraderComplaint reads the complaint under "trader_complaint", UnHandleTraderComplaint under
-- "complaint". Where nothing is stored under "complaint", and the secret of message 0 has another key
-- than the secret complained of, the relay is still disqualified after both.
trader_complaint_stays :
    (d : Data) (hash : ℕ) (complaint : TraderComplaint) (c : RelayStateChain)
    → d.trader_complaints hash ≡ some complaint
    → d.complaints hash ≡ none
    → d.secret_key 0 ≢ d.secret_key complaint.message_hash
    → count
        (d.secret_key complaint.message_hash)
        (unhandle_trader_complaint d hash
          (handle_trader_complaint d hash c)).state.disqualifications
      ≡ true
unfolding unhandle_trader_complaint handle_trader_complaint
trader_complaint_stays d hash complaint c e missing differs =
    rw (e, missing)
      (still (d.secret_key 0) (d.secret_key complaint.message_hash) hash
        (get_or (lookup (d.secret_key complaint.message_hash) c.state.disqualifications) []) c
        differs)
  where
    still :
        (q p hash : ℕ) (hashes : Map (Unit {0})) (c : RelayStateChain)
        → q ≢ p
        → count p
            (requalify q hash (record c {
              state = record c.state {
                disqualifications = put p (insert hash hashes) c.state.disqualifications;
              };
            })).state.disqualifications
          ≡ true
    still q p hash hashes c differs =
        let before = put p (insert hash hashes) c.state.disqualifications in
        elim (Option-cases (lookup q before)) [
          | inl none_there ↦
              rw (none_there, requalify)
                (ground (arith, lookup-put p p (insert hash hashes) c.state.disqualifications))
          | inr (found, there) ↦
              rw (there, requalify)
                (ground (
                  arith,
                  lookup-put p p (insert hash hashes) c.state.disqualifications,
                  lookup-put p q (erase hash found) before,
                  lookup-erase p q (put q (erase hash found) before),
                ))
        ]

successor_erased :
    (d : Data) (hash : ℕ) (msg : FutureSuccessorSecretMessage) (c : RelayStateChain)
    → d.successors hash ≡ some msg
    → lookup (predecessor_key d msg) (unhandle_successor d hash c).state.line_of_succession ≡ none
unfolding unhandle_successor
successor_erased d hash msg c e = rw e (
    ground (
      arith,
      lookup-erase (predecessor_key d msg) (predecessor_key d msg) c.state.line_of_succession,
    ))

-- A message of type successor that ValidateMessage accepts, though the relay it is for has a successor:
-- HandleMessage and then UnHandleMessage return, and leave this relay with no successor, so what the
-- chain holds of the successors is not restored.
pub successor_not_undone :
    (d : Data) (env : Env) (hash : ℕ) (msg : FutureSuccessorSecretMessage) (before : Point)
    (c : RelayStateChain)
    → d.message_type hash ≡ successor
    → d.successors hash ≡ some msg
    → validate_message d env hash c ≡ some true
    → lookup (predecessor_key d msg) c.state.line_of_succession ≡ some before
    → (c' : RelayStateChain) × (c'' : RelayStateChain) × (handle_message d env hash c ≡ ok c')
      × (unhandle_message d env hash c' ≡ ok c'')
      × (lookup (predecessor_key d msg) c''.state.line_of_succession ≡ none)
      × (c''.state.line_of_succession ≢ c.state.line_of_succession)
unfolding handle_message handle_as unhandle_message unhandle_as
successor_not_undone d env hash msg before c type e accepted had =
    let handled = handle_successor d hash c in
    let marked : RelayStateChain = record handled {
      handled_messages = insert hash handled.handled_messages;
    } in
    let back = unhandle_successor d hash marked in
    let absent : lookup (predecessor_key d msg) back.state.line_of_succession ≡ none =
      successor_erased d hash msg marked e in
    (
      marked,
      record back { handled_messages = erase hash back.handled_messages },
      rw (type, handle_message) refl,
      rw (type, unhandle_message) refl,
      absent,
      λ same. ground (arith, had, absent, ap (lookup (predecessor_key d msg)) same),
    )
