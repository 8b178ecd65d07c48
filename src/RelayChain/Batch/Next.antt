-- ===== src/RelayChain/Batch/Next.antt =====
-- What a message of a batch does to the chain, so that the next one can be handled.
use flex.Common.{
  ℕ, suc, ◌+◌, ◌%◌, ◌≤◌, ◌<◌, true, ◌≡◌, refl, ap, inl, inr, some, arith, Option-cases, Bool-cases,
  length, nat_eq, ltb, ◌==◌, if◌then◌else◌,
}
use flex.Exceptions.{ok}
use flex.StdMap.{lookup, put, count, insert}
use flex.RelayState.{add_relay}
use flex.RelayState.Trim.{IsNumbered, add_relay-KeepsNewest}
use flex.RelayState.Platform.{Env, Point, u32_mod}
use flex.RelayChain.{Data, RelayStateChain, read_join}
use flex.RelayChain.Handlers.{handle_join, on_state}
use flex.RelayChain.Validation.{validate_join, validate_as, validate_message}
use flex.RelayChain.Batch.{handle_as, handle_message}
use flex.RelayChain.Batch.Frame.{Frame, handle_as-Frame}

-- The numbering is in order, with room for `k` more joins.
pub record IsChain (env : Env) (k : ℕ) (c : RelayStateChain) : Type 0 where
  pub numbered : IsNumbered c.state
  pub fits : length c.state.relays ≤ env.max_relays_remembered
  pub room : c.state.latest_relay_number + k < 999_999_999

-- A chain in order after one message, with what was handled before.
pub record IsNext (env : Env) (k : ℕ) (c c' : RelayStateChain) : Type 0 where
  pub chain : IsChain env k c'
  pub handled : c'.handled_messages ≡ c.handled_messages

pub IsNext-same :
    (env : Env) (k : ℕ) (c : RelayStateChain) → IsChain env (suc k) c → IsNext env k c c
IsNext-same env k c v = record {
  chain = record { numbered = v.numbered; fits = v.fits; room = omega (arith, v.room) };
  handled = refl;
}

IsNext-Frame :
    (env : Env) (k : ℕ) (c c' : RelayStateChain)
    → IsChain env (suc k) c
    → Frame c c'
    → IsNext env k c c'
IsNext-Frame env k c c' v f = record {
  chain = record {
    numbered = record {
      sorted = rw f.relays v.numbered.sorted;
      small = λ j n. rw f.relays (v.numbered.small j n);
    };
    fits = rw f.relays v.fits;
    room = rw f.latest (omega (arith, v.room));
  };
  handled = f.handled;
}

on_state-add_relay :
    (env : Env) (k hash : ℕ) (point : Point) (c : RelayStateChain)
    → IsChain env (suc k) c
    → (c' : RelayStateChain) × (on_state c (add_relay env point hash c.state) ≡ ok c')
      × IsNext env k c c'
on_state-add_relay env k hash point c v = elim (Option-cases (lookup point c.state.relays)) [
  | inr (n, e) ↦ (c, unfold add_relay in rw e, IsNext-same env k c v)
  | inl new ↦
      let (t, e, size, latest, numbered, _) =
        add_relay-KeepsNewest env point hash c.state v.numbered (omega (arith, v.room)) new in
      (
        record c { state = t },
        rw e,
        record {
          chain = record {
            numbered = numbered;
            fits = omega (arith, size);
            room = omega (arith, latest, v.room);
          };
          handled = refl;
        },
      )
]

-- A join that ValidateJoin accepts is handled.
handle_join-IsNext :
    (d : Data) (env : Env) (k hash : ℕ) (c : RelayStateChain)
    → validate_join d hash c ≡ true
    → IsChain env (suc k) c
    → (c' : RelayStateChain) × (handle_join d env hash c ≡ ok c') × IsNext env k c c'
handle_join-IsNext d env k hash c accepted v = elim (Option-cases (d.joins hash)) [
  | inl missing ↦ absurd (unfold validate_join in ground (arith, accepted, missing))
  | inr (msg, e) ↦
      let number : (msg.relay_number == (1 + c.state.latest_relay_number) % u32_mod) ≡ true =
        unfold validate_join in ground (arith, accepted, e) in
      elim (Bool-cases (count (d.point_of_number msg.relay_number) c.state.relays)) [
        | inl there ↦ (c, unfold handle_join in rw (e, handle_join, there), IsNext-same env k c v)
        | inr new ↦
            let (added, f, next) = on_state-add_relay env k hash msg.relay_pubkey c v in
            (
              if ltb 0 msg.preceding_relay_join_hash
                  then record added {
                    state = record added.state {
                      line_of_succession =
                          put msg.relay_pubkey
                            (read_join d msg.preceding_relay_join_hash).relay_pubkey
                            added.state.line_of_succession;
                    };
                  }
                  else added,
              unfold handle_join in rw (e, handle_join, new, number, f),
              elim (Bool-cases (ltb 0 msg.preceding_relay_join_hash)) [
                | inl set ↦ rw set (record {
                  chain = record {
                    numbered = record {
                      sorted = next.chain.numbered.sorted;
                      small = next.chain.numbered.small;
                    };
                    fits = next.chain.fits;
                    room = next.chain.room;
                  };
                  handled = next.handled;
                })
                | inr unset ↦ rw unset next
              ],
            )
      ]
]

handle_as-IsNext :
    (d : Data) (env : Env) (k hash : ℕ) (c : RelayStateChain)
    → validate_message d env hash c ≡ some true
    → IsChain env (suc k) c
    → (c' : RelayStateChain) × (handle_as d env (d.message_type hash) hash c ≡ ok c')
      × IsNext env k c c'
handle_as-IsNext d env k hash c accepted v =
    elim (handle_as-Frame d env (d.message_type hash) hash c) [
      | inr (c', e, f) ↦ (c', e, IsNext-Frame env k c c' v f)
      | inl is_join ↦
          let ok_join : validate_join d hash c ≡ true =
            unfold validate_message validate_as in ground (arith, accepted, is_join) in
          let (c', f, next) = handle_join-IsNext d env k hash c ok_join v in
          (c', rw is_join (unfold handle_as in f), next)
    ]

-- A message that ValidateMessage accepts is handled, and noted as handled.
pub handle_message-IsChain :
    (d : Data) (env : Env) (k hash : ℕ) (c : RelayStateChain)
    → validate_message d env hash c ≡ some true
    → IsChain env (suc k) c
    → (c' : RelayStateChain) × (handle_message d env hash c ≡ ok c')
      × IsChain env k c'
      × (c'.handled_messages ≡ insert hash c.handled_messages)
handle_message-IsChain d env k hash c accepted v =
    let (handled, e, next) = handle_as-IsNext d env k hash c accepted v in
    (
      record handled { handled_messages = insert hash handled.handled_messages },
      unfold handle_message in rw (e, handle_message),
      record { numbered = next.chain.numbered; fits = next.chain.fits; room = next.chain.room },
      ap (insert hash) next.handled,
    )
