-- ===== src/RelayChain/Batch/Frame.antt =====
-- What each handler of RelayStateChain leaves alone.
use flex.Common.{ℕ, ◌≡◌, refl, ◌⊎◌, inl, inr, arith}
use flex.Exceptions.{Result, ok, throw}
use flex.RelayState.{RelayState}
use flex.RelayState.Platform.{Env, Point}
use flex.RelayChain.{
  Data, RelayStateChain, MessageType, join, leave, successor, succession, trader_complaint,
  trader_complaint_refutation, relay_complaint_refutation, complaint_refutation, other,
}
use flex.RelayChain.Handlers.{handle_leave, disqualify, requalify, on_state}
use flex.RelayChain.Complaints.{
  handle_successor, handle_succession, handle_trader_complaint,
  handle_refutation_of_trader_complaint, handle_refutation_of_relay_complaint,
}
use flex.RelayChain.Batch.{handle_as}

-- The numbering and the joins are the same, and so are the messages that were handled.
pub record Frame (c c' : RelayStateChain) : Type 0 where
  pub relays : c'.state.relays ≡ c.state.relays
  pub latest : c'.state.latest_relay_number ≡ c.state.latest_relay_number
  pub handled : c'.handled_messages ≡ c.handled_messages

disqualify-Frame :
    (relay : Point) (hash : ℕ) (c : RelayStateChain) → Frame c (disqualify relay hash c)
unfolding disqualify
disqualify-Frame relay hash c = record { relays = refl; latest = refl; handled = refl }

requalify-Frame :
    (relay : Point) (hash : ℕ) (c : RelayStateChain) → Frame c (requalify relay hash c)
unfolding requalify
requalify-Frame relay hash c = ground arith

-- Every handler but that of a join keeps the frame and throws nothing.
pub handle_as-Frame :
    (d : Data) (env : Env) (kind : MessageType) (hash : ℕ) (c : RelayStateChain)
    → (kind ≡ join) ⊎ ((c' : RelayStateChain) × (handle_as d env kind hash c ≡ ok c') × Frame c c')
unfolding handle_as
handle_as-Frame d env join hash c = inl refl
handle_as-Frame d env leave hash c =
    inr (_, refl, unfold handle_leave in record { relays = refl; latest = refl; handled = refl })
handle_as-Frame d env successor hash c =
    inr
      (_, refl, unfold handle_successor in record { relays = refl; latest = refl; handled = refl })
handle_as-Frame d env succession hash c =
    inr
      (_, refl, unfold handle_succession in record { relays = refl; latest = refl; handled = refl })
handle_as-Frame d env trader_complaint hash c = inr (
  _,
  refl,
  unfold handle_trader_complaint in record { relays = refl; latest = refl; handled = refl },
)
handle_as-Frame d env trader_complaint_refutation hash c =
    inr (_, refl, unfold handle_refutation_of_trader_complaint in ground arith)
handle_as-Frame d env relay_complaint_refutation hash c = inr (
  _,
  refl,
  unfold handle_refutation_of_relay_complaint in
      record { relays = refl; latest = refl; handled = refl },
)
handle_as-Frame d env complaint_refutation hash c =
    inr (_, refl, record { relays = refl; latest = refl; handled = refl })
handle_as-Frame d env other hash c =
    inr (_, refl, record { relays = refl; latest = refl; handled = refl })

on_state-handled :
    (c : RelayStateChain) (r : Result RelayState) (c' : RelayStateChain)
    → on_state c r ≡ ok c'
    → c'.handled_messages ≡ c.handled_messages
on_state-handled c (ok s) c' h = ground arith
on_state-handled c (throw e s) c' h = absurd (cc)
