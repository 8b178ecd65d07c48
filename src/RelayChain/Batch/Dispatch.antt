-- ===== src/RelayChain/Batch/Dispatch.antt =====
-- Which messages HandleMessages hands on, and what it reports.
use flex.Common.{ℕ, true, ◌≡◌, refl, ◌∙◌, List, [], ◌∷◌, All}
use flex.Exceptions.{ok}
use flex.RelayState.Platform.{Env}
use flex.RelayChain.{
  Data, RelayStateChain, MessageType, trader_complaint_refutation, relay_complaint_refutation,
}
use flex.RelayChain.Batch.{in_message_types, separate, sort_joins, final_messages, handle_messages}

-- A refutation of a trader's complaint or of a relay's complaint.
pub data IsRefutation : MessageType → Type 0 where
  trader : IsRefutation trader_complaint_refutation
  relay : IsRefutation relay_complaint_refutation

skips :
    (d : Data) (hash : ℕ) (hashes : List ℕ) (kind : MessageType)
    → d.message_type hash ≡ kind
    → IsRefutation kind
    → separate d (hash ∷ hashes) ≡ separate d hashes
unfolding separate in_message_types
skips d hash hashes _ e trader = rw (e, separate)
skips d hash hashes _ e relay = rw (e, separate)

separate_refutations :
    (d : Data) (hashes : List ℕ)
    → All (λ hash. IsRefutation (d.message_type hash)) hashes
    → separate d hashes ≡ ([], [])
separate_refutations d [] h = unfold separate in refl
separate_refutations d (hash ∷ hashes) h =
    skips d hash hashes (d.message_type hash) refl h.0 ∙ separate_refutations d hashes h.1

-- HandleMessages passes over the refutations of complaints: of a list of nothing else, it handles and
-- rejects none, and reports success. So a relay that refutes a complaint stays disqualified.
pub handle_messages_refutations :
    (d : Data) (env : Env) (hashes : List ℕ) (c : RelayStateChain)
    → All (λ hash. IsRefutation (d.message_type hash)) hashes
    → handle_messages d env hashes c ≡ ok (record { chain = c; rejected = []; result = true })
unfolding handle_messages final_messages sort_joins
handle_messages_refutations d env hashes c h = rw (separate_refutations d hashes h)
