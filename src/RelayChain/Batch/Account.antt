-- ===== src/RelayChain/Batch/Account.antt =====
-- HandleMessages keeps the numbering of the relays, throws only for missing data, and handles or
-- rejects each message that it hands on.
use flex.Common.{
  ℕ, Bool, true, false, ◌||◌, ◌≡◌, ◌≢◌, refl, ◌⊎◌, ◌↔◌, inl, inr, List, [], ◌∷◌, ◌++◌, arith,
  Option-cases, length, All, nat_eq, ◌==◌,
}
use flex.Exceptions.{ok, throw, missing_data}
use flex.StdMap.{count, insert}
use flex.StdMap.Laws.{lookup-put}
use flex.VectorTools.{vector_contains_entry}
use flex.VectorTools.Laws.{contains-append}
use flex.RelayState.Platform.{Env}
use flex.RelayChain.{Data, RelayStateChain}
use flex.RelayChain.Validation.{validate_message}
use flex.RelayChain.Batch.{handle_each, handle_messages, Handled, final_messages}
use flex.RelayChain.Batch.Next.{IsChain, IsNext-same, handle_message-IsChain}

-- A message that is among the handled or the rejected.
abbrev pub is_accounted : ℕ → Handled → Bool
is_accounted hash h = count hash h.chain.handled_messages || vector_contains_entry h.rejected hash

-- What a run of the loop promises of its result.
pub record Settles (env : Env) (hashes : List ℕ) (before after : Handled) : Type 0 where
  pub chain : IsChain env 0 after.chain
  pub accounted : All (λ hash. is_accounted hash after ≡ true) hashes
  pub grows : (hash : ℕ) → is_accounted hash before ≡ true → is_accounted hash after ≡ true
  pub clean :
      (before.result ≡ true → before.rejected ≡ []) → after.result ≡ true → after.rejected ≡ []
  pub failing :
      (before.rejected ≡ [] → before.result ≡ true) → after.rejected ≡ [] → after.result ≡ true

Settles-cons :
    (env : Env) (hash : ℕ) (hashes : List ℕ) (before middle after : Handled)
    → is_accounted hash middle ≡ true
    → ((j : ℕ) → is_accounted j before ≡ true → is_accounted j middle ≡ true)
    → ((before.result ≡ true → before.rejected ≡ []) → middle.result ≡ true → middle.rejected ≡ [])
    → ((before.rejected ≡ [] → before.result ≡ true) → middle.rejected ≡ [] → middle.result ≡ true)
    → Settles env hashes middle after
    → Settles env (hash ∷ hashes) before after
Settles-cons env hash hashes before middle after here grows clean failing rest = record {
  chain = rest.chain;
  accounted = (rest.grows hash here, rest.accounted);
  grows = λ j h. rest.grows j (grows j h);
  clean = λ h. rest.clean (clean h);
  failing = λ h. rest.failing (failing h);
}

snoc-ne-nil : (xs : List ℕ) (x : ℕ) → xs ++ x ∷ [] ≢ []
snoc-ne-nil [] x h = ground arith
snoc-ne-nil (y ∷ xs) x h = ground arith

contains_snoc :
    (xs : List ℕ) (x j : ℕ)
    → vector_contains_entry (xs ++ x ∷ []) j ≡ (vector_contains_entry xs j || (x == j))
contains_snoc xs x j = unfold vector_contains_entry in ground (arith, contains-append j xs (x ∷ []))

Settles-reject :
    (env : Env) (hash : ℕ) (hashes : List ℕ) (h after : Handled)
    → Settles env hashes (record h { rejected = h.rejected ++ hash ∷ []; result = false }) after
    → Settles env (hash ∷ hashes) h after
Settles-reject env hash hashes h after =
    Settles-cons env hash hashes h (record h { rejected = h.rejected ++ hash ∷ []; result = false })
      after (ground (arith, contains_snoc h.rejected hash hash))
      (λ j e. ground (arith, contains_snoc h.rejected hash j)) (λ _ e. absurd (cc))
      (λ _ e. absurd (snoc-ne-nil h.rejected hash e))

Settles-accept :
    (env : Env) (hash : ℕ) (hashes : List ℕ) (h : Handled) (c : RelayStateChain) (after : Handled)
    → c.handled_messages ≡ insert hash h.chain.handled_messages
    → Settles env hashes (record h { chain = c }) after
    → Settles env (hash ∷ hashes) h after
Settles-accept env hash hashes h c after e =
    Settles-cons env hash hashes h (record h { chain = c }) after
      (rw e (ground (arith, lookup-put hash hash tt h.chain.handled_messages)))
      (λ j p. rw e (ground (arith, lookup-put j hash tt h.chain.handled_messages))) (λ f. f)
      (λ f. f)

handle_each-Settles :
    (d : Data) (env : Env) (hashes : List ℕ) (h : Handled)
    → IsChain env (length hashes) h.chain
    → ((after : Handled) × (handle_each d env hashes h ≡ ok after) × Settles env hashes h after)
      ⊎ ((left : Handled) × (handle_each d env hashes h ≡ throw missing_data left))
unfolding handle_each
handle_each-Settles d env [] h v = inl (
  h,
  refl,
  record { chain = v; accounted = tt; grows = λ j e. e; clean = λ f. f; failing = λ f. f },
)
handle_each-Settles d env (hash ∷ hashes) h v =
    elim (Option-cases (validate_message d env hash h.chain)) [
      | inl missing ↦ inr (h, rw (missing, handle_each))
      | inr (false, e) ↦
          let next : Handled = record h { rejected = h.rejected ++ hash ∷ []; result = false } in
          let room : IsChain env (length hashes) h.chain =
            (IsNext-same env (length hashes) h.chain v).chain in
          elim (handle_each-Settles d env hashes next room) [
            | inl (after, f, s) ↦
                inl (after, rw (e, handle_each) f, Settles-reject env hash hashes h after s)
            | inr (left, f) ↦ inr (left, rw (e, handle_each) f)
          ]
      | inr (true, e) ↦
          let (c, f, chain, noted) =
            handle_message-IsChain d env (length hashes) hash h.chain e v in
          elim (handle_each-Settles d env hashes (record h { chain = c }) chain) [
            | inl (after, g, s) ↦
                inl (
                  after,
                  rw (e, handle_each, f) g,
                  Settles-accept env hash hashes h c after noted s,
                )
            | inr (left, g) ↦ inr (left, rw (e, handle_each, f) g)
          ]
    ]

-- From a chain whose numbering is in order, with room for its messages, HandleMessages returns or
-- throws a MissingDataException, and nothing else. If it returns, the numbering is in order, each of
-- the final messages was handled or rejected, and the result is true exactly if none was rejected.
pub handle_messages-Settles :
    (d : Data) (env : Env) (messages : List ℕ) (c : RelayStateChain)
    → IsChain env (length (final_messages d messages)) c
    → ((after : Handled) × (handle_messages d env messages c ≡ ok after)
        × IsChain env 0 after.chain
        × All (λ hash. is_accounted hash after ≡ true) (final_messages d messages)
        × ((after.result ≡ true) ↔ (after.rejected ≡ [])))
      ⊎ ((left : Handled) × (handle_messages d env messages c ≡ throw missing_data left))
unfolding handle_messages
handle_messages-Settles d env messages c v =
    elim (handle_each-Settles d env (final_messages d messages)
      (record { chain = c; rejected = []; result = true }) v) [
        | inl (after, e, s) ↦
            inl (after, e, s.chain, s.accounted, (s.clean (λ _. refl), s.failing (λ _. refl)))
        | inr thrown ↦ inr thrown
      ]
