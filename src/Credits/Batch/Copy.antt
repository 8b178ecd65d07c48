-- ===== src/Credits/Batch/Copy.antt =====
-- What a batch holds after credits are added, and its copy.
use flex.Common.{
  ℕ, ◌≡◌, refl, sym, ap, ◌∙◌, ◌⊎◌, inl, inr, true, false, Option, none, some, List, [], ◌∷◌, ◌++◌,
  length, arith, Bool-cases, append_assoc, append-nil, length-append, map,
}
use flex.VectorTools.{vector_contains_entry}
use flex.RelayState.Platform.{Point}
use flex.HashTrees.Ordered.{OrderedDataElement, add_element_data}
use flex.Credits.{Credit, bytes_eq, credit_bytes}
use flex.Credits.Batch.{CreditBatch, add, add_all, copy_batch}

module _ (key_bytes : Point → List ℕ) where
  -- No two credits have the same bytes, and none has the bytes of one of `known`.
  abbrev pub AreNew : List (List ℕ) → List Credit → Type 0
  AreNew known [] = Unit
  AreNew known (credit ∷ credits) =
      (vector_contains_entry known (credit_bytes key_bytes credit) ≡ false)
      × AreNew (known ++ credit_bytes key_bytes credit ∷ []) credits

  -- The elements that AddElement makes of credits.
  abbrev pub elements_of : List Credit → List (Option OrderedDataElement)
  elements_of [] = []
  elements_of (credit ∷ credits) =
      some (record { position = 0; bytes = credit_bytes key_bytes credit }) ∷ elements_of credits

  -- A batch whose credits are different and whose tree holds their bytes, in their order.
  pub record IsBatch (b : CreditBatch) : Type 0 where
    pub new_credits : AreNew [] b.credits
    pub serialized : b.serialized_credits ≡ map (credit_bytes key_bytes) b.credits
    pub elements : b.tree.elements ≡ elements_of b.credits

  -- The batch after a credit that is new.
  abbrev pub with_credit : Credit → CreditBatch → CreditBatch
  with_credit credit b = record b {
    credits = b.credits ++ credit ∷ [];
    serialized_credits = b.serialized_credits ++ credit_bytes key_bytes credit ∷ [];
    tree = add_element_data (credit_bytes key_bytes credit) b.tree;
  }

  add_new :
      (credit : Credit) (b : CreditBatch)
      → vector_contains_entry b.serialized_credits (credit_bytes key_bytes credit) ≡ false
      → add key_bytes credit b ≡ (true, with_credit credit b)
  unfolding add
  add_new credit b h = rw h refl

  -- Adding different new credits to a batch whose tree is not built.
  add_all_new :
      (credits : List Credit) (hash offset : ℕ) (held : List Credit) (serialized : List (List ℕ))
      (elements : List (Option OrderedDataElement))
      → AreNew serialized credits
      → add_all key_bytes credits (record {
        previous_credit_hash = hash;
        credits = held;
        tree = record {
          elements = elements;
          tree = none;
          positions_assigned = false;
          offset = offset;
        };
        serialized_credits = serialized;
      })
        ≡ record {
          previous_credit_hash = hash;
          credits = held ++ credits;
          tree = record {
            elements = elements ++ elements_of credits;
            tree = none;
            positions_assigned = false;
            offset = offset;
          };
          serialized_credits = serialized ++ map (credit_bytes key_bytes) credits;
        }
  unfolding add_all add_element_data
  add_all_new [] hash offset held serialized elements h =
      rw (append-nil held, append-nil serialized, append-nil elements) refl
  add_all_new (credit ∷ credits) hash offset held serialized elements h =
      let b : CreditBatch = record {
        previous_credit_hash = hash;
        credits = held;
        tree = record {
          elements = elements;
          tree = none;
          positions_assigned = false;
          offset = offset;
        };
        serialized_credits = serialized;
      } in
      ap (λ r. add_all key_bytes credits r.1) (add_new credit b h.0)
      ∙ add_all_new credits hash offset (held ++ credit ∷ [])
          (serialized ++ credit_bytes key_bytes credit ∷ [])
          (elements ++ some (record { position = 0; bytes = credit_bytes key_bytes credit }) ∷ [])
          h.1
      ∙ (λ i. record {
        previous_credit_hash = hash;
        credits = append_assoc held (credit ∷ []) credits i;
        tree = record {
          elements =
              append_assoc elements
                (some (record { position = 0; bytes = credit_bytes key_bytes credit }) ∷ [])
                (elements_of credits) i;
          tree = none;
          positions_assigned = false;
          offset = offset;
        };
        serialized_credits =
            append_assoc serialized (credit_bytes key_bytes credit ∷ [])
              (map (credit_bytes key_bytes) credits) i;
      })

  -- The copy of a batch that holds different credits, in a tree with no positions yet, is the batch.
  copy_batch-IsBatch :
      (b : CreditBatch)
      → IsBatch b
      → b.tree.tree ≡ none
      → b.tree.positions_assigned ≡ false
      → copy_batch key_bytes b ≡ b
  unfolding copy_batch
  copy_batch-IsBatch b v unbuilt unassigned =
      add_all_new b.credits b.previous_credit_hash b.tree.offset [] [] [] v.new_credits ∙ (λ i.
        record {
          previous_credit_hash = b.previous_credit_hash;
          credits = b.credits;
          tree = record {
            elements = sym v.elements i;
            tree = sym unbuilt i;
            positions_assigned = sym unassigned i;
            offset = b.tree.offset;
          };
          serialized_credits = sym v.serialized i;
        })

  new_snoc :
      (known : List (List ℕ)) (credits : List Credit) (credit : Credit)
      → AreNew known credits
      → vector_contains_entry
          (known ++ map (credit_bytes key_bytes) credits)
          (credit_bytes key_bytes credit)
        ≡ false
      → AreNew known (credits ++ credit ∷ [])
  new_snoc known [] credit h n = (
    sym (ap (λ k. vector_contains_entry k (credit_bytes key_bytes credit)) (append-nil known)) ∙ n,
    tt,
  )
  new_snoc known (first ∷ credits) credit h n = (
    h.0,
    new_snoc (known ++ credit_bytes key_bytes first ∷ []) credits credit h.1 (
        ap (λ k. vector_contains_entry k (credit_bytes key_bytes credit))
          (append_assoc known (credit_bytes key_bytes first ∷ [])
            (map (credit_bytes key_bytes) credits))
        ∙ n),
  )

  map-snoc :
      (credits : List Credit) (credit : Credit)
      → map (credit_bytes key_bytes) credits ++ credit_bytes key_bytes credit ∷ []
        ≡ map (credit_bytes key_bytes) (credits ++ credit ∷ [])
  map-snoc [] credit = refl
  map-snoc (first ∷ credits) credit =
      ap (λ rest. credit_bytes key_bytes first ∷ rest) (map-snoc credits credit)

  elements_of-snoc :
      (credits : List Credit) (credit : Credit)
      → elements_of credits
          ++ some (record { position = 0; bytes = credit_bytes key_bytes credit }) ∷ []
        ≡ elements_of (credits ++ credit ∷ [])
  elements_of-snoc [] credit = refl
  elements_of-snoc (first ∷ credits) credit =
      ap (λ rest. some (record { position = 0; bytes = credit_bytes key_bytes first }) ∷ rest)
        (elements_of-snoc credits credit)

  longer :
      (credits : List Credit) (credit : Credit)
      → ¬ (
          map (credit_bytes key_bytes) credits
          ≡ map (credit_bytes key_bytes) (credits ++ credit ∷ []))
  longer credits credit same = ground (
    arith,
    ap length same,
    ap length (sym (map-snoc credits credit)),
    length-append (map (credit_bytes key_bytes) credits) (credit_bytes key_bytes credit ∷ []),
  )

  add_known :
      (credit : Credit) (b : CreditBatch)
      → vector_contains_entry b.serialized_credits (credit_bytes key_bytes credit) ≡ true
      → add key_bytes credit b ≡ (false, record b { credits = b.credits ++ credit ∷ [] })
  unfolding add
  add_known credit b h = rw h refl

  -- Add to a batch that holds different credits, in the order of its tree, either returns true and the
  -- batch still holds different credits, the new one among them; or it returns false, and the bytes
  -- and the tree stay as they are, but the list of the credits grows by the refused credit.
  pub add-IsBatch :
      (credit : Credit) (b : CreditBatch)
      → IsBatch b
      → (((add key_bytes credit b).0 ≡ true)
          × ((add key_bytes credit b).1.credits ≡ b.credits ++ credit ∷ [])
          × IsBatch (add key_bytes credit b).1)
        ⊎ (((add key_bytes credit b).0 ≡ false)
            × ((add key_bytes credit b).1.credits ≡ b.credits ++ credit ∷ [])
            × ((add key_bytes credit b).1.tree ≡ b.tree)
            × ((add key_bytes credit b).1.serialized_credits ≡ b.serialized_credits)
            × ¬ IsBatch (add key_bytes credit b).1)
  add-IsBatch credit b v =
      elim (Bool-cases
        (vector_contains_entry b.serialized_credits (credit_bytes key_bytes credit))) [
          | inr new ↦ rw (add_new credit b new) (
              inl (
                refl,
                refl,
                record {
                  new_credits = new_snoc [] b.credits credit v.new_credits (
                      sym (
                        ap (λ k. vector_contains_entry k (credit_bytes key_bytes credit))
                          v.serialized)
                      ∙ new);
                  serialized =
                      ap (λ k. k ++ credit_bytes key_bytes credit ∷ []) v.serialized
                      ∙ map-snoc b.credits credit;
                  elements =
                      unfold add_element_data in
                      ap
                        (λ k.
                          k
                          ++ some (record { position = 0; bytes = credit_bytes key_bytes credit })
                            ∷ [])
                        v.elements
                      ∙ elements_of-snoc b.credits credit;
                },
              ))
          | inl known ↦ rw (add_known credit b known) (
              inr (
                refl,
                refl,
                refl,
                refl,
                λ w. longer b.credits credit (sym v.serialized ∙ w.serialized),
              ))
        ]
