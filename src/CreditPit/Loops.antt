-- ===== src/CreditPit/Loops.antt =====
-- What the loops of CreditPit::AddBatchToTip do to the sets and the vector of accepted hashes.
use flex.Common.{
  ℕ, ◌≡◌, refl, ap, ◌∙◌, Bool, false, not, ◌&&◌, ◌||◌, List, [], ◌∷◌, ◌++◌, arith, ◌==◌,
  if◌then◌else◌, nat_eq, Bool-cases, inl, inr,
}
use flex.StdMap.{Set, lookup, count, insert}
use flex.StdMap.Laws.{lookup-put, lookup-erase}
use flex.VectorTools.{vector_contains_entry, erase_entry_from_vector}
use flex.VectorTools.Laws.{
  Distinct, contains-append, contains-erase_entry_ne, contains-erase_entry_self,
  erase_entry-Distinct,
}
use flex.CreditPit.{
  PitData, CreditPit, mark_as_encoded, mark_each, remove_from_accepted, handle_relay_message,
  handle_relay_messages, that, hashes_of,
}

-- A hash stands in a vector.
abbrev pub holds : List ℕ → ℕ → Bool
holds hashes hash = vector_contains_entry hashes hash

pub holds-cons : (x h : ℕ) (hashes : List ℕ) → holds (x ∷ hashes) h ≡ ((h == x) || holds hashes h)
unfolding vector_contains_entry
holds-cons x h hashes = ground arith

pub holds-nil : (h : ℕ) → holds [] h ≡ false
unfolding vector_contains_entry
holds-nil h = refl

holds-erase :
    (h x : ℕ) (hashes : List ℕ)
    → Distinct hashes
    → holds (erase_entry_from_vector x hashes) h ≡ (not (h == x) && holds hashes h)
holds-erase h x hashes d = elim (Bool-cases (h == x)) [
  | inl e ↦
      let same : h ≡ x = ground (arith, e) in
      rw same (ground (arith, contains-erase_entry_self x hashes d))
  | inr n ↦ rw n (contains-erase_entry_ne x h hashes (ground (arith, n)))
]

pub holds_four :
    (a b c d : List ℕ) (h : ℕ)
    → holds (a ++ (b ++ (c ++ d))) h ≡ (holds a h || (holds b h || (holds c h || holds d h)))
holds_four a b c d h = ground (
  arith,
  contains-append h a (b ++ (c ++ d)),
  contains-append h b (c ++ d),
  contains-append h c d,
)

module _ (stored : PitData) where
  pub holds-that :
      (test : ℕ → Bool) (hashes : List ℕ) (h : ℕ)
      → holds (that stored test hashes) h ≡ (holds hashes h && test h)
  unfolding that
  holds-that test [] h = ground (arith, holds-nil h)
  holds-that test (x ∷ hashes) h = elim (Bool-cases (h == x)) [
    | inl e ↦
        let same : x ≡ h = ground (arith, e) in
        rw same (
          ground (
            arith,
            holds-cons h h (that stored test hashes),
            holds-cons h h hashes,
            holds-that test hashes h,
          ))
    | inr n ↦ ground (
      arith,
      n,
      holds-cons x h (that stored test hashes),
      holds-cons x h hashes,
      holds-that test hashes h,
    )
  ]

  pub holds-hashes_of : (s : Set) (h : ℕ) → holds (hashes_of stored s) h ≡ count h s
  unfolding lookup
  holds-hashes_of [] h = holds-nil h
  holds-hashes_of ((k, u) ∷ s) h =
      ground (arith, holds-cons k h (hashes_of stored s), holds-hashes_of s h)

  pub txs-removed :
      (hashes : List ℕ) (pit : CreditPit) (h : ℕ)
      → count h (remove_from_accepted stored hashes pit).accepted_txs
        ≡ (not (holds hashes h) && count h pit.accepted_txs)
  unfolding remove_from_accepted
  txs-removed [] pit h = ground (arith, holds-nil h)
  txs-removed (x ∷ hashes) pit h =
      txs-removed hashes _ h
      ∙ ground (arith, holds-cons x h hashes, lookup-erase h x pit.accepted_txs)

  pub credits-removed :
      (hashes : List ℕ) (pit : CreditPit) (h : ℕ)
      → count h (remove_from_accepted stored hashes pit).accepted_mined_credits
        ≡ (not (holds hashes h) && count h pit.accepted_mined_credits)
  unfolding remove_from_accepted
  credits-removed [] pit h = ground (arith, holds-nil h)
  credits-removed (x ∷ hashes) pit h =
      credits-removed hashes _ h
      ∙ ground (arith, holds-cons x h hashes, lookup-erase h x pit.accepted_mined_credits)

  pub relay_msgs-removed :
      (hashes : List ℕ) (pit : CreditPit) (h : ℕ)
      → Distinct pit.accepted_relay_msgs
      → holds (remove_from_accepted stored hashes pit).accepted_relay_msgs h
        ≡ (not (holds hashes h) && holds pit.accepted_relay_msgs h)
  unfolding remove_from_accepted
  relay_msgs-removed [] pit h d = ground (arith, holds-nil h)
  relay_msgs-removed (x ∷ hashes) pit h d =
      relay_msgs-removed hashes _ h (erase_entry-Distinct x pit.accepted_relay_msgs d)
      ∙ ground (arith, holds-cons x h hashes, holds-erase h x pit.accepted_relay_msgs d)

  pub encoded-removed :
      (hashes : List ℕ) (pit : CreditPit)
      → (remove_from_accepted stored hashes pit).encoded_in_chain ≡ pit.encoded_in_chain
  unfolding remove_from_accepted
  encoded-removed [] pit = refl
  encoded-removed (x ∷ hashes) pit = encoded-removed hashes _

  abbrev pub insert_each : List ℕ → Set → Set
  insert_each [] s = s
  insert_each (x ∷ hashes) s = insert_each hashes (insert x s)

  pub count-insert_each :
      (hashes : List ℕ) (s : Set) (h : ℕ)
      → count h (insert_each hashes s) ≡ (holds hashes h || count h s)
  count-insert_each [] s h = ground (arith, holds-nil h)
  count-insert_each (x ∷ hashes) s h =
      count-insert_each hashes (insert x s) h
      ∙ ground (arith, holds-cons x h hashes, lookup-put h x tt s)

  pub mark_each_lem :
      (hashes : List ℕ) (pit : CreditPit)
      → mark_each stored hashes pit
        ≡ record pit { encoded_in_chain = insert_each hashes pit.encoded_in_chain }
  unfolding mark_each mark_as_encoded
  mark_each_lem [] pit = refl
  mark_each_lem (x ∷ hashes) pit = mark_each_lem hashes _

  abbrev pub push_new : ℕ → List ℕ → List ℕ
  push_new x hashes = if holds hashes x then hashes else hashes ++ x ∷ []

  abbrev pub push_each : List ℕ → List ℕ → List ℕ
  push_each [] hashes = hashes
  push_each (x ∷ more) hashes = push_each more (push_new x hashes)

  pub holds-push_new :
      (x h : ℕ) (hashes : List ℕ) → holds (push_new x hashes) h ≡ ((h == x) || holds hashes h)
  holds-push_new x h hashes = elim (Bool-cases (holds hashes x)) [
    | inl old ↦ elim (Bool-cases (h == x)) [
      | inl e ↦ let same : h ≡ x = ground (arith, e) in rw same (rw old (ground (arith, old)))
      | inr n ↦ rw old (ground (arith, n))
    ]
    | inr new ↦
        rw new (ground (arith, contains-append h hashes (x ∷ []), holds-cons x h [], holds-nil h))
  ]

  pub holds-push_each :
      (more hashes : List ℕ) (h : ℕ)
      → holds (push_each more hashes) h ≡ (holds more h || holds hashes h)
  holds-push_each [] hashes h = ground (arith, holds-nil h)
  holds-push_each (x ∷ more) hashes h =
      holds-push_each more (push_new x hashes) h
      ∙ ground (arith, holds-cons x h more, holds-push_new x h hashes)

  pub handle_relay_message_lem :
      (x : ℕ) (pit : CreditPit)
      → handle_relay_message stored x pit
        ≡ record pit { accepted_relay_msgs = push_new x pit.accepted_relay_msgs }
  unfolding handle_relay_message
  handle_relay_message_lem x pit = elim (Bool-cases (holds pit.accepted_relay_msgs x)) [
    | inl old ↦ rw old refl
    | inr new ↦ rw new refl
  ]

  pub handle_relay_messages_lem :
      (more : List ℕ) (pit : CreditPit)
      → handle_relay_messages stored more pit
        ≡ record pit { accepted_relay_msgs = push_each more pit.accepted_relay_msgs }
  unfolding handle_relay_messages
  handle_relay_messages_lem [] pit = refl
  handle_relay_messages_lem (x ∷ more) pit =
      ap (handle_relay_messages stored more) (handle_relay_message_lem x pit)
      ∙ handle_relay_messages_lem more
          (record pit { accepted_relay_msgs = push_new x pit.accepted_relay_msgs })
