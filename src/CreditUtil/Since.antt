-- ===== src/CreditUtil/Since.antt =====
-- The credits since a calend.
use flex.Common.{
  ℕ, zero, suc, ◌≤◌, ◌<◌, ◌≡◌, refl, ap, ◌∙◌, Bool, true, false, ◌||◌, none, some, List, [], ◌∷◌,
  arith, ◌==◌, Bool-cases, inl, inr,
}
use flex.StdMap.{Set}
use flex.CreditUtil.{History, previous_credit_hash}
use flex.CreditUtil.Ancestors.{IsHistory, before, before_previous}
use flex.CreditUtil.Calends.{
  CalendData, ends_at, calend_before, get_calend_credit_hash, hashes_back, reverse,
  get_credit_hashes_since_calend,
}

-- A credit and those before it.
abbrev pub chain_down : History → ℕ → ℕ → List ℕ
chain_down history zero x = []
chain_down history (suc m) x = x ∷ chain_down history m (history.previous x)

abbrev pub any_ends : CalendData → Set → List ℕ → Bool
any_ends stored flags [] = false
any_ends stored flags (x ∷ hashes) = ends_at stored flags x || any_ends stored flags hashes

module _ (stored : CalendData) (flags : Set) (history : IsHistory stored.history)
    (nothing : stored.history.batch_number 0 ≡ 0) where
  falls :
      (x : ℕ)
      → 0 < stored.history.batch_number x
      → stored.history.batch_number (stored.history.previous x) < stored.history.batch_number x
  falls x pos = elim (Bool-cases (stored.history.previous x == 0)) [
    | inl is ↦ let e : stored.history.previous x ≡ 0 = ground (arith, is) in rw (e, nothing) pos
    | inr isnt ↦ history.rising x (λ e. absurd (ground (arith, e, isnt)))
  ]

  back_stops :
      (fuel c h : ℕ)
      → stored.history.previous h ≡ c
      → hashes_back stored.history (suc fuel) c h ≡ some []
  unfolding hashes_back
  back_stops fuel c h e =
      let same : (stored.history.previous h == c) ≡ true = rw e (ground arith) in
      elim (Bool-cases (stored.history.batch_number h == 0)) [
        | inl first ↦ rw first refl
        | inr later ↦ rw (later, same) refl
      ]

  back_step :
      (fuel c h x : ℕ) (hashes : List ℕ)
      → stored.history.previous h ≡ x
      → 0 < stored.history.batch_number h
      → (x == c) ≡ false
      → (x == 0) ≡ false
      → hashes_back stored.history fuel c x ≡ some hashes
      → hashes_back stored.history (suc fuel) c h ≡ some (x ∷ hashes)
  unfolding hashes_back
  back_step fuel c h x hashes e pos other real rest =
      let numbered : (stored.history.batch_number h == 0) ≡ false = ground (arith, pos) in
      let other' : (stored.history.previous h == c) ≡ false = ap (λ k. k == c) e ∙ other in
      let real' : (stored.history.previous h == 0) ≡ false = ap (λ k. k == 0) e ∙ real in
      let rest' : hashes_back stored.history fuel c (stored.history.previous h) ≡ some hashes =
        ap (λ k. hashes_back stored.history fuel c k) e ∙ rest in
      rw (numbered, other', real') (rw (rest', hashes_back) (ap (λ k. some (k ∷ hashes)) e))

  -- Where the search for a calend ends.
  record Found (fuel x : ℕ) : Type 0 where
    steps : ℕ
    calend : ℕ
    is_ancestor : calend ≡ before stored.history steps x
    returns : calend_before stored flags fuel x ≡ some calend
    ends : ends_at stored flags calend ≡ true
    none_before : any_ends stored flags (chain_down stored.history steps x) ≡ false
    below : stored.history.batch_number calend ≤ stored.history.batch_number x
    back :
        (h : ℕ)
        → stored.history.previous h ≡ x
        → 0 < stored.history.batch_number h
        → hashes_back stored.history fuel calend h ≡ some (chain_down stored.history steps x)

  found : (fuel x : ℕ) → stored.history.batch_number x < fuel → Found fuel x
  unfolding calend_before hashes_back
  found zero x less = absurd (omega arith)
  found (suc fuel) x less = elim (Bool-cases (ends_at stored flags x)) [
    | inl ends ↦ record {
      steps = 0;
      calend = x;
      is_ancestor = refl;
      returns = rw ends refl;
      ends = ends;
      none_before = refl;
      below = omega arith;
      back = λ h e pos. back_stops fuel x h e;
    }
    | inr goes_on ↦
        let lower = falls x (ground (arith, goes_on)) in
        let rest = found fuel (stored.history.previous x) (omega arith) in
        record {
          steps = suc rest.steps;
          calend = rest.calend;
          is_ancestor = rest.is_ancestor ∙ before_previous stored.history rest.steps x;
          returns = rw goes_on rest.returns;
          ends = rest.ends;
          none_before = ground (arith, goes_on, rest.none_before);
          below = omega arith;
          back = λ h e pos.
              let other : (x == rest.calend) ≡ false = elim (Bool-cases (x == rest.calend)) [
                | inl is ↦
                    let same : stored.history.batch_number x
                        ≡ stored.history.batch_number rest.calend =
                      ap stored.history.batch_number (ground (arith, is)) in
                    absurd (omega arith)
                | inr isnt ↦ isnt
              ] in
              let real : (x == 0) ≡ false = elim (Bool-cases (x == 0)) [
                | inl is ↦
                    let same : stored.history.batch_number x ≡ stored.history.batch_number 0 =
                      ap stored.history.batch_number (ground (arith, is)) in
                    absurd (omega arith)
                | inr isnt ↦ isnt
              ] in
              let tail = rest.back x refl (omega arith) in
              back_step fuel rest.calend h x
                (chain_down stored.history rest.steps (stored.history.previous x)) e pos other real
                tail;
        }
  ]

  -- The hypotheses are that batch numbers fall from a credit to the one before it, and that the hash 0
  -- has none. Of a credit with a batch number, GetCalendCreditHash, where it has not stored the calend by
  -- its diurn root, finds the nearest credit before it that is a calend or has no batch number, and
  -- GetCreditHashesSinceCalend from there returns the credits after it up to this one, in their order. As
  -- many rounds as the batch number are enough.
  pub hashes_since_calend :
      (h : ℕ)
      → 0 < stored.history.batch_number h
      → stored.diurn_credit_hash (stored.previous_diurn_root h) ≡ none
      → (m : ℕ) × (calend : ℕ) × (calend ≡ before stored.history (suc m) h)
        × (get_calend_credit_hash stored flags (stored.history.batch_number h) h ≡ some calend)
        × (ends_at stored flags calend ≡ true)
        × (any_ends stored flags (chain_down stored.history m (stored.history.previous h)) ≡ false)
        × (get_credit_hashes_since_calend stored.history (stored.history.batch_number h) calend h
            ≡ some (reverse (chain_down stored.history (suc m) h)))
  unfolding get_calend_credit_hash get_credit_hashes_since_calend previous_credit_hash
  hashes_since_calend h pos unstored =
      let f = found (stored.history.batch_number h) (stored.history.previous h) (falls h pos) in
      let other : (h == f.calend) ≡ false = elim (Bool-cases (h == f.calend)) [
        | inl is ↦
            let same : stored.history.batch_number h ≡ stored.history.batch_number f.calend =
              ap stored.history.batch_number (ground (arith, is)) in
            let lower = falls h pos in let below = f.below in absurd (omega arith)
        | inr isnt ↦ isnt
      ] in
      (
        f.steps,
        f.calend,
        f.is_ancestor ∙ before_previous stored.history f.steps h,
        rw (unstored, get_calend_credit_hash) f.returns,
        f.ends,
        f.none_before,
        rw other (rw (f.back h refl pos, get_credit_hashes_since_calend) refl),
      )
