-- ===== src/Calendar/Tip/Frame.antt =====
-- What AddMinedCreditToTip does with a mined credit, on each of its branches.
use flex.Common.{
  ℕ, ◌≡◌, ap, ◌∙◌, sym, Option-cases, none, refl, Bool, true, false, not, ◌&&◌, some, [], ◌∷◌, ◌++◌,
  arith, leb, ◌==◌, if◌then◌else◌, length, length-append, Bool-cases, inl, inr,
}
use flex.Exceptions.{Result, ok, throw, wrong_batch}
use flex.Calendar.{MinedCreditMessage}
use flex.Calendar.Difficulty.{ℤ, apply_adjustments, get_next_diurn_initial_difficulty}
use flex.Calendar.Diurn
use flex.Calendar.Diurn.{Diurn, diurn_after, set_initial_difficulty}
use flex.StdMap.{put}
use flex.HashTrees.{symmetric_combine}
use flex.HashTrees.DiurnalBlock
use flex.Calendar.Tip.{
  CalendarData, Calendar, follows, finishes, with_marks, push_extra_work, handle_batch,
  finish_current_calend_and_start_next, handle_calend, handle_mined_credit_message,
  add_mined_credit_to_tip, last_mined_credit_hash, get_last_calend_credit_hash,
}
use flex.Calendar.Tip.Topped.{IsPaired, trim-Topped, store-Topped}

ok-injective : {S : Type 0} (s t : S) (r : Result S) → r ≡ ok s → r ≡ ok t → s ≡ t
ok-injective s t r e f = ap (value s) (sym e ∙ f)
  where
    value : {S : Type 0} → S → Result S → S
    value d (ok s) = s
    value d (throw x s) = d

module _ (stored : CalendarData) where
  -- A diurn after Add, with its new difficulty.
  abbrev grown : ℕ → ℕ → Diurn → Diurn
  grown hash difficulty diurn = record diurn {
    diurnal_block = DiurnalBlock.add hash diurn.diurnal_block;
    credits_in_diurn = diurn.credits_in_diurn ++ stored.messages hash ∷ [];
    current_difficulty = difficulty;
  }

  add-grown :
      (hash difficulty : ℕ) (diurn : Diurn)
      → apply_adjustments stored.fuel diurn.current_difficulty (ℤ.pos 1) ≡ some difficulty
      → Diurn.add stored.messages stored.fuel hash diurn ≡ some (grown hash difficulty diurn)
  unfolding Diurn.add
  add-grown hash difficulty diurn e = rw (e, Diurn.add) refl

  -- A mined credit starts a diurn, or is added to the current one.
  abbrev pub starts : MinedCreditMessage → Calendar → Bool
  starts msg c =
      leb msg.mined_credit.diurnal_difficulty msg.difficulty_achieved && finishes stored msg c

  abbrev pub continues : MinedCreditMessage → Calendar → Bool
  continues msg c =
      not (leb msg.mined_credit.diurnal_difficulty msg.difficulty_achieved) && follows stored msg c

  -- What is left where GetRelayState throws: the calend is pushed, its list of extra work is not.
  abbrev pub left_behind : MinedCreditMessage → Calendar → Calendar
  left_behind msg c = record (with_marks stored msg c) {
    calends = c.calends ++ msg ∷ [];
    finished_diurns =
        put (Diurn.root stored.tree_hash c.current_diurn) c.current_diurn c.finished_diurns;
  }

  -- The outcome where c' is the calendar that takes in the credit.
  abbrev pub unless_thrown : MinedCreditMessage → Calendar → Calendar → Result Calendar
  unless_thrown msg c c' =
      let started : Result Calendar = elim (stored.relay_state_exception msg.mined_credit.hash) [
        | none ↦ ok c'
        | some exception ↦ throw exception (left_behind msg c)
      ] in
      if starts msg c then started else ok c'

  pub unless_thrown-ok :
      (msg : MinedCreditMessage) (c c' d : Calendar) → unless_thrown msg c c' ≡ ok d → c' ≡ d
  unless_thrown-ok msg c c' d e = elim (Bool-cases (starts msg c)) [
    | inr stay ↦
        let returns : unless_thrown msg c c' ≡ ok c' = rw stay refl in
        ok-injective c' d (unless_thrown msg c c') returns e
    | inl begun ↦ elim (Option-cases (stored.relay_state_exception msg.mined_credit.hash)) [
      | inl known ↦
          let returns : unless_thrown msg c c' ≡ ok c' = rw (begun, known) refl in
          ok-injective c' d (unless_thrown msg c c') returns e
      | inr (x, thrown) ↦
          let throws : unless_thrown msg c c' ≡ throw x (left_behind msg c) =
            rw (begun, thrown) refl in
          cc
    ]
  ]

  -- The calendar that takes in a mined credit.
  pub record Taken (msg : MinedCreditMessage) (grow next : ℕ) (c c' : Calendar) : Type 0 where
    pub calends : c'.calends ≡ (if starts msg c then c.calends ++ msg ∷ [] else c.calends)
    pub hashes : c'.current_diurn.diurnal_block.hashes ≡ (
        if starts msg c
        then msg.mined_credit.hash ∷ []
        else if continues msg c
        then c.current_diurn.diurnal_block.hashes ++ msg.mined_credit.hash ∷ []
        else c.current_diurn.diurnal_block.hashes)
    pub previous_root : c'.current_diurn.previous_diurn_root ≡ (
        if starts msg c
        then Diurn.root stored.tree_hash c.current_diurn
        else c.current_diurn.previous_diurn_root)
    pub difficulty : c'.current_diurn.current_difficulty ≡ (
        if starts msg c
        then next
        else if continues msg c
        then grow
        else c.current_diurn.current_difficulty)
    pub recorded : c'.diurn_credit_hash ≡ (
        if leb msg.mined_credit.diurnal_difficulty msg.difficulty_achieved
        then put
            (symmetric_combine stored.tree_hash msg.mined_credit.diurnal_block_root
              msg.mined_credit.previous_diurn_root)
            msg.mined_credit.hash
            c.diurn_credit_hash
        else c.diurn_credit_hash)
    pub paired : IsPaired c'

  module _ (msg : MinedCreditMessage) (c : Calendar) (grow begin next : ℕ) (e : IsPaired c)
      (grows : apply_adjustments stored.fuel c.current_diurn.current_difficulty (ℤ.pos 1)
        ≡ some grow)
      (begins : apply_adjustments stored.fuel 0 (ℤ.pos 1) ≡ some begin)
      (goes_on : get_next_diurn_initial_difficulty stored.fuel
          (stored.credits (get_last_calend_credit_hash c))
          msg.mined_credit
        ≡ some next) where
    batch-Taken :
        leb msg.mined_credit.diurnal_difficulty msg.difficulty_achieved ≡ false
        → (c' : Calendar) × (handle_mined_credit_message stored msg c ≡ unless_thrown msg c c')
          × Taken msg grow next c c'
    unfolding handle_mined_credit_message handle_batch DiurnalBlock.add
    batch-Taken batch = elim (Bool-cases (follows stored msg c)) [
      | inr apart ↦
          let t = store-Topped stored msg c e in
          (
            record c { extra_work = t.extra; current_extra_work = t.current },
            rw batch (rw apart t.returns),
            record {
              calends = rw batch refl;
              hashes = rw (batch, apart) refl;
              previous_root = rw batch refl;
              difficulty = rw (batch, apart) refl;
              recorded = rw batch refl;
              paired = t.paired;
            },
          )
      | inl follow ↦
          let d = grown msg.mined_credit.hash grow c.current_diurn in
          let added = add-grown msg.mined_credit.hash grow c.current_diurn grows in
          let t = store-Topped stored msg (record c { current_diurn = d }) e in
          (
            record c { current_diurn = d; extra_work = t.extra; current_extra_work = t.current },
            rw batch (rw follow (rw (added, handle_batch) t.returns)),
            record {
              calends = rw batch refl;
              hashes = rw (batch, follow) refl;
              previous_root = rw batch refl;
              difficulty = rw (batch, follow) refl;
              recorded = rw batch refl;
              paired = t.paired;
            },
          )
    ]

    calend-Taken :
        leb msg.mined_credit.diurnal_difficulty msg.difficulty_achieved ≡ true
        → (c' : Calendar) × (handle_mined_credit_message stored msg c ≡ unless_thrown msg c c')
          × Taken msg grow next c c'
    unfolding handle_mined_credit_message handle_calend finish_current_calend_and_start_next
        DiurnalBlock.add set_initial_difficulty get_last_calend_credit_hash
    calend-Taken calend = elim (Bool-cases (finishes stored msg c)) [
      | inr apart ↦ (
        with_marks stored msg c,
        rw (calend, apart) refl,
        record {
          calends = rw (calend, apart) refl;
          hashes = rw (calend, apart) refl;
          previous_root = rw (calend, apart) refl;
          difficulty = rw (calend, apart) refl;
          recorded = rw calend refl;
          paired = e;
        },
      )
      | inl finish ↦
          let marked_c = with_marks stored msg c in
          let root = Diurn.root stored.tree_hash c.current_diurn in
          let started = grown msg.mined_credit.hash begin (diurn_after root) in
          let fin : Calendar = record marked_c {
            calends = c.calends ++ msg ∷ [];
            finished_diurns = put root c.current_diurn c.finished_diurns;
            current_diurn = set_initial_difficulty next started;
          } in
          let added = add-grown msg.mined_credit.hash begin (diurn_after root) begins in
          let more : length (c.calends ++ msg ∷ [])
              ≡ length (c.extra_work ++ c.current_extra_work ∷ []) =
            omega (
              arith,
              e,
              length-append c.calends (msg ∷ []),
              length-append c.extra_work (c.current_extra_work ∷ []),
            ) in
          let t = trim-Topped stored (push_extra_work stored fin) more in
          (
            record (push_extra_work stored fin) {
              extra_work = t.extra;
              current_extra_work = t.current;
            },
            elim (Option-cases (stored.relay_state_exception msg.mined_credit.hash)) [
              | inr (exception, thrown) ↦
                  let fails : finish_current_calend_and_start_next stored msg marked_c
                      ≡ throw exception (left_behind msg c) =
                    rw (goes_on, finish_current_calend_and_start_next)
                      (rw (thrown, finish_current_calend_and_start_next) refl) in
                  rw (calend, finish) (rw (fails, thrown) refl)
              | inl known ↦
                  let finished : finish_current_calend_and_start_next stored msg marked_c ≡ ok fin =
                    rw (goes_on, finish_current_calend_and_start_next)
                      (rw (known, finish_current_calend_and_start_next)
                        (rw (added, finish_current_calend_and_start_next) refl)) in
                  rw (calend, finish) (rw (finished, known) t.returns)
            ],
            record {
              calends = rw (calend, finish) refl;
              hashes = rw (calend, finish) refl;
              previous_root = rw (calend, finish) refl;
              difficulty = rw (calend, finish) refl;
              recorded = rw calend refl;
              paired = t.paired;
            },
          )
    ]

    handle-Taken :
        (c' : Calendar) × (handle_mined_credit_message stored msg c ≡ unless_thrown msg c c')
        × Taken msg grow next c c'
    handle-Taken =
        elim (Bool-cases (leb msg.mined_credit.diurnal_difficulty msg.difficulty_achieved)) [
          | inl calend ↦ calend-Taken calend
          | inr batch ↦ batch-Taken batch
        ]

  -- For a calendar with a list of extra work for each calend, and as much fuel as the adjustments of the
  -- difficulty take: AddMinedCreditToTip throws and leaves the calendar where the credit does not come
  -- after the last one. Where it does, and starts a diurn, and GetRelayState throws, the exception passes
  -- through and leaves the calend pushed without its list of extra work. In all other cases it returns: it
  -- starts a diurn with a calend of the current root whose proof reaches the current difficulty, adds to
  -- the diurn another credit of this root that follows its last hash, and adds nothing else; it records
  -- each calend under its root; and there is again a list for each calend.
  pub add_mined_credit_to_tip-Taken :
      (msg : MinedCreditMessage) (c : Calendar) (grow begin next : ℕ)
      → IsPaired c
      → apply_adjustments stored.fuel c.current_diurn.current_difficulty (ℤ.pos 1) ≡ some grow
      → apply_adjustments stored.fuel 0 (ℤ.pos 1) ≡ some begin
      → get_next_diurn_initial_difficulty stored.fuel
          (stored.credits (get_last_calend_credit_hash c))
          msg.mined_credit
        ≡ some next
      → (c' : Calendar) × (add_mined_credit_to_tip stored msg c ≡ (
          if msg.mined_credit.previous_mined_credit_hash == last_mined_credit_hash c
          then unless_thrown msg c c'
          else throw wrong_batch c))
        × Taken msg grow next c c'
  unfolding add_mined_credit_to_tip
  add_mined_credit_to_tip-Taken msg c grow begin next e grows begins goes_on =
      let (c', returns, taken) = handle-Taken msg c grow begin next e grows begins goes_on in
      (
        c',
        elim (Bool-cases
            (msg.mined_credit.previous_mined_credit_hash == last_mined_credit_hash c)) [
              | inl after ↦ rw after returns
              | inr apart ↦ rw apart refl
            ],
        taken,
      )
