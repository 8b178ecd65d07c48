-- ===== src/Calendar/Check/Accepted.antt =====
-- What CheckRootsAndDifficulty accepts.
use flex.Common.{
  ◌≤◌, ◌≡◌, refl, ap, ◌∙◌, true, false, some, List, [], ◌∷◌, ltb, ◌==◌, arith, ◌↔◌, Bool-cases,
  Option-cases, inl, inr,
}
use flex.Calendar.{MinedCreditMessage}
use flex.Calendar.Difficulty.{u32_difference, initial_diurnal_difficulty, apply_adjustments}
use flex.Calendar.Tip.{CalendarData, Calendar}
use flex.Calendar.Check.{
  calend_root, is_linked, correct_final_difficulty, difficulty_correct, check_steps,
  first_difficulty_correct, check_current_diurn, check_roots_and_difficulty,
}

-- The work of each proof reaches the difficulty of its calend.
abbrev pub HasProofs : List MinedCreditMessage → Type 0
HasProofs [] = Unit
HasProofs (calend ∷ calends) =
    (calend.mined_credit.diurnal_difficulty ≤ calend.difficulty_achieved) × HasProofs calends

module _ (stored : CalendarData) where
  -- Each calend names the root of the one before.
  abbrev pub IsLinked : List MinedCreditMessage → Type 0
  IsLinked [] = Unit
  IsLinked (a ∷ []) = Unit
  IsLinked (a ∷ b ∷ calends) =
      (b.mined_credit.previous_diurn_root ≡ calend_root stored a) × IsLinked (b ∷ calends)

  -- The difficulty of each calend from the third on follows from the two before.
  abbrev pub HasDifficulties : List MinedCreditMessage → Type 0
  HasDifficulties [] = Unit
  HasDifficulties (a ∷ []) = Unit
  HasDifficulties (a ∷ b ∷ []) = Unit
  HasDifficulties (a ∷ b ∷ c ∷ calends) =
      (correct_final_difficulty stored a b c ≡ some c.mined_credit.diurnal_difficulty)
      × HasDifficulties (b ∷ c ∷ calends)

  -- The difficulty of the first calend follows from the initial one.
  abbrev pub BeginsRight : List MinedCreditMessage → Type 0
  BeginsRight [] = Unit
  BeginsRight (a ∷ calends) =
      apply_adjustments stored.fuel initial_diurnal_difficulty
        (u32_difference a.mined_credit.batch_number 1)
      ≡ some a.mined_credit.diurnal_difficulty

  abbrev LinkedAfter : List MinedCreditMessage → List MinedCreditMessage → Type 0
  LinkedAfter [] calends = IsLinked calends
  LinkedAfter (b ∷ before) calends = IsLinked (b ∷ calends)

  abbrev DifficultiesAfter : List MinedCreditMessage → List MinedCreditMessage → Type 0
  DifficultiesAfter [] calends = HasDifficulties calends
  DifficultiesAfter (b ∷ []) calends = HasDifficulties (b ∷ calends)
  DifficultiesAfter (b ∷ a ∷ before) calends = HasDifficulties (a ∷ b ∷ calends)

  -- One round of the loop.
  Round : List MinedCreditMessage → MinedCreditMessage → List MinedCreditMessage → Type 0
  Round before calend calends =
      (is_linked stored before calend ≡ true)
      × (difficulty_correct stored before calend ≡ some true)
      × (calend.mined_credit.diurnal_difficulty ≤ calend.difficulty_achieved)
      × (check_steps stored (calend ∷ before) calends ≡ some true)

  check_steps-Round :
      (before : List MinedCreditMessage) (calend : MinedCreditMessage)
      (calends : List MinedCreditMessage)
      → check_steps stored before (calend ∷ calends) ≡ some true
      → Round before calend calends
  unfolding check_steps Round
  check_steps-Round before calend calends e = elim (Bool-cases (is_linked stored before calend)) [
    | inr apart ↦ cc
    | inl linked ↦ elim (Option-cases (difficulty_correct stored before calend)) [
      | inl out ↦ cc
      | inr (correct, found) ↦ elim (Bool-cases correct) [
        | inr wrong ↦ cc
        | inl right ↦
            elim (Bool-cases
              (ltb calend.difficulty_achieved calend.mined_credit.diurnal_difficulty)) [
                | inl less ↦ cc
                | inr reached ↦ (linked, found ∙ ap some right, ground (arith, reached), cc)
              ]
      ]
    ]
  ]

  Round-check_steps :
      (before : List MinedCreditMessage) (calend : MinedCreditMessage)
      (calends : List MinedCreditMessage)
      → Round before calend calends
      → check_steps stored before (calend ∷ calends) ≡ some true
  unfolding check_steps Round
  Round-check_steps before calend calends (linked, correct, reached, rest) =
      let not_less : ltb calend.difficulty_achieved calend.mined_credit.diurnal_difficulty ≡ false =
        ground (arith, reached) in
      rw (linked, correct, not_less) rest

  -- What a round says of the calends before, on the side of the specification.
  RoundRight : List MinedCreditMessage → MinedCreditMessage → List MinedCreditMessage → Type 0
  RoundRight before calend calends =
      (is_linked stored before calend ≡ true)
      × (difficulty_correct stored before calend ≡ some true)
      × LinkedAfter (calend ∷ before) calends
      × DifficultiesAfter (calend ∷ before) calends

  final_difficulty :
      (a b c : MinedCreditMessage) (before : List MinedCreditMessage)
      → (difficulty_correct stored (b ∷ a ∷ before) c ≡ some true)
        ↔ (correct_final_difficulty stored a b c ≡ some c.mined_credit.diurnal_difficulty)
  unfolding difficulty_correct
  final_difficulty a b c before = (
    λ e. elim (Option-cases (correct_final_difficulty stored a b c)) [
      | inl out ↦ cc
      | inr (difficulty, found) ↦
          let same : (c.mined_credit.diurnal_difficulty == difficulty) ≡ true = cc in
          let equal : difficulty ≡ c.mined_credit.diurnal_difficulty = ground (arith, same) in
          found ∙ ap some equal
    ],
    λ e.
        let same : (c.mined_credit.diurnal_difficulty == c.mined_credit.diurnal_difficulty) ≡ true =
          ground arith in
        rw (e, difficulty_correct) (ap some same),
  )

  first_difficulty :
      (calends : List MinedCreditMessage)
      → (first_difficulty_correct stored calends ≡ some true) ↔ BeginsRight calends
  unfolding first_difficulty_correct
  first_difficulty [] = (λ e. tt, λ u. refl)
  first_difficulty (a ∷ calends) = (
    λ e.
        elim (Option-cases (
          apply_adjustments stored.fuel initial_diurnal_difficulty
            (u32_difference a.mined_credit.batch_number 1))) [
              | inl out ↦ cc
              | inr (difficulty, found) ↦
                  let same : (a.mined_credit.diurnal_difficulty == difficulty) ≡ true = cc in
                  let equal : difficulty ≡ a.mined_credit.diurnal_difficulty =
                    ground (arith, same) in
                  found ∙ ap some equal
            ],
    λ e.
        let same : (a.mined_credit.diurnal_difficulty == a.mined_credit.diurnal_difficulty) ≡ true =
          ground arith in
        rw (e, first_difficulty_correct) (ap some same),
  )

  link :
      (a b : MinedCreditMessage) (before : List MinedCreditMessage)
      → (is_linked stored (a ∷ before) b ≡ true)
        ↔ (b.mined_credit.previous_diurn_root ≡ calend_root stored a)
  unfolding is_linked
  link a b before = (λ e. ground (arith, e), λ e. ground (arith, e))

  extend :
      (before : List MinedCreditMessage) (calend : MinedCreditMessage)
      (calends : List MinedCreditMessage)
      → RoundRight before calend calends
      → LinkedAfter before (calend ∷ calends) × DifficultiesAfter before (calend ∷ calends)
  unfolding RoundRight
  extend [] c calends (linked, correct, l, d) = (l, d)
  extend (b ∷ []) c calends (linked, correct, l, d) = (((link b c []).0 linked, l), d)
  extend (b ∷ a ∷ before) c calends (linked, correct, l, d) =
      (((link b c (a ∷ before)).0 linked, l), ((final_difficulty a b c before).0 correct, d))

  shrink :
      (before : List MinedCreditMessage) (calend : MinedCreditMessage)
      (calends : List MinedCreditMessage)
      → LinkedAfter before (calend ∷ calends) × DifficultiesAfter before (calend ∷ calends)
      → RoundRight before calend calends
  unfolding RoundRight is_linked difficulty_correct
  shrink [] c calends (l, d) = (refl, refl, l, d)
  shrink (b ∷ []) c calends (l, d) = ((link b c []).1 l.0, refl, l.1, d)
  shrink (b ∷ a ∷ before) c calends (l, d) =
      ((link b c (a ∷ before)).1 l.0, (final_difficulty a b c before).1 d.0, l.1, d.1)

  steps_sound :
      (before calends : List MinedCreditMessage)
      → check_steps stored before calends ≡ some true
      → LinkedAfter before calends × DifficultiesAfter before calends × HasProofs calends
  unfolding Round RoundRight
  steps_sound [] [] e = (tt, tt, tt)
  steps_sound (b ∷ []) [] e = (tt, tt, tt)
  steps_sound (b ∷ a ∷ before) [] e = (tt, tt, tt)
  steps_sound before (c ∷ calends) e =
      let round = check_steps-Round before c calends e in
      let rest = steps_sound (c ∷ before) calends round.3 in
      let both = extend before c calends (round.0, round.1, rest.0, rest.1) in
      (both.0, both.1, (round.2, rest.2))

  steps_complete :
      (before calends : List MinedCreditMessage)
      → LinkedAfter before calends × DifficultiesAfter before calends × HasProofs calends
      → check_steps stored before calends ≡ some true
  unfolding check_steps Round RoundRight
  steps_complete before [] h = refl
  steps_complete before (c ∷ calends) (l, d, proofs) =
      let right = shrink before c calends (l, d) in
      Round-check_steps before c calends (
        right.0,
        right.1,
        proofs.0,
        steps_complete (c ∷ before) calends (right.2, right.3, proofs.1),
      )

  -- CheckRootsAndDifficulty accepts exactly the calendars in which: the difficulty of the first calend
  -- follows from the initial one, each calend names the root of the one before, the difficulty of each
  -- from the third on follows from the two before, each proof reaches the difficulty of its calend, and
  -- the current diurn passes its test.
  pub check_roots_and_difficulty-IsLinked :
      (c : Calendar)
      → (check_roots_and_difficulty stored c ≡ some true) ↔ (
          BeginsRight c.calends
          × IsLinked c.calends
          × HasDifficulties c.calends
          × HasProofs c.calends
          × (check_current_diurn stored c ≡ true))
  unfolding check_roots_and_difficulty
  check_roots_and_difficulty-IsLinked c = (
    accepted c,
    λ h.
        rw
          (
            (first_difficulty c.calends).1 h.0,
            steps_complete [] c.calends (h.1, h.2, h.3),
            check_roots_and_difficulty,
          )
          (ap some h.4),
  )
    where
      accepted :
          (c : Calendar)
          → check_roots_and_difficulty stored c ≡ some true
          → BeginsRight c.calends
            × IsLinked c.calends
            × HasDifficulties c.calends
            × HasProofs c.calends
            × (check_current_diurn stored c ≡ true)
      accepted c e = elim (Option-cases (first_difficulty_correct stored c.calends)) [
        | inl out ↦ cc
        | inr (correct, found) ↦ elim (Bool-cases correct) [
          | inr wrong ↦ cc
          | inl right ↦ elim (Option-cases (check_steps stored [] c.calends)) [
            | inl out ↦ cc
            | inr (passed, checked) ↦ elim (Bool-cases passed) [
              | inr failed ↦ cc
              | inl good ↦
                  let steps = steps_sound [] c.calends (checked ∙ ap some good) in
                  (
                    (first_difficulty c.calends).0 (found ∙ ap some right),
                    steps.0,
                    steps.1,
                    steps.2,
                    cc,
                  )
            ]
          ]
        ]
      ]
