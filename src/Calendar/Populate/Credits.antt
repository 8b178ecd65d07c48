-- ===== src/Calendar/Populate/Credits.antt =====
-- The credits of the current diurn that PopulateDiurn finds.
use flex.Common.{
  ℕ, suc, ◌+◌, ◌≤◌, ◌≡◌, ◌≢◌, refl, ap, ◌∙◌, sym, true, false, some, List, [], ◌∷◌, ◌++◌, ltb, ◌==◌,
  length, arith, Option-cases, inl, inr, append_assoc, append-nil,
}
use mathlib.Core.Option.{some-injective}
use flex.Exceptions.{ok}
use flex.HashTrees.{symmetric_combine}
use flex.HashTrees.DiurnalBlock
use flex.Calendar.Difficulty.{ℤ, apply_adjustments}
use flex.Calendar.Diurn
use flex.Calendar.Diurn.{Diurn}
use flex.Calendar.Tip.{CalendarData, Calendar}
use flex.Calendar.Populate.{credits_from, add_hashes, populate_diurn}

abbrev pub last_from : ℕ → List ℕ → ℕ
last_from hash [] = hash
last_from hash (next ∷ hashes) = last_from next hashes

module _ (stored : CalendarData) where
  -- The root of the diurn that a credit would end.
  abbrev pub root_of : ℕ → ℕ
  root_of hash =
      symmetric_combine stored.tree_hash (stored.credits hash).previous_diurn_root
        (stored.credits hash).diurnal_block_root

  -- A row of hashes of credits, each the previous one of the next, where none but the last has the given
  -- root or no previous credit.
  abbrev pub Row : ℕ → ℕ → List ℕ → Type 0
  Row waited_for hash [] = Unit
  Row waited_for hash (next ∷ hashes) =
      ((stored.credits next).previous_mined_credit_hash ≡ hash)
      × (stored.has_mined_credit hash ≡ true)
      × (root_of hash ≢ waited_for)
      × ((stored.credits hash).previous_mined_credit_hash ≢ 0)
      × Row waited_for next hashes

  goes_back :
      (fuel waited_for hash previous_hash : ℕ) (hashes : List ℕ)
      → (stored.credits hash).previous_mined_credit_hash ≡ previous_hash
      → stored.has_mined_credit previous_hash ≡ true
      → root_of previous_hash ≢ waited_for
      → (stored.credits previous_hash).previous_mined_credit_hash ≢ 0
      → credits_from stored (suc fuel) waited_for hash hashes
        ≡ credits_from stored fuel waited_for previous_hash (previous_hash ∷ hashes)
  unfolding credits_from
  goes_back fuel waited_for hash previous_hash hashes e has apart more =
      let other : (root_of previous_hash == waited_for) ≡ false = ground (arith, apart) in
      let nonzero : ((stored.credits previous_hash).previous_mined_credit_hash == 0) ≡ false =
        ground (arith, more) in
      rw (e, has) (rw (other, nonzero) refl)

  stops :
      (fuel waited_for hash previous_hash : ℕ) (hashes : List ℕ)
      → (stored.credits hash).previous_mined_credit_hash ≡ previous_hash
      → stored.has_mined_credit previous_hash ≡ true
      → root_of previous_hash ≡ waited_for
      → credits_from stored (suc fuel) waited_for hash hashes ≡ some (previous_hash ∷ hashes)
  unfolding credits_from
  stops fuel waited_for hash previous_hash hashes e has reached =
      let same : (root_of previous_hash == waited_for) ≡ true = ground (arith, reached) in
      rw (e, has) (rw same refl)

  row_back :
      (waited_for hash : ℕ) (hashes after : List ℕ) (fuel : ℕ)
      → Row waited_for hash hashes
      → credits_from stored
          (length hashes + fuel)
          waited_for
          (last_from hash hashes)
          (last_from hash hashes ∷ after)
        ≡ credits_from stored fuel waited_for hash (hash ∷ hashes ++ after)
  row_back waited_for hash [] after fuel row =
      ap (λ n. credits_from stored n waited_for hash (hash ∷ after)) (omega arith)
  row_back waited_for hash (next ∷ hashes) after fuel (e, has, apart, more, row) =
      let last = last_from next hashes in
      let shift : length (next ∷ hashes) + fuel ≡ length hashes + suc fuel = omega arith in
      ap (λ n. credits_from stored n waited_for last (last ∷ after)) shift
      ∙ row_back waited_for next hashes after (suc fuel) row
      ∙ goes_back fuel waited_for next hash (next ∷ hashes ++ after) e has apart more

  abbrev Adds : List ℕ → Diurn → Diurn → Type 0
  Adds hashes diurn added =
      (added.diurnal_block.hashes ≡ diurn.diurnal_block.hashes ++ hashes)
      × (added.previous_diurn_root ≡ diurn.previous_diurn_root)

  add-Adds :
      (hash : ℕ) (diurn added : Diurn)
      → Diurn.add stored.messages stored.fuel hash diurn ≡ some added
      → Adds (hash ∷ []) diurn added
  unfolding Diurn.add DiurnalBlock.add
  add-Adds hash diurn added e =
      elim (Option-cases (apply_adjustments stored.fuel diurn.current_difficulty (ℤ.pos 1))) [
        | inl out ↦ cc
        | inr (difficulty, found) ↦
            let next : Diurn = record diurn {
              diurnal_block = DiurnalBlock.add hash diurn.diurnal_block;
              credits_in_diurn = diurn.credits_in_diurn ++ stored.messages hash ∷ [];
              current_difficulty = difficulty;
            } in
            let returns : Diurn.add stored.messages stored.fuel hash diurn ≡ some next =
              rw (found, Diurn.add) refl in
            let same : next ≡ added = some-injective next added (sym returns ∙ e) in
            rw (sym same) (refl, refl)
      ]

  add_hashes-Adds :
      (hashes : List ℕ) (diurn added : Diurn)
      → add_hashes stored hashes diurn ≡ some added
      → Adds hashes diurn added
  unfolding add_hashes
  add_hashes-Adds [] diurn added e =
      let same : diurn ≡ added = some-injective diurn added e in
      rw (sym same) (sym (append-nil diurn.diurnal_block.hashes), refl)
  add_hashes-Adds (hash ∷ hashes) diurn added e =
      elim (Option-cases (Diurn.add stored.messages stored.fuel hash diurn)) [
        | inl out ↦ cc
        | inr (next, found) ↦
            let first = add-Adds hash diurn next found in
            let later : add_hashes stored hashes next ≡ some added = cc in
            let rest = add_hashes-Adds hashes next added later in
            (
              rest.0
                  ∙ ap (λ xs. xs ++ hashes) first.0
                  ∙ append_assoc diurn.diurnal_block.hashes (hash ∷ []) hashes,
              rest.1 ∙ first.1,
            )
      ]

  -- The diurn to which PopulateDiurn of a credit adds the hashes that it has found.
  abbrev pub diurn_before : ℕ → Calendar → Diurn
  diurn_before hash c = record c.current_diurn {
    current_difficulty = (stored.credits hash).diurnal_difficulty;
    previous_diurn_root = (stored.credits hash).previous_diurn_root;
  }

  -- For a row of credits where only the first has the root that the last one names as its previous root,
  -- and a last one that is no calend: PopulateDiurn returns, in as many rounds as credits are added after
  -- the first, if its additions do. It adds the hashes of the row in their order, and the diurn comes
  -- after the root of the first.
  pub populate_diurn-Row :
      (start next : ℕ) (hashes : List ℕ) (c : Calendar) (added : Diurn)
      → Row (root_of start) next hashes
      → (stored.credits next).previous_mined_credit_hash ≡ start
      → stored.has_mined_credit start ≡ true
      → (stored.credits (last_from next hashes)).previous_diurn_root ≡ root_of start
      → (stored.messages (last_from next hashes)).difficulty_achieved
        ≤ (stored.credits (last_from next hashes)).diurnal_difficulty
      → add_hashes stored (start ∷ next ∷ hashes) (diurn_before (last_from next hashes) c)
        ≡ some added
      → (populate_diurn stored (length (next ∷ hashes)) (last_from next hashes) c
          ≡ ok (record c { current_diurn = added }))
        × (added.diurnal_block.hashes
            ≡ c.current_diurn.diurnal_block.hashes ++ start ∷ next ∷ hashes)
        × (added.previous_diurn_root ≡ root_of start)
  unfolding populate_diurn
  populate_diurn-Row start next hashes c added row e has named batch adds =
      let last = last_from next hashes in
      let fuel = length (next ∷ hashes) in
      let no_calend : ltb (stored.credits last).diurnal_difficulty
            (stored.messages last).difficulty_achieved
          ≡ false =
        ground (arith, batch) in
      let rounds : fuel ≡ length hashes + 1 = omega arith in
      let found : credits_from stored fuel (stored.credits last).previous_diurn_root last
            (last ∷ [])
          ≡ some (start ∷ next ∷ hashes) =
        ap (λ w. credits_from stored fuel w last (last ∷ [])) named
        ∙ ap (λ n. credits_from stored n (root_of start) last (last ∷ [])) rounds
        ∙ row_back (root_of start) next hashes [] 1 row
        ∙ stops 0 (root_of start) next start (next ∷ hashes ++ []) e has refl
        ∙ ap (λ xs. some (start ∷ next ∷ xs)) (append-nil hashes) in
      let kept = add_hashes-Adds (start ∷ next ∷ hashes) (diurn_before last c) added adds in
      (
        rw no_calend (rw (found, populate_diurn) (rw (adds, populate_diurn) refl)),
        kept.0,
        kept.1 ∙ named,
      )
