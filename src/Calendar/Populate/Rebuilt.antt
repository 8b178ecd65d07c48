-- ===== src/Calendar/Populate/Rebuilt.antt =====
-- A calendar to which credits were added, and the calends that PopulateCalends makes of its data.
use flex.Common.{
  ℕ, ◌≡◌, ◌≢◌, refl, ap, ◌∙◌, sym, true, false, some, List, [], ◌∷◌, ◌++◌, arith, leb, ◌==◌, length,
  Bool-cases, inl, inr,
}
use flex.StdMap.{Map, put, lookup}
use flex.StdMap.Laws.{lookup-put}
use flex.Exceptions.{ok, throw, wrong_batch}
use flex.HashTrees.Combine.{symmetric_combine_comm}
use flex.Calendar.{MinedCreditMessage}
use flex.Calendar.Difficulty.{ℤ, apply_adjustments, get_next_diurn_initial_difficulty}
use flex.Calendar.Diurn
use flex.Calendar.Tip.{
  CalendarData, Calendar, add_mined_credit_to_tip, last_mined_credit_hash,
  get_last_calend_credit_hash,
}
use flex.Calendar.Tip.Topped.{IsPaired}
use flex.Calendar.Tip.Frame.{Taken, starts, unless_thrown-ok, add_mined_credit_to_tip-Taken}
use flex.Calendar.Tip.Reached.{empty_calendar}
use flex.Calendar.Check.{calend_root, contains_diurn}
use flex.Calendar.Populate.{first_root, populate_calends}
use flex.Calendar.Populate.Calends.{LinkedFrom, last_root, AreRecorded, populate_calends-LinkedFrom}

module _ (stored : CalendarData) where
  LinkedFrom-append :
      (root : ℕ) (calends : List MinedCreditMessage) (msg : MinedCreditMessage)
      → LinkedFrom stored root calends
      → msg.mined_credit.previous_diurn_root ≡ last_root stored root calends
      → LinkedFrom stored root (calends ++ msg ∷ [])
  LinkedFrom-append root [] msg linked e = (e, tt)
  LinkedFrom-append root (calend ∷ calends) msg (first, linked) e =
      (first, LinkedFrom-append (calend_root stored calend) calends msg linked e)

  last_root-append :
      (root : ℕ) (calends : List MinedCreditMessage) (msg : MinedCreditMessage)
      → last_root stored root (calends ++ msg ∷ []) ≡ calend_root stored msg
  last_root-append root [] msg = refl
  last_root-append root (calend ∷ calends) msg =
      last_root-append (calend_root stored calend) calends msg

  contains_diurn_cons :
      (root : ℕ) (calend : MinedCreditMessage) (calends : List MinedCreditMessage)
      → contains_diurn stored root (calend ∷ calends) ≡ false
      → ((calend_root stored calend == root) ≡ false) × (contains_diurn stored root calends ≡ false)
  unfolding contains_diurn
  contains_diurn_cons root calend calends e =
      elim (Bool-cases (calend_root stored calend == root)) [
        | inl same ↦ cc
        | inr apart ↦ (apart, cc)
      ]

  AreRecorded-put :
      (root hash : ℕ) (m : Map ℕ) (calends : List MinedCreditMessage)
      → contains_diurn stored root calends ≡ false
      → AreRecorded stored m calends
      → AreRecorded stored (put root hash m) calends
  AreRecorded-put root hash m [] fresh recorded = tt
  AreRecorded-put root hash m (calend ∷ calends) fresh (nonzero, (at, found, known), recorded) =
      let (apart, later) = contains_diurn_cons root calend calends fresh in
      let still : lookup (calend_root stored calend) (put root hash m) ≡ some at =
        lookup-put (calend_root stored calend) root hash m ∙ rw apart found in
      (nonzero, (at, still, known), AreRecorded-put root hash m calends later recorded)

  AreRecorded-append :
      (hash : ℕ) (m : Map ℕ) (calends : List MinedCreditMessage) (msg : MinedCreditMessage)
      → AreRecorded stored m calends
      → calend_root stored msg ≢ 0
      → lookup (calend_root stored msg) m ≡ some hash
      → stored.messages hash ≡ msg
      → AreRecorded stored m (calends ++ msg ∷ [])
  AreRecorded-append hash m [] msg recorded nonzero found known =
      (nonzero, (hash, found, known), tt)
  AreRecorded-append hash m (calend ∷ calends) msg (first, at, recorded) nonzero found known =
      (first, at, AreRecorded-append hash m calends msg recorded nonzero found known)

  -- A message that is stored under its hash. If it is a calend, its root is neither 0 nor that of another
  -- calend, and if it starts a diurn, it is the root of the diurn before.
  pub record Fits (msg : MinedCreditMessage) (c : Calendar) : Type 0 where
    pub known : stored.messages msg.mined_credit.hash ≡ msg
    pub nonzero :
        leb msg.mined_credit.diurnal_difficulty msg.difficulty_achieved ≡ true
        → calend_root stored msg ≢ 0
    pub fresh :
        leb msg.mined_credit.diurnal_difficulty msg.difficulty_achieved ≡ true
        → contains_diurn stored (calend_root stored msg) c.calends ≡ false
    pub ends :
        starts stored msg c ≡ true
        → calend_root stored msg ≡ Diurn.root stored.tree_hash c.current_diurn

  -- AddMinedCreditToTip of messages that fit, with enough fuel for the adjustments.
  pub data CalendarGrown : Calendar → Type 0 where
    new : CalendarGrown empty_calendar
    grow :
        {c c' : Calendar} (msg : MinedCreditMessage) (grown begun following : ℕ)
        → CalendarGrown c
        → Fits msg c
        → apply_adjustments stored.fuel c.current_diurn.current_difficulty (ℤ.pos 1) ≡ some grown
        → apply_adjustments stored.fuel 0 (ℤ.pos 1) ≡ some begun
        → get_next_diurn_initial_difficulty stored.fuel
            (stored.credits (get_last_calend_credit_hash c))
            msg.mined_credit
          ≡ some following
        → add_mined_credit_to_tip stored msg c ≡ ok c'
        → CalendarGrown c'

  -- What it keeps.
  record IsFound (c : Calendar) : Type 0 where
    paired : IsPaired c
    linked : LinkedFrom stored 0 c.calends
    after : c.current_diurn.previous_diurn_root ≡ last_root stored 0 c.calends
    recorded : AreRecorded stored c.diurn_credit_hash c.calends

  Taken-IsFound :
      (msg : MinedCreditMessage) (grown following : ℕ) (c c' : Calendar)
      → Fits msg c
      → Taken stored msg grown following c c'
      → IsFound c
      → IsFound c'
  unfolding calend_root
  Taken-IsFound msg grown following c c' fits t i =
      let root = calend_root stored msg in
      let hash = msg.mined_credit.hash in
      elim (Bool-cases (leb msg.mined_credit.diurnal_difficulty msg.difficulty_achieved)) [
        | inr batch ↦
            let map : c'.diurn_credit_hash ≡ c.diurn_credit_hash = t.recorded ∙ rw batch refl in
            let calends : c'.calends ≡ c.calends = t.calends ∙ rw batch refl in
            let before : c'.current_diurn.previous_diurn_root
                ≡ c.current_diurn.previous_diurn_root =
              t.previous_root ∙ rw batch refl in
            record {
              paired = t.paired;
              linked = rw calends i.linked;
              after = rw (calends, before) i.after;
              recorded = rw (calends, map) i.recorded;
            }
        | inl calend ↦
            let map : c'.diurn_credit_hash ≡ put root hash c.diurn_credit_hash =
              t.recorded
              ∙ rw calend refl
              ∙ ap (λ r. put r hash c.diurn_credit_hash)
                  (symmetric_combine_comm stored.tree_hash msg.mined_credit.diurnal_block_root
                    msg.mined_credit.previous_diurn_root) in
            let kept =
              AreRecorded-put root hash c.diurn_credit_hash c.calends (fits.fresh calend)
                i.recorded in
            elim (Bool-cases (starts stored msg c)) [
              | inr stay ↦
                  let calends : c'.calends ≡ c.calends = t.calends ∙ rw stay refl in
                  let before : c'.current_diurn.previous_diurn_root
                      ≡ c.current_diurn.previous_diurn_root =
                    t.previous_root ∙ rw stay refl in
                  record {
                    paired = t.paired;
                    linked = rw calends i.linked;
                    after = rw (calends, before) i.after;
                    recorded = rw (calends, map) kept;
                  }
              | inl begun ↦
                  let calends : c'.calends ≡ c.calends ++ msg ∷ [] = t.calends ∙ rw begun refl in
                  let before : c'.current_diurn.previous_diurn_root
                      ≡ Diurn.root stored.tree_hash c.current_diurn =
                    t.previous_root ∙ rw begun refl in
                  let named : msg.mined_credit.previous_diurn_root
                      ≡ c.current_diurn.previous_diurn_root =
                    ground (arith, begun) in
                  let same : (root == root) ≡ true = ground arith in
                  let found : lookup root (put root hash c.diurn_credit_hash) ≡ some hash =
                    lookup-put root root hash c.diurn_credit_hash ∙ rw same refl in
                  record {
                    paired = t.paired;
                    linked =
                        rw calends (LinkedFrom-append 0 c.calends msg i.linked (named ∙ i.after));
                    after =
                        before
                        ∙ sym (fits.ends begun)
                        ∙ sym (last_root-append 0 c.calends msg)
                        ∙ ap (last_root stored 0) (sym calends);
                    recorded =
                        rw (calends, map)
                          (AreRecorded-append hash (put root hash c.diurn_credit_hash) c.calends msg
                            kept (fits.nonzero calend) found fits.known);
                  }
            ]
      ]

  grown-IsFound : (c : Calendar) → CalendarGrown c → IsFound c
  grown-IsFound c new = record { paired = refl; linked = tt; after = refl; recorded = tt }
  grown-IsFound c (grow {c = p} msg grown begun following g fits grows begins follow e) =
      let old = grown-IsFound p g in
      let (c', returns, taken) =
        add_mined_credit_to_tip-Taken stored msg p grown begun following old.paired grows begins
          follow in
      elim (Bool-cases (msg.mined_credit.previous_mined_credit_hash == last_mined_credit_hash p)) [
        | inl after ↦
            let same : c' ≡ c =
              unless_thrown-ok stored msg p c' c (sym (returns ∙ rw after refl) ∙ e) in
            rw (sym same) (Taken-IsFound msg grown following p c' fits taken old)
        | inr apart ↦
            let throws : add_mined_credit_to_tip stored msg p ≡ throw wrong_batch p =
              returns ∙ rw apart refl in
            cc
      ]

  -- Of a calendar that comes about from an empty one by AddMinedCreditToTip of messages that are stored
  -- under their hashes, where the root of each calend is neither 0 nor that of another calend, and is the
  -- root of the diurn that the calend ends: PopulateCalends of a credit whose calends end where the
  -- current diurn begins makes the calends again, from what AddMinedCreditToTip has recorded, in as many
  -- rounds as there are calends.
  pub populate_calends-CalendarGrown :
      (c new_calendar : Calendar) (credit_hash : ℕ)
      → CalendarGrown c
      → new_calendar.diurn_credit_hash ≡ c.diurn_credit_hash
      → first_root stored credit_hash ≡ c.current_diurn.previous_diurn_root
      → populate_calends stored (length c.calends) credit_hash new_calendar
        ≡ ok (record new_calendar { calends = c.calends })
  populate_calends-CalendarGrown c new_calendar credit_hash g data_of_c starts_at =
      let i = grown-IsFound c g in
      populate_calends-LinkedFrom stored c.calends credit_hash new_calendar i.linked
        (rw data_of_c i.recorded) (starts_at ∙ i.after)
