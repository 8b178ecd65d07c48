-- ===== src/Calendar/Tip/Reached.antt =====
-- The calendars that come about as credits are added to the tip.
use flex.Common.{
  ℕ, ◌≡◌, refl, ap, ◌∙◌, sym, Option, none, some, List, [], ◌∷◌, ◌++◌, arith, ◌==◌, Bool-cases, inl,
  inr,
}
use flex.Exceptions.{ok, throw, wrong_batch}
use flex.Calendar.{MinedCreditMessage}
use flex.Calendar.Difficulty.{ℤ, apply_adjustments, get_next_diurn_initial_difficulty}
use flex.Calendar.Diurn
use flex.Calendar.Diurn.{empty_diurn, last_of}
use flex.Calendar.Tip.{
  CalendarData, Calendar, add_mined_credit_to_tip, last_mined_credit_hash,
  get_last_calend_credit_hash, last_calend, top_up_work,
}
use flex.Calendar.Tip.Frame.{
  Taken, starts, continues, unless_thrown-ok, add_mined_credit_to_tip-Taken,
}
use flex.Calendar.Tip.Topped.{IsPaired, top_up_work_paired}

abbrev pub empty_calendar : Calendar
empty_calendar = record {
  calends = [];
  extra_work = [];
  current_diurn = empty_diurn;
  current_extra_work = [];
  marked = [];
  diurn_credit_hash = [];
  finished_diurns = [];
}

-- The last calend, if there is one, comes first in the diurn.
abbrev pub BeginsWith : Option MinedCreditMessage → List ℕ → Type 0
BeginsWith none hashes = Unit
BeginsWith (some calend) hashes = (rest : List ℕ) × (hashes ≡ calend.mined_credit.hash ∷ rest)

last_calend-append :
    (calends : List MinedCreditMessage) (msg : MinedCreditMessage)
    → last_calend (calends ++ msg ∷ []) ≡ some msg
unfolding last_calend
last_calend-append [] msg = refl
last_calend-append (x ∷ []) msg = refl
last_calend-append (x ∷ y ∷ calends) msg = last_calend-append (y ∷ calends) msg

BeginsWith-append :
    (o : Option MinedCreditMessage) (hashes more : List ℕ)
    → BeginsWith o hashes
    → BeginsWith o (hashes ++ more)
BeginsWith-append none hashes more h = tt
BeginsWith-append (some calend) hashes more (rest, e) = (rest ++ more, ap (λ xs. xs ++ more) e)

module _ (stored : CalendarData) where
  -- Each credit of a diurn names the one before it as its previous credit.
  abbrev pub IsChain : List ℕ → Type 0
  IsChain [] = Unit
  IsChain (a ∷ []) = Unit
  IsChain (a ∷ b ∷ hashes) =
      ((stored.messages b).mined_credit.previous_mined_credit_hash ≡ a) × IsChain (b ∷ hashes)

  IsChain-append :
      (hashes : List ℕ) (hash : ℕ)
      → (stored.messages hash).mined_credit.previous_mined_credit_hash ≡ last_of hashes
      → IsChain hashes
      → IsChain (hashes ++ hash ∷ [])
  unfolding last_of
  IsChain-append [] hash e h = tt
  IsChain-append (a ∷ []) hash e h = (e, tt)
  IsChain-append (a ∷ b ∷ hashes) hash e h = (h.0, IsChain-append (b ∷ hashes) hash e h.1)

  -- AddMinedCreditToTip of a message that is stored under its hash, with enough fuel for the adjustments.
  pub data CalendarReached : Calendar → Type 0 where
    start : CalendarReached empty_calendar
    next :
        {c c' : Calendar} (msg : MinedCreditMessage) (grow begin following : ℕ)
        → CalendarReached c
        → stored.messages msg.mined_credit.hash ≡ msg
        → apply_adjustments stored.fuel c.current_diurn.current_difficulty (ℤ.pos 1) ≡ some grow
        → apply_adjustments stored.fuel 0 (ℤ.pos 1) ≡ some begin
        → get_next_diurn_initial_difficulty stored.fuel
            (stored.credits (get_last_calend_credit_hash c))
            msg.mined_credit
          ≡ some following
        → add_mined_credit_to_tip stored msg c ≡ ok c'
        → CalendarReached c'

  pub record IsCalendar (c : Calendar) : Type 0 where
    pub paired : IsPaired c
    pub chain : IsChain c.current_diurn.diurnal_block.hashes
    pub begins : BeginsWith (last_calend c.calends) c.current_diurn.diurnal_block.hashes

  Taken-IsCalendar :
      (msg : MinedCreditMessage) (grow following : ℕ) (c c' : Calendar)
      → stored.messages msg.mined_credit.hash ≡ msg
      → Taken stored msg grow following c c'
      → IsCalendar c
      → IsCalendar c'
  unfolding last_calend Diurn.last
  Taken-IsCalendar msg grow following c c' known t i = elim (Bool-cases (starts stored msg c)) [
    | inl begun ↦
        let calends : c'.calends ≡ c.calends ++ msg ∷ [] = t.calends ∙ rw begun refl in
        let hashes : c'.current_diurn.diurnal_block.hashes ≡ msg.mined_credit.hash ∷ [] =
          t.hashes ∙ rw begun refl in
        record {
          paired = t.paired;
          chain = rw hashes tt;
          begins = rw (calends, hashes, last_calend-append) ([], refl);
        }
    | inr stay ↦
        let calends : c'.calends ≡ c.calends = t.calends ∙ rw stay refl in
        elim (Bool-cases (continues stored msg c)) [
          | inl more ↦
              let hashes : c'.current_diurn.diurnal_block.hashes
                  ≡ c.current_diurn.diurnal_block.hashes ++ msg.mined_credit.hash ∷ [] =
                t.hashes ∙ rw (stay, more) refl in
              let after : msg.mined_credit.previous_mined_credit_hash
                  ≡ last_of c.current_diurn.diurnal_block.hashes =
                ground (arith, more) in
              record {
                paired = t.paired;
                chain = rw hashes (
                    IsChain-append c.current_diurn.diurnal_block.hashes msg.mined_credit.hash
                      (ap (λ (m : MinedCreditMessage). m.mined_credit.previous_mined_credit_hash)
                          known
                        ∙ after)
                      i.chain);
                begins =
                    rw (calends, hashes)
                      (BeginsWith-append (last_calend c.calends)
                        c.current_diurn.diurnal_block.hashes (msg.mined_credit.hash ∷ []) i.begins);
              }
          | inr apart ↦
              let hashes : c'.current_diurn.diurnal_block.hashes
                  ≡ c.current_diurn.diurnal_block.hashes =
                t.hashes ∙ rw (stay, apart) refl in
              record {
                paired = t.paired;
                chain = rw hashes i.chain;
                begins = rw (calends, hashes) i.begins;
              }
        ]
  ]

  reached-IsCalendar : (c : Calendar) → CalendarReached c → IsCalendar c
  unfolding last_calend
  reached-IsCalendar c start = record { paired = refl; chain = tt; begins = tt }
  reached-IsCalendar c (next {c = p} msg grow begin following r known grows begun follow e) =
      let old = reached-IsCalendar p r in
      let (c', returns, taken) =
        add_mined_credit_to_tip-Taken stored msg p grow begin following old.paired grows begun
          follow in
      elim (Bool-cases (msg.mined_credit.previous_mined_credit_hash == last_mined_credit_hash p)) [
        | inl after ↦
            let same : c' ≡ c =
              unless_thrown-ok stored msg p c' c (sym (returns ∙ rw after refl) ∙ e) in
            rw (sym same) (Taken-IsCalendar msg grow following p c' known taken old)
        | inr apart ↦
            let throws : add_mined_credit_to_tip stored msg p ≡ throw wrong_batch p =
              returns ∙ rw apart refl in
            cc
      ]

  -- In a calendar that comes about so from an empty one: each calend has its list of extra work, so
  -- TopUpWork does not throw; each credit of the current diurn names the one before it as its previous
  -- credit; and the last calend, if there is one, is the first credit of the diurn.
  pub CalendarReached-IsCalendar :
      (c : Calendar)
      → CalendarReached c
      → ((work : ℕ) × (top_up_work c ≡ some work))
        × IsChain c.current_diurn.diurnal_block.hashes
        × BeginsWith (last_calend c.calends) c.current_diurn.diurnal_block.hashes
  CalendarReached-IsCalendar c r =
      let i = reached-IsCalendar c r in (top_up_work_paired c i.paired, i.chain, i.begins)
