-- ===== src/Calendar/Tip/Topped.antt =====
-- TrimTopUpWork and StoreTopUpWorkIfNecessary on the lists of extra work.
use flex.Common.{
  ℕ, suc, ◌+◌, ◌-◌, ◌%◌, ◌^◌, ◌||◌, ◌≡◌, refl, ap, ◌∙◌, sym, false, not, none, some, List, [], ◌∷◌,
  ◌++◌, arith, leb, ◌==◌, length, Bool-cases, Option-cases, inl, inr,
}
use flex.Exceptions.{Result, ok}
use flex.Calendar.{MinedCreditMessage}
use flex.Calendar.Difficulty.{u160_mod}
use flex.Calendar.Diurn
use flex.RelayState.Platform.{u32_mod}
use flex.Calendar.TopUp.{CreditAndProof, calend_work, total_credit_work, drop_top_up_work_credits}
use flex.Calendar.Tip.{
  CalendarData, Calendar, last_calend, top_up_loop, top_up_work, total_work, trim_lists,
  trim_top_up_work, store_top_up_work_if_necessary, last_mined_credit_hash,
}

-- One list of extra work for each calend.
abbrev pub IsPaired : Calendar → Type 0
IsPaired c = length c.calends ≡ length c.extra_work

length-drop :
    (n d : ℕ) (lists : List (List CreditAndProof))
    → length (drop_top_up_work_credits n d lists) ≡ length lists
unfolding drop_top_up_work_credits
length-drop n d [] = refl
length-drop n d (pairs ∷ lists) =
    let to_drop = (n + 2 ^ 65 - d - length pairs) % 2 ^ 64 % u32_mod in
    elim (Bool-cases (leb (d + length pairs) n)) [
      | inl all ↦ rw all (ap suc (length-drop n ((d + length pairs) % u32_mod) lists))
      | inr some_stay ↦ elim (Bool-cases (leb (2 ^ 31) to_drop || (to_drop == 0))) [
        | inl ends ↦ rw (some_stay, ends) refl
        | inr goes_on ↦
            rw (some_stay, goes_on) (ap suc (length-drop n ((d + to_drop) % u32_mod) lists))
      ]
    ]

pub top_up_work_paired : (c : Calendar) → IsPaired c → (work : ℕ) × (top_up_work c ≡ some work)
unfolding top_up_work
top_up_work_paired c e =
    let same : not (length c.calends == length c.extra_work) ≡ false = ground (arith, e) in
    (top_up_loop c.extra_work c.calends 0, rw same refl)

total_work_paired : (c : Calendar) → IsPaired c → (work : ℕ) × (total_work c ≡ some work)
unfolding total_work
total_work_paired c e =
    let (top_up, computed) = top_up_work_paired c e in
    let sum = (calend_work c.calends 0 + top_up + Diurn.work c.current_diurn) % u160_mod in
    let all : ℕ = elim (last_calend c.calends) [
      | none ↦ sum
      | some calend ↦ (sum + u160_mod - calend.mined_credit.difficulty) % u160_mod
    ] in
    (all, rw (computed, total_work) refl)

module _ (stored : CalendarData) where
  -- A calendar that differs in the lists of extra work alone, and is paired.
  pub record Topped (r : Result Calendar) (c : Calendar) : Type 0 where
    pub extra : List (List CreditAndProof)
    pub current : List CreditAndProof
    pub returns : r ≡ ok (record c { extra_work = extra; current_extra_work = current })
    pub paired : length c.calends ≡ length extra

  pub trim-Topped : (c : Calendar) → IsPaired c → Topped (trim_top_up_work stored c) c
  unfolding trim_top_up_work
  trim-Topped c e =
      let (work, computed) = total_work_paired c e in
      let last = stored.credits (last_mined_credit_hash c) in
      let credit_work = (last.total_work + last.difficulty) % u160_mod in
      let same : Topped (ok c) c = record {
        extra = c.extra_work;
        current = c.current_extra_work;
        returns = refl;
        paired = e;
      } in
      rw (computed, trim_top_up_work)
        (elim (Bool-cases (leb work credit_work)) [
          | inl little ↦ rw little same
          | inr much ↦
              rw much (elim (Option-cases (trim_lists (work - credit_work) c.extra_work 0 0)) [
                | inl none_over ↦ rw (none_over, trim_top_up_work) same
                | inr (n, found) ↦
                    rw (found, trim_top_up_work)
                      (record {
                        extra = drop_top_up_work_credits n 0 c.extra_work;
                        current = c.current_extra_work;
                        returns = refl;
                        paired = e ∙ sym (length-drop n 0 c.extra_work);
                      })
              ])
        ])

  pub store-Topped :
      (msg : MinedCreditMessage) (c : Calendar)
      → IsPaired c
      → Topped (store_top_up_work_if_necessary stored msg c) c
  unfolding store_top_up_work_if_necessary
  store-Topped msg c e =
      let (top_up, computed) = top_up_work_paired c e in
      let work =
        (calend_work c.calends 0 + msg.mined_credit.diurnal_difficulty + top_up) % u160_mod in
      rw (computed, store_top_up_work_if_necessary)
        (elim (Bool-cases (leb work (total_credit_work msg))) [
          | inl more ↦
              let longer : Calendar = record c {
                current_extra_work =
                    c.current_extra_work
                    ++ record {
                      credit = msg.mined_credit;
                      work_done = msg.work_done;
                      spot_check_valid = stored.spot_check_valid msg.mined_credit.hash;
                    }
                      ∷ [];
              } in
              let t = trim-Topped longer e in
              rw more (record {
                extra = t.extra;
                current = t.current;
                returns = t.returns;
                paired = t.paired;
              })
          | inr enough ↦ rw enough (trim-Topped c e)
        ])
