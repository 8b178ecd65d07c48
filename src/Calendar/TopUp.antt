-- ===== src/Calendar/TopUp.antt =====
-- The work that tops up the calends: the checks of Calendar_ on extra_work, and DropTopUpWorkCredits, in
-- src/teleportnode/calendar.cpp.
pub mod Drop
pub mod Covered
use flex.Common.{
  ℕ, ◌+◌, ◌-◌, ◌%◌, ◌^◌, Bool, true, false, not, ◌&&◌, ◌||◌, Option, none, some, List, [], ◌∷◌, ltb,
  leb, ◌==◌, if◌then◌else◌, length,
}
use flex.RelayState.Platform.{u32_mod}
use flex.Calendar.{MinedCredit, MinedCreditMessage}
use flex.Calendar.Difficulty.{u160_mod}

-- A credit and its proof, with what WorkDone() and SpotCheck().Valid() say of the proof.
pub record CreditAndProof : Type 0 where
  pub credit : MinedCredit
  pub work_done : ℕ
  pub spot_check_valid : Bool

-- Calend_::TotalCreditWork
unfoldable pub total_credit_work : MinedCreditMessage → ℕ
total_credit_work calend =
    (calend.mined_credit.total_work + calend.mined_credit.difficulty) % u160_mod

-- Calendar_::CalendWork, with the sum so far
unfoldable pub calend_work : List MinedCreditMessage → ℕ → ℕ
calend_work [] work = work
calend_work (calend ∷ calends) work =
    calend_work calends ((work + calend.mined_credit.diurnal_difficulty) % u160_mod)

-- The inner loop of Calendar_::CheckTopUpWorkProofs.
unfoldable pub proofs_valid : List CreditAndProof → Bool
proofs_valid [] = true
proofs_valid (pair ∷ pairs) =
    let rest = proofs_valid pairs in
    if not (pair.work_done == pair.credit.difficulty) || not pair.spot_check_valid
    then false
    else rest

-- Calendar_::CheckTopUpWorkProofs
unfoldable pub check_top_up_work_proofs : List (List CreditAndProof) → Bool
unfolding proofs_valid
check_top_up_work_proofs [] = true
check_top_up_work_proofs (pairs ∷ lists) =
    let rest = check_top_up_work_proofs lists in if proofs_valid pairs then rest else false

unfoldable pub sum_work_done : List CreditAndProof → ℕ → ℕ
sum_work_done [] work = work
sum_work_done (pair ∷ pairs) work = sum_work_done pairs ((work + pair.work_done) % u160_mod)

-- The loop of Calendar_::CheckTopUpWorkQuantities. last_credit_work stays zero.
unfoldable pub quantities_ok : List (List CreditAndProof) → List MinedCreditMessage → Bool
unfolding sum_work_done total_credit_work
quantities_ok [] calends = true
quantities_ok (pairs ∷ lists) [] = true
quantities_ok (pairs ∷ lists) (calend ∷ calends) =
    let rest = quantities_ok lists calends in
    let top_up_work = sum_work_done pairs 0 in
    let own_work = calend.mined_credit.diurnal_difficulty in
    let credit_work = total_credit_work calend in
    if ltb credit_work own_work && ltb 0 top_up_work
    then false
    else if ltb ((own_work + top_up_work) % u160_mod) credit_work
    then false
    else rest

-- Calendar_::CheckTopUpWorkQuantities
unfoldable pub check_top_up_work_quantities :
    List (List CreditAndProof) → List MinedCreditMessage → Bool
unfolding quantities_ok
check_top_up_work_quantities extra_work calends =
    if not (length extra_work == length calends) then false else quantities_ok extra_work calends

-- The inner loop of Calendar_::CheckTopUpWorkCredits: `none` if a credit does not follow the one before.
unfoldable pub credits_follow :
    (get_hash : MinedCredit → ℕ) → MinedCredit → List CreditAndProof → Option MinedCredit
credits_follow get_hash credit [] = some credit
credits_follow get_hash credit (pair ∷ pairs) =
    let rest = credits_follow get_hash pair.credit pairs in
    if (pair.credit.difficulty == pair.work_done)
      && (credit.batch_number == 0
          || ((pair.credit.previous_mined_credit_hash == get_hash credit)
              && (pair.credit.batch_number == (credit.batch_number + 1) % u32_mod)))
    then rest
    else none

-- Calendar_::CheckTopUpWorkCredits, with the credit of the round before. GetHash160 is computed again
-- after batch_number is set to zero, so it is the parameter get_hash.
unfoldable pub check_top_up_work_credits :
    (get_hash : MinedCredit → ℕ)
    → MinedCredit
    → List (List CreditAndProof)
    → List MinedCreditMessage
    → Bool
unfolding credits_follow
check_top_up_work_credits get_hash credit [] calends = true
check_top_up_work_credits get_hash credit (pairs ∷ lists) [] = false
check_top_up_work_credits get_hash credit (pairs ∷ lists) (calend ∷ calends) =
    elim (credits_follow get_hash (record credit { batch_number = 0 }) pairs) [
      | none ↦ false
      | some last ↦
          let rest = check_top_up_work_credits get_hash last lists calends in
          if not (calend.mined_credit.previous_mined_credit_hash == get_hash last)
          then false
          else rest
    ]

-- Calendar_::CheckTopUpWork
unfoldable pub check_top_up_work :
    (get_hash : MinedCredit → ℕ)
    → MinedCredit
    → List (List CreditAndProof)
    → List MinedCreditMessage
    → Bool
check_top_up_work get_hash credit extra_work calends =
    check_top_up_work_quantities extra_work calends
    && check_top_up_work_credits get_hash credit extra_work calends
    && check_top_up_work_proofs extra_work

-- Calendar_::DropTopUpWorkCredits, with the number dropped so far. to_drop is an int32_t: a number from
-- 2^31 on is negative.
unfoldable pub drop_top_up_work_credits :
    ℕ → ℕ → List (List CreditAndProof) → List (List CreditAndProof)
drop_top_up_work_credits num_credits_to_drop num_credits_dropped [] = []
drop_top_up_work_credits num_credits_to_drop num_credits_dropped (pairs ∷ lists) =
    let size = length pairs in
    let to_drop = (num_credits_to_drop + 2 ^ 65 - num_credits_dropped - size) % 2 ^ 64 % u32_mod in
    let cleared =
      drop_top_up_work_credits num_credits_to_drop ((num_credits_dropped + size) % u32_mod) lists in
    let shortened =
      drop_top_up_work_credits num_credits_to_drop ((num_credits_dropped + to_drop) % u32_mod)
        lists in
    if leb (num_credits_dropped + size) num_credits_to_drop
    then [] ∷ cleared
    else if leb (2 ^ 31) to_drop || (to_drop == 0)
    then pairs ∷ lists
    else take_credits (size - to_drop) pairs ∷ shortened
  where
    take_credits : ℕ → List CreditAndProof → List CreditAndProof
    take_credits ℕ.zero pairs = []
    take_credits (ℕ.suc n) [] = []
    take_credits (ℕ.suc n) (pair ∷ pairs) = pair ∷ take_credits n pairs
