-- ===== src/Calendar/Check/Failures.antt =====
-- SpotCheckWork records a failure, which Validate reads.
use flex.Common.{
  ℕ, ◌≡◌, refl, Bool, true, false, some, List, [], ◌∷◌, ◌==◌, arith, Bool-cases, inl, inr, ◌∙◌, ap,
  sym, is_some,
}
use flex.StdMap.{Map, put, count, lookup}
use flex.StdMap.Laws.{lookup-put}
use flex.Calendar.{MinedCreditMessage}
use flex.Calendar.Tip.{CalendarData, Calendar}
use flex.Calendar.Check.{
  FailureDetails, calend_root, contains_diurn, has_failure, validate, spot_check_work,
}

module _ (stored : CalendarData) where
  contains_failure :
      (root : ℕ) (failures : Map FailureDetails) (calends : List MinedCreditMessage)
      → contains_diurn stored root calends ≡ true
      → count root failures ≡ true
      → has_failure stored failures calends ≡ true
  unfolding contains_diurn has_failure
  contains_failure root failures [] e f = cc
  contains_failure root failures (calend ∷ calends) e f =
      elim (Bool-cases (calend_root stored calend == root)) [
        | inl same ↦
            let equal : calend_root stored calend ≡ root = ground (arith, same) in
            rw (equal, f) refl
        | inr apart ↦ elim (Bool-cases (count (calend_root stored calend) failures)) [
          | inl failed ↦ rw failed refl
          | inr passed ↦
              let later : contains_diurn stored root calends ≡ true = cc in
              rw passed (contains_failure root failures calends later f)
        ]
      ]

  passed_step :
      (calend : MinedCreditMessage) (calends : List MinedCreditMessage) (details : FailureDetails)
      (failures : Map FailureDetails)
      → stored.spot_check_valid calend.mined_credit.hash ≡ true
      → spot_check_work stored (calend ∷ calends) details failures
        ≡ spot_check_work stored calends details failures
  unfolding spot_check_work
  passed_step calend calends details failures passed = rw passed refl

  -- Where it fails, its details are of one of the calends and are recorded under their root.
  abbrev IsRecorded : List MinedCreditMessage → Bool × FailureDetails × Map FailureDetails → Type 0
  IsRecorded calends after =
      (contains_diurn stored after.1.diurn_root calends ≡ true)
      × (count after.1.diurn_root after.2 ≡ true)

  failed_step :
      (calend : MinedCreditMessage) (calends : List MinedCreditMessage) (details : FailureDetails)
      (failures : Map FailureDetails)
      → stored.spot_check_valid calend.mined_credit.hash ≡ false
      → IsRecorded (calend ∷ calends) (spot_check_work stored (calend ∷ calends) details failures)
  unfolding spot_check_work contains_diurn
  failed_step calend calends details failures failed =
      let root = calend_root stored calend in
      let found : FailureDetails = record {
        diurn_root = root;
        credit_hash = calend.mined_credit.hash;
      } in
      let same : (root == root) ≡ true = ground arith in
      let held : lookup root (put root found failures) ≡ some found =
        lookup-put root root found failures ∙ rw same refl in
      rw failed (rw same refl, ap is_some held)

  none_fails :
      (details : FailureDetails) (failures : Map FailureDetails)
      → (spot_check_work stored [] details failures).0 ≡ true
  unfolding spot_check_work
  none_fails details failures = refl

  later :
      (calend : MinedCreditMessage) (calends : List MinedCreditMessage)
      (after : Bool × FailureDetails × Map FailureDetails)
      → IsRecorded calends after
      → IsRecorded (calend ∷ calends) after
  unfolding contains_diurn
  later calend calends after h =
      elim (Bool-cases (calend_root stored calend == after.1.diurn_root)) [
        | inl same ↦ rw same (refl, h.1)
        | inr apart ↦ rw apart h
      ]

  failure-IsRecorded :
      (calends : List MinedCreditMessage) (details : FailureDetails) (failures : Map FailureDetails)
      → (spot_check_work stored calends details failures).0 ≡ false
      → IsRecorded calends (spot_check_work stored calends details failures)
  failure-IsRecorded [] details failures e = let passes = none_fails details failures in cc
  failure-IsRecorded (calend ∷ calends) details failures e =
      elim (Bool-cases (stored.spot_check_valid calend.mined_credit.hash)) [
        | inr failed ↦ failed_step calend calends details failures failed
        | inl passed ↦
            let step = passed_step calend calends details failures passed in
            let fails : (spot_check_work stored calends details failures).0 ≡ false =
              ap (λ (r : Bool × FailureDetails × Map FailureDetails). r.0) (sym step) ∙ e in
            let rest = failure-IsRecorded calends details failures fails in
            rw step (later calend calends (spot_check_work stored calends details failures) rest)
      ]

  -- Where SpotCheckWork fails, Validate refuses from then on the calendar and every other one that holds
  -- a calend with the root of the failure.
  pub spot_check_work-validate :
      (c other : Calendar) (details : FailureDetails) (failures : Map FailureDetails)
      → (spot_check_work stored c.calends details failures).0 ≡ false
      → contains_diurn stored
          (spot_check_work stored c.calends details failures).1.diurn_root
          other.calends
        ≡ true
      → (validate stored (spot_check_work stored c.calends details failures).2 c ≡ some false)
        × (validate stored (spot_check_work stored c.calends details failures).2 other ≡ some false)
  unfolding validate
  spot_check_work-validate c other details failures e held =
      let after = spot_check_work stored c.calends details failures in
      let recorded = failure-IsRecorded c.calends details failures e in
      (
        rw (contains_failure after.1.diurn_root after.2 c.calends recorded.0 recorded.1) refl,
        rw (contains_failure after.1.diurn_root after.2 other.calends held recorded.1) refl,
      )
