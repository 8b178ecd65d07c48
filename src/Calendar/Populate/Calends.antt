-- ===== src/Calendar/Populate/Calends.antt =====
-- The calends that PopulateCalends finds.
use flex.Common.{
  ℕ, suc, ◌+◌, ◌≡◌, ◌≢◌, refl, ap, ◌∙◌, false, some, List, [], ◌∷◌, ◌++◌, ◌==◌, length, arith,
  append-nil,
}
use flex.StdMap.{Map, lookup}
use flex.Exceptions.{ok}
use flex.Calendar.{MinedCreditMessage}
use flex.Calendar.Tip.{CalendarData, Calendar}
use flex.Calendar.Check.{calend_root}
use flex.Calendar.Populate.{first_root, calends_from, populate_calends}

module _ (stored : CalendarData) where
  -- Each calend names the root of the one before, and the first one the given root.
  abbrev pub LinkedFrom : ℕ → List MinedCreditMessage → Type 0
  LinkedFrom root [] = Unit
  LinkedFrom root (calend ∷ calends) =
      (calend.mined_credit.previous_diurn_root ≡ root)
      × LinkedFrom (calend_root stored calend) calends

  -- The root of the last calend, or the given root.
  abbrev pub last_root : ℕ → List MinedCreditMessage → ℕ
  last_root root [] = root
  last_root root (calend ∷ calends) = last_root (calend_root stored calend) calends

  -- The root of each calend is not 0, and leads to a hash whose message is the calend.
  abbrev pub AreRecorded : Map ℕ → List MinedCreditMessage → Type 0
  AreRecorded credit_hashes [] = Unit
  AreRecorded credit_hashes (calend ∷ calends) =
      (calend_root stored calend ≢ 0)
      × ((hash : ℕ) × (lookup (calend_root stored calend) credit_hashes ≡ some hash)
          × (stored.messages hash ≡ calend))
      × AreRecorded credit_hashes calends

  calends_step :
      (fuel : ℕ) (credit_hashes : Map ℕ) (root hash : ℕ) (calend : MinedCreditMessage)
      (calends : List MinedCreditMessage)
      → root ≢ 0
      → lookup root credit_hashes ≡ some hash
      → stored.messages hash ≡ calend
      → calends_from stored (suc fuel) credit_hashes root calends
        ≡ calends_from stored fuel credit_hashes calend.mined_credit.previous_diurn_root
            (calend ∷ calends)
  unfolding calends_from
  calends_step fuel credit_hashes root hash calend calends nonzero found known =
      let goes_on : (root == 0) ≡ false = ground (arith, nonzero) in rw (goes_on, found, known) refl

  -- The loop goes back from the last calend to the root before the first.
  calends_back :
      (calends after : List MinedCreditMessage) (fuel root : ℕ) (credit_hashes : Map ℕ)
      → LinkedFrom root calends
      → AreRecorded credit_hashes calends
      → calends_from stored (length calends + fuel) credit_hashes (last_root root calends) after
        ≡ calends_from stored fuel credit_hashes root (calends ++ after)
  calends_back [] after fuel root credit_hashes linked recorded =
      ap (λ n. calends_from stored n credit_hashes root after) (omega arith)
  calends_back (calend ∷ calends) after fuel root credit_hashes (first, linked)
        (nonzero, (hash, found, known), recorded) =
      let here = calend_root stored calend in
      let shift : length (calend ∷ calends) + fuel ≡ length calends + suc fuel = omega arith in
      ap (λ n. calends_from stored n credit_hashes (last_root here calends) after) shift
      ∙ calends_back calends after (suc fuel) here credit_hashes linked recorded
      ∙ calends_step fuel credit_hashes here hash calend (calends ++ after) nonzero found known
      ∙ ap (λ r. calends_from stored fuel credit_hashes r (calend ∷ calends ++ after)) first

  ends :
      (credit_hashes : Map ℕ) (calends : List MinedCreditMessage)
      → calends_from stored 0 credit_hashes 0 calends ≡ some calends
  unfolding calends_from
  ends credit_hashes calends = refl

  -- Where the calends of a calendar each name the root of the one before, the first one names 0, and the
  -- root of each leads in the stored data to its message: PopulateCalends of a credit whose calends end
  -- with the root of the last one returns, in as many rounds as there are calends, and finds them.
  pub populate_calends-LinkedFrom :
      (calends : List MinedCreditMessage) (credit_hash : ℕ) (c : Calendar)
      → LinkedFrom 0 calends
      → AreRecorded c.diurn_credit_hash calends
      → first_root stored credit_hash ≡ last_root 0 calends
      → populate_calends stored (length calends) credit_hash c ≡ ok (record c { calends = calends })
  unfolding populate_calends
  populate_calends-LinkedFrom calends credit_hash c linked recorded starts =
      let m = c.diurn_credit_hash in
      let no_more : length calends ≡ length calends + 0 = omega arith in
      let found : calends_from stored (length calends) m (first_root stored credit_hash) []
          ≡ some calends =
        ap (λ r. calends_from stored (length calends) m r []) starts
        ∙ ap (λ n. calends_from stored n m (last_root 0 calends) []) no_more
        ∙ calends_back calends [] 0 0 m linked recorded
        ∙ ends m (calends ++ [])
        ∙ ap some (append-nil calends) in
      rw (found, populate_calends) refl
