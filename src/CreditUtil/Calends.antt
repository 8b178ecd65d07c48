-- ===== src/CreditUtil/Calends.antt =====
-- The functions of src/credits/creditutil.cpp that look for calends.
use flex.Common.{
  ℕ, zero, suc, Bool, true, false, not, ◌&&◌, ◌||◌, Option, none, some, List, [], ◌∷◌, ◌++◌, ltb,
  ◌==◌, if◌then◌else◌, get_elem?, nat_eq,
}
use flex.StdMap.{Set, count, insert}
use flex.VectorTools.{vector_contains_entry}
use flex.BitChain.{BitChain, get}
use flex.Credits.{CreditInBatch}
use flex.CreditUtil.{History, previous_credit_hash}

-- creditdata[hash].HasProperty("msg"), with DifficultyAchieved() of its proof and the diurnal_difficulty
-- of its credit; the previous_diurn_root of the credit; calendardata[root]["credit_hash"] where there is
-- one.
pub record CalendData : Type 0 where
  pub history : History
  pub has_msg : ℕ → Bool
  pub difficulty_achieved : ℕ → ℕ
  pub diurnal_difficulty : ℕ → ℕ
  pub previous_diurn_root : ℕ → ℕ
  pub diurn_credit_hash : ℕ → Option ℕ

-- IsCalend, with the hashes for which calendardata[hash]["is_calend"] is set.
unfoldable pub is_calend : CalendData → ℕ → Set → Bool × Set
is_calend stored credit_hash flags =
    if not (stored.has_msg credit_hash)
    then (false, flags)
    else if count credit_hash flags
    then (true, flags)
    else if ltb (stored.diurnal_difficulty credit_hash) (stored.difficulty_achieved credit_hash)
    then (true, insert credit_hash flags)
    else (false, flags)

-- HaveSameCalend
unfoldable pub have_same_calend : CalendData → ℕ → ℕ → Bool
have_same_calend stored credit_hash1 credit_hash2 =
    stored.previous_diurn_root credit_hash1 == stored.previous_diurn_root credit_hash2

-- TxContainsSpentInputs, of the inputs and the spent chain
unfoldable pub tx_contains_spent_inputs : BitChain → List CreditInBatch → Bool
unfolding get
tx_contains_spent_inputs spent_chain [] = false
tx_contains_spent_inputs spent_chain (credit ∷ inputs) =
    if get credit.position spent_chain then true else tx_contains_spent_inputs spent_chain inputs

-- The test that ends the loop of GetCalendCreditHash.
abbrev pub ends_at : CalendData → Set → ℕ → Bool
ends_at stored flags hash = stored.history.batch_number hash == 0 || count hash flags

-- The loop of GetCalendCreditHash.
unfoldable pub calend_before : CalendData → Set → ℕ → ℕ → Option ℕ
calend_before stored flags zero calend_hash = none
calend_before stored flags (suc fuel) calend_hash =
    let rest = calend_before stored flags fuel (stored.history.previous calend_hash) in
    if ends_at stored flags calend_hash then some calend_hash else rest

-- GetCalendCreditHash
unfoldable pub get_calend_credit_hash : CalendData → Set → ℕ → ℕ → Option ℕ
unfolding previous_credit_hash
get_calend_credit_hash stored flags fuel credit_hash =
    elim (stored.diurn_credit_hash (stored.previous_diurn_root credit_hash)) [
      | some calend_hash ↦ some calend_hash
      | none ↦ calend_before stored flags fuel (previous_credit_hash stored.history credit_hash)
    ]

-- The loop of GetCreditHashesSinceCalend: what it pushes, from the credit with a hash.
unfoldable pub hashes_back : History → ℕ → ℕ → ℕ → Option (List ℕ)
hashes_back history zero calend_credit_hash hash = none
hashes_back history (suc fuel) calend_credit_hash hash =
    let prev_hash = history.previous hash in
    let rest = hashes_back history fuel calend_credit_hash prev_hash in
    if not (history.batch_number hash == 0) && not (prev_hash == calend_credit_hash)
    then if prev_hash == 0
      then some []
      else elim rest [ none ↦ none | some hashes ↦ some (prev_hash ∷ hashes) ]
    else some []

-- std::reverse
unfoldable pub reverse : List ℕ → List ℕ
reverse [] = []
reverse (x ∷ xs) = reverse xs ++ x ∷ []

-- GetCreditHashesSinceCalend: the credit that is stored under a hash has this hash.
unfoldable pub get_credit_hashes_since_calend : History → ℕ → ℕ → ℕ → Option (List ℕ)
get_credit_hashes_since_calend history fuel calend_credit_hash final_hash =
    if final_hash == calend_credit_hash
    then some []
    else elim (hashes_back history fuel calend_credit_hash final_hash) [
      | none ↦ none
      | some hashes ↦ some (reverse (final_hash ∷ hashes))
    ]

-- The loop of GetNextCalendCreditHash, over what follows in the vector: `none` where it reads outside.
unfoldable pub entry_after : ℕ → List ℕ → Option ℕ
entry_after credit_hash [] = some 0
entry_after credit_hash (x ∷ hashes) =
    if x == credit_hash then get_elem? hashes 0 else entry_after credit_hash hashes

unfoldable pub back_of : List ℕ → ℕ
back_of [] = 0
back_of (x ∷ []) = x
back_of (x ∷ y ∷ xs) = back_of (y ∷ xs)

-- GetNextCalendCreditHash, of GetCalendCreditHashes()
unfoldable pub get_next_calend_credit_hash : List ℕ → ℕ → Option ℕ
unfolding vector_contains_entry entry_after back_of
get_next_calend_credit_hash calend_hashes credit_hash =
    if not (vector_contains_entry calend_hashes credit_hash) || credit_hash == back_of calend_hashes
    then some 0
    else entry_after credit_hash calend_hashes
