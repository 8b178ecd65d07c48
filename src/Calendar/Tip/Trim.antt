-- ===== src/Calendar/Tip/Trim.antt =====
-- How many credits TrimTopUpWork drops.
use flex.Common.{
  ℕ, zero, suc, ◌+◌, ◌%◌, ◌<◌, ◌≤◌, ◌≡◌, refl, ap, ◌∙◌, sym, false, Option, none, some, List, [],
  ◌∷◌, ◌++◌, arith, ◌-◌, ltb, leb, Option-cases, if◌then◌else◌, length, Bool-cases, inl, inr,
}
use flex.RelayState.Platform.{u32_mod}
use flex.Calendar.Difficulty.{u160_mod}
use flex.Calendar.TopUp.{CreditAndProof, drop_top_up_work_credits}
use flex.Calendar.Tip.{
  CalendarData, Calendar, last_mined_credit_hash, total_work, trim_list, trim_lists,
  trim_top_up_work,
}
use flex.Exceptions.{ok}

-- The difficulties of the first credits of a list.
abbrev pub work_of_first : ℕ → List CreditAndProof → ℕ
work_of_first zero pairs = 0
work_of_first (suc n) [] = 0
work_of_first (suc n) (pair ∷ pairs) = pair.credit.difficulty + work_of_first n pairs

abbrev pub all_credits : List (List CreditAndProof) → List CreditAndProof
all_credits [] = []
all_credits (pairs ∷ lists) = pairs ++ all_credits lists

-- The number of credits to drop is the greatest whose work is within the surplus, and there is none if
-- the work of all of them is.
abbrev pub IsTrim : ℕ → List CreditAndProof → Option ℕ → Type 0
IsTrim surplus pairs none = work_of_first (length pairs) pairs ≤ surplus
IsTrim surplus pairs (some n) =
    (n < length pairs) × (work_of_first n pairs ≤ surplus) × (surplus < work_of_first (n + 1) pairs)

-- The loops over one list of all credits.
abbrev flat_trim : ℕ → List CreditAndProof → ℕ → ℕ → Option ℕ
flat_trim surplus [] trimmed num = none
flat_trim surplus (pair ∷ pairs) trimmed num =
    let next = (trimmed + pair.credit.difficulty) % u160_mod in
    let rest = flat_trim surplus pairs next ((num + 1) % u32_mod) in
    if ltb surplus next then some num else rest

list_then_flat :
    (surplus : ℕ) (pairs more : List CreditAndProof) (trimmed num : ℕ)
    → flat_trim surplus (pairs ++ more) trimmed num ≡ (
        if (trim_list surplus pairs trimmed num).0
        then some (trim_list surplus pairs trimmed num).2
        else flat_trim surplus more
            (trim_list surplus pairs trimmed num).1
            (trim_list surplus pairs trimmed num).2)
unfolding trim_list
list_then_flat surplus [] more trimmed num = refl
list_then_flat surplus (pair ∷ pairs) more trimmed num =
    let next = (trimmed + pair.credit.difficulty) % u160_mod in
    elim (Bool-cases (ltb surplus next)) [
      | inl over ↦ rw over refl
      | inr within ↦ rw within (list_then_flat surplus pairs more next ((num + 1) % u32_mod))
    ]

lists_flat :
    (surplus : ℕ) (lists : List (List CreditAndProof)) (trimmed num : ℕ)
    → trim_lists surplus lists trimmed num ≡ flat_trim surplus (all_credits lists) trimmed num
unfolding trim_lists
lists_flat surplus [] trimmed num = refl
lists_flat surplus (pairs ∷ lists) trimmed num =
    let one = trim_list surplus pairs trimmed num in
    ap (λ (o : Option ℕ). if one.0 then some one.2 else o) (lists_flat surplus lists one.1 one.2)
    ∙ sym (list_then_flat surplus pairs (all_credits lists) trimmed num)

-- The same, with the work and the number of credits before.
abbrev IsTrimFrom : ℕ → List CreditAndProof → ℕ → ℕ → Option ℕ → Type 0
IsTrimFrom surplus pairs trimmed num none = trimmed + work_of_first (length pairs) pairs ≤ surplus
IsTrimFrom surplus pairs trimmed num (some n) =
    (k : ℕ) × (n ≡ num + k)
    × (k < length pairs)
    × (trimmed + work_of_first k pairs ≤ surplus)
    × (surplus < trimmed + work_of_first (k + 1) pairs)

step-IsTrimFrom :
    (surplus : ℕ) (pair : CreditAndProof) (pairs : List CreditAndProof) (trimmed num : ℕ)
    (o : Option ℕ)
    → IsTrimFrom surplus pairs (trimmed + pair.credit.difficulty) (num + 1) o
    → IsTrimFrom surplus (pair ∷ pairs) trimmed num o
step-IsTrimFrom surplus pair pairs trimmed num none h = omega arith
step-IsTrimFrom surplus pair pairs trimmed num (some n) (k, e, less, within, over) =
    let shift : suc k + 1 ≡ suc (k + 1) = omega arith in
    let more : work_of_first (suc k + 1) (pair ∷ pairs)
        ≡ pair.credit.difficulty + work_of_first (k + 1) pairs =
      ap (λ m. work_of_first m (pair ∷ pairs)) shift in
    (suc k, omega arith, omega arith, omega arith, omega arith)

flat-IsTrimFrom :
    (surplus : ℕ) (pairs : List CreditAndProof) (trimmed num : ℕ)
    → trimmed ≤ surplus
    → trimmed + work_of_first (length pairs) pairs < u160_mod
    → num + length pairs < u32_mod
    → IsTrimFrom surplus pairs trimmed num (flat_trim surplus pairs trimmed num)
flat-IsTrimFrom surplus [] trimmed num le small few = omega arith
flat-IsTrimFrom surplus (pair ∷ pairs) trimmed num le small few =
    let next = trimmed + pair.credit.difficulty in
    let e : next % u160_mod ≡ next = omega arith in
    let f : (num + 1) % u32_mod ≡ num + 1 = omega arith in
    rw (e, f)
      (elim (Bool-cases (ltb surplus next)) [
        | inl over ↦ rw over (0, omega arith, omega arith, omega arith, ground (arith, over))
        | inr within ↦ rw within (
            step-IsTrimFrom surplus pair pairs trimmed num (flat_trim surplus pairs next (num + 1))
              (flat-IsTrimFrom surplus pairs next (num + 1) (ground (arith, within)) (omega arith)
                (omega arith)))
      ])

from_start :
    (surplus : ℕ) (pairs : List CreditAndProof) (o : Option ℕ)
    → IsTrimFrom surplus pairs 0 0 o
    → IsTrim surplus pairs o
from_start surplus pairs none h = omega arith
from_start surplus pairs (some n) (k, e, less, within, over) =
    let same : n ≡ k = omega arith in rw same (less, omega arith, omega arith)

trim_lists-IsTrim :
    (surplus : ℕ) (lists : List (List CreditAndProof))
    → work_of_first (length (all_credits lists)) (all_credits lists) < u160_mod
    → length (all_credits lists) < u32_mod
    → IsTrim surplus (all_credits lists) (trim_lists surplus lists 0 0)
trim_lists-IsTrim surplus lists small few =
    let pairs = all_credits lists in
    rw (lists_flat surplus lists 0 0) (
      from_start surplus pairs (flat_trim surplus pairs 0 0)
        (flat-IsTrimFrom surplus pairs 0 0 (omega arith) (omega arith) (omega arith)))

-- The calendar after a number of credits is dropped, if there is one.
abbrev pub dropped : Option ℕ → Calendar → Calendar
dropped none c = c
dropped (some n) c = record c { extra_work = drop_top_up_work_credits n 0 c.extra_work }

-- The work of the last credit and of those before it.
abbrev pub credit_work : CalendarData → Calendar → ℕ
credit_work stored c =
    let last = stored.credits (last_mined_credit_hash c) in
    (last.total_work + last.difficulty) % u160_mod

-- Where the total work of a calendar is greater than the work of its credits, and the work and the number
-- of the credits in extra_work do not wrap around: TrimTopUpWork asks DropTopUpWorkCredits to drop the
-- greatest number of credits from the first on whose work is within the surplus. Where the work of all
-- of them is, it drops none.
pub trim_top_up_work-IsTrim :
    (stored : CalendarData) (c : Calendar) (work : ℕ)
    → total_work c ≡ some work
    → credit_work stored c < work
    → work_of_first (length (all_credits c.extra_work)) (all_credits c.extra_work) < u160_mod
    → length (all_credits c.extra_work) < u32_mod
    → (n : Option ℕ) × IsTrim (work - credit_work stored c) (all_credits c.extra_work) n
      × (trim_top_up_work stored c ≡ ok (dropped n c))
unfolding trim_top_up_work
trim_top_up_work-IsTrim stored c work e less small few =
    let surplus = work - credit_work stored c in
    let over : leb work (credit_work stored c) ≡ false = ground (arith, less) in
    let n = trim_lists surplus c.extra_work 0 0 in
    (
      n,
      trim_lists-IsTrim surplus c.extra_work small few,
      rw (e, trim_top_up_work)
          (rw over (elim (Option-cases n) [
            | inl none_over ↦ rw (none_over, trim_top_up_work) refl
            | inr (k, found) ↦ rw (found, trim_top_up_work) refl
          ])),
    )
