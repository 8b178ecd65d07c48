-- ===== src/Calendar/TopUp/Drop.antt =====
-- What DropTopUpWorkCredits drops: whole lists, from the front.
use flex.Common.{
  ℕ, zero, suc, ◌+◌, ◌-◌, ◌%◌, ◌^◌, ◌≤◌, ◌<◌, ◌≡◌, refl, ap, ◌⊎◌, inl, inr, true, List, [], ◌∷◌,
  arith, leb, length, All, Bool-cases,
}
use flex.RelayState.Platform.{u32_mod}
use flex.Calendar.TopUp.{CreditAndProof, drop_top_up_work_credits}

-- The first `k` lists emptied.
abbrev pub cleared : ℕ → List (List CreditAndProof) → List (List CreditAndProof)
cleared zero lists = lists
cleared (suc k) [] = []
cleared (suc k) (pairs ∷ lists) = [] ∷ cleared k lists

-- How many credits the first `k` lists hold.
abbrev pub held : ℕ → List (List CreditAndProof) → ℕ
held zero lists = 0
held (suc k) [] = 0
held (suc k) (pairs ∷ lists) = length pairs + held k lists

negative :
    (num dropped size : ℕ)
    → num < u32_mod
    → dropped ≤ num
    → num < dropped + size
    → size < 2 ^ 31
    → leb (2 ^ 31) ((num + 2 ^ 65 - dropped - size) % 2 ^ 64 % u32_mod) ≡ true
negative num dropped size n h more small = ground arith

drop_each :
    (num dropped : ℕ) (lists : List (List CreditAndProof))
    → num < u32_mod
    → dropped ≤ num
    → All (λ pairs. length pairs < 2 ^ 31) lists
    → (k : ℕ) × (drop_top_up_work_credits num dropped lists ≡ cleared k lists)
      × (dropped + held k lists ≤ num)
      × ((k ≡ length lists) ⊎ (num < dropped + held (suc k) lists))
unfolding drop_top_up_work_credits
drop_each num dropped [] n h v = (0, refl, omega arith, inl refl)
drop_each num dropped (pairs ∷ lists) n h v = elim (Bool-cases (leb (dropped + length pairs) num)) [
  | inl fits ↦
      let same : (dropped + length pairs) % u32_mod ≡ dropped + length pairs =
        ground (arith, fits) in
      let (k, e, le, last) =
        drop_each num (dropped + length pairs) lists n (ground (arith, fits)) v.1 in
      (
        suc k,
        rw (fits, same) (ap (λ rest. [] ∷ rest) e),
        omega (arith, le),
        elim last [ inl all ↦ inl (ap ℕ.suc all) | inr next ↦ inr (omega (arith, next)) ],
      )
  | inr full ↦ (
    0,
    rw (full, negative num dropped (length pairs) n h (ground (arith, full)) v.0) refl,
    omega arith,
    inr (ground (arith, full)),
  )
]

-- Of lists with fewer than 2^31 credits each, and a 32-bit number of credits to drop,
-- DropTopUpWorkCredits empties the first k lists and no part of another: they hold at most as many
-- credits as are to be dropped, and with the next list, if there is one, more.
pub drop_top_up_work_credits-cleared :
    (num : ℕ) (lists : List (List CreditAndProof))
    → num < u32_mod
    → All (λ pairs. length pairs < 2 ^ 31) lists
    → (k : ℕ) × (drop_top_up_work_credits num 0 lists ≡ cleared k lists)
      × (held k lists ≤ num)
      × ((k ≡ length lists) ⊎ (num < held (suc k) lists))
drop_top_up_work_credits-cleared num lists n v =
    let (k, e, le, last) = drop_each num 0 lists n (omega arith) v in
    (
      k,
      e,
      omega (arith, le),
      elim last [ inl all ↦ inl all | inr next ↦ inr (omega (arith, next)) ],
    )
