-- ===== src/RelayState/Selection/Executors.antt =====
-- Executors and Successor: which relays act for a relay.
use flex.Common.{
  ℕ, ◌+◌, ◌-◌, ◌<◌, ◌≤◌, none, false, ◌≡◌, ◌⊎◌, inl, inr, refl, sym, ◌∙◌, some, List, [], ◌∷◌,
  arith, leb, ltb, suc, ◌≢◌, ◌==◌, if◌then◌else◌, length, All, get_or, Bool-cases, Option-cases,
}
use flex.StdMap.{Map, lookup, put}
use flex.StdMap.Laws.{lookup-put}
use flex.StdMap.Order.{From, IsSorted}
use flex.RelayState.Platform.{Env, Point, infinity, u32_mod}
use flex.RelayState.Numbering.{numbered, lookup_above}
use flex.RelayState.{RelayState, relays_by_number}
use flex.RelayState.Selection.{executors_at, executors, successor_number}

-- What RelaysByNumber holds under a number is a relay of that number.
numbered_lem :
    (low n p : ℕ) (m by_number : Map ℕ)
    → From low m
    → lookup n (numbered m by_number) ≡ some p
    → (lookup p m ≡ some n) ⊎ (lookup n by_number ≡ some p)
unfolding numbered
numbered_lem low n p [] by_number f h = inr h
numbered_lem low n p ((key, x) ∷ m) by_number f h =
    elim (numbered_lem (key + 1) n p m (put x key by_number) f.1 h) [
      | inl e ↦ inl (lookup_above key p x n m f.1 e)
      | inr e ↦ elim (Bool-cases (n == x)) [
        | inl same ↦ inl (unfold lookup in ground (arith, lookup-put n x key by_number))
        | inr other ↦ inr (sym (rw (lookup-put, other)) ∙ e)
      ]
    ]

pub relays_by_number_lem :
    (n p : ℕ) (s : RelayState)
    → IsSorted s.relays
    → lookup n (relays_by_number s) ≡ some p
    → lookup p s.relays ≡ some n
unfolding relays_by_number
relays_by_number_lem n p s f h = elim (numbered_lem 0 n p s.relays [] f h) [
  | inl e ↦ e
  | inr e ↦ absurd (unfold lookup in ground arith)
]

-- The point at infinity, or a relay whose number is less than `relay_number`.
abbrev pub IsEarlier : RelayState → ℕ → Point → Type 0
IsEarlier s relay_number p =
    (p ≡ infinity) ⊎ ((n : ℕ) × (lookup p s.relays ≡ some n) × (n < relay_number))

executor_IsEarlier :
    (s : RelayState) (relay_number n : ℕ)
    → IsSorted s.relays
    → n < relay_number
    → IsEarlier s relay_number (get_or (lookup n (relays_by_number s)) infinity)
executor_IsEarlier s relay_number n f h = elim (Option-cases (lookup n (relays_by_number s))) [
  | inl e ↦ inl (rw e)
  | inr (p, e) ↦ rw e (inr (n, relays_by_number_lem n p s f e, h))
]

-- Where RelaysByNumber holds nothing under a number, no relay has it.
numbered_none :
    (n : ℕ) (m by_number : Map ℕ)
    → lookup n (numbered m by_number) ≡ none
    → (lookup n by_number ≡ none) × ((q : Point) → lookup q m ≢ some n)
unfolding numbered lookup
numbered_none n [] by_number h = (h, λ q e. absurd (ground (arith, e)))
numbered_none n ((key, x) ∷ m) by_number h =
    let rest = numbered_none n m (put x key by_number) h in
    let differs : (n == x) ≡ false = ground (arith, rest.0, lookup-put n x key by_number) in
    (
      ground (arith, rest.0, differs, lookup-put n x key by_number),
      λ q e. elim (Bool-cases (q == key)) [
        | inl is ↦ absurd (ground (arith, e, is, differs))
        | inr isnt ↦ rest.1 q (ground (arith, e, isnt))
      ],
    )

-- A relay with the number `n`, or the point at infinity where there is none.
abbrev pub IsRelayOf : RelayState → ℕ → Point → Type 0
IsRelayOf s n p =
    (lookup p s.relays ≡ some n) ⊎ ((p ≡ infinity) × ((q : Point) → lookup q s.relays ≢ some n))

relays_by_number-IsRelayOf :
    (n : ℕ) (s : RelayState)
    → IsSorted s.relays
    → IsRelayOf s n (get_or (lookup n (relays_by_number s)) infinity)
relays_by_number-IsRelayOf n s f = elim (Option-cases (lookup n (relays_by_number s))) [
  | inl e ↦ rw e (inr (refl, (numbered_none n s.relays [] (unfold relays_by_number in e)).1))
  | inr (p, e) ↦ rw e (inl (relays_by_number_lem n p s f e))
]

-- The points are, in the order of the offsets, the relays that many numbers before the relay, with
-- none for an offset that no positive number is before it.
abbrev pub AreExecutors : RelayState → ℕ → List ℕ → List Point → Type 0
AreExecutors s relay_number [] points = points ≡ []
AreExecutors s relay_number (offset ∷ offsets) points =
    ((relay_number ≤ offset) × AreExecutors s relay_number offsets points)
    ⊎ ((n : ℕ) × (p : Point) × (rest : List Point) × (0 < n)
        × (n + offset ≡ relay_number)
        × IsRelayOf s n p
        × (points ≡ p ∷ rest)
        × AreExecutors s relay_number offsets rest)

executors_at-AreExecutors :
    (offsets : List ℕ) (relay_number : ℕ) (s : RelayState)
    → IsSorted s.relays
    → AreExecutors s relay_number offsets (executors_at offsets relay_number (relays_by_number s))
unfolding executors_at
executors_at-AreExecutors [] relay_number s f = refl
executors_at-AreExecutors (offset ∷ offsets) relay_number s f =
    let rest = executors_at-AreExecutors offsets relay_number s f in
    let n = relay_number - offset in
    elim (Bool-cases (leb relay_number offset)) [
      | inl out ↦ rw out (inl (ground (arith, out), rest))
      | inr inside ↦ rw inside (
          inr (
            n,
            get_or (lookup n (relays_by_number s)) infinity,
            executors_at offsets relay_number (relays_by_number s),
            ground (arith, inside),
            ground (arith, inside),
            relays_by_number-IsRelayOf n s f,
            refl,
            rest,
          ))
    ]

-- How many of the offsets are less than the relay number.
abbrev pub offsets_below : ℕ → List ℕ → ℕ
offsets_below relay_number [] = 0
offsets_below relay_number (offset ∷ offsets) =
    let rest = offsets_below relay_number offsets in
    if ltb offset relay_number then suc rest else rest

executors_at_lem :
    (offsets : List ℕ) (relay_number : ℕ) (s : RelayState)
    → IsSorted s.relays
    → All (λ offset. 0 < offset) offsets
    → All (IsEarlier s relay_number) (executors_at offsets relay_number (relays_by_number s))
      × (length (executors_at offsets relay_number (relays_by_number s))
          ≡ offsets_below relay_number offsets)
unfolding executors_at
executors_at_lem [] relay_number s f h = (tt, refl)
executors_at_lem (offset ∷ offsets) relay_number s f h =
    let rest = executors_at_lem offsets relay_number s f h.1 in
    elim (Bool-cases (leb relay_number offset)) [
      | inl out ↦ rw out (rest.0, ground (arith, rest.1))
      | inr inside ↦ rw inside (
        (executor_IsEarlier s relay_number (relay_number - offset) f (ground arith), rest.0),
        ground (arith, rest.1),
      )
    ]

-- Where the relays are sorted and the offsets positive, the executors of a relay number are, for each
-- offset below it and in the order of the offsets, a relay whose number is less by this offset, or the
-- point at infinity where no relay has that number, and no others. So they are as many as the offsets
-- below the number, and each is the point at infinity or a relay with a lower number.
pub executors-IsEarlier :
    (env : Env) (relay_number : ℕ) (s : RelayState)
    → IsSorted s.relays
    → All (λ offset. 0 < offset) env.executor_offsets
    → AreExecutors s relay_number env.executor_offsets (executors env relay_number s)
      × All (IsEarlier s relay_number) (executors env relay_number s)
      × (length (executors env relay_number s) ≡ offsets_below relay_number env.executor_offsets)
unfolding executors
executors-IsEarlier env relay_number s f h =
    let earlier = executors_at_lem env.executor_offsets relay_number s f h in
    (executors_at-AreExecutors env.executor_offsets relay_number s f, earlier.0, earlier.1)

-- In either build, and for relay numbers from 1 up to 100 below the end of the 32-bit numbers: two
-- numbers with the same successor number are the same, and no number is its own successor number.
successor_number_injective :
    (env : Env) (a b : ℕ)
    → (env.future_successor_frequency ≡ 10) ⊎ (env.future_successor_frequency ≡ 30)
    → 0 < a
    → 0 < b
    → a + 100 < u32_mod
    → b + 100 < u32_mod
    → successor_number env a ≡ successor_number env b
    → (a ≡ b) × (successor_number env a ≢ a)
unfolding successor_number
successor_number_injective env a b (inl e) ha hb la lb =
    rw e (λ p. (ground arith, λ own. ground arith))
successor_number_injective env a b (inr e) ha hb la lb =
    rw e (λ p. (ground arith, λ own. ground arith))
