-- ===== src/RelayState/Selection/Chosen.antt =====
-- ChooseRelays: enough different eligible relays, up to the size of the pool.
use Prim.Native.Nat.{min}
use flex.Common.{
  ℕ, zero, suc, ◌+◌, ◌%◌, ◌≤◌, ◌<◌, ◌≡◌, refl, sym, ap, ◌∙◌, true, false, ◌&&◌, ◌||◌, some, List,
  [], ◌∷◌, ◌++◌, arith, ltb, ◌==◌, length, nat_eq, ==_iff, get_or, get_elem?, inl, inr, Bool-cases,
  length-append,
}
use flex.StdMap.{count}
use flex.StdMap.Order.{IsSorted}
use flex.VectorTools.{vector_contains_entry, erase_entry_from_vector}
use flex.VectorTools.Laws.{
  Distinct, length-erase_entry, contains-erase_entry_ne, contains-append, contains-erase_entry_self,
  erase_entry-Distinct,
}
use flex.RelayState.Platform.{Env, Point, infinity}
use flex.RelayState.{RelayState}
use flex.RelayState.Selection.{get_eligible_relays, getuint, trim_pool, choose_loop, choose_relays}
use flex.RelayState.Selection.Eligible.{get_eligible_relays-contains, get_eligible_relays-Distinct}
use flex.RelayState.Selection.Pool.{Within, get_elem_contained, trim_pool-IsPool}

-- What the loop keeps: the chosen and the eligible are different relays, none at infinity.
record IsChoosing (chosen eligible : List Point) : Type 0 where
  chosen_distinct : Distinct chosen
  eligible_distinct : Distinct eligible
  apart :
      (point : Point)
      → vector_contains_entry eligible point ≡ true
      → vector_contains_entry chosen point ≡ false
  finite : vector_contains_entry eligible infinity ≡ false

Distinct-snoc :
    (xs : List Point) (x : Point)
    → Distinct xs
    → vector_contains_entry xs x ≡ false
    → Distinct (xs ++ x ∷ [])
unfolding vector_contains_entry
Distinct-snoc [] x d h = (refl, tt)
Distinct-snoc (y ∷ xs) x d h = ground (arith, Distinct-snoc xs x d.1, contains-append y xs (x ∷ []))

contains-erase_entry-le :
    (x y : Point) (xs : List Point)
    → Distinct xs
    → vector_contains_entry (erase_entry_from_vector x xs) y ≡ true
    → (vector_contains_entry xs y ≡ true) × ((x == y) ≡ false)
contains-erase_entry-le x y xs d h = elim (Bool-cases (x == y)) [
  | inl same ↦
      let e : x ≡ y = (==_iff x y).0 same in
      cc (
        contains-erase_entry_self x xs d,
        ap (λ (z : ℕ). vector_contains_entry (erase_entry_from_vector x xs) z) e,
      )
  | inr other ↦ (sym (contains-erase_entry_ne x y xs other) ∙ h, other)
]

step-IsChoosing :
    (chosen eligible : List Point) (x : Point)
    → IsChoosing chosen eligible
    → vector_contains_entry eligible x ≡ true
    → IsChoosing (chosen ++ x ∷ []) (erase_entry_from_vector x eligible)
step-IsChoosing chosen eligible x v h = record {
  chosen_distinct = Distinct-snoc chosen x v.chosen_distinct (v.apart x h);
  eligible_distinct = erase_entry-Distinct x eligible v.eligible_distinct;
  apart = λ p e.
      let (there, differs) = contains-erase_entry-le x p eligible v.eligible_distinct e in
      rw contains-append (unfold vector_contains_entry in ground (arith, v.apart p there));
  finite = elim (Bool-cases (vector_contains_entry (erase_entry_from_vector x eligible) infinity)) [
    | inl bad ↦
        cc (v.finite, (contains-erase_entry-le x infinity eligible v.eligible_distinct bad).0)
    | inr good ↦ good
  ];
}

-- The relay that the hashed number picks.
abbrev pick : Env → ℕ → List Point → Point
pick env chooser eligible =
    get_or (get_elem? eligible (getuint env (env.hash_uint160 chooser) % length eligible)) infinity

pick_contained :
    (env : Env) (chooser : ℕ) (eligible : List Point)
    → 0 < length eligible
    → vector_contains_entry eligible (pick env chooser eligible) ≡ true
pick_contained env chooser eligible h = get_elem_contained _ eligible (omega arith)

not_infinity :
    (eligible : List Point) (x : Point)
    → vector_contains_entry eligible infinity ≡ false
    → vector_contains_entry eligible x ≡ true
    → (x == infinity) ≡ false
not_infinity eligible x finite h = elim (Bool-cases (x == infinity)) [
  | inl same ↦ cc (ap (vector_contains_entry eligible) ((==_iff x infinity).0 same))
  | inr other ↦ other
]

chosen_within :
    (chosen eligible : List Point) (x : Point)
    → IsChoosing chosen eligible
    → vector_contains_entry eligible x ≡ true
    → (p : Point)
    → (vector_contains_entry (chosen ++ x ∷ []) p
        || vector_contains_entry (erase_entry_from_vector x eligible) p)
      ≡ true
    → (vector_contains_entry chosen p || vector_contains_entry eligible p) ≡ true
chosen_within chosen eligible x v here p h = elim (Bool-cases (x == p)) [
  | inl same ↦
      let e : x ≡ p = (==_iff x p).0 same in ground (arith, ap (vector_contains_entry eligible) e)
  | inr other ↦
      unfold vector_contains_entry in
      ground (arith, contains-append p chosen (x ∷ []), contains-erase_entry_ne x p eligible other)
]

-- With fuel for each eligible relay the loop ends, with as many relays as it can.
choose_loop_lem :
    (env : Env) (fuel chooser required valid : ℕ) (chosen eligible : List Point)
    → IsChoosing chosen eligible
    → length eligible < fuel
    → length chosen ≤ min required valid
    → (result : List Point) × (choose_loop env fuel chooser required valid chosen eligible
        ≡ some result)
      × (length result ≡ min (min required valid) (length chosen + length eligible))
      × Distinct result
      × ((p : Point)
          → vector_contains_entry result p ≡ true
          → (vector_contains_entry chosen p || vector_contains_entry eligible p) ≡ true)
unfolding choose_loop
choose_loop_lem env zero chooser required valid chosen eligible v h k = absurd (omega arith)
choose_loop_lem env (suc fuel) chooser required valid chosen eligible v h k =
    elim (Bool-cases
      (ltb (length chosen) required && ltb (length chosen) valid && ltb 0 (length eligible))) [
        | inr stop ↦ (chosen, rw stop, ground (arith, stop), v.chosen_distinct, λ p e. rw e)
        | inl go ↦
            let x : Point = pick env chooser eligible in
            let here = pick_contained env chooser eligible (ground (arith, go)) in
            let shorter = length-erase_entry x eligible in
            let (result, e, size, distinct, within) =
              choose_loop_lem env fuel (env.hash_uint160 chooser) required valid (chosen ++ x ∷ [])
                (erase_entry_from_vector x eligible) (step-IsChoosing chosen eligible x v here)
                (ground (arith, shorter, here))
                (ground (arith, length-append chosen (x ∷ []), go)) in
            (
              result,
              rw (go, not_infinity eligible x v.finite here, v.apart x here) e,
              ground (arith, size, length-append chosen (x ∷ []), shorter, here, go),
              distinct,
              λ p q. chosen_within chosen eligible x v here p (within p q),
            )
      ]

pool-IsChoosing :
    (s : RelayState) (pool : List Point)
    → count infinity s.relays ≡ false
    → Distinct pool
    → Within pool (get_eligible_relays s)
    → IsChoosing [] pool
pool-IsChoosing s pool finite distinct within = record {
  chosen_distinct = tt;
  eligible_distinct = distinct;
  apart = λ p e. unfold vector_contains_entry in refl;
  finite = elim (Bool-cases (vector_contains_entry pool infinity)) [
    | inl bad ↦ ground (arith, within infinity bad, get_eligible_relays-contains s infinity)
    | inr good ↦ good
  ];
}

enough_test : (required n : ℕ) → required ≤ n → ltb n required ≡ false
enough_test required n h = ground arith

-- Where the point at infinity has not joined and at least `required` relays are eligible,
-- ChooseRelays ends, with fuel for each eligible relay, and returns different eligible relays:
-- `required` of them, or MAX_POOL_SIZE if that is less.
pub choose_relays-Distinct :
    (env : Env) (fuel chooser required : ℕ) (s : RelayState)
    → IsSorted s.relays
    → count infinity s.relays ≡ false
    → required ≤ length (get_eligible_relays s)
    → length (get_eligible_relays s) < fuel
    → (chosen : List Point) × (choose_relays env fuel chooser required s ≡ some chosen)
      × (length chosen ≡ min required env.max_pool_size)
      × Distinct chosen
      × Within chosen (get_eligible_relays s)
unfolding choose_relays vector_contains_entry
choose_relays-Distinct env fuel chooser required s sorted finite enough h =
    let eligible : List Point = get_eligible_relays s in
    let pool : List Point = trim_pool env.max_pool_size (length eligible) eligible in
    let v =
      trim_pool-IsPool env.max_pool_size (length eligible) eligible (omega arith)
        (get_eligible_relays-Distinct s sorted) in
    let (result, e, size, distinct, within) =
      choose_loop_lem env fuel chooser required (length eligible) [] pool
        (pool-IsChoosing s pool finite v.distinct v.within) (omega (arith, v.size)) (omega arith) in
    (
      result,
      rw (enough_test required (length eligible) enough) e,
      omega (arith, size, v.size),
      distinct,
      λ p q. v.within p (within p q),
    )
