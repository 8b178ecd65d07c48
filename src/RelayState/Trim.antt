-- ===== src/RelayState/Trim.antt =====
-- RelayState::TrimRelays and AddRelay: the relays with the highest numbers are remembered.
use Prim.Native.Nat.{min}
use flex.Common.{
  ℕ, zero, suc, ◌+◌, ◌%◌, ◌≤◌, ◌<◌, ◌≡◌, refl, ◌∙◌, inl, inr, false, none, some, List, [], ◌∷◌,
  arith, ltb, length, Bool-cases,
}
use flex.StdMap.{lookup, erase}
use flex.StdMap.Laws.{lookup-erase, lookup-put, length-put_new}
use flex.StdMap.Order.{IsSorted, erase-IsSorted, put-IsSorted, length-erase, first_entry}
use flex.Exceptions.{ok}
use flex.RelayState.Platform.{Env, Point, u32_mod}
use flex.RelayState.Numbering.{
  minimum_number, minimum_number_lower, minimum_number_attained, lookup-find_number,
}
use flex.RelayState.{
  RelayState, relay, oldest_relay, erase_each, predecessors, erase_relay,
  remove_relay_from_successors, remove_relay, trim_relays, add_relay, enrol,
}

-- OldestRelay starts its search at 1,000,000,000: the numbers stay below.
pub record IsNumbered (s : RelayState) : Type 0 where
  pub sorted : IsSorted s.relays
  pub small : (k n : ℕ) → lookup k s.relays ≡ some n → n < 1_000_000_000

-- `t` is `s` without some of its oldest relays.
pub record KeepsNewest (s t : RelayState) : Type 0 where
  pub kept : (k n : ℕ) → lookup k t.relays ≡ some n → lookup k s.relays ≡ some n
  pub older :
      (i j a b : ℕ)
      → lookup i s.relays ≡ some a
      → lookup i t.relays ≡ none
      → lookup j t.relays ≡ some b
      → a ≤ b

relays-erase_each : (keys : List Point) (s : RelayState) → (erase_each keys s).relays ≡ s.relays
unfolding erase_each
relays-erase_each [] s = refl
relays-erase_each (key ∷ keys) s = relays-erase_each keys _

latest-erase_each :
    (keys : List Point) (s : RelayState)
    → (erase_each keys s).latest_relay_number ≡ s.latest_relay_number
unfolding erase_each
latest-erase_each [] s = refl
latest-erase_each (key ∷ keys) s = latest-erase_each keys _

pub after_removal : Point → RelayState → RelayState
after_removal point s = remove_relay_from_successors point (erase_relay point s)

pub relays-after_removal :
    (point : Point) (s : RelayState) → (after_removal point s).relays ≡ erase point s.relays
unfolding after_removal remove_relay_from_successors erase_relay
relays-after_removal point s =
    relays-erase_each (predecessors point (erase_relay point s).line_of_succession)
      (erase_relay point s)

pub latest-after_removal :
    (point : Point) (s : RelayState)
    → (after_removal point s).latest_relay_number ≡ s.latest_relay_number
unfolding after_removal remove_relay_from_successors erase_relay
latest-after_removal point s =
    latest-erase_each (predecessors point (erase_relay point s).line_of_succession)
      (erase_relay point s)

remove_relay_present :
    (point : Point) (n : ℕ) (s : RelayState)
    → lookup point s.relays ≡ some n
    → remove_relay point false s ≡ ok (after_removal point s)
unfolding remove_relay after_removal
remove_relay_present point n s h = rw h

-- OldestRelay finds a relay with the least number.
pub oldest_relay_lem :
    (env : Env) (s : RelayState)
    → IsNumbered s
    → 0 < length s.relays
    → (n : ℕ) × (lookup (oldest_relay env s) s.relays ≡ some n)
      × ((k m : ℕ) → lookup k s.relays ≡ some m → n ≤ m)
unfolding oldest_relay relay
oldest_relay_lem env s v h =
    let least : ℕ = minimum_number 1_000_000_000 s.relays in
    let (k₀, n₀, e₀) = first_entry s.relays h in
    elim (minimum_number_attained 0 1_000_000_000 s.relays v.sorted) [
      | inl e ↦
          absurd (
            omega
              (arith, e, minimum_number_lower 1_000_000_000 k₀ n₀ s.relays e₀, v.small k₀ n₀ e₀))
      | inr (k, e) ↦ (
        least,
        lookup-find_number 0 env.generator least k s.relays v.sorted e,
        λ j m p. minimum_number_lower 1_000_000_000 j m s.relays p,
      )
    ]

removal-IsNumbered :
    (point : Point) (s : RelayState) → IsNumbered s → IsNumbered (after_removal point s)
removal-IsNumbered point s v = record {
  sorted = rw relays-after_removal (erase-IsSorted point s.relays v.sorted);
  small = λ k n h.
      ground (arith, relays-after_removal point s, lookup-erase k point s.relays, v.small k n);
}

KeepsNewest-removal :
    (point : Point) (n : ℕ) (s t : RelayState)
    → lookup point s.relays ≡ some n
    → ((k m : ℕ) → lookup k s.relays ≡ some m → n ≤ m)
    → KeepsNewest (after_removal point s) t
    → KeepsNewest s t
KeepsNewest-removal point n s t e least r = record {
  kept = λ k m h.
      ground (arith, relays-after_removal point s, lookup-erase k point s.relays, r.kept k m h);
  older = λ i j a b hi gone hj. ground (
    arith,
    relays-after_removal point s,
    lookup-erase i point s.relays,
    lookup-erase j point s.relays,
    r.kept j b hj,
    r.older i j a b,
    least j b,
  );
}

-- TrimRelays ends, throws nothing, and leaves the newest relays, as many as fit.
pub trim_relays_lem :
    (env : Env) (fuel : ℕ) (s : RelayState)
    → IsNumbered s
    → length s.relays ≤ fuel
    → (t : RelayState) × (trim_relays env fuel s ≡ ok t)
      × (length t.relays ≡ min (length s.relays) env.max_relays_remembered)
      × (t.latest_relay_number ≡ s.latest_relay_number)
      × IsSorted t.relays
      × KeepsNewest s t
unfolding trim_relays
trim_relays_lem env zero s v h = (
  s,
  ground arith,
  omega arith,
  refl,
  v.sorted,
  record { kept = λ k n p. p; older = λ i j a b hi gone hj. absurd (ground arith) },
)
trim_relays_lem env (suc fuel) s v h =
    elim (Bool-cases (ltb env.max_relays_remembered (length s.relays))) [
      | inr fits ↦ (
        s,
        rw fits,
        ground arith,
        refl,
        v.sorted,
        record { kept = λ k n p. p; older = λ i j a b hi gone hj. absurd (ground arith) },
      )
      | inl full ↦
          let (n, e, least) = oldest_relay_lem env s v (ground arith) in
          let point : Point = oldest_relay env s in
          let shorter = length-erase 0 point n s.relays v.sorted e in
          let rest =
            trim_relays_lem env fuel (after_removal point s) (removal-IsNumbered point s v)
              (rw relays-after_removal (omega (arith, shorter))) in
          (
            rest.0,
            rw (full, remove_relay_present point n s e) rest.1,
            ground (arith, rest.2, relays-after_removal point s, shorter),
            rest.3 ∙ latest-after_removal point s,
            rest.4,
            KeepsNewest-removal point n s rest.0 e least rest.5,
          )
    ]

enrol-IsNumbered :
    (point : Point) (join_hash : ℕ) (s : RelayState)
    → IsNumbered s
    → s.latest_relay_number < 999_999_999
    → IsNumbered (enrol point join_hash s)
unfolding enrol
enrol-IsNumbered point join_hash s v h = record {
  sorted = put-IsSorted point _ s.relays v.sorted;
  small = λ k n p.
      ground
        (arith, lookup-put k point ((s.latest_relay_number + 1) % u32_mod) s.relays, v.small k n);
}

-- AddRelay of a new relay, with fewer than 999,999,999 relays before it, ends and throws nothing.
-- It raises the latest number by one, and leaves as many relays as MAX_RELAYS_REMEMBERED allows.
-- Each of them is a relay of before, with its number, or the new one under the latest number, and no
-- relay that was dropped has a greater number than one that stayed.
pub add_relay-KeepsNewest :
    (env : Env) (point : Point) (join_hash : ℕ) (s : RelayState)
    → IsNumbered s
    → s.latest_relay_number < 999_999_999
    → lookup point s.relays ≡ none
    → (t : RelayState) × (add_relay env point join_hash s ≡ ok t)
      × (length t.relays ≡ min (length s.relays + 1) env.max_relays_remembered)
      × (t.latest_relay_number ≡ s.latest_relay_number + 1)
      × IsNumbered t
      × KeepsNewest (enrol point join_hash s) t
unfolding add_relay
add_relay-KeepsNewest env point join_hash s v h new =
    let enrolled : RelayState = enrol point join_hash s in
    let numbered = enrol-IsNumbered point join_hash s v h in
    let (t, e, size, latest, sorted, newest) =
      trim_relays_lem env (length enrolled.relays) enrolled numbered (omega arith) in
    (
      t,
      rw new e,
      unfold enrol in
          omega (
            arith,
            size,
            length-put_new point ((s.latest_relay_number + 1) % u32_mod) s.relays new,
          ),
      unfold enrol in omega (arith, latest),
      record { sorted = sorted; small = λ k n p. numbered.small k n (newest.kept k n p) },
      newest,
    )
