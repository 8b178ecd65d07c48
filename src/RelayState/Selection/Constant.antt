-- ===== src/RelayState/Selection/Constant.antt =====
-- ChooseRelays and the word that CBigNum::getuint reads of a 160-bit hash. BN_get_word returns a word
-- of ones for a number that does not fit one.
use flex.Common.{
  ℕ, zero, suc, ◌-◌, ◌^◌, ◌≤◌, ◌≡◌, refl, List, [], ◌∷◌, ◌++◌, arith, length, ◌%◌, nat_eq, get_or,
  get_elem?,
}
use flex.RelayState.Platform.{Env, Point, u32_mod, infinity}
use flex.RelayState.{RelayState}
use flex.VectorTools.{erase_entry_from_vector}
use flex.RelayState.Selection.{getuint, choose_loop, choose_relays, get_eligible_relays}

-- The first `rounds` hashes of a chooser need more than 64 bits.
abbrev pub IsLarge : Env → ℕ → ℕ → Type 0
IsLarge env zero chooser = Unit
IsLarge env (suc rounds) chooser =
    (2 ^ 64 ≤ env.hash_uint160 chooser) × IsLarge env rounds (env.hash_uint160 chooser)

module _ (env : Env) (full : (n : ℕ) → 2 ^ 64 ≤ n → env.bn_get_word n ≡ 2 ^ 64 - 1) where
  getuint_large : (n : ℕ) → 2 ^ 64 ≤ n → getuint env n ≡ u32_mod - 1
  unfolding getuint
  getuint_large n h = rw (full n h)

  choose_loop_constant :
      (fuel c c' required valid : ℕ) (chosen eligible : List Point)
      → IsLarge env fuel c
      → IsLarge env fuel c'
      → choose_loop env fuel c required valid chosen eligible
        ≡ choose_loop env fuel c' required valid chosen eligible
  unfolding choose_loop
  choose_loop_constant zero c c' required valid chosen eligible h h' = refl
  choose_loop_constant (suc fuel) c c' required valid chosen eligible h h' =
      let x : Point = get_or (get_elem? eligible ((u32_mod - 1) % length eligible)) infinity in
      rw (getuint_large (env.hash_uint160 c) h.0, getuint_large (env.hash_uint160 c') h'.0)
        (ground (
          arith,
          choose_loop_constant fuel (env.hash_uint160 c) (env.hash_uint160 c') required valid
              (chosen ++ x ∷ []) (erase_entry_from_vector x eligible) h.1 h'.1,
          choose_loop_constant fuel (env.hash_uint160 c) (env.hash_uint160 c') required valid chosen
              eligible h.1 h'.1,
        ))

  -- Where BN_get_word returns a word of ones for numbers over 64 bits, two choosers whose hashes are
  -- all over 64 bits lead ChooseRelays to the same relays: the choice does not depend on the chooser.
  pub choose_relays_constant :
      (fuel c c' required : ℕ) (s : RelayState)
      → IsLarge env fuel c
      → IsLarge env fuel c'
      → choose_relays env fuel c required s ≡ choose_relays env fuel c' required s
  unfolding choose_relays
  choose_relays_constant fuel c c' required s h h' =
      rw (choose_loop_constant fuel c c' required (length (get_eligible_relays s)) [] _ h h')
