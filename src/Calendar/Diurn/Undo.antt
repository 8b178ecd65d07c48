-- ===== src/Calendar/Diurn/Undo.antt =====
-- Diurn_::RemoveLast after Diurn_::Add.
use flex.Common.{ℕ, ◌+◌, ◌<◌, ◌≡◌, refl, sym, ap, Option, some, List, [], ◌∷◌, ◌++◌, arith}
use flex.HashTrees.DiurnalBlock
use flex.HashTrees.DiurnalBlock.{DiurnalBlock, without_last, new_tree}
use flex.Calendar.{MinedCreditMessage}
use flex.Calendar.Difficulty.{ℤ, ◌+ℤ◌, get_difficulty}
use flex.Calendar.Difficulty.Infer.{apply_adjustments-get_difficulty}
use flex.Calendar.Diurn.{Diurn, add, remove_last, pop_back}

without_last-append : (hashes : List ℕ) (hash : ℕ) → without_last (hashes ++ hash ∷ []) ≡ hashes
unfolding without_last
without_last-append [] hash = refl
without_last-append (x ∷ []) hash = refl
without_last-append (x ∷ y ∷ hashes) hash =
    ap (λ rest. x ∷ rest) (without_last-append (y ∷ hashes) hash)

pop_back-append :
    (msgs : List MinedCreditMessage) (msg : MinedCreditMessage) → pop_back (msgs ++ msg ∷ []) ≡ msgs
unfolding pop_back
pop_back-append [] msg = refl
pop_back-append (x ∷ []) msg = refl
pop_back-append (x ∷ y ∷ msgs) msg = ap (λ rest. x ∷ rest) (pop_back-append (y ∷ msgs) msg)

remove_last_block :
    (hashes : List ℕ) (hash : ℕ) (tree : Option _)
    → DiurnalBlock.remove_last (record { hashes = hashes ++ hash ∷ []; tree = tree })
      ≡ some (record { hashes = hashes; tree = some (new_tree hashes) })
unfolding DiurnalBlock.remove_last
remove_last_block [] hash tree = unfold without_last in refl
remove_last_block (x ∷ hashes) hash tree =
    ap (λ xs. some (record { hashes = xs; tree = some (new_tree xs) }))
      (without_last-append (x ∷ hashes) hash)

back : (n : ℕ) → ℤ.pos (n + 1) +ℤ ℤ.negsuc 0 ≡ ℤ.pos n
back n = ground arith

-- Add to a diurn whose difficulty is that after n downward adjustments, where n + 1 adjustments leave
-- more than zero, succeeds with fuel for n + 2 rounds, and so does RemoveLast after it. Together they
-- restore the credits, the hashes and the difficulty, and build the tree anew.
pub remove_last-add :
    (messages : ℕ → MinedCreditMessage) (fuel n credit_hash : ℕ) (diurn : Diurn)
    → diurn.current_difficulty ≡ get_difficulty (ℤ.pos n)
    → 0 < get_difficulty (ℤ.pos n)
    → 0 < get_difficulty (ℤ.pos (n + 1))
    → n + 1 < fuel
    → (added : Diurn) × (add messages fuel credit_hash diurn ≡ some added)
      × (added.current_difficulty ≡ get_difficulty (ℤ.pos (n + 1)))
      × (remove_last fuel added
          ≡ some (record diurn {
            diurnal_block = record {
              hashes = diurn.diurnal_block.hashes;
              tree = some (new_tree diurn.diurnal_block.hashes);
            };
          }))
remove_last-add messages fuel n credit_hash diurn at p q h =
    let added : Diurn = record diurn {
      diurnal_block = DiurnalBlock.add credit_hash diurn.diurnal_block;
      credits_in_diurn = diurn.credits_in_diurn ++ messages credit_hash ∷ [];
      current_difficulty = get_difficulty (ℤ.pos (n + 1));
    } in
    let up = apply_adjustments-get_difficulty fuel n (ℤ.pos 1) p (omega arith) in
    let down = apply_adjustments-get_difficulty fuel (n + 1) (ℤ.negsuc 0) q h in
    (
      added,
      unfold add in rw (at, up, add) refl,
      refl,
      unfold remove_last DiurnalBlock.add in
          rw
            (
              remove_last_block diurn.diurnal_block.hashes credit_hash
                  (some (new_tree (diurn.diurnal_block.hashes ++ credit_hash ∷ []))),
              remove_last,
              down,
              remove_last,
              pop_back-append diurn.credits_in_diurn (messages credit_hash),
              back n,
              sym at,
            )
            refl,
    )
