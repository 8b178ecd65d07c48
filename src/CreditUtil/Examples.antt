-- ===== src/CreditUtil/Examples.antt =====
-- Two chains of credits that fork, and what the theorems say of them.
use flex.Common.{
  ℕ, zero, suc, ◌≤◌, ◌≡◌, ◌≢◌, refl, true, false, some, none, List, [], ◌∷◌, arith, ltb, ◌==◌,
  if◌then◌else◌, ◌&&◌,
}
use flex.BitChain.{BitChain, empty_chain, get}
use flex.BitChain.Row.{Row, Op, bit_at}
use flex.BitChain.Refine.{IsChain, on_chain_each, empty-Represents}
use flex.StdMap.{lookup, put}
use flex.BitChain.Hash.{each-Represents}
use flex.CreditUtil.{
  History, fork_loop, get_fork, change_spent_chain, get_bits_set_in_batch, get_bits_set_by_txs,
  positions_of,
}
use flex.CreditUtil.Ancestors.{IsHistory, before, before_end}
use flex.CreditUtil.Rounds.{IsFork}
use flex.CreditUtil.Fork.{get_fork-IsFork}
use flex.CreditUtil.Calends.{
  CalendData, ends_at, get_calend_credit_hash, get_credit_hashes_since_calend, reverse,
}
use flex.RelayState.{empty}
use flex.CreditUtil.Batches.{BatchData, reconstruct_batch, spent_chain_length}
use flex.CreditUtil.Length.{end_of_each, spent_chain_length-reconstruct_batch}
use flex.CreditUtil.Since.{any_ends, chain_down, hashes_since_calend}
use flex.CreditUtil.Spent.{times_spent}
use flex.CreditUtil.Change.{change_spent_chain-get}
use flex.Credits.Transaction.{UnsignedTransaction}

-- The credit 1 comes before 2 and 3, and 2 before 4.
abbrev parent : ℕ → ℕ
parent n = if n == 2 then 1 else if n == 3 then 1 else if n == 4 then 2 else 0

abbrev number : ℕ → ℕ
number n = if n == 2 then 1 else if n == 3 then 1 else if n == 4 then 2 else 0

abbrev spending : ℕ → UnsignedTransaction
spending position = record {
  inputs =
      record {
        credit = record { amount = 5; public_key = 1 };
        position = position;
        branch = [];
        diurn_branch = [];
      }
      ∷ [];
  outputs = [];
  pubkeys = [];
  up_to_date = false;
  hash = 0;
}

-- The credit 1 has a transaction that spends the position 2, the credit 3 one for 0, the credit 4 one for 1.
abbrev forked : History
forked = record {
  previous = parent;
  batch_number = number;
  batch_hashes =
      λ n. if n == 1 then 10 ∷ [] else if n == 3 then 30 ∷ [] else if n == 4 then 40 ∷ [] else [];
  transaction = λ n.
      if n == 10
      then some (spending 2)
      else if n == 30
      then some (spending 0)
      else if n == 40
      then some (spending 1)
      else none;
  spent_chain_length = λ n. 5;
}

forked-IsHistory : IsHistory forked
unfolding get_bits_set_in_batch get_bits_set_by_txs positions_of
forked-IsHistory = record { root = refl; nothing_spent = refl; rising = λ n h. ground arith }

after_three : (k : ℕ) → before forked (suc (suc k)) 3 ≡ 0
after_three k = before_end forked forked-IsHistory (suc (suc k)) 3 (omega arith)

after_four : (j : ℕ) → before forked (suc (suc (suc j))) 4 ≡ 0
after_four j = before_end forked forked-IsHistory (suc (suc (suc j))) 4 (omega arith)

forked-latest :
    (j k : ℕ) → before forked j 4 ≡ before forked k 3 → before forked j 4 ≢ 0 → (2 ≤ j) × (1 ≤ k)
forked-latest zero zero e n = absurd (omega (arith, e))
forked-latest zero (suc zero) e n = absurd (omega (arith, e))
forked-latest zero (suc (suc k)) e n = absurd (omega (arith, e, after_three k))
forked-latest (suc zero) zero e n = absurd (omega (arith, e))
forked-latest (suc zero) (suc zero) e n = absurd (omega (arith, e))
forked-latest (suc zero) (suc (suc k)) e n = absurd (omega (arith, e, after_three k))
forked-latest (suc (suc zero)) zero e n = absurd (omega (arith, e))
forked-latest (suc (suc zero)) (suc k) e n = omega arith
forked-latest (suc (suc (suc j))) k e n = absurd (n (after_four j))

forked-IsFork : IsFork forked 4 3 2 1
forked-IsFork = record {
  meet = refl;
  real = omega arith;
  latest = λ j k e n. forked-latest j k e n;
}

get_fork-IsFork_example : (steps : ℕ) × (get_fork forked 5 4 3 ≡ some (1, steps))
get_fork-IsFork_example =
    get_fork-IsFork forked forked-IsHistory 5 4 3 2 1 (omega arith) (omega arith) (omega arith)
      forked-IsFork

abbrev start_row : Row
start_row = true ∷ false ∷ true ∷ []

abbrev start_ops : List Op
start_ops = Op.grow ∷ Op.grow ∷ Op.grow ∷ Op.mark 0 ∷ Op.mark 2 ∷ []

abbrev start_chain : BitChain
start_chain = on_chain_each start_ops empty_chain

fork_of_three : get_fork forked 5 3 4 ≡ some (1, 1)
unfolding get_fork fork_loop lookup put
fork_of_three = refl

start_bits : (p : ℕ) → bit_at p start_row ≡ ltb 0 (times_spent forked forked-IsHistory p 3)
unfolding get_bits_set_in_batch get_bits_set_by_txs positions_of
start_bits zero = refl
start_bits (suc zero) = refl
start_bits (suc (suc zero)) = refl
start_bits (suc (suc (suc p))) = ground arith

change_spent_chain-get_example :
    (chain' : BitChain) × (change_spent_chain forked 5 start_chain 3 4 ≡ (true, chain'))
    × (chain'.length_in_bits ≡ 5)
    × IsChain chain'
    × (get 1 chain' ≡ (ltb 1 5 && ltb 0 (times_spent forked forked-IsHistory 1 4)))
unfolding get_bits_set_in_batch get_bits_set_by_txs positions_of
change_spent_chain-get_example =
    change_spent_chain-get forked 5 3 4 1 1 1 2 start_chain start_row 1 forked-IsHistory
      fork_of_three refl refl (omega arith) (omega arith)
      (each-Represents start_ops empty_chain [] empty-Represents) start_bits (λ p. ground arith)
      (λ p. ground arith)

abbrev with_calends : CalendData
with_calends = record {
  history = forked;
  has_msg = λ n. true;
  difficulty_achieved = λ n. 0;
  diurnal_difficulty = λ n. 0;
  previous_diurn_root = λ n. 0;
  diurn_credit_hash = λ n. none;
}

hashes_since_calend_example :
    (m : ℕ) × (calend : ℕ) × (calend ≡ before forked (suc m) 4)
    × (get_calend_credit_hash with_calends [] 2 4 ≡ some calend)
    × (ends_at with_calends [] calend ≡ true)
    × (any_ends with_calends [] (chain_down forked m 2) ≡ false)
    × (get_credit_hashes_since_calend forked 2 calend 4
        ≡ some (reverse (chain_down forked (suc m) 4)))
hashes_since_calend_example =
    hashes_since_calend with_calends [] forked-IsHistory refl 4 (omega arith) refl

-- A message with the outputs of a transaction and a mined credit of the same bytes.
abbrev batches : BatchData
batches = record {
  calends = with_calends;
  tx_outputs = λ n. if n == 10 then some (record { amount = 5; public_key = 1 } ∷ []) else none;
  mined_credit = λ n. some (record { amount = 5; public_key = 1 });
  msg_offset = λ n. 4;
  msg_previous = λ n. 2;
  msg_hashes = λ n. 10 ∷ 3 ∷ [];
  relay_state = λ n. empty;
  join_credit_hash = λ n. 0;
  join_key = λ n. 0;
  relay_fee = 1;
  key_bytes = λ point. point ∷ [];
}

spent_chain_length-reconstruct_batch_example :
    spent_chain_length batches 4 [] ≡ end_of_each (reconstruct_batch batches 4 [])
spent_chain_length-reconstruct_batch_example = spent_chain_length-reconstruct_batch batches 4 []
