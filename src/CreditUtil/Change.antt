-- ===== src/CreditUtil/Change.antt =====
-- ChangeSpentChain takes the spent chain of one credit to that of another.
use flex.Common.{ℕ, ◌+◌, ◌≤◌, ◌<◌, ◌≡◌, ap, ◌∙◌, true, ◌&&◌, some, List, arith, ltb}
use flex.BitChain.{BitChain, get, set_length, set_each, clear_each}
use flex.BitChain.Row.{Row, bit_at, on_row_each}
use flex.BitChain.Refine.{IsChain, Represents, on_chain_each}
use flex.BitChain.Hash.{different_ops, different_chain, each-Represents, get-bit_at}
use flex.BitChain.Changed.{bit_at-different, length-different}
use flex.CreditUtil.{History, get_fork, get_spent_chain_differences, change_spent_chain}
use flex.CreditUtil.Ancestors.{IsHistory, before}
use flex.CreditUtil.Spent.{times_spent, among-occurrences, differences_balance}

change_spent_chain_step :
    (history : History) (fuel start target : ℕ) (chain : BitChain) (to_set to_clear : List ℕ)
    → get_spent_chain_differences history fuel start target ≡ some (to_set, to_clear)
    → 0 < history.spent_chain_length target
    → change_spent_chain history fuel chain start target ≡ (
      true,
      clear_each to_clear (set_each to_set (set_length (history.spent_chain_length target) chain)),
    )
unfolding change_spent_chain
change_spent_chain_step history fuel start target chain to_set to_clear ok pos =
    rw (ok, change_spent_chain) (ground (arith, pos))

-- The spent chain of a credit holds a bit for each position, which says whether the chain of credits
-- that ends there spends it. Where no position is spent twice in either chain, the fork that GetFork
-- returns stands d1 and d2 credits before the two credits, together at most 300, and SpentChainLength
-- of the target is not zero, ChangeSpentChain returns true and the spent chain of the target: a bit is
-- set exactly if it lies within the new length and the chain of the target spends it.
pub change_spent_chain-get :
    (history : History) (fuel start target fork steps d1 d2 : ℕ) (chain : BitChain) (row : Row)
    (q : ℕ) (h : IsHistory history)
    → get_fork history fuel start target ≡ some (fork, steps)
    → before history d1 start ≡ fork
    → before history d2 target ≡ fork
    → d1 + d2 ≤ 300
    → 0 < history.spent_chain_length target
    → Represents chain row
    → ((p : ℕ) → bit_at p row ≡ ltb 0 (times_spent history h p start))
    → ((p : ℕ) → times_spent history h p start ≤ 1)
    → ((p : ℕ) → times_spent history h p target ≤ 1)
    → (chain' : BitChain) × (change_spent_chain history fuel chain start target ≡ (true, chain'))
      × (chain'.length_in_bits ≡ history.spent_chain_length target)
      × IsChain chain'
      × (get q chain'
          ≡ (ltb q (history.spent_chain_length target) && ltb 0 (times_spent history h q target)))
change_spent_chain-get history fuel start target fork steps d1 d2 chain row q h found e1 e2 near pos
      r bits once1 once2 =
    let (to_set, to_clear, ok, counts, apart) =
      differences_balance history h fuel start target fork steps d1 d2 found e1 e2 near in
    let n = history.spent_chain_length target in
    let ops = different_ops to_set to_clear n in
    let after = each-Represents ops chain row r in
    let same = different_chain to_set to_clear n chain in
    (
      on_chain_each ops chain,
      change_spent_chain_step history fuel start target chain to_set to_clear ok pos
          ∙ ap (λ c. (true, c)) same,
      after.same_length ∙ length-different to_set to_clear n row,
      after.chain,
      get-bit_at q (on_chain_each ops chain) (on_row_each ops row) after
          ∙ bit_at-different q to_set to_clear n row
          ∙ ground (
            arith,
            bits q,
            among-occurrences q to_set,
            among-occurrences q to_clear,
            counts q,
            apart q,
            once1 q,
            once2 q,
          ),
    )
