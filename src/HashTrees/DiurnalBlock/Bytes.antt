-- ===== src/HashTrees/DiurnalBlock/Bytes.antt =====
-- setvch reads what getvch writes.
use flex.Common.{
  ℕ, zero, suc, ◌/◌, ◌^◌, ◌≤◌, ◌<◌, ◌≡◌, refl, ap, ◌∙◌, some, List, [], ◌∷◌, ◌++◌, append_assoc,
  Option, arith, length, drop, All, length-append,
}
use flex.HashTrees.{bytes_of}
use flex.HashTrees.Node.{HashNode}
use flex.HashTrees.DiurnalBlock.{
  DiurnalBlock, new_tree, add, without_last, remove_last, getvch, number_of, add_each, remove_each,
  setvch,
}

pub number_of-bytes_of :
    (width n : ℕ) (more : List ℕ) → n < 256 ^ width → number_of width (bytes_of width n ++ more) ≡ n
unfolding number_of bytes_of
number_of-bytes_of zero n more h = omega arith
number_of-bytes_of (suc width) n more h =
    omega (arith, number_of-bytes_of width (n / 256) more (omega arith))

pub drop-bytes_of : (width n : ℕ) (more : List ℕ) → drop width (bytes_of width n ++ more) ≡ more
unfolding bytes_of
drop-bytes_of zero n more = refl
drop-bytes_of (suc width) n more = drop-bytes_of width (n / 256) more

length-bytes_of : (width n : ℕ) → length (bytes_of width n) ≡ width
unfolding bytes_of
length-bytes_of zero n = refl
length-bytes_of (suc width) n = omega (arith, length-bytes_of width (n / 256))

add_each_step :
    (fuel hash : ℕ) (more : List ℕ) (b : DiurnalBlock)
    → hash < 256 ^ 20
    → add_each (suc fuel) (bytes_of 20 hash ++ more) b ≡ add_each fuel more (add hash b)
unfolding add_each bytes_of
add_each_step fuel hash more b h =
    λ i. add_each fuel (drop-bytes_of 20 hash more i) (add (number_of-bytes_of 20 hash more h i) b)

nothing_left : (fuel : ℕ) (b : DiurnalBlock) → add_each fuel [] b ≡ b
unfolding add_each
nothing_left zero b = refl
nothing_left (suc fuel) b = refl

add_each_lem :
    (fuel hash : ℕ) (hashes : List ℕ) (b : DiurnalBlock)
    → All (λ x. x < 256 ^ 20) (hash ∷ hashes)
    → length hashes < fuel
    → add_each fuel (getvch (hash ∷ hashes)) b ≡ record {
      hashes = b.hashes ++ hash ∷ hashes;
      tree = some (new_tree (b.hashes ++ hash ∷ hashes));
    }
unfolding getvch add
add_each_lem zero hash hashes b v h = absurd (omega arith)
add_each_lem (suc fuel) hash [] b v h =
    add_each_step fuel hash [] b v.0 ∙ nothing_left fuel (add hash b)
add_each_lem (suc fuel) hash (next ∷ hashes) b v h =
    add_each_step fuel hash (getvch (next ∷ hashes)) b v.0
    ∙ add_each_lem fuel next hashes (add hash b) v.1 (omega arith)
    ∙ ap (λ xs. record { hashes = xs; tree = some (new_tree xs) })
        (append_assoc b.hashes (hash ∷ []) (next ∷ hashes))

length-without_last : (x : ℕ) (xs : List ℕ) → length (without_last (x ∷ xs)) ≡ length xs
unfolding without_last
length-without_last x [] = refl
length-without_last x (y ∷ xs) = omega (arith, length-without_last y xs)

hashes-remove_each :
    (fuel : ℕ) (hashes : List ℕ) (tree : Option HashNode)
    → length hashes ≤ fuel
    → (remove_each fuel (record { hashes = hashes; tree = tree })).hashes ≡ []
unfolding remove_each remove_last
hashes-remove_each zero [] tree h = refl
hashes-remove_each zero (x ∷ hashes) tree h = absurd (omega arith)
hashes-remove_each (suc fuel) [] tree h = refl
hashes-remove_each (suc fuel) (x ∷ hashes) tree h =
    hashes-remove_each fuel (without_last (x ∷ hashes)) _
      (omega (arith, length-without_last x hashes))

length-getvch : (hashes : List ℕ) → length hashes ≤ length (getvch hashes)
unfolding getvch
length-getvch [] = omega arith
length-getvch (hash ∷ hashes) = omega (
  arith,
  length-getvch hashes,
  length-append (bytes_of 20 hash) (getvch hashes),
  length-bytes_of 20 hash,
)

-- Reading the bytes of a row of 160-bit hashes, at least one, into any block gives the block with these
-- hashes and a tree built over them: the copy of a block has the hashes of the block.
pub setvch-getvch :
    (hashes : List ℕ) (b : DiurnalBlock)
    → 0 < length hashes
    → All (λ hash. hash < 256 ^ 20) hashes
    → setvch (getvch hashes) b ≡ record { hashes = hashes; tree = some (new_tree hashes) }
unfolding setvch
setvch-getvch [] b h v = absurd (omega arith)
setvch-getvch (hash ∷ hashes) b h v =
    add_each_lem (length (getvch (hash ∷ hashes))) hash hashes (remove_each (length b.hashes) b) v
      (omega (arith, length-getvch (hash ∷ hashes)))
    ∙ ap
        (λ xs. record {
          hashes = xs ++ hash ∷ hashes;
          tree = some (new_tree (xs ++ hash ∷ hashes));
        })
        (hashes-remove_each (length b.hashes) b.hashes b.tree (omega arith))
