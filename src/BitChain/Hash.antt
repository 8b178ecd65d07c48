-- ===== src/BitChain/Hash.antt =====
-- The hash of a BitChain depends on its bits alone.
use flex.Common.{
  ℕ, ◌+◌, ◌*◌, ◌/◌, ◌%◌, ◌<◌, ◌≡◌, refl, sym, ◌∙◌, ap, List, [], ◌∷◌, ◌++◌, arith, length, map,
}
use flex.BitChain.{
  BitChain, read, set, clear, get, set_length, set_each, clear_each, get_hash160, hash_different,
}
use flex.BitChain.Byte.{byte-ext}
use flex.BitChain.Bytes.{bytes-ext}
use flex.BitChain.Row.{Row, bit_at, bit_at_outside, Op, on_row, on_row_each}
use flex.BitChain.Refine.{
  Represents, on_chain, on_chain_each, add-Represents, set-Represents, clear-Represents,
  set_length-Represents,
}

on_chain-Represents :
    (op : Op) (c : BitChain) (row : Row)
    → Represents c row
    → Represents (on_chain op c) (on_row op row)
on_chain-Represents Op.grow c row r = add-Represents c row r
on_chain-Represents (Op.mark p) c row r = set-Represents p c row r
on_chain-Represents (Op.unmark p) c row r = clear-Represents p c row r
on_chain-Represents (Op.cut n) c row r = set_length-Represents n c row r

pub each-Represents :
    (ops : List Op) (c : BitChain) (row : Row)
    → Represents c row
    → Represents (on_chain_each ops c) (on_row_each ops row)
each-Represents [] c row r = r
each-Represents (op ∷ ops) c row r =
    each-Represents ops (on_chain op c) (on_row op row) (on_chain-Represents op c row r)

pub get-bit_at : (q : ℕ) (c : BitChain) (row : Row) → Represents c row → get q c ≡ bit_at q row
unfolding get
get-bit_at q c row r = ground (arith, r.bits q, r.same_length, bit_at_outside q row)

-- A chain that stands for a row of Booleans (with as many bytes as the row needs, each below 256, and
-- no bit behind the last) stands for the changed row after any sequence of Add, Set, Clear and
-- SetLength: Add appends a false, Set and Clear change a place within the row and nothing outside it,
-- SetLength cuts the row off or fills it up with false. Get then returns the bit of that row at each
-- place, and false outside.
pub on_chain_each-Represents :
    (ops : List Op) (c : BitChain) (row : Row) (q : ℕ)
    → Represents c row
    → Represents (on_chain_each ops c) (on_row_each ops row)
      × (get q (on_chain_each ops c) ≡ bit_at q (on_row_each ops row))
on_chain_each-Represents ops c row q r =
    let after = each-Represents ops c row r in
    (after, get-bit_at q (on_chain_each ops c) (on_row_each ops row) after)

same_byte :
    (j : ℕ) (a b : BitChain) (row : Row)
    → Represents a row
    → Represents b row
    → read j a.bytes ≡ read j b.bytes
same_byte j a b row ra rb =
    byte-ext (read j a.bytes) (read j b.bytes) (ra.chain.octets j) (rb.chain.octets j)
      λ k h. ground (arith, ra.bits (8 * j + k), rb.bits (8 * j + k), place j k h, offset j k h)
  where
    place : (j k : ℕ) → k < 8 → (8 * j + k) / 8 ≡ j
    place j k h = omega arith

    offset : (j k : ℕ) → k < 8 → (8 * j + k) % 8 ≡ k
    offset j k h = omega arith

pub Represents-unique : (a b : BitChain) (row : Row) → Represents a row → Represents b row → a ≡ b
Represents-unique a b row ra rb i = record {
  length_in_bits = (ra.same_length ∙ sym rb.same_length) i;
  bytes =
      bytes-ext a.bytes b.bytes
        (omega (arith, ra.chain.size, rb.chain.size, ra.same_length, rb.same_length))
        (λ j h. same_byte j a b row ra rb) i;
}

-- The operations of HashDifferent on its copy of the chain.
abbrev pub different_ops : List ℕ → List ℕ → ℕ → List Op
different_ops to_set to_clear length = Op.cut length ∷ map Op.mark to_set ++ map Op.unmark to_clear

on_chain_each-append :
    (ops more : List Op) (c : BitChain)
    → on_chain_each (ops ++ more) c ≡ on_chain_each more (on_chain_each ops c)
on_chain_each-append [] more c = refl
on_chain_each-append (op ∷ ops) more c = on_chain_each-append ops more (on_chain op c)

set_each-on_chain :
    (positions : List ℕ) (c : BitChain)
    → set_each positions c ≡ on_chain_each (map Op.mark positions) c
unfolding set_each
set_each-on_chain [] c = refl
set_each-on_chain (p ∷ positions) c = set_each-on_chain positions (set p c)

clear_each-on_chain :
    (positions : List ℕ) (c : BitChain)
    → clear_each positions c ≡ on_chain_each (map Op.unmark positions) c
unfolding clear_each
clear_each-on_chain [] c = refl
clear_each-on_chain (p ∷ positions) c = clear_each-on_chain positions (clear p c)

pub different_chain :
    (to_set to_clear : List ℕ) (n : ℕ) (c : BitChain)
    → clear_each to_clear (set_each to_set (set_length n c))
      ≡ on_chain_each (different_ops to_set to_clear n) c
different_chain to_set to_clear n c =
    clear_each-on_chain to_clear (set_each to_set (set_length n c))
    ∙ ap (on_chain_each (map Op.unmark to_clear)) (set_each-on_chain to_set (set_length n c))
    ∙ sym (on_chain_each-append (map Op.mark to_set) (map Op.unmark to_clear) (set_length n c))

-- For a chain that stands for a row of Booleans, HashDifferent is the hash of any chain that stands for
-- the row cut off or filled up to the given length, with the first positions set and the second ones
-- cleared after that: the hash depends on the bits alone and not on the bytes that held them.
hash_different-Represents :
    (tree_hash : List ℕ → ℕ) (to_set to_clear : List ℕ) (n : ℕ) (c other : BitChain) (row : Row)
    → Represents c row
    → Represents other (on_row_each (different_ops to_set to_clear n) row)
    → hash_different tree_hash to_set to_clear n c ≡ get_hash160 tree_hash other
unfolding hash_different
hash_different-Represents tree_hash to_set to_clear n c other row r o = ap (get_hash160 tree_hash) (
    different_chain to_set to_clear n c
    ∙ Represents-unique (on_chain_each (different_ops to_set to_clear n) c) other
        (on_row_each (different_ops to_set to_clear n) row)
        (each-Represents (different_ops to_set to_clear n) c row r) o)
