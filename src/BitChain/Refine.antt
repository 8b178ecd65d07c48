-- ===== src/BitChain/Refine.antt =====
-- A BitChain does what its row of bits does, and is known by that row.
use flex.Common.{
  ℕ, ◌+◌, ◌-◌, ◌/◌, ◌%◌, ◌≤◌, ◌<◌, ◌≡◌, refl, ◌∙◌, Bool, true, false, not, ◌&&◌, ◌||◌, List, [],
  ◌∷◌, ◌++◌, arith, ltb, leb, ◌==◌, length, length-append, Bool-cases, inl, inr,
}
use flex.BitChain.{
  BitChain, empty_chain, byte_bit, byte_set, byte_clear, byte_mask, resize, read, update, bytes_for,
  add, set, clear, set_length,
}
use flex.BitChain.Byte.{
  byte_bit-set, byte_set-lt, byte_bit-clear, byte_clear-lt, byte_bit-mask, byte_mask-lt,
  byte_bit-zero,
}
use flex.BitChain.Bytes.{
  Octets, read-update, length-update, read-resize, length-resize, read-append_zero,
}
use flex.BitChain.Row.{
  Row, bit_at, with_bit, row_of_length, Op, bit_at-append_false, bit_at-with_bit, length-with_bit,
  bit_at_outside, bit_at-row_of_length, length-row_of_length,
}

-- The bit at a place of the data, whatever the length.
abbrev pub bit_of : ℕ → List ℕ → Bool
bit_of q bytes = byte_bit (q % 8) (read (q / 8) bytes)

-- As many bytes as the bits need, and no bit behind the last.
pub record IsChain (c : BitChain) : Type 0 where
  pub size : length c.bytes ≡ (c.length_in_bits + 7) / 8
  pub octets : Octets c.bytes
  pub clean : (q : ℕ) → c.length_in_bits ≤ q → bit_of q c.bytes ≡ false

pub record Represents (c : BitChain) (row : Row) : Type 0 where
  pub chain : IsChain c
  pub same_length : c.length_in_bits ≡ length row
  pub bits : (q : ℕ) → bit_of q c.bytes ≡ bit_at q row

module _ (p q : ℕ) (bytes : List ℕ) (o : Octets bytes) (inside : p / 8 < length bytes) where
  bit_of-set : bit_of q (update (p / 8) (byte_set (p % 8)) bytes) ≡ ((q == p) || bit_of q bytes)
  bit_of-set = ground (
    arith,
    read-update (p / 8) (q / 8) (byte_set (p % 8)) bytes,
    byte_bit-set (p % 8) (q % 8) (read (q / 8) bytes) (omega arith) (omega arith) (o (q / 8)),
  )

  bit_of-clear :
      bit_of q (update (p / 8) (byte_clear (p % 8)) bytes) ≡ (not (q == p) && bit_of q bytes)
  bit_of-clear = ground (
    arith,
    read-update (p / 8) (q / 8) (byte_clear (p % 8)) bytes,
    byte_bit-clear (p % 8) (q % 8) (read (q / 8) bytes) (omega arith) (omega arith) (o (q / 8)),
  )

bit_of-resize :
    (m q : ℕ) (bytes : List ℕ) → bit_of q (resize m bytes) ≡ (ltb (q / 8) m && bit_of q bytes)
bit_of-resize m q bytes = ground (arith, read-resize m (q / 8) bytes, byte_bit-zero (q % 8))

update-Octets :
    (i : ℕ) (change : ℕ → ℕ) (bytes : List ℕ)
    → ((byte : ℕ) → byte < 256 → change byte < 256)
    → Octets bytes
    → Octets (update i change bytes)
update-Octets i change bytes h o j =
    ground (arith, read-update i j change bytes, h (read j bytes) (o j), o j)

resize-Octets : (m : ℕ) (bytes : List ℕ) → Octets bytes → Octets (resize m bytes)
resize-Octets m bytes o j = ground (arith, read-resize m j bytes, o j)

-- The bytes of SetLength, where the last byte is cut.
bit_of-cut :
    (n q : ℕ) (bytes : List ℕ)
    → Octets bytes
    → 0 < n % 8
    → bit_of q (update ((n + 7) / 8 - 1) (byte_mask (n % 8)) (resize ((n + 7) / 8) bytes))
      ≡ (ltb q n && bit_of q bytes)
bit_of-cut n q bytes o h =
    let m : ℕ = (n + 7) / 8 in
    ground (
      arith,
      read-update (m - 1) (q / 8) (byte_mask (n % 8)) (resize m bytes),
      length-resize m bytes,
      bit_of-resize m q bytes,
      byte_bit-mask (n % 8) (q % 8) (read (q / 8) (resize m bytes)) (omega arith) (omega arith)
          (resize-Octets m bytes o (q / 8)),
    )

abbrev pub on_chain : Op → BitChain → BitChain
on_chain Op.grow c = add c
on_chain (Op.mark p) c = set p c
on_chain (Op.unmark p) c = clear p c
on_chain (Op.cut n) c = set_length n c

abbrev pub on_chain_each : List Op → BitChain → BitChain
on_chain_each [] c = c
on_chain_each (op ∷ ops) c = on_chain_each ops (on_chain op c)

-- A chain with the length and the bits of a row stands for it, since the row has no bit behind its last.
represents :
    (c : BitChain) (row : Row)
    → length c.bytes ≡ (c.length_in_bits + 7) / 8
    → Octets c.bytes
    → c.length_in_bits ≡ length row
    → ((q : ℕ) → bit_of q c.bytes ≡ bit_at q row)
    → Represents c row
represents c row s o l b = record {
  chain = record {
    size = s;
    octets = o;
    clean = λ q h. b q ∙ bit_at_outside q row (omega (arith, l, h));
  };
  same_length = l;
  bits = b;
}

pub add-Represents :
    (c : BitChain) (row : Row) → Represents c row → Represents (add c) (row ++ false ∷ [])
unfolding add
add-Represents c row r =
    represents (add c) (row ++ false ∷ [])
      (ground (arith, r.chain.size, length-append c.bytes (0 ∷ [])))
      (λ j. ground (arith, r.chain.octets j, read-append_zero j c.bytes))
      (ground (arith, r.same_length, length-append row (false ∷ [])))
      (λ q. ground (arith, r.bits q, bit_at-append_false q row, read-append_zero (q / 8) c.bytes))

pub set-Represents :
    (p : ℕ) (c : BitChain) (row : Row)
    → Represents c row
    → Represents (set p c) (with_bit p true row)
unfolding set
set-Represents p c row r =
    represents (set p c) (with_bit p true row)
      (ground (arith, r.chain.size, length-update (p / 8) (byte_set (p % 8)) c.bytes))
      (λ j. ground (
        arith,
        r.chain.octets j,
        update-Octets (p / 8) (byte_set (p % 8)) c.bytes
            (λ b h. byte_set-lt (p % 8) 0 b (omega arith) (omega arith) h) r.chain.octets j,
      ))
      (ground (arith, r.same_length, length-with_bit p true row))
      (λ q. elim (Bool-cases (leb c.length_in_bits p)) [
        | inl outside ↦
            ground (arith, outside, r.bits q, r.same_length, bit_at-with_bit p q true row)
        | inr inside ↦ ground (
          arith,
          inside,
          r.bits q,
          r.same_length,
          bit_at-with_bit p q true row,
          bit_of-set p q c.bytes r.chain.octets (ground (arith, r.chain.size, inside)),
        )
      ])

pub clear-Represents :
    (p : ℕ) (c : BitChain) (row : Row)
    → Represents c row
    → Represents (clear p c) (with_bit p false row)
unfolding clear
clear-Represents p c row r =
    represents (clear p c) (with_bit p false row)
      (ground (arith, r.chain.size, length-update (p / 8) (byte_clear (p % 8)) c.bytes))
      (λ j. ground (
        arith,
        r.chain.octets j,
        update-Octets (p / 8) (byte_clear (p % 8)) c.bytes
            (λ b h. byte_clear-lt (p % 8) 0 b (omega arith) (omega arith) h) r.chain.octets j,
      ))
      (ground (arith, r.same_length, length-with_bit p false row))
      (λ q. elim (Bool-cases (leb c.length_in_bits p)) [
        | inl outside ↦ ground (
          arith,
          outside,
          r.bits q,
          r.same_length,
          bit_at-with_bit p q false row,
          bit_at_outside q row,
        )
        | inr inside ↦ ground (
          arith,
          inside,
          r.bits q,
          r.same_length,
          bit_at-with_bit p q false row,
          bit_of-clear p q c.bytes r.chain.octets (ground (arith, r.chain.size, inside)),
        )
      ])

pub set_length-Represents :
    (n : ℕ) (c : BitChain) (row : Row)
    → Represents c row
    → Represents (set_length n c) (row_of_length n row)
unfolding set_length bytes_for
set_length-Represents n c row r =
    let m : ℕ = (n + 7) / 8 in
    let cut = update (m - 1) (byte_mask (n % 8)) (resize m c.bytes) in
    represents (set_length n c) (row_of_length n row)
      (ground (
        arith,
        length-resize m c.bytes,
        length-update (m - 1) (byte_mask (n % 8)) (resize m c.bytes),
      ))
      (λ j. ground (
        arith,
        resize-Octets m c.bytes r.chain.octets j,
        length-resize m c.bytes,
        update-Octets (m - 1) (byte_mask (n % 8)) (resize m c.bytes)
            (λ b h. byte_mask-lt (n % 8) 0 b (omega arith) (omega arith) h)
            (resize-Octets m c.bytes r.chain.octets) j,
      ))
      (ground (arith, length-row_of_length n row))
      (λ q. ground (
        arith,
        length-resize m c.bytes,
        r.bits q,
        bit_of-resize m q c.bytes,
        bit_at-row_of_length n q row,
        bit_of-cut n q c.bytes r.chain.octets,
      ))

-- The empty chain stands for the empty row.
pub empty-Represents : Represents empty_chain []
unfolding read
empty-Represents = record {
  chain = record {
    size = omega arith;
    octets = λ j. omega arith;
    clean = λ q h. byte_bit-zero (q % 8);
  };
  same_length = refl;
  bits = λ q. byte_bit-zero (q % 8);
}
