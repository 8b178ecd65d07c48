-- ===== src/BitChain/Byte.antt =====
-- The operations of a byte on its bits, checked for every byte.
use flex.Common.{
  Bool-cases, inl, inr, ℕ, zero, suc, ◌+◌, ◌^◌, ◌<◌, ◌≡◌, refl, Bool, true, false, not, ◌&&◌, ◌||◌,
  arith, ltb, ◌==◌, if◌then◌else◌,
}
use Prim.Native.Nat.{bit_and, bit_and-bitwise}
use flex.BitChain.{byte_bit, byte_set, byte_clear, byte_mask}

-- A test passes at every number below a bound.
passes : (test : ℕ → Bool) (bound : ℕ) → Bool
passes test zero = true
passes test (suc bound) = let smaller = passes test bound in if test bound then smaller else false

passes_at : (test : ℕ → Bool) (bound i : ℕ) → i < bound → passes test bound ≡ true → test i ≡ true
unfolding passes
passes_at test zero i less all = absurd (omega (arith, less))
passes_at test (suc bound) i less all = elim (Bool-cases (i == bound)) [
  | inl last ↦ ground (arith, last, all)
  | inr earlier ↦ passes_at test bound i (ground (arith, earlier, less)) (ground (arith, all))
]

same : Bool → Bool → Bool
same true b = b
same false b = not b

same_eq : (a b : Bool) → same a b ≡ true → a ≡ b
unfolding same
same_eq true true h = refl
same_eq true false h = cc
same_eq false true h = cc
same_eq false false h = refl

-- A test of a byte and two places that holds for all of them.
table : (ℕ → ℕ → ℕ → Bool) → Bool
table p = passes (λ k. passes (λ j. passes (p k j) 256) 8) 9

table_sound :
    (p : ℕ → ℕ → ℕ → Bool) (k j byte : ℕ)
    → table p ≡ true
    → k < 9
    → j < 8
    → byte < 256
    → p k j byte ≡ true
unfolding table
table_sound p k j byte h hk hj hb = passes_at (p k j) 256 byte hb (
    passes_at (λ j. passes (p k j) 256) 8 j hj
      (passes_at (λ k. passes (λ j. passes (p k j) 256) 8) 9 k hk h))

set_table :
    table (λ k j byte.
      if k == 8
      then true
      else same (byte_bit j (byte_set k byte)) ((j == k) || byte_bit j byte)
        && ltb (byte_set k byte) 256)
    ≡ true
unfolding table passes same byte_bit byte_set
set_table = refl

clear_table :
    table (λ k j byte.
      if k == 8
      then true
      else same (byte_bit j (byte_clear k byte)) (not (j == k) && byte_bit j byte)
        && ltb (byte_clear k byte) 256)
    ≡ true
unfolding table passes same byte_bit byte_clear
clear_table = refl

mask_table :
    table (λ n j byte.
      same (byte_bit j (byte_mask n byte)) (ltb j n && byte_bit j byte)
      && ltb (byte_mask n byte) 256)
    ≡ true
unfolding table passes same byte_bit byte_mask
mask_table = refl

zero-bit_and : (b : ℕ) → bit_and 0 b ≡ 0
zero-bit_and b = bit_and-bitwise 0 b

-- What the bits of a byte add up to.
from_bits : ℕ → ℕ → ℕ
from_bits zero byte = 0
from_bits (suc k) byte = (if byte_bit k byte then 2 ^ k else 0) + from_bits k byte

from_bits_table : passes (λ byte. from_bits 8 byte == byte) 256 ≡ true
unfolding passes from_bits byte_bit
from_bits_table = refl

module _ (k j byte : ℕ) (small : k < 8) (place : j < 8) (octet : byte < 256) where
  within : k < 9
  within = omega arith

  pub byte_bit-set : byte_bit j (byte_set k byte) ≡ ((j == k) || byte_bit j byte)
  byte_bit-set = same_eq _ _ (ground (arith, table_sound _ k j byte set_table within place octet))

  pub byte_set-lt : byte_set k byte < 256
  byte_set-lt = ground (arith, table_sound _ k j byte set_table within place octet)

  pub byte_bit-clear : byte_bit j (byte_clear k byte) ≡ (not (j == k) && byte_bit j byte)
  byte_bit-clear =
      same_eq _ _ (ground (arith, table_sound _ k j byte clear_table within place octet))

  pub byte_clear-lt : byte_clear k byte < 256
  byte_clear-lt = ground (arith, table_sound _ k j byte clear_table within place octet)

  pub byte_bit-mask : byte_bit j (byte_mask k byte) ≡ (ltb j k && byte_bit j byte)
  byte_bit-mask = same_eq _ _ (ground (arith, table_sound _ k j byte mask_table within place octet))

  pub byte_mask-lt : byte_mask k byte < 256
  byte_mask-lt = ground (arith, table_sound _ k j byte mask_table within place octet)

pub byte_bit-zero : (j : ℕ) → byte_bit j 0 ≡ false
unfolding byte_bit
byte_bit-zero j = ground (arith, zero-bit_and (2 ^ j))

from_bits-ext :
    (k a b : ℕ) → ((j : ℕ) → j < k → byte_bit j a ≡ byte_bit j b) → from_bits k a ≡ from_bits k b
unfolding from_bits
from_bits-ext zero a b h = refl
from_bits-ext (suc k) a b h =
    rw (h k (omega arith), from_bits-ext k a b (λ j lt. h j (omega arith))) refl

-- A byte is known by its bits.
pub byte-ext :
    (a b : ℕ) → a < 256 → b < 256 → ((j : ℕ) → j < 8 → byte_bit j a ≡ byte_bit j b) → a ≡ b
byte-ext a b ha hb h = ground (
  arith,
  from_bits-ext 8 a b h,
  passes_at (λ byte. from_bits 8 byte == byte) 256 a ha from_bits_table,
  passes_at (λ byte. from_bits 8 byte == byte) 256 b hb from_bits_table,
)
