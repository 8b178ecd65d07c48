-- ===== src/BitChain.antt =====
-- The class BitChain of src/crypto/hashtrees.h: a row of bits, eight to a byte.
pub mod Byte
pub mod Bytes
pub mod Row
pub mod Refine
pub mod Hash
pub mod Changed
pub mod Examples
use Prim.Native.Nat.{bit_and, bit_or}
use flex.Common.{
  ℕ, zero, suc, ◌+◌, ◌-◌, ◌*◌, ◌/◌, ◌%◌, ◌^◌, ◌≡◌, Bool, true, false, not, ◌&&◌, List, [], ◌∷◌,
  ◌++◌, ltb, leb, ◌==◌, if◌then◌else◌, length, get_elem?, get_or,
}

pub record BitChain : Type 0 where
  pub length_in_bits : ℕ
  pub bytes : List ℕ

-- byte & (1 << k), as a condition
unfoldable pub byte_bit : ℕ → ℕ → Bool
byte_bit k byte = not (bit_and byte (2 ^ k) == 0)

-- byte |= (1 << k)
unfoldable pub byte_set : ℕ → ℕ → ℕ
byte_set k byte = bit_or byte (2 ^ k)

-- byte &= ~(1 << k)
unfoldable pub byte_clear : ℕ → ℕ → ℕ
byte_clear k byte = bit_and byte (255 - 2 ^ k)

-- byte &= (1 << n) - 1
unfoldable pub byte_mask : ℕ → ℕ → ℕ
byte_mask n byte = bit_and byte (2 ^ n - 1)

-- data.resize(n)
unfoldable pub resize : ℕ → List ℕ → List ℕ
resize zero bytes = []
resize (suc n) [] = 0 ∷ resize n []
resize (suc n) (byte ∷ bytes) = byte ∷ resize n bytes

-- data[i], zero outside the data
unfoldable pub read : ℕ → List ℕ → ℕ
read i bytes = get_or (get_elem? bytes i) 0

-- data[i] = change(data[i])
unfoldable pub update : ℕ → (ℕ → ℕ) → List ℕ → List ℕ
update i change [] = []
update zero change (byte ∷ bytes) = change byte ∷ bytes
update (suc i) change (byte ∷ bytes) = byte ∷ update i change bytes

-- (int)ceil(length / 8.), for lengths below 2^34, where the int holds it
unfoldable pub bytes_for : ℕ → ℕ
bytes_for length = (length + 7) / 8

-- BitChain::BitChain
abbrev pub empty_chain : BitChain
empty_chain = record { length_in_bits = 0; bytes = [] }

-- BitChain::Add
unfoldable pub add : BitChain → BitChain
add c =
    let length_in_bits = c.length_in_bits + 1 in
    record {
      length_in_bits = length_in_bits;
      bytes = if ltb (8 * length c.bytes) length_in_bits then c.bytes ++ 0 ∷ [] else c.bytes;
    }

-- BitChain::Set
unfoldable pub set : ℕ → BitChain → BitChain
unfolding update byte_set
set position c =
    if leb c.length_in_bits position
    then c
    else record c { bytes = update (position / 8) (byte_set (position % 8)) c.bytes }

-- BitChain::Clear
unfoldable pub clear : ℕ → BitChain → BitChain
unfolding update byte_clear
clear position c =
    if leb c.length_in_bits position
    then c
    else record c { bytes = update (position / 8) (byte_clear (position % 8)) c.bytes }

-- BitChain::Get
unfoldable pub get : ℕ → BitChain → Bool
unfolding read byte_bit
get position c =
    if leb c.length_in_bits position
    then false
    else byte_bit (position % 8) (read (position / 8) c.bytes)

-- BitChain::SetLength
unfoldable pub set_length : ℕ → BitChain → BitChain
unfolding resize bytes_for update byte_mask
set_length new_length c =
    let bytes = resize (bytes_for new_length) c.bytes in
    record {
      length_in_bits = new_length;
      bytes =
          if not (new_length % 8 == 0)
          then update (length bytes - 1) (byte_mask (new_length % 8)) bytes
          else bytes;
    }

-- for (auto position : to_set) other.Set(position)
unfoldable pub set_each : List ℕ → BitChain → BitChain
unfolding set
set_each [] c = c
set_each (position ∷ positions) c = set_each positions (set position c)

unfoldable pub clear_each : List ℕ → BitChain → BitChain
unfolding clear
clear_each [] c = c
clear_each (position ∷ positions) c = clear_each positions (clear position c)

module _ (tree_hash : List ℕ → ℕ) where
  -- BitChain::GetHash160
  unfoldable pub get_hash160 : BitChain → ℕ
  unfolding resize bytes_for
  get_hash160 c =
      if c.length_in_bits == 0 then 0 else tree_hash (resize (bytes_for c.length_in_bits) c.bytes)

  -- BitChain::HashDifferent, of vectors and of sets
  unfoldable pub hash_different : List ℕ → List ℕ → ℕ → BitChain → ℕ
  unfolding set_length set_each clear_each get_hash160
  hash_different to_set to_clear length c =
      get_hash160 (clear_each to_clear (set_each to_set (set_length length c)))
