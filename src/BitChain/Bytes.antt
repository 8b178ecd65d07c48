-- ===== src/BitChain/Bytes.antt =====
-- Reading the bytes of a chain after a change.
use flex.Common.{
  ℕ, zero, suc, ◌<◌, ◌≤◌, ◌≡◌, refl, ap, ◌&&◌, List, [], ◌∷◌, ◌++◌, arith, ltb, ◌==◌, if◌then◌else◌,
  length,
}
use flex.BitChain.{resize, read, update}

pub read-update :
    (i j : ℕ) (change : ℕ → ℕ) (bytes : List ℕ)
    → read j (update i change bytes)
      ≡ (if j == i && ltb i (length bytes) then change (read j bytes) else read j bytes)
unfolding read update
read-update i j change [] = ground arith
read-update zero zero change (byte ∷ bytes) = ground arith
read-update zero (suc j) change (byte ∷ bytes) = ground arith
read-update (suc i) zero change (byte ∷ bytes) = ground arith
read-update (suc i) (suc j) change (byte ∷ bytes) = ground (arith, read-update i j change bytes)

pub length-update :
    (i : ℕ) (change : ℕ → ℕ) (bytes : List ℕ) → length (update i change bytes) ≡ length bytes
unfolding update
length-update i change [] = refl
length-update zero change (byte ∷ bytes) = refl
length-update (suc i) change (byte ∷ bytes) = ap ℕ.suc (length-update i change bytes)

pub read-resize :
    (n j : ℕ) (bytes : List ℕ) → read j (resize n bytes) ≡ (if ltb j n then read j bytes else 0)
unfolding read resize
read-resize zero j bytes = ground arith
read-resize (suc n) zero [] = ground arith
read-resize (suc n) (suc j) [] = ground (arith, read-resize n j [])
read-resize (suc n) zero (byte ∷ bytes) = ground arith
read-resize (suc n) (suc j) (byte ∷ bytes) = ground (arith, read-resize n j bytes)

pub length-resize : (n : ℕ) (bytes : List ℕ) → length (resize n bytes) ≡ n
unfolding resize
length-resize zero bytes = refl
length-resize (suc n) [] = ap ℕ.suc (length-resize n [])
length-resize (suc n) (byte ∷ bytes) = ap ℕ.suc (length-resize n bytes)

pub read-append_zero : (j : ℕ) (bytes : List ℕ) → read j (bytes ++ 0 ∷ []) ≡ read j bytes
unfolding read
read-append_zero zero [] = refl
read-append_zero (suc j) [] = refl
read-append_zero zero (byte ∷ bytes) = refl
read-append_zero (suc j) (byte ∷ bytes) = read-append_zero j bytes

pub read_outside : (j : ℕ) (bytes : List ℕ) → length bytes ≤ j → read j bytes ≡ 0
unfolding read
read_outside j [] h = refl
read_outside zero (byte ∷ bytes) h = absurd (omega arith)
read_outside (suc j) (byte ∷ bytes) h = read_outside j bytes (omega arith)

-- Every byte is below 256.
abbrev pub Octets : List ℕ → Type 0
Octets bytes = (j : ℕ) → read j bytes < 256

-- Rows of bytes of one length are equal where their bytes are.
pub bytes-ext :
    (xs ys : List ℕ)
    → length xs ≡ length ys
    → ((j : ℕ) → j < length xs → read j xs ≡ read j ys)
    → xs ≡ ys
unfolding read
bytes-ext [] [] e h = refl
bytes-ext [] (y ∷ ys) e h = absurd (omega arith)
bytes-ext (x ∷ xs) [] e h = absurd (omega arith)
bytes-ext (x ∷ xs) (y ∷ ys) e h =
    rw (h 0 (omega arith), bytes-ext xs ys (omega arith) (λ j lt. h (suc j) (omega arith))) refl
