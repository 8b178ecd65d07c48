-- ===== src/Credits.antt =====
-- src/credits: credits, batches of credits and unsigned transactions. A key's bytes, Point::getvch, and
-- its reading, Point::setvch, are parameters.
pub mod Batch
pub mod Bytes
pub mod Transaction
pub mod Examples
use flex.Common.{
  ℕ, ◌+◌, Bool, true, false, ◌&&◌, ◌||◌, ◌≡◌, ◌↔◌, ap, List, [], ◌∷◌, ◌++◌, ltb, ◌==◌, ==_iff, Eq,
  arith, drop,
}
use flex.RelayState.Platform.{Point}
use flex.HashTrees.{bytes_of}
use flex.HashTrees.DiurnalBlock.{number_of}
use flex.HashTrees.Ordered.{equal_bytes}

pub record Credit : Type 0 where
  pub amount : ℕ
  pub public_key : Point

pub record CreditInBatch : Type 0 where
  pub credit : Credit
  pub position : ℕ
  pub branch : List ℕ
  pub diurn_branch : List ℕ

-- Credit::operator==
abbrev pub same_credit : Credit → Credit → Bool
same_credit a b = (a.amount == b.amount) && (a.public_key == b.public_key)

credit_ext : (a b : Credit) → a.amount ≡ b.amount → a.public_key ≡ b.public_key → a ≡ b
credit_ext a b p q i = record { amount = p i; public_key = q i }

pub same_credit_iff : (a b : Credit) → (same_credit a b ≡ true) ↔ (a ≡ b)
same_credit_iff a b =
    (λ h. credit_ext a b (ground (arith, h)) (ground (arith, h)), λ e. rw e (ground arith))

instance abbrev pub credit_eq : Eq Credit
credit_eq = record { beq = same_credit; beq_iff = same_credit_iff }

pub equal_bytes_iff : (a b : List ℕ) → (equal_bytes a b ≡ true) ↔ (a ≡ b)
equal_bytes_iff [] [] = ground arith
equal_bytes_iff [] (y ∷ ys) = (λ h. absurd (cc), λ h. absurd (cc))
equal_bytes_iff (x ∷ xs) [] = (λ h. absurd (cc), λ h. absurd (cc))
equal_bytes_iff (x ∷ xs) (y ∷ ys) = ground (arith, equal_bytes_iff xs ys)

instance abbrev pub bytes_eq : Eq (List ℕ)
bytes_eq = record { beq = equal_bytes; beq_iff = equal_bytes_iff }

-- Credit::getvch
unfoldable pub credit_bytes : (Point → List ℕ) → Credit → List ℕ
unfolding bytes_of
credit_bytes key_bytes credit = bytes_of 8 credit.amount ++ key_bytes credit.public_key

-- Credit(vch_t)
unfoldable pub read_credit : (List ℕ → Point) → List ℕ → Credit
unfolding number_of
read_credit read_key bytes = record {
  amount = number_of 8 bytes;
  public_key = read_key (drop 8 bytes);
}
