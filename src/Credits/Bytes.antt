-- ===== src/Credits/Bytes.antt =====
-- The constructor of Credit from bytes reads what Credit::getvch writes.
use flex.Common.{ℕ, ◌^◌, ◌<◌, ◌≡◌, ◌∙◌, ap, List, arith}
use flex.RelayState.Platform.{Point}
use flex.HashTrees.DiurnalBlock.Bytes.{number_of-bytes_of, drop-bytes_of}
use flex.Credits.{Credit, credit_bytes, read_credit}

-- A credit with a 64-bit amount is read back from its bytes, amount and key, when setvch reads back its
-- key from the bytes that getvch writes of the key.
read_credit-credit_bytes :
    (key_bytes : Point → List ℕ) (read_key : List ℕ → Point) (credit : Credit)
    → credit.amount < 2 ^ 64
    → read_key (key_bytes credit.public_key) ≡ credit.public_key
    → read_credit read_key (credit_bytes key_bytes credit) ≡ credit
unfolding read_credit credit_bytes
read_credit-credit_bytes key_bytes read_key credit h k i = record {
  amount = number_of-bytes_of 8 credit.amount (key_bytes credit.public_key) (omega (arith, h)) i;
  public_key = (ap read_key (drop-bytes_of 8 credit.amount (key_bytes credit.public_key)) ∙ k) i;
}
