-- ===== src/RelayState/Platform.antt =====
-- What relaystate.cpp takes from elsewhere: the constants of relaystate.h, the group of the keys, the
-- hash and the big numbers of OpenSSL.
use flex.Common.{ℕ, List, ◌^◌, [], ◌∷◌}

-- A key, by its place in the order of Point::operator<. The point at infinity has no coordinates and
-- comes first.
abbrev pub Point : Type 0
Point = ℕ

-- Point(), Point(SECP256K1, 0)
abbrev pub infinity : Point
infinity = 0

abbrev pub u32_mod : ℕ
u32_mod = 2 ^ 32

pub record Env : Type 0 where
  -- Point(SECP256K1): the constructor from a CBigNum, at the number 1
  pub generator : Point
  -- Hash160 of the 20 bytes of a number
  pub hash_uint160 : ℕ → ℕ
  pub bn_get_word : ℕ → ℕ
  pub max_relays_remembered : ℕ
  pub max_pool_size : ℕ
  pub future_successor_frequency : ℕ
  pub executor_offsets : List ℕ

module _ (generator : Point) (hash_uint160 bn_get_word : ℕ → ℕ) where
  -- without _PRODUCTION_BUILD
  abbrev pub test_build : Env
  test_build = record {
    generator = generator;
    hash_uint160 = hash_uint160;
    bn_get_word = bn_get_word;
    max_relays_remembered = 40;
    max_pool_size = 20;
    future_successor_frequency = 10;
    executor_offsets = 2 ∷ 3 ∷ 4 ∷ 5 ∷ 6 ∷ 7 ∷ [];
  }

  -- with _PRODUCTION_BUILD
  abbrev pub production_build : Env
  production_build = record {
    generator = generator;
    hash_uint160 = hash_uint160;
    bn_get_word = bn_get_word;
    max_relays_remembered = 1200;
    max_pool_size = 600;
    future_successor_frequency = 30;
    executor_offsets = 9 ∷ 17 ∷ 19 ∷ 24 ∷ 31 ∷ 36 ∷ [];
  }
