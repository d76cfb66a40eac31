-- ===== src/Sdk.antt =====
-- The foreign pure functions that the modules call (cosmos-sdk, cosmossdk.io/math, wasmd,
-- encoding/json), as a record of parameters, and the documented behaviour that proofs rely on.
use research_cosmos.Prelude.{
  ◌^◌, ◌+◌, suc, ltb, arith, if◌then◌else◌, true, ◌≡◌, ◌<◌, Option, none, some, List, ◌∷◌, Bool,
  length,
}
use research_cosmos.Prelude.Int.{ℤ, pos, negsuc, ◌+ℤ◌, ◌-ℤ◌, ◌≤ℤ◌, ltb_ℤ}
use research_cosmos.Bytes.{Bytes}
use research_cosmos.Messages.{WasmCoin, CustomMsg, CustomQuery, QueryResponse}
use research_cosmos.Types.{Error, Outcome, ok, panic, Coin, Params, SudoMsg}

-- A number of at most 256 bits, with its sign.
unfoldable pub fits_int : ℤ → Bool
fits_int (pos n) = ltb n (2 ^ 256)
fits_int (negsuc n) = ltb (n + 1) (2 ^ 256)

-- What is below a number that fits, fits.
pub fits_below : (a b : ℤ) → pos 0 ≤ℤ a → a ≤ℤ b → fits_int b ≡ true → fits_int a ≡ true
unfolding fits_int
fits_below (pos m) (pos n) h below fits =
    let most : m < suc n = omega (arith, below) in ground (arith, most, fits)
fits_below (negsuc m) b h below fits = absurd (omega (arith, h))
fits_below (pos m) (negsuc n) h below fits = absurd (omega (arith, below))

pub record Sdk : Type 0 where
  -- sdk.NewCoin, Coin.Add, Coin.Sub, Coin.IsLT, Coin.Validate
  pub new_coin : Bytes → ℤ → Outcome Coin
  pub add_coin : Coin → Coin → Outcome Coin
  pub sub_coin : Coin → Coin → Outcome Coin
  pub is_lt : Coin → Coin → Outcome Bool
  pub validate_coin : Coin → Option Error
  -- sdk.ValidateDenom returns no error
  pub valid_denom : Bytes → Bool
  -- sdk.NewCoins of one coin, Coins.AmountOf
  pub new_coins : Coin → Outcome (List Coin)
  pub amount_of : Bytes → List Coin → ℤ
  -- math.Int Add, Marshal and Unmarshal, String, sdk.NewIntFromString
  pub add_int : ℤ → ℤ → Outcome ℤ
  pub marshal_int : ℤ → Outcome Bytes
  pub unmarshal_int : Bytes → Option ℤ
  pub int_string : ℤ → Bytes
  pub int_from_string : Bytes → Option ℤ
  -- codec Marshal and MustUnmarshal of Params
  pub marshal_params : Params → Outcome Bytes
  pub unmarshal_params : Bytes → Option Params
  -- bech32 texts of account and validator addresses
  pub acc_address_from_bech32 : Bytes → Option Bytes
  pub val_address_from_bech32 : Bytes → Option Bytes
  pub acc_string : Bytes → Bytes
  pub val_string : Bytes → Bytes
  -- address.MustLengthPrefix
  pub must_length_prefix : Bytes → Outcome Bytes
  -- sdk.Dec: String, Quo, MulInt, RoundInt
  pub dec_string : ℤ → Bytes
  pub dec_quo : ℤ → ℤ → Outcome ℤ
  pub dec_mul_int : ℤ → ℤ → Outcome ℤ
  pub dec_round_int : ℤ → ℤ
  -- json.Marshal of contract.SudoMsg
  pub marshal_sudo : SudoMsg → Outcome Bytes
  -- json.Unmarshal and json.Marshal of the contract's messages, queries and responses
  pub unmarshal_custom_msg : Bytes → Option CustomMsg
  pub unmarshal_custom_query : Bytes → Option CustomQuery
  pub marshal_response : QueryResponse → Outcome Bytes
  -- wasmkeeper.ConvertWasmCoinToSdkCoin and back
  pub convert_wasm_coin_to_sdk_coin : WasmCoin → Outcome Coin
  pub convert_sdk_coin_to_wasm_coin : Coin → WasmCoin

-- Documented behaviour: coins of one denomination are added, subtracted and compared by amount,
-- coins are never negative, and what is marshalled can be read back.
pub record Laws (s : Sdk) : Type 0 where
  pub new_coin_ok :
      (d : Bytes) (a : ℤ)
      → s.valid_denom d ≡ true
      → pos 0 ≤ℤ a
      → s.new_coin d a ≡ ok (record { denom = d; amount = a })
  pub add_coin_ok :
      (d : Bytes) (a b : ℤ)
      → s.add_coin (record { denom = d; amount = a }) (record { denom = d; amount = b })
        ≡ ok (record { denom = d; amount = a +ℤ b })
  pub sub_coin_ok :
      (d : Bytes) (a b : ℤ)
      → b ≤ℤ a
      → s.sub_coin (record { denom = d; amount = a }) (record { denom = d; amount = b })
        ≡ ok (record { denom = d; amount = a -ℤ b })
  pub sub_coin_panics :
      (d : Bytes) (a b : ℤ)
      → ¬ (b ≤ℤ a)
      → s.sub_coin (record { denom = d; amount = a }) (record { denom = d; amount = b }) ≡ panic
  pub amount_of_nonneg : (d : Bytes) (coins : List Coin) → pos 0 ≤ℤ s.amount_of d coins
  pub is_lt_ok :
      (d : Bytes) (a b : ℤ)
      → s.is_lt (record { denom = d; amount = a }) (record { denom = d; amount = b })
        ≡ ok (ltb_ℤ a b)
  pub validate_coin_ok :
      (d : Bytes) (a : ℤ)
      → s.valid_denom d ≡ true
      → pos 0 ≤ℤ a
      → s.validate_coin (record { denom = d; amount = a }) ≡ none
  pub validate_coin_nonneg : (c : Coin) → s.validate_coin c ≡ none → pos 0 ≤ℤ c.amount
  -- math.Int has 256 bits and a sign; a sum beyond them panics.
  pub add_int_lem : (a b : ℤ) → s.add_int a b ≡ (if fits_int (a +ℤ b) then ok (a +ℤ b) else panic)
  pub int_round_trip :
      (a : ℤ) → (b : Bytes) × (s.marshal_int a ≡ ok b) × (s.unmarshal_int b ≡ some a)
  pub params_round_trip :
      (p : Params)
      → p.epoch_length < 2 ^ 32
      → p.max_gas_end_blocker < 2 ^ 32
      → (b : Bytes) × (s.marshal_params p ≡ ok b) × (s.unmarshal_params b ≡ some p)
  pub length_prefix_ok :
      (a : Bytes) → 0 < length a → length a < 256 → s.must_length_prefix a ≡ ok (length a ∷ a)
