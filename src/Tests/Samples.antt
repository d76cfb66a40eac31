-- ===== src/Tests/Samples.antt =====
-- Concrete foreign functions, keepers and a context, for the tests.
use research_cosmos.Prelude.{
  not, ℕ, zero, suc, true, false, ◌==◌, ◌+◌, ◌≡◌, refl, Option, none, some, List, [], ◌∷◌, ◌++◌,
  arith, length, ltb, if◌then◌else◌,
}
use research_cosmos.Prelude.Int.{ℤ, pos, negsuc, pos_part, ◌+ℤ◌, ◌-ℤ◌, ◌≤ℤ◌, ltb_ℤ, is_negative}
use research_cosmos.Bytes.{Bytes}
use research_cosmos.KvStore.{KvStore}
use research_cosmos.Types.{
  Outcome, ok, err, panic, Coin, Params, Validator, foreign, invalid_request,
}
use research_cosmos.Messages.{VirtualStakeMsg}
use research_cosmos.Sdk.{Sdk, Laws, fits_int}
use research_cosmos.Ctx.{Env, World}
use research_cosmos.Keeper.{KeeperLaws, Keeper}

abbrev pub encode_int : ℤ → Bytes
encode_int (pos n) = 0 ∷ n ∷ []
encode_int (negsuc n) = 1 ∷ n ∷ []

abbrev pub decode_int : Bytes → Option ℤ
decode_int (zero ∷ n ∷ []) = some (pos n)
decode_int (suc zero ∷ n ∷ []) = some (negsuc n)
decode_int _ = none

abbrev pub encode_params : Params → Bytes
encode_params p =
    p.epoch_length ∷ p.max_gas_end_blocker ∷ encode_int p.total_contracts_max_cap.amount
    ++ p.total_contracts_max_cap.denom

abbrev pub decode_params : Bytes → Option Params
decode_params (e ∷ g ∷ zero ∷ n ∷ denom) = some (record {
  total_contracts_max_cap = record { denom = denom; amount = pos n };
  epoch_length = e;
  max_gas_end_blocker = g;
})
decode_params (e ∷ g ∷ suc zero ∷ n ∷ denom) = some (record {
  total_contracts_max_cap = record { denom = denom; amount = negsuc n };
  epoch_length = e;
  max_gas_end_blocker = g;
})
decode_params _ = none

abbrev sample_new_coin : Bytes → ℤ → Outcome Coin
sample_new_coin d (pos n) =
    if length d == 0 then panic else ok (record { denom = d; amount = pos n })
sample_new_coin d (negsuc n) = panic

abbrev sample_amount_of : Bytes → List Coin → ℤ
sample_amount_of d [] = pos 0
sample_amount_of d (c ∷ coins) = pos (pos_part c.amount)

-- Every custom message is a bond to the validator 3, of as many coins as the message has bytes.
abbrev sample_bond : Bytes → VirtualStakeMsg
sample_bond b = record {
  bond = some (record { amount = record { denom = 9 ∷ []; amount = b }; validator = 3 ∷ [] });
  unbond = none;
}

abbrev pub sample_sdk : Sdk
sample_sdk = record {
  new_coin = sample_new_coin;
  add_coin = λ a b. ok (record { denom = a.denom; amount = a.amount +ℤ b.amount });
  sub_coin = λ a b.
      if ltb_ℤ a.amount b.amount
      then panic
      else ok (record { denom = a.denom; amount = a.amount -ℤ b.amount });
  is_lt = λ a b. ok (ltb_ℤ a.amount b.amount);
  validate_coin = λ c. if is_negative c.amount then some invalid_request else none;
  valid_denom = λ d. not (length d == 0);
  new_coins = λ c. ok (c ∷ []);
  amount_of = sample_amount_of;
  add_int = λ a b. if fits_int (a +ℤ b) then ok (a +ℤ b) else panic;
  marshal_int = λ i. ok (encode_int i);
  unmarshal_int = decode_int;
  int_string = encode_int;
  int_from_string = decode_int;
  marshal_params = λ p. ok (encode_params p);
  unmarshal_params = decode_params;
  acc_address_from_bech32 = some;
  val_address_from_bech32 = some;
  acc_string = λ a. a;
  val_string = λ a. a;
  must_length_prefix = λ a. if ltb (length a) 256 then ok (length a ∷ a) else panic;
  dec_string = encode_int;
  dec_quo = λ a b. ok a;
  dec_mul_int = λ a b. ok a;
  dec_round_int = λ a. a;
  marshal_sudo = λ m. ok [];
  unmarshal_custom_msg = λ b. some (record { virtual_stake = some (sample_bond b) });
  unmarshal_custom_query = λ b.
      some (record { virtual_stake = some (record { bond_status = some b; slash_ratio = false }) });
  marshal_response = λ r. ok [];
  convert_wasm_coin_to_sdk_coin =
      λ c. ok (record { denom = c.denom; amount = pos (length c.amount) });
  convert_sdk_coin_to_wasm_coin = λ c. record { denom = c.denom; amount = [] };
}

new_coin_nonneg :
    (d : Bytes) (a : ℤ)
    → not (length d == 0) ≡ true
    → pos 0 ≤ℤ a
    → sample_new_coin d a ≡ ok (record { denom = d; amount = a })
new_coin_nonneg d (pos n) v h = ground arith
new_coin_nonneg d (negsuc n) v h = absurd (omega (arith, h))

amount_nonneg : (d : Bytes) (coins : List Coin) → pos 0 ≤ℤ sample_amount_of d coins
amount_nonneg d [] = omega arith
amount_nonneg d (c ∷ coins) = omega arith

int_round_trip : (a : ℤ) → (b : Bytes) × (ok (encode_int a) ≡ ok b) × (decode_int b ≡ some a)
int_round_trip (pos n) = (0 ∷ n ∷ [], refl, refl)
int_round_trip (negsuc n) = (1 ∷ n ∷ [], refl, refl)

pub params_of_parts :
    (e g : ℕ) (d : Bytes) (a : ℤ)
    → let p : Params = record {
      total_contracts_max_cap = record { denom = d; amount = a };
      epoch_length = e;
      max_gas_end_blocker = g;
    } in
      (b : Bytes) × (ok (encode_params p) ≡ ok b) × (decode_params b ≡ some p)
params_of_parts e g d (pos n) = (e ∷ g ∷ 0 ∷ n ∷ d, refl, refl)
params_of_parts e g d (negsuc n) = (e ∷ g ∷ 1 ∷ n ∷ d, refl, refl)

valid_nonneg :
    (d : Bytes) (a : ℤ)
    → pos 0 ≤ℤ a
    → sample_sdk.validate_coin (record { denom = d; amount = a }) ≡ none
valid_nonneg d a h = ground (arith, h)

nonneg_of_valid : (c : Coin) → sample_sdk.validate_coin c ≡ none → pos 0 ≤ℤ c.amount
nonneg_of_valid c h = ground (arith, h)

pub sample-Laws : Laws sample_sdk
sample-Laws = record {
  new_coin_ok = new_coin_nonneg;
  add_coin_ok = λ d a b. refl;
  sub_coin_ok = λ d a b h. ground arith;
  sub_coin_panics = λ d a b h. ground arith;
  amount_of_nonneg = amount_nonneg;
  is_lt_ok = λ d a b. refl;
  validate_coin_ok = λ d a v h. valid_nonneg d a h;
  validate_coin_nonneg = nonneg_of_valid;
  add_int_lem = λ a b. refl;
  int_round_trip = int_round_trip;
  params_round_trip = λ p epoch gas.
      params_of_parts p.epoch_length p.max_gas_end_blocker p.total_contracts_max_cap.denom
        p.total_contracts_max_cap.amount;
  length_prefix_ok = λ a n h. ground arith;
}

abbrev pub sample_contract : Bytes
sample_contract = 7 ∷ []

abbrev pub sample_denom : Bytes
sample_denom = 9 ∷ []

abbrev pub sample_validator : Validator
sample_validator = record {
  operator_address = 3 ∷ [];
  rate = pos 1;
  max_rate = pos 2;
  max_change_rate = pos 1;
  delegator_shares = pos 100;
  bonded = true;
}

-- The other modules' state counts the calls.
abbrev pub tick : Env ℕ → Env ℕ
tick v = record v { state = v.state + 1 }

-- The staking keeper refuses an amount of 13.
abbrev sample_delegate : ℤ → Outcome ℤ
sample_delegate a = if pos_part a == 13 then err (foreign 13) else ok a

abbrev pub sample_keeper : Keeper ℕ
sample_keeper = record {
  sdk = sample_sdk;
  bank = record {
    base = record {
      mint_coins = λ a cs v. (ok tt, tick v);
      burn_coins = λ a cs v. (ok tt, tick v);
      send_coins_from_module_to_account = λ a b cs v. (ok tt, tick v);
      send_coins_from_account_to_module = λ a b cs v. (ok tt, tick v);
      undelegate_coins_from_module_to_account = λ a b cs v. (ok tt, tick v);
    };
    add_supply_offset = λ d a v. (ok tt, tick v);
  };
  staking = record {
    base = record {
      bond_denom = λ v. sample_denom;
      get_validator = λ v a. some sample_validator;
      get_validator_by_cons_addr = λ v a. some sample_validator;
      get_delegation = λ v a b. some (pos 10);
      delegate = λ a amt val v. (sample_delegate amt, tick v);
      validate_unbond_amount = λ a b amt v. (ok amt, tick v);
      unbond = λ a b amt v. (ok amt, tick v);
    };
    instant_undelegate =
        λ a b shares v. (ok (record { denom = sample_denom; amount = shares } ∷ []), tick v);
  };
  wasm = record { sudo = λ c bz w. (ok tt, w); has_contract_info = λ v c. true };
  authority = 8 ∷ [];
}

abbrev pub sample_params : Params
sample_params = record {
  total_contracts_max_cap = record { denom = sample_denom; amount = pos 100 };
  epoch_length = 5;
  max_gas_end_blocker = 50;
}

-- The params, a limit of 40 and a total of 10 for the contract, and its repeating task at height 20.
abbrev pub sample_store : KvStore
sample_store =
    (0x1 ∷ [], 5 ∷ 50 ∷ 0 ∷ 100 ∷ 9 ∷ [])
    ∷ (0x2 ∷ 7 ∷ [], 0 ∷ 40 ∷ [])
    ∷ (0x3 ∷ 7 ∷ [], 0 ∷ 10 ∷ [])
    ∷ (0x4 ∷ 1 ∷ 0 ∷ 0 ∷ 0 ∷ 0 ∷ 0 ∷ 0 ∷ 0 ∷ 20 ∷ 7 ∷ [], 1 ∷ [])
    ∷ []

abbrev pub sample_env : Env ℕ
sample_env = record { state = 0; gas_used = 4; gas_limit = none }

-- The memory store holds the key of a bonded validator.
abbrev pub sample_world : World ℕ
sample_world = record {
  store = sample_store;
  mem = (0x5 ∷ 1 ∷ 3 ∷ 1 ∷ [], []) ∷ [];
  env = sample_env;
  events = [];
  height = 20;
  time = pos 1;
}

pub sample-KeeperLaws : KeeperLaws sample_keeper
sample-KeeperLaws = record { sdk_laws = sample-Laws; bond_denom_valid = λ v. refl }
