-- ===== src/Tests/Demo.antt =====
-- The demo application at concrete inputs.
use research_cosmos.Prelude.{
  ℕ, ◌≡◌, refl, true, false, inl, inr, Bool-cases, Option, none, some, List, [], ◌∷◌, arith,
  if◌then◌else◌, Any, All, ◌⊎◌, ◌≢◌,
}
use research_cosmos.Prelude.Int.{pos}
use research_cosmos.Bytes.{Bytes, equal}
use research_cosmos.Bytes.Order.{equal_sound}
use research_cosmos.Types.{ok, err, unknown_msg, unsupported}
use research_cosmos.Messages.{CosmosMsg}
use research_cosmos.Ctx.{World, pure}
use research_cosmos.Keeper.Messages.{new_default_custom_msg_handler, dispatch_msg}
use research_cosmos.Demo.Handlers.{
  Messenger, IsHandlerChain, if_unknown, is_guarded, mesh_message_handler, mesh_message_handler_lem,
}
use research_cosmos.Demo.Export.Height.{KeepsHeight}
use research_cosmos.Demo.Export.Height.Prepared.{zero_only, prep_for_zero_height_genesis-height}
use research_cosmos.Demo.Export.{
  prep_for_zero_height_genesis, StakingValidator, ExportKeepers, reset_validators,
}
use research_cosmos.Demo.Export.Validators.{IsValidatorStore, IsReset, reset_validators_lem}
use research_cosmos.Tests.Samples.{sample_keeper, sample_world, sample_contract}

abbrev try_all : List (Messenger ℕ) → Messenger ℕ
try_all [] c msg w = (err unknown_msg, w)
try_all (h ∷ hs) c msg w = if_unknown (h c msg w) (try_all hs c msg)

try_all-IsHandlerChain : IsHandlerChain try_all
try_all-IsHandlerChain = record {
  no_handler = λ c msg w. refl;
  first_handler = λ h hs c msg w. refl;
}

-- A staking message, which the nested handler would accept.
abbrev sample_msg : CosmosMsg
sample_msg = record { custom = none; stargate = false; staking = true }

abbrev accept : Messenger ℕ
accept c msg = pure []

mesh_message_handler_lem_example :
    mesh_message_handler sample_keeper try_all accept sample_contract sample_msg sample_world ≡ (
      if is_guarded sample_keeper try_all sample_contract sample_msg sample_world
      then (err unsupported, sample_world)
      else if_unknown (accept sample_contract sample_msg sample_world) (λ v.
        if_unknown
          (dispatch_msg (new_default_custom_msg_handler sample_keeper) sample_contract sample_msg v)
          (λ u. (err unknown_msg, u))))
mesh_message_handler_lem_example =
    mesh_message_handler_lem sample_keeper try_all try_all-IsHandlerChain accept sample_contract
      sample_msg sample_world

-- The staking keeper's state is the list of all writes, the last one first.
abbrev Writes : Type 0
Writes = List StakingValidator

abbrev find : Bytes → Writes → Option StakingValidator
find a [] = none
find a (v ∷ vs) = if equal v.operator a then some v else find a vs

find_operator : (v : StakingValidator) (a : Bytes) (s : Writes) → find a s ≡ some v → v.operator ≡ a
find_operator v a [] e = absurd (none_some e)
  where
    none_some : {A : Type 0} {x : A} → none ≡ some x → ⊥
    none_some e = ground (arith, e)
find_operator v a (u ∷ s) e = elim (Bool-cases (equal u.operator a)) [
  | inl same ↦
      let first : u ≡ v = ground (arith, rw same at e) in
      rw (← first) (equal_sound u.operator a same)
  | inr other ↦ find_operator v a s (rw other at e)
]

abbrev sample_keepers : ExportKeepers Writes
sample_keepers = record {
  assert_invariants = pure tt;
  validators = λ w. (1 ∷ []) ∷ [];
  withdraw_validator_commission = λ a. pure tt;
  get_all_delegations = λ w. record { delegator_address = 7 ∷ []; validator_address = 1 ∷ [] } ∷ [];
  withdraw_delegation_rewards = λ a b. pure tt;
  delete_all_validator_slash_events = pure tt;
  delete_all_validator_historical_rewards = pure tt;
  outstanding_rewards = λ w a. [];
  community_pool = λ w. [];
  set_community_pool = λ c. pure tt;
  add_coins = λ c d. c;
  after_validator_created = λ a. pure tt;
  before_delegation_created = λ a b. pure tt;
  after_delegation_modified = λ a b. pure tt;
  redelegations = λ w. [];
  set_redelegation = λ r. pure tt;
  unbonding_delegations = λ w. [];
  set_unbonding_delegation = λ u. pure tt;
  validator_keys = λ w. (2 ∷ []) ∷ (1 ∷ []) ∷ [];
  get_validator = λ w a. find a w.env.state;
  set_validator = λ v w. (ok tt, record w { env = record w.env { state = v ∷ w.env.state } });
  apply_and_return_validator_set_updates = pure tt;
  signing_infos = λ w. [];
  set_validator_signing_info = λ a i. pure tt;
  val_address_from_bech32 = some;
  acc_address_from_bech32 = some;
  val_string = λ a. a;
}

sample-IsValidatorStore : IsValidatorStore sample_keepers
sample-IsValidatorStore = record {
  set_validator_ok = λ v w. refl;
  get_set = λ v a w. refl;
  found_operator = λ v a w e. find_operator v a w.env.state e;
}

-- Two validators, of which the second one is allowed.
abbrev first_validator : StakingValidator
first_validator = record {
  operator = 1 ∷ [];
  jailed = false;
  tokens = pos 5;
  unbonding_height = pos 9;
}

abbrev second_validator : StakingValidator
second_validator = record {
  operator = 2 ∷ [];
  jailed = false;
  tokens = pos 6;
  unbonding_height = pos 8;
}

abbrev staking_world : World Writes
staking_world = record {
  store = [];
  mem = [];
  env = record { state = first_validator ∷ second_validator ∷ []; gas_used = 0; gas_limit = none };
  events = [];
  height = 30;
  time = pos 0;
}

abbrev sample_keys : List Bytes
sample_keys = (2 ∷ []) ∷ (1 ∷ []) ∷ []

abbrev sample_allowed : List Bytes
sample_allowed = (2 ∷ []) ∷ []

reset_validators_lem_example :
    (v : World Writes) × (reset_validators sample_keepers sample_allowed sample_keys staking_world
      ≡ (ok tt, v))
    × ((a : Bytes)
        → (Any (λ (b : Bytes). b ≡ a) sample_keys
            × ((before : StakingValidator) × (after : StakingValidator)
                × (sample_keepers.get_validator staking_world a ≡ some before)
                × (sample_keepers.get_validator v a ≡ some after)
                × IsReset sample_allowed a before after))
          ⊎ (All (λ (b : Bytes). b ≢ a) sample_keys
              × (sample_keepers.get_validator v a ≡ sample_keepers.get_validator staking_world a)))
unfolding equal
reset_validators_lem_example =
    reset_validators_lem sample_keepers sample-IsValidatorStore sample_allowed sample_keys
      staking_world ((second_validator, refl), ((first_validator, refl), tt))

sample-KeepsHeight : (n : ℕ) → KeepsHeight sample_keepers n
sample-KeepsHeight n = record {
  assert_invariants = λ w h. h;
  withdraw_validator_commission = λ a w h. h;
  withdraw_delegation_rewards = λ d v w h. h;
  delete_all_validator_slash_events = λ w h. h;
  delete_all_validator_historical_rewards = λ w h. h;
  set_community_pool = λ c w h. h;
  after_validator_created = λ a w h. h;
  before_delegation_created = λ d v w h. h;
  after_delegation_modified = λ d v w h. h;
  set_redelegation = λ r w h. h;
  set_unbonding_delegation = λ u w h. h;
  set_validator = λ v w h. h;
  apply_and_return_validator_set_updates = λ w h. h;
  set_validator_signing_info = λ a i w h. h;
}

abbrev prepared : World Writes
prepared = (prep_for_zero_height_genesis sample_keepers sample_allowed staking_world).1

sample_prepared :
    prep_for_zero_height_genesis sample_keepers sample_allowed staking_world ≡ (ok tt, prepared)
unfolding prep_for_zero_height_genesis equal
sample_prepared = refl

prep_for_zero_height_genesis-height_example :
    (prepared.height ≡ 30)
    × (prep_for_zero_height_genesis (zero_only sample_keepers) sample_allowed staking_world
        ≡ (ok tt, prepared))
prep_for_zero_height_genesis-height_example =
    prep_for_zero_height_genesis-height sample_keepers sample-KeepsHeight sample_allowed
      staking_world prepared sample_prepared
