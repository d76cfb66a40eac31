-- ===== src/Types.antt =====
-- The values that the modules exchange: x/meshsecurity/types (errors, params, task types, valset
-- operations), contract/out_message.go and in_message.go, and the SDK's coins and validators as
-- far as their fields are read here.
use research_cosmos.Prelude.{ℕ, Option, List, Bool, ◌-◌, ◌%◌, ◌^◌, ltb, if◌then◌else◌}
use research_cosmos.Prelude.Int.{ℤ, pos, negsuc}
use research_cosmos.Bytes.{Bytes}

-- types/errors.go, the SDK errors that the code returns by name, and the errors of foreign code:
-- of decoding an address or a JSON text, and others by a number.
pub data Error : Type 0 where
  invalid max_cap_exceeded unsupported unknown : Error
  invalid_request invalid_coins invalid_address invalid_signer : Error
  unauthorized json_unmarshal unknown_msg unsupported_request : Error
  no_validator_found no_delegation no_delegator_for_address : Error
  bad_bech32 bad_json : Error
  recovered_panic : Error
  no_authority : Error
  invalid_validator_address invalid_slash_amount validator_not_found : Error
  foreign : ℕ → Error

-- A Go call: it returns, returns an error, or panics.
pub data Outcome (A : Type 0) : Type 0 where
  ok : A → Outcome A
  err : Error → Outcome A
  panic : Outcome A

-- `sdk.Coin` with a set amount
pub record Coin : Type 0 where
  pub denom : Bytes
  pub amount : ℤ

-- `sdk.Coin` whose `Amount` may be nil
pub record CoinArg : Type 0 where
  pub denom : Bytes
  pub amount : Option ℤ

-- `types.Params`; the last two fields are `uint32`
pub record Params : Type 0 where
  pub total_contracts_max_cap : Coin
  pub epoch_length : ℕ
  pub max_gas_end_blocker : ℕ

-- What the module reads of `stakingtypes.Validator`; a `sdk.Dec` is its underlying integer.
pub record Validator : Type 0 where
  pub operator_address : Bytes
  pub rate : ℤ
  pub max_rate : ℤ
  pub max_change_rate : ℤ
  pub delegator_shares : ℤ
  pub bonded : Bool

-- `types.SchedulerTaskType`, a byte
abbrev pub SchedulerTaskType : Type 0
SchedulerTaskType = ℕ

abbrev pub task_undefined : SchedulerTaskType
task_undefined = 0

abbrev pub task_handle_epoch : SchedulerTaskType
task_handle_epoch = 1

abbrev pub task_valset_update : SchedulerTaskType
task_valset_update = 2

-- `types.PipedValsetOperation`, a byte
abbrev pub PipedValsetOperation : Type 0
PipedValsetOperation = ℕ

abbrev pub valset_operation_undefined : PipedValsetOperation
valset_operation_undefined = 0

abbrev pub validator_bonded : PipedValsetOperation
validator_bonded = 1

abbrev pub validator_unbonded : PipedValsetOperation
validator_unbonded = 2

abbrev pub validator_jailed : PipedValsetOperation
validator_jailed = 3

abbrev pub validator_tombstoned : PipedValsetOperation
validator_tombstoned = 4

abbrev pub validator_unjailed : PipedValsetOperation
validator_unjailed = 5

abbrev pub validator_modified : PipedValsetOperation
validator_modified = 6

abbrev pub validator_slashed : PipedValsetOperation
validator_slashed = 7

-- `types.SlashInfo`; the two numbers are `int64`
pub record SlashInfo : Type 0 where
  pub infraction_height : ℤ
  pub power : ℤ
  pub total_slash_amount : Bytes
  pub slash_fraction : Bytes

-- `wasmvmtypes.Validator`
pub record WasmValidator : Type 0 where
  pub address : Bytes
  pub commission : Bytes
  pub max_commission : Bytes
  pub max_change_rate : Bytes

-- `contract.ValidatorSlash`
pub record ValidatorSlash : Type 0 where
  pub validator_addr : Bytes
  pub height : ℤ
  pub time : ℤ
  pub infraction_height : ℤ
  pub infraction_time : ℤ
  pub power : ℤ
  pub slash_amount : Bytes
  pub slash_ratio : Bytes

-- `contract.ValsetUpdate`
pub record ValsetUpdate : Type 0 where
  pub additions : List WasmValidator
  pub removals : List Bytes
  pub updated : List WasmValidator
  pub jailed : List Bytes
  pub unjailed : List Bytes
  pub tombstoned : List Bytes
  pub slashed : List ValidatorSlash

-- `contract.SudoMsg`
pub record SudoMsg : Type 0 where
  pub handle_epoch : Bool
  pub valset_update : Option ValsetUpdate

-- types/events.go, and the two events of the message handler
pub data Event : Type 0 where
  scheduler_execution : Bytes → Option Error → Event
  scheduler_registered : Bytes → ℕ → Bool → Event
  max_cap_limit_updated : Bytes → Coin → Event
  instant_delegate : Bytes → Coin → Bytes → Event
  instant_unbond : Bytes → Coin → Bytes → Event

-- `uint64(x)` of an `int64`, and `int64(n)` of a `uint64`
unfoldable pub to_uint64 : ℤ → ℕ
to_uint64 (pos n) = n % 2 ^ 64
to_uint64 (negsuc n) = 2 ^ 64 - 1 - n % 2 ^ 64

unfoldable pub to_int64 : ℕ → ℤ
to_int64 n = if ltb n (2 ^ 63) then pos n else negsuc (2 ^ 64 - 1 - n)
