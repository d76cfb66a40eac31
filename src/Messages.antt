-- ===== src/Messages.antt =====
-- x/meshsecurity/contract/in_message.go and query.go: the messages and queries of a contract, with
-- an absent pointer as `none`, and the parts of the wasm messages that the handlers read.
use research_cosmos.Prelude.{Bool, Option}
use research_cosmos.Bytes.{Bytes}
use research_cosmos.Types.{Coin}

-- `wasmvmtypes.Coin`: the amount is a text
pub record WasmCoin : Type 0 where
  pub denom : Bytes
  pub amount : Bytes

-- `contract.BondMsg`, and `contract.UnbondMsg`, which has the same fields
pub record BondMsg : Type 0 where
  pub amount : WasmCoin
  pub validator : Bytes

abbrev pub UnbondMsg : Type 0
UnbondMsg = BondMsg

pub record VirtualStakeMsg : Type 0 where
  pub bond : Option BondMsg
  pub unbond : Option UnbondMsg

pub record CustomMsg : Type 0 where
  pub virtual_stake : Option VirtualStakeMsg

-- `wasmvmtypes.CosmosMsg`: whether a Stargate or a Staking message is set, and the custom bytes
pub record CosmosMsg : Type 0 where
  pub custom : Option Bytes
  pub stargate : Bool
  pub staking : Bool

-- `contract.VirtualStakeQuery`: the contract of a bond status query, a slash ratio query
pub record VirtualStakeQuery : Type 0 where
  pub bond_status : Option Bytes
  pub slash_ratio : Bool

pub record CustomQuery : Type 0 where
  pub virtual_stake : Option VirtualStakeQuery

-- the two responses
pub data QueryResponse : Type 0 where
  bond_status_response : WasmCoin → WasmCoin → QueryResponse
  slash_ratio_response : Bytes → Bytes → QueryResponse

-- `types.MsgSetVirtualStakingMaxCap`
pub record MsgSetVirtualStakingMaxCap : Type 0 where
  pub authority : Bytes
  pub contract : Bytes
  pub max_cap : Coin
