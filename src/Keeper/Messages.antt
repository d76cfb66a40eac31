-- ===== src/Keeper/Messages.antt =====
-- x/meshsecurity/keeper/handler_plugin.go: the messages of contracts, and keeper/wasm.go: the sudo
-- calls of contracts.
pub mod Access
pub mod Accounted
use research_cosmos.Prelude.{
  Bool, true, false, not, ◌&&◌, Option, none, some, List, [], ◌∷◌, if◌then◌else◌,
}
use research_cosmos.Prelude.Int.{ℤ}
use research_cosmos.Bytes.{Bytes}
use research_cosmos.Types.{
  CoinArg, Event, instant_delegate, instant_unbond, unknown_msg, json_unmarshal, unauthorized,
  unsupported, bad_bech32, SudoMsg, ValsetUpdate,
}
use research_cosmos.Messages.{BondMsg, UnbondMsg, CosmosMsg}
use research_cosmos.Ctx.{M, ◌>>=◌, ◌>>◌, pure, fail, lift, or_fail, fail_if}
use research_cosmos.Sdk.{Sdk}
use research_cosmos.Keeper.{Keeper}
use research_cosmos.Keeper.Caps.{has_max_cap_limit}
use research_cosmos.Keeper.Stake.{delegate, undelegate}

-- `msKeeper` and `AuthSource`: the extension points of `CustomMsgHandler`
pub record CustomMsgHandler (E : Type 0) : Type 0 where
  pub sdk : Sdk
  pub delegate : Bytes → Bytes → CoinArg → M E ℤ
  pub undelegate : Bytes → Bytes → CoinArg → M E Unit
  pub is_authorized : Bytes → M E Bool

-- `NewDefaultCustomMsgHandler`, with `defaultMaxCapAuthorizator`
unfoldable pub new_default_custom_msg_handler : {E : Type 0} → Keeper E → CustomMsgHandler E
unfolding delegate undelegate has_max_cap_limit
new_default_custom_msg_handler k = record {
  sdk = k.sdk;
  delegate = delegate k;
  undelegate = undelegate k;
  is_authorized = has_max_cap_limit k;
}

module _ {E : Type 0} (h : CustomMsgHandler E) where
  unfoldable pub handle_bond_msg : Bytes → BondMsg → M E (List Event)
  handle_bond_msg actor bond_msg = do
    coin ← lift (h.sdk.convert_wasm_coin_to_sdk_coin bond_msg.amount)
    val_addr ← or_fail (h.sdk.val_address_from_bech32 bond_msg.validator) bad_bech32
    h.delegate actor val_addr (record { denom = coin.denom; amount = some coin.amount })
    pure (instant_delegate (h.sdk.val_string val_addr) coin (h.sdk.acc_string actor) ∷ [])

  unfoldable pub handle_unbond_msg : Bytes → UnbondMsg → M E (List Event)
  handle_unbond_msg actor bond_msg = do
    coin ← lift (h.sdk.convert_wasm_coin_to_sdk_coin bond_msg.amount)
    val_addr ← or_fail (h.sdk.val_address_from_bech32 bond_msg.validator) bad_bech32
    h.undelegate actor val_addr (record { denom = coin.denom; amount = some coin.amount })
    pure (instant_unbond (h.sdk.val_string val_addr) coin (h.sdk.acc_string actor) ∷ [])

  -- The `switch`: a bond comes before an unbond.
  abbrev pub handle_virtual_stake : Bytes → Option BondMsg → Option UnbondMsg → M E (List Event)
  handle_virtual_stake actor (some bond) u = handle_bond_msg actor bond
  handle_virtual_stake actor none (some unbond) = handle_unbond_msg actor unbond
  handle_virtual_stake actor none none = fail unknown_msg

  unfoldable pub dispatch_msg : Bytes → CosmosMsg → M E (List Event)
  unfolding handle_bond_msg handle_unbond_msg
  dispatch_msg contract_addr msg = do
    custom ← or_fail msg.custom unknown_msg
    custom_msg ← or_fail (h.sdk.unmarshal_custom_msg custom) json_unmarshal
    virtual_stake ← or_fail custom_msg.virtual_stake unknown_msg
    authorized ← h.is_authorized contract_addr
    fail_if (not authorized) unauthorized
    handle_virtual_stake contract_addr virtual_stake.bond virtual_stake.unbond

-- `NewIntegrityHandler` over a `maxCapSource`
unfoldable pub integrity_handler :
    {E : Type 0} → (Bytes → M E Bool) → Bytes → CosmosMsg → M E (List Event)
integrity_handler has_limit contract_addr msg =
    if not msg.stargate && not msg.staking
    then fail unknown_msg
    else (do limited ← has_limit contract_addr; fail_if (not limited) unknown_msg; fail unsupported)

module _ {E : Type 0} (k : Keeper E) where
  unfoldable pub do_sudo_call : Bytes → SudoMsg → M E Unit
  do_sudo_call contract_addr msg = do
    bz ← lift (k.sdk.marshal_sudo msg)
    k.wasm.sudo contract_addr bz

  unfoldable pub send_handle_epoch : Bytes → M E Unit
  unfolding do_sudo_call
  send_handle_epoch contract_addr =
      do_sudo_call contract_addr (record { handle_epoch = true; valset_update = none })

  unfoldable pub send_valset_update : Bytes → ValsetUpdate → M E Unit
  unfolding do_sudo_call
  send_valset_update contract_addr v =
      do_sudo_call contract_addr (record { handle_epoch = false; valset_update = some v })
