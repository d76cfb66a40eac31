-- ===== src/Keeper/Valset/Report.antt =====
-- `ValsetUpdateReport` of x/meshsecurity/keeper/valset_updates.go.
use research_cosmos.Prelude.{Bool, false, [], ◌∷◌, ◌++◌, ◌==◌, if◌then◌else◌}
use research_cosmos.Prelude.Int.{pos}
use research_cosmos.Bytes.{Bytes}
use research_cosmos.Types.{
  invalid, unknown, Validator, WasmValidator, ValidatorSlash, ValsetUpdate, SlashInfo,
  validator_bonded, validator_unbonded, validator_jailed, validator_tombstoned, validator_unjailed,
  validator_modified, validator_slashed,
}
use research_cosmos.Sdk.{Sdk}
use research_cosmos.Ctx.{M, ◌>>=◌, pure, fail, gets, or_fail, or_panic}
use research_cosmos.Keeper.{Keeper}
use research_cosmos.Keeper.Valset.{PipedOp, iterate_piped_valset_operations}

unfoldable pub convert_sdk_validator_to_wasm : Sdk → Validator → WasmValidator
convert_sdk_validator_to_wasm sdk v = record {
  address = v.operator_address;
  commission = sdk.dec_string v.rate;
  max_commission = sdk.dec_string v.max_rate;
  max_change_rate = sdk.dec_string v.max_change_rate;
}

abbrev pub empty_report : ValsetUpdate
empty_report = record {
  additions = [];
  removals = [];
  updated = [];
  jailed = [];
  unjailed = [];
  tombstoned = [];
  slashed = [];
}

module _ {E : Type 0} (k : Keeper E) where
  -- the lookup and conversion of `appendValidator`
  abbrev pub wasm_validator : Bytes → M E WasmValidator
  wasm_validator val_addr = do
    val ← or_fail (← gets (λ w. k.staking.get_validator w.env val_addr)) unknown
    pure (convert_sdk_validator_to_wasm k.sdk val)

  -- `slashValidator` with an infraction time of 0
  abbrev pub validator_slash : Bytes → SlashInfo → M E ValidatorSlash
  validator_slash val_addr i w =
      pure
        (record {
          validator_addr = k.sdk.val_string val_addr;
          height = pos w.height;
          time = w.time;
          infraction_height = i.infraction_height;
          infraction_time = pos 0;
          power = i.power;
          slash_amount = i.total_slash_amount;
          slash_ratio = i.slash_fraction;
        })
        w

  abbrev pub go_on : ValsetUpdate → M E (ValsetUpdate × Bool)
  go_on r = pure (r, false)

  -- The `switch` of the callback. Setting `innerErr` stops the loop, and the report is an error.
  unfoldable pub add_to_report : ValsetUpdate → PipedOp → M E (ValsetUpdate × Bool)
  unfolding convert_sdk_validator_to_wasm
  add_to_report r p =
      let addr = k.sdk.val_string p.val_address in
      if p.op == validator_bonded
      then (do
        v ← wasm_validator p.val_address
        go_on (record r { additions = r.additions ++ v ∷ [] }))
      else if p.op == validator_unbonded
      then go_on (record r { removals = r.removals ++ addr ∷ [] })
      else if p.op == validator_jailed
      then go_on (record r { jailed = r.jailed ++ addr ∷ [] })
      else if p.op == validator_tombstoned
      then go_on (record r { tombstoned = r.tombstoned ++ addr ∷ [] })
      else if p.op == validator_unjailed
      then go_on (record r { unjailed = r.unjailed ++ addr ∷ [] })
      else if p.op == validator_modified
      then (do v ← wasm_validator p.val_address; go_on (record r { updated = r.updated ++ v ∷ [] }))
      else if p.op == validator_slashed
      then (do
        i ← or_panic p.slash_info
        s ← validator_slash p.val_address i
        go_on (record r { slashed = r.slashed ++ s ∷ [] }))
      else fail invalid

  unfoldable pub valset_update_report : M E ValsetUpdate
  unfolding iterate_piped_valset_operations add_to_report
  valset_update_report = iterate_piped_valset_operations add_to_report empty_report
