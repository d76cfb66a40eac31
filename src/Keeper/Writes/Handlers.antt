-- ===== src/Keeper/Writes/Handlers.antt =====
-- The writes of the message server and of the custom message handler.
use research_cosmos.Prelude.{
  ◌≡◌, Bool, true, not, Option, none, some, List, [], ◌∷◌, arith, if◌then◌else◌,
}
use research_cosmos.Prelude.Int.{ℤ, is_zero}
use research_cosmos.Bytes.{Bytes, equal}
use research_cosmos.Types.{
  bad_bech32, invalid_signer, unauthorized, unknown_msg, json_unmarshal, Event, Coin, CoinArg,
  task_handle_epoch, instant_delegate, instant_unbond,
}
use research_cosmos.Messages.{
  MsgSetVirtualStakingMaxCap, CosmosMsg, CustomMsg, VirtualStakeMsg, BondMsg, UnbondMsg,
}
use research_cosmos.Ctx.{World, M, ◌>>=◌, pure, lift, gets, or_fail, fail_if}
use research_cosmos.Ctx.Keeps.{
  Keeps, Keeps-bind, Keeps-valid, Keeps-or_fail, Keeps-given, Keeps-fail_if, Keeps-if,
}
use research_cosmos.Keeper.{Keeper}
use research_cosmos.Keeper.Writes.{IsTaskClosed}
use research_cosmos.Keeper.Writes.Tasks.{
  Keeps-one_shot, Keeps-has_scheduled_task, Keeps-delete_all, Keeps-regular,
}
use research_cosmos.Keeper.Caps.{set_max_cap_limit, has_max_cap_limit}
use research_cosmos.Keeper.Scheduler.{
  has_scheduled_task, schedule_one_shot_task, delete_all_scheduled_tasks,
  schedule_regular_rebalance_task,
}
use research_cosmos.Keeper.Stake.{delegate, undelegate}
use research_cosmos.Keeper.MsgServer.{
  valid_coin, validate_basic, reschedule_known, set_virtual_staking_max_cap,
}
use research_cosmos.Keeper.Messages.{
  CustomMsgHandler, new_default_custom_msg_handler, handle_bond_msg, handle_unbond_msg,
  handle_virtual_stake, dispatch_msg,
}

module _ {E : Type 0} (k : Keeper E) (P : World E → Type 0) (closed : IsTaskClosed P) where
  Keeps-known : (c : Bytes) (req : MsgSetVirtualStakingMaxCap) → Keeps P (reschedule_known k c req)
  unfolding reschedule_known
  Keeps-known c req =
      let clear : M E Unit =
        if is_zero req.max_cap.amount
        then delete_all_scheduled_tasks task_handle_epoch c
        else pure tt in
      let last : Unit → M E Unit =
        λ _. gets (λ w. w.height) >>= λ h. schedule_one_shot_task task_handle_epoch c h in
      Keeps-bind P clear last
        (Keeps-if P (is_zero req.max_cap.amount) (delete_all_scheduled_tasks task_handle_epoch c)
          (pure tt) (Keeps-delete_all k P closed c) (λ w h. h))
        (λ _ w h. Keeps-one_shot k P closed task_handle_epoch c w.height (omega arith) w h)

  pub Keeps-set_virtual_staking_max_cap :
      (req : MsgSetVirtualStakingMaxCap)
      → ((acc : Bytes)
          → k.sdk.acc_address_from_bech32 req.contract ≡ some acc
          → k.sdk.validate_coin req.max_cap ≡ none
          → Keeps P (set_max_cap_limit k acc req.max_cap))
      → Keeps P (set_virtual_staking_max_cap k req)
  unfolding set_virtual_staking_max_cap
  Keeps-set_virtual_staking_max_cap req set_cap =
      let schedule : Bytes → Bool → M E Unit = λ acc known.
        if known then reschedule_known k acc req else schedule_regular_rebalance_task k acc in
      let look_up : Bytes → Unit → M E Unit =
        λ acc _. has_scheduled_task task_handle_epoch acc true >>= schedule acc in
      let cap : Bytes → M E Unit = λ acc. set_max_cap_limit k acc req.max_cap >>= look_up acc in
      let address : Unit → M E Unit =
        λ _. or_fail (k.sdk.acc_address_from_bech32 req.contract) bad_bech32 >>= cap in
      let authorize : Unit → M E Unit =
        λ _. fail_if (not (equal k.authority req.authority)) invalid_signer >>= address in
      Keeps-valid P (validate_basic k.sdk req) authorize (λ valid.
        Keeps-bind P (fail_if (not (equal k.authority req.authority)) invalid_signer) address
          (Keeps-fail_if P (not (equal k.authority req.authority)) invalid_signer)
          (λ _.
            Keeps-given P (k.sdk.acc_address_from_bech32 req.contract) bad_bech32 cap (λ acc known.
              Keeps-bind P (set_max_cap_limit k acc req.max_cap) (look_up acc)
                (set_cap acc known (valid_coin k.sdk req valid))
                (λ _.
                  Keeps-bind P (has_scheduled_task task_handle_epoch acc true) (schedule acc)
                    (Keeps-has_scheduled_task k P closed acc true)
                    (λ has_task.
                      Keeps-if P has_task (reschedule_known k acc req)
                        (schedule_regular_rebalance_task k acc) (Keeps-known acc req)
                        (Keeps-regular k P closed acc))))))

  module _ (actor : Bytes)
      (keep_stake : (val_addr : Bytes) (arg : CoinArg) → Keeps P (delegate k actor val_addr arg))
      (keep_unstake : (val_addr : Bytes) (arg : CoinArg)
        → Keeps P (undelegate k actor val_addr arg)) where
    abbrev handler : CustomMsgHandler E
    handler = new_default_custom_msg_handler k

    Keeps-bond : (b : BondMsg) → Keeps P (handle_bond_msg handler actor b)
    unfolding handle_bond_msg new_default_custom_msg_handler
    Keeps-bond b =
        let arg : Coin → CoinArg =
          λ coin. record { denom = coin.denom; amount = some coin.amount } in
        let event : Coin → Bytes → ℤ → M E (List Event) = λ coin v _.
          pure (instant_delegate (k.sdk.val_string v) coin (k.sdk.acc_string actor) ∷ []) in
        let stake : Coin → Bytes → M E (List Event) =
          λ coin v. delegate k actor v (arg coin) >>= event coin v in
        let address : Coin → M E (List Event) =
          λ coin. or_fail (k.sdk.val_address_from_bech32 b.validator) bad_bech32 >>= stake coin in
        Keeps-bind P (lift (k.sdk.convert_wasm_coin_to_sdk_coin b.amount)) address (λ w h. h)
          (λ coin.
            Keeps-bind P (or_fail (k.sdk.val_address_from_bech32 b.validator) bad_bech32)
              (stake coin) (Keeps-or_fail P (k.sdk.val_address_from_bech32 b.validator) bad_bech32)
              (λ v.
                Keeps-bind P (delegate k actor v (arg coin)) (event coin v)
                  (keep_stake v (arg coin)) (λ _ w h. h)))

    Keeps-unbond : (b : UnbondMsg) → Keeps P (handle_unbond_msg handler actor b)
    unfolding handle_unbond_msg new_default_custom_msg_handler
    Keeps-unbond b =
        let arg : Coin → CoinArg =
          λ coin. record { denom = coin.denom; amount = some coin.amount } in
        let event : Coin → Bytes → Unit → M E (List Event) = λ coin v _.
          pure (instant_unbond (k.sdk.val_string v) coin (k.sdk.acc_string actor) ∷ []) in
        let stake : Coin → Bytes → M E (List Event) =
          λ coin v. undelegate k actor v (arg coin) >>= event coin v in
        let address : Coin → M E (List Event) =
          λ coin. or_fail (k.sdk.val_address_from_bech32 b.validator) bad_bech32 >>= stake coin in
        Keeps-bind P (lift (k.sdk.convert_wasm_coin_to_sdk_coin b.amount)) address (λ w h. h)
          (λ coin.
            Keeps-bind P (or_fail (k.sdk.val_address_from_bech32 b.validator) bad_bech32)
              (stake coin) (Keeps-or_fail P (k.sdk.val_address_from_bech32 b.validator) bad_bech32)
              (λ v.
                Keeps-bind P (undelegate k actor v (arg coin)) (event coin v)
                  (keep_unstake v (arg coin)) (λ _ w h. h)))

    Keeps-virtual_stake :
        (b : Option BondMsg) (u : Option UnbondMsg)
        → Keeps P (handle_virtual_stake handler actor b u)
    Keeps-virtual_stake (some b) u = Keeps-bond b
    Keeps-virtual_stake none (some u) = Keeps-unbond u
    Keeps-virtual_stake none none = λ w h. h

    pub Keeps-dispatch_msg : (msg : CosmosMsg) → Keeps P (dispatch_msg handler actor msg)
    unfolding dispatch_msg new_default_custom_msg_handler has_max_cap_limit
    Keeps-dispatch_msg msg =
        let stake =
          λ (v : VirtualStakeMsg) (_ : Unit). handle_virtual_stake handler actor v.bond v.unbond in
        let test = λ (v : VirtualStakeMsg) (b : Bool). fail_if (not b) unauthorized >>= stake v in
        let authorize = λ (v : VirtualStakeMsg). has_max_cap_limit k actor >>= test v in
        let virtual = λ (m : CustomMsg). or_fail m.virtual_stake unknown_msg >>= authorize in
        let decode =
          λ (bz : Bytes). or_fail (k.sdk.unmarshal_custom_msg bz) json_unmarshal >>= virtual in
        Keeps-bind P (or_fail msg.custom unknown_msg) decode
          (Keeps-or_fail P msg.custom unknown_msg)
          (λ bz.
            Keeps-bind P (or_fail (k.sdk.unmarshal_custom_msg bz) json_unmarshal) virtual
              (Keeps-or_fail P (k.sdk.unmarshal_custom_msg bz) json_unmarshal)
              (λ m.
                Keeps-bind P (or_fail m.virtual_stake unknown_msg) authorize
                  (Keeps-or_fail P m.virtual_stake unknown_msg)
                  (λ v.
                    Keeps-bind P (has_max_cap_limit k actor) (test v) (λ w h. h)
                      (λ b.
                        Keeps-bind P (fail_if (not b) unauthorized) (stake v)
                          (Keeps-fail_if P (not b) unauthorized)
                          (λ _. Keeps-virtual_stake v.bond v.unbond)))))
