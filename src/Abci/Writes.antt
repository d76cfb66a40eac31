-- ===== src/Abci/Writes.antt =====
-- What the end blocker of x/meshsecurity/abci.go keeps, with contracts that keep it.
use research_cosmos.Prelude.{ℕ, Bool, Option, List, [], ◌∷◌, ◌++◌, ◌==◌, arith, if◌then◌else◌}
use research_cosmos.Prelude.Int.{ℤ, pos, is_zero}
use research_cosmos.Bytes.{Bytes}
use research_cosmos.KvStore.{KvStore, entries}
use research_cosmos.Types.{
  Outcome, ok, err, panic, SudoMsg, ValsetUpdate, ValidatorSlash, Validator, WasmValidator,
  SlashInfo, unknown, invalid_validator_address, invalid_slash_amount, validator_not_found,
  validator_bonded, validator_unbonded, validator_jailed, validator_tombstoned, validator_unjailed,
  validator_modified, validator_slashed, task_handle_epoch, task_valset_update,
}
use research_cosmos.Ctx.{World, M, ◌>>=◌, pure, fail, lift, gets, or_fail, or_panic}
use research_cosmos.Ctx.Keeps.{Keeps, Keeps-bind, Keeps-or_fail, Keeps-or_panic, Keeps-if}
use research_cosmos.Keys.{piped_valset_prefix}
use research_cosmos.Keeper.{Keeper}
use research_cosmos.Keeper.Piped.{PipedOp, decode_piped_key}
use research_cosmos.Keeper.Valset.{
  iterate_piped, iterate_piped_valset_operations, delete_keys, clear_piped_valset_operations,
}
use research_cosmos.Keeper.Valset.Report.{
  convert_sdk_validator_to_wasm, empty_report, wasm_validator, validator_slash, go_on,
  add_to_report, valset_update_report,
}
use research_cosmos.Keeper.Messages.{do_sudo_call, send_valset_update, send_handle_epoch}
use research_cosmos.Keeper.Params.{get_rebalance_epoch_length}
use research_cosmos.Keeper.Scheduler.Exec.{ExecResult, exec_scheduled_tasks}
use research_cosmos.Keeper.Writes.{IsTaskClosed}
use research_cosmos.Keeper.Writes.Tasks.{Keeps-epoch_length}
use research_cosmos.Keeper.Writes.Exec.{Keeps-exec_scheduled_tasks}
use research_cosmos.Abci.{
  ResponseHandler, handle_all, handle_results, rsp_handler, shares_or_zero, delegator_slash_amount,
  scale_slash, scale_slashes, report_valset_update, end_blocker,
}

-- The report only reads.
module _ {E : Type 0} (k : Keeper E) (P : World E → Type 0) where
  Keeps-wasm_validator : (a : Bytes) → Keeps P (wasm_validator k a)
  Keeps-wasm_validator a =
      let convert : Validator → M E WasmValidator =
        λ v. pure (convert_sdk_validator_to_wasm k.sdk v) in
      let found : Option Validator → M E WasmValidator = λ o. or_fail o unknown >>= convert in
      Keeps-bind P (gets (λ w. k.staking.get_validator w.env a)) found (λ w h. h)
        (λ o. Keeps-bind P (or_fail o unknown) convert (Keeps-or_fail P o unknown) (λ v w h. h))

  Keeps-add_to_report : (r : ValsetUpdate) (p : PipedOp) → Keeps P (add_to_report k r p)
  unfolding add_to_report
  Keeps-add_to_report r p =
      let Next = M E (ValsetUpdate × Bool) in
      let addr = k.sdk.val_string p.val_address in
      let added : WasmValidator → Next =
        λ v. go_on k (record r { additions = r.additions ++ v ∷ [] }) in
      let updated : WasmValidator → Next =
        λ v. go_on k (record r { updated = r.updated ++ v ∷ [] }) in
      let append : ValidatorSlash → Next =
        λ s. go_on k (record r { slashed = r.slashed ++ s ∷ [] }) in
      let info : SlashInfo → Next = λ i. validator_slash k p.val_address i >>= append in
      let bonded : Next = wasm_validator k p.val_address >>= added in
      let removal : Next = go_on k (record r { removals = r.removals ++ addr ∷ [] }) in
      let jail : Next = go_on k (record r { jailed = r.jailed ++ addr ∷ [] }) in
      let tombstone : Next = go_on k (record r { tombstoned = r.tombstoned ++ addr ∷ [] }) in
      let unjail : Next = go_on k (record r { unjailed = r.unjailed ++ addr ∷ [] }) in
      let modified : Next = wasm_validator k p.val_address >>= updated in
      let slashed : Next = or_panic p.slash_info >>= info in
      let last : Next = if p.op == validator_slashed then slashed else fail _ in
      let sixth : Next = if p.op == validator_modified then modified else last in
      let fifth : Next = if p.op == validator_unjailed then unjail else sixth in
      let fourth : Next = if p.op == validator_tombstoned then tombstone else fifth in
      let third : Next = if p.op == validator_jailed then jail else fourth in
      let second : Next = if p.op == validator_unbonded then removal else third in
      Keeps-if P (p.op == validator_bonded) bonded second
        (Keeps-bind P (wasm_validator k p.val_address) added (Keeps-wasm_validator p.val_address)
          (λ v w h. h))
        (Keeps-if P (p.op == validator_unbonded) removal third (λ w h. h)
          (Keeps-if P (p.op == validator_jailed) jail fourth (λ w h. h)
            (Keeps-if P (p.op == validator_tombstoned) tombstone fifth (λ w h. h)
              (Keeps-if P (p.op == validator_unjailed) unjail sixth (λ w h. h)
                (Keeps-if P (p.op == validator_modified) modified last
                  (Keeps-bind P (wasm_validator k p.val_address) updated
                    (Keeps-wasm_validator p.val_address) (λ v w h. h))
                  (Keeps-if P (p.op == validator_slashed) slashed (fail _)
                    (Keeps-bind P (or_panic p.slash_info) info (Keeps-or_panic P p.slash_info)
                      (λ i w h. h))
                    (λ w h. h)))))))

  Keeps-piped :
      {S : Type 0} (cb : S → PipedOp → M E (S × Bool)) (x : S) (s : KvStore)
      → ((x : S) (p : PipedOp) → Keeps P (cb x p))
      → Keeps P (iterate_piped cb x s)
  unfolding iterate_piped
  Keeps-piped cb x [] hc = λ w h. h
  Keeps-piped {S} cb x ((key, value) ∷ s) hc =
      let next : S × Bool → M E S = λ r. if r.1 then pure r.0 else iterate_piped cb r.0 s in
      let body : PipedOp → M E S = λ p. cb x p >>= next in
      Keeps-bind P (lift (decode_piped_key key)) body (λ w h. h)
        (λ p. Keeps-bind P (cb x p) next (hc x p) (λ r.
          Keeps-if P r.1 (pure r.0) (iterate_piped cb r.0 s) (λ w h. h) (Keeps-piped cb r.0 s hc)))

  Keeps-report : Keeps P (valset_update_report k)
  unfolding valset_update_report iterate_piped_valset_operations
  Keeps-report w h =
      Keeps-piped (add_to_report k) empty_report (entries piped_valset_prefix w.mem)
        Keeps-add_to_report w h

  Keeps-scale_slash : (c : Bytes) (x : ValidatorSlash) → Keeps P (scale_slash k c x)
  unfolding scale_slash delegator_slash_amount
  Keeps-scale_slash c x =
      let scaled : ℤ → M E ValidatorSlash = λ amount.
        pure (record x { slash_amount = k.sdk.int_string (k.sdk.dec_round_int amount) }) in
      let times : ℤ → ℤ → M E ℤ = λ total ratio. lift (k.sdk.dec_mul_int ratio total) in
      let share : ℤ → ℤ → Option ℤ → M E ℤ =
        λ shares total d. lift (k.sdk.dec_quo (shares_or_zero k d) shares) >>= times total in
      let delegated : Bytes → ℤ → ℤ → M E ℤ =
        λ a shares total. gets (λ w. k.staking.get_delegation w.env c a) >>= share shares total in
      let amount : Bytes → ℤ → ℤ → M E ℤ =
        λ a shares total. if is_zero shares then pure (pos 0) else delegated a shares total in
      let checked : Bytes → ℤ → Validator → M E ValidatorSlash =
        λ a total v. amount a v.delegator_shares total >>= scaled in
      let found : Bytes → ℤ → Option Validator → M E ValidatorSlash =
        λ a total o. or_fail o validator_not_found >>= checked a total in
      let look_up : Bytes → ℤ → M E ValidatorSlash =
        λ a total. gets (λ w. k.staking.get_validator w.env a) >>= found a total in
      let parse : Bytes → M E ValidatorSlash =
        λ a. or_fail (k.sdk.int_from_string x.slash_amount) invalid_slash_amount >>= look_up a in
      Keeps-bind P
        (or_fail (k.sdk.val_address_from_bech32 x.validator_addr) invalid_validator_address) parse
        (Keeps-or_fail P (k.sdk.val_address_from_bech32 x.validator_addr) invalid_validator_address)
        (λ a.
          Keeps-bind P (or_fail (k.sdk.int_from_string x.slash_amount) invalid_slash_amount)
            (look_up a)
            (Keeps-or_fail P (k.sdk.int_from_string x.slash_amount) invalid_slash_amount)
            (λ total.
              Keeps-bind P (gets (λ w. k.staking.get_validator w.env a)) (found a total) (λ w h. h)
                (λ o.
                  Keeps-bind P (or_fail o validator_not_found) (checked a total)
                    (Keeps-or_fail P o validator_not_found)
                    (λ v.
                      Keeps-bind P (amount a v.delegator_shares total) scaled
                        (Keeps-if P (is_zero v.delegator_shares) (pure (pos 0))
                          (delegated a v.delegator_shares total) (λ w h. h)
                          (Keeps-bind P (gets (λ w. k.staking.get_delegation w.env c a))
                            (share v.delegator_shares total) (λ w h. h)
                            (λ d.
                              Keeps-bind P
                                (lift (k.sdk.dec_quo (shares_or_zero k d) v.delegator_shares))
                                (times total) (λ w h. h) (λ ratio w h. h))))
                        (λ z w h. h)))))

  Keeps-scale_slashes : (c : Bytes) (xs : List ValidatorSlash) → Keeps P (scale_slashes k c xs)
  unfolding scale_slashes
  Keeps-scale_slashes c [] = λ w h. h
  Keeps-scale_slashes c (x ∷ xs) =
      let last : ValidatorSlash → M E (List ValidatorSlash) =
        λ s. scale_slashes k c xs >>= λ r. pure (s ∷ r) in
      Keeps-bind P (scale_slash k c x) last (Keeps-scale_slash c x) (λ s.
        Keeps-bind P (scale_slashes k c xs) (λ r. pure (s ∷ r)) (Keeps-scale_slashes c xs)
          (λ r w h. h))

  -- The two callbacks of the end blocker.
  module _ (sudo : (c bz : Bytes) → Keeps P (k.wasm.sudo c bz)) where
    Keeps-do_sudo_call : (c : Bytes) (m : SudoMsg) → Keeps P (do_sudo_call k c m)
    unfolding do_sudo_call
    Keeps-do_sudo_call c m =
        Keeps-bind P (lift (k.sdk.marshal_sudo m)) (k.wasm.sudo c) (λ w h. h) (sudo c)

    pub Keeps-send_handle_epoch : (c : Bytes) → Keeps P (send_handle_epoch k c)
    unfolding send_handle_epoch
    Keeps-send_handle_epoch c = Keeps-do_sudo_call c _

    pub Keeps-report_valset_update : (c : Bytes) → Keeps P (report_valset_update k c)
    unfolding report_valset_update send_valset_update
    Keeps-report_valset_update c =
        let send : ValsetUpdate → List ValidatorSlash → M E Unit =
          λ r xs. send_valset_update k c (record r { slashed = xs }) in
        let scale : ValsetUpdate → M E Unit = λ r. scale_slashes k c r.slashed >>= send r in
        Keeps-bind P (valset_update_report k) scale Keeps-report (λ r.
          Keeps-bind P (scale_slashes k c r.slashed) (send r) (Keeps-scale_slashes c r.slashed)
            (λ xs. Keeps-do_sudo_call c _))

module _ {E : Type 0} (P : World E → Type 0) (handler : ResponseHandler E)
    (told : (r : ExecResult) → Keeps P (handler r)) where
  Keeps-handle_all : (rs : List ExecResult) → Keeps P (handle_all handler rs)
  Keeps-handle_all [] = λ w h. h
  Keeps-handle_all (r ∷ rs) =
      Keeps-bind P (handler r) (λ _. handle_all handler rs) (told r) (λ _. Keeps-handle_all rs)

  Keeps-rsp_handler : (m : M E (List ExecResult)) → Keeps P m → Keeps P (rsp_handler handler m)
  unfolding rsp_handler
  Keeps-rsp_handler m hm w h = go (m w).0 (m w).1 (hm w h)
    where
      go : (r : Outcome (List ExecResult)) (v : World E) → P v → P (handle_results handler (r, v)).1
      go (ok rs) v i = Keeps-handle_all rs v i
      go (err e) v i = i
      go panic v i = i

module _ {E : Type 0} (k : Keeper E) (P : World E → Type 0) (closed : IsTaskClosed P)
    (sudo : (c bz : Bytes) → Keeps P (k.wasm.sudo c bz)) where
  pub Keeps-clear : Keeps P (clear_piped_valset_operations {E = E})
  unfolding clear_piped_valset_operations
  Keeps-clear w h =
      closed.mem w (delete_keys piped_valset_prefix (entries piped_valset_prefix w.mem) w.mem) h

  pub Keeps-end_blocker :
      (handler : ResponseHandler E)
      → ((r : ExecResult) → Keeps P (handler r))
      → Keeps P (end_blocker k handler)
  unfolding end_blocker
  Keeps-end_blocker handler told =
      let epochs : ℕ → M E (List ExecResult) =
        λ epoch. exec_scheduled_tasks k task_handle_epoch epoch (send_handle_epoch k) in
      let updates : ℕ → M E (List ExecResult) =
        λ epoch. exec_scheduled_tasks k task_valset_update epoch (report_valset_update k) in
      let last : ℕ → Unit → M E Unit = λ epoch _. rsp_handler handler (epochs epoch) in
      let clear : ℕ → Unit → M E Unit = λ epoch _. clear_piped_valset_operations >>= last epoch in
      let run : ℕ → M E Unit = λ epoch. rsp_handler handler (updates epoch) >>= clear epoch in
      Keeps-bind P (get_rebalance_epoch_length k) run (Keeps-epoch_length k P closed) (λ epoch.
        Keeps-bind P (rsp_handler handler (updates epoch)) (clear epoch)
          (Keeps-rsp_handler P handler told (updates epoch) (
            Keeps-exec_scheduled_tasks k P closed task_valset_update epoch (report_valset_update k)
              (omega arith) (Keeps-report_valset_update k P sudo)))
          (λ _. Keeps-bind P clear_piped_valset_operations (last epoch) Keeps-clear (λ _.
            Keeps-rsp_handler P handler told (epochs epoch) (
              Keeps-exec_scheduled_tasks k P closed task_handle_epoch epoch (send_handle_epoch k)
                (omega arith) (Keeps-send_handle_epoch k P sudo)))))
