-- ===== src/Abci.antt =====
-- x/meshsecurity/abci.go: the end blocker, and the handlers of its results.
pub mod Failures
pub mod Writes
pub mod Blocks
pub mod Ledger
use research_cosmos.Prelude.{Option, none, some, List, [], ◌∷◌, if◌then◌else◌}
use research_cosmos.Prelude.Int.{ℤ, pos, is_zero}
use research_cosmos.Bytes.{Bytes}
use research_cosmos.Types.{
  Outcome, ok, err, panic, invalid_validator_address, invalid_slash_amount, validator_not_found,
  ValidatorSlash, task_handle_epoch, task_valset_update,
}
use research_cosmos.Ctx.{World, M, ◌>>=◌, ◌>>◌, pure, lift, gets, or_fail, or_panic}
use research_cosmos.Keeper.{Keeper}
use research_cosmos.Keeper.Params.{get_rebalance_epoch_length}
use research_cosmos.Keeper.Scheduler.Exec.{ExecResult, exec_scheduled_tasks}
use research_cosmos.Keeper.Valset.{clear_piped_valset_operations}
use research_cosmos.Keeper.Valset.Report.{valset_update_report}
use research_cosmos.Keeper.Messages.{send_valset_update, send_handle_epoch}

-- `TaskExecutionResponseHandler`
abbrev pub ResponseHandler : Type 0 → Type 0
ResponseHandler E = ExecResult → M E Unit

module _ {E : Type 0} where
  -- `DefaultExecutionResponseHandler`: an error of the execution is logged before the
  -- re-scheduling is looked at.
  unfoldable pub default_execution_response_handler : ResponseHandler E
  default_execution_response_handler r = elim r.exec_err [
    | some e ↦ pure tt
    | none ↦ elim r.reschedule_err [ some e ↦ or_panic none | none ↦ pure tt ]
  ]

  unfoldable pub panic_on_error_execution_response_handler : ResponseHandler E
  panic_on_error_execution_response_handler r = elim r.exec_err [
    | some e ↦ or_panic none
    | none ↦ elim r.reschedule_err [
      | some e ↦ or_panic none
      | none ↦ elim r.delete_task_err [ some e ↦ or_panic none | none ↦ pure tt ]
    ]
  ]

  abbrev pub handle_all : ResponseHandler E → List ExecResult → M E Unit
  handle_all h [] = pure tt
  handle_all h (r ∷ rest) = do h r; handle_all h rest

  -- `rspHandler`: an error of the scheduler panics.
  abbrev pub handle_results :
      ResponseHandler E → Outcome (List ExecResult) × World E → Outcome Unit × World E
  handle_results h (ok results, w) = handle_all h results w
  handle_results h (err e, w) = (panic, w)
  handle_results h (panic, w) = (panic, w)

  unfoldable pub rsp_handler : ResponseHandler E → M E (List ExecResult) → M E Unit
  rsp_handler h m w = handle_results h (m w)

module _ {E : Type 0} (k : Keeper E) where
  -- `delegation.GetShares()`, or zero if there is no delegation
  abbrev pub shares_or_zero : Option ℤ → ℤ
  shares_or_zero none = pos 0
  shares_or_zero (some shares) = shares

  -- The share of the slashed amount that falls on the contract's delegation.
  unfoldable pub delegator_slash_amount : Bytes → Bytes → ℤ → ℤ → M E ℤ
  delegator_slash_amount contract val_addr validator_shares total_slash_amount =
      if is_zero validator_shares then pure (pos 0) else (do
        delegation ← gets (λ w. k.staking.get_delegation w.env contract val_addr)
        ratio ← lift (k.sdk.dec_quo (shares_or_zero delegation) validator_shares)
        lift (k.sdk.dec_mul_int ratio total_slash_amount))

  -- The body of the loop over `report.Slashed`.
  unfoldable pub scale_slash : Bytes → ValidatorSlash → M E ValidatorSlash
  unfolding delegator_slash_amount
  scale_slash contract slash = do
    val_addr ←
        or_fail (k.sdk.val_address_from_bech32 slash.validator_addr) invalid_validator_address
    total_slash_amount ← or_fail (k.sdk.int_from_string slash.slash_amount) invalid_slash_amount
    validator ← or_fail (← gets (λ w. k.staking.get_validator w.env val_addr)) validator_not_found
    amount ← delegator_slash_amount contract val_addr validator.delegator_shares total_slash_amount
    pure (record slash { slash_amount = k.sdk.int_string (k.sdk.dec_round_int amount) })

  unfoldable pub scale_slashes : Bytes → List ValidatorSlash → M E (List ValidatorSlash)
  unfolding scale_slash
  scale_slashes contract [] = pure []
  scale_slashes contract (slash ∷ rest) = do
    s ← scale_slash contract slash
    r ← scale_slashes contract rest
    pure (s ∷ r)

  -- The callback for the valset update tasks.
  unfoldable pub report_valset_update : Bytes → M E Unit
  unfolding scale_slashes valset_update_report
  report_valset_update contract = do
    report ← valset_update_report k
    slashed ← scale_slashes contract report.slashed
    send_valset_update k contract (record report { slashed = slashed })

  unfoldable pub end_blocker : ResponseHandler E → M E Unit
  unfolding report_valset_update rsp_handler
  end_blocker h = do
    epoch_length ← get_rebalance_epoch_length k
    rsp_handler h (exec_scheduled_tasks k task_valset_update epoch_length report_valset_update)
    clear_piped_valset_operations
    rsp_handler h (exec_scheduled_tasks k task_handle_epoch epoch_length (send_handle_epoch k))
