-- ===== src/Keeper/MsgServer.antt =====
-- x/meshsecurity/keeper/msg_server.go and `ValidateBasic` of types/tx.go.
pub mod Invariant
pub mod Tasks
use research_cosmos.Prelude.{◌≡◌, arith, true, not, Option, none, some, if◌then◌else◌}
use research_cosmos.Prelude.Int.{is_zero}
use research_cosmos.Bytes.{Bytes, equal}
use research_cosmos.Types.{Error, invalid_address, bad_bech32, invalid_signer, task_handle_epoch}
use research_cosmos.Messages.{MsgSetVirtualStakingMaxCap}
use research_cosmos.Sdk.{Sdk}
use research_cosmos.Ctx.{M, ◌>>=◌, ◌>>◌, pure, gets, check, or_fail, fail_if}
use research_cosmos.Keeper.{Keeper}
use research_cosmos.Keeper.Caps.{set_max_cap_limit}
use research_cosmos.Keeper.Scheduler.{
  has_scheduled_task, schedule_regular_rebalance_task, delete_all_scheduled_tasks,
  schedule_one_shot_task,
}

abbrev pub address_error : Error → Option Bytes → Option Error
address_error e none = some e
address_error e (some a) = none

-- the first error of two
abbrev pub or_else : Option Error → Option Error → Option Error
or_else (some e) f = some e
or_else none f = f

unfoldable pub validate_basic : Sdk → MsgSetVirtualStakingMaxCap → Option Error
validate_basic sdk msg =
    or_else (address_error invalid_address (sdk.acc_address_from_bech32 msg.authority)) (
      or_else (address_error bad_bech32 (sdk.acc_address_from_bech32 msg.contract))
        (sdk.validate_coin msg.max_cap))

-- A message that is valid has a valid coin.
pub valid_coin :
    (sdk : Sdk) (msg : MsgSetVirtualStakingMaxCap)
    → validate_basic sdk msg ≡ none
    → sdk.validate_coin msg.max_cap ≡ none
unfolding validate_basic
valid_coin sdk msg h = ground (arith, h)

module _ {E : Type 0} (k : Keeper E) where
  -- What follows once a repeating task was found.
  unfoldable pub reschedule_known : Bytes → MsgSetVirtualStakingMaxCap → M E Unit
  unfolding delete_all_scheduled_tasks schedule_one_shot_task
  reschedule_known acc req = do
    (if is_zero req.max_cap.amount
        then delete_all_scheduled_tasks task_handle_epoch acc
        else pure tt)
    height ← gets (λ w. w.height)
    schedule_one_shot_task task_handle_epoch acc height

  unfoldable pub set_virtual_staking_max_cap : MsgSetVirtualStakingMaxCap → M E Unit
  unfolding validate_basic set_max_cap_limit has_scheduled_task schedule_regular_rebalance_task
      reschedule_known
  set_virtual_staking_max_cap req = do
    check (validate_basic k.sdk req)
    fail_if (not (equal k.authority req.authority)) invalid_signer
    acc ← or_fail (k.sdk.acc_address_from_bech32 req.contract) bad_bech32
    set_max_cap_limit k acc req.max_cap
    known ← has_scheduled_task task_handle_epoch acc true
    if known then reschedule_known acc req else schedule_regular_rebalance_task k acc
