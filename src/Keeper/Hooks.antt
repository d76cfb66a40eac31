-- ===== src/Keeper/Hooks.antt =====
-- x/meshsecurity/keeper/staking_hooks.go: which staking hooks are captured.
use research_cosmos.Prelude.{ℕ}
use research_cosmos.Prelude.Int.{ℤ}
use research_cosmos.Bytes.{Bytes}
use research_cosmos.Ctx.{M, pure}
use research_cosmos.Keeper.{Keeper}
use research_cosmos.Keeper.Valset.{schedule_bonded, schedule_unbonded, schedule_modified}

-- The calls of `stakingtypes.StakingHooks`, each with its addresses and values.
pub data Hook : Type 0 where
  after_validator_bonded : Bytes → Bytes → Hook
  after_validator_begin_unbonding : Bytes → Bytes → Hook
  before_validator_slashed : Bytes → ℤ → Hook
  after_unbonding_initiated : ℕ → Hook
  before_validator_modified : Bytes → Hook
  after_validator_created : Bytes → Hook
  after_validator_removed : Bytes → Bytes → Hook
  before_delegation_created : Bytes → Bytes → Hook
  before_delegation_shares_modified : Bytes → Bytes → Hook
  before_delegation_removed : Bytes → Bytes → Hook
  after_delegation_modified : Bytes → Bytes → Hook

-- The methods of `Hooks`.
unfoldable pub run_hook : {E : Type 0} → Keeper E → Hook → M E Unit
unfolding schedule_bonded schedule_unbonded schedule_modified
run_hook k (after_validator_bonded cons val_addr) = schedule_bonded k val_addr
run_hook k (after_validator_begin_unbonding cons val_addr) = schedule_unbonded k val_addr
run_hook k (before_validator_modified val_addr) = schedule_modified k val_addr
run_hook k _ = pure tt
