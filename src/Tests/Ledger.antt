-- ===== src/Tests/Ledger.antt =====
-- The ledger of virtual staking at concrete inputs.
use research_cosmos.Prelude.{ℕ, ◌≡◌, some, arith, if◌then◌else◌, Bool-cases, inl, inr}
use research_cosmos.Prelude.Int.{ℤ, pos, ◌≤ℤ◌}
use research_cosmos.Bytes.{Bytes, equal}
use research_cosmos.KvStore.{get}
use research_cosmos.Keys.{build_max_cap_limit_key, build_total_delegated_amount_key}
use research_cosmos.Keeper.Caps.Limit.{read_int}
use research_cosmos.Ctx.{World}
use research_cosmos.Keeper.Steps.{Reach, here, next, message, dispatch}
use research_cosmos.Keeper.Messages.{dispatch_msg, new_default_custom_msg_handler}
use research_cosmos.Keeper.Ledger.Calls.{Effects, Reach-Effects}
use research_cosmos.Keeper.Ledger.{Ledger, IsLedgerOf}
use research_cosmos.Abci.{default_execution_response_handler}
use research_cosmos.Abci.Failures.{default_silent}
use research_cosmos.Abci.Ledger.{Chain-IsBounded}
use research_cosmos.Tests.Samples.{
  sample_keeper, sample-KeeperLaws, sample_sdk, sample_params, sample_store, sample_contract,
  sample_world,
}
use research_cosmos.Tests.Caps.{sample_within}
use research_cosmos.Tests.Blocks.{
  sample_target, after_message, after_block, sample_request, sample-Chain,
}
use research_cosmos.Tests.Messages.{bond_msg}

-- The amount of the sample's contract, and nothing for others.
abbrev sample_amounts : ℤ → Bytes → ℤ
sample_amounts x c = if equal sample_contract c then x else pos 0

abbrev sample_ledger : Ledger
sample_ledger = record { limit = sample_amounts (pos 40); total = sample_amounts (pos 10) }

amounts_nonneg : (x : ℤ) (c : Bytes) → pos 0 ≤ℤ x → pos 0 ≤ℤ sample_amounts x c
amounts_nonneg x c h = elim (Bool-cases (equal sample_contract c)) [
  | inl q ↦ rw q h
  | inr q ↦ rw q (omega arith)
]

limits_stored :
    (c : Bytes)
    → read_int sample_sdk (get (build_max_cap_limit_key c) sample_store)
      ≡ some (sample_amounts (pos 40) c)
unfolding get equal build_max_cap_limit_key
limits_stored c = elim (Bool-cases (equal sample_contract c)) [
  | inl q ↦ ground (arith, q)
  | inr q ↦ ground (arith, q)
]

totals_stored :
    (c : Bytes)
    → read_int sample_sdk (get (build_total_delegated_amount_key c) sample_store)
      ≡ some (sample_amounts (pos 10) c)
unfolding get equal build_total_delegated_amount_key
totals_stored c = elim (Bool-cases (equal sample_contract c)) [
  | inl q ↦ ground (arith, q)
  | inr q ↦ ground (arith, q)
]

pub sample-IsLedgerOf : IsLedgerOf sample_sdk sample_store sample_ledger
sample-IsLedgerOf = record {
  limits = limits_stored;
  totals = totals_stored;
  limit_nonneg = λ c. amounts_nonneg (pos 40) c (omega arith);
  total_nonneg = λ c. amounts_nonneg (pos 10) c (omega arith);
}

amounts_below : (x : ℤ) (c : Bytes) → pos 0 ≤ℤ x → x ≤ℤ pos 100 → sample_amounts x c ≤ℤ pos 100
amounts_below x c nonneg below = elim (Bool-cases (equal sample_contract c)) [
  | inl q ↦ rw q below
  | inr q ↦ rw q (omega arith)
]

Chain-IsBounded_example :
    (m : Ledger) × IsLedgerOf sample_sdk after_block.store m
    × ((c : Bytes) → (m.limit c ≤ℤ pos 100) × (m.total c ≤ℤ pos 100))
Chain-IsBounded_example =
    Chain-IsBounded sample_keeper sample_params sample_target sample-KeeperLaws (λ c bz w. here)
      default_execution_response_handler default_silent sample_within sample-IsLedgerOf
      (λ c. (
        amounts_below (pos 40) c (omega arith) (omega arith),
        amounts_below (pos 10) c (omega arith) (omega arith),
      ))
      sample-Chain

-- A limit of 60, and a bond of the contract.
abbrev after_bond : World ℕ
after_bond =
    (dispatch_msg (new_default_custom_msg_handler sample_keeper) sample_contract bond_msg
      after_message).1

abbrev sample_calls : Reach sample_keeper sample_target sample_world after_bond
sample_calls = next (next here (message sample_request)) (dispatch sample_contract bond_msg)

Reach-Effects_example :
    (m : Ledger) × IsLedgerOf sample_sdk after_bond.store m
    × Effects sample_keeper sample_target sample_calls sample_ledger m
Reach-Effects_example =
    Reach-Effects sample_keeper sample_target sample-KeeperLaws sample_params sample_calls
      sample_within sample-IsLedgerOf
