-- ===== src/Abci/Ledger.antt =====
-- A chain of blocks and the ledger of virtual staking.
use research_cosmos.Prelude.{◌≡◌}
use research_cosmos.Prelude.Int.{◌≤ℤ◌}
use research_cosmos.Bytes.{Bytes}
use research_cosmos.Types.{Params}
use research_cosmos.Ctx.{World}
use research_cosmos.Keeper.{Keeper, KeeperLaws}
use research_cosmos.Keeper.Adapter.{SlashingTarget}
use research_cosmos.Keeper.Caps.Total.{IsWithinTotal}
use research_cosmos.Keeper.Steps.{SudoReaches}
use research_cosmos.Keeper.Scheduler.Exec.{ExecResult}
use research_cosmos.Keeper.Ledger.{Ledger, IsLedgerOf}
use research_cosmos.Keeper.Ledger.Refines.{IsFollowed, IsFollowed-IsWriteClosed}
use research_cosmos.Abci.{ResponseHandler}
use research_cosmos.Abci.Blocks.{Chain, Chain-keeps}

module _ {E : Type 0} (k : Keeper E) (p : Params) (s : SlashingTarget E) (laws : KeeperLaws k)
    (reaches : SudoReaches k s) (handler : ResponseHandler E) where
  -- With the laws of the SDK, contracts that call this module only in the modelled ways, and a
  -- response handler that leaves the state alone: from a store that shows a ledger of limits and
  -- delegated totals, with caps within the total of the params and each limit and each delegated
  -- total at most that total, every chain of calls, end blockers and new blocks leads to a store
  -- that shows such a ledger. So no contract's delegated total, and no limit, is ever above the
  -- total of the params.
  pub Chain-IsBounded :
      {l : Ledger} {w v : World E}
      → ((r : ExecResult) (u : World E) → (handler r u).1 ≡ u)
      → IsWithinTotal k.sdk p w.store
      → IsLedgerOf k.sdk w.store l
      → ((c : Bytes)
          → (l.limit c ≤ℤ p.total_contracts_max_cap.amount)
            × (l.total c ≤ℤ p.total_contracts_max_cap.amount))
      → Chain k s handler w v
      → (m : Ledger) × IsLedgerOf k.sdk v.store m
        × ((c : Bytes)
            → (m.limit c ≤ℤ p.total_contracts_max_cap.amount)
              × (m.total c ≤ℤ p.total_contracts_max_cap.amount))
  Chain-IsBounded {l} silent within shown bounded c =
      (Chain-keeps k s reaches handler silent (IsFollowed k laws p)
        (IsFollowed-IsWriteClosed k laws p) (λ u time i. i) c (within, (l, shown, bounded))).1
