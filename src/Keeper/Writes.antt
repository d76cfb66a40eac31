-- ===== src/Keeper/Writes.antt =====
-- Predicates of the context that every write of the module keeps.
pub mod Tasks
pub mod Stake
pub mod Valset
pub mod Handlers
pub mod Caps
pub mod Exec
use research_cosmos.Prelude.{ℕ, ◌≡◌, none, Bool, List, [], ◌∷◌}
use research_cosmos.Prelude.Int.{ℤ, pos, ◌≤ℤ◌}
use research_cosmos.Bytes.{Bytes}
use research_cosmos.KvStore.{KvStore, set, delete}
use research_cosmos.Types.{Coin, CoinArg, Event, SchedulerTaskType}
use research_cosmos.Ctx.{World, Env}
use research_cosmos.Ctx.Keeps.{Keeps}
use research_cosmos.Keys.Scheduler.{task_key}
use research_cosmos.Keeper.{Keeper}
use research_cosmos.Keeper.Caps.{set_max_cap_limit}
use research_cosmos.Keeper.Stake.{delegate, undelegate}
use research_cosmos.Keeper.Scheduler.{to_byte}

-- The writes that every call may make: the other modules' side, the events, the memory store and the
-- tasks.
pub record IsTaskClosed {E : Type 0} (P : World E → Type 0) : Type 0 where
  pub env : (w : World E) (v : Env E) → P w → P (record w { env = v })
  pub events : (w : World E) (es : List Event) → P w → P (record w { events = es })
  pub mem : (w : World E) (m : KvStore) → P w → P (record w { mem = m })
  pub set_task :
      (w : World E) (tp : SchedulerTaskType) (h : ℕ) (c : Bytes) (b : Bool)
      → P w
      → P (record w { store = set (task_key tp h c) (to_byte b ∷ []) w.store })
  pub delete_task :
      (w : World E) (tp : SchedulerTaskType) (h : ℕ) (c : Bytes)
      → P w
      → P (record w { store = delete (task_key tp h c) w.store })

pub record IsWriteClosed {E : Type 0} (k : Keeper E) (P : World E → Type 0) : Type 0 where
  pub tasks : IsTaskClosed P
  pub stake : (actor val_addr : Bytes) (arg : CoinArg) → Keeps P (delegate k actor val_addr arg)
  pub unstake : (actor val_addr : Bytes) (arg : CoinArg) → Keeps P (undelegate k actor val_addr arg)
  pub set_cap :
      (c : Bytes) (coin : Coin)
      → k.sdk.validate_coin coin ≡ none
      → Keeps P (set_max_cap_limit k c coin)
