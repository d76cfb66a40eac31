-- ===== src/Keeper/Ledger.antt =====
-- What the stores of x/meshsecurity mean: for each contract its max cap limit and its delegated
-- total (x/meshsecurity/keeper/keeper.go and stake.go).
pub mod Writes
pub mod Delegate
pub mod Undelegate
pub mod Refines
pub mod Calls
use research_cosmos.Prelude.{◌≡◌, some, if◌then◌else◌}
use research_cosmos.Prelude.Int.{ℤ, pos, ◌≤ℤ◌}
use research_cosmos.Bytes.{Bytes, equal}
use research_cosmos.KvStore.{KvStore, get}
use research_cosmos.Sdk.{Sdk}
use research_cosmos.Keys.{build_max_cap_limit_key, build_total_delegated_amount_key}
use research_cosmos.Keeper.Caps.Limit.{read_int}

pub record Ledger : Type 0 where
  pub limit : Bytes → ℤ
  pub total : Bytes → ℤ

-- the function with one value replaced
abbrev pub put : Bytes → ℤ → (Bytes → ℤ) → Bytes → ℤ
put c x f d = if equal c d then x else f d

-- A store shows a ledger: what is stored can be decoded, and a missing key is a zero.
pub record IsLedgerOf (sdk : Sdk) (s : KvStore) (l : Ledger) : Type 0 where
  pub limits : (c : Bytes) → read_int sdk (get (build_max_cap_limit_key c) s) ≡ some (l.limit c)
  pub totals :
      (c : Bytes) → read_int sdk (get (build_total_delegated_amount_key c) s) ≡ some (l.total c)
  pub limit_nonneg : (c : Bytes) → pos 0 ≤ℤ l.limit c
  pub total_nonneg : (c : Bytes) → pos 0 ≤ℤ l.total c
