-- ===== src/Demo/Upgrades.antt =====
-- demo/app/upgrades.go: the key tables of the params subspaces, the upgrade handler, and the stores
-- that an upgrade adds.
pub mod Tables
use research_cosmos.Prelude.{
  Bool, true, false, not, ◌&&◌, Option, none, some, List, [], ◌∷◌, if◌then◌else◌,
}
use research_cosmos.Prelude.Int.{ℤ}
use research_cosmos.Bytes.{Bytes, equal}
use research_cosmos.Types.{Outcome, ok, err, panic}
use research_cosmos.Ctx.{M}
use research_cosmos.AppModule.{or_die}
use research_cosmos.Fallible.{◌>>=◌}

-- "v046-to-v047"
abbrev pub upgrade_name : Bytes
upgrade_name =
    b'v' ∷ b'0' ∷ b'4' ∷ b'6' ∷ b'-' ∷ b't' ∷ b'o' ∷ b'-' ∷ b'v' ∷ b'0' ∷ b'4' ∷ b'7' ∷ []

-- The constants of the SDK's and wasmd's packages: the names of the subspaces with a legacy key
-- table, with that table, and the names of the modules whose stores the upgrade adds.
pub record ParamTable (K : Type 0) : Type 0 where
  pub module_name : Bytes
  pub param_key_table : K

pub record Packages (K : Type 0) : Type 0 where
  pub auth : ParamTable K
  pub bank : ParamTable K
  pub staking : ParamTable K
  pub mint : ParamTable K
  pub distr : ParamTable K
  pub slashing : ParamTable K
  pub gov : ParamTable K
  pub crisis : ParamTable K
  pub ibc_transfer : ParamTable K
  pub ica_host : ParamTable K
  pub ica_controller : ParamTable K
  pub wasm : ParamTable K
  pub consensus_module_name : Bytes

-- What the code reads of a `paramstypes.Subspace`.
pub record Subspace (K : Type 0) : Type 0 where
  pub name : Bytes
  pub key_table : Option K

abbrev pub has_key_table : {K : Type 0} → Subspace K → Bool
has_key_table s = elim s.key_table [ none ↦ false | some table ↦ true ]

-- `upgradetypes.Plan`, as far as it is read, and `storetypes.StoreUpgrades` at a height
pub record UpgradeInfo : Type 0 where
  pub name : Bytes
  pub height : ℤ

pub record StoreLoader : Type 0 where
  pub height : ℤ
  pub added : List Bytes

-- `Subspace.WithKeyTable`, the new subspace of the base application with the key table of the
-- consensus params, and the upgrade keeper's reads.
pub record UpgradeCalls (K : Type 0) : Type 0 where
  pub with_key_table : Subspace K → K → Outcome (Subspace K)
  pub base_app_legacy_subspace : Outcome (Subspace K)
  pub read_upgrade_info_from_disk : Outcome UpgradeInfo
  pub is_skip_height : ℤ → Bool

-- The subspaces, the name of the upgrade handler with the subspace that it migrates, and the store
-- loader that was set, if one was.
pub record Registered (K : Type 0) : Type 0 where
  pub subspaces : List (Subspace K)
  pub handler_name : Bytes
  pub handler_subspace : Subspace K
  pub store_loader : Option StoreLoader

module _ {K : Type 0} (packages : Packages K) where
  open packages use {
    auth, bank, staking, mint, distr, slashing, gov, crisis, ibc_transfer, ica_host, ica_controller,
    wasm,
  }

  -- The cases of the `switch`, in order.
  abbrev pub cases : List (ParamTable K)
  cases =
      auth ∷ bank ∷ staking ∷ mint ∷ distr ∷ slashing ∷ gov ∷ crisis ∷ ibc_transfer ∷ ica_host
      ∷ ica_controller ∷ wasm ∷ []

  -- The first case with the name; without one the loop goes on.
  abbrev pub switch_name : Bytes → List (ParamTable K) → Option K
  switch_name name [] = none
  switch_name name (c ∷ cs) =
      let rest = switch_name name cs in
      if equal name c.module_name then some c.param_key_table else rest

  abbrev fresh : ParamTable K → Subspace K
  fresh c = record { name = c.module_name; key_table = none }

  -- `initParamsKeeper`: the subspaces that are made, which have no key table yet, with the names
  -- of the ibc and the mesh-security module
  abbrev pub init_params_keeper : Bytes → Bytes → List (Subspace K)
  init_params_keeper ibc_name meshsec_name =
      fresh auth
      ∷ fresh bank
      ∷ fresh staking
      ∷ fresh mint
      ∷ fresh distr
      ∷ fresh slashing
      ∷ fresh gov
      ∷ fresh crisis
      ∷ fresh ibc_transfer
      ∷ record { name = ibc_name; key_table = none }
      ∷ fresh ica_host
      ∷ fresh ica_controller
      ∷ fresh wasm
      ∷ record { name = meshsec_name; key_table = none }
      ∷ []

  module _ (calls : UpgradeCalls K) where
    abbrev pub set_key_table : Subspace K → Option K → Outcome (Subspace K)
    set_key_table s none = ok s
    set_key_table s (some table) =
        if not (has_key_table s) then calls.with_key_table s table else ok s

    unfoldable pub set_key_tables : List (Subspace K) → Outcome (List (Subspace K))
    set_key_tables [] = ok []
    set_key_tables (s ∷ rest) = do
      s' ← set_key_table s (switch_name s.name cases)
      rest' ← set_key_tables rest
      ok (s' ∷ rest')

    abbrev pub choose_store_loader : UpgradeInfo → Option StoreLoader
    choose_store_loader info =
        if equal info.name upgrade_name && not (calls.is_skip_height info.height)
        then some (record {
          height = info.height;
          added = packages.consensus_module_name ∷ crisis.module_name ∷ [];
        })
        else none

    -- `RegisterUpgradeHandlers`
    unfoldable pub register_upgrade_handlers : List (Subspace K) → Outcome (Registered K)
    unfolding set_key_tables
    register_upgrade_handlers subspaces = do
      subspaces' ← set_key_tables subspaces
      base_app_legacy_ss ← calls.base_app_legacy_subspace
      info ← or_die calls.read_upgrade_info_from_disk
      ok (record {
        subspaces = subspaces';
        handler_name = upgrade_name;
        handler_subspace = base_app_legacy_ss;
        store_loader = choose_store_loader info;
      })

-- The handler of the upgrade: the consensus params are migrated from the subspace, then the modules
-- are, whose result and error are the handler's.
abbrev pub upgrade_handler :
    {E K V : Type 0} → (Subspace K → M E Unit) → (V → M E V) → Subspace K → V → M E V
upgrade_handler migrate_params run_migrations legacy_ss from_vm =
    research_cosmos.Ctx.◌>>=◌ (migrate_params legacy_ss) (λ _. run_migrations from_vm)
