-- ===== src/Demo/Modules.antt =====
-- demo/app/app.go: the modules of the application's module manager, the orders in which it calls
-- them, the permissions of the module accounts, and the addresses that may not receive funds.
pub mod Blocked
use research_cosmos.Prelude.{ℕ, suc, Bool, false, true, List, [], ◌∷◌, ◌==◌, not, if◌then◌else◌}
use research_cosmos.Bytes.{Bytes, equal}

-- The constants `ModuleName` of the modules' packages.
pub data ModuleName : Type 0 where
  genutil auth vesting bank capability feegrant gov mint slashing distr staking upgrade evidence
        params authz group nft consensus wasm ibc transfer ibcfee ica meshsecurity crisis :
      ModuleName

-- The modules in the order in which they are handed to `module.NewManager`.
abbrev pub managed_modules : List ModuleName
managed_modules =
    genutil ∷ auth ∷ vesting ∷ bank ∷ capability ∷ feegrant ∷ gov ∷ mint ∷ slashing ∷ distr
    ∷ staking ∷ upgrade ∷ evidence ∷ params ∷ authz ∷ group ∷ nft ∷ consensus ∷ wasm ∷ ibc
    ∷ transfer ∷ ibcfee ∷ ica ∷ meshsecurity ∷ crisis ∷ []

abbrev pub begin_blockers : List ModuleName
begin_blockers =
    upgrade ∷ capability ∷ mint ∷ distr ∷ slashing ∷ evidence ∷ staking ∷ auth ∷ bank ∷ gov ∷ crisis
    ∷ genutil ∷ authz ∷ feegrant ∷ nft ∷ group ∷ params ∷ vesting ∷ consensus ∷ transfer ∷ ibc ∷ ica
    ∷ ibcfee ∷ wasm ∷ meshsecurity ∷ []

abbrev pub end_blockers : List ModuleName
end_blockers =
    crisis ∷ gov ∷ staking ∷ capability ∷ auth ∷ bank ∷ distr ∷ slashing ∷ mint ∷ genutil ∷ evidence
    ∷ authz ∷ feegrant ∷ nft ∷ group ∷ params ∷ upgrade ∷ vesting ∷ consensus ∷ transfer ∷ ibc ∷ ica
    ∷ ibcfee ∷ wasm ∷ meshsecurity ∷ []

-- `genesisModuleOrder`, for `InitGenesis` and `ExportGenesis`
abbrev pub genesis_module_order : List ModuleName
genesis_module_order =
    capability ∷ auth ∷ bank ∷ distr ∷ staking ∷ slashing ∷ gov ∷ mint ∷ crisis ∷ genutil ∷ evidence
    ∷ authz ∷ feegrant ∷ nft ∷ group ∷ params ∷ upgrade ∷ vesting ∷ consensus ∷ transfer ∷ ibc ∷ ica
    ∷ ibcfee ∷ wasm ∷ meshsecurity ∷ []

-- The constants that name the module accounts.
pub data ModuleAccount : Type 0 where
  fee_collector distr_account mint_account bonded_pool not_bonded_pool gov_account nft_account
        transfer_account ibcfee_account ica_account wasm_account meshsecurity_account :
      ModuleAccount

pub data Permission : Type 0 where
  minter burner staker : Permission

-- `maccPerms`
abbrev pub macc_perms : List (ModuleAccount × List Permission)
macc_perms =
    (fee_collector, [])
    ∷ (distr_account, [])
    ∷ (mint_account, minter ∷ [])
    ∷ (bonded_pool, burner ∷ staker ∷ [])
    ∷ (not_bonded_pool, burner ∷ staker ∷ [])
    ∷ (gov_account, burner ∷ [])
    ∷ (nft_account, [])
    ∷ (transfer_account, minter ∷ burner ∷ [])
    ∷ (ibcfee_account, [])
    ∷ (ica_account, [])
    ∷ (wasm_account, burner ∷ [])
    ∷ (meshsecurity_account, minter ∷ burner ∷ [])
    ∷ []

-- The copy of a map, one entry at a time; the keys of a map are distinct.
abbrev pub copy_perms :
    List (ModuleAccount × List Permission) → List (ModuleAccount × List Permission)
copy_perms [] = []
copy_perms ((k, v) ∷ rest) = (k, v) ∷ copy_perms rest

abbrev pub get_macc_perms : List (ModuleAccount × List Permission)
get_macc_perms = copy_perms macc_perms

-- `delete(m, a)` on a set of addresses
abbrev pub delete_address : Bytes → List Bytes → List Bytes
delete_address a [] = []
delete_address a (b ∷ bs) = let rest = delete_address a bs in if equal a b then rest else b ∷ rest

-- `authtypes.NewModuleAddress(acc).String()`
module _ (module_address : ModuleAccount → Bytes) where
  abbrev pub account_addresses : List (ModuleAccount × List Permission) → List Bytes
  account_addresses [] = []
  account_addresses ((acc, perms) ∷ rest) = module_address acc ∷ account_addresses rest

  unfoldable pub blocked_addresses : List Bytes
  blocked_addresses = delete_address (module_address gov_account) (account_addresses get_macc_perms)
