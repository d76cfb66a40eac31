-- ===== src/Tests/Modules.antt =====
-- The set-up of the demo application at concrete inputs.
use research_cosmos.Prelude.{
  ℕ, ◌≡◌, ◌≢◌, ◌⊎◌, true, refl, arith, false, not, Option, none, some, List, [], ◌∷◌,
}
use research_cosmos.Prelude.Int.{pos}
use research_cosmos.Bytes.{Bytes}
use research_cosmos.Types.{ok}
use research_cosmos.Demo.Export.{is_member}
use research_cosmos.Demo.Modules.{
  ModuleAccount, meshsecurity_account, fee_collector, distr_account, mint_account, bonded_pool,
  not_bonded_pool, gov_account, nft_account, transfer_account, ibcfee_account, ica_account,
  wasm_account, blocked_addresses,
}
use research_cosmos.Demo.Modules.Blocked.{blocked_addresses_lem}
use research_cosmos.Demo.Upgrades.{
  ParamTable, Packages, Subspace, UpgradeInfo, UpgradeCalls, Registered, upgrade_name,
  register_upgrade_handlers,
}
use research_cosmos.Demo.Upgrades.Tables.{AllCompleted, register_upgrade_handlers_lem}

-- One byte for each account.
abbrev sample_address : ModuleAccount → Bytes
sample_address fee_collector = 1 ∷ []
sample_address distr_account = 2 ∷ []
sample_address mint_account = 3 ∷ []
sample_address bonded_pool = 4 ∷ []
sample_address not_bonded_pool = 5 ∷ []
sample_address gov_account = 6 ∷ []
sample_address nft_account = 7 ∷ []
sample_address transfer_account = 8 ∷ []
sample_address ibcfee_account = 9 ∷ []
sample_address ica_account = 10 ∷ []
sample_address wasm_account = 11 ∷ []
sample_address meshsecurity_account = 12 ∷ []

sample_distinct : (a b : ModuleAccount) → sample_address a ≡ sample_address b → a ≡ b
sample_distinct a b e = ground (arith, e)

blocked_addresses_lem_example :
    is_member (sample_address meshsecurity_account) (blocked_addresses sample_address) ≡ not false
blocked_addresses_lem_example =
    blocked_addresses_lem sample_address sample_distinct meshsecurity_account

abbrev sample_table : ℕ → ParamTable ℕ
sample_table n = record { module_name = n ∷ []; param_key_table = n }

abbrev sample_packages : Packages ℕ
sample_packages = record {
  auth = sample_table 1;
  bank = sample_table 2;
  staking = sample_table 3;
  mint = sample_table 4;
  distr = sample_table 5;
  slashing = sample_table 6;
  gov = sample_table 7;
  crisis = sample_table 8;
  ibc_transfer = sample_table 9;
  ica_host = sample_table 10;
  ica_controller = sample_table 11;
  wasm = sample_table 12;
  consensus_module_name = 13 ∷ [];
}

abbrev sample_info : UpgradeInfo
sample_info = record { name = upgrade_name; height = pos 30 }

abbrev sample_legacy : Subspace ℕ
sample_legacy = record { name = 30 ∷ []; key_table = some 30 }

abbrev sample_calls : UpgradeCalls ℕ
sample_calls = record {
  with_key_table = λ s table. ok (record s { key_table = some table });
  base_app_legacy_subspace = ok sample_legacy;
  read_upgrade_info_from_disk = ok sample_info;
  is_skip_height = λ h. false;
}

abbrev sample_subspaces : Option ℕ → Option ℕ → List (Subspace ℕ)
sample_subspaces bank other =
    record { name = 2 ∷ []; key_table = bank }
    ∷ record { name = 3 ∷ []; key_table = some 77 }
    ∷ record { name = 20 ∷ []; key_table = other }
    ∷ []

register_upgrade_handlers_lem_example :
    (r : Registered ℕ) × (register_upgrade_handlers sample_packages sample_calls
        (sample_subspaces none none)
      ≡ ok r)
    × AllCompleted sample_packages (sample_subspaces none none) r.subspaces
    × (r.handler_subspace ≡ sample_legacy)
    × (((upgrade_name ≡ upgrade_name)
          × (false ≡ false)
          × (r.store_loader ≡ some (record { height = pos 30; added = (13 ∷ []) ∷ (8 ∷ []) ∷ [] })))
        ⊎ (((upgrade_name ≢ upgrade_name) ⊎ (false ≡ true)) × (r.store_loader ≡ none)))
register_upgrade_handlers_lem_example =
    register_upgrade_handlers_lem sample_packages sample_calls (λ s table fresh. refl)
      (sample_subspaces none none) sample_legacy sample_info refl refl
