-- ===== src/Demo/Upgrades/Tables.antt =====
-- What `RegisterUpgradeHandlers` of demo/app/upgrades.go leaves.
use research_cosmos.Prelude.{
  true, false, ◌⊎◌, ◌≢◌, All, Any, inl, inr, Bool-cases, ◌≡◌, refl, Option, none, some, List, [],
  ◌∷◌, arith,
}
use research_cosmos.Bytes.{Bytes, equal}
use research_cosmos.Bytes.Order.{equal_refl, equal_sound, equal_complete}
use research_cosmos.Types.{ok}
use research_cosmos.Demo.Upgrades.{
  init_params_keeper, has_key_table, ParamTable, Packages, Subspace, UpgradeInfo, UpgradeCalls,
  Registered, upgrade_name, cases, switch_name, set_key_table, set_key_tables, choose_store_loader,
  register_upgrade_handlers,
}

module _ {K : Type 0} (packages : Packages K) where
  -- The key table that a subspace ends with: its own one, or the one of its name.
  abbrev pub final_table : Option K → Option K → Option K
  final_table (some table) found = some table
  final_table none found = found

  abbrev pub complete : List (Subspace K) → List (Subspace K)
  complete [] = []
  complete (s ∷ rest) =
      record s {
        key_table = final_table s.key_table (switch_name packages s.name (cases packages));
      }
      ∷ complete rest

  -- A name that has a case, and a name that needs none.
  abbrev pub HasTable : Bytes → Bytes → Subspace K → Type 0
  HasTable ibc_name meshsec_name s =
      (has_key_table s ≡ true) ⊎ (s.name ≡ ibc_name) ⊎ (s.name ≡ meshsec_name)

  -- Of the subspaces that `initParamsKeeper` makes, only the two of the ibc and the mesh-security
  -- module can be left without a key table.
  pub init_params_keeper_tables :
      (ibc_name meshsec_name : Bytes)
      → All
          (HasTable ibc_name meshsec_name)
          (complete (init_params_keeper packages ibc_name meshsec_name))
  init_params_keeper_tables ibc_name meshsec_name = ground (
    arith,
    equal_refl packages.auth.module_name,
    equal_refl packages.bank.module_name,
    equal_refl packages.staking.module_name,
    equal_refl packages.mint.module_name,
    equal_refl packages.distr.module_name,
    equal_refl packages.slashing.module_name,
    equal_refl packages.gov.module_name,
    equal_refl packages.crisis.module_name,
    equal_refl packages.ibc_transfer.module_name,
    equal_refl packages.ica_host.module_name,
    equal_refl packages.ica_controller.module_name,
    equal_refl packages.wasm.module_name,
  )

  -- The modules with a legacy key table: the SDK's with params, those of ibc, and wasm.
  pub data IsTabled : ParamTable K → Type 0 where
    auth_table : IsTabled packages.auth
    bank_table : IsTabled packages.bank
    staking_table : IsTabled packages.staking
    mint_table : IsTabled packages.mint
    distr_table : IsTabled packages.distr
    slashing_table : IsTabled packages.slashing
    gov_table : IsTabled packages.gov
    crisis_table : IsTabled packages.crisis
    transfer_table : IsTabled packages.ibc_transfer
    host_table : IsTabled packages.ica_host
    controller_table : IsTabled packages.ica_controller
    wasm_table : IsTabled packages.wasm

  -- What becomes of a subspace: one with a key table is left alone, one without gets the table of a
  -- module of its name, and one whose name is no such module's stays without.
  pub data Completed (s : Subspace K) : Subspace K → Type 0 where
    has_one : (table : K) → s.key_table ≡ some table → Completed s s
    gets_one :
        (c : ParamTable K)
        → IsTabled c
        → s.name ≡ c.module_name
        → s.key_table ≡ none
        → Completed s (record s { key_table = some c.param_key_table })
    needs_none :
        ((c : ParamTable K) → IsTabled c → s.name ≢ c.module_name)
        → s.key_table ≡ none
        → Completed s s

  pub data AllCompleted : List (Subspace K) → List (Subspace K) → Type 0 where
    no_subspace : AllCompleted [] []
    one_subspace :
        {s t : Subspace K} {l m : List (Subspace K)}
        → Completed s t
        → AllCompleted l m
        → AllCompleted (s ∷ l) (t ∷ m)

  -- The cases of the switch are those modules.
  IsTabled-Any :
      (c : ParamTable K) → IsTabled c → Any (λ (d : ParamTable K). d ≡ c) (cases packages)
  IsTabled-Any c auth_table = inl refl
  IsTabled-Any c bank_table = inr (inl refl)
  IsTabled-Any c staking_table = inr (inr (inl refl))
  IsTabled-Any c mint_table = inr (inr (inr (inl refl)))
  IsTabled-Any c distr_table = inr (inr (inr (inr (inl refl))))
  IsTabled-Any c slashing_table = inr (inr (inr (inr (inr (inl refl)))))
  IsTabled-Any c gov_table = inr (inr (inr (inr (inr (inr (inl refl))))))
  IsTabled-Any c crisis_table = inr (inr (inr (inr (inr (inr (inr (inl refl)))))))
  IsTabled-Any c transfer_table = inr (inr (inr (inr (inr (inr (inr (inr (inl refl))))))))
  IsTabled-Any c host_table = inr (inr (inr (inr (inr (inr (inr (inr (inr (inl refl)))))))))
  IsTabled-Any c controller_table =
      inr (inr (inr (inr (inr (inr (inr (inr (inr (inr (inl refl))))))))))
  IsTabled-Any c wasm_table =
      inr (inr (inr (inr (inr (inr (inr (inr (inr (inr (inr (inl refl)))))))))))

  cases-IsTabled : All IsTabled (cases packages)
  cases-IsTabled = (
    auth_table,
    (
      bank_table,
      (
        staking_table,
        (
          mint_table,
          (
            distr_table,
            (
              slashing_table,
              (
                gov_table,
                (
                  crisis_table,
                  (transfer_table, (host_table, (controller_table, (wasm_table, tt)))),
                ),
              ),
            ),
          ),
        ),
      ),
    ),
  )

  none_of :
      (name : Bytes) (l : List (ParamTable K))
      → switch_name packages name l ≡ none
      → (c : ParamTable K) → Any (λ (d : ParamTable K). d ≡ c) l
      → name ≢ c.module_name
  none_of name [] e c i same = absurd i
  none_of name (d ∷ l) e c (inl here) same =
      let this : equal name d.module_name ≡ true = rw (here, same) (equal_refl c.module_name) in
      ground (arith, e, this)
  none_of name (d ∷ l) e c (inr later) same = elim (Bool-cases (equal name d.module_name)) [
    | inl q ↦ ground (arith, e, q)
    | inr q ↦ none_of name l (rw q at e) c later same
  ]

  found_in :
      (name : Bytes) (l : List (ParamTable K)) (table : K)
      → All IsTabled l
      → switch_name packages name l ≡ some table
      → (c : ParamTable K) × IsTabled c × (name ≡ c.module_name) × (table ≡ c.param_key_table)
  found_in name [] table h e = absurd (ground (arith, e))
  found_in name (d ∷ l) table (here, h) e = elim (Bool-cases (equal name d.module_name)) [
    | inl q ↦ (d, here, equal_sound name d.module_name q, ground (arith, rw q at e))
    | inr q ↦ found_in name l table h (rw q at e)
  ]

  completed :
      (name : Bytes) (o found : Option K)
      → switch_name packages name (cases packages) ≡ found
      → Completed
          (record { name = name; key_table = o })
          (record { name = name; key_table = final_table o found })
  completed name (some table) found e = has_one table refl
  completed name none none e =
      needs_none (λ c i. none_of name (cases packages) e c (IsTabled-Any c i)) refl
  completed name none (some table) e =
      let (c, tabled, same, its) = found_in name (cases packages) table cases-IsTabled e in
      rw its (gets_one c tabled same refl)

  complete-AllCompleted : (l : List (Subspace K)) → AllCompleted l (complete l)
  complete-AllCompleted [] = no_subspace
  complete-AllCompleted (s ∷ rest) =
      one_subspace
        (completed s.name s.key_table (switch_name packages s.name (cases packages)) refl)
        (complete-AllCompleted rest)

  module _ (calls : UpgradeCalls K)
      (sets : (s : Subspace K) (table : K)
        → s.key_table ≡ none
        → calls.with_key_table s table ≡ ok (record s { key_table = some table })) where
    set_key_table_lem :
        (name : Bytes) (o found : Option K)
        → set_key_table packages calls (record { name = name; key_table = o }) found
          ≡ ok (record { name = name; key_table = final_table o found })
    set_key_table_lem name none none = refl
    set_key_table_lem name none (some table) =
        sets (record { name = name; key_table = none }) table refl
    set_key_table_lem name (some t) none = refl
    set_key_table_lem name (some t) (some table) = refl

    set_key_tables_lem : (l : List (Subspace K)) → set_key_tables packages calls l ≡ ok (complete l)
    unfolding set_key_tables
    set_key_tables_lem [] = refl
    set_key_tables_lem (s ∷ rest) =
        rw
          (
            set_key_table_lem s.name s.key_table (switch_name packages s.name (cases packages)),
            set_key_tables_lem rest,
          )
          refl

    -- With a params keeper that sets the key table of a subspace which has none and makes the
    -- subspace of the base application, and upgrade info that can be read:
    -- `RegisterUpgradeHandlers` leaves each subspace that has a key table as it is, and gives each
    -- other one the table of a module of its name, if its name is that of one of the twelve
    -- modules with a legacy table. The handler migrates the base application's subspace. The
    -- stores of the consensus and crisis modules are added at the height of the upgrade info,
    -- exactly if the info is for this upgrade and does not skip its height.
    pub register_upgrade_handlers_lem :
        (l : List (Subspace K)) (legacy : Subspace K) (info : UpgradeInfo)
        → calls.base_app_legacy_subspace ≡ ok legacy
        → calls.read_upgrade_info_from_disk ≡ ok info
        → (r : Registered K) × (register_upgrade_handlers packages calls l ≡ ok r)
          × AllCompleted l r.subspaces
          × (r.handler_subspace ≡ legacy)
          × (((info.name ≡ upgrade_name)
                × (calls.is_skip_height info.height ≡ false)
                × (r.store_loader
                    ≡ some (record {
                      height = info.height;
                      added = packages.consensus_module_name ∷ packages.crisis.module_name ∷ [];
                    })))
              ⊎ (((info.name ≢ upgrade_name) ⊎ (calls.is_skip_height info.height ≡ true))
                  × (r.store_loader ≡ none)))
    unfolding register_upgrade_handlers
    register_upgrade_handlers_lem l legacy info made read = (
      record {
        subspaces = complete l;
        handler_name = upgrade_name;
        handler_subspace = legacy;
        store_loader = choose_store_loader packages calls info;
      },
      rw (set_key_tables_lem l, made, read) refl,
      complete-AllCompleted l,
      refl,
      elim (Bool-cases (equal info.name upgrade_name)) [
        | inr other ↦ inr (
          inl (λ same. (let e = equal_complete info.name upgrade_name same in cc)),
          rw other refl,
        )
        | inl same ↦ elim (Bool-cases (calls.is_skip_height info.height)) [
          | inl skipped ↦ inr (inr skipped, rw (same, skipped) refl)
          | inr run ↦ inl (equal_sound info.name upgrade_name same, run, rw (same, run) refl)
        ]
      ],
    )
