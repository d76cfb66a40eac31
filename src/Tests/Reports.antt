-- ===== src/Tests/Reports.antt =====
-- The valset report and the list query at concrete inputs.
use research_cosmos.Prelude.{◌≡◌, refl, ℕ, All, none, some, List, [], ◌∷◌, arith}
use research_cosmos.Prelude.Int.{pos}
use research_cosmos.Bytes.{equal, strip_prefix}
use research_cosmos.KvStore.{get, entries, IsSorted}
use research_cosmos.Types.{
  ok, validator_bonded, validator_modified, validator_unbonded, validator_jailed,
  validator_tombstoned, validator_unjailed,
}
use research_cosmos.Ctx.{World}
use research_cosmos.Keys.{piped_valset_prefix, build_total_delegated_amount_key}
use research_cosmos.Keeper.Piped.{PipedOp, decode_piped_key, byte_at, slice}
use research_cosmos.Keeper.Caps.Total.{caps}
use research_cosmos.Keeper.Valset.Report.{valset_update_report}
use research_cosmos.Keeper.Valset.Content.{
  pick, Decodes, AllReported, none_left, one_more, bonded, validator_data, validator_text,
  slash_data, valset_update_report_lem,
}
use research_cosmos.Keeper.Adapter.{SlashingTarget, slash}
use research_cosmos.Keeper.Adapter.Reported.{slash_reported}
use research_cosmos.Keeper.Queries.{MaxCapInfo, virtual_staking_max_cap_limits}
use research_cosmos.Keeper.Queries.Listing.{IsListed, Matches, virtual_staking_max_cap_limits_lem}
use research_cosmos.Tests.Samples.{
  sample_keeper, sample-KeeperLaws, sample-Laws, sample_store, sample_world, sample_validator, tick,
}
use research_cosmos.Tests.Caps.{sample_within}

abbrev sample_ops : List PipedOp
sample_ops = record { val_address = 3 ∷ []; op = validator_bonded; slash_info = none } ∷ []

sample-Decodes : Decodes (entries piped_valset_prefix sample_world.mem) sample_ops
unfolding entries strip_prefix decode_piped_key byte_at slice
sample-Decodes = (refl, tt)

sample-AllReported : AllReported sample_keeper sample_world sample_ops
sample-AllReported = one_more (bonded sample_validator refl refl) none_left

valset_update_report_lem_example : valset_update_report sample_keeper sample_world ≡ (
  ok (record {
    additions = pick (validator_data sample_keeper sample_world validator_bonded) sample_ops;
    removals = pick (validator_text sample_keeper sample_world validator_unbonded) sample_ops;
    updated = pick (validator_data sample_keeper sample_world validator_modified) sample_ops;
    jailed = pick (validator_text sample_keeper sample_world validator_jailed) sample_ops;
    unjailed = pick (validator_text sample_keeper sample_world validator_unjailed) sample_ops;
    tombstoned = pick (validator_text sample_keeper sample_world validator_tombstoned) sample_ops;
    slashed = pick (slash_data sample_keeper sample_world) sample_ops;
  }),
  sample_world,
)
valset_update_report_lem_example =
    valset_update_report_lem sample_keeper sample_world sample_ops sample-Decodes sample-AllReported

sample-IsListed : All (IsListed sample_keeper sample_world) (caps sample_store)
unfolding entries strip_prefix get equal build_total_delegated_amount_key
sample-IsListed = (((pos 40, refl, omega arith), (pos 10, refl, omega arith)), tt)

virtual_staking_max_cap_limits_lem_example :
    (infos : List MaxCapInfo) × (virtual_staking_max_cap_limits sample_keeper sample_world
      ≡ (ok infos, sample_world))
    × Matches sample_keeper sample_world (caps sample_store) infos
virtual_staking_max_cap_limits_lem_example =
    virtual_staking_max_cap_limits_lem sample_keeper sample_world sample-KeeperLaws (λ a. refl)
      sample_within.sorted sample-IsListed

-- A keeper that finds the sample's validator, and a block with no piped operation.
abbrev slashed_target : SlashingTarget ℕ
slashed_target = record {
  validator_by_cons_addr = λ v a. some sample_validator;
  tombstone = λ a v. (ok tt, tick v);
  slash = λ a p h r v. (ok (pos 50), tick v);
  jail = λ a v. (ok tt, tick v);
  unjail = λ a v. (ok tt, tick v);
}

abbrev quiet_world : World ℕ
quiet_world = record sample_world { mem = [] }

quiet-IsSorted : IsSorted quiet_world.mem
quiet-IsSorted = tt

no_entries : entries piped_valset_prefix quiet_world.mem ≡ []
unfolding entries
no_entries = refl

slash_reported_example :
    let r = slash sample_keeper slashed_target (5 ∷ []) (pos 100) (pos 15) (pos 2) quiet_world in
    (r.0 ≡ ok (pos 50))
    × (valset_update_report sample_keeper r.1 ≡ (
      ok (record {
        additions = [];
        removals = [];
        updated = [];
        jailed = [];
        unjailed = [];
        tombstoned = [];
        slashed =
            record {
              validator_addr = 3 ∷ [];
              height = pos r.1.height;
              time = r.1.time;
              infraction_height = pos 100;
              infraction_time = pos 0;
              power = pos 15;
              slash_amount = 0 ∷ 50 ∷ [];
              slash_ratio = 0 ∷ 2 ∷ [];
            }
            ∷ [];
      }),
      r.1,
    ))
slash_reported_example =
    slash_reported sample_keeper slashed_target sample-Laws (5 ∷ []) (pos 100) (pos 15) (pos 2)
      (pos 50) quiet_world sample_validator (tick quiet_world.env) refl refl sample_within.readable
      quiet-IsSorted no_entries (omega arith) (omega arith) (omega arith) (omega arith, omega arith)
      (omega arith, omega arith)
