-- ===== src/Tests/Queries.antt =====
-- Queries at concrete inputs.
use research_cosmos.Prelude.{ℕ, ◌≡◌, refl, false, some, [], ◌∷◌}
use research_cosmos.Prelude.Int.{pos}
use research_cosmos.Bytes.{equal}
use research_cosmos.Types.{ok}
use research_cosmos.Keeper.Queries.{
  SlashFractions, virtual_staking_max_cap_limit, new_query_decorator,
}
use research_cosmos.Keeper.Queries.Shown.{queries_show_ledger}
use research_cosmos.Tests.Samples.{
  sample_keeper, sample-KeeperLaws, sample_world, sample_contract, sample_denom,
}
use research_cosmos.Tests.Ledger.{sample-IsLedgerOf}

abbrev sample_fractions : SlashFractions ℕ
sample_fractions = record { double_sign = λ w. pos 5; downtime = λ w. pos 1 }

queries_show_ledger_example :
    (virtual_staking_max_cap_limit sample_keeper sample_contract sample_world ≡ (
      ok (record {
        cap = record { denom = sample_denom; amount = pos 40 };
        delegated = record { denom = sample_denom; amount = pos 10 };
      }),
      sample_world,
    ))
    × (new_query_decorator sample_keeper sample_fractions
          (λ c r w. (ok [], w))
          (1 ∷ [])
          (some sample_contract)
          sample_world
        ≡ (ok [], sample_world))
unfolding equal
queries_show_ledger_example =
    queries_show_ledger sample_keeper sample-KeeperLaws sample_fractions (λ c r w. (ok [], w))
      sample_world sample_contract sample_contract (1 ∷ []) sample_contract false sample-IsLedgerOf
      refl refl
