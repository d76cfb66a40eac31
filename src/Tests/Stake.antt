-- ===== src/Tests/Stake.antt =====
-- Delegations, undelegations and the handlers at concrete inputs.
use research_cosmos.Prelude.{ℕ, ◌≡◌, ◌≢◌, refl, some, [], ◌∷◌, arith}
use research_cosmos.Prelude.Int.{ℤ, pos, ◌+ℤ◌, ◌-ℤ◌, ◌≤ℤ◌}
use research_cosmos.Bytes.{Bytes, equal}
use research_cosmos.KvStore.{get, set}
use research_cosmos.Types.{ok, err, panic, CoinArg, foreign, max_cap_exceeded, invalid_request}
use research_cosmos.Ctx.{World}
use research_cosmos.Keys.{build_max_cap_limit_key, build_total_delegated_amount_key}
use research_cosmos.Keeper.Stake.{positive_amount, delegate, undelegate, release}
use research_cosmos.Keeper.Caps.{get_total_delegated, get_max_cap_limit}
use research_cosmos.Keeper.Caps.Limit.{read_int}
use research_cosmos.Keeper.Stake.Bounds.{delegate_bounded, delegate_commits}
use research_cosmos.Keeper.Stake.Release.{Undelegated, undelegate_bounded}
use research_cosmos.Tests.Samples.{
  sample_keeper, sample-KeeperLaws, sample_sdk, sample_world, sample_contract, sample_denom,
  sample_env, sample_validator, tick,
}

abbrev coin_of : ℤ → CoinArg
coin_of a = record { denom = sample_denom; amount = some a }

-- The context after a delegation of 30, and after one of 13.
abbrev pub raised : ℕ → World ℕ
raised n = record sample_world {
  store = set (build_total_delegated_amount_key sample_contract) (0 ∷ n ∷ []) sample_world.store;
  env = tick (tick (tick (tick sample_env)));
}

pub sample_total :
    read_int sample_sdk (get (build_total_delegated_amount_key sample_contract) sample_world.store)
    ≡ some (pos 10)
unfolding get equal build_total_delegated_amount_key
sample_total = refl

pub sample_limit :
    read_int sample_sdk (get (build_max_cap_limit_key sample_contract) sample_world.store)
    ≡ some (pos 40)
unfolding get equal build_max_cap_limit_key
sample_limit = refl

sample_delegated :
    delegate sample_keeper sample_contract (3 ∷ []) (coin_of (pos 30)) sample_world
    ≡ (ok (pos 30), raised 40)
unfolding delegate get equal build_max_cap_limit_key build_total_delegated_amount_key ◌+ℤ◌ ◌-ℤ◌ set
    positive_amount get_total_delegated get_max_cap_limit
sample_delegated = refl

-- Beyond the limit a delegation is refused.
over_limit :
    delegate sample_keeper sample_contract (3 ∷ []) (coin_of (pos 31)) sample_world
    ≡ (err max_cap_exceeded, sample_world)
unfolding delegate get equal build_max_cap_limit_key build_total_delegated_amount_key ◌+ℤ◌
    positive_amount get_total_delegated get_max_cap_limit
over_limit = refl

delegate_bounded_example :
    (pos 1 ≤ℤ pos 30)
    × (read_int sample_sdk
          (get (build_total_delegated_amount_key sample_contract) (raised 40).store)
        ≡ some (pos 10 +ℤ pos 30))
    × (pos 10 +ℤ pos 30 ≤ℤ pos 40)
    × ((j : Bytes)
        → j ≢ build_total_delegated_amount_key sample_contract
        → get j (raised 40).store ≡ get j sample_world.store)
    × ((raised 40).mem ≡ sample_world.mem)
delegate_bounded_example =
    delegate_bounded sample_keeper sample-KeeperLaws sample_contract (3 ∷ []) sample_denom (pos 30)
      (pos 10) (pos 40) (pos 30) sample_world (raised 40) sample_total sample_limit (omega arith)
      (omega arith) sample_delegated

-- The staking keeper refuses 13, and the raised total is kept all the same.
delegate_commits_example :
    delegate sample_keeper sample_contract (3 ∷ []) (coin_of (pos 13)) sample_world
    ≡ (err (foreign 13), raised 23)
delegate_commits_example =
    delegate_commits sample_keeper sample-KeeperLaws sample_contract (3 ∷ []) (pos 13) (pos 10)
      (pos 40) sample_world sample_validator (tick sample_env) (tick (tick sample_env))
      (tick (tick (tick sample_env))) (tick (tick (tick (tick sample_env))))
      (record { denom = sample_denom; amount = pos 13 } ∷ []) (err (foreign 13)) sample_total
      sample_limit (omega arith) (omega arith) (unfold ◌+ℤ◌ in omega arith) (unfold ◌+ℤ◌ in refl)
      refl refl refl refl refl refl (λ e. cc) refl

-- The context after 4 of the 10 were undelegated.
abbrev lowered : World ℕ
lowered = record sample_world {
  store = set (build_total_delegated_amount_key sample_contract) (0 ∷ 6 ∷ []) sample_world.store;
  env = tick (tick (tick (tick (tick sample_env))));
}

sample_undelegated :
    undelegate sample_keeper sample_contract (3 ∷ []) (coin_of (pos 4)) sample_world
    ≡ (ok tt, lowered)
unfolding undelegate get equal build_total_delegated_amount_key ◌+ℤ◌ ◌-ℤ◌ set positive_amount
    get_total_delegated release
sample_undelegated = refl

undelegate_bounded_example :
    (pos 1 ≤ℤ pos 4)
    × (pos 4 ≤ℤ pos 10)
    × Undelegated sample_keeper sample-KeeperLaws sample_contract sample_denom
        (3 ∷ [])
        (pos 10)
        (ok (pos 4), tick sample_env)
        sample_world
        lowered
undelegate_bounded_example =
    undelegate_bounded sample_keeper sample-KeeperLaws sample_contract (3 ∷ []) sample_denom (pos 4)
      (pos 10) sample_world lowered sample_total (omega arith) sample_undelegated

-- More than the total cannot be undelegated.
too_much_fails :
    undelegate sample_keeper sample_contract (3 ∷ []) (coin_of (pos 11)) sample_world
    ≡ (err invalid_request, sample_world)
unfolding undelegate get equal build_total_delegated_amount_key ◌+ℤ◌ ◌-ℤ◌ positive_amount
    get_total_delegated
too_much_fails = refl

-- More coins than the total records cannot be taken off it: the subtraction panics.
overdrawn :
    (release sample_keeper sample_contract sample_denom
      (3 ∷ [])
      (record { denom = sample_denom; amount = pos 4 })
      (pos 5)
      sample_world).0
    ≡ panic
unfolding release
overdrawn = refl
