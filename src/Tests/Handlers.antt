-- ===== src/Tests/Handlers.antt =====
-- The message handlers, the notification of contracts and the provider at concrete inputs.
use research_cosmos.Prelude.{◌≡◌, ◌≢◌, ◌⊎◌, refl, some, none, [], ◌∷◌, All}
use research_cosmos.Prelude.Int.{pos}
use research_cosmos.Bytes.{Bytes}
use research_cosmos.KvStore.{get, set}
use research_cosmos.Types.{ok, err, invalid_signer, validator_bonded}
use research_cosmos.Messages.{MsgSetVirtualStakingMaxCap}
use research_cosmos.Keys.{build_piped_valset_op_key, copy_head}
use research_cosmos.Keeper.Caps.Total.{caps}
use research_cosmos.Keeper.MsgServer.{set_virtual_staking_max_cap}
use research_cosmos.Keeper.MsgServer.Invariant.{set_virtual_staking_max_cap_unauthorized}
use research_cosmos.Keeper.Valset.{send_async}
use research_cosmos.Keeper.Valset.Notify.{IsNotified, send_async_notifies}
use research_cosmos.Provider.{ProviderKeeper, no_fields, update_params}
use research_cosmos.Provider.Genesis.{ReadsBack, Updated, update_params_lem}
use research_cosmos.Tests.Samples.{
  sample_keeper, sample_sdk, sample_world, sample_contract, sample_denom,
}
use research_cosmos.Tests.Caps.{sample_within}

abbrev sample_request : Bytes → MsgSetVirtualStakingMaxCap
sample_request authority = record {
  authority = authority;
  contract = sample_contract;
  max_cap = record { denom = sample_denom; amount = pos 0 };
}

set_virtual_staking_max_cap_unauthorized_example :
    ((set_virtual_staking_max_cap sample_keeper (sample_request (2 ∷ [])) sample_world).1
      ≡ sample_world)
    × ((set_virtual_staking_max_cap sample_keeper (sample_request (2 ∷ [])) sample_world).0 ≢ ok tt)
set_virtual_staking_max_cap_unauthorized_example =
    set_virtual_staking_max_cap_unauthorized sample_keeper (sample_request (2 ∷ [])) sample_world
      (λ e. cc)

sample_op_key :
    build_piped_valset_op_key sample_sdk validator_bonded (4 ∷ []) none ≡ ok (0x5 ∷ 1 ∷ 4 ∷ 1 ∷ [])
unfolding build_piped_valset_op_key copy_head
sample_op_key = refl

send_async_notifies_example :
    let r = send_async sample_keeper validator_bonded (4 ∷ []) none sample_world in
    (r.0 ≡ ok tt)
    × (r.1.mem ≡ set (0x5 ∷ 1 ∷ 4 ∷ 1 ∷ []) [] sample_world.mem)
    × ((j : Bytes) → get j sample_world.store ≢ none → get j r.1.store ≢ none)
    × All (IsNotified sample_sdk 20 r.1.store) (caps sample_world.store)
send_async_notifies_example =
    send_async_notifies sample_keeper validator_bonded (4 ∷ []) none sample_world sample_op_key
      sample_within.readable

abbrev sample_provider : ProviderKeeper
sample_provider = record {
  marshal = λ p. ok [];
  unmarshal = λ b. some no_fields;
  acc_address_from_bech32 = some;
  authority = 8 ∷ [];
}

sample-ReadsBack : ReadsBack sample_provider
sample-ReadsBack no_fields = ([], refl, refl)

update_params_lem_example :
    ((8 ∷ [] ≡ sample_provider.authority)
      × Updated sample_provider sample-ReadsBack no_fields sample_world
          (update_params sample_provider (8 ∷ []) no_fields sample_world))
    ⊎ ((8 ∷ [] ≢ sample_provider.authority)
        × (update_params sample_provider (8 ∷ []) no_fields sample_world
            ≡ (err invalid_signer, sample_world)))
update_params_lem_example =
    update_params_lem sample_provider sample-ReadsBack no_fields sample_world (8 ∷ [])
