-- ===== src/Tests/Genesis.antt =====
-- Genesis and the chain after it at concrete inputs.
use research_cosmos.Prelude.{ℕ, ◌≡◌, refl, ◌+◌, ◌^◌, ◌<◌, Option, none, some, [], ◌∷◌, arith}
use research_cosmos.Bytes.{Bytes}
use research_cosmos.Types.{Outcome, ok, err, bad_json, Params}
use research_cosmos.Prelude.Int.{pos}
use research_cosmos.Ctx.{World}
use research_cosmos.Keeper.Params.{init_genesis, set_params}
use research_cosmos.Keeper.Safe.{IsSafe, height-IsWriteClosed}
use research_cosmos.Keeper.Writes.Valset.{Keeps-jail}
use research_cosmos.Abci.Failures.{default_silent}
use research_cosmos.Abci.Writes.{Keeps-end_blocker}
use research_cosmos.Keeper.Adapter.{jail}
use research_cosmos.Abci.{default_execution_response_handler, end_blocker}
use research_cosmos.Keeper.Steps.{here, jailed}
use research_cosmos.Abci.Blocks.{start, step, at_end, at_begin}
use research_cosmos.AppModule.{
  JsonCodec, new_app_module, new_app_module_x, app_init_genesis, app_export_genesis, end_block,
}
use research_cosmos.AppModule.Genesis.{
  IsCodec, app_export_genesis-app_init_genesis, end_block_after_genesis,
}
use research_cosmos.Tests.Samples.{
  sample_keeper, sample-Laws, sample_sdk, sample_params, sample_world, encode_params, decode_params,
  params_of_parts,
}
use research_cosmos.Tests.Blocks.{sample_target}

abbrev read_json : Option Params → Outcome Params
read_json none = err bad_json
read_json (some p) = ok p

abbrev sample_json : JsonCodec
sample_json = record {
  marshal_json = λ p. ok (encode_params p);
  unmarshal_json = λ bz. read_json (decode_params bz);
}

sample-IsCodec : IsCodec sample_json
sample-IsCodec p =
    let (bz, m, u) =
      params_of_parts p.epoch_length p.max_gas_end_blocker p.total_contracts_max_cap.denom
        p.total_contracts_max_cap.amount in
    (bz, m, rw u refl)

abbrev empty_world : World ℕ
empty_world = record sample_world { store = []; mem = [] }

abbrev sample_genesis : Bytes
sample_genesis = encode_params sample_params

app_export_genesis-app_init_genesis_example :
    (v : World ℕ) × (bz : Bytes) × (app_init_genesis
        (new_app_module sample_keeper)
        sample_json
        sample_genesis
        sample_world
      ≡ (ok [], v))
    × (app_export_genesis (new_app_module sample_keeper) sample_json v ≡ (ok bz, v))
    × (sample_json.unmarshal_json bz ≡ ok sample_params)
app_export_genesis-app_init_genesis_example =
    app_export_genesis-app_init_genesis sample_json sample-IsCodec sample_keeper sample-Laws
      sample_genesis sample_params sample_world refl (omega arith) (omega arith)

-- A validator is jailed in the first block, and the second one begins.
abbrev genesis_world : World ℕ
genesis_world =
    (app_init_genesis (new_app_module sample_keeper) sample_json sample_genesis empty_world).1

abbrev first_block : World ℕ
first_block =
    let jailed_world = (jail sample_keeper sample_target (3 ∷ []) genesis_world).1 in
    (end_blocker sample_keeper default_execution_response_handler jailed_world).1

abbrev second_block : World ℕ
second_block = record first_block { height = first_block.height + 1; time = pos 6; events = [] }

genesis_height : genesis_world.height ≡ 20
unfolding app_init_genesis init_genesis set_params new_app_module new_app_module_x
genesis_height = refl

first_height : first_block.height ≡ 20
first_height =
    let at_20 = height-IsWriteClosed sample_keeper 20 in
    let same = λ (w : World ℕ). w.height ≡ 20 in
    Keeps-end_blocker sample_keeper same at_20.tasks (λ c bz w h. h)
      default_execution_response_handler (λ r w h. rw (default_silent r w) h)
      (jail sample_keeper sample_target (3 ∷ []) genesis_world).1
      (Keeps-jail sample_keeper same at_20.tasks sample_target (3 ∷ []) genesis_world
        genesis_height)

second_height : second_block.height + 5 < 2 ^ 64
second_height = rw first_height (omega arith)

end_block_after_genesis_example :
    (u : World ℕ) × (end_block (new_app_module sample_keeper) second_block ≡ (ok [], u))
    × IsSafe sample_sdk sample_params u.store
end_block_after_genesis_example =
    end_block_after_genesis sample_keeper sample_target sample-Laws (λ c bz w. here) sample_json
      sample_genesis sample_params empty_world second_block refl (omega arith) (omega arith)
      (omega arith) refl (at_begin (pos 6) (at_end (step start (jailed (3 ∷ []))))) second_height
