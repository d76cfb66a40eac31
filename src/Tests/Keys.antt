-- ===== src/Tests/Keys.antt =====
-- The keys and their decoding at concrete inputs.
use research_cosmos.Prelude.{◌≡◌, true, some, none, [], ◌∷◌, arith}
use research_cosmos.Prelude.Int.{pos}
use research_cosmos.Bytes.{Bytes, before}
use research_cosmos.Types.{ok, SlashInfo, task_valset_update, validator_bonded, validator_slashed}
use research_cosmos.Keys.{build_piped_valset_op_key}
use research_cosmos.Keys.Scheduler.{
  task_key, build_scheduler_contract_key_lem, before-build_scheduler_contract_key,
}
use research_cosmos.Keeper.Piped.{decode_piped_key}
use research_cosmos.Keeper.Piped.RoundTrip.{
  decode_piped_key-build_piped_valset_op_key, decode_piped_key-build_slash_op_key,
}
use research_cosmos.Tests.Samples.{sample_sdk, sample-Laws}

before-build_scheduler_contract_key_example :
    before (task_key task_valset_update 20 (9 ∷ [])) (task_key task_valset_update 300 (7 ∷ []))
    ≡ true
before-build_scheduler_contract_key_example =
    before-build_scheduler_contract_key task_valset_update 20 300 (9 ∷ []) (7 ∷ [])
      (task_key task_valset_update 20 (9 ∷ [])) (task_key task_valset_update 300 (7 ∷ []))
      (omega arith) (omega arith)
      (build_scheduler_contract_key_lem task_valset_update 20 (9 ∷ []) (omega arith))
      (build_scheduler_contract_key_lem task_valset_update 300 (7 ∷ []) (omega arith))

decode_piped_key-build_piped_valset_op_key_example :
    (key : Bytes) × (build_piped_valset_op_key sample_sdk validator_bonded (3 ∷ []) none
      ≡ ok (0x5 ∷ key))
    × (decode_piped_key key
        ≡ ok (record { val_address = 3 ∷ []; op = validator_bonded; slash_info = none }))
decode_piped_key-build_piped_valset_op_key_example =
    decode_piped_key-build_piped_valset_op_key sample_sdk validator_bonded (3 ∷ []) sample-Laws
      (omega arith) (omega arith) (omega arith) (omega arith)

abbrev sample_slash : SlashInfo
sample_slash = record {
  infraction_height = pos 15;
  power = pos 100;
  total_slash_amount = 5 ∷ 0 ∷ [];
  slash_fraction = 1 ∷ [];
}

decode_piped_key-build_slash_op_key_example :
    (key : Bytes) × (build_piped_valset_op_key sample_sdk validator_slashed
        (3 ∷ [])
        (some sample_slash)
      ≡ ok (0x5 ∷ key))
    × (decode_piped_key key
        ≡ ok (record {
          val_address = 3 ∷ [];
          op = validator_slashed;
          slash_info = some (record sample_slash { infraction_height = pos 100; power = pos 15 });
        }))
decode_piped_key-build_slash_op_key_example =
    decode_piped_key-build_slash_op_key sample_sdk (3 ∷ []) sample_slash sample-Laws (omega arith)
      (omega arith) (omega arith) (omega arith, omega arith) (omega arith, omega arith)
