-- ===== src/Keeper/Adapter/Reported.antt =====
-- From a slash that the staking decorator of x/meshsecurity/keeper/adapter.go captures to the report
-- of keeper/valset_updates.go.
use research_cosmos.Prelude.{◌+◌, ◌<◌, ◌≡◌, refl, ap, ◌∙◌, some, [], ◌∷◌, length}
use research_cosmos.Prelude.Int.{ℤ, pos}
use research_cosmos.Bytes.{Bytes}
use research_cosmos.KvStore.{IsSorted, entries, set}
use research_cosmos.KvStore.Prefix.{entries-set}
use research_cosmos.Types.{Outcome, ok, Validator, ValidatorSlash, SlashInfo, validator_slashed}
use research_cosmos.Sdk.{Laws}
use research_cosmos.Ctx.{World, Env}
use research_cosmos.Keys.{piped_valset_prefix}
use research_cosmos.Keeper.{Keeper}
use research_cosmos.Keeper.Caps.Total.{IsReadable, caps}
use research_cosmos.Keeper.Piped.{PipedOp}
use research_cosmos.Keeper.Piped.RoundTrip.{IsInt64, decode_piped_key-build_slash_op_key}
use research_cosmos.Keeper.Adapter.{SlashingTarget, slash}
use research_cosmos.Keeper.Valset.{schedule_slashed, send_async}
use research_cosmos.Keeper.Valset.Notify.{send_async_notifies}
use research_cosmos.Keeper.Valset.Report.{valset_update_report}
use research_cosmos.Keeper.Valset.Content.{
  Decodes, none_left, one_more, slashed, valset_update_report_lem,
}

module _ {E : Type 0} (k : Keeper E) (s : SlashingTarget E) (laws : Laws k.sdk) (cons_addr : Bytes)
    (power height ratio total : ℤ) (w : World E) (v : Validator) (env : Env E) where
  -- The data that the decorator pipes.
  abbrev info : SlashInfo
  info = record {
    infraction_height = height;
    power = power;
    total_slash_amount = k.sdk.int_string total;
    slash_fraction = k.sdk.dec_string ratio;
  }

  abbrev piped_op : PipedOp
  piped_op = record {
    val_address = v.operator_address;
    op = validator_slashed;
    slash_info = some (record info { infraction_height = power; power = height });
  }

  -- What the report says of it.
  abbrev pub reported : World E → ValidatorSlash
  reported u = record {
    validator_addr = k.sdk.val_string v.operator_address;
    height = pos u.height;
    time = u.time;
    infraction_height = power;
    infraction_time = pos 0;
    power = height;
    slash_amount = k.sdk.int_string total;
    slash_ratio = k.sdk.dec_string ratio;
  }

  module _ (found : s.validator_by_cons_addr w.env cons_addr ≡ some v)
      (answered : s.slash cons_addr power height ratio w.env ≡ (ok total, env))
      (readable : IsReadable k.sdk (caps w.store)) where
    abbrev sent : Outcome (Unit {0}) × World E
    sent = send_async k validator_slashed v.operator_address (some info) (record w { env = env })

    slash_sends : sent.0 ≡ ok tt → slash k s cons_addr power height ratio w ≡ (ok total, sent.1)
    unfolding slash schedule_slashed
    slash_sends done =
        let success : sent ≡ (ok tt, sent.1) = ap (λ (o : Outcome (Unit {0})). (o, sent.1)) done in
        rw (found, answered) (rw success refl)

    -- With the laws of the SDK: a slash of a validator that is found, in a block with no piped
    -- operation before it, returns what the decorated method returns, and is what the report then
    -- has, and nothing else: with the validator, the height and time of the block, the slashed
    -- amount and the ratio, but with the infraction height and the power exchanged. The limits can
    -- be decoded, the validator's address is not empty, the numbers are `int64` values, the texts
    -- of the amount and the ratio are not both empty, and the lengths of the address and of the
    -- amount add up to less than 237.
    pub slash_reported :
        IsSorted w.mem
        → entries piped_valset_prefix w.mem ≡ []
        → 0 < length v.operator_address
        → length v.operator_address + 19 + length (k.sdk.int_string total) < 256
        → 0 < length (k.sdk.int_string total) + length (k.sdk.dec_string ratio)
        → IsInt64 height
        → IsInt64 power
        → let r = slash k s cons_addr power height ratio w in
          (r.0 ≡ ok total)
          × (valset_update_report k r.1 ≡ (
            ok (record {
              additions = [];
              removals = [];
              updated = [];
              jailed = [];
              unjailed = [];
              tombstoned = [];
              slashed = reported r.1 ∷ [];
            }),
            r.1,
          ))
    slash_reported sorted empty nonempty fits texts h p =
        let (key, built, decoded) =
          decode_piped_key-build_slash_op_key k.sdk v.operator_address info laws nonempty fits texts
            h p in
        let (done, mem, kept, told) =
          send_async_notifies k validator_slashed v.operator_address (some info)
            (record w { env = env }) built readable in
        let piped : entries piped_valset_prefix sent.1.mem ≡ (key, []) ∷ [] = rw mem (
          entries-set piped_valset_prefix key [] w.mem sorted
          ∙ ap (set key []) empty
          ∙ (unfold set in refl)) in
        let decodes : Decodes (entries piped_valset_prefix sent.1.mem) (piped_op ∷ []) =
          rw piped (decoded, tt) in
        rw (slash_sends done) (
          refl,
          valset_update_report_lem k sent.1 (piped_op ∷ []) decodes (
              one_more
                (slashed (record info { infraction_height = power; power = height }) refl refl)
                none_left),
        )
