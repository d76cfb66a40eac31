-- ===== src/Keeper/Valset.antt =====
-- x/meshsecurity/keeper/valset_updates.go: the changes of the validator set of one block, piped
-- through the memory store into a report.
pub mod Report
pub mod Notify
pub mod Clear
pub mod Content
use research_cosmos.Prelude.{
  ℕ, ◌+◌, ◌-◌, ◌%◌, ◌≤◌, Bool, true, false, ◌&&◌, Option, none, some, List, [], ◌∷◌, ◌++◌, ◌==◌,
  ltb, leb, length, take, drop, if◌then◌else◌,
}
use research_cosmos.Prelude.Int.{ℤ, pos, ltb_ℤ}
use research_cosmos.Bytes.{Bytes, from_big_endian}
use research_cosmos.KvStore.{KvStore, set, delete, entries}
use research_cosmos.Types.{
  Outcome, ok, err, panic, invalid, unknown, PipedValsetOperation, validator_bonded,
  validator_unbonded, validator_jailed, validator_tombstoned, validator_unjailed,
  validator_modified, validator_slashed, SlashInfo, task_valset_update, to_int64,
}
use research_cosmos.Ctx.{World, M, ◌>>=◌, ◌>>◌, pure, fail, lift, gets, modify, or_panic}
use research_cosmos.Keys.{piped_valset_prefix, build_piped_valset_op_key}
use research_cosmos.Keeper.{Keeper}
use research_cosmos.Keeper.Caps.{iterate_max_cap_limit}
use research_cosmos.Keeper.Piped.{PipedOp, decode_piped_key}
use research_cosmos.Keeper.Scheduler.{schedule_one_shot_task}

module _ {E : Type 0} (k : Keeper E) where
  -- The callback of `sendAsync`: every contract with a limit above zero gets a task.
  abbrev pub schedule_valset_update : Unit {0} → Bytes → ℤ → M E (Unit {0} × Bool)
  schedule_valset_update u contract_addr m =
      if ltb_ℤ (pos 0) m
      then (do
        height ← gets (λ w. w.height)
        schedule_one_shot_task task_valset_update contract_addr height
        pure (tt, false))
      else pure (tt, false)

  unfoldable pub send_async : PipedValsetOperation → Bytes → Option SlashInfo → M E Unit
  unfolding iterate_max_cap_limit
  send_async op val_addr slash_info = do
    key ← lift (build_piped_valset_op_key k.sdk op val_addr slash_info)
    modify (λ w. record w { mem = set key [] w.mem })
    iterate_max_cap_limit k schedule_valset_update tt

  unfoldable pub schedule_bonded : Bytes → M E Unit
  unfolding send_async
  schedule_bonded addr = send_async validator_bonded addr none

  unfoldable pub schedule_unbonded : Bytes → M E Unit
  unfolding send_async
  schedule_unbonded addr = send_async validator_unbonded addr none

  unfoldable pub schedule_slashed : Bytes → ℤ → ℤ → ℤ → ℤ → M E Unit
  unfolding send_async
  schedule_slashed addr power height total_slash_amount slash_ratio =
      let slash_info : SlashInfo = record {
        infraction_height = height;
        power = power;
        total_slash_amount = k.sdk.int_string total_slash_amount;
        slash_fraction = k.sdk.dec_string slash_ratio;
      } in
      send_async validator_slashed addr (some slash_info)

  unfoldable pub schedule_jailed : Bytes → M E Unit
  unfolding send_async
  schedule_jailed addr = send_async validator_jailed addr none

  unfoldable pub schedule_tombstoned : Bytes → M E Unit
  unfolding send_async
  schedule_tombstoned addr = send_async validator_tombstoned addr none

  unfoldable pub schedule_unjailed : Bytes → M E Unit
  unfolding send_async
  schedule_unjailed addr = send_async validator_unjailed addr none

  unfoldable pub schedule_modified : Bytes → M E Unit
  unfolding send_async
  schedule_modified addr = send_async validator_modified addr none

module _ {E : Type 0} where
  unfoldable pub iterate_piped : {S : Type 0} → (S → PipedOp → M E (S × Bool)) → S → KvStore → M E S
  iterate_piped cb s [] = pure s
  iterate_piped cb s ((key, value) ∷ rest) = do
    p ← lift (decode_piped_key key)
    (s', stop) ← cb s p
    if stop then pure s' else iterate_piped cb s' rest

  unfoldable pub iterate_piped_valset_operations :
      {S : Type 0} → (S → PipedOp → M E (S × Bool)) → S → M E S
  unfolding iterate_piped
  iterate_piped_valset_operations cb s w = iterate_piped cb s (entries piped_valset_prefix w.mem) w

-- The deletes of `ClearPipedValsetOperations`, behind the prefix.
unfoldable pub delete_keys : Bytes → KvStore → KvStore → KvStore
delete_keys p [] mem = mem
delete_keys p ((key, value) ∷ rest) mem = delete_keys p rest (delete (p ++ key) mem)

module _ {E : Type 0} where
  unfoldable pub clear_piped_valset_operations : M E Unit
  unfolding delete_keys
  clear_piped_valset_operations = modify λ w. record w {
    mem = delete_keys piped_valset_prefix (entries piped_valset_prefix w.mem) w.mem;
  }
