-- ===== src/Keeper/MsgServer/Tasks.antt =====
-- The tasks that `SetVirtualStakingMaxCap` of x/meshsecurity/keeper/msg_server.go leaves.
use research_cosmos.Prelude.{
  ℕ, ◌+◌, ◌%◌, ◌^◌, ◌<◌, ◌≤◌, ◌≡◌, refl, sym, ap, ◌∙◌, Bool, true, false, not, ◌&&◌, none, some,
  List, [], ◌∷◌, arith, if◌then◌else◌, inl, inr, Bool-cases,
}
use research_cosmos.Prelude.Int.{ℤ, ltb_ℤ, ◌+ℤ◌, is_zero}
use research_cosmos.Bytes.{Bytes, equal, strip_prefix}
use research_cosmos.Types.{
  Outcome, ok, err, panic, unknown, invalid, invalid_coins, Params, task_handle_epoch,
}
use research_cosmos.Messages.{MsgSetVirtualStakingMaxCap}
use research_cosmos.Sdk.{Laws, fits_int}
use research_cosmos.Ctx.{World}
use research_cosmos.Keeper.{Keeper}
use research_cosmos.Keeper.Params.{get_rebalance_epoch_length}
use research_cosmos.Keeper.Params.Stored.{HasParams, HasParams-set, get_params_ok}
use research_cosmos.Keeper.MsgServer.{
  valid_coin, validate_basic, reschedule_known, set_virtual_staking_max_cap,
}
use research_cosmos.Keeper.Scheduler.{
  schedule_one_shot_task, schedule_repeating_task, delete_all_scheduled_tasks,
  schedule_regular_rebalance_task, has_scheduled_task,
}
use research_cosmos.Keeper.Scheduler.Register.{
  schedule_one_shot_task_branches, schedule_repeating_task_branches,
}
use research_cosmos.Keeper.Scheduler.Tasks.{IsTaskStore, set_other-IsTaskStore, entries-IsSchedule}
use research_cosmos.Bytes.Order.{equal_refl}
use research_cosmos.KvStore.Prefix.{entries-set_other}
use research_cosmos.Keys.{build_max_cap_limit_key}
use research_cosmos.Keeper.Safe.{IsSafe}
use research_cosmos.Keeper.Caps.Total.{
  IsNonneg, store_cap, caps, cap_sum_others, set_max_cap_limit_branches,
}
use research_cosmos.Keeper.Scheduler.Lookup.{schedule, any_task, has_scheduled_task_lem}
use research_cosmos.Keeper.Scheduler.Removal.{delete_all_scheduled_tasks_lem}
use research_cosmos.Keeper.Scheduler.Refines.{
  TaskCall, one_shot, repeating, remove_all, perform, run,
}

-- What the handler asks of the scheduler: an update now for a contract with a regular task, whose
-- tasks a limit of zero removes first, and a regular task for another one.
abbrev pub rebalance_calls : Bytes → ℤ → ℕ → ℕ → Bool → List TaskCall
rebalance_calls c limit now epoch true =
    let last = one_shot task_handle_epoch c now ∷ [] in
    if is_zero limit then remove_all task_handle_epoch c ∷ last else last
rebalance_calls c limit now epoch false = repeating task_handle_epoch c (now + epoch) ∷ []

module _ {E : Type 0} (c : Bytes) (w : World E) where
  one_shot_now :
      schedule_one_shot_task task_handle_epoch c w.height w
      ≡ (ok tt, (schedule_one_shot_task task_handle_epoch c w.height w).1)
  one_shot_now =
      elim (schedule_one_shot_task_branches task_handle_epoch c w.height w (omega arith)) [
        | inl (past, e) ↦ absurd (omega (arith, past))
        | inr (inl (now, known, e)) ↦ rw e refl
        | inr (inr (now, new, e)) ↦ rw e refl
      ]

  repeating_later :
      (h : ℕ)
      → w.height ≤ h
      → schedule_repeating_task task_handle_epoch c h w
        ≡ (ok tt, (schedule_repeating_task task_handle_epoch c h w).1)
  repeating_later h later =
      elim (schedule_repeating_task_branches task_handle_epoch c h w (omega arith)) [
        | inl (past, e) ↦ absurd (omega (arith, past, later))
        | inr (now, e) ↦ rw e refl
      ]

module _ {E : Type 0} (k : Keeper E) (c : Bytes) (w : World E) where
  reschedule_known_lem :
      (req : MsgSetVirtualStakingMaxCap) (epoch : ℕ)
      → IsTaskStore w.store
      → reschedule_known k c req w
        ≡ (ok tt, run (rebalance_calls c req.max_cap.amount w.height epoch true) w)
  unfolding reschedule_known run perform
  reschedule_known_lem req epoch h =
      let cleared = delete_all_scheduled_tasks task_handle_epoch c w in
      let done : cleared ≡ (ok tt, record w { store = cleared.1.store }) =
        (delete_all_scheduled_tasks_lem task_handle_epoch c w (omega arith) h).0 in
      elim (Bool-cases (is_zero req.max_cap.amount)) [
        | inl zero ↦
            rw (zero, done)
              (one_shot_now c (record w { store = cleared.1.store })
                ∙ ap
                    (λ (r : Outcome (Unit {0}) × World E).
                      (ok tt, (schedule_one_shot_task task_handle_epoch c w.height r.1).1))
                    (sym done))
        | inr other ↦ rw other (one_shot_now c w)
      ]

  regular_lem :
      (p : Params) (limit : ℤ)
      → HasParams k.sdk p w.store
      → w.height + p.epoch_length < 2 ^ 64
      → schedule_regular_rebalance_task k c w ≡ (
          if not (k.wasm.has_contract_info w.env c)
          then (err unknown, w)
          else (ok tt, run (rebalance_calls c limit w.height p.epoch_length false) w))
  unfolding schedule_regular_rebalance_task get_rebalance_epoch_length run perform
  regular_lem p limit h fits =
      let next = w.height + p.epoch_length in
      let whole : next % 2 ^ 64 ≡ next = omega arith in
      elim (Bool-cases (k.wasm.has_contract_info w.env c)) [
        | inl known ↦
            rw (known, get_params_ok k p w h, whole) (repeating_later c w next (omega arith))
        | inr other ↦ rw other refl
      ]

module _ {E : Type 0} (k : Keeper E) (laws : Laws k.sdk) (c : Bytes) (w : World E) (p : Params)
    (req : MsgSetVirtualStakingMaxCap) (bz : Bytes) (h : IsSafe k.sdk p w.store)
    (fits : w.height + p.epoch_length < 2 ^ 64) where
  abbrev capped : World E
  capped = store_cap c req.max_cap bz w

  -- Does the contract have a regular task?
  abbrev regular : Bool
  regular = any_task c true (schedule task_handle_epoch w.store)

  capped-IsTaskStore : IsTaskStore capped.store
  unfolding build_max_cap_limit_key
  capped-IsTaskStore = set_other-IsTaskStore w.store h.tasks 0x2 c bz refl

  capped-HasParams : HasParams k.sdk p capped.store
  unfolding build_max_cap_limit_key equal
  capped-HasParams = HasParams-set k.sdk p (build_max_cap_limit_key c) bz w.store refl h.caps.params

  same_schedule : schedule task_handle_epoch capped.store ≡ schedule task_handle_epoch w.store
  unfolding build_max_cap_limit_key strip_prefix
  same_schedule =
      entries-set_other (0x4 ∷ task_handle_epoch ∷ []) (build_max_cap_limit_key c) bz w.store refl

  has_regular : has_scheduled_task task_handle_epoch c true capped ≡ (ok regular, capped)
  has_regular =
      has_scheduled_task_lem c capped task_handle_epoch true (omega arith) (
        entries-IsSchedule (schedule task_handle_epoch capped.store)
          (capped-IsTaskStore.tasks task_handle_epoch))
      ∙ rw same_schedule refl

  -- Behind the change of the limit.
  after_cap :
      (if regular then reschedule_known k c req else schedule_regular_rebalance_task k c) capped ≡ (
        if not regular && not (k.wasm.has_contract_info w.env c) then (err unknown, capped) else (
          ok tt,
          run (rebalance_calls c req.max_cap.amount w.height p.epoch_length regular) capped,
        ))
  after_cap = elim (Bool-cases regular) [
    | inl has ↦ rw has (reschedule_known_lem k c capped req p.epoch_length capped-IsTaskStore)
    | inr has ↦ rw has (regular_lem k c capped p req.max_cap.amount capped-HasParams fits)
  ]

  -- With the laws of the SDK, a safe store (in key order, with params, caps and tasks that can be
  -- read, and caps within the total of the params), no cap below zero, a height that fits in 64
  -- bits together with the epoch length, and a message that is valid, from the authority, for a
  -- contract's address, and has an amount that can be marshalled: `SetVirtualStakingMaxCap`
  -- changes nothing and fails for another denomination than the staking one; it changes nothing
  -- and panics if the sum of the other contracts' caps and the amount has more than 256 bits; it
  -- changes nothing and fails if that sum passes the total of the params. Otherwise it stores the cap, and then, if the contract has no
  -- repeating epoch task, it fails if there is no such contract, and otherwise adds a repeating
  -- one an epoch later; if the contract has one, it asks for a one-shot task in this block,
  -- before which an amount of zero removes all of the contract's epoch tasks.
  pub set_virtual_staking_max_cap_lem :
      IsNonneg k.sdk (caps w.store)
      → validate_basic k.sdk req ≡ none
      → req.authority ≡ k.authority
      → k.sdk.acc_address_from_bech32 req.contract ≡ some c
      → k.sdk.marshal_int req.max_cap.amount ≡ ok bz
      → set_virtual_staking_max_cap k req w ≡ (
          if not (equal (k.staking.bond_denom w.env) req.max_cap.denom)
          then (err invalid_coins, w)
          else if not (fits_int (cap_sum_others k.sdk c (caps w.store) +ℤ req.max_cap.amount))
          then (panic, w)
          else if ltb_ℤ p.total_contracts_max_cap.amount
              (cap_sum_others k.sdk c (caps w.store) +ℤ req.max_cap.amount)
          then (err invalid, w)
          else if not regular && not (k.wasm.has_contract_info w.env c)
          then (err unknown, capped)
          else (
            ok tt,
            run (rebalance_calls c req.max_cap.amount w.height p.epoch_length regular) capped,
          ))
  unfolding set_virtual_staking_max_cap
  set_virtual_staking_max_cap_lem nonneg valid authority address m =
      let branches =
        set_max_cap_limit_branches k laws c req.max_cap w h.caps.readable
          (get_params_ok k p w h.caps.params) m nonneg
          (laws.validate_coin_nonneg req.max_cap (valid_coin k.sdk req valid)) in
      let signer : equal k.authority req.authority ≡ true = rw authority (equal_refl k.authority) in
      let fits = fits_int (cap_sum_others k.sdk c (caps w.store) +ℤ req.max_cap.amount) in
      let denom = equal (k.staking.bond_denom w.env) req.max_cap.denom in
      let exceeds =
        ltb_ℤ p.total_contracts_max_cap.amount
          (cap_sum_others k.sdk c (caps w.store) +ℤ req.max_cap.amount) in
      elim (Bool-cases denom) [
        | inr other ↦ rw (valid, signer, address, branches, other) refl
        | inl same ↦ elim (Bool-cases fits) [
          | inr large ↦ rw (valid, signer, address, branches, same, large) refl
          | inl whole ↦ elim (Bool-cases exceeds) [
            | inl over ↦ rw (valid, signer, address, branches, same, whole, over) refl
            | inr below ↦
                rw (valid, signer, address, branches, same, whole, below) (rw has_regular after_cap)
          ]
        ]
      ]
