-- ===== src/Keeper/Writes/Valset.antt =====
-- The writes of x/meshsecurity/keeper/valset_updates.go, staking_hooks.go and adapter.go.
use research_cosmos.Prelude.{ℕ, Bool, false, Option, none, some, [], arith}
use research_cosmos.Prelude.Int.{ℤ, pos, ltb_ℤ}
use research_cosmos.Bytes.{Bytes}
use research_cosmos.KvStore.{set, entries}
use research_cosmos.Types.{
  Outcome, ok, err, panic, Validator, PipedValsetOperation, SlashInfo, task_valset_update,
  validator_tombstoned, validator_jailed, validator_unjailed, validator_slashed,
}
use research_cosmos.Ctx.{World, M, Call, ◌>>=◌, pure, lift, gets, modify, call}
use research_cosmos.Ctx.Keeps.{Keeps, Keeps-bind, Keeps-if}
use research_cosmos.Keys.{max_cap_limit_key_prefix, build_piped_valset_op_key}
use research_cosmos.Keeper.{Keeper}
use research_cosmos.Keeper.Writes.{IsTaskClosed}
use research_cosmos.Keeper.Writes.Caps.{Keeps-caps}
use research_cosmos.Keeper.Writes.Tasks.{Keeps-one_shot}
use research_cosmos.Keeper.Caps.{iterate_caps, iterate_max_cap_limit}
use research_cosmos.Keeper.Scheduler.{schedule_one_shot_task}
use research_cosmos.Keeper.Valset.{
  schedule_valset_update, send_async, schedule_bonded, schedule_unbonded, schedule_slashed,
  schedule_jailed, schedule_tombstoned, schedule_unjailed, schedule_modified,
}
use research_cosmos.Keeper.Hooks.{
  Hook, run_hook, after_validator_bonded, after_validator_begin_unbonding, before_validator_slashed,
  after_unbonding_initiated, before_validator_modified, after_validator_created,
  after_validator_removed, before_delegation_created, before_delegation_shares_modified,
  before_delegation_removed, after_delegation_modified,
}
use research_cosmos.Keeper.Adapter.{
  SlashingTarget, logged, log_error, propagate, tombstone, slash, jail, unjail,
}

module _ {E : Type 0} (k : Keeper E) (P : World E → Type 0) (closed : IsTaskClosed P) where
  Keeps-schedule_valset_update :
      (u : Unit) (c : Bytes) (m : ℤ) → Keeps P (schedule_valset_update k u c m)
  Keeps-schedule_valset_update u c m =
      let schedule : ℕ → M E (Unit {0} × Bool) =
        λ height. schedule_one_shot_task task_valset_update c height >>= λ _. pure (tt, false) in
      let notify : M E (Unit {0} × Bool) = gets (λ w. w.height) >>= schedule in
      Keeps-if P (ltb_ℤ (pos 0) m) notify (pure (tt, false))
        (Keeps-bind P (gets (λ w. w.height)) schedule (λ w h. h)
          (λ height.
            Keeps-bind P (schedule_one_shot_task task_valset_update c height)
              (λ _. pure (tt, false))
              (Keeps-one_shot k P closed task_valset_update c height (omega arith)) (λ _ w h. h)))
        (λ w h. h)

  pub Keeps-send_async :
      (op : PipedValsetOperation) (a : Bytes) (i : Option SlashInfo) → Keeps P (send_async k op a i)
  unfolding send_async iterate_max_cap_limit
  Keeps-send_async op a i =
      let caps : M E Unit = λ w.
        iterate_caps k (schedule_valset_update k) tt (entries max_cap_limit_key_prefix w.store) w in
      let store : Bytes → M E Unit =
        λ key. modify (λ w. record w { mem = set key [] w.mem }) >>= λ _. caps in
      Keeps-bind P (lift (build_piped_valset_op_key k.sdk op a i)) store (λ w h. h)
        (λ key.
          Keeps-bind P (modify (λ w. record w { mem = set key [] w.mem })) (λ _. caps)
            (λ w h. closed.mem w (set key [] w.mem) h)
            (λ _ w h.
              Keeps-caps k P (schedule_valset_update k) (entries max_cap_limit_key_prefix w.store)
                tt Keeps-schedule_valset_update w h))

  pub Keeps-run_hook : (hook : Hook) → Keeps P (run_hook k hook)
  unfolding run_hook schedule_bonded schedule_unbonded schedule_modified
  Keeps-run_hook (after_validator_bonded cons a) = Keeps-send_async _ a none
  Keeps-run_hook (after_validator_begin_unbonding cons a) = Keeps-send_async _ a none
  Keeps-run_hook (before_validator_modified a) = Keeps-send_async _ a none
  Keeps-run_hook (before_validator_slashed a x) = λ w h. h
  Keeps-run_hook (after_unbonding_initiated n) = λ w h. h
  Keeps-run_hook (after_validator_created a) = λ w h. h
  Keeps-run_hook (after_validator_removed cons a) = λ w h. h
  Keeps-run_hook (before_delegation_created a b) = λ w h. h
  Keeps-run_hook (before_delegation_shares_modified a b) = λ w h. h
  Keeps-run_hook (before_delegation_removed a b) = λ w h. h
  Keeps-run_hook (after_delegation_modified a b) = λ w h. h

  Keeps-log_error : (m : M E Unit) → Keeps P m → Keeps P (log_error m)
  Keeps-log_error m hm w h = go (m w).0 (m w).1 (hm w h)
    where
      go : (r : Outcome Unit) (v : World E) → P v → P (logged (r, v)).1
      go (ok u) v i = i
      go (err e) v i = i
      go panic v i = i

  Keeps-propagate :
      (o : Option Validator) (f : Bytes → M E Unit)
      → ((a : Bytes) → Keeps P (f a))
      → Keeps P (propagate o f)
  Keeps-propagate none f hf = λ w h. h
  Keeps-propagate (some v) f hf = Keeps-log_error (f v.operator_address) (hf v.operator_address)

  module _ (s : SlashingTarget E) where
    -- The decorated jail and unjail: an event is scheduled before the call.
    Keeps-decorated :
        (o : World E → Option Validator) (f : Bytes → M E Unit) (m : Call E Unit)
        → ((a : Bytes) → Keeps P (f a))
        → Keeps P (gets o >>= λ v. propagate v f >>= λ _. call m)
    Keeps-decorated o f m hf =
        let last : Option Validator → M E Unit = λ v. propagate v f >>= λ _. call m in
        Keeps-bind P (gets o) last (λ w h. h)
          (λ v.
            Keeps-bind P (propagate v f) (λ _. call m) (Keeps-propagate v f hf)
              (λ _ w h. closed.env w (m w.env).1 h))

    pub Keeps-tombstone : (a : Bytes) → Keeps P (tombstone k s a)
    unfolding tombstone schedule_tombstoned
    Keeps-tombstone a =
        Keeps-decorated (λ w. k.staking.get_validator_by_cons_addr w.env a)
          (λ op. send_async k validator_tombstoned op none) (s.tombstone a)
          (λ op. Keeps-send_async validator_tombstoned op none)

    pub Keeps-jail : (a : Bytes) → Keeps P (jail k s a)
    unfolding jail schedule_jailed
    Keeps-jail a =
        Keeps-decorated (λ w. s.validator_by_cons_addr w.env a)
          (λ op. send_async k validator_jailed op none) (s.jail a)
          (λ op. Keeps-send_async validator_jailed op none)

    pub Keeps-unjail : (a : Bytes) → Keeps P (unjail k s a)
    unfolding unjail schedule_unjailed
    Keeps-unjail a =
        Keeps-decorated (λ w. s.validator_by_cons_addr w.env a)
          (λ op. send_async k validator_unjailed op none) (s.unjail a)
          (λ op. Keeps-send_async validator_unjailed op none)

    Keeps-schedule_slashed :
        (op : Bytes) (power height total ratio : ℤ)
        → Keeps P (schedule_slashed k op power height total ratio)
    unfolding schedule_slashed
    Keeps-schedule_slashed op power height total ratio = Keeps-send_async validator_slashed op _

    pub Keeps-slash :
        (a : Bytes) (power height ratio : ℤ) → Keeps P (slash k s a power height ratio)
    unfolding slash
    Keeps-slash a power height ratio =
        let report : ℤ → Bytes → M E Unit =
          λ total op. schedule_slashed k op power height total ratio in
        let told : Option Validator → ℤ → M E ℤ =
          λ v total. propagate v (report total) >>= λ _. pure total in
        let cut : Option Validator → M E ℤ = λ v. call (s.slash a power height ratio) >>= told v in
        Keeps-bind P (gets (λ w. s.validator_by_cons_addr w.env a)) cut (λ w h. h)
          (λ v.
            Keeps-bind P (call (s.slash a power height ratio)) (told v)
              (λ w h. closed.env w (s.slash a power height ratio w.env).1 h)
              (λ total.
                Keeps-bind P (propagate v (report total)) (λ _. pure total)
                  (Keeps-propagate v (report total)
                    (λ op. Keeps-schedule_slashed op power height total ratio))
                  (λ _ w h. h)))
