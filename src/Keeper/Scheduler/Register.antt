-- ===== src/Keeper/Scheduler/Register.antt =====
-- The registration of tasks in x/meshsecurity/keeper/scheduler.go.
use research_cosmos.Prelude.{
  ℕ, ◌<◌, ◌≤◌, ◌≡◌, ◌≢◌, refl, ◌⊎◌, inl, inr, Bool, true, false, none, [], ◌∷◌, ◌++◌, arith,
}
use research_cosmos.Bytes.{Bytes}
use research_cosmos.Bytes.Order.{not_equal}
use research_cosmos.KvStore.{get, set, has, delete}
use research_cosmos.KvStore.Laws.{get-set}
use research_cosmos.Types.{
  ok, err, invalid, SchedulerTaskType, task_undefined, scheduler_registered,
}
use research_cosmos.Ctx.{World}
use research_cosmos.Keys.Scheduler.{task_key, build_scheduler_contract_key_lem}
use research_cosmos.Keeper.Scheduler.{
  to_byte, schedule_one_shot_task, schedule_repeating_task, delete_scheduled_task,
}

-- The state after a task was registered.
abbrev pub registered : {E : Type 0} → Bytes → Bytes → ℕ → Bool → World E → World E
registered key c h repeat w = record w {
  store = set key (to_byte repeat ∷ []) w.store;
  events = w.events ++ scheduler_registered c h repeat ∷ [];
}

module _ {E : Type 0} (tp : SchedulerTaskType) (c : Bytes) (h : ℕ) (w : World E) where
  -- Registering a one-shot task of a defined type fails for a past height and changes nothing; for
  -- another height it changes nothing if any task is stored for the type, height and contract, and
  -- stores a task without the repeat flag otherwise.
  pub schedule_one_shot_task_branches :
      tp ≢ task_undefined
      → ((h < w.height) × (schedule_one_shot_task tp c h w ≡ (err invalid, w)))
        ⊎ ((w.height ≤ h)
            × (get (task_key tp h c) w.store ≢ none)
            × (schedule_one_shot_task tp c h w ≡ (ok tt, w)))
        ⊎ ((w.height ≤ h)
            × (get (task_key tp h c) w.store ≡ none)
            × (schedule_one_shot_task tp c h w ≡ (ok tt, registered (task_key tp h c) c h false w)))
  unfolding schedule_one_shot_task has
  schedule_one_shot_task_branches d = ground (arith, build_scheduler_contract_key_lem tp h c d)

  -- Registering a repeating task of a defined type fails for a past height and changes nothing, and
  -- otherwise stores it with the repeat flag, over whatever was there.
  pub schedule_repeating_task_branches :
      tp ≢ task_undefined
      → ((h < w.height) × (schedule_repeating_task tp c h w ≡ (err invalid, w)))
        ⊎ ((w.height ≤ h)
            × (schedule_repeating_task tp c h w ≡ (ok tt, registered (task_key tp h c) c h true w)))
  unfolding schedule_repeating_task
  schedule_repeating_task_branches d = ground (arith, build_scheduler_contract_key_lem tp h c d)

  pub delete_scheduled_task_ok :
      tp ≢ task_undefined
      → delete_scheduled_task tp c h w
        ≡ (ok tt, record w { store = delete (task_key tp h c) w.store })
  unfolding delete_scheduled_task
  delete_scheduled_task_ok d = ground (arith, build_scheduler_contract_key_lem tp h c d)

  -- A one-shot registration of a defined type, whatever its outcome, leaves every stored entry as
  -- it was; so a repeating task keeps its flag.
  pub schedule_one_shot_task_keeps :
      (j : Bytes)
      → tp ≢ task_undefined
      → get j w.store ≢ none
      → get j (schedule_one_shot_task tp c h w).1.store ≡ get j w.store
  schedule_one_shot_task_keeps j d stored = elim (schedule_one_shot_task_branches d) [
    | inl (past, e) ↦ rw e refl
    | inr (inl (now, known, e)) ↦ rw e refl
    | inr (inr (now, new, e)) ↦
        rw
          (
            e,
            get-set (task_key tp h c) j (to_byte false ∷ []) w.store,
            not_equal (task_key tp h c) j (λ same. stored (rw (← same) new)),
          )
          refl
  ]
