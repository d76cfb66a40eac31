-- ===== src/Keeper/Scheduler/Removal.antt =====
-- `DeleteAllScheduledTasks` of x/meshsecurity/keeper/scheduler.go, entry by entry.
use research_cosmos.Prelude.{
  ℕ, ◌^◌, ◌<◌, ◌≡◌, ◌≢◌, subst, refl, sym, ◌∙◌, Bool, false, ◌&&◌, ◌||◌, none, some, [], ◌∷◌, ◌++◌,
  ◌==◌, arith, All, inl, inr, Bool-cases, Option-cases, if◌then◌else◌,
}
use research_cosmos.Bytes.{Bytes, equal, big_endian}
use research_cosmos.Bytes.Order.{equal_sound, equal_refl}
use research_cosmos.KvStore.{KvStore, get, delete}
use research_cosmos.KvStore.Laws.{get-delete, equal_comm}
use research_cosmos.KvStore.Prefix.{get-entries}
use research_cosmos.Types.{Outcome, ok, SchedulerTaskType, task_undefined}
use research_cosmos.Ctx.{World}
use research_cosmos.Keys.{build_scheduler_type_key_prefix}
use research_cosmos.Keys.Scheduler.{task_key}
use research_cosmos.Keeper.Scheduler.{
  max_uint, split_task_key, iterate_tasks, iterate_scheduled_tasks,
  iterate_scheduled_contract_tasks, only_contract, delete_task, delete_all_scheduled_tasks,
}
use research_cosmos.Keeper.Scheduler.Register.{delete_scheduled_task_ok}
use research_cosmos.Keeper.Scheduler.Lookup.{schedule, iterate_tasks_step}
use research_cosmos.Keeper.Scheduler.Tasks.{
  IsTaskEntry, IsTaskStore, split-task_key, equal-task_key, equal-task_tail,
  delete_task-IsTaskStore,
}

module _ (tp : SchedulerTaskType) (c : Bytes) where
  -- The store without the contract's tasks among the entries.
  abbrev pub drop_tasks : KvStore → KvStore → KvStore
  drop_tasks [] store = store
  drop_tasks ((key, v) ∷ s) store = drop_tasks s (elim (split_task_key key) [
    | none ↦ store
    | some (h, a) ↦ if equal a c then delete (task_key tp h c) store else store
  ])

  -- Is the key one of those that are dropped?
  abbrev pub drops : Bytes → KvStore → Bool
  drops j [] = false
  drops j ((key, v) ∷ s) =
      let rest = drops j s in
      elim (split_task_key key) [
        | none ↦ rest
        | some (h, a) ↦ (equal a c && equal (task_key tp h c) j) || rest
      ]

  get-drop_tasks :
      (j : Bytes) (s store : KvStore)
      → get j (drop_tasks s store) ≡ (if drops j s then none else get j store)
  get-drop_tasks j [] store = refl
  get-drop_tasks j ((key, v) ∷ s) store = elim (Option-cases (split_task_key key)) [
    | inl e ↦ rw (e, drop_tasks, drops) (get-drop_tasks j s store)
    | inr ((h, a), e) ↦ elim (Bool-cases (equal a c)) [
      | inl mine ↦
          rw (e, drop_tasks, drops, mine)
            (get-drop_tasks j s (delete (task_key tp h c) store)
              ∙ ground (arith, get-delete (task_key tp h c) j store))
      | inr other ↦ rw (e, drop_tasks, drops, other) (get-drop_tasks j s store)
    ]
  ]

  pub drop_tasks-IsTaskStore :
      (s store : KvStore) → IsTaskStore store → IsTaskStore (drop_tasks s store)
  drop_tasks-IsTaskStore [] store h = h
  drop_tasks-IsTaskStore ((key, v) ∷ s) store h = elim (Option-cases (split_task_key key)) [
    | inl e ↦ rw (e, drop_tasks) (drop_tasks-IsTaskStore s store h)
    | inr ((ht, a), e) ↦ elim (Bool-cases (equal a c)) [
      | inl mine ↦
          rw (e, drop_tasks, mine)
            (drop_tasks-IsTaskStore s (delete (task_key tp ht c) store)
              (delete_task-IsTaskStore store h tp ht c))
      | inr other ↦ rw (e, drop_tasks, other) (drop_tasks-IsTaskStore s store h)
    ]
  ]

  loop_drops :
      {E : Type 0} (s : KvStore) (w : World E)
      → tp ≢ task_undefined
      → All IsTaskEntry s
      → iterate_tasks max_uint (only_contract c (delete_task tp c)) tt s w
        ≡ (ok tt, record w { store = drop_tasks s w.store })
  loop_drops [] w d h = unfold iterate_tasks in refl
  loop_drops ((key, v) ∷ s) w d ((ht, a, fits, e), h) =
      let sp : split_task_key key ≡ some (ht, a) = rw e (split-task_key ht a fits) in
      iterate_tasks_step max_uint ht a key v (only_contract c (delete_task tp c)) tt s w sp
        (omega (arith, fits))
      ∙ elim (Bool-cases (equal a c)) [
        | inl mine ↦
            rw (sp, drop_tasks, mine, delete_scheduled_task_ok tp c ht w d)
              (loop_drops s (record w { store = delete (task_key tp ht c) w.store }) d h)
        | inr other ↦ rw (sp, drop_tasks, other) (loop_drops s w d h)
      ]

  -- The keys that are dropped, read off the schedule of the type.
  drops_other :
      (tp' h' : ℕ) (c' : Bytes) (s : KvStore)
      → h' < 2 ^ 64
      → (tp == tp' && equal c c') ≡ false
      → All IsTaskEntry s
      → drops (task_key tp' h' c') s ≡ false
  drops_other tp' h' c' [] fits e h = refl
  drops_other tp' h' c' ((key, v) ∷ s) fits e ((ht, a, bound, k), h) =
      rw (k, split-task_key ht a bound, drops, equal-task_key tp tp' ht h' c c' bound fits)
        (ground (arith, drops_other tp' h' c' s fits e h))

  drops_mine :
      (h' : ℕ) (s : KvStore)
      → h' < 2 ^ 64
      → All IsTaskEntry s
      → drops (task_key tp h' c) s ≡ false
      → get (big_endian 8 h' ++ c) s ≡ none
  unfolding get
  drops_mine h' [] fits h e = refl
  drops_mine h' ((key, v) ∷ s) fits ((ht, a, bound, k), h) e =
      let e' =
        rw (k, split-task_key ht a bound, drops, equal-task_key tp tp ht h' c c bound fits) at e in
      rw (k, equal-task_tail h' ht c a fits bound)
        (ground (arith, e', equal_comm a c, equal_refl c, drops_mine h' s fits h))

  delete_all_drops :
      {E : Type 0} (w : World E)
      → tp ≢ task_undefined
      → IsTaskStore w.store
      → delete_all_scheduled_tasks tp c w
        ≡ (ok tt, record w { store = drop_tasks (schedule tp w.store) w.store })
  unfolding delete_all_scheduled_tasks iterate_scheduled_contract_tasks iterate_scheduled_tasks
      build_scheduler_type_key_prefix
  delete_all_drops w d h = ground (arith, loop_drops (schedule tp w.store) w d (h.tasks tp))

  -- Where a stored key is not dropped, it is not the contract's.
  get-all_dropped :
      (h' : ℕ) (s : KvStore)
      → h' < 2 ^ 64
      → IsTaskStore s
      → get (task_key tp h' c) (drop_tasks (schedule tp s) s) ≡ none
  get-all_dropped h' s fits h =
      get-drop_tasks (task_key tp h' c) (schedule tp s) s
      ∙ elim (Bool-cases (drops (task_key tp h' c) (schedule tp s))) [
        | inl dropped ↦ rw dropped refl
        | inr kept ↦ rw kept (
            sym (get-entries (0x4 ∷ tp ∷ []) (big_endian 8 h' ++ c) s)
            ∙ drops_mine h' (schedule tp s) fits (h.tasks tp) kept)
      ]

  -- What a run of `DeleteAllScheduledTasks` leaves.
  abbrev pub AllRemoved : {E : Type 0} → World E → Outcome (Unit {0}) × World E → Type 0
  AllRemoved w r =
      (r ≡ (ok tt, record w { store = r.1.store }))
      × IsTaskStore r.1.store
      × ((tp' h' : ℕ) (c' : Bytes)
          → h' < 2 ^ 64
          → get (task_key tp' h' c') r.1.store
            ≡ (if tp == tp' && equal c c' then none else get (task_key tp' h' c') w.store))

  -- On a store of well-formed tasks, `DeleteAllScheduledTasks` for a defined type succeeds and changes
  -- nothing but the store, which stays one of well-formed tasks; a task of another type or contract is
  -- as before, and the contract has none of the type left, at any height of 64 bits.
  pub delete_all_scheduled_tasks_lem :
      {E : Type 0} (w : World E)
      → tp ≢ task_undefined
      → IsTaskStore w.store
      → AllRemoved w (delete_all_scheduled_tasks tp c w)
  delete_all_scheduled_tasks_lem w d h = subst (AllRemoved w) (sym (delete_all_drops w d h)) (
    refl,
    drop_tasks-IsTaskStore (schedule tp w.store) w.store h,
    λ tp' h' c' fits. elim (Bool-cases (tp == tp' && equal c c')) [
      | inl mine ↦
          let t : tp ≡ tp' = ground arith in
          let e : c ≡ c' = equal_sound c c' (ground arith) in
          rw (mine, ← t, ← e) (get-all_dropped h' w.store fits h)
      | inr other ↦
          get-drop_tasks (task_key tp' h' c') (schedule tp w.store) w.store
          ∙ rw (drops_other tp' h' c' (schedule tp w.store) fits other (h.tasks tp), other) refl
    ],
  )
