-- ===== src/Keeper/Scheduler/Refines.antt =====
-- The scheduler against an abstract one: a function from types, heights and contracts to an optional
-- repeat flag, over any sequence of calls.
use research_cosmos.Prelude.{
  ℕ, ◌^◌, ◌<◌, ◌≤◌, ◌≡◌, ◌≢◌, subst, refl, sym, ap, Bool, true, false, ◌&&◌, Option, none, some,
  List, [], ◌∷◌, ◌==◌, ltb, arith, All, inl, inr, Bool-cases, if◌then◌else◌,
}
use research_cosmos.Bytes.{Bytes, equal}
use research_cosmos.KvStore.{KvStore, get, set, delete}
use research_cosmos.KvStore.Laws.{get-set, get-delete}
use research_cosmos.Types.{Outcome, SchedulerTaskType, task_undefined}
use research_cosmos.Ctx.{World, M}
use research_cosmos.Keys.Scheduler.{task_key}
use research_cosmos.Keeper.Scheduler.{
  is_repeat, to_byte, schedule_one_shot_task, schedule_repeating_task, delete_scheduled_task,
  delete_all_scheduled_tasks,
}
use research_cosmos.Keeper.Scheduler.Register.{
  registered, schedule_one_shot_task_branches, schedule_repeating_task_branches,
  delete_scheduled_task_ok,
}
use research_cosmos.Keeper.Scheduler.Tasks.{
  IsTaskStore, equal-task_key, set_task-IsTaskStore, delete_task-IsTaskStore,
}
use research_cosmos.Keeper.Scheduler.Removal.{delete_all_scheduled_tasks_lem}

-- The abstract scheduler.
abbrev pub Tasks : Type 0
Tasks = SchedulerTaskType → ℕ → Bytes → Option Bool

abbrev pub update : Tasks → SchedulerTaskType → ℕ → Bytes → Option Bool → Tasks
update f tp h c v tp' h' c' = if tp == tp' && (h == h' && equal c c') then v else f tp' h' c'

-- The calls that change tasks.
pub data TaskCall : Type 0 where
  one_shot : SchedulerTaskType → Bytes → ℕ → TaskCall
  repeating : SchedulerTaskType → Bytes → ℕ → TaskCall
  remove : SchedulerTaskType → Bytes → ℕ → TaskCall
  remove_all : SchedulerTaskType → Bytes → TaskCall

abbrev pub IsTaskCall : TaskCall → Type 0
IsTaskCall (one_shot tp c h) = (tp ≢ task_undefined) × (h < 2 ^ 64)
IsTaskCall (repeating tp c h) = (tp ≢ task_undefined) × (h < 2 ^ 64)
IsTaskCall (remove tp c h) = (tp ≢ task_undefined) × (h < 2 ^ 64)
IsTaskCall (remove_all tp c) = tp ≢ task_undefined

-- A call at a block height on the abstract tasks; a one-shot task that is known stays as it is.
abbrev pub new_task : ℕ → SchedulerTaskType → Bytes → ℕ → Bool → Option Bool → Tasks → Tasks
new_task now tp c h repeat (some flag) f = f
new_task now tp c h repeat none f = if ltb h now then f else update f tp h c (some repeat)

abbrev pub apply : ℕ → TaskCall → Tasks → Tasks
apply now (one_shot tp c h) f = new_task now tp c h false (f tp h c) f
apply now (repeating tp c h) f = new_task now tp c h true none f
apply now (remove tp c h) f = update f tp h c none
apply now (remove_all tp c) f = λ tp' h' c'. if tp == tp' && equal c c' then none else f tp' h' c'

unfoldable pub replay : ℕ → List TaskCall → Tasks → Tasks
replay now [] f = f
replay now (call ∷ calls) f = replay now calls (apply now call f)

module _ {E : Type 0} where
  -- The same call on the keeper; an error leaves the state as the call left it.
  unfoldable pub perform : TaskCall → M E Unit
  perform (one_shot tp c h) = schedule_one_shot_task tp c h
  perform (repeating tp c h) = schedule_repeating_task tp c h
  perform (remove tp c h) = delete_scheduled_task tp c h
  perform (remove_all tp c) = delete_all_scheduled_tasks tp c

  unfoldable pub run : List TaskCall → World E → World E
  unfolding perform
  run [] w = w
  run (call ∷ calls) w = run calls (perform call w).1

abbrev pub flag : Option Bytes → Option Bool
flag none = none
flag (some bz) = some (is_repeat bz)

-- The store shows the abstract tasks, at the heights that fit in 64 bits.
abbrev pub Shows : KvStore → Tasks → Type 0
Shows s f = (tp h : ℕ) (c : Bytes) → h < 2 ^ 64 → flag (get (task_key tp h c) s) ≡ f tp h c

is_repeat-to_byte : (b : Bool) → is_repeat (to_byte b ∷ []) ≡ b
unfolding is_repeat equal
is_repeat-to_byte true = refl
is_repeat-to_byte false = refl

module _ (s : KvStore) (f : Tasks) (shows : Shows s f) (tp h : ℕ) (c : Bytes)
    (fits : h < 2 ^ 64) where
  set-Shows :
      (b : Bool) → Shows (set (task_key tp h c) (to_byte b ∷ []) s) (update f tp h c (some b))
  set-Shows b tp' h' c' fits' =
      rw
        (
          get-set (task_key tp h c) (task_key tp' h' c') (to_byte b ∷ []) s,
          equal-task_key tp tp' h h' c c' fits fits',
        )
        (elim (Bool-cases (tp == tp' && (h == h' && equal c c'))) [
          | inl same ↦ rw same (ap some (is_repeat-to_byte b))
          | inr other ↦ rw other (shows tp' h' c' fits')
        ])

  delete-Shows : Shows (delete (task_key tp h c) s) (update f tp h c none)
  delete-Shows tp' h' c' fits' =
      rw
        (
          get-delete (task_key tp h c) (task_key tp' h' c') s,
          equal-task_key tp tp' h h' c c' fits fits',
        )
        (elim (Bool-cases (tp == tp' && (h == h' && equal c c'))) [
          | inl same ↦ rw same refl
          | inr other ↦ rw other (shows tp' h' c' fits')
        ])

new_task_past :
    (now : ℕ) (tp : SchedulerTaskType) (c : Bytes) (h : ℕ) (repeat : Bool) (o : Option Bool)
    (f : Tasks)
    → h < now
    → new_task now tp c h repeat o f ≡ f
new_task_past now tp c h repeat none f past = ground arith
new_task_past now tp c h repeat (some b) f past = refl

new_task_now :
    (now : ℕ) (tp : SchedulerTaskType) (c : Bytes) (h : ℕ) (repeat : Bool) (f : Tasks)
    → now ≤ h
    → new_task now tp c h repeat none f ≡ update f tp h c (some repeat)
new_task_now now tp c h repeat f later = ground arith

new_task_known :
    (now : ℕ) (tp : SchedulerTaskType) (c : Bytes) (h : ℕ) (repeat : Bool) (o : Option Bytes)
    (f : Tasks)
    → o ≢ none
    → new_task now tp c h repeat (flag o) f ≡ f
new_task_known now tp c h repeat none f known = absurd (known refl)
new_task_known now tp c h repeat (some bz) f known = refl

module _ {E : Type 0} (w : World E) (f : Tasks) (h : IsTaskStore w.store)
    (shows : Shows w.store f) where
  -- A state after a call: well-formed, at the same height, showing the abstract tasks.
  abbrev After : Tasks → World E → Type 0
  After g v = IsTaskStore v.store × (v.height ≡ w.height) × Shows v.store g

  unchanged-After : (g : Tasks) → g ≡ f → After g w
  unchanged-After g e = rw e (h, refl, shows)

  set-After :
      (tp ht : ℕ) (c : Bytes) (b : Bool)
      → ht < 2 ^ 64
      → After (update f tp ht c (some b)) (registered (task_key tp ht c) c ht b w)
  set-After tp ht c b fits = (
    set_task-IsTaskStore w.store h tp ht c (to_byte b ∷ []),
    refl,
    set-Shows w.store f shows tp ht c fits b,
  )

  perform-After :
      (call : TaskCall) → IsTaskCall call → After (apply w.height call f) (perform call w).1
  unfolding perform
  perform-After (one_shot tp c ht) (d, fits) =
      let after = λ (g : Tasks). After g (schedule_one_shot_task tp c ht w).1 in
      subst (λ (o : Option Bool). after (new_task w.height tp c ht false o f)) (shows tp ht c fits)
        (elim (schedule_one_shot_task_branches tp c ht w d) [
          | inl (past, e) ↦ rw e (unchanged-After _ (new_task_past w.height tp c ht false _ f past))
          | inr (inl (now, known, e)) ↦
              rw e (unchanged-After _ (new_task_known w.height tp c ht false _ f known))
          | inr (inr (now, new, e)) ↦
              rw (e, new)
                (subst (λ (g : Tasks). After g (registered (task_key tp ht c) c ht false w))
                  (sym (new_task_now w.height tp c ht false f now)) (set-After tp ht c false fits))
        ])
  perform-After (repeating tp c ht) (d, fits) =
      elim (schedule_repeating_task_branches tp c ht w d) [
        | inl (past, e) ↦ rw e (unchanged-After _ (new_task_past w.height tp c ht true none f past))
        | inr (now, e) ↦ rw e (
            subst (λ (g : Tasks). After g (registered (task_key tp ht c) c ht true w))
              (sym (new_task_now w.height tp c ht true f now)) (set-After tp ht c true fits))
      ]
  perform-After (remove tp c ht) (d, fits) =
      rw (delete_scheduled_task_ok tp c ht w d)
        (delete_task-IsTaskStore w.store h tp ht c, refl, delete-Shows w.store f shows tp ht c fits)
  perform-After (remove_all tp c) d =
      let (done, inv, gone) = delete_all_scheduled_tasks_lem tp c w d h in
      (
        inv,
        ap (λ (r : Outcome (Unit {0}) × World E). r.1.height) done,
        λ tp' h' c' fits. rw (gone tp' h' c' fits) (elim (Bool-cases (tp == tp' && equal c c')) [
          | inl mine ↦ rw mine refl
          | inr other ↦ rw other (shows tp' h' c' fits)
        ]),
      )

-- From a store of well-formed tasks that shows some abstract tasks, any sequence of calls for defined
-- types and heights of 64 bits ends in a store of well-formed tasks, which shows, at every such
-- height, what the same calls make of the abstract tasks.
pub run-Shows :
    {E : Type 0} (calls : List TaskCall) (w : World E) (f : Tasks)
    → All IsTaskCall calls
    → IsTaskStore w.store
    → Shows w.store f
    → IsTaskStore (run calls w).store × Shows (run calls w).store (replay w.height calls f)
unfolding run replay
run-Shows [] w f valid h shows = (h, shows)
run-Shows (call ∷ calls) w f (valid, rest) h shows =
    let (inv, height, now) = perform-After w f h shows call valid in
    let v = (perform call w).1 in
    subst
      (λ (n : ℕ).
        IsTaskStore (run calls v).store
        × Shows (run calls v).store (replay n calls (apply w.height call f)))
      height (run-Shows calls v (apply w.height call f) rest inv now)
