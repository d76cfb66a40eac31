-- ===== src/Keeper/Scheduler/Due/Cleared.antt =====
-- The tasks that a whole `ExecScheduledTasks` leaves.
use research_cosmos.Prelude.{
  ℕ, ◌+◌, ◌^◌, ◌<◌, ◌≤◌, ◌≡◌, ◌≢◌, refl, sym, ap, ◌∙◌, Bool, true, false, not, ◌&&◌, ◌||◌, Option,
  none, some, List, [], ◌∷◌, ◌++◌, ◌==◌, ltb, leb, arith, All, inl, inr, Bool-cases, if◌then◌else◌,
}
use research_cosmos.Bytes.{Bytes, equal, before, big_endian}
use research_cosmos.Bytes.Order.{before_trans, before_irrefl}
use research_cosmos.KvStore.{KvStore, get, set, delete, IsSorted}
use research_cosmos.KvStore.Laws.{get-set, get-delete, equal_comm}
use research_cosmos.KvStore.Prefix.{get-entries, entries-IsSorted}
use research_cosmos.Types.{Outcome, ok, err, panic, Params, task_undefined}
use research_cosmos.Ctx.{World, M}
use research_cosmos.Keys.{build_scheduler_type_key_prefix}
use research_cosmos.Keys.Scheduler.{task_key, before-task_tail}
use research_cosmos.Keeper.{Keeper}
use research_cosmos.Keeper.Params.Stored.{HasParams}
use research_cosmos.Keeper.Scheduler.{
  is_repeat, split_task_key, iterate_tasks, iterate_scheduled_tasks,
}
use research_cosmos.Keeper.Scheduler.Lookup.{schedule, iterate_tasks_step}
use research_cosmos.Keeper.Scheduler.Register.{registered}
use research_cosmos.Keeper.Scheduler.Tasks.{
  IsTaskEntry, IsTaskStore, split-task_key, equal-task_key, equal-task_tail,
}
use research_cosmos.Keeper.Scheduler.Exec.{
  ExecResult, recovered, safe_exec, with_gas_meter, append_result, exec_scheduled_tasks,
}
use research_cosmos.Keeper.Scheduler.Due.{
  IsExecutor, repeats, next_run, after_callback, with_event, after_task, result_of, callback,
  exec_task_lem, height-after_callback,
}
use research_cosmos.Keeper.Scheduler.Due.Order.{
  iterate_tasks_stop, height-after_task, params-after_task,
}

-- The key behind the prefix of a type.
abbrev tail : ℕ → Bytes → Bytes
tail h c = big_endian 8 h ++ c

-- Does the schedule have a repeating task of the contract that is due?
abbrev is_due_repeating : ℕ → Bytes → Bytes → Option (ℕ × Bytes) → Bool
is_due_repeating now c value none = false
is_due_repeating now c value (some (h, a)) = leb h now && (equal a c && is_repeat value)

abbrev pub repeats_due : ℕ → Bytes → KvStore → Bool
repeats_due now c [] = false
repeats_due now c ((key, value) ∷ s) =
    is_due_repeating now c value (split_task_key key) || repeats_due now c s

abbrev is_stored : Option Bytes → Bool
is_stored none = false
is_stored (some v) = true

-- What is left of a task when the loop over the entries of a schedule has ended.
abbrev left : ℕ → ℕ → ℕ → Bytes → KvStore → Option Bytes → Option Bytes
left now epoch h' c' s before =
    if leb h' now
    then (if is_stored (get (tail h' c') s) then none else before)
    else if (not (epoch == 0) && next_run now epoch == h') && repeats_due now c' s
    then some (1 ∷ [])
    else before

stored_if :
    (b : Bool) (v : Bytes) (o : Option Bytes)
    → is_stored (if b then some v else o) ≡ (b || is_stored o)
stored_if true v o = refl
stored_if false v o = refl

-- Entries beyond a height.
abbrev IsLater : ℕ → Bytes × Bytes → Type 0
IsLater now e = (h : ℕ) × (c : Bytes) × (h < 2 ^ 64) × (e.0 ≡ tail h c) × (now < h)

not_before : (h h' : ℕ) (c c' : Bytes) → h < 2 ^ 64 → before (tail h c) (tail h' c') ≡ true → h ≤ h'
not_before h h' c c' fits b = elim (Bool-cases (ltb h' h)) [
  | inl less ↦
      let back = before-task_tail h' h c' c (ground arith) fits in
      let loop = before_trans (tail h c) (tail h' c') (tail h c) b back in
      absurd (ground (arith, loop, before_irrefl (tail h c)))
  | inr more ↦ ground arith
]

All-IsLater :
    (now h : ℕ) (c : Bytes) (s : KvStore)
    → now < h
    → h < 2 ^ 64
    → All (λ (e : Bytes × Bytes). before (tail h c) e.0 ≡ true) s
    → All IsTaskEntry s
    → All (IsLater now) s
All-IsLater now h c [] l f b t = tt
All-IsLater now h c ((key, value) ∷ s) l f (b, bs) ((h', c', f', e), ts) =
    let le : h ≤ h' = not_before h h' c c' f (rw e at b) in
    ((h', c', f', e, omega (arith, le, l)), All-IsLater now h c s l f bs ts)

stored-later :
    (now h' : ℕ) (c' : Bytes) (s : KvStore)
    → h' ≤ now
    → h' < 2 ^ 64
    → All (IsLater now) s
    → is_stored (get (tail h' c') s) ≡ false
unfolding get
stored-later now h' c' [] le f t = refl
stored-later now h' c' ((key, value) ∷ s) le f ((h, c, fits, e, l), ts) =
    let apart : (h' == h) ≡ false = ground (arith, le, l) in
    stored_if (equal (tail h' c') key) value (get (tail h' c') s)
    ∙ rw (e, equal-task_tail h' h c' c f fits, apart) (stored-later now h' c' s le f ts)

repeats_due-later :
    (now : ℕ) (c' : Bytes) (s : KvStore) → All (IsLater now) s → repeats_due now c' s ≡ false
repeats_due-later now c' [] ts = refl
repeats_due-later now c' ((key, value) ∷ s) ((h, c, fits, e, l), ts) =
    let apart : leb h now ≡ false = ground (arith, l) in
    rw (e, split-task_key h c fits, apart) (repeats_due-later now c' s ts)

left-later :
    (now epoch h' : ℕ) (c' : Bytes) (s : KvStore) (o : Option Bytes)
    → h' < 2 ^ 64
    → All (IsLater now) s
    → left now epoch h' c' s o ≡ o
left-later now epoch h' c' s o f ts = elim (Bool-cases (leb h' now)) [
  | inl le ↦ rw (le, stored-later now h' c' s (ground arith) f ts) refl
  | inr gt ↦ rw (gt, repeats_due-later now c' s ts) (ground arith)
]

-- What one due task does to an entry of its type.
abbrev moved : ℕ → ℕ → ℕ → Bytes → Bool → ℕ → Bytes → Option Bytes → Option Bytes
moved now epoch h a repeat h' c' before =
    if h == h' && equal a c'
    then none
    else if repeats epoch repeat && (next_run now epoch == h' && equal a c')
    then some (1 ∷ [])
    else before

-- The Boolean side of a step, for a task that is due by now and for a later one.
left_past :
    (stored same mine again : Bool) (u o : Option Bytes)
    → again ≡ false
    → (if stored then none else if same && mine then none else if again then u else o)
      ≡ (if (same && mine) || stored then none else o)
left_past stored same mine again u o h = ground (arith, h)

left_later :
    (epoch next due mine repeat : Bool) (u o : Option Bytes)
    → (if (epoch && next) && due then u else if (repeat && epoch) && (next && mine) then u else o)
      ≡ (if (epoch && next) && ((mine && repeat) || due) then u else o)
left_later epoch next due mine repeat u o = ground arith

-- A due task at the head of the schedule and then the rest are the whole schedule.
left-moved :
    (now epoch h h' : ℕ) (a c' key value : Bytes) (s : KvStore) (o : Option Bytes)
    → h ≤ now
    → h' < 2 ^ 64
    → h < 2 ^ 64
    → now + epoch < 2 ^ 64
    → key ≡ tail h a
    → left now epoch h' c' s (moved now epoch h a (is_repeat value) h' c' o)
      ≡ left now epoch h' c' ((key, value) ∷ s) o
left-moved now epoch h h' a c' key value s o le f' f fits e =
    let t = tail h' c' in
    let listed : is_stored (get t ((key, value) ∷ s))
        ≡ ((h == h' && equal a c') || is_stored (get t s)) =
      unfold get in
      stored_if (equal t key) value (get t s)
      ∙ rw (e, equal-task_tail h' h c' a f' f, equal_comm c' a) (ground arith) in
    let due : is_due_repeating now c' value (split_task_key key) ≡ (equal a c' && is_repeat value) =
      rw (e, split-task_key h a f) (ground (arith, le)) in
    elim (Bool-cases (leb h' now)) [
      | inl past ↦
          let again = repeats epoch (is_repeat value) && (next_run now epoch == h' && equal a c') in
          let never : again ≡ false = ground (arith, past, fits) in
          rw (past, listed)
            (left_past (is_stored (get t s)) (h == h') (equal a c') again (some (1 ∷ [])) o never)
      | inr later ↦
          let apart : (h == h') ≡ false = ground (arith, le) in
          rw (later, due, apart)
            (left_later (not (epoch == 0)) (next_run now epoch == h') (repeats_due now c' s)
              (equal a c') (is_repeat value) (some (1 ∷ [])) o)
    ]

-- A new registration or none, and then the removal.
get-moved :
    {E : Type 0} (tp n h h' : ℕ) (a c' : Bytes) (again : Bool) (v : World E)
    → n < 2 ^ 64
    → h < 2 ^ 64
    → h' < 2 ^ 64
    → get (task_key tp h' c') (
        delete
          (task_key tp h a)
          (if again then registered (task_key tp n a) a n true v else v).store)
      ≡ (if h == h' && equal a c'
          then none
          else if again && (n == h' && equal a c')
          then some (1 ∷ [])
          else get (task_key tp h' c') v.store)
get-moved tp n h h' a c' true v fn f f' =
    get-delete (task_key tp h a) (task_key tp h' c') (set (task_key tp n a) (1 ∷ []) v.store)
    ∙ rw
        (
          equal-task_key tp tp h h' a c' f f',
          get-set (task_key tp n a) (task_key tp h' c') (1 ∷ []) v.store,
          equal-task_key tp tp n h' a c' fn f',
        )
        (ground arith)
get-moved tp n h h' a c' false v fn f f' =
    get-delete (task_key tp h a) (task_key tp h' c') v.store
    ∙ rw (equal-task_key tp tp h h' a c' f f') (ground arith)

module _ {E : Type 0} (k : Keeper E) (p : Params) (cb : Bytes → M E Unit) (x : IsExecutor k p cb)
    (tp epoch : ℕ) (d : tp ≢ task_undefined)
    (keeps : (c : Bytes) (w : World E) (h' : ℕ) (c' : Bytes)
      → get (task_key tp h' c') (cb c w).1.store ≡ get (task_key tp h' c') w.store) where
  get-recovered :
      (w : World E) (o : Outcome Unit × World E) (key : Bytes)
      → get key o.1.store ≡ get key w.store
      → get key (after_callback w (recovered o)).store ≡ get key w.store
  get-recovered w (ok u, v) key e = e
  get-recovered w (err u, v) key e = refl
  get-recovered w (panic, v) key e = refl

  get-after_callback :
      (c : Bytes) (w : World E) (h' : ℕ) (c' : Bytes)
      → get (task_key tp h' c') (after_callback w (callback k p cb x c w)).store
        ≡ get (task_key tp h' c') w.store
  unfolding safe_exec
  get-after_callback c w h' c' =
      let v = with_gas_meter p.max_gas_end_blocker w in
      get-recovered w (cb c v) (task_key tp h' c') (keeps c v h' c')

  module _ (h' : ℕ) (c' : Bytes) (f' : h' < 2 ^ 64) where
    get-after_task :
        (a : Bytes) (h : ℕ) (repeat : Bool) (w : World E)
        → h < 2 ^ 64
        → w.height + epoch < 2 ^ 64
        → get (task_key tp h' c') (after_task tp epoch a h repeat w (callback k p cb x a w)).store
          ≡ moved w.height epoch h a repeat h' c' (get (task_key tp h' c') w.store)
    get-after_task a h repeat w f fits =
        let r = callback k p cb x a w in
        let v = with_event a r.0 (after_callback w r) in
        get-moved tp (next_run v.height epoch) h h' a c' (repeats epoch repeat) v (omega arith) f f'
        ∙ rw (height-after_callback k p cb x a w, get-after_callback a w h' c') refl

    loop_leaves :
        (now : ℕ) (done : List ExecResult) (s : KvStore) (w : World E)
        → HasParams k.sdk p w.store
        → w.height ≡ now
        → now + epoch < 2 ^ 64
        → IsSorted s
        → All IsTaskEntry s
        → get (task_key tp h' c') (iterate_tasks now (append_result k tp epoch cb) done s w).1.store
          ≡ left now epoch h' c' s (get (task_key tp h' c') w.store)
    loop_leaves now done [] w hp eh fits sorted ts =
        unfold iterate_tasks in
        sym (left-later now epoch h' c' [] (get (task_key tp h' c') w.store) f' tt)
    loop_leaves now done ((key, value) ∷ s) w hp eh fits (above, sorted) ((h, a, f, e), ts) =
        let split : split_task_key key ≡ some (h, a) = rw e (split-task_key h a f) in
        elim (Bool-cases (ltb now h)) [
          | inl later ↦
              let beyond : now < h = ground arith in
              let all = All-IsLater now h a s beyond f (rw e at above) ts in
              rw
                (iterate_tasks_stop now h a key value (append_result k tp epoch cb) done s w split
                  later)
                (sym (
                  left-later now epoch h' c' ((key, value) ∷ s) (get (task_key tp h' c') w.store) f'
                    ((h, a, f, e, beyond), all)))
          | inr due ↦
              let le : h ≤ now = ground arith in
              let again = is_repeat value in
              let res = result_of k p cb x epoch a again w.height (callback k p cb x a w) in
              let w' = after_task tp epoch a h again w (callback k p cb x a w) in
              let o = get (task_key tp h' c') w.store in
              let here =
                get-after_task a h again w f (rw eh fits)
                ∙ ap (λ (n : ℕ). moved n epoch h a again h' c' o) eh in
              let rest =
                loop_leaves now (done ++ res ∷ []) s w'
                  (params-after_task k p cb x tp epoch a h again w hp)
                  (height-after_task k p cb x tp epoch a h again w ∙ eh) fits sorted ts in
              rw
                (
                  iterate_tasks_step now h a key value (append_result k tp epoch cb) done s w split
                      le,
                  exec_task_lem k p cb x tp epoch a h again w d hp (rw eh fits),
                )
                (rest
                  ∙ ap (left now epoch h' c' s) here
                  ∙ left-moved now epoch h h' a c' key value s o le f' f fits e)
        ]

    gone : (o : Option Bytes) → (if is_stored o then none else o) ≡ none
    gone none = refl
    gone (some v) = refl

    -- For a defined type, stored params, a store of well-formed tasks, a height that fits in 64 bits
    -- together with the epoch length, and a callback that changes neither the height, nor the stored
    -- params, nor a task of the type: after `ExecScheduledTasks`, whatever the callback returns and at
    -- heights of 64 bits, no task of the type is left at the current height or an earlier one; at the
    -- current height plus an epoch length above zero, a contract has a repeating task if it had one
    -- that was due; and every other task of a later height is as it was.
    pub exec_scheduled_tasks-cleared :
        (w : World E)
        → HasParams k.sdk p w.store
        → w.height + epoch < 2 ^ 64
        → IsTaskStore w.store
        → get (task_key tp h' c') (exec_scheduled_tasks k tp epoch cb w).1.store ≡ (
            if leb h' w.height
            then none
            else if (not (epoch == 0) && next_run w.height epoch == h')
                && repeats_due w.height c' (schedule tp w.store)
            then some (1 ∷ [])
            else get (task_key tp h' c') w.store)
    unfolding exec_scheduled_tasks iterate_scheduled_tasks build_scheduler_type_key_prefix
    exec_scheduled_tasks-cleared w hp fits store =
        let s = schedule tp w.store in
        let o = get (task_key tp h' c') w.store in
        let run : get (task_key tp h' c') (exec_scheduled_tasks k tp epoch cb w).1.store
            ≡ left w.height epoch h' c' s o =
          ground (
            arith,
            loop_leaves w.height [] s w hp refl fits
                (entries-IsSorted (0x4 ∷ tp ∷ []) w.store store.sorted) (store.tasks tp),
          ) in
        run
        ∙ rw (get-entries (0x4 ∷ tp ∷ []) (tail h' c') w.store)
            (elim (Bool-cases (leb h' w.height)) [
              | inl past ↦ rw past (gone o)
              | inr later ↦ rw later refl
            ])
