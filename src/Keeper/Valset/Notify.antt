-- ===== src/Keeper/Valset/Notify.antt =====
-- `sendAsync` of x/meshsecurity/keeper/valset_updates.go: the loop over the limits.
use research_cosmos.Prelude.{
  ℕ, ◌≡◌, subst, ◌≢◌, refl, sym, ◌∙◌, inl, inr, true, false, Option, none, some, [], ◌∷◌, arith,
  All, Bool-cases, if_cases,
}
use research_cosmos.Prelude.Int.{pos, ltb_ℤ}
use research_cosmos.Bytes.{Bytes, equal}
use research_cosmos.Bytes.Order.{equal_refl}
use research_cosmos.KvStore.{KvStore, get, set}
use research_cosmos.KvStore.Laws.{get-set}
use research_cosmos.Types.{Outcome, ok, PipedValsetOperation, SlashInfo, task_valset_update}
use research_cosmos.Ctx.{World}
use research_cosmos.Keys.{build_piped_valset_op_key}
use research_cosmos.Keys.Scheduler.{task_key}
use research_cosmos.Sdk.{Sdk}
use research_cosmos.Keeper.{Keeper}
use research_cosmos.Keeper.Caps.{iterate_caps, iterate_max_cap_limit}
use research_cosmos.Keeper.Caps.Total.{IsReadable, caps, amount_of}
use research_cosmos.Keeper.Scheduler.{to_byte, schedule_one_shot_task}
use research_cosmos.Keeper.Scheduler.Register.{registered, schedule_one_shot_task_branches}
use research_cosmos.Keeper.Valset.{schedule_valset_update, send_async}

set_keeps : (key v j : Bytes) (s : KvStore) → get j s ≢ none → get j (set key v s) ≢ none
set_keeps key v j s h = rw (get-set key j v s) (
    if_cases (λ (o : Option Bytes). o ≢ none) (equal key j) (some v) (get j s) (λ _ n. cc) (λ _. h))

set_sets : (key v : Bytes) (s : KvStore) → get key (set key v s) ≢ none
set_sets key v s = rw (get-set key key v s, equal_refl key) (λ n. cc)

module _ {E : Type 0} where
  -- What the notification of one contract at the current height leaves.
  abbrev Told : Bytes → World E → World E → Type 0
  Told c w w' =
      (w'.mem ≡ w.mem)
      × (w'.height ≡ w.height)
      × (get (task_key task_valset_update w.height c) w'.store ≢ none)
      × ((j : Bytes) → get j w.store ≢ none → get j w'.store ≢ none)

  tell :
      (c : Bytes) (w : World E)
      → (w' : World E) × (schedule_one_shot_task task_valset_update c w.height w ≡ (ok tt, w'))
        × Told c w w'
  tell c w =
      let key = task_key task_valset_update w.height c in
      elim (schedule_one_shot_task_branches task_valset_update c w.height w (omega arith)) [
        | inl (past, e) ↦ absurd (omega (arith, past))
        | inr (inl (now, known, e)) ↦ (w, e, (refl, refl, known, λ j h. h))
        | inr (inr (now, new, e)) ↦ (
          registered key c w.height false w,
          e,
          (
            refl,
            refl,
            set_sets key (to_byte false ∷ []) w.store,
            λ j h. set_keeps key (to_byte false ∷ []) j w.store h,
          ),
        )
      ]

-- The contract of an entry has a task for the height, if its limit is above zero.
abbrev pub IsNotified : Sdk → ℕ → KvStore → Bytes × Bytes → Type 0
IsNotified sdk height store (c, bz) =
    ltb_ℤ (pos 0) (amount_of sdk bz) ≡ true
    → get (task_key task_valset_update height c) store ≢ none

module _ {E : Type 0} (k : Keeper E) where
  -- What the loop over the limits has done.
  abbrev Notified : KvStore → World E → Outcome (Unit {0}) × World E → Type 0
  Notified s w r =
      (r.0 ≡ ok tt)
      × (r.1.mem ≡ w.mem)
      × ((j : Bytes) → get j w.store ≢ none → get j r.1.store ≢ none)
      × All (IsNotified k.sdk w.height r.1.store) s

  notify_all :
      (s : KvStore) (w : World E)
      → IsReadable k.sdk s
      → Notified s w (iterate_caps k (schedule_valset_update k) tt s w)
  unfolding iterate_caps
  notify_all [] w h = (refl, refl, λ j x. x, tt)
  notify_all ((c, bz) ∷ s) w ((i, e), h) =
      let run = iterate_caps k (schedule_valset_update k) tt in
      let after = λ (r : Outcome (Unit {0}) × World E). Notified ((c, bz) ∷ s) w r in
      elim (Bool-cases (ltb_ℤ (pos 0) i)) [
        | inl above ↦
            let (w', told_by, (mem, height, told, kept)) = tell c w in
            let (done, mem', kept', rest) = notify_all s w' h in
            let step : run ((c, bz) ∷ s) w ≡ run s w' = rw (e, above, told_by) refl in
            let rest_now =
              subst (λ (n : ℕ). All (IsNotified k.sdk n (run s w').1.store) s) height rest in
            subst after (sym step) (
              done,
              mem' ∙ mem,
              λ j x. kept' j (kept j x),
              (λ _. kept' (task_key task_valset_update w.height c) told, rest_now),
            )
        | inr zero ↦
            let (done, mem, kept, rest) = notify_all s w h in
            let step : run ((c, bz) ∷ s) w ≡ run s w = rw (e, zero) refl in
            subst after (sym step) (done, mem, kept, (rw (e, zero) (λ above n. cc), rest))
      ]

  -- With limits that can be decoded and an operation whose key can be built, `sendAsync` succeeds
  -- and stores the key in the memory store; then every contract with a stored limit above zero
  -- has a valset update task at the current height, and every key that was in the store is still
  -- there.
  pub send_async_notifies :
      (op : PipedValsetOperation) (val_addr : Bytes) (info : Option SlashInfo) (w : World E)
      {key : Bytes}
      → build_piped_valset_op_key k.sdk op val_addr info ≡ ok key
      → IsReadable k.sdk (caps w.store)
      → let r = send_async k op val_addr info w in
        (r.0 ≡ ok tt)
        × (r.1.mem ≡ set key [] w.mem)
        × ((j : Bytes) → get j w.store ≢ none → get j r.1.store ≢ none)
        × All (IsNotified k.sdk w.height r.1.store) (caps w.store)
  unfolding send_async iterate_max_cap_limit
  send_async_notifies op val_addr info w {key} built readable =
      let w' : World E = record w { mem = set key [] w.mem } in
      rw built (notify_all (caps w.store) w' readable)
