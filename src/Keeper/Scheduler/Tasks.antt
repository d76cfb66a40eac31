-- ===== src/Keeper/Scheduler/Tasks.antt =====
-- The tasks that a store holds: stores all of whose task keys are well formed.
use research_cosmos.Prelude.{
  ℕ, ◌%◌, ◌^◌, ◌<◌, ◌≡◌, refl, sym, ap, ◌∙◌, Bool, false, ◌&&◌, some, [], ◌∷◌, ◌++◌, ◌==◌, ltb,
  length, length-append, arith, All, inl, inr, Bool-cases,
}
use research_cosmos.Bytes.{Bytes, equal, big_endian, strip_prefix}
use research_cosmos.Bytes.Order.{equal-append_words}
use research_cosmos.Bytes.Words.{
  length-big_endian, from_big_endian-big_endian, equal-big_endian, big_endian_wraps,
}
use research_cosmos.KvStore.{KvStore, set, delete, IsSorted}
use research_cosmos.KvStore.Laws.{set-IsSorted, delete-IsSorted, All-set, All-delete}
use research_cosmos.KvStore.Prefix.{
  entries-set, entries-delete, entries-set_other, entries-delete_other,
}
use research_cosmos.Types.{SchedulerTaskType}
use research_cosmos.Keys.Scheduler.{task_key, take_height, drop_height}
use research_cosmos.Keeper.Scheduler.{split_task_key}
use research_cosmos.Keeper.Scheduler.Lookup.{IsSchedule, schedule}

-- An entry of a schedule, behind the prefix of its type: eight bytes of a height, then a contract.
abbrev pub IsTaskEntry : Bytes × Bytes → Type 0
IsTaskEntry e = (h : ℕ) × (c : Bytes) × (h < 2 ^ 64) × (e.0 ≡ big_endian 8 h ++ c)

pub record IsTaskStore (s : KvStore) : Type 0 where
  pub sorted : IsSorted s
  pub tasks : (tp : SchedulerTaskType) → All IsTaskEntry (schedule tp s)

pub split-task_key :
    (h : ℕ) (c : Bytes) → h < 2 ^ 64 → split_task_key (big_endian 8 h ++ c) ≡ some (h, c)
unfolding split_task_key
split-task_key h c fits =
    let long : ltb (length (big_endian 8 h ++ c)) 8 ≡ false =
      ground (arith, length-append (big_endian 8 h) c, length-big_endian 8 h) in
    rw (long, take_height h c, drop_height h c, from_big_endian-big_endian 8 h fits) refl

pub equal-task_tail :
    (h h' : ℕ) (c c' : Bytes)
    → h < 2 ^ 64
    → h' < 2 ^ 64
    → equal (big_endian 8 h ++ c) (big_endian 8 h' ++ c') ≡ (h == h' && equal c c')
equal-task_tail h h' c c' f f' =
    equal-append_words (big_endian 8 h) (big_endian 8 h') c c'
      (length-big_endian 8 h ∙ sym (length-big_endian 8 h'))
    ∙ rw (equal-big_endian 8 h h' f f') refl

pub equal-task_key :
    (tp tp' h h' : ℕ) (c c' : Bytes)
    → h < 2 ^ 64
    → h' < 2 ^ 64
    → equal (task_key tp h c) (task_key tp' h' c') ≡ (tp == tp' && (h == h' && equal c c'))
unfolding equal
equal-task_key tp tp' h h' c c' f f' =
    ap (λ (b : Bool). tp == tp' && b) (equal-task_tail h h' c c' f f')

-- Such a schedule is one that the loops can read.
pub entries-IsSchedule : (s : KvStore) → All IsTaskEntry s → IsSchedule s
entries-IsSchedule [] h = tt
entries-IsSchedule ((key, v) ∷ s) ((ht, c, fits, e), h) =
    ((ht, c, rw e (split-task_key ht c fits), omega (arith, fits)), entries-IsSchedule s h)

module _ (s : KvStore) (h : IsTaskStore s) where
  pub set_task-IsTaskStore : (tp ht : ℕ) (c v : Bytes) → IsTaskStore (set (task_key tp ht c) v s)
  unfolding strip_prefix
  set_task-IsTaskStore tp ht c v = record {
    sorted = set-IsSorted (task_key tp ht c) v s h.sorted;
    tasks = λ tp'. elim (Bool-cases (tp' == tp)) [
      | inl same ↦
          let e : tp ≡ tp' = ground arith in
          rw e (
            rw (entries-set (0x4 ∷ tp' ∷ []) (big_endian 8 ht ++ c) v s h.sorted) (
              All-set IsTaskEntry (big_endian 8 ht ++ c) v (schedule tp' s)
                (ht % 2 ^ 64, c, omega arith, rw (← big_endian_wraps ht) refl) (h.tasks tp')))
      | inr other ↦
          rw (entries-set_other (0x4 ∷ tp' ∷ []) (task_key tp ht c) v s (rw other refl))
            (h.tasks tp')
    ];
  }

  pub delete_task-IsTaskStore : (tp ht : ℕ) (c : Bytes) → IsTaskStore (delete (task_key tp ht c) s)
  unfolding strip_prefix
  delete_task-IsTaskStore tp ht c = record {
    sorted = delete-IsSorted (task_key tp ht c) s h.sorted;
    tasks = λ tp'. elim (Bool-cases (tp' == tp)) [
      | inl same ↦
          let e : tp ≡ tp' = ground arith in
          rw e (
            rw (entries-delete (0x4 ∷ tp' ∷ []) (big_endian 8 ht ++ c) s)
              (All-delete IsTaskEntry (big_endian 8 ht ++ c) (schedule tp' s) (h.tasks tp')))
      | inr other ↦
          rw (entries-delete_other (0x4 ∷ tp' ∷ []) (task_key tp ht c) s (rw other refl))
            (h.tasks tp')
    ];
  }

  -- Writes under the other prefixes.
  pub set_other-IsTaskStore :
      (x : ℕ) (key v : Bytes) → (0x4 == x) ≡ false → IsTaskStore (set (x ∷ key) v s)
  unfolding strip_prefix
  set_other-IsTaskStore x key v other = record {
    sorted = set-IsSorted (x ∷ key) v s h.sorted;
    tasks = λ tp. rw (entries-set_other (0x4 ∷ tp ∷ []) (x ∷ key) v s (rw other refl)) (h.tasks tp);
  }
