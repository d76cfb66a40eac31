-- ===== src/Keys/Scheduler.antt =====
-- The scheduler keys of x/meshsecurity/types/keys.go.
use research_cosmos.Prelude.{
  ℕ, ◌^◌, ◌<◌, ◌≡◌, ◌≢◌, sym, ap, ◌∙◌, true, [], ◌∷◌, ◌++◌, arith, length, take, drop,
  take-append_length, drop-append_length,
}
use research_cosmos.Bytes.{Bytes, before, big_endian, from_big_endian}
use research_cosmos.Bytes.Order.{before-append}
use research_cosmos.Bytes.Words.{length-big_endian, from_big_endian-big_endian, before-big_endian}
use research_cosmos.Types.{Outcome, ok, SchedulerTaskType, task_undefined}
use research_cosmos.Keys.{build_scheduler_contract_key}

-- What the key of a defined type is.
abbrev pub task_key : SchedulerTaskType → ℕ → Bytes → Bytes
task_key tp h c = 0x4 ∷ tp ∷ big_endian 8 h ++ c

pub build_scheduler_contract_key_lem :
    (tp : SchedulerTaskType) (h : ℕ) (c : Bytes)
    → tp ≢ task_undefined
    → build_scheduler_contract_key tp h c ≡ ok (task_key tp h c)
unfolding build_scheduler_contract_key
build_scheduler_contract_key_lem tp h c d = ground arith

pub take_height : (h : ℕ) (c : Bytes) → take 8 (big_endian 8 h ++ c) ≡ big_endian 8 h
take_height h c =
    rw (ap (λ (n : ℕ). take n (big_endian 8 h ++ c)) (sym (length-big_endian 8 h)))
      (take-append_length (big_endian 8 h) c)

pub drop_height : (h : ℕ) (c : Bytes) → drop 8 (big_endian 8 h ++ c) ≡ c
drop_height h c =
    rw (ap (λ (n : ℕ). drop n (big_endian 8 h ++ c)) (sym (length-big_endian 8 h)))
      (drop-append_length (big_endian 8 h) c)

task_key_height :
    (tp h : ℕ) (c : Bytes) → h < 2 ^ 64 → from_big_endian 0 (take 8 (drop 2 (task_key tp h c))) ≡ h
task_key_height tp h c d = rw (take_height h c) (from_big_endian-big_endian 8 h d)

task_key_contract : (tp h : ℕ) (c : Bytes) → drop 8 (drop 2 (task_key tp h c)) ≡ c
task_key_contract tp h c = drop_height h c

abbrev key_or_empty : Outcome Bytes → Bytes
key_or_empty (ok k) = k
key_or_empty _ = []

abbrev second : Bytes → ℕ
second (x ∷ y ∷ r) = y
second _ = 0

-- Tasks of defined types whose heights fit in 64 bits have the same store key only if their type,
-- their height and their contract are the same.
pub build_scheduler_contract_key_injective :
    (tp tp' h h' : ℕ) (c c' : Bytes)
    → tp ≢ task_undefined
    → tp' ≢ task_undefined
    → h < 2 ^ 64
    → h' < 2 ^ 64
    → build_scheduler_contract_key tp h c ≡ build_scheduler_contract_key tp' h' c'
    → (tp ≡ tp') × (h ≡ h') × (c ≡ c')
build_scheduler_contract_key_injective tp tp' h h' c c' d d' f f' e =
    let same : task_key tp h c ≡ task_key tp' h' c' = ap key_or_empty (
      sym (build_scheduler_contract_key_lem tp h c d)
      ∙ e
      ∙ build_scheduler_contract_key_lem tp' h' c' d') in
    (
      ap second same,
      sym (task_key_height tp h c f)
          ∙ ap (λ (k : Bytes). from_big_endian 0 (take 8 (drop 2 k))) same
          ∙ task_key_height tp' h' c' f',
      sym (task_key_contract tp h c)
          ∙ ap (λ (k : Bytes). drop 8 (drop 2 k)) same
          ∙ task_key_contract tp' h' c',
    )

before-append_words :
    (a b c d : Bytes) → length a ≡ length b → before a b ≡ true → before (a ++ c) (b ++ d) ≡ true
unfolding before
before-append_words [] [] c d l h = cc
before-append_words [] (y ∷ b) c d l h = absurd (omega arith)
before-append_words (x ∷ a) [] c d l h = absurd (omega arith)
before-append_words (x ∷ a) (y ∷ b) c d l h =
    ground (arith, before-append_words a b c d (omega arith))

-- Behind the prefix of a type, an earlier height comes first.
pub before-task_tail :
    (h h' : ℕ) (c c' : Bytes)
    → h < h'
    → h' < 2 ^ 64
    → before (big_endian 8 h ++ c) (big_endian 8 h' ++ c') ≡ true
before-task_tail h h' c c' l f =
    before-append_words (big_endian 8 h) (big_endian 8 h') c c'
      (length-big_endian 8 h ∙ sym (length-big_endian 8 h'))
      (before-big_endian 8 h h' (omega arith) f ∙ ground arith)

before-task_key :
    (tp h h' : ℕ) (c c' : Bytes)
    → h < h'
    → h' < 2 ^ 64
    → before (task_key tp h c) (task_key tp h' c') ≡ true
before-task_key tp h h' c c' l f =
    before-append (0x4 ∷ tp ∷ []) (big_endian 8 h ++ c) (big_endian 8 h' ++ c')
    ∙ before-task_tail h h' c c' l f

key_is_task_key :
    (tp h : ℕ) (c k : Bytes) → build_scheduler_contract_key tp h c ≡ ok k → k ≡ task_key tp h c
unfolding build_scheduler_contract_key
key_is_task_key tp h c k e = ground arith

-- Among the keys of one type that can be built, with heights that fit in 64 bits, the key of an
-- earlier height comes first, whatever the contracts.
pub before-build_scheduler_contract_key :
    (tp h h' : ℕ) (c c' k k' : Bytes)
    → h < h'
    → h' < 2 ^ 64
    → build_scheduler_contract_key tp h c ≡ ok k
    → build_scheduler_contract_key tp h' c' ≡ ok k'
    → before k k' ≡ true
before-build_scheduler_contract_key tp h h' c c' k k' l f e e' =
    rw (key_is_task_key tp h c k e, key_is_task_key tp h' c' k' e')
      (before-task_key tp h h' c c' l f)

-- Different heights have different keys.
pub task_key-ne :
    (tp h h' : ℕ) (c : Bytes)
    → h < 2 ^ 64
    → h' < 2 ^ 64
    → h ≢ h'
    → task_key tp h c ≢ task_key tp h' c
task_key-ne tp h h' c f f' ne same = ne (
    sym (task_key_height tp h c f)
    ∙ ap (λ (k : Bytes). from_big_endian 0 (take 8 (drop 2 k))) same
    ∙ task_key_height tp h' c f')
