-- ===== src/KvStore/Laws.antt =====
-- Reads after writes, and the order of keys under writes.
use research_cosmos.Prelude.{
  if_cases, ◌≡◌, refl, true, none, some, [], ◌∷◌, arith, All, if◌then◌else◌, inl, inr, Bool-cases,
}
use research_cosmos.Bytes.{Bytes, equal, before}
use research_cosmos.Bytes.Order.{equal_sound, equal_refl, before_trans, before_total, before-ne}
use research_cosmos.KvStore.{KvStore, get, set, delete, IsSorted}

pub equal_comm : (a b : Bytes) → equal a b ≡ equal b a
equal_comm a b = ground (arith, equal_sound a b, equal_sound b a, equal_refl a)

pub get-set :
    (k j v : Bytes) (s : KvStore) → get j (set k v s) ≡ (if equal k j then some v else get j s)
unfolding get set
get-set k j v [] = rw (equal_comm k j)
get-set k j v ((i, w) ∷ s) = ground (
  arith,
  get-set k j v s,
  equal_sound k j,
  equal_sound k i,
  equal_sound j i,
  equal_sound j k,
  equal_refl j,
  equal_refl k,
)

pub get-delete :
    (k j : Bytes) (s : KvStore) → get j (delete k s) ≡ (if equal k j then none else get j s)
unfolding get delete
get-delete k j [] = ground arith
get-delete k j ((i, w) ∷ s) = ground (
  arith,
  get-delete k j s,
  equal_sound k j,
  equal_sound k i,
  equal_sound j i,
  equal_refl j,
  equal_refl k,
)

abbrev pub Above : Bytes → KvStore → Type 0
Above k s = All (λ (e : Bytes × Bytes). before k e.0 ≡ true) s

pub Above-trans : (k j : Bytes) (s : KvStore) → before k j ≡ true → Above j s → Above k s
Above-trans k j [] h a = tt
Above-trans k j ((i, w) ∷ s) h a = (before_trans k j i h a.0, Above-trans k j s h a.1)

set-Above : (j k v : Bytes) (s : KvStore) → before j k ≡ true → Above j s → Above j (set k v s)
unfolding set
set-Above j k v [] h a = (h, tt)
set-Above j k v ((i, w) ∷ s) h a = ground (arith, set-Above j k v s h a.1)

delete-Above : (j k : Bytes) (s : KvStore) → Above j s → Above j (delete k s)
unfolding delete
delete-Above j k [] a = tt
delete-Above j k ((i, w) ∷ s) a = ground (arith, delete-Above j k s a.1)

pub set-IsSorted : (k v : Bytes) (s : KvStore) → IsSorted s → IsSorted (set k v s)
unfolding set
set-IsSorted k v [] h = (tt, tt)
set-IsSorted k v ((j, w) ∷ s) h = elim (Bool-cases (equal k j)) [
  | inl e ↦ rw e (rw (equal_sound k j e) h)
  | inr e ↦ elim (Bool-cases (before k j)) [
    | inl b ↦ rw (e, b) ((b, Above-trans k j s b h.0), h)
    | inr b ↦ rw (e, b) (set-Above j k v s (before_total k j b e) h.0, set-IsSorted k v s h.1)
  ]
]

pub delete-IsSorted : (k : Bytes) (s : KvStore) → IsSorted s → IsSorted (delete k s)
unfolding delete
delete-IsSorted k [] h = tt
delete-IsSorted k ((j, w) ∷ s) h = ground (arith, delete-IsSorted k s h.1, delete-Above j k s h.0)

-- A key below all others is put in front.
pub set_front : (k v : Bytes) (s : KvStore) → Above k s → set k v s ≡ (k, v) ∷ s
unfolding set
set_front k v [] a = refl
set_front k v ((j, w) ∷ s) a = rw (before-ne k j a.0, a.0)

-- What holds of every entry holds after a write of such an entry, and after a delete.
module _ (P : Bytes × Bytes → Type 0) where
  pub All-set : (k v : Bytes) (s : KvStore) → P (k, v) → All P s → All P (set k v s)
  unfolding set
  All-set k v [] p h = (p, tt)
  All-set k v ((j, w) ∷ s) p h =
      if_cases (All P) (equal k j) ((k, v) ∷ s)
        (if before k j then (k, v) ∷ (j, w) ∷ s else (j, w) ∷ set k v s) (λ _. (p, h.1))
        (λ _.
          if_cases (All P) (before k j) ((k, v) ∷ (j, w) ∷ s) ((j, w) ∷ set k v s) (λ _. (p, h))
            (λ _. (h.0, All-set k v s p h.1)))

  pub All-delete : (k : Bytes) (s : KvStore) → All P s → All P (delete k s)
  unfolding delete
  All-delete k [] h = tt
  All-delete k ((j, w) ∷ s) h =
      if_cases (All P) (equal k j) (delete k s) ((j, w) ∷ delete k s) (λ _. All-delete k s h.1)
        (λ _. (h.0, All-delete k s h.1))

-- In a sorted store every entry is found under its key.
get-tail :
    (k v : Bytes) (s t : KvStore)
    → Above k t
    → All (λ (e : Bytes × Bytes). get e.0 s ≡ some e.1) t
    → All (λ (e : Bytes × Bytes). get e.0 ((k, v) ∷ s) ≡ some e.1) t
unfolding get
get-tail k v s [] a h = tt
get-tail k v s ((j, w) ∷ t) a h =
    (rw (equal_comm j k, before-ne k j a.0) h.0, get-tail k v s t a.1 h.1)

pub All-get : (s : KvStore) → IsSorted s → All (λ (e : Bytes × Bytes). get e.0 s ≡ some e.1) s
unfolding get
All-get [] h = tt
All-get ((k, v) ∷ s) h = (rw (equal_refl k) refl, get-tail k v s s h.0 (All-get s h.1))
