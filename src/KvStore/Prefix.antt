-- ===== src/KvStore/Prefix.antt =====
-- The view of a store through a prefix, under writes and deletes.
use research_cosmos.Prelude.{
  ◌≡◌, refl, sym, ◌∙◌, true, some, [], ◌∷◌, ◌++◌, arith, All, inl, inr, Option-cases, Bool-cases,
  none, false,
}
use mathlib.Core.Option.{get_or}
use research_cosmos.Bytes.{Bytes, equal, before, strip_prefix}
use research_cosmos.Bytes.Order.{
  strip_prefix_sound, strip_prefix-append, equal-append, before-append, equal_sound,
}
use research_cosmos.KvStore.{KvStore, get, set, delete, entries, IsSorted}
use research_cosmos.KvStore.Laws.{Above-trans, set_front}

cut_key : (p a j b : Bytes) → strip_prefix p j ≡ some b → equal (p ++ a) j ≡ equal a b
cut_key p a j b e = rw (strip_prefix_sound p j b e) (equal-append p a b)

cut_before : (p a j b : Bytes) → strip_prefix p j ≡ some b → before (p ++ a) j ≡ before a b
cut_before p a j b e = rw (strip_prefix_sound p j b e) (before-append p a b)

no_match : (p a j : Bytes) → strip_prefix p j ≡ none → equal (p ++ a) j ≡ false
no_match p a j e = ground (arith, equal_sound (p ++ a) j, strip_prefix-append p a)

-- An entry that a prefix iterator yields is what the store holds at the whole key.
pub get-entries : (p a : Bytes) (s : KvStore) → get a (entries p s) ≡ get (p ++ a) s
unfolding get entries
get-entries p a [] = refl
get-entries p a ((j, w) ∷ s) = ground (
  arith,
  get-entries p a s,
  equal_sound (p ++ a) j,
  strip_prefix-append p a,
  cut_key p a j (get_or (strip_prefix p j) []),
)

-- An iterator yields its keys in order.
entries-Above :
    (p a : Bytes) (s : KvStore)
    → All (λ (e : Bytes × Bytes). before (p ++ a) e.0 ≡ true) s
    → All (λ (e : Bytes × Bytes). before a e.0 ≡ true) (entries p s)
unfolding entries
entries-Above p a [] h = tt
entries-Above p a ((j, w) ∷ s) h = elim (Option-cases (strip_prefix p j)) [
  | inl e ↦ rw (e, All) (entries-Above p a s h.1)
  | inr (b, e) ↦
      rw (e, All)
        (
          sym (before-append p a b) ∙ rw (strip_prefix_sound p j b e) at h.0,
          entries-Above p a s h.1,
        )
]

pub entries-IsSorted : (p : Bytes) (s : KvStore) → IsSorted s → IsSorted (entries p s)
unfolding entries
entries-IsSorted p [] h = tt
entries-IsSorted p ((j, w) ∷ s) h = elim (Option-cases (strip_prefix p j)) [
  | inl e ↦ rw (e, IsSorted) (entries-IsSorted p s h.1)
  | inr (b, e) ↦
      rw (e, IsSorted)
        (entries-Above p b s (rw (strip_prefix_sound p j b e) at h.0), entries-IsSorted p s h.1)
]

-- A write below the prefix is a write to the view.
pub entries-set :
    (p k v : Bytes) (s : KvStore)
    → IsSorted s
    → entries p (set (p ++ k) v s) ≡ set k v (entries p s)
unfolding entries set
entries-set p k v [] h = ground (arith, strip_prefix-append p k)
entries-set p k v ((j, w) ∷ s) h = elim (Option-cases (strip_prefix p j)) [
  | inr (a, e) ↦ ground (
    arith,
    e,
    entries-set p k v s h.1,
    strip_prefix-append p k,
    cut_key p k j a e,
    cut_before p k j a e,
  )
  | inl e ↦ elim (Bool-cases (before (p ++ k) j)) [
    | inl b ↦ ground (
      arith,
      e,
      strip_prefix-append p k,
      no_match p k j e,
      set_front k v (entries p s) (entries-Above p k s (Above-trans (p ++ k) j s b h.0)),
    )
    | inr b ↦ ground (arith, e, no_match p k j e, entries-set p k v s h.1)
  ]
]

-- A delete below the prefix is a delete in the view.
pub entries-delete :
    (p k : Bytes) (s : KvStore) → entries p (delete (p ++ k) s) ≡ delete k (entries p s)
unfolding entries delete
entries-delete p k [] = refl
entries-delete p k ((j, w) ∷ s) = elim (Option-cases (strip_prefix p j)) [
  | inr (a, e) ↦ ground (arith, e, entries-delete p k s, cut_key p k j a e)
  | inl e ↦ ground (arith, e, no_match p k j e, entries-delete p k s)
]

-- Writes and deletes outside the prefix do not show in the view.
pub entries-set_other :
    (p j v : Bytes) (s : KvStore) → strip_prefix p j ≡ none → entries p (set j v s) ≡ entries p s
unfolding entries set
entries-set_other p j v [] e = ground (arith, e)
entries-set_other p j v ((i, w) ∷ s) e =
    ground (arith, e, entries-set_other p j v s e, equal_sound j i)

pub entries-delete_other :
    (p j : Bytes) (s : KvStore) → strip_prefix p j ≡ none → entries p (delete j s) ≡ entries p s
unfolding entries delete
entries-delete_other p j [] e = refl
entries-delete_other p j ((i, w) ∷ s) e =
    ground (arith, e, entries-delete_other p j s e, equal_sound j i)
