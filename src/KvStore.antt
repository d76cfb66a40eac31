-- ===== src/KvStore.antt =====
-- The key-value stores behind `ctx.KVStore(k.storeKey)` and `ctx.KVStore(k.memKey)`: ordered maps
-- from byte strings to byte strings, kept as a list in key order. `entries` is the iterator of a
-- prefix store (`prefix.NewStore(store, p).Iterator(nil, nil)`), read as a snapshot.
pub mod Laws
pub mod Prefix
use research_cosmos.Prelude.{
  Bool, true, false, Option, none, some, List, [], ◌∷◌, ◌≡◌, All, if◌then◌else◌,
}
use research_cosmos.Bytes.{Bytes, equal, before, strip_prefix}

abbrev pub KvStore : Type 0
KvStore = List (Bytes × Bytes)

-- `store.Get`; `none` is nil
unfoldable pub get : Bytes → KvStore → Option Bytes
get k [] = none
get k ((j, v) ∷ s) = if equal k j then some v else get k s

-- `store.Has`
unfoldable pub has : Bytes → KvStore → Bool
has k s = elim (get k s) [ none ↦ false | some v ↦ true ]

-- `store.Set`
unfoldable pub set : Bytes → Bytes → KvStore → KvStore
set k v [] = (k, v) ∷ []
set k v ((j, w) ∷ s) =
    let rest = set k v s in
    if equal k j then (k, v) ∷ s else if before k j then (k, v) ∷ (j, w) ∷ s else (j, w) ∷ rest

-- `store.Delete`
unfoldable pub delete : Bytes → KvStore → KvStore
delete k [] = []
delete k ((j, w) ∷ s) = let rest = delete k s in if equal k j then rest else (j, w) ∷ rest

-- What an iterator over the keys with prefix `p` yields, the prefix cut off.
unfoldable pub entries : Bytes → KvStore → KvStore
entries p [] = []
entries p ((j, w) ∷ s) =
    let rest = entries p s in elim (strip_prefix p j) [ none ↦ rest | some a ↦ (a, w) ∷ rest ]

-- The keys ascend strictly.
abbrev pub IsSorted : KvStore → Type 0
IsSorted [] = Unit
IsSorted ((j, w) ∷ s) = All (λ (e : Bytes × Bytes). before j e.0 ≡ true) s × IsSorted s
