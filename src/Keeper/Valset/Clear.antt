-- ===== src/Keeper/Valset/Clear.antt =====
-- `ClearPipedValsetOperations` of x/meshsecurity/keeper/valset_updates.go.
use research_cosmos.Prelude.{
  ◌≡◌, refl, ◌∙◌, Bool, false, ◌||◌, none, [], ◌∷◌, ◌++◌, arith, if◌then◌else◌,
}
use research_cosmos.Bytes.{Bytes, equal}
use research_cosmos.Bytes.Order.{equal_refl, equal-append}
use research_cosmos.KvStore.{KvStore, get, delete, entries}
use research_cosmos.KvStore.Laws.{get-delete, equal_comm}
use research_cosmos.KvStore.Prefix.{get-entries}
use research_cosmos.Ctx.{World}
use research_cosmos.Types.{ok}
use research_cosmos.Keys.{piped_valset_prefix}
use research_cosmos.Keeper.Valset.{delete_keys, clear_piped_valset_operations}

-- Is the key one of those of the list?
abbrev listed : Bytes → KvStore → Bool
listed j [] = false
listed j ((key, value) ∷ s) = equal key j || listed j s

get-delete_keys :
    (p j : Bytes) (ks m : KvStore)
    → get (p ++ j) (delete_keys p ks m) ≡ (if listed j ks then none else get (p ++ j) m)
unfolding delete_keys
get-delete_keys p j [] m = refl
get-delete_keys p j ((key, value) ∷ ks) m =
    rw
      (
        get-delete_keys p j ks (delete (p ++ key) m),
        get-delete (p ++ key) (p ++ j) m,
        equal-append p key j,
      )
      (ground arith)

get-unlisted : (j : Bytes) (s : KvStore) → listed j s ≡ false → get j s ≡ none
unfolding get
get-unlisted j [] h = refl
get-unlisted j ((key, value) ∷ s) h = ground (arith, equal_comm key j, get-unlisted j s)

empty_of_get : (s : KvStore) → ((j : Bytes) → get j s ≡ none) → s ≡ []
unfolding get
empty_of_get [] h = refl
empty_of_get ((key, value) ∷ s) h = absurd (ground (arith, h key, equal_refl key))

-- After `ClearPipedValsetOperations` the memory store has no entry behind the prefix of the piped
-- operations; the store and the other modules' state are as before.
pub clear_piped_valset_operations_empty :
    {E : Type 0} (w : World E)
    → let r = clear_piped_valset_operations w in
      (r.0 ≡ ok tt)
      × (entries piped_valset_prefix r.1.mem ≡ [])
      × (r.1.store ≡ w.store)
      × (r.1.env ≡ w.env)
unfolding clear_piped_valset_operations
clear_piped_valset_operations_empty w =
    let ks = entries piped_valset_prefix w.mem in
    (
      refl,
      empty_of_get (entries piped_valset_prefix (delete_keys piped_valset_prefix ks w.mem)) (λ j.
          get-entries piped_valset_prefix j (delete_keys piped_valset_prefix ks w.mem)
          ∙ get-delete_keys piped_valset_prefix j ks w.mem
          ∙ ground (arith, get-entries piped_valset_prefix j w.mem, get-unlisted j ks)),
      refl,
      refl,
    )
