-- ===== src/Keeper/Caps.antt =====
-- x/meshsecurity/keeper/keeper.go: the max cap limit and the delegated total of each contract.
pub mod Sum
pub mod Total
pub mod Limit
use research_cosmos.Prelude.{
  ℕ, Bool, true, false, not, Option, none, some, List, [], ◌∷◌, if◌then◌else◌,
}
use research_cosmos.Prelude.Int.{ℤ, pos, ltb_ℤ, is_negative}
use research_cosmos.Bytes.{Bytes, equal}
use research_cosmos.KvStore.{KvStore, get, has, set, entries}
use research_cosmos.Types.{Outcome, Coin, invalid, invalid_coins, max_cap_limit_updated}
use research_cosmos.Ctx.{
  World, M, ◌>>=◌, ◌>>◌, pure, lift, gets, modify, or_panic, must, fail_if, emit,
}
use research_cosmos.Keys.{
  max_cap_limit_key_prefix, build_max_cap_limit_key, build_total_delegated_amount_key,
}
use research_cosmos.Keeper.{Keeper}
use research_cosmos.Keeper.Params.{get_total_contracts_max_cap}

module _ {E : Type 0} (k : Keeper E) where
  abbrev pub bond_denom : M E Bytes
  bond_denom w = gets (λ v. k.staking.bond_denom v.env) w

  unfoldable pub has_max_cap_limit : Bytes → M E Bool
  has_max_cap_limit actor = gets (λ w. has (build_max_cap_limit_key actor) w.store)

  abbrev pub decode_int : Option Bytes → M E ℤ
  decode_int none = pure (pos 0)
  decode_int (some bz) = or_panic (k.sdk.unmarshal_int bz)

  unfoldable pub must_load_int : Bytes → M E ℤ
  must_load_int key w = decode_int (get key w.store) w

  unfoldable pub get_max_cap_limit : Bytes → M E Coin
  unfolding must_load_int
  get_max_cap_limit actor = do
    denom ← bond_denom
    v ← must_load_int (build_max_cap_limit_key actor)
    lift (k.sdk.new_coin denom v)

  unfoldable pub get_total_delegated : Bytes → M E Coin
  unfolding must_load_int
  get_total_delegated actor = do
    v ← must_load_int (build_total_delegated_amount_key actor)
    denom ← bond_denom
    lift (k.sdk.new_coin denom (if is_negative v then pos 0 else v))

  -- A denomination other than the staking one panics.
  unfoldable pub set_total_delegated : Bytes → Coin → M E Unit
  set_total_delegated actor new_amount = do
    denom ← bond_denom
    or_panic (if equal denom new_amount.denom then some tt else none)
    bz ← must (k.sdk.marshal_int new_amount.amount)
    modify (λ w. record w { store = set (build_total_delegated_amount_key actor) bz w.store })

  -- The loop of `IterateMaxCapLimit`. The callback's captured variables are the accumulator, and
  -- its flag stops the loop.
  unfoldable pub iterate_caps :
      {S : Type 0} → (S → Bytes → ℤ → M E (S × Bool)) → S → KvStore → M E S
  iterate_caps cb s [] = pure s
  iterate_caps cb s ((addr, bz) ∷ rest) = do
    r ← or_panic (k.sdk.unmarshal_int bz)
    (s', stop) ← cb s addr r
    if stop then pure s' else iterate_caps cb s' rest

  unfoldable pub iterate_max_cap_limit : {S : Type 0} → (S → Bytes → ℤ → M E (S × Bool)) → S → M E S
  unfolding iterate_caps
  iterate_max_cap_limit cb s w = iterate_caps cb s (entries max_cap_limit_key_prefix w.store) w

  -- The callback of `SetMaxCapLimit`: the sum over the other contracts.
  unfoldable pub add_other : Bytes → ℤ → Bytes → ℤ → M E (ℤ × Bool)
  add_other contract total addr m =
      if equal addr contract
      then pure (total, false)
      else (do sum ← lift (k.sdk.add_int total m); pure (sum, false))

  unfoldable pub set_max_cap_limit : Bytes → Coin → M E Unit
  unfolding iterate_max_cap_limit add_other
  set_max_cap_limit contract new_amount = do
    denom ← bond_denom
    fail_if (not (equal denom new_amount.denom)) invalid_coins
    total ← iterate_max_cap_limit (add_other contract) (pos 0)
    total_max_cap ← get_total_contracts_max_cap k
    sum ← lift (k.sdk.add_int total new_amount.amount)
    fail_if (ltb_ℤ total_max_cap.amount sum) invalid
    bz ← lift (k.sdk.marshal_int new_amount.amount)
    modify (λ w. record w { store = set (build_max_cap_limit_key contract) bz w.store })
    emit (max_cap_limit_updated contract new_amount)
