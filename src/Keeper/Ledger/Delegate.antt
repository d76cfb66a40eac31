-- ===== src/Keeper/Ledger/Delegate.antt =====
-- What `Delegate` of x/meshsecurity/keeper/stake.go does to the context, however it ends.
use research_cosmos.Prelude.{
  false, ◌≡◌, refl, ap, ◌∙◌, ◌⊎◌, inl, inr, Bool-cases, Option, none, some, arith, ◌||◌,
}
use research_cosmos.Prelude.Int.{ℤ, pos, ◌+ℤ◌, ◌≤ℤ◌, ltb_ℤ, int_laws, is_zero, is_negative}
use research_cosmos.Bytes.{Bytes, equal}
use research_cosmos.Bytes.Order.{equal_sound, equal_refl}
use research_cosmos.KvStore.{get, set}
use research_cosmos.Types.{Outcome, ok, err, panic, Coin, CoinArg, Validator}
use research_cosmos.Ctx.{World, M, ◌>>=◌, continue, lift, Env, in_cache, keep_if_ok}
use research_cosmos.Keys.{build_max_cap_limit_key, build_total_delegated_amount_key}
use research_cosmos.Keeper.{Keeper, KeeperLaws}
use research_cosmos.Keeper.Caps.{set_total_delegated}
use research_cosmos.Keeper.Caps.Limit.{read_int, get_max_cap_limit_ok, get_total_delegated_ok}
use research_cosmos.Keeper.Stake.{positive_amount, delegate_cached, delegate}

lift_world :
    {E A : Type 0} (m : M E (Outcome A)) (w : World E) → ((m >>= λ r. lift r) w).1 ≡ (m w).1
lift_world {E} {A} m w = go (m w).0 (m w).1
  where
    go : (r : Outcome (Outcome A)) (v : World E) → (continue r (λ x. lift x) v).1 ≡ v
    go (ok x) v = refl
    go (err e) v = refl
    go panic v = refl

module _ {E : Type 0} (k : Keeper E) where
  -- The context with a new total, and the changes of other modules.
  abbrev pub with_total : Bytes → Bytes → Env E → World E → World E
  with_total actor bz v w = record w {
    store = set (build_total_delegated_amount_key actor) bz w.store;
    env = v;
  }

  delegate_cached_world :
      (actor denom : Bytes) (v : Validator) (amt total : Coin) (w w' : World E) {r : Outcome ℤ}
      {bz : Bytes}
      → k.sdk.marshal_int total.amount ≡ ok bz
      → delegate_cached k actor denom v amt total w ≡ (ok r, w')
      → w' ≡ with_total actor bz w'.env w
  unfolding delegate_cached set_total_delegated
  delegate_cached_world actor denom v amt total w w' m e = ground (arith, m, e)

  abbrev Cached : Bytes → Bytes → World E → World E → Type 0
  Cached actor bz w w' = (w'.store ≡ w.store) ⊎ ((v : Env E) × (w' ≡ with_total actor bz v w))

  delegate_cached-Cached :
      (actor denom : Bytes) (v : Validator) (amt total : Coin) (w : World E) {bz : Bytes}
      → k.sdk.marshal_int total.amount ≡ ok bz
      → Cached actor bz w (in_cache (delegate_cached k actor denom v amt total) w).1
  delegate_cached-Cached actor denom v amt total w {bz} m =
      let ran = delegate_cached k actor denom v amt total w in go ran.0 ran.1 refl
    where
      go :
          (r : Outcome (Outcome ℤ)) (w' : World E)
          → delegate_cached k actor denom v amt total w ≡ (r, w')
          → Cached actor bz w (keep_if_ok w (r, w')).1
      go (ok r) w' e = inr (w'.env, delegate_cached_world actor denom v amt total w w' m e)
      go (err x) w' e = inl refl
      go panic w' e = inl refl

  module _ (laws : KeeperLaws k) (actor val_addr : Bytes) (t m : ℤ) (w : World E)
      (rt : read_int k.sdk (get (build_total_delegated_amount_key actor) w.store) ≡ some t)
      (rm : read_int k.sdk (get (build_max_cap_limit_key actor) w.store) ≡ some m) (pt : pos 0 ≤ℤ t)
      (pm : pos 0 ≤ℤ m) where
    -- Every test is passed.
    record Passed (arg : CoinArg) : Type 0 where
      pub amount : ℤ
      pub validator : Validator
      pub above : pos 1 ≤ℤ amount
      pub within : t +ℤ amount ≤ℤ m
      pub runs :
          let bond = k.staking.bond_denom w.env in
          (delegate k actor val_addr arg w).1
          ≡ (in_cache
              (delegate_cached k actor bond validator
                (record { denom = bond; amount = amount })
                (record { denom = bond; amount = t +ℤ amount }))
              w).1

    -- With an amount above zero of the staking denomination.
    of_validator :
        (a : ℤ) (o : Option Validator)
        → is_zero a || is_negative a ≡ false
        → k.staking.get_validator w.env val_addr ≡ o
        → let arg : CoinArg = record { denom = k.staking.bond_denom w.env; amount = some a } in
          ((delegate k actor val_addr arg w).1.store ≡ w.store) ⊎ Passed arg
    unfolding delegate positive_amount
    of_validator a none good found =
        inl (ground (arith, good, found, equal_refl (k.staking.bond_denom w.env)))
    of_validator a (some v) good found =
        let bond = k.staking.bond_denom w.env in
        let same = equal_refl bond in
        let total = get_total_delegated_ok k laws actor t w rt pt in
        let limit = get_max_cap_limit_ok k laws actor m w rm pm in
        let sum = laws.add_coin_ok bond t a in
        let less = laws.is_lt_ok bond m (t +ℤ a) in
        elim (Bool-cases (ltb_ℤ m (t +ℤ a))) [
          | inl over ↦ inl (rw (good, same, found, total, sum, limit, less, over) refl)
          | inr fits ↦ inr (record {
            amount = a;
            validator = v;
            above = ground (arith, good);
            within = ground (arith, fits);
            runs =
                rw (good, same, found, total, sum, limit, less, fits)
                  (lift_world
                    (in_cache (
                      delegate_cached k actor bond v (record { denom = bond; amount = a })
                        (record { denom = bond; amount = t +ℤ a })))
                    w);
          })
        ]

    delegate_cases :
        (denom : Bytes) (o : Option ℤ)
        → let arg : CoinArg = record { denom = denom; amount = o } in
          ((delegate k actor val_addr arg w).1.store ≡ w.store) ⊎ Passed arg
    unfolding delegate positive_amount
    delegate_cases denom none = inl (ground arith)
    delegate_cases denom (some a) =
        let bond = k.staking.bond_denom w.env in
        elim (Bool-cases (is_zero a || is_negative a)) [
          | inl bad ↦ inl (ground (arith, bad))
          | inr good ↦ elim (Bool-cases (equal denom bond)) [
            | inr other ↦ inl (ground (arith, good, other))
            | inl same ↦
                rw (equal_sound denom bond same)
                  (of_validator a (k.staking.get_validator w.env val_addr) good refl)
          ]
        ]

    -- A delegation changes nothing in the store, or sets the contract's total to one between the old total and
    -- the limit, with changes of other modules.
    pub delegate_world :
        (arg : CoinArg)
        → ((delegate k actor val_addr arg w).1.store ≡ w.store)
          ⊎ ((x : ℤ) × (bz : Bytes) × (v : Env E) × (t ≤ℤ x)
              × (x ≤ℤ m)
              × (k.sdk.unmarshal_int bz ≡ some x)
              × ((delegate k actor val_addr arg w).1 ≡ with_total actor bz v w))
    delegate_world arg = elim (delegate_cases arg.denom arg.amount) [
      | inl e ↦ inl e
      | inr passed ↦
          let (bz, mt, ut) = laws.int_round_trip (t +ℤ passed.amount) in
          let bond = k.staking.bond_denom w.env in
          elim (delegate_cached-Cached actor bond passed.validator
            (record { denom = bond; amount = passed.amount })
            (record { denom = bond; amount = t +ℤ passed.amount }) w mt) [
              | inl e ↦ inl (ap (λ (u : World E). u.store) passed.runs ∙ e)
              | inr (v, e) ↦ inr (
                t +ℤ passed.amount,
                bz,
                v,
                omega (int_laws, passed.above),
                passed.within,
                ut,
                passed.runs ∙ e,
              )
            ]
    ]
