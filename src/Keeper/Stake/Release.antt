-- ===== src/Keeper/Stake/Release.antt =====
-- `Undelegate` of x/meshsecurity/keeper/stake.go: the delegated total, and the failing calls.
use research_cosmos.Prelude.{
  true, ◌≡◌, ◌≢◌, refl, sym, ap, ◌∙◌, ◌⊎◌, inl, inr, false, some, List, [], arith,
}
use research_cosmos.Prelude.Int.{ℤ, pos, ◌-ℤ◌, ◌≤ℤ◌, ltb_ℤ, -ℤ_parts}
use research_cosmos.Bytes.{Bytes}
use research_cosmos.Bytes.Order.{equal_sound, equal_refl, not_equal}
use research_cosmos.KvStore.{get, set}
use research_cosmos.KvStore.Laws.{get-set}
use research_cosmos.Types.{Outcome, ok, err, panic, Coin, CoinArg, no_delegation}
use research_cosmos.Ctx.{World, Env, with_gas_of}
use research_cosmos.Keys.{build_total_delegated_amount_key}
use research_cosmos.Keeper.{Keeper, KeeperLaws}
use research_cosmos.Keeper.Caps.{set_total_delegated}
use research_cosmos.Keeper.Caps.Limit.{read_int, get_total_delegated_ok}
use research_cosmos.Keeper.Stake.{positive_amount, undelegate, undelegate_cached, release}

abbrev pub returned_coins : {E : Type 0} → Outcome (List Coin) × Env E → List Coin
returned_coins (ok coins, v) = coins
returned_coins _ = []

module _ {E : Type 0} (k : Keeper E) where
  -- An undelegation that does not succeed leaves the whole context as it was, but for the gas that
  -- it has used.
  pub undelegate_atomic :
      (actor val_addr : Bytes) (arg : CoinArg) (w : World E)
      → ((undelegate k actor val_addr arg w).0 ≢ ok tt)
      → (undelegate k actor val_addr arg w).1 ≡ with_gas_of (undelegate k actor val_addr arg w).1 w
  unfolding undelegate
  undelegate_atomic actor val_addr arg w h = ground arith

  module _ (laws : KeeperLaws k) where
    release_writes :
        (actor denom val_addr : Bytes) (t shares : ℤ) (w w' : World E) {bz : Bytes}
        → let u =
            k.sdk.amount_of denom
              (returned_coins (k.staking.instant_undelegate actor val_addr shares w.env)) in
          k.sdk.valid_denom denom ≡ true
          → k.sdk.marshal_int (t -ℤ u) ≡ ok bz
          → release k actor denom val_addr (record { denom = denom; amount = t }) shares w
            ≡ (ok tt, w')
          → ((k.staking.instant_undelegate actor val_addr shares w.env).0
              ≡ ok (returned_coins (k.staking.instant_undelegate actor val_addr shares w.env)))
            × (u ≤ℤ t)
            × (w'.store ≡ set (build_total_delegated_amount_key actor) bz w.store)
            × (w'.mem ≡ w.mem)
    unfolding release set_total_delegated
    release_writes actor denom val_addr t shares w w' {bz} vd mt e =
        let coins = returned_coins (k.staking.instant_undelegate actor val_addr shares w.env) in
        let u = k.sdk.amount_of denom coins in
        ground (
          arith,
          e,
          mt,
          laws.amount_of_nonneg denom coins,
          laws.new_coin_ok denom u vd,
          laws.sub_coin_ok denom t u,
          laws.sub_coin_panics denom t u,
          -ℤ_parts t u,
        )

    -- What a successful call has done to the stores of the module: the total is lowered by the
    -- amount of the coins that the staking keeper has given back.
    abbrev pub Released : Bytes → Bytes → Bytes → ℤ → ℤ → Env E → World E → World E → Type 0
    Released actor denom val_addr t shares v w w' =
        (coins : List Coin) × ((k.staking.instant_undelegate actor val_addr shares v).0 ≡ ok coins)
        × (pos 0 ≤ℤ k.sdk.amount_of denom coins)
        × (k.sdk.amount_of denom coins ≤ℤ t)
        × (read_int k.sdk (get (build_total_delegated_amount_key actor) w'.store)
            ≡ some (t -ℤ k.sdk.amount_of denom coins))
        × ((j : Bytes)
            → j ≢ build_total_delegated_amount_key actor
            → get j w'.store ≡ get j w.store)
        × (w'.mem ≡ w.mem)

    release-Released :
        (actor denom val_addr : Bytes) (t shares : ℤ) (w w' : World E)
        → k.sdk.valid_denom denom ≡ true
        → release k actor denom val_addr (record { denom = denom; amount = t }) shares w
          ≡ (ok tt, w')
        → Released actor denom val_addr t shares w.env w w'
    release-Released actor denom val_addr t shares w w' vd e =
        let coins = returned_coins (k.staking.instant_undelegate actor val_addr shares w.env) in
        let u = k.sdk.amount_of denom coins in
        let (bz, mt, ut) = laws.int_round_trip (t -ℤ u) in
        let (given, below, written, mem) =
          release_writes actor denom val_addr t shares w w' vd mt e in
        let key = build_total_delegated_amount_key actor in
        (
          coins,
          given,
          laws.amount_of_nonneg denom coins,
          below,
          rw (written, get-set key key bz w.store, equal_refl key) ut,
          λ j ne.
              rw (written, get-set key j bz w.store, not_equal key j (λ same. ne (sym same))) refl,
          mem,
        )

    -- The two ways in which an undelegation succeeds, by the answer about the shares.
    abbrev pub Undelegated :
        Bytes → Bytes → Bytes → ℤ → Outcome ℤ × Env E → World E → World E → Type 0
    Undelegated actor denom val_addr t answer w w' =
        ((answer.0 ≡ err no_delegation) × (w' ≡ with_gas_of w' w))
        ⊎ ((shares : ℤ) × (answer.0 ≡ ok shares)
            × Released actor denom val_addr t shares answer.1 w w')

    undelegate_cached-Undelegated :
        (actor val_addr : Bytes) (a t : ℤ) (w w' : World E) (o : Outcome ℤ × Env E)
        → read_int k.sdk (get (build_total_delegated_amount_key actor) w.store) ≡ some t
        → pos 0 ≤ℤ t
        → k.staking.validate_unbond_amount actor val_addr a w.env ≡ o
        → undelegate_cached k actor
            (k.staking.bond_denom w.env)
            val_addr
            (record { denom = k.staking.bond_denom w.env; amount = a })
            w
          ≡ (ok tt, w')
        → (a ≤ℤ t) × Undelegated actor (k.staking.bond_denom w.env) val_addr t o w w'
    unfolding undelegate_cached
    undelegate_cached-Undelegated actor val_addr a t w w' (ok shares, v) rt pt o e =
        let facts = (get_total_delegated_ok k laws actor t w rt pt) in
        let less = laws.is_lt_ok (k.staking.bond_denom w.env) t a in
        let passed : ltb_ℤ t a ≡ false = ground (arith, facts, less) in
        (
          ground (arith, passed),
          inr (
            shares,
            refl,
            release-Released actor (k.staking.bond_denom w.env) val_addr t shares
                (record w { env = v }) w' (laws.bond_denom_valid w.env)
                (rw (facts, less, passed, o) at e),
          ),
        )
    undelegate_cached-Undelegated actor val_addr a t w w' (err no_delegation, v) rt pt o e =
        let facts = (get_total_delegated_ok k laws actor t w rt pt) in
        let less = laws.is_lt_ok (k.staking.bond_denom w.env) t a in
        let passed : ltb_ℤ t a ≡ false = ground (arith, facts, less) in
        let kept : with_gas_of (record w { env = v }) w ≡ w' =
          ap (λ (r : Outcome Unit × World E). r.1) (rw (facts, less, passed, o) at e) in
        (ground (arith, passed), inl (refl, sym kept ∙ ap (λ (u : World E). with_gas_of u w) kept))
    undelegate_cached-Undelegated actor val_addr a t w w' (err x, v) rt pt o e = absurd (
        ground (
          arith,
          get_total_delegated_ok k laws actor t w rt pt,
          laws.is_lt_ok (k.staking.bond_denom w.env) t a,
        ))
    undelegate_cached-Undelegated actor val_addr a t w w' (panic, v) rt pt o e = absurd (
        ground (
          arith,
          get_total_delegated_ok k laws actor t w rt pt,
          laws.is_lt_ok (k.staking.bond_denom w.env) t a,
        ))

    -- With the laws of the SDK: an undelegation of a contract whose stored total is at least
    -- zero, when it succeeds, has an amount above zero and at most that total. If the staking
    -- keeper knows no delegation, nothing but the gas that was used has changed. Otherwise it has
    -- answered with the shares and has given back coins for them, and the contract's stored total
    -- is lowered by exactly the amount of these coins in the staking denomination, which is
    -- between zero and the old total, and no other key of the module's two stores is written.
    pub undelegate_bounded :
        (actor val_addr denom : Bytes) (a t : ℤ) (w w' : World E)
        → read_int k.sdk (get (build_total_delegated_amount_key actor) w.store) ≡ some t
        → pos 0 ≤ℤ t
        → undelegate k actor val_addr (record { denom = denom; amount = some a }) w ≡ (ok tt, w')
        → (pos 1 ≤ℤ a)
          × (a ≤ℤ t)
          × Undelegated actor
              (k.staking.bond_denom w.env)
              val_addr
              t
              (k.staking.validate_unbond_amount actor val_addr a w.env)
              w
              w'
    unfolding undelegate positive_amount
    undelegate_bounded actor val_addr denom a t w w' rt pt e =
        let bond = k.staking.bond_denom w.env in
        let passed : (pos 1 ≤ℤ a)
            × (undelegate_cached k actor bond val_addr (record { denom = bond; amount = a }) w
                ≡ (ok tt, w')) =
          ground (arith, e, equal_sound denom bond) in
        let rest =
          undelegate_cached-Undelegated actor val_addr a t w w'
            (k.staking.validate_unbond_amount actor val_addr a w.env) rt pt refl passed.1 in
        (passed.0, rest.0, rest.1)
