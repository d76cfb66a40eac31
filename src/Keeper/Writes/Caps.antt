-- ===== src/Keeper/Writes/Caps.antt =====
-- The writes of `SetMaxCapLimit` of x/meshsecurity/keeper/keeper.go: one under the key of the cap.
use research_cosmos.Prelude.{Bool, not, Option, List, none, some, [], ◌∷◌, if◌then◌else◌, false}
use research_cosmos.Prelude.Int.{ℤ, pos, ltb_ℤ}
use research_cosmos.Bytes.{Bytes, equal}
use research_cosmos.KvStore.{KvStore, get, set, entries}
use research_cosmos.Types.{Coin, Event, invalid, invalid_coins, max_cap_limit_updated}
use research_cosmos.Ctx.{World, M, ◌>>=◌, pure, lift, modify, fail_if, emit, or_panic}
use research_cosmos.Ctx.Keeps.{Keeps, Keeps-bind, Keeps-if, Keeps-fail_if, Keeps-or_panic}
use research_cosmos.Keys.{params_key, max_cap_limit_key_prefix, build_max_cap_limit_key}
use research_cosmos.Keeper.{Keeper}
use research_cosmos.Keeper.Params.{decode_params, get_params, get_total_contracts_max_cap}
use research_cosmos.Keeper.Caps.{
  bond_denom, iterate_caps, iterate_max_cap_limit, add_other, set_max_cap_limit,
}

module _ {E : Type 0} (k : Keeper E) (P : World E → Type 0) where
  -- A loop keeps what its callback keeps.
  pub Keeps-caps :
      {S : Type 0} (cb : S → Bytes → ℤ → M E (S × Bool)) (s : KvStore) (x : S)
      → ((x : S) (c : Bytes) (m : ℤ) → Keeps P (cb x c m))
      → Keeps P (iterate_caps k cb x s)
  unfolding iterate_caps
  Keeps-caps cb [] x hc = λ w h. h
  Keeps-caps {S} cb ((c, bz) ∷ s) x hc =
      let next : S × Bool → M E S = λ r. if r.1 then pure r.0 else iterate_caps k cb r.0 s in
      let body : ℤ → M E S = λ m. cb x c m >>= next in
      Keeps-bind P (or_panic (k.sdk.unmarshal_int bz)) body
        (Keeps-or_panic P (k.sdk.unmarshal_int bz))
        (λ m. Keeps-bind P (cb x c m) next (hc x c m) (λ r.
          Keeps-if P r.1 (pure r.0) (iterate_caps k cb r.0 s) (λ w h. h) (Keeps-caps cb s r.0 hc)))

  pub Keeps-get_params : Keeps P (get_params k)
  unfolding get_params
  Keeps-get_params w h = decoded (get params_key w.store)
    where
      decoded : (o : Option Bytes) → P (decode_params k o w).1
      decoded none = h
      decoded (some bz) = Keeps-or_panic P (k.sdk.unmarshal_params bz) w h

  pub Keeps-set_max_cap_limit :
      (c : Bytes) (coin : Coin)
      → ((w : World E) (es : List Event) → P w → P (record w { events = es }))
      → ((w : World E) (bz : Bytes)
          → P w
          → P (record w { store = set (build_max_cap_limit_key c) bz w.store }))
      → Keeps P (set_max_cap_limit k c coin)
  unfolding set_max_cap_limit iterate_max_cap_limit get_total_contracts_max_cap add_other
  Keeps-set_max_cap_limit c coin events write =
      let told : Unit → M E Unit = λ _. emit (max_cap_limit_updated c coin) in
      let store : Bytes → M E Unit = λ bz.
        modify (λ w. record w { store = set (build_max_cap_limit_key c) bz w.store }) >>= told in
      let encode : Unit → M E Unit = λ _. lift (k.sdk.marshal_int coin.amount) >>= store in
      let compared : Coin → ℤ → M E Unit =
        λ max sum. fail_if (ltb_ℤ max.amount sum) invalid >>= encode in
      let bounded : ℤ → Coin → M E Unit =
        λ total max. lift (k.sdk.add_int total coin.amount) >>= compared max in
      let max_cap : M E Coin = get_total_contracts_max_cap k in
      let limit : ℤ → M E Unit = λ total. max_cap >>= bounded total in
      let total : M E ℤ =
        λ w. iterate_caps k (add_other k c) (pos 0) (entries max_cap_limit_key_prefix w.store) w in
      let sum : Unit → M E Unit = λ _. total >>= limit in
      let test : Bytes → M E Unit =
        λ denom. fail_if (not (equal denom coin.denom)) invalid_coins >>= sum in
      Keeps-bind P (bond_denom k) test (λ w h. h)
        (λ denom.
          Keeps-bind P (fail_if (not (equal denom coin.denom)) invalid_coins) sum
            (Keeps-fail_if P (not (equal denom coin.denom)) invalid_coins)
            (λ _.
              Keeps-bind P total limit
                (λ w h.
                  Keeps-caps (add_other k c) (entries max_cap_limit_key_prefix w.store) (pos 0)
                    (λ x a m.
                      let next : ℤ → M E (ℤ × Bool) = λ t. pure (t, false) in
                      Keeps-if P (equal a c) (pure (x, false)) (lift (k.sdk.add_int x m) >>= next)
                        (λ v i. i)
                        (Keeps-bind P (lift (k.sdk.add_int x m)) next (λ v i. i) (λ t v i. i)))
                    w h)
                (λ sum.
                  Keeps-bind P max_cap (bounded sum)
                    (Keeps-bind P (get_params k) (λ p. pure p.total_contracts_max_cap)
                      Keeps-get_params (λ p w h. h))
                    (λ max.
                      Keeps-bind P (lift (k.sdk.add_int sum coin.amount)) (compared max) (λ w h. h)
                        (λ all.
                          Keeps-bind P (fail_if (ltb_ℤ max.amount all) invalid) encode
                            (Keeps-fail_if P (ltb_ℤ max.amount all) invalid)
                            (λ _.
                              Keeps-bind P (lift (k.sdk.marshal_int coin.amount)) store (λ w h. h)
                                (λ bz.
                                  Keeps-bind P
                                    (modify (λ w. record w {
                                      store = set (build_max_cap_limit_key c) bz w.store;
                                    }))
                                    told (λ w h. write w bz h) (λ _ w h. events w _ h))))))))
