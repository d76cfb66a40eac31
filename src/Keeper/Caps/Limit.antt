-- ===== src/Keeper/Caps/Limit.antt =====
-- The limit of one contract: `SetMaxCapLimit` and the reads of x/meshsecurity/keeper/keeper.go.
use research_cosmos.Prelude.{◌≡◌, ◌≢◌, refl, sym, ◌∙◌, true, false, Option, none, some, arith}
use research_cosmos.Prelude.Int.{ℤ, pos, ◌≤ℤ◌}
use research_cosmos.Bytes.{Bytes, equal}
use research_cosmos.Bytes.Order.{equal_sound, equal_refl, not_equal, equal-append}
use research_cosmos.KvStore.{get, has}
use research_cosmos.KvStore.Laws.{get-set}
use research_cosmos.Types.{ok, Coin, Params}
use research_cosmos.Sdk.{Sdk}
use research_cosmos.Ctx.{World}
use research_cosmos.Keys.{
  max_cap_limit_key_prefix, build_max_cap_limit_key, build_total_delegated_amount_key,
}
use research_cosmos.Keeper.{Keeper, KeeperLaws}
use research_cosmos.Keeper.Params.Stored.{get_params_ok}
use research_cosmos.Keeper.Caps.{
  set_max_cap_limit, get_max_cap_limit, get_total_delegated, has_max_cap_limit, must_load_int,
}
use research_cosmos.Keeper.Caps.Total.{IsWithinTotal, store_cap, set_max_cap_limit_ok}

-- What stored bytes decode to; a missing key is zero.
abbrev pub read_int : Sdk → Option Bytes → Option ℤ
read_int sdk none = some (pos 0)
read_int sdk (some bz) = sdk.unmarshal_int bz

module _ {E : Type 0} (k : Keeper E) where
  load_stored :
      (key : Bytes) (o : Option Bytes) (i : ℤ) (w : World E)
      → get key w.store ≡ o
      → read_int k.sdk o ≡ some i
      → must_load_int k key w ≡ (ok i, w)
  unfolding must_load_int
  load_stored key none i w e h = rw e (ground (arith, h))
  load_stored key (some bz) i w e h = rw e (rw h refl)

  pub must_load_int_ok :
      (key : Bytes) (i : ℤ) (w : World E)
      → read_int k.sdk (get key w.store) ≡ some i
      → must_load_int k key w ≡ (ok i, w)
  must_load_int_ok key i w h = load_stored key (get key w.store) i w refl h

  has_cap_stored :
      (c : Bytes) (coin : Coin) (bz : Bytes) (w : World E)
      → has_max_cap_limit k c (store_cap c coin bz w) ≡ (ok true, store_cap c coin bz w)
  unfolding has_max_cap_limit has
  has_cap_stored c coin bz w = ground (
    arith,
    get-set (build_max_cap_limit_key c) (build_max_cap_limit_key c) bz w.store,
    equal_refl (build_max_cap_limit_key c),
  )

  load_other :
      (key j bz : Bytes) (c : Bytes) (coin : Coin) (w : World E)
      → build_max_cap_limit_key c ≡ key
      → equal key j ≡ false
      → get j (store_cap c coin bz w).store ≡ get j w.store
  load_other key j bz c coin w e d = rw (get-set (build_max_cap_limit_key c) j bz w.store, e, d)

  other_cap :
      (c d : Bytes) (coin : Coin) (bz : Bytes) (w : World E)
      → d ≢ c
      → (get_max_cap_limit k d (store_cap c coin bz w)).0 ≡ (get_max_cap_limit k d w).0
  unfolding get_max_cap_limit must_load_int
  other_cap c d coin bz w ne =
      rw
        (load_other (build_max_cap_limit_key c) (build_max_cap_limit_key d) bz c coin w refl (
          unfold build_max_cap_limit_key in
          equal-append max_cap_limit_key_prefix c d ∙ not_equal c d (λ e. ne (sym e))))
        (ground arith)

  delegated_stored :
      (c d : Bytes) (coin : Coin) (bz : Bytes) (w : World E)
      → (get_total_delegated k d (store_cap c coin bz w)).0 ≡ (get_total_delegated k d w).0
  unfolding get_total_delegated must_load_int
  delegated_stored c d coin bz w =
      rw
        (load_other (build_max_cap_limit_key c) (build_total_delegated_amount_key d) bz c coin w
          refl (unfold build_max_cap_limit_key build_total_delegated_amount_key equal in refl))
        (ground arith)

  module _ (laws : KeeperLaws k) where
    pub get_max_cap_limit_ok :
        (c : Bytes) (i : ℤ) (w : World E)
        → read_int k.sdk (get (build_max_cap_limit_key c) w.store) ≡ some i
        → pos 0 ≤ℤ i
        → get_max_cap_limit k c w
          ≡ (ok (record { denom = k.staking.bond_denom w.env; amount = i }), w)
    unfolding get_max_cap_limit
    get_max_cap_limit_ok c i w h p =
        rw (must_load_int_ok (build_max_cap_limit_key c) i w h)
          (rw (laws.new_coin_ok (k.staking.bond_denom w.env) i (laws.bond_denom_valid w.env) p))

    pub get_total_delegated_ok :
        (c : Bytes) (i : ℤ) (w : World E)
        → read_int k.sdk (get (build_total_delegated_amount_key c) w.store) ≡ some i
        → pos 0 ≤ℤ i
        → get_total_delegated k c w
          ≡ (ok (record { denom = k.staking.bond_denom w.env; amount = i }), w)
    unfolding get_total_delegated
    get_total_delegated_ok c i w h p =
        rw (must_load_int_ok (build_total_delegated_amount_key c) i w h) (
          ground (
            arith,
            laws.new_coin_ok (k.staking.bond_denom w.env) i (laws.bond_denom_valid w.env) p,
          ))

    -- A successful `SetMaxCapLimit` has written exactly the limit's key and emitted its event.
    set_max_cap_limit_inversion :
        (c : Bytes) (coin : Coin) (w w' : World E) {p : Params} {bz : Bytes}
        → IsWithinTotal k.sdk p w.store
        → k.sdk.marshal_int coin.amount ≡ ok bz
        → set_max_cap_limit k c coin w ≡ (ok tt, w')
        → (k.staking.bond_denom w.env ≡ coin.denom) × (w' ≡ store_cap c coin bz w)
    set_max_cap_limit_inversion c coin w w' {p} {bz} h m e =
        let (same, written) =
          set_max_cap_limit_ok k laws.sdk_laws c coin w h.readable (get_params_ok k p w h.params) m
            e in
        (equal_sound (k.staking.bond_denom w.env) coin.denom same, written)

    -- With the laws of the SDK and caps within the total: after a successful `SetMaxCapLimit`
    -- with an amount of at least zero, `HasMaxCapLimit` holds of the contract and
    -- `GetMaxCapLimit` returns the coin that was set; the results of `GetMaxCapLimit` for other
    -- contracts and of `GetTotalDelegated` for all are as before.
    pub get_max_cap_limit-set_max_cap_limit :
        (c : Bytes) (coin : Coin) (w w' : World E) (p : Params)
        → IsWithinTotal k.sdk p w.store
        → pos 0 ≤ℤ coin.amount
        → set_max_cap_limit k c coin w ≡ (ok tt, w')
        → (has_max_cap_limit k c w' ≡ (ok true, w'))
          × (get_max_cap_limit k c w' ≡ (ok coin, w'))
          × ((d : Bytes) → d ≢ c → (get_max_cap_limit k d w').0 ≡ (get_max_cap_limit k d w).0)
          × ((d : Bytes) → (get_total_delegated k d w').0 ≡ (get_total_delegated k d w).0)
    get_max_cap_limit-set_max_cap_limit c coin w w' p h nonneg e =
        let (bz, m, u) = laws.int_round_trip coin.amount in
        let (same, written) = set_max_cap_limit_inversion c coin w w' h m e in
        rw written (
          has_cap_stored c coin bz w,
          get_max_cap_limit_ok c coin.amount (store_cap c coin bz w)
                (rw (get-set (build_max_cap_limit_key c) (build_max_cap_limit_key c) bz w.store)
                  (rw (equal_refl (build_max_cap_limit_key c)) u))
                nonneg
              ∙ rw same refl,
          λ d ne. other_cap c d coin bz w ne,
          λ d. delegated_stored c d coin bz w,
        )
