-- ===== src/Keeper/Stake/Bounds.antt =====
-- `Delegate` of x/meshsecurity/keeper/stake.go: the delegated total.
use research_cosmos.Prelude.{◌≡◌, ◌≢◌, refl, sym, some, List, arith}
use research_cosmos.Prelude.Int.{ℤ, pos, ◌+ℤ◌, ◌-ℤ◌, ◌≤ℤ◌, int_laws, +ℤ_parts}
use research_cosmos.Bytes.{Bytes}
use research_cosmos.Bytes.Order.{equal_sound, equal_refl, not_equal}
use research_cosmos.KvStore.{get, set}
use research_cosmos.KvStore.Laws.{get-set}
use research_cosmos.Types.{Outcome, ok, panic, Coin, Validator}
use research_cosmos.Ctx.{World, Env}
use research_cosmos.Keys.{build_max_cap_limit_key, build_total_delegated_amount_key}
use research_cosmos.Keeper.{Keeper, KeeperLaws}
use research_cosmos.Keeper.Caps.{set_total_delegated}
use research_cosmos.Keeper.Caps.Limit.{read_int, get_max_cap_limit_ok, get_total_delegated_ok}
use research_cosmos.Keeper.Stake.{positive_amount, module_name, delegate_cached, delegate}

module _ {E : Type 0} (k : Keeper E) where
  delegate_cached_store :
      (actor denom : Bytes) (v : Validator) (amt total : Coin) (w w' : World E) {r : Outcome ℤ}
      {bz : Bytes}
      → k.sdk.marshal_int total.amount ≡ ok bz
      → delegate_cached k actor denom v amt total w ≡ (ok r, w')
      → (w'.store ≡ set (build_total_delegated_amount_key actor) bz w.store)
        × (w'.mem ≡ w.mem)
        × (w'.height ≡ w.height)
  unfolding delegate_cached set_total_delegated
  delegate_cached_store actor denom v amt total w w' m e = ground (arith, m, e)

  module _ (laws : KeeperLaws k) where
    -- A delegation that succeeds has passed every test, and has written the raised total and nothing
    -- else of this module's stores.
    delegate_writes :
        (actor val_addr denom : Bytes) (a t m shares : ℤ) (w w' : World E) {bz : Bytes}
        → read_int k.sdk (get (build_total_delegated_amount_key actor) w.store) ≡ some t
        → read_int k.sdk (get (build_max_cap_limit_key actor) w.store) ≡ some m
        → pos 0 ≤ℤ t
        → pos 0 ≤ℤ m
        → k.sdk.marshal_int (t +ℤ a) ≡ ok bz
        → delegate k actor val_addr (record { denom = denom; amount = some a }) w ≡ (ok shares, w')
        → (pos 1 ≤ℤ a)
          × (t +ℤ a ≤ℤ m)
          × (w'.store ≡ set (build_total_delegated_amount_key actor) bz w.store)
          × (w'.mem ≡ w.mem)
    unfolding delegate positive_amount
    delegate_writes actor val_addr denom a t m shares w w' {bz} rt rm pt pm mt e = ground (
      arith,
      e,
      get_total_delegated_ok k laws actor t w rt pt,
      get_max_cap_limit_ok k laws actor m w rm pm,
      equal_sound denom (k.staking.bond_denom w.env),
      laws.add_coin_ok (k.staking.bond_denom w.env) t a,
      laws.is_lt_ok (k.staking.bond_denom w.env) m (t +ℤ a),
    )

    -- With the laws of the SDK: a delegation of a contract whose stored limit and total are at
    -- least zero, when it succeeds, has an amount above zero, raises the contract's stored total
    -- by exactly that amount, leaves it within the contract's limit, and writes no other key of
    -- the module's two stores.
    pub delegate_bounded :
        (actor val_addr denom : Bytes) (a t m shares : ℤ) (w w' : World E)
        → read_int k.sdk (get (build_total_delegated_amount_key actor) w.store) ≡ some t
        → read_int k.sdk (get (build_max_cap_limit_key actor) w.store) ≡ some m
        → pos 0 ≤ℤ t
        → pos 0 ≤ℤ m
        → delegate k actor val_addr (record { denom = denom; amount = some a }) w ≡ (ok shares, w')
        → (pos 1 ≤ℤ a)
          × (read_int k.sdk (get (build_total_delegated_amount_key actor) w'.store) ≡ some (t +ℤ a))
          × (t +ℤ a ≤ℤ m)
          × ((j : Bytes)
              → j ≢ build_total_delegated_amount_key actor
              → get j w'.store ≡ get j w.store)
          × (w'.mem ≡ w.mem)
    delegate_bounded actor val_addr denom a t m shares w w' rt rm pt pm e =
        let (bz, mt, ut) = laws.int_round_trip (t +ℤ a) in
        let (above, within, written, mem) =
          delegate_writes actor val_addr denom a t m shares w w' rt rm pt pm mt e in
        let key = build_total_delegated_amount_key actor in
        (
          above,
          rw (written, get-set key key bz w.store, equal_refl key) ut,
          within,
          λ j ne.
              rw (written, get-set key j bz w.store, not_equal key j (λ same. ne (sym same))) refl,
          mem,
        )

    -- With the laws of the SDK: for a coin of the staking denomination, with an amount above zero
    -- that the contract's limit allows and a validator that exists, once the coins are minted and
    -- sent and the staking keeper has answered without a panic and with the same denomination,
    -- `Delegate` returns that answer, and the raised total and the other modules' changes are
    -- committed, also if the answer is an error.
    pub delegate_commits :
        (actor val_addr : Bytes) (a t m : ℤ) (w : World E) (v : Validator) (v₁ v₂ v₃ v₄ : Env E)
        (coins : List Coin) (r : Outcome ℤ) {bz : Bytes}
        → let denom = k.staking.bond_denom w.env in
          let amt : Coin = record { denom = denom; amount = a } in
          read_int k.sdk (get (build_total_delegated_amount_key actor) w.store) ≡ some t
          → read_int k.sdk (get (build_max_cap_limit_key actor) w.store) ≡ some m
          → pos 0 ≤ℤ t
          → pos 1 ≤ℤ a
          → t +ℤ a ≤ℤ m
          → k.sdk.marshal_int (t +ℤ a) ≡ ok bz
          → k.staking.get_validator w.env val_addr ≡ some v
          → k.sdk.new_coins amt ≡ ok coins
          → k.bank.mint_coins module_name coins w.env ≡ (ok tt, v₁)
          → k.bank.add_supply_offset denom (pos 0 -ℤ a) v₁ ≡ (ok tt, v₂)
          → k.bank.send_coins_from_module_to_account module_name actor coins v₂ ≡ (ok tt, v₃)
          → k.staking.delegate actor a v v₃ ≡ (r, v₄)
          → r ≢ panic
          → k.staking.bond_denom v₄ ≡ denom
          → delegate k actor val_addr (record { denom = denom; amount = some a }) w ≡ (
            r,
            record w { store = set (build_total_delegated_amount_key actor) bz w.store; env = v₄ },
          )
    unfolding delegate positive_amount delegate_cached set_total_delegated
    delegate_commits actor val_addr a t m w v v₁ v₂ v₃ v₄ coins r {bz} rt rm pt pa fits mt found nc
          mint offset send answer np bond =
        let denom = k.staking.bond_denom w.env in
        ground (
          arith,
          equal_refl denom,
          +ℤ_parts t a,
          get_total_delegated_ok k laws actor t w rt pt,
          get_max_cap_limit_ok k laws actor m w rm (omega int_laws),
          laws.add_coin_ok denom t a,
          laws.is_lt_ok denom m (t +ℤ a),
        )
