-- ===== src/Keeper/Writes/Stake.antt =====
-- The writes of x/meshsecurity/keeper/stake.go.
use research_cosmos.Prelude.{not, if◌then◌else◌, Bool, Option, none, some, List}
use research_cosmos.Prelude.Int.{ℤ, pos, ◌-ℤ◌, is_negative}
use research_cosmos.Bytes.{Bytes, equal}
use research_cosmos.Types.{
  max_cap_exceeded, no_validator_found, invalid_request, Outcome, Coin, CoinArg, Validator,
}
use research_cosmos.KvStore.{get, set}
use research_cosmos.Ctx.{
  World, Env, M, Call, ◌>>=◌, pure, lift, gets, modify, call, in_cache, with_gas_of, must, or_panic,
  or_fail, fail_if,
}
use research_cosmos.Keys.{build_max_cap_limit_key, build_total_delegated_amount_key}
use research_cosmos.Ctx.Keeps.{
  Keeps, Keeps-bind, Keeps-or_fail, Keeps-or_panic, Keeps-must, Keeps-fail_if, Keeps-if,
  Keeps-in_cache,
}
use research_cosmos.Keeper.{Keeper}
use research_cosmos.Keeper.Caps.{
  bond_denom, decode_int, must_load_int, get_max_cap_limit, get_total_delegated,
  set_total_delegated,
}
use research_cosmos.Keeper.Stake.{
  module_name, positive_amount, delegate_cached, delegate, release, undelegate_shares,
  undelegate_cached, undelegate, keep_error, find_shares,
}

module _ {E : Type 0} (k : Keeper E) (P : World E → Type 0)
    (env : (w : World E) (v : Env E) → P w → P (record w { env = v }))
    (set_total : (w : World E) (c bz : Bytes)
      → P w
      → P (record w { store = set (build_total_delegated_amount_key c) bz w.store })) where
  Keeps-call : {A : Type 0} (m : Call E A) → Keeps P (call m)
  Keeps-call m w h = env w (m w.env).1 h

  Keeps-set_total : (c : Bytes) (coin : Coin) → Keeps P (set_total_delegated k c coin)
  unfolding set_total_delegated
  Keeps-set_total c coin =
      let write : Bytes → M E Unit = λ bz.
        modify (λ w. record w { store = set (build_total_delegated_amount_key c) bz w.store }) in
      let marshal : Unit → M E Unit = λ _. must (k.sdk.marshal_int coin.amount) >>= write in
      let test : Bytes → M E Unit =
        λ denom. or_panic (if equal denom coin.denom then some tt else none) >>= marshal in
      Keeps-bind P (bond_denom k) test (λ w h. h)
        (λ denom.
          Keeps-bind P (or_panic (if equal denom coin.denom then some tt else none)) marshal
            (Keeps-or_panic P (if equal denom coin.denom then some tt else none))
            (λ _.
              Keeps-bind P (must (k.sdk.marshal_int coin.amount)) write
                (Keeps-must P (k.sdk.marshal_int coin.amount)) (λ bz w h. set_total w c bz h)))

  Keeps-must_load_int : (key : Bytes) → Keeps P (must_load_int k key)
  unfolding must_load_int
  Keeps-must_load_int key w h = decoded (get key w.store)
    where
      decoded : (o : Option Bytes) → P (decode_int k o w).1
      decoded none = h
      decoded (some bz) = Keeps-or_panic P (k.sdk.unmarshal_int bz) w h

  pub Keeps-get_max_cap_limit : (c : Bytes) → Keeps P (get_max_cap_limit k c)
  unfolding get_max_cap_limit
  Keeps-get_max_cap_limit c =
      let coin : Bytes → ℤ → M E Coin = λ denom v. lift (k.sdk.new_coin denom v) in
      let load : Bytes → M E Coin =
        λ denom. must_load_int k (build_max_cap_limit_key c) >>= coin denom in
      Keeps-bind P (bond_denom k) load (λ w h. h)
        (λ denom.
          Keeps-bind P (must_load_int k (build_max_cap_limit_key c)) (coin denom)
            (Keeps-must_load_int (build_max_cap_limit_key c)) (λ v w h. h))

  pub Keeps-get_total_delegated : (c : Bytes) → Keeps P (get_total_delegated k c)
  unfolding get_total_delegated
  Keeps-get_total_delegated c =
      let coin : ℤ → Bytes → M E Coin =
        λ v denom. lift (k.sdk.new_coin denom (if is_negative v then pos 0 else v)) in
      let denom : ℤ → M E Coin = λ v. bond_denom k >>= coin v in
      Keeps-bind P (must_load_int k (build_total_delegated_amount_key c)) denom
        (Keeps-must_load_int (build_total_delegated_amount_key c)) (λ v w h. h)

  Keeps-delegate_cached :
      (actor denom : Bytes) (v : Validator) (amt total : Coin)
      → Keeps P (delegate_cached k actor denom v amt total)
  unfolding delegate_cached
  Keeps-delegate_cached actor denom v amt total =
      let Result = Outcome ℤ in
      let stake = call (keep_error k (k.staking.delegate actor amt.amount v)) in
      let offset = call (k.bank.add_supply_offset denom (pos 0 -ℤ amt.amount)) in
      let mint = λ (coins : List Coin). call (k.bank.mint_coins module_name coins) in
      let send = λ (coins : List Coin).
        call (k.bank.send_coins_from_module_to_account module_name actor coins) in
      let record_total : Result → M E Result =
        λ r. set_total_delegated k actor total >>= λ _. pure r in
      let staked : Unit → M E Result = λ _. stake >>= record_total in
      let sent : List Coin → Unit → M E Result = λ coins _. send coins >>= staked in
      let minted : List Coin → Unit → M E Result = λ coins _. offset >>= sent coins in
      let coined : List Coin → M E Result = λ coins. mint coins >>= minted coins in
      Keeps-bind P (lift (k.sdk.new_coins amt)) coined (λ w h. h)
        (λ coins.
          Keeps-bind P (mint coins) (minted coins)
            (Keeps-call (k.bank.mint_coins module_name coins))
            (λ _.
              Keeps-bind P offset (sent coins)
                (Keeps-call (k.bank.add_supply_offset denom (pos 0 -ℤ amt.amount)))
                (λ _.
                  Keeps-bind P (send coins) staked
                    (Keeps-call (k.bank.send_coins_from_module_to_account module_name actor coins))
                    (λ _.
                      Keeps-bind P stake record_total
                        (Keeps-call (keep_error k (k.staking.delegate actor amt.amount v)))
                        (λ r.
                          Keeps-bind P (set_total_delegated k actor total) (λ _. pure r)
                            (Keeps-set_total actor total) (λ _ w h. h))))))

  pub Keeps-delegate :
      (actor val_addr : Bytes) (arg : CoinArg) → Keeps P (delegate k actor val_addr arg)
  unfolding delegate
  Keeps-delegate actor val_addr arg =
      let cached = λ (amt : Coin) (denom : Bytes) (v : Validator) (total : Coin).
        in_cache (delegate_cached k actor denom v amt total) in
      let finish = λ (amt : Coin) (denom : Bytes) (v : Validator) (total : Coin) (u : Unit).
        cached amt denom v total >>= lift in
      let exceeds = λ (amt : Coin) (denom : Bytes) (v : Validator) (total : Coin) (b : Bool).
        fail_if b max_cap_exceeded >>= finish amt denom v total in
      let limit = λ (amt : Coin) (denom : Bytes) (v : Validator) (total max : Coin).
        lift (k.sdk.is_lt max total) >>= exceeds amt denom v total in
      let raise = λ (amt : Coin) (denom : Bytes) (v : Validator) (total : Coin).
        get_max_cap_limit k actor >>= limit amt denom v total in
      let add = λ (amt : Coin) (denom : Bytes) (v : Validator) (delegated : Coin).
        lift (k.sdk.add_coin delegated amt) >>= raise amt denom v in
      let total = λ (amt : Coin) (denom : Bytes) (v : Validator).
        get_total_delegated k actor >>= add amt denom v in
      let found = λ (amt : Coin) (denom : Bytes) (o : Option Validator).
        or_fail o no_validator_found >>= total amt denom in
      let look_up = λ (amt : Coin) (denom : Bytes) (u : Unit).
        gets (λ (w : World E). k.staking.get_validator w.env val_addr) >>= found amt denom in
      let test = λ (amt : Coin) (denom : Bytes).
        fail_if (not (equal amt.denom denom)) invalid_request >>= look_up amt denom in
      let denominate = λ (amt : Coin). bond_denom k >>= test amt in
      Keeps-bind P (or_fail (positive_amount arg) invalid_request) denominate
        (Keeps-or_fail P (positive_amount arg) invalid_request)
        (λ amt.
          Keeps-bind P (bond_denom k) (test amt) (λ w h. h)
            (λ denom.
              Keeps-bind P (fail_if (not (equal amt.denom denom)) invalid_request)
                (look_up amt denom) (Keeps-fail_if P (not (equal amt.denom denom)) invalid_request)
                (λ _.
                  Keeps-bind P (gets (λ w. k.staking.get_validator w.env val_addr))
                    (found amt denom) (λ w h. h)
                    (λ o.
                      Keeps-bind P (or_fail o no_validator_found) (total amt denom)
                        (Keeps-or_fail P o no_validator_found)
                        (λ v.
                          Keeps-bind P (get_total_delegated k actor) (add amt denom v)
                            (Keeps-get_total_delegated actor)
                            (λ delegated.
                              Keeps-bind P (lift (k.sdk.add_coin delegated amt)) (raise amt denom v)
                                (λ w h. h)
                                (λ t.
                                  Keeps-bind P (get_max_cap_limit k actor) (limit amt denom v t)
                                    (Keeps-get_max_cap_limit actor)
                                    (λ max.
                                      Keeps-bind P (lift (k.sdk.is_lt max t))
                                        (exceeds amt denom v t) (λ w h. h)
                                        (λ b.
                                          Keeps-bind P (fail_if b max_cap_exceeded)
                                            (finish amt denom v t)
                                            (Keeps-fail_if P b max_cap_exceeded)
                                            (λ _.
                                              Keeps-bind P (cached amt denom v t) lift
                                                (Keeps-in_cache P
                                                  (delegate_cached k actor denom v amt t) env
                                                  (Keeps-delegate_cached actor denom v amt t))
                                                (λ r w h. h)))))))))))

  Keeps-release :
      (actor denom val_addr : Bytes) (total : Coin) (shares : ℤ)
      → Keeps P (release k actor denom val_addr total shares)
  unfolding release
  Keeps-release actor denom val_addr total shares =
      let undelegate_call = k.staking.instant_undelegate actor val_addr shares in
      let send =
        λ (cs : List Coin). k.bank.send_coins_from_account_to_module actor module_name cs in
      let burn = λ (cs : List Coin). k.bank.burn_coins module_name cs in
      let zero : M E Coin = lift (k.sdk.new_coin denom (pos 0)) in
      let amount = λ (c : Coin). if is_negative c.amount then zero else pure c in
      let write = λ (c : Coin). set_total_delegated k actor c in
      let lowered = λ (c : Coin). amount c >>= write in
      let lower = λ (u : Coin) (_ : Unit). lift (k.sdk.sub_coin total u) >>= lowered in
      let offset = λ (u : Coin). call (k.bank.add_supply_offset denom u.amount) >>= lower u in
      let sum = λ (cs : List Coin) (_ : Unit).
        lift (k.sdk.new_coin denom (k.sdk.amount_of denom cs)) >>= offset in
      let burnt = λ (cs : List Coin) (_ : Unit). call (burn cs) >>= sum cs in
      let sent = λ (cs : List Coin). call (send cs) >>= burnt cs in
      Keeps-bind P (call undelegate_call) sent (Keeps-call undelegate_call) (λ cs.
        Keeps-bind P (call (send cs)) (burnt cs) (Keeps-call (send cs)) (λ _.
          Keeps-bind P (call (burn cs)) (sum cs) (Keeps-call (burn cs)) (λ _.
            Keeps-bind P (lift (k.sdk.new_coin denom (k.sdk.amount_of denom cs))) offset (λ w h. h)
              (λ u.
                Keeps-bind P (call (k.bank.add_supply_offset denom u.amount)) (lower u)
                  (Keeps-call (k.bank.add_supply_offset denom u.amount))
                  (λ _.
                    Keeps-bind P (lift (k.sdk.sub_coin total u)) lowered (λ w h. h)
                      (λ c.
                        Keeps-bind P (amount c) write
                          (Keeps-if P (is_negative c.amount) zero (pure c) (λ w h. h) (λ w h. h))
                          (λ d. Keeps-set_total actor d)))))))

  Keeps-shares :
      (parent : World E) (actor denom val_addr : Bytes) (total : Coin) (o : Option ℤ)
      → P parent
      → Keeps P (undelegate_shares k parent actor denom val_addr total o)
  Keeps-shares parent actor denom val_addr total none hp w h =
      env parent (with_gas_of w parent).env hp
  Keeps-shares parent actor denom val_addr total (some shares) hp w h =
      Keeps-release actor denom val_addr total shares w h

  Keeps-undelegate_cached :
      (actor denom val_addr : Bytes) (amt : Coin)
      → Keeps P (undelegate_cached k actor denom val_addr amt)
  unfolding undelegate_cached
  Keeps-undelegate_cached actor denom val_addr amt parent hp =
      let shares_call =
        find_shares k (k.staking.validate_unbond_amount actor val_addr amt.amount) in
      let last =
        λ (total : Coin) (o : Option ℤ). undelegate_shares k parent actor denom val_addr total o in
      let shares = λ (total : Coin) (_ : Unit). call shares_call >>= last total in
      let exceeds = λ (total : Coin) (b : Bool). fail_if b invalid_request >>= shares total in
      let compare = λ (total : Coin). lift (k.sdk.is_lt total amt) >>= exceeds total in
      Keeps-bind P (get_total_delegated k actor) compare (Keeps-get_total_delegated actor)
        (λ total.
          Keeps-bind P (lift (k.sdk.is_lt total amt)) (exceeds total) (λ w h. h)
            (λ b.
              Keeps-bind P (fail_if b invalid_request) (shares total)
                (Keeps-fail_if P b invalid_request)
                (λ _.
                  Keeps-bind P (call shares_call) (last total) (Keeps-call shares_call)
                    (λ o. Keeps-shares parent actor denom val_addr total o hp))))
        parent hp

  pub Keeps-undelegate :
      (actor val_addr : Bytes) (arg : CoinArg) → Keeps P (undelegate k actor val_addr arg)
  unfolding undelegate
  Keeps-undelegate actor val_addr arg =
      let cached = λ (amt : Coin) (denom : Bytes) (u : Unit).
        in_cache (undelegate_cached k actor denom val_addr amt) in
      let test = λ (amt : Coin) (denom : Bytes).
        fail_if (not (equal amt.denom denom)) invalid_request >>= cached amt denom in
      let denominate = λ (amt : Coin). bond_denom k >>= test amt in
      Keeps-bind P (or_fail (positive_amount arg) invalid_request) denominate
        (Keeps-or_fail P (positive_amount arg) invalid_request)
        (λ amt.
          Keeps-bind P (bond_denom k) (test amt) (λ w h. h)
            (λ denom.
              Keeps-bind P (fail_if (not (equal amt.denom denom)) invalid_request)
                (cached amt denom) (Keeps-fail_if P (not (equal amt.denom denom)) invalid_request)
                (λ _.
                  Keeps-in_cache P (undelegate_cached k actor denom val_addr amt) env
                    (Keeps-undelegate_cached actor denom val_addr amt))))
