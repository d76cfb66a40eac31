-- ===== src/Keeper/Messages/Accounted.antt =====
-- The messages that x/meshsecurity/keeper/handler_plugin.go accepts, against the delegated totals of
-- keeper/stake.go.
use research_cosmos.Prelude.{
  Bool, true, false, not, ◌⊎◌, ◌≡◌, ◌≢◌, ap, refl, Option, none, some, List, [], ◌∷◌, arith, inl,
  inr,
}
use research_cosmos.Prelude.Int.{ℤ, pos, ◌+ℤ◌, ◌-ℤ◌, ◌≤ℤ◌, int_laws}
use research_cosmos.Bytes.{Bytes}
use research_cosmos.KvStore.{get, has}
use research_cosmos.Types.{
  Outcome, ok, err, panic, Coin, CoinArg, Event, instant_delegate, instant_unbond, bad_bech32,
  Error, unknown_msg, json_unmarshal, unauthorized,
}
use research_cosmos.Sdk.{Sdk}
use research_cosmos.Messages.{CosmosMsg, BondMsg, UnbondMsg}
use research_cosmos.Ctx.{World, M, ◌>>=◌, ◌>>◌, pure, lift, or_fail, fail_if, continue}
use research_cosmos.Keys.{build_max_cap_limit_key, build_total_delegated_amount_key}
use research_cosmos.Keeper.{Keeper, KeeperLaws}
use research_cosmos.Keeper.Caps.{has_max_cap_limit}
use research_cosmos.Keeper.Caps.Limit.{read_int}
use research_cosmos.Keeper.Stake.{delegate, undelegate}
use research_cosmos.Keeper.Stake.Bounds.{delegate_bounded}
use research_cosmos.Keeper.Stake.Release.{undelegate_bounded}
use research_cosmos.Keeper.Messages.{
  new_default_custom_msg_handler, handle_bond_msg, handle_unbond_msg, handle_virtual_stake,
  dispatch_msg,
}

abbrev coin_arg : Coin → CoinArg
coin_arg c = record { denom = c.denom; amount = some c.amount }

module _ {E : Type 0} where
  -- A call behind which only the events are returned.
  abbrev Returned : {A : Type 0} → Outcome A × World E → List Event → List Event → World E → Type 0
  Returned {A} r told es w' = (a : A) × (r ≡ (ok a, w')) × (es ≡ told)

  returns :
      {A : Type 0} (r : Outcome A) (u : World E) (told es : List Event) (w' : World E)
      → continue r (λ a. pure told) u ≡ (ok es, w')
      → Returned (r, u) told es w'
  returns (ok a) u told es w' e = (a, cc, cc)
  returns (err x) u told es w' e = absurd cc
  returns panic u told es w' e = absurd cc

  -- What the two handlers share: the coin and the validator are read, and a call is made with them.
  abbrev handler :
      {A : Type 0}
      → Outcome Coin
      → Option Bytes
      → (Bytes → Coin → M E A)
      → (Bytes → Coin → Event)
      → M E (List Event)
  handler r o act told = do
    coin ← lift r
    val_addr ← or_fail o bad_bech32
    act val_addr coin
    pure (told val_addr coin ∷ [])

  handled :
      {A : Type 0} (r : Outcome Coin) (o : Option Bytes) (act : Bytes → Coin → M E A)
      (told : Bytes → Coin → Event) (es : List Event) (w w' : World E)
      → handler r o act told w ≡ (ok es, w')
      → (coin : Coin) × (val_addr : Bytes) × Returned
          (act val_addr coin w)
          (told val_addr coin ∷ [])
          es
          w'
  handled (ok coin) (some val_addr) act told es w w' e =
      let r = act val_addr coin w in
      (coin, val_addr, returns r.0 r.1 (told val_addr coin ∷ []) es w' e)
  handled (ok coin) none act told es w w' e = absurd cc
  handled (err x) o act told es w w' e = absurd cc
  handled panic o act told es w w' e = absurd cc

  past_or_fail :
      {A B : Type 0} (o : Option A) (x : Error) (f : A → M E B) (b : B) (w w' : World E)
      → (or_fail o x >>= f) w ≡ (ok b, w')
      → (a : A) × (f a w ≡ (ok b, w'))
  past_or_fail none x f b w w' e = absurd cc
  past_or_fail (some a) x f b w w' e = (a, e)

  past_fail_if :
      {B : Type 0} (refused : Bool) (x : Error) (n : M E B) (b : B) (w w' : World E)
      → (fail_if refused x >> n) w ≡ (ok b, w')
      → (refused ≡ false) × (n w ≡ (ok b, w'))
  past_fail_if true x n b w w' e = absurd cc
  past_fail_if false x n b w w' e = (refl, e)

module _ {E : Type 0} (k : Keeper E) (c : Bytes) (w w' : World E) where
  -- The bond or unbond behind a message that was accepted.
  abbrev Bonded : List Event → Type 0
  Bonded es =
      (coin : Coin) × (val_addr : Bytes) × Returned (delegate k c val_addr (coin_arg coin) w)
        (instant_delegate (k.sdk.val_string val_addr) coin (k.sdk.acc_string c) ∷ []) es w'

  abbrev Unbonded : List Event → Type 0
  Unbonded es =
      (coin : Coin) × (val_addr : Bytes) × Returned (undelegate k c val_addr (coin_arg coin) w)
        (instant_unbond (k.sdk.val_string val_addr) coin (k.sdk.acc_string c) ∷ []) es w'

  virtual_stake :
      (bond : Option BondMsg) (unbond : Option UnbondMsg) (es : List Event)
      → handle_virtual_stake (new_default_custom_msg_handler k) c bond unbond w ≡ (ok es, w')
      → Bonded es ⊎ Unbonded es
  unfolding handle_bond_msg handle_unbond_msg new_default_custom_msg_handler
  virtual_stake (some b) u es e = inl (
      handled (k.sdk.convert_wasm_coin_to_sdk_coin b.amount)
        (k.sdk.val_address_from_bech32 b.validator) (λ v coin. delegate k c v (coin_arg coin))
        (λ v coin. instant_delegate (k.sdk.val_string v) coin (k.sdk.acc_string c)) es w w' e)
  virtual_stake none (some u) es e = inr (
      handled (k.sdk.convert_wasm_coin_to_sdk_coin u.amount)
        (k.sdk.val_address_from_bech32 u.validator) (λ v coin. undelegate k c v (coin_arg coin))
        (λ v coin. instant_unbond (k.sdk.val_string v) coin (k.sdk.acc_string c)) es w w' e)
  virtual_stake none none es e = absurd cc

  accepted :
      (msg : CosmosMsg) (es : List Event)
      → dispatch_msg (new_default_custom_msg_handler k) c msg w ≡ (ok es, w')
      → (has (build_max_cap_limit_key c) w.store ≡ true) × (Bonded es ⊎ Unbonded es)
  unfolding dispatch_msg new_default_custom_msg_handler has_max_cap_limit
  accepted msg es e =
      let (custom, e₁) = past_or_fail msg.custom unknown_msg _ es w w' e in
      let (custom_msg, e₂) =
        past_or_fail (k.sdk.unmarshal_custom_msg custom) json_unmarshal _ es w w' e₁ in
      let (stake, e₃) = past_or_fail custom_msg.virtual_stake unknown_msg _ es w w' e₂ in
      let (authorized, e₄) =
        past_fail_if (not (has (build_max_cap_limit_key c) w.store)) unauthorized _ es w w' e₃ in
      (ground arith, virtual_stake stake.bond stake.unbond es e₄)

-- What a contract's events say of its delegated total, which was `t` and which `total` reads, within
-- the limit `m`.
pub data Accounted (sdk : Sdk) (c : Bytes) (total : Option ℤ) (t m : ℤ) : List Event → Type 0 where
  bonded :
      (val_addr : Bytes) (coin : Coin)
      → pos 1 ≤ℤ coin.amount
      → t +ℤ coin.amount ≤ℤ m
      → total ≡ some (t +ℤ coin.amount)
      → Accounted sdk c total t m
          (instant_delegate (sdk.val_string val_addr) coin (sdk.acc_string c) ∷ [])
  unbonded :
      (val_addr : Bytes) (coin : Coin) (t' : ℤ)
      → pos 1 ≤ℤ coin.amount
      → coin.amount ≤ℤ t
      → pos 0 ≤ℤ t'
      → t' ≤ℤ t
      → total ≡ some t'
      → Accounted sdk c total t m
          (instant_unbond (sdk.val_string val_addr) coin (sdk.acc_string c) ∷ [])

-- Nothing but the contract's total has changed in the module's stores.
abbrev pub OnlyTotal : {E : Type 0} → Bytes → World E → World E → Type 0
OnlyTotal c w w' =
    ((j : Bytes) → j ≢ build_total_delegated_amount_key c → get j w'.store ≡ get j w.store)
    × (w'.mem ≡ w.mem)

module _ {E : Type 0} (k : Keeper E) (laws : KeeperLaws k) (c : Bytes) (t m : ℤ) (w w' : World E)
    (read_total : read_int k.sdk (get (build_total_delegated_amount_key c) w.store) ≡ some t)
    (read_limit : read_int k.sdk (get (build_max_cap_limit_key c) w.store) ≡ some m)
    (nonneg : pos 0 ≤ℤ t) where
  abbrev new_total : Option ℤ
  new_total = read_int k.sdk (get (build_total_delegated_amount_key c) w'.store)

  bond-Accounted :
      (es : List Event)
      → pos 0 ≤ℤ m
      → Bonded k c w w' es
      → Accounted k.sdk c new_total t m es × OnlyTotal c w w'
  bond-Accounted es limit_nonneg (coin, val_addr, (shares, e, told)) =
      let (above, raised, within, others, mem) =
        delegate_bounded k laws c val_addr coin.denom coin.amount t m shares w w' read_total
          read_limit nonneg limit_nonneg e in
      (rw told (bonded val_addr coin above within raised), (others, mem))

  unbond-Accounted :
      (es : List Event)
      → Unbonded k c w w' es
      → Accounted k.sdk c new_total t m es × OnlyTotal c w w'
  unbond-Accounted es (coin, val_addr, (done, e, told)) =
      let (above, below, change) =
        undelegate_bounded k laws c val_addr coin.denom coin.amount t w w' read_total nonneg e in
      elim change [
        | inl (missing, same) ↦
            let store = ap (λ (u : World E). u.store) same in
            (
              rw told (
                  unbonded val_addr coin t above below nonneg (omega int_laws)
                    (rw store read_total)),
              (λ j other. rw store refl, ap (λ (u : World E). u.mem) same),
            )
        | inr (shares, known, (coins, given, returned, at_most, lowered, others, mem)) ↦ (
          rw told (
              unbonded val_addr coin (t -ℤ k.sdk.amount_of (k.staking.bond_denom w.env) coins) above
                below (omega (int_laws, at_most)) (omega (int_laws, returned)) lowered),
          (others, mem),
        )
      ]

  -- With the laws of the SDK, for a contract whose stored total and limit can be read and are at
  -- least zero: a message of the contract that the default handler accepts returns exactly one
  -- event. It is a delegation of a coin with an amount above zero, by which the contract's total
  -- has been raised and is still within the limit; or it is an unbonding of a coin with an amount
  -- above zero and at most the total, and the total has not grown or fallen below zero. The event
  -- names the contract. No other key of the module's stores has changed, and the contract has a
  -- stored limit.
  pub dispatch_msg-Accounted :
      (msg : CosmosMsg) (es : List Event)
      → pos 0 ≤ℤ m
      → dispatch_msg (new_default_custom_msg_handler k) c msg w ≡ (ok es, w')
      → (has (build_max_cap_limit_key c) w.store ≡ true)
        × Accounted k.sdk c new_total t m es
        × OnlyTotal c w w'
  dispatch_msg-Accounted msg es limit_nonneg e =
      let (limited, call) = accepted k c w w' msg es e in
      let (accounted, only) : Accounted k.sdk c new_total t m es × OnlyTotal c w w' = elim call [
        | inl bond ↦ bond-Accounted es limit_nonneg bond
        | inr unbond ↦ unbond-Accounted es unbond
      ] in
      (limited, accounted, only)
