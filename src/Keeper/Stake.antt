-- ===== src/Keeper/Stake.antt =====
-- x/meshsecurity/keeper/stake.go: virtual delegation and instant undelegation.
pub mod Bounds
pub mod Release
use research_cosmos.Prelude.{
  Bool, true, false, not, ◌||◌, Option, none, some, List, [], ◌∷◌, if◌then◌else◌,
}
use research_cosmos.Prelude.Int.{ℤ, pos, ◌-ℤ◌, is_zero, is_negative}
use research_cosmos.Bytes.{Bytes, equal}
use research_cosmos.Types.{
  Outcome, ok, err, panic, Error, Coin, CoinArg, Validator, invalid_request, max_cap_exceeded,
  no_validator_found, no_delegation,
}
use research_cosmos.Ctx.{
  World, Env, Call, M, ◌>>=◌, ◌>>◌, pure, fail, lift, gets, or_fail, fail_if, call, in_cache,
  with_gas_of,
}
use research_cosmos.Keeper.{Keeper}
use research_cosmos.Keeper.Caps.{
  bond_denom, get_max_cap_limit, get_total_delegated, set_total_delegated,
}

-- "meshsecurity"
abbrev pub module_name : Bytes
module_name = b'm' ∷ b'e' ∷ b's' ∷ b'h' ∷ b's' ∷ b'e' ∷ b'c' ∷ b'u' ∷ b'r' ∷ b'i' ∷ b't' ∷ b'y' ∷ []

-- `amt.Amount.IsNil() || amt.Amount.IsZero() || amt.Amount.IsNegative()` is refused; the coin that
-- is left has an amount.
unfoldable pub positive_amount : CoinArg → Option Coin
positive_amount amt = elim amt.amount [
  | none ↦ none
  | some a ↦
      if is_zero a || is_negative a then none else some (record { denom = amt.denom; amount = a })
]

module _ {E : Type 0} (k : Keeper E) where
  -- The result of `Staking.Delegate` is kept whether or not it is an error: the records are
  -- updated and the cache is committed in both cases.
  abbrev pub delegated_result : Outcome ℤ × Env E → Outcome (Outcome ℤ) × Env E
  delegated_result (ok shares, v) = (ok (ok shares), v)
  delegated_result (err e, v) = (ok (err e), v)
  delegated_result (panic, v) = (panic, v)

  abbrev pub keep_error : Call E ℤ → Call E (Outcome ℤ)
  keep_error m v = delegated_result (m v)

  -- The part of `Delegate` behind `CacheContext`.
  unfoldable pub delegate_cached : Bytes → Bytes → Validator → Coin → Coin → M E (Outcome ℤ)
  unfolding set_total_delegated
  delegate_cached actor denom validator amt new_total = do
    coins ← lift (k.sdk.new_coins amt)
    call (k.bank.mint_coins module_name coins)
    call (k.bank.add_supply_offset denom (pos 0 -ℤ amt.amount))
    call (k.bank.send_coins_from_module_to_account module_name actor coins)
    result ← call (keep_error (k.staking.delegate actor amt.amount validator))
    set_total_delegated k actor new_total
    pure result

  unfoldable pub delegate : Bytes → Bytes → CoinArg → M E ℤ
  unfolding delegate_cached
  delegate actor val_addr arg = do
    amt ← or_fail (positive_amount arg) invalid_request
    denom ← bond_denom k
    fail_if (not (equal amt.denom denom)) invalid_request
    validator ← or_fail (← gets (λ w. k.staking.get_validator w.env val_addr)) no_validator_found
    delegated ← get_total_delegated k actor
    new_total ← lift (k.sdk.add_coin delegated amt)
    max ← get_max_cap_limit k actor
    exceeded ← lift (k.sdk.is_lt max new_total)
    fail_if exceeded max_cap_exceeded
    result ← in_cache (delegate_cached actor denom validator amt new_total)
    lift result

  -- `ValidateUnbondAmount`: a missing delegation ends the call without an error.
  abbrev pub unless_no_delegation : Outcome ℤ × Env E → Outcome (Option ℤ) × Env E
  unless_no_delegation (ok shares, v) = (ok (some shares), v)
  unless_no_delegation (err no_delegation, v) = (ok none, v)
  unless_no_delegation (err e, v) = (err e, v)
  unless_no_delegation (panic, v) = (panic, v)

  abbrev pub find_shares : Call E ℤ → Call E (Option ℤ)
  find_shares m v = unless_no_delegation (m v)

  -- The rest of `Undelegate`, once the shares are known.
  unfoldable pub release : Bytes → Bytes → Bytes → Coin → ℤ → M E Unit
  unfolding set_total_delegated
  release actor denom val_addr total_delegated shares = do
    undelegated_coins ← call (k.staking.instant_undelegate actor val_addr shares)
    call (k.bank.send_coins_from_account_to_module actor module_name undelegated_coins)
    call (k.bank.burn_coins module_name undelegated_coins)
    unbonded_amount ← lift (k.sdk.new_coin denom (k.sdk.amount_of denom undelegated_coins))
    call (k.bank.add_supply_offset denom unbonded_amount.amount)
    new_delegated_amt ← lift (k.sdk.sub_coin total_delegated unbonded_amount)
    new_amt ←
        if is_negative new_delegated_amt.amount
        then lift (k.sdk.new_coin denom (pos 0))
        else pure new_delegated_amt
    set_total_delegated k actor new_amt

  -- The cache of `Undelegate`: without a delegation it returns before `done()`, and only the
  -- gas that was used is kept.
  abbrev pub undelegate_shares : World E → Bytes → Bytes → Bytes → Coin → Option ℤ → M E Unit
  undelegate_shares parent actor denom val_addr total none w = (ok tt, with_gas_of w parent)
  undelegate_shares parent actor denom val_addr total (some shares) w =
      release actor denom val_addr total shares w

  unfoldable pub undelegate_cached : Bytes → Bytes → Bytes → Coin → M E Unit
  undelegate_cached actor denom val_addr amt parent =
      (do
        total_delegated_amount ← get_total_delegated k actor
        exceeded ← lift (k.sdk.is_lt total_delegated_amount amt)
        fail_if exceeded invalid_request
        shares ← call (find_shares (k.staking.validate_unbond_amount actor val_addr amt.amount))
        undelegate_shares parent actor denom val_addr total_delegated_amount shares)
        parent

  unfoldable pub undelegate : Bytes → Bytes → CoinArg → M E Unit
  unfolding undelegate_cached
  undelegate actor val_addr arg = do
    amt ← or_fail (positive_amount arg) invalid_request
    denom ← bond_denom k
    fail_if (not (equal amt.denom denom)) invalid_request
    in_cache (undelegate_cached actor denom val_addr amt)
