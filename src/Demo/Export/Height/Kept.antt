-- ===== src/Demo/Export/Height/Kept.antt =====
-- A preparation of demo/app/export.go ends at the block height at which it began.
use research_cosmos.Prelude.{ℕ, ◌≡◌, refl, List}
use research_cosmos.Bytes.{Bytes}
use research_cosmos.Types.{ok}
use research_cosmos.Ctx.{World, M, ◌>>=◌, gets, modify}
use research_cosmos.Ctx.Keeps.{Keeps}
use research_cosmos.Ctx.Leads.{OnSuccess, Leads, Keeps-Leads, Leads-bind}
use research_cosmos.Demo.Export.{
  Delegation, ExportKeepers, for_each, check_allowed, withdraw_commission, withdraw_rewards,
  reinitialize_validator, reinitialize_delegation, prep_for_zero_height_genesis,
}
use research_cosmos.Demo.Export.Height.{
  Keeps-for_each, Keeps-check_allowed, Keeps-withdraw_commission, Keeps-withdraw_rewards,
  Keeps-reinitialize_validator, Keeps-reinitialize_delegation, last_part, Keeps-last_part,
  KeepsHeight,
}

module _ {E : Type 0} (k : ExportKeepers E) (keeps : (n : ℕ) → KeepsHeight k n)
    (allowed : List Bytes) (n : ℕ) where
  abbrev AtHeight : ℕ → World E → Type 0
  AtHeight m w = w.height ≡ m

  -- From height zero on, and then from the other height on.
  abbrev set_back : ℕ → Unit {0} → M E (Unit {0})
  set_back height _ = modify (λ w. record w { height = height }) >>= λ _. last_part k allowed

  abbrev delegations : List Delegation → ℕ → Unit {0} → M E (Unit {0})
  delegations dels height _ = for_each (reinitialize_delegation k) dels >>= set_back height

  abbrev at_zero : List Delegation → ℕ → M E Unit
  at_zero dels height = modify (λ w. record w { height = 0 }) >>= λ _.
      gets k.validators >>= λ vs. for_each (reinitialize_validator k) vs >>= delegations dels height

  at_zero-Leads : (dels : List Delegation) → Leads (AtHeight n) (AtHeight n) (at_zero dels n)
  at_zero-Leads dels w h =
      let zero = record w { height = 0 } in
      Leads-bind (AtHeight 0) (AtHeight 0) (AtHeight n)
        (for_each (reinitialize_validator k) (k.validators zero)) (delegations dels n)
        (Keeps-Leads (AtHeight 0) (for_each (reinitialize_validator k) (k.validators zero)) (
          Keeps-for_each (AtHeight 0) (reinitialize_validator k) (k.validators zero)
            (Keeps-reinitialize_validator k 0 (keeps 0))))
        (λ _.
          Leads-bind (AtHeight 0) (AtHeight 0) (AtHeight n)
            (for_each (reinitialize_delegation k) dels) (set_back n)
            (Keeps-Leads (AtHeight 0) (for_each (reinitialize_delegation k) dels) (
              Keeps-for_each (AtHeight 0) (reinitialize_delegation k) dels
                (Keeps-reinitialize_delegation k 0 (keeps 0))))
            (λ _ v i.
              Keeps-Leads (AtHeight n) (last_part k allowed) (Keeps-last_part k n (keeps n) allowed)
                (record v { height = n }) refl))
        zero refl

  abbrev rewards : List Delegation → Unit {0} → M E (Unit {0})
  rewards dels _ = k.delete_all_validator_historical_rewards >>= λ _.
      gets (λ w. w.height) >>= λ height. at_zero dels height

  abbrev slash_events : List Delegation → Unit {0} → M E (Unit {0})
  slash_events dels _ = k.delete_all_validator_slash_events >>= rewards dels

  abbrev withdrawals : Unit {0} → M E (Unit {0})
  withdrawals _ = gets k.get_all_delegations >>= λ dels.
      for_each (withdraw_rewards k) dels >>= slash_events dels

  abbrev commissions : Unit {0} → M E (Unit {0})
  commissions _ = gets k.validators >>= λ vs. for_each (withdraw_commission k) vs >>= withdrawals

  -- One more call at the height, before others that lead back to it.
  then_Leads :
      {A : Type 0} (m : M E A) (f : A → M E Unit)
      → Keeps (AtHeight n) m
      → ((a : A) → Leads (AtHeight n) (AtHeight n) (f a))
      → Leads (AtHeight n) (AtHeight n) (m >>= f)
  then_Leads m f hm hf =
      Leads-bind (AtHeight n) (AtHeight n) (AtHeight n) m f (Keeps-Leads (AtHeight n) m hm) hf

  withdrawals-Leads : Leads (AtHeight n) (AtHeight n) (withdrawals tt)
  withdrawals-Leads w h =
      let dels = k.get_all_delegations w in
      then_Leads (for_each (withdraw_rewards k) dels) (slash_events dels)
        (Keeps-for_each (AtHeight n) (withdraw_rewards k) dels
          (Keeps-withdraw_rewards k n (keeps n)))
        (λ _.
          then_Leads k.delete_all_validator_slash_events (rewards dels)
            (keeps n).delete_all_validator_slash_events
            (λ _.
              then_Leads k.delete_all_validator_historical_rewards
                (λ _. gets (λ w. w.height) >>= λ height. at_zero dels height)
                (keeps n).delete_all_validator_historical_rewards
                (λ _ v i. rw i (at_zero-Leads dels v i))))
        w h

  -- A preparation that succeeds ends at the height at which it began.
  pub height_kept :
      (w v : World E)
      → w.height ≡ n
      → prep_for_zero_height_genesis k allowed w ≡ (ok tt, v)
      → v.height ≡ n
  unfolding prep_for_zero_height_genesis
  height_kept w v h e =
      let leads : Leads (AtHeight n) (AtHeight n) (prep_for_zero_height_genesis k allowed) =
        then_Leads (check_allowed k allowed) (λ _. k.assert_invariants >>= commissions)
          (Keeps-check_allowed k n (keeps n) allowed)
          (λ _. then_Leads k.assert_invariants commissions (keeps n).assert_invariants (λ _ u i.
            then_Leads (for_each (withdraw_commission k) (k.validators u)) withdrawals
              (Keeps-for_each (AtHeight n) (withdraw_commission k) (k.validators u)
                (Keeps-withdraw_commission k n (keeps n)))
              (λ _. withdrawals-Leads) u i)) in
      let after : OnSuccess (AtHeight n) (prep_for_zero_height_genesis k allowed w) = leads w h in
      rw e at after
