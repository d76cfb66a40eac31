-- ===== src/Demo/Ante/Order.antt =====
-- Which options `NewAnteHandler` of demo/app/ante.go needs, and the order of its decorators.
use research_cosmos.Prelude.{
  ◌≡◌, refl, ◌⊎◌, inl, inr, Bool, true, false, not, ◌&&◌, Option, none, some, List, [], ◌∷◌,
  if◌then◌else◌,
}
use research_cosmos.Types.{Error, ok, err}
use research_cosmos.Demo.Ante.{
  HandlerOptions, AnteDecorator, set_up_context, set_pub_key, validate_sig_count, sig_gas_consume,
  sig_verification, increment_sequence, new_ante_handler, set_ante_handler,
}

module _ {R : Type 0} where
  -- The decorators that look at signatures, and the one that sets the keys for them.
  abbrev pub checks_signatures : AnteDecorator R → Bool
  checks_signatures (validate_sig_count a) = true
  checks_signatures (sig_gas_consume a c) = true
  checks_signatures (sig_verification a s) = true
  checks_signatures (increment_sequence a) = true
  checks_signatures _ = false

  abbrev pub sets_pub_key : AnteDecorator R → Bool
  sets_pub_key (set_pub_key a) = true
  sets_pub_key _ = false

  -- Behind the first decorator that sets the keys, or before it: no check of signatures before.
  abbrev pub keys_before_signatures : List (AnteDecorator R) → Bool
  keys_before_signatures [] = true
  keys_before_signatures (d ∷ ds) =
      let rest = keys_before_signatures ds in
      if sets_pub_key d then true else not (checks_signatures d) && rest

  abbrev pub starts_with_context : List (AnteDecorator R) → Bool
  starts_with_context (set_up_context ∷ ds) = true
  starts_with_context _ = false

  abbrev pub verifies_signatures : List (AnteDecorator R) → Bool
  verifies_signatures [] = false
  verifies_signatures (sig_verification a s ∷ ds) = true
  verifies_signatures (d ∷ ds) = verifies_signatures ds

  abbrev pub is_set : Option R → Bool
  is_set none = false
  is_set (some r) = true

  -- Every required reference is there.
  abbrev pub has_required : HandlerOptions R → Bool
  has_required o =
      is_set o.account_keeper
      && is_set o.bank_keeper
      && is_set o.sign_mode_handler
      && is_set o.wasm_config
      && is_set o.tx_counter_store_key

  module _ {H : Type 0} (err_logic : Error) (chain : List (AnteDecorator R) → H) where
    -- Either a handler is made, and then in a good order, or a reference is missing.
    abbrev Answer : HandlerOptions R → Type 0
    Answer o =
        ((has_required o ≡ true)
          × ((ds : List (AnteDecorator R)) × (new_ante_handler err_logic chain o ≡ ok (chain ds))
              × (starts_with_context ds ≡ true)
              × (keys_before_signatures ds ≡ true)
              × (verifies_signatures ds ≡ true)))
        ⊎ ((has_required o ≡ false) × (new_ante_handler err_logic chain o ≡ err err_logic))

    answer :
        (account bank sign wasm counter checker feegrant gas fee ibc : Option R)
        → Answer (record {
          account_keeper = account;
          bank_keeper = bank;
          extension_option_checker = checker;
          feegrant_keeper = feegrant;
          sign_mode_handler = sign;
          sig_gas_consumer = gas;
          tx_fee_checker = fee;
          ibc_keeper = ibc;
          wasm_config = wasm;
          tx_counter_store_key = counter;
        })
    unfolding new_ante_handler
    answer none b s w c x1 x2 x3 x4 x5 = inr (refl, refl)
    answer (some a) none s w c x1 x2 x3 x4 x5 = inr (refl, refl)
    answer (some a) (some b) none w c x1 x2 x3 x4 x5 = inr (refl, refl)
    answer (some a) (some b) (some s) none c x1 x2 x3 x4 x5 = inr (refl, refl)
    answer (some a) (some b) (some s) (some w) none x1 x2 x3 x4 x5 = inr (refl, refl)
    answer (some a) (some b) (some s) (some w) (some c) x1 x2 x3 x4 x5 =
        inl (refl, (_, refl, refl, refl, refl))

    -- If the account and bank keepers, the sign mode handler, the wasm config and the store key of
    -- the counter are there, `NewAnteHandler` returns a chain of decorators that starts with the
    -- one that sets up the context, verifies signatures, and sets the public keys before any
    -- decorator that looks at signatures; if one of them is missing it fails.
    pub new_ante_handler_lem :
        (o : HandlerOptions R)
        → ((has_required o ≡ true)
            × ((ds : List (AnteDecorator R)) × (new_ante_handler err_logic chain o ≡ ok (chain ds))
                × (starts_with_context ds ≡ true)
                × (keys_before_signatures ds ≡ true)
                × (verifies_signatures ds ≡ true)))
          ⊎ ((has_required o ≡ false) × (new_ante_handler err_logic chain o ≡ err err_logic))
    new_ante_handler_lem o =
        answer o.account_keeper o.bank_keeper o.sign_mode_handler o.wasm_config
          o.tx_counter_store_key o.extension_option_checker o.feegrant_keeper o.sig_gas_consumer
          o.tx_fee_checker o.ibc_keeper

    -- So the application's start does not panic at this point, whatever the references are.
    pub set_ante_handler_ok :
        (account bank sign_mode feegrant sig_gas ibc wasm_config counter_key : R)
        → (ds : List (AnteDecorator R)) × (set_ante_handler err_logic chain account bank sign_mode
              feegrant sig_gas ibc wasm_config counter_key
            ≡ ok (chain ds))
          × (starts_with_context ds ≡ true)
          × (keys_before_signatures ds ≡ true)
          × (verifies_signatures ds ≡ true)
    unfolding set_ante_handler
    set_ante_handler_ok account bank sign_mode feegrant sig_gas ibc wasm_config counter_key =
        (_, refl, refl, refl, refl)
