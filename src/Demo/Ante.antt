-- ===== src/Demo/Ante.antt =====
-- demo/app/ante.go: the chain of decorators that a transaction passes before its messages run.
pub mod Order
use research_cosmos.Prelude.{Option, none, some, List, [], ◌∷◌}
use research_cosmos.Types.{Error, Outcome, ok, err, panic}
use research_cosmos.Fallible.{◌>>=◌}
use research_cosmos.AppModule.{or_die}

-- `HandlerOptions`, whose fields are references to other modules' objects (`R`) that may be nil.
pub record HandlerOptions (R : Type 0) : Type 0 where
  pub account_keeper : Option R
  pub bank_keeper : Option R
  pub extension_option_checker : Option R
  pub feegrant_keeper : Option R
  pub sign_mode_handler : Option R
  pub sig_gas_consumer : Option R
  pub tx_fee_checker : Option R
  pub ibc_keeper : Option R
  pub wasm_config : Option R
  pub tx_counter_store_key : Option R

-- The decorators of the SDK, wasmd and ibc-go, with the references that they are given.
pub data AnteDecorator (R : Type 0) : Type 0 where
  set_up_context : AnteDecorator R
  limit_simulation_gas : R → AnteDecorator R
  count_tx : R → AnteDecorator R
  extension_options : Option R → AnteDecorator R
  validate_basic_decorator : AnteDecorator R
  tx_timeout_height : AnteDecorator R
  validate_memo : R → AnteDecorator R
  consume_gas_for_tx_size : R → AnteDecorator R
  deduct_fee : R → R → Option R → Option R → AnteDecorator R
  set_pub_key : R → AnteDecorator R
  validate_sig_count : R → AnteDecorator R
  sig_gas_consume : R → Option R → AnteDecorator R
  sig_verification : R → R → AnteDecorator R
  increment_sequence : R → AnteDecorator R
  redundant_relay : Option R → AnteDecorator R

-- `if ref == nil { return nil, err }`
abbrev pub require : {R : Type 0} → Error → Option R → Outcome R
require e none = err e
require e (some r) = ok r

-- `NewAnteHandler`, with `sdk.ChainAnteDecorators` and the error `ErrLogic` of the SDK
unfoldable pub new_ante_handler :
    {R H : Type 0} → Error → (List (AnteDecorator R) → H) → HandlerOptions R → Outcome H
new_ante_handler err_logic chain_ante_decorators options = do
  account ← require err_logic options.account_keeper
  bank ← require err_logic options.bank_keeper
  sign_mode ← require err_logic options.sign_mode_handler
  wasm_config ← require err_logic options.wasm_config
  counter_key ← require err_logic options.tx_counter_store_key
  ok (
      chain_ante_decorators (
        set_up_context
        ∷ limit_simulation_gas wasm_config
        ∷ count_tx counter_key
        ∷ extension_options options.extension_option_checker
        ∷ validate_basic_decorator
        ∷ tx_timeout_height
        ∷ validate_memo account
        ∷ consume_gas_for_tx_size account
        ∷ deduct_fee account bank options.feegrant_keeper options.tx_fee_checker
        ∷ set_pub_key account
        ∷ validate_sig_count account
        ∷ sig_gas_consume account options.sig_gas_consumer
        ∷ sig_verification account sign_mode
        ∷ increment_sequence account
        ∷ redundant_relay options.ibc_keeper
        ∷ []))

-- `setAnteHandler` of demo/app/app.go: the references of the application's keepers and configs; an
-- error panics.
unfoldable pub set_ante_handler :
    {R H : Type 0}
    → Error
    → (List (AnteDecorator R) → H)
    → (account bank sign_mode feegrant sig_gas ibc wasm_config counter_key : R) → Outcome H
unfolding new_ante_handler
set_ante_handler err_logic chain account bank sign_mode feegrant sig_gas ibc wasm_config
      counter_key =
    or_die (
      new_ante_handler err_logic chain (record {
        account_keeper = some account;
        bank_keeper = some bank;
        extension_option_checker = none;
        feegrant_keeper = some feegrant;
        sign_mode_handler = some sign_mode;
        sig_gas_consumer = some sig_gas;
        tx_fee_checker = none;
        ibc_keeper = some ibc;
        wasm_config = some wasm_config;
        tx_counter_store_key = some counter_key;
      }))
