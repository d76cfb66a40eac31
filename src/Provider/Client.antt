-- ===== src/Provider/Client.antt =====
-- x/meshsecurityprovider/client/cli: the test message and the query of the params, as commands.
use research_cosmos.Prelude.{◌≡◌, arith, none, some}
use research_cosmos.Bytes.{Bytes}
use research_cosmos.Types.{Outcome, ok, err, panic, invalid_address}
use research_cosmos.Fallible.{◌>>=◌}
use research_cosmos.AppModule.{succeed_unless}
use research_cosmos.Provider.{ProviderKeeper, ProviderParams, validate_test_msg}

-- `MsgTest.GetSigners`
unfoldable pub get_signer : ProviderKeeper → Bytes → Outcome Bytes
get_signer k sender = elim (k.acc_address_from_bech32 sender) [ none ↦ panic | some a ↦ ok a ]

-- The client context `C`, its sender, the gRPC client of a node, and the output `S`.
pub record ProviderClient (C S : Type 0) : Type 0 where
  pub get_client_tx_context : Outcome C
  pub get_client_query_context : Outcome C
  pub from_address : C → Bytes
  pub acc_string : Bytes → Bytes
  pub params : C → Outcome ProviderParams
  pub generate_or_broadcast : C → Bytes → S → Outcome Unit × S
  pub print_proto : C → ProviderParams → S → Outcome Unit × S

module _ {C S : Type 0} (q : ProviderClient C S) where
  -- The last call of a command, on what the calls before it have made.
  abbrev pub finish :
      {A : Type 0} → (C → A → S → Outcome Unit × S) → Outcome (C × A) → S → Outcome (Unit {0}) × S
  finish last (ok (ctx, a)) s = last ctx a s
  finish last (err e) s = (err e, s)
  finish last panic s = (panic, s)

  -- `RunE` of `NewCmdTest`, by the sender of the message
  unfoldable pub run_test : ProviderKeeper → S → Outcome (Unit {0}) × S
  unfolding validate_test_msg
  run_test k = finish q.generate_or_broadcast (do
    ctx ← q.get_client_tx_context
    u ← succeed_unless (validate_test_msg k (q.acc_string (q.from_address ctx)))
    ok (ctx, q.acc_string (q.from_address ctx)))

  -- `RunE` of `GetCmdQueryParams`
  unfoldable pub query_provider_params : S → Outcome (Unit {0}) × S
  query_provider_params =
      finish q.print_proto (do ctx ← q.get_client_query_context; res ← q.params ctx; ok (ctx, res))

  -- A sender that is no address, for which `GetSigners` would panic, is refused before the message
  -- is sent.
  pub run_test_refused :
      (k : ProviderKeeper) (ctx : C) (s : S)
      → q.get_client_tx_context ≡ ok ctx
      → k.acc_address_from_bech32 (q.acc_string (q.from_address ctx)) ≡ none
      → (run_test k s ≡ (err invalid_address, s))
        × (get_signer k (q.acc_string (q.from_address ctx)) ≡ panic)
  unfolding run_test validate_test_msg get_signer
  run_test_refused k ctx s c bad = (ground (arith, c, bad), ground (arith, bad))
