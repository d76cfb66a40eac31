-- ===== src/Client/Queries.antt =====
-- x/meshsecurity/client/cli/query.go: the commands that ask a node for limits and params.
use research_cosmos.Prelude.{◌≡◌, refl, Option, none, some, List, [], ◌∷◌}
use research_cosmos.Bytes.{Bytes}
use research_cosmos.Types.{Outcome, ok, err, panic, Params, bad_bech32}
use research_cosmos.Fallible.{◌>>=◌}
use research_cosmos.Ctx.{World}
use research_cosmos.Keeper.{Keeper, KeeperLaws}
use research_cosmos.Keeper.Ledger.{Ledger, IsLedgerOf}
use research_cosmos.Keeper.Queries.{MaxCapLimitResponse, MaxCapInfo, virtual_staking_max_cap_limit}
use research_cosmos.Keeper.Queries.Shown.{grpc_shows_ledger}

-- What `PrintProto` is given.
pub data Answer : Type 0 where
  limit_answer : MaxCapLimitResponse → Answer
  limits_answer : List MaxCapInfo → Answer
  params_answer : Params → Answer

-- The client context `C`, the gRPC client of a node, and the output `S`.
pub record QueryClient (C S : Type 0) : Type 0 where
  pub get_client_query_context : Outcome C
  pub acc_address_from_bech32 : Bytes → Option Bytes
  pub virtual_staking_max_cap_limit : C → Bytes → Outcome MaxCapLimitResponse
  pub virtual_staking_max_cap_limits : C → Outcome (List MaxCapInfo)
  pub params : C → Outcome Params
  pub print_proto : C → Answer → S → Outcome Unit × S

module _ {C S : Type 0} (q : QueryClient C S) where
  abbrev pub parsed : Option Bytes → Outcome Unit
  parsed none = err bad_bech32
  parsed (some a) = ok tt

  abbrev pub print : Outcome (C × Answer) → S → Outcome (Unit {0}) × S
  print (ok (ctx, answer)) s = q.print_proto ctx answer s
  print (err e) s = (err e, s)
  print panic s = (panic, s)

  -- `args[0]` panics out of range; the command has exactly one argument.
  abbrev pub first_arg : List Bytes → Outcome Bytes
  first_arg [] = panic
  first_arg (a ∷ rest) = ok a

  -- `RunE` of `GetCmdQueryMaxCapLimit`
  unfoldable pub query_max_cap_limit : List Bytes → S → Outcome (Unit {0}) × S
  query_max_cap_limit args = print (do
    ctx ← q.get_client_query_context
    address ← first_arg args
    u ← parsed (q.acc_address_from_bech32 address)
    res ← q.virtual_staking_max_cap_limit ctx address
    ok (ctx, limit_answer res))

  -- `RunE` of `GetCmdQueryMaxCapLimits`
  unfoldable pub query_max_cap_limits : S → Outcome (Unit {0}) × S
  query_max_cap_limits = print (do
    ctx ← q.get_client_query_context
    res ← q.virtual_staking_max_cap_limits ctx
    ok (ctx, limits_answer res))

  -- `RunE` of `GetCmdQueryParams`
  unfoldable pub query_params : S → Outcome (Unit {0}) × S
  query_params =
      print (do ctx ← q.get_client_query_context; res ← q.params ctx; ok (ctx, params_answer res))

  -- An argument that is no address is refused before the node is asked, and nothing is printed.
  refused_address :
      (ctx : C) (address : Bytes) (s : S)
      → q.get_client_query_context ≡ ok ctx
      → q.acc_address_from_bech32 address ≡ none
      → query_max_cap_limit (address ∷ []) s ≡ (err bad_bech32, s)
  unfolding query_max_cap_limit
  refused_address ctx address s c a = rw (c, a) refl

  -- With the laws of the SDK, and a node that answers with the keeper's query on a store that shows
  -- a ledger: for a text that is a contract's address, `GetCmdQueryMaxCapLimit` prints the
  -- contract's limit and delegated total in that ledger, in the staking denomination.
  pub query_max_cap_limit_lem :
      {E : Type 0} (k : Keeper E)
      → KeeperLaws k
      → (w : World E) {l : Ledger} (ctx : C) (address c : Bytes) (s : S)
      → IsLedgerOf k.sdk w.store l
      → k.sdk.acc_address_from_bech32 address ≡ some c
      → q.get_client_query_context ≡ ok ctx
      → q.acc_address_from_bech32 address ≡ k.sdk.acc_address_from_bech32 address
      → q.virtual_staking_max_cap_limit ctx address ≡ (virtual_staking_max_cap_limit k address w).0
      → query_max_cap_limit (address ∷ []) s
        ≡ q.print_proto ctx
            (limit_answer (record {
              cap = record { denom = k.staking.bond_denom w.env; amount = l.limit c };
              delegated = record { denom = k.staking.bond_denom w.env; amount = l.total c };
            }))
            s
  unfolding query_max_cap_limit
  query_max_cap_limit_lem k laws w ctx address c s h found context same answered =
      rw (context, same, found, answered, grpc_shows_ledger k laws w address c h found) refl
