-- ===== src/Lib.antt =====
-- Mesh Security SDK: the consumer module x/meshsecurity and the provider module x/meshsecurityprovider.
--
-- A contract with a max cap limit may delegate virtual stake up to that limit; the limits of all
-- contracts together stay within a total of the module's params. A scheduler runs tasks of contracts
-- at block heights: a rebalance per epoch, and a report of the changes of the validator set, which
-- are piped through a memory store until the end of the block.
--
-- The model is a shallow embedding. `Ctx.World` is `sdk.Context`: the module's two stores, the events,
-- the height and time, and one value `env` for all that belongs to other modules, with the gas meter.
-- A method is a function `World E → Outcome A × World E`; the outcome is a value, an error or a
-- panic. Without `CacheContext` an error keeps what was written before it, as in the source;
-- `Ctx.in_cache` models `CacheContext`. A Go `int64` or `uint64` is a ℤ or ℕ with the wrap-around
-- written out (`% 2 ^ 64`), a byte is a ℕ with `% 256`.
--
-- Files, and the code that they model (paths from the repository's root):
--   Types, Messages: x/meshsecurity/types (errors, params, task types, operations, events) and
--     x/meshsecurity/contract
--   KvStore, Bytes: the ordered stores behind a store key, prefix iterators, byte strings and words
--   Sdk: foreign pure functions as a record of parameters, with their documented behaviour in `Laws`
--   Ctx, Fallible: the context and the chains of calls over it
--   Keys: x/meshsecurity/types/keys.go
--   Keeper: `Keeper` of x/meshsecurity/keeper/keeper.go and types/expected_keepers.go; its children
--     Params (keeper/params.go, keeper/genesis.go, types/params.go), Caps (keeper/keeper.go),
--     Scheduler and Scheduler/Exec (keeper/scheduler.go), Stake (keeper/stake.go), Piped, Valset and
--     Valset/Report (keeper/valset_updates.go), Hooks (keeper/staking_hooks.go), Adapter
--     (keeper/adapter.go), Messages (keeper/handler_plugin.go, keeper/wasm.go), MsgServer
--     (keeper/msg_server.go, types/tx.go), Queries (keeper/querier.go, keeper/query_plugin.go)
--   Abci: x/meshsecurity/abci.go
--   AppModule: x/meshsecurity/module.go and types/genesis.go
--   Provider: x/meshsecurityprovider (keeper, messages, genesis); Provider/AppModule: its module.go
--   Client: x/meshsecurity/client/cli/gov_tx.go; Client/Queries: client/cli/query.go;
--     Provider/Client: x/meshsecurityprovider/client/cli
--   Demo/Handlers: the message handler chain of demo/app/app.go; Demo/Modules: its module orders and
--     module accounts; Demo/Ante: demo/app/ante.go; Demo/Upgrades: demo/app/upgrades.go;
--     Demo/Export: demo/app/export.go
--   Prelude: names and lemmas that the files share; Tests: concrete inputs
-- The other children hold lemmas and theorems about the file they stand under. Keeper/Writes says
-- once what every call of the module keeps: a predicate of the context that is closed under the
-- module's few kinds of writes. Keeper/Safe has the predicates of that kind, Keeper/Steps the calls
-- of a block as a step relation, and Abci/Blocks the chains of such calls, end blockers and blocks.
-- Keeper/Scheduler/Refines sets the scheduler against an abstract one, and Keeper/Ledger the stores of
-- virtual staking against a ledger of limits and totals per contract, with the effects of calls in
-- Keeper/Ledger/Calls. Ctx/Leads is the rule for calls that lead from one predicate to another.
--
-- Functions and methods keep their names in snake case (`SetMaxCapLimit` is `set_max_cap_limit`). A
-- callback's captured variables are an accumulator that the loop passes on. Loops are structural
-- recursion on the entries of an iterator, which is read as a snapshot of the store at its start;
-- nothing runs on fuel.
--
-- Foreign code is a parameter: the bank, staking and wasm keepers (records in Keeper), the codecs,
-- JSON, bech32, coins and decimals (Sdk). `Keeper.KeeperLaws` adds to the laws of Sdk that the bond
-- denomination is valid. A sudo call runs a contract, which may call back into the module: theorems
-- about the end blocker ask that it does so only by the calls of Keeper/Steps.
--
-- A `math.Int` is a ℤ. The sums of the caps panic beyond 256 bits, as `Int.Add` does; elsewhere that
-- bound is left out. A decimal is its underlying integer. A cached context shares the gas meter of
-- its parent, so that a failed call keeps the gas that it has used.
--
-- Not modelled: logging and telemetry, gas costs of store accesses, the registration of codecs,
-- routes and commands with their help texts, generated protobuf code, the construction of the SDK's
-- keepers and modules in demo/app/app.go, which passes references on, the start-up command
-- demo/cmd/meshd, and the test networks.
pub mod Prelude
pub mod Bytes
pub mod KvStore
pub mod Types
pub mod Messages
pub mod Fallible
pub mod Sdk
pub mod Ctx
pub mod Keys
pub mod Keeper
pub mod Abci
pub mod AppModule
pub mod Client
pub mod Demo
pub mod Provider
mod Tests
