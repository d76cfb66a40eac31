-- ===== src/Tests.antt =====
-- Concrete inputs, and the theorems applied to them.
mod Samples
mod Caps
mod Stake
mod Messages
mod Scheduler
mod Blocks
mod Ledger
mod Queries
mod Modules
mod MsgServer
mod Genesis
mod Reports
mod Demo
mod Client
mod Keys
mod Handlers
