-- ===== src/Demo.antt =====
-- The demo application under demo/app.
pub mod Handlers
pub mod Export
pub mod Modules
pub mod Ante
pub mod Upgrades
