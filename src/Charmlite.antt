-- ===== src/Charmlite.antt =====
-- archive/charmlite: a small message-driven runtime over Converse, one module per header.
pub mod Destination
pub mod Message
pub mod Tables
pub mod Locmgr
pub mod Collective
pub mod Core
pub mod Proxy
pub mod Reduction
mod Tests
mod CoreTests
