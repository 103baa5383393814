-- ===== src/Tests.antt =====
-- Runs of the code on small inputs, and the theorems at concrete inputs.
pub mod World
pub mod Core
mod Again
mod Feed
mod Parts
mod Ledger
mod Sessions
mod Exchange
mod Bootstrap
