-- ===== src/Tests.antt =====
-- The theorems at concrete inputs, and the data that they are applied to.
pub mod Data
mod Services
mod Run
mod Tenants
mod Views
mod System
mod Encryption
mod Seed
mod Periods
mod Support
