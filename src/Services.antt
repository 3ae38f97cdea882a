-- ===== src/Services.antt =====
-- The packages below services/: the pure payroll calculation.
pub mod Payroll
pub mod Observability
pub mod Encryption
