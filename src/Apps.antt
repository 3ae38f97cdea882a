-- ===== src/Apps.antt =====
-- The Django apps below apps/, one module each.
pub mod Accounts
pub mod Audit
pub mod Compensation
pub mod Employees
pub mod Http
pub mod Seed
pub mod Tenants
pub mod Payroll
