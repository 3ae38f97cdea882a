-- ===== src/Apps/Payroll.antt =====
-- apps/payroll: pay periods, payslips and the run that creates them.
pub mod Run
pub mod Period
pub mod Views
pub mod Amounts
