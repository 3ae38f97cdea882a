-- ===== src/Domain.antt =====
-- The value types of payroll arithmetic: Python's decimals, and `domain/money.py`.
pub mod Decimal
pub mod Money
