-- ===== src/Lib.antt =====
-- Payroll software: a multi-tenant payroll system on Django. This library models its logic.
--
-- The pure calculation of a payslip (services/payroll/calculator.py) is Services/Payroll. It
-- computes with Python's decimals, which Domain/Decimal models at the default context of 28 digits;
-- Base/Int has the integers for the coefficients. The sign of zero and the limits on exponents are
-- left out. Counting the digits of n takes n rounds at most, each of which drops a digit.
-- Database has the tables of all apps as lists of records, and the two ContextVars.
-- Apps/Payroll/Run is apps/payroll/services.py: run_payroll_for_period deletes the payslips of a
-- period and makes new ones, in a transaction; Run/Due is what it owes as a function of the
-- employees, and Run/Loop and Run/Refines relate the two; Run/Logged is about the audit log, and
-- Run/Order about the sorting of rows. Apps/Payroll/Period is PayPeriod.save of
-- apps/payroll/models.py; Apps/Payroll/Views is apps/payroll/views.py and forms.py. Apps/Http has
-- requests, responses and the gates in front of the views. Apps/Tenants is apps/tenants: hosts,
-- middleware, scoped managers; its child Rls is apps/payroll/migrations/0002_rls.py. Apps/Audit is
-- apps/audit, and Apps/Accounts is the sign-in and the users of apps/accounts.
-- Apps/Compensation is the views over bonuses, deductions and reimbursements; Apps/Employees is the
-- pay rate, the edit form, the portal account and, in Csv, the import of apps/employees.
-- Config is config/views.py, the home page; Services/Observability is the logging filter of
-- services/observability/logging_filters.py, and Domain/Money is domain/money.py.
-- Apps/Employees/Crud is the pages that list, show, add, change and remove employees.
-- System puts the parts together: Action is a request to a view that changes state, act serves it,
-- and acts serves a sequence of them. System/Tables is the abstract specification, a relation between
-- the tables before and after a change by a tenant; Sound and Isolated are about the relation, and
-- Employees, Imports, Payroll, Periods and Adjustments show that the views refine it.
-- Services/Encryption is services/encryption: the encrypted columns. The other models read such a
-- column back as it was written, which Services/Encryption/RoundTrip justifies.
-- Domain/Decimal/Text is the text of a decimal, and Parse below it reads one.
-- Apps/Payroll/Views/Pages is the pages of periods and payslips for staff; System/Pages is about them.
-- Apps/Seed is the command seed_demo of apps/tenants/management/commands.
-- Apps/Payroll/Amounts is the amounts of a payslip as money, of both classes of payslips.
--
-- A database operation takes the tables and returns them changed, with a result or an exception. An
-- order that the database chooses is a parameter; so are Django's own sign-in check, its normalising
-- of addresses, and the parsing of dates and numbers of the CSV import. Dates and times are numbers.
-- The cipher of encrypted columns is a parameter too, with what its documentation promises as a
-- hypothesis. Left out are templates, urls, settings, the admin site, the command bootstrap_rls_role,
-- which runs statements of the database, and the checks of source text under tests/ci_guards;
-- the paging of lists and form widgets; requests by other methods than GET and POST; failures of
-- the database itself, but for its constraints and, in the import, the length of its columns.
-- Operations on the tables do not pass through the policies of Rls, which are stated apart.
pub mod Base
pub mod Domain
pub mod Services
pub mod Database
pub mod Apps
pub mod Config
pub mod System
pub mod Tests
