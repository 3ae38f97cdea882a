-- ===== src/Database.antt =====
-- The tables behind the Django models, a row to a record, in the order of insertion. Foreign keys
-- are primary keys. Columns that no modelled code reads (most timestamps) are left out.
use payroll_software.Base.{ℕ, Bool, List, Option, ◌==◌, if◌then◌else◌}
use payroll_software.Base.Text.{Text}
use payroll_software.Domain.Decimal.{Decimal}
use payroll_software.Services.Payroll.{LineType}

-- apps/accounts/models.py, `Role`
pub data Role : Type 0 where
  super_admin company_admin payroll_manager viewer employee : Role

-- apps/tenants/models.py, `Company`
pub record Company : Type 0 where
  pub pk : ℕ
  pub slug : Text
  pub name : Text
  pub country : Text
  pub currency : Text
  pub is_active : Bool

-- apps/accounts/models.py, `User`
pub record User : Type 0 where
  pub pk : ℕ
  pub email : Text
  pub role : Role
  pub company : Option ℕ
  pub is_active : Bool
  pub is_staff : Bool
  pub is_superuser : Bool

-- apps/employees/models.py, `Employee`; a date is its day number.
pub record Employee : Type 0 where
  pub pk : ℕ
  pub company : ℕ
  pub first_name : Text
  pub last_name : Text
  pub work_email : Text
  pub phone : Text
  pub national_id : Option Text
  pub passport_number : Option Text
  pub passport_expiry : Option ℕ
  pub visa_number : Option Text
  pub visa_expiry : Option ℕ
  pub bank_account_number : Option Text
  pub pay_basis : Text
  pub base_salary : Option Decimal
  pub hourly_rate : Option Decimal
  pub unit_rate : Option Decimal
  pub hire_date : ℕ
  pub is_active : Bool
  pub user : Option ℕ

-- apps/payroll/models.py, `PeriodStatus`
pub data PeriodStatus : Type 0 where
  status_open status_closed : PeriodStatus

-- apps/payroll/models.py, `PayPeriod`; a time is a number.
pub record PayPeriod : Type 0 where
  pub pk : ℕ
  pub company : ℕ
  pub year : ℕ
  pub month : ℕ
  pub status : PeriodStatus
  pub closed_at : Option ℕ
  pub closed_by : Option ℕ
  pub created_at : ℕ
  pub updated_at : ℕ

-- apps/compensation/models.py, `_CompensationLine`: a bonus, deduction or reimbursement.
pub record CompensationLine : Type 0 where
  pub pk : ℕ
  pub company : ℕ
  pub employee : ℕ
  pub period : ℕ
  pub description : Text
  pub amount : Decimal
  pub created_at : ℕ

-- apps/payroll/models.py, `Payslip`
pub record Payslip : Type 0 where
  pub pk : ℕ
  pub company : ℕ
  pub employee : ℕ
  pub period : ℕ
  pub hours_worked : Option Decimal
  pub units_processed : Option Decimal
  pub base_pay : Decimal
  pub bonuses_total : Decimal
  pub deductions_total : Decimal
  pub reimbursements_total : Decimal
  pub net_pay : Decimal
  pub currency : Text

-- apps/payroll/models.py, `PayslipLine`
pub record PayslipLine : Type 0 where
  pub pk : ℕ
  pub payslip : ℕ
  pub line_type : LineType
  pub description : Text
  pub amount : Decimal

-- The model classes, for the audit log and the sequences of primary keys.
pub data Model : Type 0 where
  company_model user_model employee_model pay_period_model payslip_model payslip_line_model : Model
  bonus_model deduction_model reimbursement_model audit_model : Model

-- apps/audit/models.py, `AuditAction`
pub data AuditAction : Type 0 where
  create update delete : AuditAction

-- apps/audit/models.py, `AuditLogEntry`; its metadata is always empty in this program.
pub record AuditLogEntry : Type 0 where
  pub company : ℕ
  pub actor : Option ℕ
  pub action : AuditAction
  pub target_model : Model
  pub target_id : ℕ

-- The three tables of apps/compensation/models.py.
pub record Adjustments : Type 0 where
  pub bonuses : List CompensationLine
  pub deductions : List CompensationLine
  pub reimbursements : List CompensationLine

pub record Db : Type 0 where
  pub companies : List Company
  pub users : List User
  pub employees : List Employee
  pub periods : List PayPeriod
  pub adjustments : Adjustments
  pub payslips : List Payslip
  pub lines : List PayslipLine
  pub audit : List AuditLogEntry
  -- the next primary key of each table
  pub next_pk : Model → ℕ

-- apps/tenants/context.py and apps/accounts/context.py: the two ContextVars.
pub record Context : Type 0 where
  pub current_tenant : Option Company
  pub current_user : Option User

-- Models are compared by their place in the list above.
abbrev pub model_number : Model → ℕ
model_number company_model = 0
model_number user_model = 1
model_number employee_model = 2
model_number pay_period_model = 3
model_number payslip_model = 4
model_number payslip_line_model = 5
model_number bonus_model = 6
model_number deduction_model = 7
model_number reimbursement_model = 8
model_number audit_model = 9

abbrev pub model_eq : Model → Model → Bool
model_eq a b = model_number a == model_number b

-- One more row has taken its primary key.
abbrev pub advance : Model → ℕ → (Model → ℕ) → Model → ℕ
advance m n next k = if model_eq m k then n else next k
