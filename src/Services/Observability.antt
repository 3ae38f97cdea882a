-- ===== src/Services/Observability.antt =====
-- services/observability/logging_filters.py: the filter that masks sensitive fields of log records.
pub mod Masking
use payroll_software.Base.{ℕ, Bool, true, false, not, ◌&&◌, List, [], ◌∷◌, if◌then◌else◌}
use payroll_software.Base.Text.{Text, text, is_member}

abbrev pub sensitive_keys : List Text
sensitive_keys =
    text "salary"
    ∷ text "base_salary"
    ∷ text "hourly_rate"
    ∷ text "unit_rate"
    ∷ text "deduction"
    ∷ text "deduction_amount"
    ∷ text "bonus"
    ∷ text "bonus_amount"
    ∷ text "reimbursement"
    ∷ text "reimbursement_amount"
    ∷ text "expense"
    ∷ text "expense_amount"
    ∷ text "net_pay"
    ∷ text "gross_pay"
    ∷ text "amount"
    ∷ text "payslip_line"
    ∷ text "payment_instruction"
    ∷ text "national_id"
    ∷ text "passport_number"
    ∷ text "visa_number"
    ∷ text "bank_account"
    ∷ text "bank_account_number"
    ∷ text "password"
    ∷ text "token"
    ∷ text "secret"
    ∷ []

-- `_LOGRECORD_STANDARD_FIELDS`
abbrev pub standard_fields : List Text
standard_fields =
    text "name"
    ∷ text "msg"
    ∷ text "args"
    ∷ text "levelname"
    ∷ text "levelno"
    ∷ text "pathname"
    ∷ text "filename"
    ∷ text "module"
    ∷ text "exc_info"
    ∷ text "exc_text"
    ∷ text "stack_info"
    ∷ text "lineno"
    ∷ text "funcName"
    ∷ text "created"
    ∷ text "msecs"
    ∷ text "relativeCreated"
    ∷ text "thread"
    ∷ text "threadName"
    ∷ text "processName"
    ∷ text "process"
    ∷ text "message"
    ∷ text "asctime"
    ∷ text "taskName"
    ∷ []

-- `record.args`: a dict, or anything else.
pub data Args (A : Type 0) : Type 0 where
  by_name : List (Text × A) → Args A
  positional : List A → Args A

-- A log record: its arguments, and its attributes (the record's `__dict__`) but for `args`.
pub record LogRecord (A : Type 0) : Type 0 where
  pub args : Args A
  pub attributes : List (Text × A)

-- `lower` is `str.lower`, and `redacted` the value REDACTED.
module _ {A : Type 0} (lower : Text → Text) (redacted : A) where
  -- `key.lower() in SENSITIVE_KEYS`
  unfoldable pub is_sensitive : Text → Bool
  is_sensitive key = is_member (lower key) sensitive_keys

  -- The attributes that the loop masks.
  unfoldable pub is_masked : Text → Bool
  is_masked key = not (is_member key standard_fields) && is_sensitive key

  abbrev pub mask : Bool → A → A
  mask hidden value = if hidden then redacted else value

  -- `_mask_dict`
  unfoldable pub mask_dict : List (Text × A) → List (Text × A)
  mask_dict [] = []
  mask_dict ((key, value) ∷ d) = (key, mask (is_sensitive key) value) ∷ mask_dict d

  -- The loop over `record.__dict__`.
  unfoldable pub mask_attributes : List (Text × A) → List (Text × A)
  mask_attributes [] = []
  mask_attributes ((key, value) ∷ d) = (key, mask (is_masked key) value) ∷ mask_attributes d

  unfoldable pub mask_args : Args A → Args A
  mask_args (by_name d) = by_name (mask_dict d)
  mask_args (positional l) = positional l

  -- `SensitiveDataFilter.filter`: every record is let through, masked.
  unfoldable pub filter : LogRecord A → Bool × LogRecord A
  filter r = (true, record { args = mask_args r.args; attributes = mask_attributes r.attributes })
