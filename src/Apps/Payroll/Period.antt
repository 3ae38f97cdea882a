-- ===== src/Apps/Payroll/Period.antt =====
-- apps/payroll/models.py, `PayPeriod.save`: what may change in a pay period, and when.
pub mod Closed
use payroll_software.Base.{
  ℕ, Bool, true, false, not, ◌&&◌, ◌||◌, Option, none, some, List, [], ◌∷◌, ◌++◌, map, ◌==◌, leb,
  ◌+◌, if◌then◌else◌, select, first, any, option_eq,
}
use payroll_software.Base.Result.{Result, ok, err, validation_error, integrity_error}
use payroll_software.Database.{
  PayPeriod, PeriodStatus, status_open, status_closed, pay_period_model, advance, Db, Context,
}
use payroll_software.Apps.Audit.{audit_post_save}

-- `self._meta.fields`
pub data Field : Type 0 where
  id_field company_field year_field month_field status_field : Field
  closed_at_field closed_by_field created_at_field updated_at_field : Field

abbrev pub all_fields : List Field
all_fields =
    id_field ∷ company_field ∷ year_field ∷ month_field ∷ status_field ∷ closed_at_field
    ∷ closed_by_field ∷ created_at_field ∷ updated_at_field ∷ []

abbrev pub status_eq : PeriodStatus → PeriodStatus → Bool
status_eq status_open status_open = true
status_eq status_closed status_closed = true
status_eq status_open status_closed = false
status_eq status_closed status_open = false

-- `getattr(self, f.name) != getattr(existing, f.name)`
unfoldable pub differs : PayPeriod → PayPeriod → Field → Bool
differs a b id_field = not (a.pk == b.pk)
differs a b company_field = not (a.company == b.company)
differs a b year_field = not (a.year == b.year)
differs a b month_field = not (a.month == b.month)
differs a b status_field = not (status_eq a.status b.status)
differs a b closed_at_field = not (option_eq a.closed_at b.closed_at)
differs a b closed_by_field = not (option_eq a.closed_by b.closed_by)
differs a b created_at_field = not (a.created_at == b.created_at)
differs a b updated_at_field = not (a.updated_at == b.updated_at)

-- The fields that may change after closure.
unfoldable pub is_closing_field : Field → Bool
is_closing_field status_field = true
is_closing_field closed_at_field = true
is_closing_field closed_by_field = true
is_closing_field updated_at_field = true
is_closing_field _ = false

-- `changed - {...}` is not empty.
unfoldable pub changes_more : PayPeriod → PayPeriod → Bool
changes_more a b = any (λ f. not (is_closing_field f)) (select (differs a b) all_fields)

-- `is_closed`
abbrev pub is_closed : PayPeriod → Bool
is_closed p = status_eq p.status status_closed

-- `PayPeriod.all_tenants.filter(pk=pk).first()`
abbrev pub find_period : ℕ → List PayPeriod → Option PayPeriod
find_period pk rows = first (select (λ p. p.pk == pk) rows)

-- The constraints period_month_1_to_12 and unique_company_period.
unfoldable pub breaks_constraint : PayPeriod → List PayPeriod → Bool
breaks_constraint p rows =
    not (leb 1 p.month && leb p.month 12)
    || any
        (λ q.
          not (q.pk == p.pk)
          && (q.company == p.company && (q.year == p.year && q.month == p.month)))
        rows

abbrev pub replace : PayPeriod → List PayPeriod → List PayPeriod
replace p rows = map (λ q. if q.pk == p.pk then p else q) rows

-- `models.Model.save` of a row with a primary key: it is updated, or inserted where it is absent.
-- `now` is the value of `updated_at`.
unfoldable pub write_period : Context → ℕ → PayPeriod → Db → Result PayPeriod × Db
write_period ctx now p db =
    let p' = record p { updated_at = now } in
    if breaks_constraint p db.periods
    then (err integrity_error, db)
    else elim (find_period p.pk db.periods) [
      | none ↦ (
        ok p',
        audit_post_save ctx pay_period_model p.pk true
            (record db { periods = db.periods ++ p' ∷ [] }),
      )
      | some old ↦ (
        ok p',
        audit_post_save ctx pay_period_model p.pk false
            (record db { periods = replace p' db.periods }),
      )
    ]

-- The guard of `PayPeriod.save`, for the row that is stored under the primary key.
unfoldable pub refuses : PayPeriod → Option PayPeriod → Bool
refuses p none = false
refuses p (some existing) = is_closed existing && changes_more p existing

-- `PayPeriod.save`, of a row with a primary key.
unfoldable pub save_period : Context → ℕ → PayPeriod → Db → Result PayPeriod × Db
save_period ctx now p db =
    if refuses p (find_period p.pk db.periods)
    then (err validation_error, db)
    else write_period ctx now p db

-- `PayPeriod.save` of a new row, which takes the next primary key.
unfoldable pub create_period : Context → ℕ → ℕ → ℕ → ℕ → Db → Result PayPeriod × Db
create_period ctx now company year month db =
    let pk = db.next_pk pay_period_model in
    let p : PayPeriod = record {
      pk = pk;
      company = company;
      year = year;
      month = month;
      status = status_open;
      closed_at = none;
      closed_by = none;
      created_at = now;
      updated_at = now;
    } in
    if breaks_constraint p db.periods then (err integrity_error, db) else (
      ok p,
      audit_post_save ctx pay_period_model pk true (record db {
        periods = db.periods ++ p ∷ [];
        next_pk = advance pay_period_model (pk + 1) db.next_pk;
      }),
    )
