-- ===== src/Tests/Seed.antt =====
-- The rosters of the demonstration data, at the office of the test data.
use payroll_software.Base.{true, ◌≡◌, refl, any, All}
use payroll_software.Apps.Seed.Rows.{acme_roster, seed_employees}
use payroll_software.Apps.Seed.Again.{named, seed_employees_again}
use payroll_software.Tests.Data.{acme, office, in_acme}

seed_employees_again_example :
    let once = seed_employees 9 in_acme acme acme_roster office in
    All (λ s. any (named 9 in_acme acme refl s) once.employees ≡ true) acme_roster
    × (seed_employees 9 in_acme acme acme_roster once ≡ once)
seed_employees_again_example = seed_employees_again 9 in_acme acme refl acme_roster office
