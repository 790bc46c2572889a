-- ===== src/Tests/UsersCases.antt =====
-- The theorems on the users table at a concrete input.
use fastapi_modular_template.Base.{List, [], ◌∷◌, arith, eq_iff}
use fastapi_modular_template.Users.Emails.{
  UserOp, run_all, run_all-UniqueEmails, create_in_tenant, promote,
}
use fastapi_modular_template.Roles.{admin}
use fastapi_modular_template.Users.Rows.{UniqueEmails}
use fastapi_modular_template.Tests.Data.{passwords, db}

abbrev operations : List UserOp
operations =
    create_in_tenant "salt" "u3" "t1" "boss" "eve@example.org" "pw" "Eve" admin
    ∷ create_in_tenant "salt" "u4" "t1" "boss" "ann@example.org" "pw" "Ann again" admin
    ∷ promote "bob@example.org"
    ∷ []

run_all-UniqueEmails_example : UniqueEmails (run_all passwords operations db).users
run_all-UniqueEmails_example =
    run_all-UniqueEmails passwords operations db
      (((λ e. ground (arith, eq_iff "bob@example.org" "ann@example.org")), tt), (tt, tt))
