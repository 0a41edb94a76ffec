-- ===== src/Authorizer/Tests.antt =====
-- A run of `auth`.
use sql_code.Common.{◌≡◌, some, none}
use sql_code.CText.{codes}
use sql_code.Sqlite.{sqlite_update}
use sql_code.Authorizer.{Answer, auth}
use sql_code.Authorizer.Decisions.{policy, auth-policy}

auth-policy_example :
    (answer : Answer) × (auth
        (codes "(null)")
        sqlite_update
        (some (codes "foo"))
        (some (codes "x"))
        none
        none
      ≡ some answer)
    × (answer.code ≡ policy sqlite_update (codes "x"))
auth-policy_example =
    auth-policy (codes "(null)") sqlite_update (some (codes "foo")) (codes "x") none none
