-- ===== src/Authorizer/Decisions.antt =====
-- What `auth` of authorizer.c allows, whatever it prints.
use sql_code.Common.{
  ℕ, ◌≡◌, inl, inr, refl, ◌&&◌, ◌||◌, Option, some, ◌==◌, if◌then◌else◌, Bool-cases,
}
use sql_code.CText.{Bytes, codes, strcmp_eq}
use sql_code.Sqlite.{sqlite_ok, sqlite_ignore, sqlite_read, sqlite_update}
use sql_code.Authorizer.{Answer, auth, check_update}

-- The policy: no reading of a column z, no update of a column x, and all else.
abbrev pub policy : ℕ → Bytes → ℕ
policy type b =
    if (type == sqlite_read && strcmp_eq b (codes "z"))
      || (type == sqlite_update && strcmp_eq b (codes "x"))
    then sqlite_ignore
    else sqlite_ok

Gives : Option Answer → ℕ → Type 0
Gives o code = (answer : Answer) × (o ≡ some answer) × (answer.code ≡ code)

check_update-policy :
    (null_text : Bytes) (type : ℕ) (a : Option Bytes) (b out : Bytes)
    → Gives
        (check_update null_text type a (some b) out)
        (if type == sqlite_update && strcmp_eq b (codes "x") then sqlite_ignore else sqlite_ok)
unfolding check_update Gives
check_update-policy null_text type a b out = elim (Bool-cases (type == sqlite_update)) [
  | inl u ↦ elim (Bool-cases (strcmp_eq b (codes "x"))) [
    | inl x ↦ rw (check_update, u, x) (_, refl, refl)
    | inr x ↦ rw (check_update, u, x) (_, refl, refl)
  ]
  | inr u ↦ rw (check_update, u) (_, refl, refl)
]

-- On a column name that is not NULL, `auth` returns what the policy says, whatever the other
-- arguments are.
pub auth-policy :
    (null_text : Bytes) (type : ℕ) (a : Option Bytes) (b : Bytes) (c d : Option Bytes)
    → (answer : Answer) × (auth null_text type a (some b) c d ≡ some answer)
      × (answer.code ≡ policy type b)
unfolding auth Gives
auth-policy null_text type a b c d = elim (Bool-cases (type == sqlite_read)) [
  | inl r ↦ elim (Bool-cases (strcmp_eq b (codes "z"))) [
    | inl z ↦ rw (auth, r, z) (_, refl, refl)
    | inr z ↦ rw (auth, r, z) (check_update-policy null_text type a b _)
  ]
  | inr r ↦ rw (auth, r) (check_update-policy null_text type a b _)
]
