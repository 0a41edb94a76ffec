-- ===== src/Authorizer.antt =====
-- The authorizer callbacks of The_Definitive_Guide_to_SQLITE/ch01/examples/capi: `auth` in
-- authorizer.c, which hides column z and protects column x, and `auth` in auth_trans.c, which only
-- reports. The arguments `a` to `d` are NULL or texts; `stdout` is what is printed.
pub mod Decisions
mod Tests
use Prim.Native.String.{String}
use sql_code.Common.{
  ℕ, Bool, true, false, ◌&&◌, ◌||◌, List, [], ◌∷◌, ◌++◌, Option, none, some, ◌==◌, if◌then◌else◌,
}
use sql_code.CText.{Bytes, codes, strcmp_eq, pad_right}
use sql_code.Sqlite.{
  sqlite_ok, sqlite_ignore, sqlite_create_index, sqlite_create_table, sqlite_create_trigger,
  sqlite_create_view, sqlite_delete, sqlite_drop_index, sqlite_drop_table, sqlite_drop_trigger,
  sqlite_drop_view, sqlite_insert, sqlite_read, sqlite_transaction, sqlite_update, sqlite_attach,
  sqlite_detach,
}
use sql_code.Util.{event_description, shown}

-- What a callback returns, and what it has printed.
pub record Answer : Type 0 where
  pub code : ℕ
  pub stdout : Bytes

is_some : Option Bytes → Bool
is_some none = false
is_some (some s) = true

-- The `switch` on the codes that change the schema.
unfoldable pub modifies_schema : ℕ → Bool
modifies_schema type =
    type == sqlite_create_index
    || (type == sqlite_create_table
        || (type == sqlite_create_trigger
            || (type == sqlite_create_view
                || (type == sqlite_drop_index
                    || (type == sqlite_drop_table
                        || (type == sqlite_drop_trigger || type == sqlite_drop_view))))))

abbrev print_if : Bool → Bytes → Bytes → Bytes
print_if c text out = if c then out ++ text else out

-- `strcmp(b, name) == 0`; `none` is the fault on NULL.
abbrev compare_name : Option Bytes → Bytes → Option Bool
compare_name none name = none
compare_name (some b) name = some (strcmp_eq b name)

-- `null_text` is what the C library prints for NULL under `%s`.
module _ (null_text : Bytes) where
  abbrev str : Option Bytes → Bytes
  str = shown null_text

  -- What `auth` of authorizer.c prints before it looks at the column.
  opening : ℕ → Option Bytes → Bytes
  unfolding modifies_schema is_some
  opening type a = print_if (modifies_schema type) (codes ": Schema modified") (
      print_if (is_some a && type == sqlite_transaction)
        (codes ": " ++ (str a ++ codes " Transaction"))
        (codes "    " ++ (codes (event_description type) ++ codes " ")))

  -- What it prints behind the columns' checks.
  closing : ℕ → Option Bytes → Option Bytes → Bytes → Bytes
  closing type a b out =
      print_if (type == sqlite_detach) (codes "-> " ++ str a) (
        print_if (type == sqlite_attach) (codes ": " ++ str a)
          (print_if (type == sqlite_delete) (codes ": Delete from " ++ (str a ++ codes " ")) out))
      ++ codes "\n"

  abbrev denied : Bytes → Answer
  denied out = record { code = sqlite_ignore; stdout = out ++ codes "-> DENIED\n" }

  abbrev column_text : Bytes → Option Bytes → Option Bytes → Bytes
  column_text what a b = what ++ (str a ++ (codes "." ++ (str b ++ codes " ")))

  -- From the check for `SQLITE_UPDATE` on.
  unfoldable pub check_update : ℕ → Option Bytes → Option Bytes → Bytes → Option Answer
  unfolding closing
  check_update type a b out =
      let allowed : Answer = record { code = sqlite_ok; stdout = closing type a b out } in
      if type == sqlite_update
      then elim (compare_name b (codes "x")) [
        | none ↦ none
        | some true ↦ some (denied (out ++ column_text (codes ": Update of ") a b))
        | some false ↦ some (record {
          code = sqlite_ok;
          stdout = closing type a b (out ++ column_text (codes ": Update of ") a b);
        })
      ]
      else some allowed

  -- `auth` of authorizer.c; `none` is the fault of `strcmp` on NULL.
  unfoldable pub auth :
      ℕ → Option Bytes → Option Bytes → Option Bytes → Option Bytes → Option Answer
  unfolding opening check_update
  auth type a b c d =
      let insert_line =
        print_if (type == sqlite_insert) (codes ": Insert records into " ++ (str a ++ codes " ")) in
      if type == sqlite_read
      then elim (compare_name b (codes "z")) [
        | none ↦ none
        | some true ↦ some (denied (opening type a ++ column_text (codes ": Read of ") a b))
        | some false ↦
            check_update type a b
              (insert_line (opening type a ++ column_text (codes ": Read of ") a b))
      ]
      else check_update type a b (insert_line (opening type a))

  -- `auth` of auth_trans.c, which allows everything.
  unfoldable pub auth_report :
      ℕ → Option Bytes → Option Bytes → Option Bytes → Option Bytes → Answer
  unfolding modifies_schema is_some
  auth_report type a b c d =
      let first =
        codes "Authorizor "
        ++ (pad_right 6 (str c)
            ++ (codes " : " ++ (codes (event_description type) ++ codes " in "))) in
      let transaction =
        print_if (is_some a && type == sqlite_transaction)
          (codes "-> " ++ (str a ++ codes " Transaction")) first in
      let schema = print_if (modifies_schema type) (codes "-> Schema modified") transaction in
      let attach = print_if (type == sqlite_attach) (codes "-> " ++ str a) schema in
      let detach = print_if (type == sqlite_detach) (codes "-> " ++ str a) attach in
      record { code = sqlite_ok; stdout = detach ++ codes "\n" }
