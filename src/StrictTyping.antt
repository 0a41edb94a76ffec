-- ===== src/StrictTyping.antt =====
-- Strict typing by triggers: The_Definitive_Guide_to_SQLITE/ch01/examples/capi_ext/strict_typing.c.
-- The SQLite library is the parameter `S`. What a SQL function says through its context is the list
-- of its calls, in order. `none` is a fault: C goes on from a null pointer.
pub mod Columns
pub mod Triggers
pub mod Validate
pub mod Example
mod Tests
use sql_code.Common.Int.{ℤ, pos}
use sql_code.Common.{
  ℕ, zero, suc, Bool, true, false, not, ◌&&◌, List, [], ◌∷◌, ◌++◌, map, Option, none, some, ltb,
  ◌==◌, if◌then◌else◌, length, take,
}
use sql_code.CText.{Bytes, codes, to_lower, strncmp_eq}
use sql_code.Sqlite.{Sqlite, Executed, Prepared, Stepped, sqlite_ok, sqlite_row}

-- The calls on a function's context, and a write behind the end of a local array.
pub data Event : Type 0 where
  result_error : Bytes → Event
  result_int : ℕ → Event
  result_text : Bytes → Event
  overrun : Event

-- The database and the calls made so far.
pub record World (Db : Type 0) : Type 0 where
  pub db : Db
  pub events : List Event

-- A C function's return code with the world that it leaves.
pub record Returned (Db : Type 0) : Type 0 where
  pub code : ℕ
  pub world : World Db

infixl 5 ◌>>=◌
abbrev pub ◌>>=◌ {ℓ κ} : {A : Type ℓ} {B : Type κ} → Option A → (A → Option B) → Option B
none >>= f = none
some a >>= f = f a

abbrev pub select_column : Bytes
select_column = codes "select %s from %s;"

abbrev pub select_validate : Bytes
select_validate = codes "select validate_%s(null)"

abbrev pub table_info : Bytes
table_info = codes "pragma table_info(%s)"

abbrev pub create_insert_trigger : Bytes
create_insert_trigger =
    codes
      "CREATE TRIGGER %s_insert_%s_typecheck_tr \nBEFORE INSERT ON %s \nBEGIN \n   SELECT CASE \n     WHEN(SELECT validate_%s(new.%s) != 1) \n     THEN RAISE(ABORT, 'invalid %s value for %s.%s') \n   END; \nEND;"

abbrev pub create_update_trigger : Bytes
create_update_trigger =
    codes
      "CREATE TRIGGER %s_update_%s_typecheck_tr \nBEFORE UPDATE OF %s ON %s \nFOR EACH ROW BEGIN \n  SELECT CASE \n    WHEN(SELECT validate_%s(new.%s) != 1) \n    THEN RAISE(ABORT, 'invalid %s value for %s.%s') \n  END; \nEND;"

abbrev pub drop_insert_trigger : Bytes
drop_insert_trigger = codes "DROP TRIGGER %s_insert_%s_typecheck_tr"

abbrev pub drop_update_trigger : Bytes
drop_update_trigger = codes "DROP TRIGGER %s_update_%s_typecheck_tr"

-- `rc != SQLITE_OK && err != NULL`: the error text, if the call failed with one.
abbrev pub failure {ℓ} : {A : Type ℓ} → ℕ → Option Bytes → A → (Bytes → A) → A
failure rc none go fail = go
failure rc (some err) go fail = if not (rc == sqlite_ok) then fail err else go

module _ (S : Sqlite) where
  open S use {Db, mprintf, prepare, column_decltype}

  -- The declared type in lower case. `some none` is NULL; `strlen` faults if no type is declared.
  unfoldable pub column_type : Db → Bytes → Bytes → Option (Option Bytes)
  column_type db table column =
      let prepared = prepare db (mprintf select_column (column ∷ table ∷ [])) in
      if not (prepared.rc == sqlite_ok) then some none else elim (column_decltype prepared.stmt 0) [
        | none ↦ none
        | some sql_type ↦ some (some (map to_lower sql_type))
      ]

-- `stale` is what `buf[255]` holds before it is read: nothing, if it is zero.
module _ (S : Sqlite) (stale : Bytes) where
  open S use {Db, mprintf, exec}

  abbrev pub report : World Db → Event → World Db
  report w e = record w { events = w.events ++ e ∷ [] }

  -- `strncpy(&buf[0], err, 255); buf[256] = '\0'` on an array of 256, and what `buf` then holds. The
  -- write behind the array is an event; what stands there, and what the write does to it, is not
  -- modelled.
  abbrev pub copied_error : Bytes → Bytes
  copied_error err = if ltb (length err) 255 then err else take 255 err ++ stale

  abbrev pub fail_with_copy : World Db → Bytes → Returned Db
  fail_with_copy w err = record {
    code = 1;
    world = report (report w overrun) (result_error (copied_error err));
  }

  -- Runs one statement; a failure is reported from the copy in `buf`.
  unfoldable pub exec_or_report : World Db → Bytes → (World Db → Returned Db) → Returned Db
  exec_or_report w sql next =
      let done = exec w.db sql in
      let after = record w { db = done.db } in
      failure done.rc done.err (next after) (fail_with_copy after)

  abbrev pub return_ok : World Db → Returned Db
  return_ok w = record { code = 0; world = w }

  -- Two statements; the second runs if the first succeeded, whose effect stays if the second fails.
  unfoldable pub exec_both : World Db → Bytes → Bytes → Returned Db
  unfolding exec_or_report
  exec_both w first second = exec_or_report w first (λ w'. exec_or_report w' second return_ok)

  unfoldable pub create_triggers : World Db → Bytes → Bytes → Bytes → Returned Db
  create_triggers w table column type =
      exec_both w
        (mprintf create_insert_trigger
          (table ∷ column ∷ table ∷ type ∷ column ∷ type ∷ table ∷ column ∷ []))
        (mprintf create_update_trigger
          (table ∷ column ∷ column ∷ table ∷ type ∷ column ∷ type ∷ table ∷ column ∷ []))

  -- The steps behind the look-up of the column's type.
  unfoldable pub install_for_type : World Db → Bytes → Bytes → Option Bytes → Returned Db
  unfolding create_triggers
  install_for_type w table column none = record {
    code = 1;
    world = report w (result_error (codes "column has no declared type"));
  }
  install_for_type w table column (some type) =
      let done = exec w.db (mprintf select_validate (type ∷ [])) in
      let after = record w { db = done.db } in
      failure done.rc done.err (create_triggers after table column type) (λ err. record {
        code = 1;
        world = report after (result_error (codes "No validator exists for column type"));
      })

  unfoldable pub install_type_trigger : World Db → Bytes → Bytes → Option (Returned Db)
  unfolding install_for_type column_type
  install_type_trigger w table column =
      column_type S w.db table column >>= λ type. some (install_for_type w table column type)

  unfoldable pub uninstall_type_trigger : World Db → Bytes → Bytes → Returned Db
  uninstall_type_trigger w table column =
      exec_both w (mprintf drop_insert_trigger (table ∷ column ∷ []))
        (mprintf drop_update_trigger (table ∷ column ∷ []))

-- A run of a function with a loop: it ends, it faults, or the fuel is used up.
pub data Run {ℓ} (A : Type ℓ) : Type ℓ where
  done : A → Run A
  fault : Run A
  exhausted : Run A

abbrev pub is_primary_key : ℤ → Bool
is_primary_key (pos n) = n == 1
is_primary_key _ = false

module _ (S : Sqlite) where
  open S use {Db, Stmt, mprintf, prepare, step, errmsg, column_int, column_text}

  -- The loop `while(rc == SQLITE_ROW)`: `visit` is called for each column that is no primary key, and
  -- its return code is dropped.
  unfoldable pub for_each_column :
      (World Db → Bytes → Option (Returned Db)) → ℕ → ℕ → Stmt → World Db → Run (World Db)
  for_each_column visit zero rc stmt w = exhausted
  for_each_column visit (suc fuel) rc stmt w =
      let next = λ (w' : World Db).
        (let stepped = step w'.db stmt in
          for_each_column visit fuel stepped.rc stepped.stmt (record w' { db = stepped.db })) in
      if not (rc == sqlite_row)
      then done w
      else if is_primary_key (column_int stmt 5)
      then next w
      else elim (visit w (column_text stmt 1)) [ none ↦ fault | some r ↦ next r.world ]

  abbrev pub and_then : Run (World Db) → (World Db → World Db) → Run (World Db)
  and_then (done w) f = done (f w)
  and_then fault f = fault
  and_then exhausted f = exhausted

  abbrev pub reported : World Db → Event → World Db
  reported w e = record w { events = w.events ++ e ∷ [] }

  -- The branch on `*`, which the two SQL functions share: every column but the primary key.
  unfoldable pub on_all_columns :
      (World Db → Bytes → Option (Returned Db)) → ℕ → World Db → Bytes → Run (World Db)
  unfolding for_each_column
  on_all_columns visit fuel w table =
      let prepared = prepare w.db (mprintf table_info (table ∷ [])) in
      let w' =
        if not (prepared.rc == sqlite_ok) then reported w (result_error (errmsg w.db)) else w in
      let first = step w'.db prepared.stmt in
      and_then (for_each_column visit fuel first.rc first.stmt (record w' { db = first.db }))
        (λ v. reported v (result_int 0))

  abbrev pub on_one_column : Option (Returned Db) → Run (World Db)
  on_one_column none = fault
  on_one_column (some r) =
      done (if not (r.code == 0) then r.world else reported r.world (result_int 0))

  unfoldable pub add_strict_type_check_udf : Bytes → ℕ → World Db → Bytes → Bytes → Run (World Db)
  unfolding on_all_columns
  add_strict_type_check_udf stale fuel w table column =
      if strncmp_eq column (codes "*") 1
      then on_all_columns (λ v c. install_type_trigger S stale v table c) fuel w table
      else on_one_column (install_type_trigger S stale w table column)

  unfoldable pub drop_strict_type_check_udf : Bytes → ℕ → World Db → Bytes → Bytes → Run (World Db)
  unfolding on_all_columns
  drop_strict_type_check_udf stale fuel w table column =
      if strncmp_eq column (codes "*") 1
      then on_all_columns (λ v c. some (uninstall_type_trigger S stale v table c)) fuel w table
      else on_one_column (some (uninstall_type_trigger S stale w table column))

  -- `strlen(type)` faults where `column_type` gave NULL.
  unfoldable pub column_type_udf : World Db → Bytes → Bytes → Option (World Db)
  column_type_udf w table column = column_type S w.db table column >>= λ type. elim type [
    | none ↦ none
    | some t ↦ some (reported w (result_text t))
  ]
