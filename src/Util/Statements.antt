-- ===== src/Util/Statements.antt =====
-- The functions of common/util.c that run statements.
use sql_code.Common.Int.{ℤ, pos, negsuc}
use sql_code.Common.{
  ℕ, ◌≡◌, ◌≢◌, ◌⊎◌, refl, ap, ◌∙◌, Bool, true, false, not, List, [], ◌∷◌, ◌++◌, Option, none, some,
  arith, ◌==◌, if◌then◌else◌, Bool-cases, inl, inr,
}
use sql_code.CText.{Bytes, codes, strcmp_eq}
use sql_code.Sqlite.{Sqlite, Executed, sqlite_ok}

-- The database and what has been written to `stderr`.
pub record Console (Db : Type 0) : Type 0 where
  pub db : Db
  pub stderr : Bytes

pub record Answered (Db : Type 0) : Type 0 where
  pub code : ℕ
  pub console : Console Db

abbrev pub count_tables : Bytes
count_tables = codes "select count(*) from sqlite_master where name='%s'"

abbrev pub drop_statement : Bytes
drop_statement = codes "drop table %s"

is_zero : ℤ → Bool
is_zero (pos n) = n == 0
is_zero (negsuc n) = false

-- A text with this character in it would be read as a format.
abbrev pub has_percent : Bytes → Bool
has_percent [] = false
has_percent (c ∷ s) = if c == b'%' then true else has_percent s

module _ (S : Sqlite) where
  open S use {Db, mprintf, exec, prepare, step, errmsg, column_int}

  abbrev pub complain : Executed Db → Bytes → Bytes
  complain done stderr = elim done.err [
    | none ↦ stderr
    | some err ↦
        if not (done.rc == sqlite_ok)
        then stderr ++ (codes "execute() Error: " ++ (err ++ codes "\n"))
        else stderr
  ]

  unfoldable pub execute : Console Db → Bytes → List Bytes → Answered Db
  execute c sql args =
      let done = exec c.db (mprintf sql args) in
      record { code = done.rc; console = record { db = done.db; stderr = complain done c.stderr } }

  unfoldable pub drop_table : Console Db → Bytes → Answered Db
  unfolding execute is_zero
  drop_table c name =
      let prepared = prepare c.db (mprintf count_tables (name ∷ [])) in
      let stepped = step c.db prepared.stmt in
      let c' = record c { db = stepped.db } in
      if not (is_zero (column_int stepped.stmt 0))
      then record { code = 1; console = (execute c' drop_statement (name ∷ [])).console }
      else record { code = 0; console = c' }

  -- `none` where the text that is printed as a format has a `%` in it, on which C reads arguments that
  -- are not there.
  unfoldable pub print_error : Console Db → Option Bytes → List Bytes → Option (Console Db)
  print_error c none args = some (record c { stderr = c.stderr ++ (errmsg c.db ++ codes "\n") })
  print_error c (some msg) args =
      let txt = mprintf msg args in
      if has_percent txt
      then none
      else some (record c { stderr = c.stderr ++ (txt ++ (errmsg c.db ++ codes "\n")) })

  -- What is assumed of SQLite on a name, in a state of the database: the query does not change the
  -- database and counts the entries of that name in its catalog, and dropping a table either succeeds,
  -- and the table was there, no other table changes and no table of that name is left, or it fails and
  -- changes no table.
  pub record Catalogued (has : Db → Bytes → Bool) (db : Db) (name : Bytes) (entries : ℕ)
      : Type 0 where
    pub unchanged : (step db (prepare db (mprintf count_tables (name ∷ []))).stmt).db ≡ db
    pub counted :
        column_int (step db (prepare db (mprintf count_tables (name ∷ []))).stmt).stmt 0
        ≡ pos entries
    pub succeeds :
        (exec db (mprintf drop_statement (name ∷ []))).rc ≡ sqlite_ok
        → (n : Bytes)
        → has (exec db (mprintf drop_statement (name ∷ []))).db n
          ≡ (if strcmp_eq name n then false else has db n)
    pub fails :
        (exec db (mprintf drop_statement (name ∷ []))).rc ≢ sqlite_ok
        → (n : Bytes) → has (exec db (mprintf drop_statement (name ∷ []))).db n ≡ has db n

  -- The tables that are left, and what has been reported, if there are that many entries.
  abbrev pub Left : (Db → Bytes → Bool) → Console Db → Bytes → ℕ → Console Db → Type 0
  Left has c name entries after =
      let dropping = exec c.db (mprintf drop_statement (name ∷ [])) in
      ((entries ≢ 0)
        × (dropping.rc ≡ sqlite_ok)
        × ((n : Bytes) → has after.db n ≡ (if strcmp_eq name n then false else has c.db n))
        × (after.stderr ≡ c.stderr))
      ⊎ ((entries ≢ 0)
          × (dropping.rc ≢ sqlite_ok)
          × ((n : Bytes) → has after.db n ≡ has c.db n)
          × (after.stderr ≡ elim dropping.err [
            | none ↦ c.stderr
            | some err ↦ c.stderr ++ (codes "execute() Error: " ++ (err ++ codes "\n"))
          ]))
      ⊎ ((entries ≡ 0) × (after ≡ c))

  complained :
      (rc : ℕ) (err : Option Bytes) (db : Db) (stderr : Bytes) (fails : Bool)
      → not (rc == sqlite_ok) ≡ fails
      → complain (record { db = db; rc = rc; err = err }) stderr ≡ elim err [
        | none ↦ stderr
        | some err ↦
            if fails then stderr ++ (codes "execute() Error: " ++ (err ++ codes "\n")) else stderr
      ]
  complained rc none db stderr fails e = refl
  complained rc (some err) db stderr fails e = rw e refl

  no_complaint :
      (stderr : Bytes) (err : Option Bytes)
      → (elim err [
        | none ↦ stderr
        | some err ↦
            if false then stderr ++ (codes "execute() Error: " ++ (err ++ codes "\n")) else stderr
      ])
        ≡ stderr
  no_complaint stderr none = refl
  no_complaint stderr (some err) = refl

  execute-Left :
      (has : Db → Bytes → Bool) (c : Console Db) (name : Bytes) (entries : ℕ)
      → entries ≢ 0
      → Catalogued has c.db name entries
      → Left has c name entries (execute c drop_statement (name ∷ [])).console
  unfolding execute
  execute-Left has c name entries present s =
      let dropping = exec c.db (mprintf drop_statement (name ∷ [])) in
      elim (Bool-cases (dropping.rc == sqlite_ok)) [
        | inl ok ↦
            let succeeded : dropping.rc ≡ sqlite_ok = ground arith in
            inl (
              present,
              succeeded,
              s.succeeds succeeded,
              complained dropping.rc dropping.err dropping.db c.stderr false (ap not ok)
                  ∙ no_complaint c.stderr dropping.err,
            )
        | inr failed ↦
            let refused : dropping.rc ≢ sqlite_ok = (λ e. ground (arith, e)) in
            inr (
              inl (
                present,
                refused,
                s.fails refused,
                complained dropping.rc dropping.err dropping.db c.stderr true (ap not failed),
              ))
      ]

  -- `drop_table` returns 1 if the catalog has an entry of that name and else 0, whether or not the
  -- table could be dropped. If it was, no table of that name is left, every other table is as it was,
  -- and nothing is reported. If it was not, all tables are as they were, and the error is reported, if
  -- there is a text for it. Without an entry nothing changes. The assumptions on SQLite are about this
  -- name in this state of the database.
  pub drop_table-removes :
      (has : Db → Bytes → Bool) (c : Console Db) (name : Bytes) (entries : ℕ)
      → Catalogued has c.db name entries
      → ((drop_table c name).code ≡ (if entries == 0 then 0 else 1))
        × Left has c name entries (drop_table c name).console
  unfolding drop_table
  drop_table-removes has c name entries s = elim (Bool-cases (entries == 0)) [
    | inl absent ↦
        let none_there : entries ≡ 0 = ground arith in
        rw (s.unchanged, s.counted, absent) (refl, inr (inr (none_there, refl)))
    | inr present ↦
        let some_there : entries ≢ 0 = (λ e. ground (arith, e)) in
        rw (s.unchanged, s.counted, present) (refl, execute-Left has c name entries some_there s)
  ]
