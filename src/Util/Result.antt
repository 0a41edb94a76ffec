-- ===== src/Util/Result.antt =====
-- `print_stmt_result` of common/util.c.
use sql_code.Common.Int.{ℤ, pos, negsuc}
use sql_code.Common.{
  ℕ, zero, suc, ◌<◌, ◌≡◌, sym, ap, ◌∙◌, Bool, true, false, List, [], ◌∷◌, ◌++◌, append_assoc,
  append-nil, Option, none, some, arith, ◌==◌, if◌then◌else◌, for_up, length,
}
use sql_code.CText.{Bytes, codes, format_int}
use sql_code.Sqlite.{Sqlite, Stepped, sqlite_row, sqlite_null}
use sql_code.Util.{shown}

is_null_type : ℤ → Bool
is_null_type (pos n) = n == sqlite_null
is_null_type (negsuc n) = false

-- The database and what has been written to `stdout`.
pub record Printed (Db : Type 0) : Type 0 where
  pub db : Db
  pub stdout : Bytes

-- What the first `n` of these texts make together.
abbrev pub texts : ℕ → (ℕ → Bytes) → Bytes
texts zero f = []
texts (suc n) f = texts n f ++ f n

for_up-texts :
    (n : ℕ) (f : ℕ → Bytes) (out : Bytes) → for_up n (λ i o. o ++ f i) out ≡ out ++ texts n f
unfolding for_up
for_up-texts zero f out = sym (append-nil out)
for_up-texts (suc n) f out =
    ap (λ o. o ++ f n) (for_up-texts n f out) ∙ append_assoc out (texts n f) (f n)

module _ (S : Sqlite) where
  open S use {Db, Stmt, step}

  -- From what a step has given, the statement has these rows, and leaves this database behind them.
  pub data Fetches : Stepped Db Stmt → List Stmt → Db → Type 0 where
    ended : (s : Stepped Db Stmt) → (s.rc == sqlite_row) ≡ false → Fetches s [] s.db
    fetched :
        (s : Stepped Db Stmt) (rows : List Stmt) (db : Db)
        → (s.rc == sqlite_row) ≡ true
        → Fetches (step s.db s.stmt) rows db
        → Fetches s (s.stmt ∷ rows) db

module _ (S : Sqlite) (null_text : Bytes) where
  open S use {Db, Stmt, step, column_count, column_type, column_name, column_text, column_decltype}

  abbrev pub column_line : Stmt → ℕ → Bytes
  column_line stmt i =
      codes "  Column: "
      ++ (column_name stmt i
          ++ (codes " ("
              ++ (format_int (column_type stmt i)
                  ++ (codes "/" ++ (shown null_text (column_decltype stmt i) ++ codes ")\n")))))

  -- `sqlite3_column_text` gives a null pointer for a NULL, and only then.
  unfoldable pub record_field : Stmt → ℕ → Bytes
  unfolding is_null_type
  record_field stmt i =
      codes "'"
      ++ ((if is_null_type (column_type stmt i) then null_text else column_text stmt i)
          ++ codes "' ")

  unfoldable pub print_record : ℕ → Stmt → Bytes → Bytes
  unfolding record_field
  print_record ncols stmt out =
      for_up ncols (λ i o. o ++ record_field stmt i) (out ++ codes "  Record: ") ++ codes "\n"

  -- The loop over the rows; `none` if the fuel does not suffice.
  unfoldable pub print_records : ℕ → ℕ → Stepped Db Stmt → Bytes → Option (Printed Db)
  unfolding print_record
  print_records zero ncols s out = none
  print_records (suc fuel) ncols s out =
      let rest = print_records fuel ncols (step s.db s.stmt) (print_record ncols s.stmt out) in
      if s.rc == sqlite_row then rest else some (record { db = s.db; stdout = out })

  unfoldable pub print_stmt_result : ℕ → Printed Db → Stmt → Option (Printed Db)
  unfolding print_records
  print_stmt_result fuel p stmt =
      let s = step p.db stmt in
      let ncols = column_count s.stmt in
      print_records fuel ncols s (for_up ncols (λ i o. o ++ column_line s.stmt i) p.stdout)

  -- The line of a row, and the lines of rows.
  abbrev pub record_line : ℕ → Stmt → Bytes
  record_line ncols stmt = codes "  Record: " ++ (texts ncols (record_field stmt) ++ codes "\n")

  abbrev pub record_lines : ℕ → List Stmt → Bytes
  record_lines ncols [] = []
  record_lines ncols (stmt ∷ rows) = record_line ncols stmt ++ record_lines ncols rows

  print_record-record_line :
      (ncols : ℕ) (stmt : Stmt) (out : Bytes)
      → print_record ncols stmt out ≡ out ++ record_line ncols stmt
  unfolding print_record
  print_record-record_line ncols stmt out =
      ap (λ o. o ++ codes "\n") (for_up-texts ncols (record_field stmt) (out ++ codes "  Record: "))
      ∙ append_assoc (out ++ codes "  Record: ") (texts ncols (record_field stmt)) (codes "\n")
      ∙ append_assoc out (codes "  Record: ") (texts ncols (record_field stmt) ++ codes "\n")

  print_records-record_lines :
      (s : Stepped Db Stmt) (rows : List Stmt) (db : Db)
      → Fetches S s rows db
      → (fuel ncols : ℕ) (out : Bytes) → length rows < fuel
      → print_records fuel ncols s out
        ≡ some (record { db = db; stdout = out ++ record_lines ncols rows })
  unfolding print_records
  print_records-record_lines _ _ _ (ended s no_row) zero ncols out enough = absurd (omega arith)
  print_records-record_lines _ _ _ (ended s no_row) (suc fuel) ncols out enough =
      rw no_row (ap (λ o. some (record { db = s.db; stdout = o })) (sym (append-nil out)))
  print_records-record_lines _ _ _ (fetched s rows db row more) zero ncols out enough =
      absurd (omega arith)
  print_records-record_lines _ _ _ (fetched s rows db row more) (suc fuel) ncols out enough =
      rw row (
        print_records-record_lines _ rows db more fuel ncols (print_record ncols s.stmt out)
          (omega arith)
        ∙ ap (λ o. some (record { db = db; stdout = o }))
            (ap (λ o. o ++ record_lines ncols rows) (print_record-record_line ncols s.stmt out)
              ∙ append_assoc out (record_line ncols s.stmt) (record_lines ncols rows)))

  -- If the statement has these rows, the first of which is where the first step leaves it,
  -- `print_stmt_result` ends, with fuel for one round more than there are rows. It prints a line for
  -- each column, then one for each row, with its fields between quotes.
  pub print_stmt_result-lines :
      (p : Printed Db) (stmt : Stmt) (rows : List Stmt) (db : Db) (fuel : ℕ)
      → Fetches S (step p.db stmt) rows db
      → length rows < fuel
      → print_stmt_result fuel p stmt
        ≡ some (record {
          db = db;
          stdout =
              p.stdout
              ++ (texts (column_count (step p.db stmt).stmt) (column_line (step p.db stmt).stmt)
                  ++ record_lines (column_count (step p.db stmt).stmt) rows);
        })
  unfolding print_stmt_result
  print_stmt_result-lines p stmt rows db fuel fetches enough =
      let first = (step p.db stmt).stmt in
      let ncols = column_count first in
      print_records-record_lines (step p.db stmt) rows db fetches fuel ncols _ enough
      ∙ ap (λ o. some (record { db = db; stdout = o }))
          (ap (λ o. o ++ record_lines ncols rows) (for_up-texts ncols (column_line first) p.stdout)
            ∙ append_assoc p.stdout (texts ncols (column_line first)) (record_lines ncols rows))
