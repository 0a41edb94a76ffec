-- ===== src/Util/Tests.antt =====
-- Runs of common/util.c.
use sql_code.Common.{
  true, ◌∙◌, List, ◌++◌, ltb, ◌==◌, drop, ap, if◌then◌else◌, drop-length-append, for_up, ℕ, zero,
  suc, ◌≡◌, ◌≢◌, ◌<◌, refl, [], ◌∷◌, none, some, length, get_or, arith, map,
}
use sql_code.CText.{Bytes, strcmp_eq, codes, to_lower, format_int}
use sql_code.Util.{
  Table, cell, uppercase, lowercase, column_widths, widen_row, print_row, print_rule,
  print_sql_result,
}
use sql_code.Common.Int.{pos}
use sql_code.Sqlite.{Sqlite}
use sql_code.StrictTyping.Example.{has, without, has-without}
use sql_code.Util.Statements.{
  Console, count_tables, drop_statement, drop_table, Catalogued, Left, drop_table-removes,
}
use sql_code.Util.Result.{
  Printed, print_stmt_result, texts, column_line, record_lines, Fetches, ended, fetched,
  print_stmt_result-lines,
}
use sql_code.Util.Case.{lowercase_fails}
use sql_code.Util.Widths.{longest, column_widths-longest, print_row-aligned}

-- Two columns, a row of names and two rows, of which one has a NULL.
abbrev foods : Table
foods = record {
  result =
      some (codes "id")
      ∷ some (codes "name")
      ∷ some (codes "1")
      ∷ some (codes "Bagels")
      ∷ some (codes "12")
      ∷ none
      ∷ [];
  nrows = 2;
  ncols = 2;
}

test_print_sql_result :
    print_sql_result (codes "(null)") foods []
    ≡ codes "id name   \n-- ------ \n1  Bagels \n12 (null) \n"
unfolding print_sql_result column_widths widen_row for_up
test_print_sql_result = refl

lowercase_fails_example :
    (lowercase (some (codes "INT")) ≡ uppercase (some (codes "INT")))
    × (lowercase (some (codes "INT")) ≢ some (map to_lower (codes "INT")))
lowercase_fails_example = lowercase_fails (codes "INT") refl

column_widths-longest_example :
    (length (column_widths foods) ≡ 2)
    × ((j : ℕ) → j < 2 → get_or (column_widths foods) j 0 ≡ longest foods 3 j)
column_widths-longest_example = column_widths-longest foods

filled : (j : ℕ) → j < 2 → cell foods 1 j ≢ none
filled zero h e = cc
filled (suc zero) h e = cc
filled (suc (suc j)) h e = absurd (omega arith)

print_row-aligned_example :
    length (print_row (codes "(null)") foods (column_widths foods) 1 [])
    ≡ length (print_rule (column_widths foods) 2 [])
print_row-aligned_example = print_row-aligned (codes "(null)") foods 1 [] (omega arith) filled

-- A SQLite on whose tables `drop_table` can be run: a database is the list of its tables.
abbrev tables : Sqlite
tables = record {
  Db = List Bytes;
  Stmt = ℕ;
  mprintf = λ f args. elim args [ [] ↦ f | a ∷ _ ↦ f ++ a ];
  exec =
      λ db sql. record { db = without db (drop (length drop_statement) sql); rc = 0; err = none };
  prepare =
      λ db sql. record { rc = 0; stmt = if has db (drop (length count_tables) sql) then 1 else 0 };
  step = λ db stmt. record { db = db; rc = 100; stmt = stmt };
  errmsg = λ db. [];
  column_count = λ stmt. 1;
  column_int = λ stmt i. pos stmt;
  column_type = λ stmt i. pos 1;
  column_name = λ stmt i. codes "count(*)";
  column_text = λ stmt i. [];
  column_decltype = λ stmt i. none;
}

abbrev episodes : Console (List Bytes)
episodes = record { db = codes "foods" ∷ codes "episodes" ∷ []; stderr = [] }

foods_there : has episodes.db (codes "foods") ≡ true
unfolding has strcmp_eq
foods_there = refl

foods-Catalogued : Catalogued tables has episodes.db (codes "foods") 1
foods-Catalogued = record {
  unchanged = refl;
  counted =
      ap (λ n. pos (if has episodes.db n then 1 else 0))
        (drop-length-append count_tables (codes "foods"))
      ∙ ap (λ there. pos (if there then 1 else 0)) foods_there;
  succeeds = λ ok n.
      ap (λ m. has (without episodes.db m) n) (drop-length-append drop_statement (codes "foods"))
      ∙ has-without episodes.db (codes "foods") n;
  fails = λ refused. absurd (refused refl);
}

drop_table-removes_example :
    ((drop_table tables episodes (codes "foods")).code ≡ 1)
    × Left tables has episodes
        (codes "foods")
        1
        (drop_table tables episodes (codes "foods")).console
drop_table-removes_example =
    drop_table-removes tables has episodes (codes "foods") 1 foods-Catalogued

-- A statement with two rows, of which the second has a NULL; it is the number of steps made.
abbrev two_foods : Sqlite
two_foods = record tables {
  Db = ℕ;
  Stmt = ℕ;
  exec = λ db sql. record { db = db; rc = 0; err = none };
  prepare = λ db sql. record { rc = 0; stmt = 0 };
  step = λ db n. record { db = db; rc = if ltb n 2 then 100 else 101; stmt = suc n };
  errmsg = λ db. [];
  column_count = λ stmt. 2;
  column_int = λ stmt i. pos stmt;
  column_type = λ stmt i. if i == 0 then pos 1 else if stmt == 2 then pos 5 else pos 3;
  column_name = λ stmt i. if i == 0 then codes "id" else codes "name";
  column_text =
      λ stmt i. if i == 0 then (if stmt == 2 then codes "2" else codes "1") else codes "Bagels";
  column_decltype = λ stmt i. if i == 0 then some (codes "integer") else none;
}

abbrev unprinted : Printed ℕ
unprinted = record { db = 7; stdout = [] }

test_print_stmt_result :
    print_stmt_result two_foods (codes "(null)") 3 unprinted 0
    ≡ some (record {
      db = 7;
      stdout =
          codes
            "  Column: id (1/integer)\n  Column: name (3/(null))\n  Record: '1' 'Bagels' \n  Record: '2' '(null)' \n";
    })
unfolding print_stmt_result for_up format_int
test_print_stmt_result = refl

two_foods-Fetches : Fetches two_foods (two_foods.step 7 0) (1 ∷ 2 ∷ []) 7
two_foods-Fetches = fetched _ _ 7 refl (fetched _ _ 7 refl (ended (two_foods.step 7 2) refl))

print_stmt_result-lines_example :
    print_stmt_result two_foods (codes "(null)") 3 unprinted 0
    ≡ some (record {
      db = 7;
      stdout =
          texts 2 (column_line two_foods (codes "(null)") 1)
          ++ record_lines two_foods (codes "(null)") 2 (1 ∷ 2 ∷ []);
    })
print_stmt_result-lines_example =
    print_stmt_result-lines two_foods (codes "(null)") unprinted 0 (1 ∷ 2 ∷ []) 7 3
      two_foods-Fetches (omega arith)
