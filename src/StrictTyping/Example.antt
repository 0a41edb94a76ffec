-- ===== src/StrictTyping/Example.antt =====
-- A small SQLite for the runs of the strict typing code: a table t with a column id that is its primary
-- key and a column n of type INT. A database is the list of its triggers.
use sql_code.Common.Int.{pos}
use sql_code.Common.{
  ℕ, zero, suc, ◌≡◌, refl, Bool, true, false, ◌||◌, List, [], ◌∷◌, ◌++◌, none, some, arith,
  if◌then◌else◌,
}
use sql_code.CText.{Bytes, codes, strcmp_eq, strcmp_eq_iff}
use sql_code.Sqlite.{Sqlite, Executed, sqlite_ok, sqlite_row}
use sql_code.StrictTyping.{
  select_validate, create_insert_trigger, create_update_trigger, drop_insert_trigger,
  drop_update_trigger, table_info, select_column,
}
use sql_code.StrictTyping.Triggers.{insert_name, update_name, Sets, Catalog}
use sql_code.StrictTyping.Columns.{ColumnInfo, Cursor, finished, row}

-- The arguments, each with a semicolon behind it, stand behind the format.
joined : List Bytes → Bytes
joined [] = []
joined (a ∷ args) = a ++ (b';' ∷ joined args)

abbrev pub format : Bytes → List Bytes → Bytes
unfolding joined
format f args = f ++ joined args

unfoldable pub has : List Bytes → Bytes → Bool
has [] n = false
has (t ∷ ts) n = strcmp_eq t n || has ts n

unfoldable pub without : List Bytes → Bytes → List Bytes
without [] n = []
without (t ∷ ts) n = let rest = without ts n in if strcmp_eq t n then rest else t ∷ rest

abbrev pub ok : List Bytes → Executed (List Bytes)
ok db = record { db = db; rc = sqlite_ok; err = none }

abbrev pub refused : List Bytes → Bytes → Executed (List Bytes)
refused db m = record { db = db; rc = 1; err = some m }

unfoldable pub create : List Bytes → Bytes → Executed (List Bytes)
unfolding has
create db n = if has db n then refused db (codes "trigger already exists") else ok (n ∷ db)

unfoldable pub drop_trigger : List Bytes → Bytes → Executed (List Bytes)
unfolding has without
drop_trigger db n = if has db n then ok (without db n) else refused db (codes "no such trigger")

abbrev pub t_insert : Bytes
t_insert = insert_name (codes "t") (codes "n")

abbrev pub t_update : Bytes
t_update = update_name (codes "t") (codes "n")

unfoldable pub exec : List Bytes → Bytes → Executed (List Bytes)
unfolding create drop_trigger
exec db sql =
    if strcmp_eq sql (format select_validate (codes "int" ∷ []))
    then ok db
    else if strcmp_eq sql (
        format create_insert_trigger (
          codes "t"
          ∷ codes "n"
          ∷ codes "t"
          ∷ codes "int"
          ∷ codes "n"
          ∷ codes "int"
          ∷ codes "t"
          ∷ codes "n"
          ∷ []))
    then create db t_insert
    else if strcmp_eq sql (
        format create_update_trigger (
          codes "t"
          ∷ codes "n"
          ∷ codes "n"
          ∷ codes "t"
          ∷ codes "int"
          ∷ codes "n"
          ∷ codes "int"
          ∷ codes "t"
          ∷ codes "n"
          ∷ []))
    then create db t_update
    else if strcmp_eq sql (format drop_insert_trigger (codes "t" ∷ codes "n" ∷ []))
    then drop_trigger db t_insert
    else if strcmp_eq sql (format drop_update_trigger (codes "t" ∷ codes "n" ∷ []))
    then drop_trigger db t_update
    else refused db (codes "syntax error")

-- A statement is the number of its rows that have been stepped to.
abbrev pub sqlite : Sqlite
sqlite = record {
  Db = List Bytes;
  Stmt = ℕ;
  mprintf = format;
  exec = exec;
  prepare = λ db sql. record { rc = sqlite_ok; stmt = 0 };
  step = λ db stmt. record {
    db = db;
    rc = elim stmt [ zero ↦ sqlite_row | suc zero ↦ sqlite_row | suc (suc _) ↦ 101 ];
    stmt = suc stmt;
  };
  errmsg = λ db. codes "not an error";
  column_count = λ stmt. 6;
  column_int = λ stmt i. elim stmt [ zero ↦ pos 0 | suc zero ↦ pos 1 | suc (suc _) ↦ pos 0 ];
  column_type = λ stmt i. pos 3;
  column_name = λ stmt i. codes "name";
  column_text = λ stmt i. elim stmt [ zero ↦ [] | suc zero ↦ codes "id" | suc (suc _) ↦ codes "n" ];
  column_decltype = λ stmt i. some (codes "INT");
}

pub has-without :
    (ts : List Bytes) (n m : Bytes)
    → has (without ts n) m ≡ (if strcmp_eq n m then false else has ts m)
unfolding has without
has-without [] n m = ground arith
has-without (t ∷ ts) n m =
    ground (arith, has-without ts n m, strcmp_eq_iff t n, strcmp_eq_iff n m, strcmp_eq_iff t m)

create-Sets :
    (sql n : Bytes) → ((db : List Bytes) → exec db sql ≡ create db n) → Sets sqlite has sql n true
unfolding create has
create-Sets sql n e = record {
  succeeds =
      λ db absent. (n ∷ db, rw (e db, create, absent) refl, λ m. ground (arith, strcmp_eq_iff n m));
  fails = λ db present. (codes "trigger already exists", rw (e db, create, present) refl);
}

drop-Sets :
    (sql n : Bytes)
    → ((db : List Bytes) → exec db sql ≡ drop_trigger db n)
    → Sets sqlite has sql n false
unfolding drop_trigger
drop-Sets sql n e = record {
  succeeds =
      λ db present. (without db n, rw (e db, drop_trigger, present) refl, λ m. has-without db n m);
  fails = λ db absent. (codes "no such trigger", rw (e db, drop_trigger, absent) refl);
}

pub catalog : Catalog sqlite has (codes "t") (codes "n") (codes "int")
unfolding exec joined strcmp_eq sql_code.StrictTyping.column_type sql_code.CText.to_lower
catalog = record {
  typed = λ db. refl;
  validated = λ db. refl;
  creates_insert = create-Sets _ t_insert (λ db. refl);
  creates_update = create-Sets _ t_update (λ db. refl);
  drops_insert = drop-Sets _ t_insert (λ db. refl);
  drops_update = drop-Sets _ t_update (λ db. refl);
}

abbrev pub id_column : ColumnInfo
id_column = record { name = codes "id"; pk = pos 1 }

abbrev pub n_column : ColumnInfo
n_column = record { name = codes "n"; pk = pos 0 }

pub cursor : Cursor sqlite 0 (id_column ∷ n_column ∷ [])
cursor =
    row (λ db. refl) refl refl
      (row (λ db. refl) refl refl (finished (λ db. refl) (λ e. ground arith)))
