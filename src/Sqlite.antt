-- ===== src/Sqlite.antt =====
-- The calls of the SQLite library that the C examples make. The library is third-party code, so it
-- is a parameter: a value of `Sqlite` gives its types and functions, and what a theorem relies on is
-- a named hypothesis over them.
use sql_code.Common.Int.{ℤ}
use sql_code.Common.{ℕ, List, Option}
use sql_code.CText.{Bytes}

-- The result codes that the examples name.
abbrev pub sqlite_ok : ℕ
sqlite_ok = 0

abbrev pub sqlite_ignore : ℕ
sqlite_ignore = 2

abbrev pub sqlite_row : ℕ
sqlite_row = 100

-- The type of a NULL.
abbrev pub sqlite_null : ℕ
sqlite_null = 5

-- The action codes of the authorizer callback.
abbrev pub sqlite_create_index : ℕ
sqlite_create_index = 1

abbrev pub sqlite_create_table : ℕ
sqlite_create_table = 2

abbrev pub sqlite_create_temp_index : ℕ
sqlite_create_temp_index = 3

abbrev pub sqlite_create_temp_table : ℕ
sqlite_create_temp_table = 4

abbrev pub sqlite_create_temp_trigger : ℕ
sqlite_create_temp_trigger = 5

abbrev pub sqlite_create_temp_view : ℕ
sqlite_create_temp_view = 6

abbrev pub sqlite_create_trigger : ℕ
sqlite_create_trigger = 7

abbrev pub sqlite_create_view : ℕ
sqlite_create_view = 8

abbrev pub sqlite_delete : ℕ
sqlite_delete = 9

abbrev pub sqlite_drop_index : ℕ
sqlite_drop_index = 10

abbrev pub sqlite_drop_table : ℕ
sqlite_drop_table = 11

abbrev pub sqlite_drop_temp_index : ℕ
sqlite_drop_temp_index = 12

abbrev pub sqlite_drop_temp_table : ℕ
sqlite_drop_temp_table = 13

abbrev pub sqlite_drop_temp_trigger : ℕ
sqlite_drop_temp_trigger = 14

abbrev pub sqlite_drop_temp_view : ℕ
sqlite_drop_temp_view = 15

abbrev pub sqlite_drop_trigger : ℕ
sqlite_drop_trigger = 16

abbrev pub sqlite_drop_view : ℕ
sqlite_drop_view = 17

abbrev pub sqlite_insert : ℕ
sqlite_insert = 18

abbrev pub sqlite_pragma : ℕ
sqlite_pragma = 19

abbrev pub sqlite_read : ℕ
sqlite_read = 20

abbrev pub sqlite_select : ℕ
sqlite_select = 21

abbrev pub sqlite_transaction : ℕ
sqlite_transaction = 22

abbrev pub sqlite_update : ℕ
sqlite_update = 23

abbrev pub sqlite_attach : ℕ
sqlite_attach = 24

abbrev pub sqlite_detach : ℕ
sqlite_detach = 25

-- What `sqlite3_exec` hands back: the return code, and the text behind `&err`.
pub record Executed (Db : Type 0) : Type 0 where
  pub db : Db
  pub rc : ℕ
  pub err : Option Bytes

-- What `sqlite3_step` hands back: the return code, and the statement on its new row.
pub record Stepped (Db Stmt : Type 0) : Type 0 where
  pub db : Db
  pub rc : ℕ
  pub stmt : Stmt

-- What `sqlite3_prepare` hands back.
pub record Prepared (Stmt : Type 0) : Type 0 where
  pub rc : ℕ
  pub stmt : Stmt

pub record Sqlite : Type 1 where
  pub Db : Type 0
  pub Stmt : Type 0
  -- `sqlite3_mprintf`: a format and the texts for its `%s`
  pub mprintf : Bytes → List Bytes → Bytes
  pub exec : Db → Bytes → Executed Db
  pub prepare : Db → Bytes → Prepared Stmt
  pub step : Db → Stmt → Stepped Db Stmt
  pub errmsg : Db → Bytes
  pub column_count : Stmt → ℕ
  pub column_int : Stmt → ℕ → ℤ
  pub column_type : Stmt → ℕ → ℤ
  pub column_name : Stmt → ℕ → Bytes
  pub column_text : Stmt → ℕ → Bytes
  pub column_decltype : Stmt → ℕ → Option Bytes
