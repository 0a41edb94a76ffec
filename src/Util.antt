-- ===== src/Util.antt =====
-- The helpers that the SQLite examples share:
-- The_Definitive_Guide_to_SQLITE/ch01/examples/common/util.c.
-- `stdout` and `stderr` are the bytes written so far.
pub mod Case
pub mod Events
pub mod Widths
pub mod Statements
pub mod Result
mod Tests
use sql_code.Common.Int.{ℤ}
use sql_code.Common.{
  ℕ, zero, suc, ◌+◌, ◌*◌, Bool, true, false, List, [], ◌∷◌, ◌++◌, map, Option, none, some, arith,
  ltb, ◌==◌, if◌then◌else◌, length, get_or, set, replicate, for_up,
}
use sql_code.CText.{Bytes, codes, to_upper, to_lower, pad_right, format_int}
use sql_code.Sqlite.{
  Sqlite, Executed, sqlite_ok, sqlite_row, sqlite_create_index, sqlite_create_table,
  sqlite_create_temp_index, sqlite_create_temp_table, sqlite_create_temp_trigger,
  sqlite_create_temp_view, sqlite_create_trigger, sqlite_create_view, sqlite_delete,
  sqlite_drop_index, sqlite_drop_table, sqlite_drop_temp_index, sqlite_drop_temp_table,
  sqlite_drop_temp_trigger, sqlite_drop_temp_view, sqlite_drop_trigger, sqlite_drop_view,
  sqlite_insert, sqlite_pragma, sqlite_read, sqlite_select, sqlite_transaction, sqlite_update,
  sqlite_attach, sqlite_detach,
}
use Prim.Native.String.{String}

-- The loop of `convert_string`: it calls `toupper`, whatever function it was given.
convert_bytes : (ℕ → ℕ) → Bytes → Bytes
convert_bytes fn [] = []
convert_bytes fn (c ∷ s) = to_upper c ∷ convert_bytes fn s

unfoldable pub convert_string : Option Bytes → (ℕ → ℕ) → Option Bytes
unfolding convert_bytes
convert_string none fn = none
convert_string (some s) fn = some (convert_bytes fn s)

unfoldable pub lowercase : Option Bytes → Option Bytes
unfolding convert_string
lowercase value = convert_string value to_lower

unfoldable pub uppercase : Option Bytes → Option Bytes
unfolding convert_string
uppercase value = convert_string value to_upper

-- What `sqlite3_get_table` fills in: `(nrows + 1) * ncols` cells, the row of names first.
pub record Table : Type 0 where
  pub result : List (Option Bytes)
  pub nrows : ℕ
  pub ncols : ℕ

abbrev pub cell : Table → ℕ → ℕ → Option Bytes
cell t i j = get_or t.result (i * t.ncols + j) none

widen : Option Bytes → ℕ → List ℕ → List ℕ
widen none j widths = widths
widen (some s) j widths =
    if ltb (get_or widths j 0) (length s) then set widths j (length s) else widths

-- The two loops of `print_sql_result` that determine the column widths.
unfoldable pub widen_row : Table → ℕ → List ℕ → List ℕ
unfolding widen
widen_row t i widths = for_up t.ncols (λ j. widen (cell t i j) j) widths

unfoldable pub column_widths : Table → List ℕ
column_widths t = for_up (suc t.nrows) (widen_row t) (replicate t.ncols 0)

-- The line of dashes under the row of names.
unfoldable pub print_rule : List ℕ → ℕ → Bytes → Bytes
print_rule widths ncols out =
    for_up ncols (λ k o. for_up (get_or widths k 0) (λ _ p. p ++ (b'-' ∷ [])) o ++ (b' ' ∷ [])) out
    ++ (b'\n' ∷ [])

-- `null_text` is what the C library prints for a null pointer under `%s`.
abbrev pub shown : Bytes → Option Bytes → Bytes
shown null_text none = null_text
shown null_text (some s) = s

unfoldable pub print_row : Bytes → Table → List ℕ → ℕ → Bytes → Bytes
print_row null_text t widths i out =
    for_up t.ncols (λ j o. o ++ pad_right (get_or widths j 0 + 1) (shown null_text (cell t i j)))
      out
    ++ (b'\n' ∷ [])

unfoldable pub print_sql_result : Bytes → Table → Bytes → Bytes
unfolding print_rule print_row
print_sql_result null_text t out =
    let widths = column_widths t in
    for_up (suc t.nrows)
      (λ i o. print_row null_text t widths i (if i == 1 then print_rule widths t.ncols o else o))
      out

-- A `switch` whose every case returns: the first label that fits, or the return behind it.
switch {ℓ} : {A : Type ℓ} → List (ℕ × A) → A → ℕ → A
switch [] other type = other
switch ((label, name) ∷ cases) other type = if type == label then name else switch cases other type

abbrev event_names : List (ℕ × String)
event_names =
    (sqlite_create_index, "SQLITE_CREATE_INDEX")
    ∷ (sqlite_create_table, "SQLITE_CREATE_TABLE")
    ∷ (sqlite_create_temp_index, "SQLITE_CREATE_TEMP_INDEX")
    ∷ (sqlite_create_temp_table, "SQLITE_CREATE_TEMP_TABLE")
    ∷ (sqlite_create_temp_trigger, "SQLITE_CREATE_TEMP_TRIGGER")
    ∷ (sqlite_create_temp_view, "SQLITE_CREATE_TEMP_VIEW")
    ∷ (sqlite_create_trigger, "SQLITE_CREATE_TRIGGER")
    ∷ (sqlite_create_view, "SQLITE_CREATE_VIEW")
    ∷ (sqlite_delete, "SQLITE_DELETE")
    ∷ (sqlite_drop_index, "SQLITE_DROP_INDEX")
    ∷ (sqlite_drop_table, "SQLITE_DROP_TABLE")
    ∷ (sqlite_drop_temp_index, "SQLITE_DROP_TEMP_INDEX")
    ∷ (sqlite_drop_temp_table, "SQLITE_DROP_TEMP_TABLE")
    ∷ (sqlite_drop_temp_trigger, "SQLITE_DROP_TEMP_TRIGGER")
    ∷ (sqlite_drop_temp_view, "SQLITE_DROP_TEMP_VIEW")
    ∷ (sqlite_drop_trigger, "SQLITE_DROP_TRIGGER")
    ∷ (sqlite_drop_view, "SQLITE_DROP_VIEW")
    ∷ (sqlite_insert, "SQLITE_INSERT")
    ∷ (sqlite_pragma, "SQLITE_PRAGMA")
    ∷ (sqlite_read, "SQLITE_READ")
    ∷ (sqlite_select, "SQLITE_SELECT")
    ∷ (sqlite_transaction, "SQLITE_TRANSACTION")
    ∷ (sqlite_update, "SQLITE_UPDATE")
    ∷ (sqlite_attach, "SQLITE_ATTACH")
    ∷ (sqlite_detach, "SQLITE_DETACH")
    ∷ []

unfoldable pub event_description : ℕ → String
unfolding switch
event_description = switch event_names "UNKNOWN EVENT"
