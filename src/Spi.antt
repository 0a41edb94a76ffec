-- ===== src/Spi.antt =====
-- The functions that run a query through the server: `execq` of Greenplum/functions/c/spi_exeq.c, and
-- `fft_main` of fourier_transform/fft_serial/main.c there. What SPI_exec leaves in the server's globals
-- is an argument. The text of a NULL field is a null pointer, which `%s` must not be given: a fault.
pub mod RowText
pub mod Reports
pub mod Transform
mod Tests
use sql_code.SerialFft.{TrigTables}
use sql_code.Common.{
  ℕ, suc, ◌+◌, ◌-◌, ◌%◌, Bool, true, false, List, [], ◌∷◌, ◌++◌, Option, none, some, ◌==◌, ltb,
  if◌then◌else◌, for_up, length, take, ◌&&◌,
}
use sql_code.Common.Int.{ℤ, pos, negsuc}
use sql_code.CText.{Bytes, codes}
use sql_code.Greenplum.{int32_words}
use sql_code.Fourier.{Double, Complex, store}
use sql_code.SerialFft.Real.{serial_fft_real}

-- SPI_tuptable: the number of columns, and SPI_getvalue of a row and a column, which counts from 1.
pub record TupTable : Type 0 where
  pub natts : ℕ
  pub value : ℕ → ℕ → Option Bytes

-- The result of SPI_exec, SPI_processed and SPI_tuptable.
pub record SpiExec : Type 0 where
  pub ret : ℤ
  pub processed : ℕ
  pub tuptable : Option TupTable

-- `snprintf(buf + strlen(buf), size - strlen(buf), ...)` where the text is printed: as much of it is
-- appended as there is room for, with one byte for the terminating zero.
unfoldable pub snprintf_onto : ℕ → Bytes → Bytes → Bytes
snprintf_onto size buf text = buf ++ take (size - length buf - 1) text

-- The text for the column `i`.
abbrev pub column_text : ℕ → ℕ → Bytes → Bytes
column_text natts i v = codes " " ++ (v ++ (if i == natts then codes " " else codes " |"))

-- What the loop over the columns leaves in `buf`, which has `size` bytes, for the row `j`.
unfoldable pub row_text : ℕ → TupTable → ℕ → Option Bytes
unfolding snprintf_onto
row_text size t j =
    for_up t.natts
      (λ k acc. elim acc [
        | none ↦ none
        | some buf ↦ elim (t.value j (k + 1)) [
          | none ↦ none
          | some v ↦ some (snprintf_onto size buf (column_text t.natts (k + 1) v))
        ]
      ])
      (some [])

abbrev pub is_positive : ℤ → Bool
is_positive (pos n) = ltb 0 n
is_positive (negsuc n) = false

-- The table, if `ret > 0 && SPI_tuptable != NULL`.
abbrev pub table_if : Option TupTable → Bool → Option TupTable
table_if none positive = none
table_if (some t) true = some t
table_if (some t) false = none

abbrev pub fetched : SpiExec → Option TupTable
fetched r = table_if r.tuptable (is_positive r.ret)

-- The messages for the first `n` rows.
unfoldable pub report_rows : TupTable → ℕ → Option (List Bytes)
unfolding row_text
report_rows t n =
    for_up n
      (λ j acc. elim acc [
        | none ↦ none
        | some messages ↦ elim (row_text 8192 t j) [
          | none ↦ none
          | some buf ↦ some (messages ++ ((codes "ROW: " ++ buf) ∷ []))
        ]
      ])
      (some [])

-- What a function reports, and the `int32` that it returns.
pub record Reported : Type 0 where
  pub messages : List Bytes
  pub result : ℕ

unfoldable pub execq : SpiExec → Option Reported
unfolding report_rows
execq r =
    let returned = r.processed % int32_words in
    elim (fetched r) [
      | none ↦ some (record { messages = []; result = returned })
      | some t ↦ elim (report_rows t r.processed) [
        | none ↦ none
        | some messages ↦ some (record { messages = messages; result = returned })
      ]
    ]

-- `r` and the global `x`.
pub record Reading (R : Type 0) : Type 0 where
  pub r : R
  pub x : ℕ → Complex R

module _ (D : Double) (scan : Bytes → Option D.R) where
  -- The round for the row `j`: `scan` is `sscanf` with `%f`, `none` if it finds no number, and then
  -- `r` is as it was. A write behind the 128 elements of `x` is a fault.
  unfoldable pub read_round : TupTable → ℕ → Reading D.R → Option (Reading D.R)
  unfolding row_text
  read_round t j s = elim (row_text 10 t j) [
    | none ↦ none
    | some buf ↦
        let r : D.R = elim (scan buf) [ none ↦ s.r | some v ↦ v ] in
        if ltb j 128
        then some (record { r = r; x = store s.x j (record { real = r; imagin = D.of_ℕ 0 }) })
        else none
  ]

  unfoldable pub read_rows : TupTable → ℕ → Reading D.R → Option (Reading D.R)
  unfolding read_round
  read_rows t n s =
      for_up n (λ j acc. elim acc [ none ↦ none | some s ↦ read_round t j s ]) (some s)

  -- `fft_main`, with the array `x` that it leaves; what it reports is left out.
  unfoldable pub fft_main : TrigTables D.R → ℕ → SpiExec → Reading D.R → Option (ℕ → Complex D.R)
  unfolding read_rows serial_fft_real
  fft_main tb fuel r s =
      let size = r.processed % int32_words in
      elim (fetched r) [
        | none ↦ some (serial_fft_real D tb fuel size s.x)
        | some t ↦ elim (read_rows t r.processed s) [
          | none ↦ none
          | some s' ↦ some (serial_fft_real D tb fuel size s'.x)
        ]
      ]
