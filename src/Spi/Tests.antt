-- ===== src/Spi/Tests.antt =====
-- Runs of the functions that run a query.
use sql_code.SerialFft.{literal_tables}
use sql_code.Common.{
  ℕ, zero, suc, ◌+◌, ◌<◌, ◌≡◌, refl, arith, List, [], ◌∷◌, Option, none, some, for_up, get_or,
  get_elem?, take, ◌-◌, length, map,
}
use sql_code.Common.Int.{ℤ, pos}
use sql_code.CText.{Bytes, codes}
use sql_code.Spi.{TupTable, SpiExec, Reading, execq, fft_main}
use sql_code.Fourier.{Complex, dft}
use sql_code.Fourier.Example.{
  quarters, quarter_angle, quarters-Exact, quarters-halves, quarters-angles,
}
use sql_code.Fourier.Root.{angle}
use sql_code.SerialFft.Example.{quarters-ExactTables}
use sql_code.Spi.RowText.{row_line}
use sql_code.Spi.Transform.{Reads, fft_main-dft}
use sql_code.Spi.Reports.{Holds, row_message, execq-rows}

abbrev two_rows : List (List Bytes)
two_rows = (codes "1" ∷ codes "one" ∷ []) ∷ (codes "2" ∷ codes "two" ∷ []) ∷ []

abbrev two_columns : TupTable
two_columns = record { natts = 2; value = λ j i. get_elem? (get_or two_rows j []) (i - 1) }

abbrev selected : SpiExec
selected = record { ret = pos 5; processed = 2; tuptable = some two_columns }

test_execq :
    execq selected
    ≡ some (record { messages = codes "ROW:  1 | one " ∷ codes "ROW:  2 | two " ∷ []; result = 2 })
unfolding execq for_up
test_execq = refl

none_below : (j : ℕ) → suc (suc j) < 2 → ⊥
none_below j lt = omega arith

two_fields : (j : ℕ) → j < 2 → length (get_or two_rows j []) ≡ 2
two_fields zero lt = refl
two_fields (suc zero) lt = refl
two_fields (suc (suc j)) lt = elim (none_below j lt) [ ]

each_value :
    (j k : ℕ)
    → j < 2
    → k < 2
    → two_columns.value j (k + 1) ≡ some (get_or (get_or two_rows j []) k [])
each_value zero zero lt less = refl
each_value zero (suc zero) lt less = refl
each_value (suc zero) zero lt less = refl
each_value (suc zero) (suc zero) lt less = refl
each_value (suc (suc j)) k lt less = elim (none_below j lt) [ ]
each_value j (suc (suc k)) lt less = elim (none_below k less) [ ]

two_rows-Holds : Holds two_columns two_rows
two_rows-Holds = record { columns = two_fields; values = each_value }

execq-rows_example :
    execq selected ≡ some (record { messages = map row_message two_rows; result = 2 })
execq-rows_example = execq-rows selected two_columns two_rows refl refl refl two_rows-Holds

-- One column with the texts 1, 2, 3, 5.
abbrev one_digits : ℕ → Bytes
one_digits i = get_or (codes "1" ∷ codes "2" ∷ codes "3" ∷ codes "5" ∷ []) i []

abbrev digit_rows : TupTable
digit_rows = record { natts = 1; value = λ j i. some (one_digits j) }

abbrev digits_selected : SpiExec
digits_selected = record { ret = pos 5; processed = 4; tuptable = some digit_rows }

-- The number of one digit behind a blank.
abbrev scan_digit : Bytes → Option ℤ
scan_digit [] = none
scan_digit (blank ∷ []) = none
scan_digit (blank ∷ digit ∷ text) = some (pos (digit - 48))

abbrev unread : Reading ℤ
unread = record { r = pos 0; x = λ i. record { real = pos 7; imagin = pos 8 } }

abbrev digits : ℕ → ℤ
digits i = pos (get_or (1 ∷ 2 ∷ 3 ∷ 5 ∷ []) i 0)

none_left : (i : ℕ) → suc (suc (suc (suc i))) < 4 → ⊥
none_left i lt = omega arith

digits_scanned :
    (i : ℕ) → i < 4 → scan_digit (take 9 (row_line (one_digits i ∷ []))) ≡ some (digits i)
unfolding row_line
digits_scanned zero lt = refl
digits_scanned (suc zero) lt = refl
digits_scanned (suc (suc zero)) lt = refl
digits_scanned (suc (suc (suc zero))) lt = refl
digits_scanned (suc (suc (suc (suc i)))) lt = elim (none_left i lt) [ ]

digit_rows-Reads : Reads quarters scan_digit digit_rows 4 digits
digit_rows-Reads = record {
  texts = one_digits;
  one_column = refl;
  values = λ i lt. refl;
  scans = digits_scanned;
}

fft_main-dft_example :
    (d : ℕ → Complex ℤ) × (fft_main quarters scan_digit
        (literal_tables quarters (pos 0))
        33
        digits_selected
        unread
      ≡ some d)
    × ((i : ℕ) → i < 4 → d i ≡ dft quarters digits unread.x 4 i)
fft_main-dft_example =
    fft_main-dft quarters scan_digit (literal_tables quarters (pos 0)) 33 0 digits_selected unread
      digit_rows digits unread.x refl refl refl (omega arith) digit_rows-Reads
      (quarters-Exact (angle quarters 4) quarter_angle) quarters-angles quarters-halves
      (omega arith) quarters-ExactTables
