-- ===== src/Spi/Reports.antt =====
-- What `execq` reports.
use sql_code.Common.{
  ℕ, zero, suc, ◌+◌, ◌%◌, ◌≡◌, ◌<◌, ◌≤◌, refl, sym, ap, ap₂, ◌∙◌, arith, List, [], ◌∷◌, ◌++◌, map,
  Option, some, none, true, for_up_inv, length, take, get_or,
}
use mathlib.Core.List.{map-append}
use sql_code.CText.{Bytes, codes}
use sql_code.Greenplum.{int32_words}
use sql_code.Spi.{TupTable, SpiExec, Reported, row_text, report_rows, is_positive, table_if, execq}
use sql_code.Spi.RowText.{row_line, row_text-row_line}

-- The table holds these rows, none of whose fields is NULL.
pub record Holds (t : TupTable) (rows : List (List Bytes)) : Type 0 where
  pub columns : (j : ℕ) → j < length rows → length (get_or rows j []) ≡ t.natts
  pub values :
      (j k : ℕ)
      → j < length rows
      → k < t.natts
      → t.value j (k + 1) ≡ some (get_or (get_or rows j []) k [])

take-suc :
    (k : ℕ) (rows : List (List Bytes))
    → k < length rows
    → take (suc k) rows ≡ take k rows ++ (get_or rows k [] ∷ [])
take-suc k [] lt = absurd (omega arith)
take-suc zero (r ∷ rows) lt = refl
take-suc (suc k) (r ∷ rows) lt = ap (◌∷◌ r) (take-suc k rows (omega arith))

take-length : (n : ℕ) (rows : List (List Bytes)) → length rows ≡ n → take n rows ≡ rows
take-length zero [] e = refl
take-length zero (r ∷ rows) e = absurd (omega (arith, e))
take-length (suc n) [] e = refl
take-length (suc n) (r ∷ rows) e = ap (◌∷◌ r) (take-length n rows (omega (arith, e)))

-- The message for a row: the line of its fields, cut off behind 8191 bytes.
abbrev pub row_message : List Bytes → Bytes
row_message vs = codes "ROW: " ++ take 8191 (row_line vs)

module _ (t : TupTable) where
  report_round : ℕ → Option (List Bytes) → Option (List Bytes)
  report_round j acc = elim acc [
    | none ↦ none
    | some messages ↦ elim (row_text 8192 t j) [
      | none ↦ none
      | some buf ↦ some (messages ++ ((codes "ROW: " ++ buf) ∷ []))
    ]
  ]

  report_round-some :
      (j : ℕ) (messages : List Bytes) (text : Option Bytes)
      → row_text 8192 t j ≡ text
      → report_round j (some messages)
        ≡ elim text [ none ↦ none | some buf ↦ some (messages ++ ((codes "ROW: " ++ buf) ∷ [])) ]
  unfolding report_round
  report_round-some j messages text same =
      let told : Option Bytes → Option (List Bytes) =
        λ o. elim o [ none ↦ none | some buf ↦ some (messages ++ ((codes "ROW: " ++ buf) ∷ [])) ] in
      ap told same

  report_rows-map :
      (rows : List (List Bytes))
      → Holds t rows
      → report_rows t (length rows) ≡ some (map row_message rows)
  unfolding report_rows report_round
  report_rows-map rows holds =
      for_up_inv (λ k acc. k ≤ length rows → acc ≡ some (map row_message (take k rows)))
        report_round (length rows) (some [])
        (λ k acc lt inv le.
          ap (report_round k) (inv (omega arith))
          ∙ report_round-some k (map row_message (take k rows)) _ (
              row_text-row_line 8191 t k (get_or rows k []) (holds.columns k lt)
                (λ i. holds.values k i lt))
          ∙ ap some (
              sym (map-append row_message (take k rows) (get_or rows k [] ∷ []))
              ∙ ap (map row_message) (sym (take-suc k rows lt))))
        (λ le. refl) (omega arith)
      ∙ ap (λ l. some (map row_message l)) (take-length (length rows) rows refl)

-- If the query has succeeded and its rows, of which no field is NULL, are in the table, `execq`
-- reports one message for each row, in their order, the fields between blanks and bars, cut off behind
-- 8191 bytes; it returns their number modulo 2^32.
pub execq-rows :
    (r : SpiExec) (t : TupTable) (rows : List (List Bytes))
    → is_positive r.ret ≡ true
    → r.tuptable ≡ some t
    → r.processed ≡ length rows
    → Holds t rows
    → execq r
      ≡ some (record { messages = map row_message rows; result = length rows % int32_words })
unfolding execq
execq-rows r t rows succeeded table all holds =
    let finish : ℕ → Option (List Bytes) → Option Reported = λ n o. elim o [
      | none ↦ none
      | some messages ↦ some (record { messages = messages; result = n % int32_words })
    ] in
    let run : Option TupTable → ℕ → Option Reported = λ o n. elim o [
      | none ↦ some (record { messages = []; result = n % int32_words })
      | some t ↦ finish n (report_rows t n)
    ] in
    ap₂ run (ap₂ table_if table succeeded) all
    ∙ ap (finish (length rows)) (report_rows-map t rows holds)
