-- ===== src/Spi/RowText.antt =====
-- The text of a row is cut off where the buffer ends.
use sql_code.Common.{
  ℕ, zero, suc, ◌+◌, ◌-◌, ◌≡◌, ◌<◌, ◌≤◌, refl, sym, ap, ◌∙◌, arith, List, [], ◌∷◌, ◌++◌, append-nil,
  append_assoc, Option, some, none, ◌==◌, true, false, for_up_inv, length, take, drop, get_or,
  length-take,
}
use sql_code.CText.{Bytes, codes}
use sql_code.Spi.{TupTable, snprintf_onto, column_text, row_text}

-- The fields of a row between blanks and bars.
unfoldable pub row_line : List Bytes → Bytes
row_line [] = []
row_line (v ∷ []) = codes " " ++ (v ++ codes " ")
row_line (v ∷ w ∷ vs) = codes " " ++ (v ++ (codes " |" ++ row_line (w ∷ vs)))

take_nil : (m : ℕ) → take m [] ≡ (let l : Bytes = [] in l)
take_nil zero = refl
take_nil (suc m) = refl

take-append : (m : ℕ) (a s : Bytes) → take m (a ++ s) ≡ take m a ++ take (m - length a) s
take-append zero a s =
    ap (λ n. take n s) (let none_left : 0 ≡ 0 - length a = omega arith in none_left)
take-append (suc m) [] s = ap (λ n. take n s) (let all : suc m ≡ suc m - 0 = omega arith in all)
take-append (suc m) (c ∷ a) s = ap (◌∷◌ c) (
    take-append m a s
    ∙ ap (λ n. take m a ++ take n s)
        (let room : m - length a ≡ suc m - suc (length a) = omega arith in room))

-- Printing in pieces cuts the whole text off.
pub snprintf_onto-take :
    (m : ℕ) (a s : Bytes) → snprintf_onto (suc m) (take m a) s ≡ take m (a ++ s)
unfolding snprintf_onto
snprintf_onto-take m a s =
    ap (λ n. take m a ++ take n s)
      (let room : suc m - length (take m a) - 1 ≡ m - length a = omega (arith, length-take m a) in
        room)
    ∙ sym (take-append m a s)

-- The columns from the index `i` on.
line_from : ℕ → ℕ → List Bytes → Bytes
line_from natts i [] = []
line_from natts i (v ∷ vs) = column_text natts (i + 1) v ++ line_from natts (i + 1) vs

line_from-row_line :
    (natts i : ℕ) (vs : List Bytes) → i + length vs ≡ natts → line_from natts i vs ≡ row_line vs
unfolding line_from row_line
line_from-row_line natts i [] e = refl
line_from-row_line natts i (v ∷ []) e =
    let last : (i + 1 == natts) ≡ true = ground arith in rw last (append-nil _)
line_from-row_line natts i (v ∷ w ∷ vs) e =
    let not_last : (i + 1 == natts) ≡ false = ground arith in
    rw not_last (
      ap (◌∷◌ b' ') (
        append_assoc v (codes " |") (line_from natts (i + 1) (w ∷ vs))
        ∙ ap (λ l. v ++ (codes " |" ++ l))
            (line_from-row_line natts (i + 1) (w ∷ vs) (omega (arith, e)))))

drop_cons : (k : ℕ) (vs : List Bytes) → k < length vs → drop k vs ≡ get_or vs k [] ∷ drop (suc k) vs
drop_cons k [] lt = absurd (omega arith)
drop_cons zero (v ∷ vs) lt = refl
drop_cons (suc k) (v ∷ vs) lt = drop_cons k vs (omega arith)

module _ (m : ℕ) (t : TupTable) (j : ℕ) (vs : List Bytes) (columns : length vs ≡ t.natts)
    (values : (k : ℕ) → k < t.natts → t.value j (k + 1) ≡ some (get_or vs k [])) where
  -- After `k` columns the buffer holds the front of a text, which the other columns complete.
  abbrev Front : ℕ → Option Bytes → Type 0
  Front k acc =
      k ≤ t.natts
      → (front : Bytes) × (acc ≡ some (take m front))
        × (front ++ line_from t.natts k (drop k vs) ≡ row_line vs)

  column_round : ℕ → Option Bytes → Option Bytes
  column_round k acc = elim acc [
    | none ↦ none
    | some buf ↦ elim (t.value j (k + 1)) [
      | none ↦ none
      | some v ↦ some (snprintf_onto (suc m) buf (column_text t.natts (k + 1) v))
    ]
  ]

  column_round-some :
      (k : ℕ) (buf : Bytes)
      → k < t.natts
      → column_round k (some buf)
        ≡ some (snprintf_onto (suc m) buf (column_text t.natts (k + 1) (get_or vs k [])))
  unfolding column_round
  column_round-some k buf lt =
      let printed : Option Bytes → Option Bytes = λ o. elim o [
        | none ↦ none
        | some v ↦ some (snprintf_onto (suc m) buf (column_text t.natts (k + 1) v))
      ] in
      ap printed (values k lt)

  column_round-Front :
      (k : ℕ) (acc : Option Bytes) → k < t.natts → Front k acc → Front (suc k) (column_round k acc)
  unfolding line_from
  column_round-Front k acc lt inv le =
      let (front, held, whole) = inv (omega arith) in
      let v = get_or vs k [] in
      let text = column_text t.natts (k + 1) v in
      let one_more : k + 1 ≡ suc k = omega arith in
      (
        front ++ text,
        ap (column_round k) held
            ∙ column_round-some k (take m front) lt
            ∙ ap some (snprintf_onto-take m front text),
        append_assoc front text (line_from t.natts (suc k) (drop (suc k) vs))
            ∙ ap (λ n. front ++ (text ++ line_from t.natts n (drop (suc k) vs))) (sym one_more)
            ∙ ap (λ l. front ++ line_from t.natts k l)
                (sym (drop_cons k vs (omega (arith, columns))))
            ∙ whole,
      )

  drop_all : (n : ℕ) (l : List Bytes) → length l ≡ n → drop n l ≡ []
  drop_all zero [] e = refl
  drop_all zero (v ∷ l) e = absurd (omega (arith, e))
  drop_all (suc n) [] e = refl
  drop_all (suc n) (v ∷ l) e = drop_all n l (omega (arith, e))

  -- The buffer holds as much of the line as there is room for.
  pub row_text-row_line : row_text (suc m) t j ≡ some (take m (row_line vs))
  unfolding row_text column_round line_from
  row_text-row_line =
      let (front, held, whole) =
        for_up_inv Front column_round t.natts (some [])
          (λ k acc lt inv. column_round-Front k acc lt inv)
          (λ le. (
            [],
            ap some (sym (take_nil m)),
            line_from-row_line t.natts 0 vs (omega (arith, columns)),
          ))
          (omega arith) in
      held
      ∙ ap (λ l. some (take m l))
          (sym (append-nil front)
            ∙ ap (λ l. front ++ line_from t.natts t.natts l) (sym (drop_all t.natts vs columns))
            ∙ whole)
