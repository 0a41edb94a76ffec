-- ===== src/StrictTyping/Columns.antt =====
-- The loop over `pragma table_info`, in `add_strict_type_check_udf` and `drop_strict_type_check_udf`.
use sql_code.Common.Int.{ℤ, pos}
use sql_code.Common.{
  ℕ, zero, suc, ◌<◌, ◌≡◌, ◌≢◌, inl, inr, refl, sym, ap, ◌∙◌, true, false, List, [], ◌∷◌, Option,
  none, some, arith, Bool-cases, if◌then◌else◌, length, get_or, Option-cases,
}
use sql_code.CText.{Bytes, codes, strncmp_eq}
use sql_code.Sqlite.{Sqlite, sqlite_ok, sqlite_row}
use sql_code.StrictTyping.{
  World, Returned, result_int, Run, done, fault, is_primary_key, for_each_column, on_all_columns,
  table_info, reported, install_type_trigger, uninstall_type_trigger, add_strict_type_check_udf,
  drop_strict_type_check_udf, and_then, column_type, install_for_type,
}

-- A row of the pragma: the column's name and its `pk` field.
pub record ColumnInfo : Type 0 where
  pub name : Bytes
  pub pk : ℤ

abbrev pub no_column : ColumnInfo
no_column = record { name = []; pk = pos 0 }

-- What the loop is to do: visit the columns that are no primary key, in order.
unfoldable pub visit_columns {ℓ} :
    {Db : Type ℓ} → (Db → Bytes → Option Db) → Db → List ColumnInfo → Run Db
visit_columns visit w [] = done w
visit_columns {Db} visit w (c ∷ cs) =
    let rest = λ (w' : Db). visit_columns visit w' cs in
    if is_primary_key c.pk
    then rest w
    else elim (visit w c.name) [ none ↦ fault | some w' ↦ rest w' ]

module _ (S : Sqlite) where
  -- Stepping from the statement gives these rows and then no more, whatever is done to the database
  -- in between; stepping itself does not change it.
  pub data Cursor : S.Stmt → List ColumnInfo → Type 0 where
    finished :
        {stmt stmt' : S.Stmt} {rc : ℕ}
        → ((db : S.Db) → S.step db stmt ≡ record { db = db; rc = rc; stmt = stmt' })
        → rc ≢ sqlite_row
        → Cursor stmt []
    row :
        {stmt stmt' : S.Stmt} {c : ColumnInfo} {cs : List ColumnInfo}
        → ((db : S.Db) → S.step db stmt ≡ record { db = db; rc = sqlite_row; stmt = stmt' })
        → S.column_text stmt' 1 ≡ c.name
        → S.column_int stmt' 5 ≡ c.pk
        → Cursor stmt' cs
        → Cursor stmt (c ∷ cs)

  module _ (visit : World S.Db → Bytes → Option (Returned S.Db)) where
    abbrev pub visited : World S.Db → Bytes → Option (World S.Db)
    visited w c = elim (visit w c) [ none ↦ none | some r ↦ some r.world ]

    abbrev loop_after : ℕ → S.Stmt → World S.Db → Run (World S.Db)
    loop_after fuel stmt w =
        let first = S.step w.db stmt in
        for_each_column S visit fuel first.rc first.stmt (record w { db = first.db })

    -- What comes of a visit: the loop goes on, or C has faulted.
    abbrev resume : (World S.Db → Run (World S.Db)) → Option (Returned S.Db) → Run (World S.Db)
    resume next none = fault
    resume next (some r) = next r.world

    loop_stops :
        (fuel rc : ℕ) (stmt : S.Stmt) (w : World S.Db)
        → rc ≢ sqlite_row
        → for_each_column S visit (suc fuel) rc stmt w ≡ done w
    unfolding for_each_column
    loop_stops fuel rc stmt w ne = ground arith

    loop_skips :
        (fuel : ℕ) (stmt : S.Stmt) (w : World S.Db)
        → is_primary_key (S.column_int stmt 5) ≡ true
        → for_each_column S visit (suc fuel) sqlite_row stmt w ≡ loop_after fuel stmt w
    unfolding for_each_column
    loop_skips fuel stmt w key = rw (for_each_column, key) refl

    loop_visits :
        (fuel : ℕ) (stmt : S.Stmt) (w : World S.Db) (o : Option (Returned S.Db))
        → is_primary_key (S.column_int stmt 5) ≡ false
        → visit w (S.column_text stmt 1) ≡ o
        → for_each_column S visit (suc fuel) sqlite_row stmt w ≡ resume (loop_after fuel stmt) o
    unfolding for_each_column
    loop_visits fuel stmt w none plain v = rw (for_each_column, plain, v) refl
    loop_visits fuel stmt w (some r) plain v = rw (for_each_column, plain, v) refl

    visit_columns-cons :
        (w : World S.Db) (c : ColumnInfo) (cs : List ColumnInfo) (o : Option (Returned S.Db))
        → is_primary_key c.pk ≡ false
        → visit w c.name ≡ o
        → visit_columns visited w (c ∷ cs) ≡ resume (λ w'. visit_columns visited w' cs) o
    unfolding visit_columns
    visit_columns-cons w c cs none plain v = rw (visit_columns, plain, v) refl
    visit_columns-cons w c cs (some r) plain v = rw (visit_columns, plain, v) refl

    visit_columns_skips :
        (w : World S.Db) (c : ColumnInfo) (cs : List ColumnInfo)
        → is_primary_key c.pk ≡ true
        → visit_columns visited w (c ∷ cs) ≡ visit_columns visited w cs
    unfolding visit_columns
    visit_columns_skips w c cs key = rw (visit_columns, key) refl

    for_each_column-visit_columns :
        (fuel : ℕ) (w : World S.Db) {stmt : S.Stmt} {cs : List ColumnInfo}
        → Cursor stmt cs
        → length cs < fuel
        → loop_after fuel stmt w ≡ visit_columns visited w cs
    for_each_column-visit_columns zero w cursor h = absurd (omega arith)
    for_each_column-visit_columns (suc fuel) w (finished {stmt'} {rc} e ne) h =
        rw (e w.db) (loop_stops fuel rc stmt' w ne ∙ unfold visit_columns in refl)
    for_each_column-visit_columns (suc fuel) w (row {stmt'} {c} {cs} e name pk rest) h =
        rw (e w.db) (elim (Bool-cases (is_primary_key c.pk)) [
          | inl key ↦
              loop_skips fuel stmt' w (rw pk key)
              ∙ for_each_column-visit_columns fuel w rest (omega arith)
              ∙ sym (visit_columns_skips w c cs key)
          | inr plain ↦
              loop_visits fuel stmt' w (visit w c.name) (rw pk plain) (ap (visit w) name)
              ∙ resume_ext (visit w c.name)
                  (λ v. for_each_column-visit_columns fuel v rest (omega arith))
              ∙ sym (visit_columns-cons w c cs (visit w c.name) plain refl)
        ])
      where
        resume_ext :
            {f g : World S.Db → Run (World S.Db)} (o : Option (Returned S.Db))
            → ((v : World S.Db) → f v ≡ g v)
            → resume f o ≡ resume g o
        resume_ext none h = refl
        resume_ext (some r) h = h r.world

    -- The branch on `*`, where the pragma can be prepared and has rows `cs`.
    on_all_columns-visit_columns :
        (fuel : ℕ) (w : World S.Db) (table : Bytes) {cs : List ColumnInfo}
        → (S.prepare w.db (S.mprintf table_info (table ∷ []))).rc ≡ sqlite_ok
        → Cursor (S.prepare w.db (S.mprintf table_info (table ∷ []))).stmt cs
        → length cs < fuel
        → on_all_columns S visit fuel w table
          ≡ and_then S (visit_columns visited w cs) (λ v. reported S v (result_int 0))
    unfolding on_all_columns
    on_all_columns-visit_columns fuel w table ok cursor h = rw ok (
        ap (λ r. and_then S r (λ v. reported S v (result_int 0)))
          (for_each_column-visit_columns fuel w cursor h))

  -- Visits that do not fault come to an end.
  visit_columns-done :
      (visit : World S.Db → Bytes → Option (World S.Db)) (cs : List ColumnInfo)
      → ((w : World S.Db) (i : ℕ)
          → i < length cs
          → is_primary_key (get_or cs i no_column).pk ≡ false
          → visit w (get_or cs i no_column).name ≢ none)
      → (w : World S.Db) → (v : World S.Db) × (visit_columns visit w cs ≡ done v)
  unfolding visit_columns
  visit_columns-done visit [] visits w = (w, refl)
  visit_columns-done visit (c ∷ cs) visits w =
      let rest = visit_columns-done visit cs (λ w' i lt. visits w' (suc i) (omega arith)) in
      elim (Bool-cases (is_primary_key c.pk)) [
        | inl key ↦ (let (v, e) = rest w in (v, rw key e))
        | inr plain ↦ elim (Option-cases (visit w c.name)) [
          | inl faults ↦ absurd (visits w 0 (omega arith) plain faults)
          | inr (w', goes) ↦ (let (v, e) = rest w' in (v, rw (plain, goes) e))
        ]
      ]

  install-visited :
      (stale : Bytes) (w : World S.Db) (table column : Bytes)
      → column_type S w.db table column ≢ none
      → visited (λ v c. install_type_trigger S stale v table c) w column ≢ none
  unfolding install_type_trigger
  install-visited stale w table column typed =
      elim (Option-cases (column_type S w.db table column)) [
        | inl n ↦ absurd (typed n)
        | inr (type, e) ↦ λ faulted.
            let ran : install_type_trigger S stale w table column
                ≡ some (install_for_type S stale w table column type) =
              rw (e, install_type_trigger) refl in
            let world : Option (Returned S.Db) → Option (World S.Db) =
              λ o. elim o [ none ↦ none | some r ↦ some r.world ] in
            let both = sym (ap world ran) ∙ faulted in cc
      ]

  -- If each column of the table that is no primary key has a declared type in every state of the
  -- database, or the table cannot be read, `add_strict_type_check(table, '*')` ends: it is
  -- `install_type_trigger` on each of these columns, in the order of the pragma, and then the result 0.
  -- The pragma can be prepared and has finitely many rows; one unit of fuel more than it has is enough.
  pub add_strict_type_check_all :
      (stale : Bytes) (fuel : ℕ) (w : World S.Db) (table : Bytes) {cs : List ColumnInfo}
      → (S.prepare w.db (S.mprintf table_info (table ∷ []))).rc ≡ sqlite_ok
      → Cursor (S.prepare w.db (S.mprintf table_info (table ∷ []))).stmt cs
      → length cs < fuel
      → ((db : S.Db) (i : ℕ)
          → i < length cs
          → is_primary_key (get_or cs i no_column).pk ≡ false
          → column_type S db table (get_or cs i no_column).name ≢ none)
      → (v : World S.Db) × (visit_columns
            (visited (λ u c. install_type_trigger S stale u table c))
            w
            cs
          ≡ done v)
        × (add_strict_type_check_udf S stale fuel w table (codes "*")
            ≡ done (reported S v (result_int 0)))
  unfolding add_strict_type_check_udf strncmp_eq
  add_strict_type_check_all stale fuel w table ok cursor h typed =
      let install = λ (u : World S.Db) (c : Bytes). install_type_trigger S stale u table c in
      let (v, e) =
        visit_columns-done (visited install) _
          (λ u i lt plain. install-visited stale u table _ (typed u.db i lt plain)) w in
      (
        v,
        e,
        on_all_columns-visit_columns install fuel w table ok cursor h
            ∙ ap (λ r. and_then S r (λ u. reported S u (result_int 0))) e,
      )

  -- `drop_strict_type_check(table, '*')` ends, and is `uninstall_type_trigger` on each column of the
  -- table that is no primary key, in the order of the pragma, and then the result 0. The pragma can be
  -- prepared and has finitely many rows, and the fuel exceeds their number.
  pub drop_strict_type_check_all :
      (stale : Bytes) (fuel : ℕ) (w : World S.Db) (table : Bytes) {cs : List ColumnInfo}
      → (S.prepare w.db (S.mprintf table_info (table ∷ []))).rc ≡ sqlite_ok
      → Cursor (S.prepare w.db (S.mprintf table_info (table ∷ []))).stmt cs
      → length cs < fuel
      → drop_strict_type_check_udf S stale fuel w table (codes "*")
        ≡ and_then S
            (visit_columns (visited (λ v c. some (uninstall_type_trigger S stale v table c))) w cs)
            (λ v. reported S v (result_int 0))
  unfolding drop_strict_type_check_udf strncmp_eq
  drop_strict_type_check_all stale fuel w table ok cursor h =
      on_all_columns-visit_columns (λ v c. some (uninstall_type_trigger S stale v table c)) fuel w
        table ok cursor h
