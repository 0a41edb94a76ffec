-- ===== src/StrictTyping/Triggers.antt =====
-- The two triggers of a column, as `install_type_trigger` and `uninstall_type_trigger` leave them.
use sql_code.Common.{
  ◌≡◌, ◌≢◌, refl, ap, ◌∙◌, Bool, true, false, not, ◌||◌, [], ◌∷◌, ◌++◌, none, some, arith,
  if◌then◌else◌,
}
use sql_code.CText.{Bytes, codes, strcmp_eq, strcmp_eq_iff}
use sql_code.Sqlite.{Sqlite, sqlite_ok}
use sql_code.StrictTyping.{
  World, Returned, select_validate, create_insert_trigger, create_update_trigger,
  drop_insert_trigger, drop_update_trigger, column_type, create_triggers, exec_or_report, exec_both,
  install_type_trigger, uninstall_type_trigger,
}

abbrev pub trigger_name : Bytes → Bytes → Bytes → Bytes
trigger_name event table column = table ++ (event ++ (column ++ codes "_typecheck_tr"))

abbrev pub insert_name : Bytes → Bytes → Bytes
insert_name = trigger_name (codes "_insert_")

abbrev pub update_name : Bytes → Bytes → Bytes
update_name = trigger_name (codes "_update_")

append_left_cancel : (a b c : Bytes) → a ++ b ≡ a ++ c → b ≡ c
append_left_cancel [] b c e = e
append_left_cancel (x ∷ a) b c e = append_left_cancel a b c (cc)

insert_name-ne-update_name :
    (table column : Bytes) → insert_name table column ≢ update_name table column
insert_name-ne-update_name table column e = second_differs (append_left_cancel table _ _ e)
  where
    second_differs :
        codes "_insert_" ++ (column ++ codes "_typecheck_tr")
          ≡ codes "_update_" ++ (column ++ codes "_typecheck_tr")
        → ⊥
    second_differs h = ground arith

module _ (S : Sqlite) (has : S.Db → Bytes → Bool) where
  -- A statement that works on the trigger `name`: where `ready` it succeeds and leaves `name` as `left`
  -- says and every other trigger alone, and else it fails with a message and changes nothing.
  pub record Sets (sql name : Bytes) (left : Bool) : Type 0 where
    pub succeeds :
        (db : S.Db)
        → has db name ≡ not left
        → (db' : S.Db) × (S.exec db sql ≡ record { db = db'; rc = sqlite_ok; err = none })
          × ((n : Bytes) → has db' n ≡ (if strcmp_eq name n then left else has db n))
    pub fails :
        (db : S.Db)
        → has db name ≡ left
        → (m : Bytes) × (S.exec db sql ≡ record { db = db; rc = 1; err = some m })

  -- What is assumed of SQLite for one table and column: the column has the declared type, its validator
  -- exists, and the four statements create and drop triggers.
  pub record Catalog (table column type : Bytes) : Type 0 where
    pub typed : (db : S.Db) → column_type S db table column ≡ some (some type)
    pub validated :
        (db : S.Db)
        → S.exec db (S.mprintf select_validate (type ∷ []))
          ≡ record { db = db; rc = sqlite_ok; err = none }
    pub creates_insert :
        Sets
          (S.mprintf create_insert_trigger
            (table ∷ column ∷ table ∷ type ∷ column ∷ type ∷ table ∷ column ∷ []))
          (insert_name table column)
          true
    pub creates_update :
        Sets
          (S.mprintf create_update_trigger
            (table ∷ column ∷ column ∷ table ∷ type ∷ column ∷ type ∷ table ∷ column ∷ []))
          (update_name table column)
          true
    pub drops_insert :
        Sets (S.mprintf drop_insert_trigger (table ∷ column ∷ [])) (insert_name table column) false
    pub drops_update :
        Sets (S.mprintf drop_update_trigger (table ∷ column ∷ [])) (update_name table column) false

module _ (S : Sqlite) (stale : Bytes) (has : S.Db → Bytes → Bool) where
  -- Two statements on different triggers that can both run.
  exec_both-succeeds :
      (w : World S.Db) (first second a b : Bytes) (left : Bool)
      → Sets S has first a left
      → Sets S has second b left
      → a ≢ b
      → has w.db a ≡ not left
      → has w.db b ≡ not left
      → (db' : S.Db) × (exec_both S stale w first second
          ≡ record { code = 0; world = record w { db = db' } })
        × ((n : Bytes) → has db' n ≡ (if strcmp_eq a n || strcmp_eq b n then left else has w.db n))
  unfolding exec_both
  exec_both-succeeds w first second a b left sa sb ne ha hb =
      let (db1, e1, l1) = sa.succeeds w.db ha in
      let hb1 : has db1 b ≡ not left = ground (arith, l1 b, strcmp_eq_iff a b) in
      let (db2, e2, l2) = sb.succeeds db1 hb1 in
      (db2, rw (exec_or_report, e1, exec_or_report, e2) refl, λ n. ground (arith, l1 n, l2 n))

  -- If the second cannot run, the effect of the first stays.
  exec_both_half :
      (w : World S.Db) (first second a b : Bytes) (left : Bool)
      → Sets S has first a left
      → Sets S has second b left
      → a ≢ b
      → has w.db a ≡ not left
      → has w.db b ≡ left
      → ((exec_both S stale w first second).code ≡ 1)
        × ((n : Bytes)
            → has (exec_both S stale w first second).world.db n
              ≡ (if strcmp_eq a n then left else has w.db n))
  unfolding exec_both
  exec_both_half w first second a b left sa sb ne ha hb =
      let (db1, e1, l1) = sa.succeeds w.db ha in
      let hb1 : has db1 b ≡ left = ground (arith, l1 b, strcmp_eq_iff a b) in
      let (m, e2) = sb.fails db1 hb1 in
      (
        rw (exec_or_report, e1, exec_or_report, e2) refl,
        rw (exec_or_report, e1, exec_or_report, e2) l1,
      )

  module _ (table column type : Bytes) (catalog : Catalog S has table column type) where
    install_type_trigger-create :
        (w : World S.Db)
        → install_type_trigger S stale w table column
          ≡ some (create_triggers S stale w table column type)
    unfolding install_type_trigger
    install_type_trigger-create w =
        rw (install_type_trigger, catalog.typed w.db) (rw (catalog.validated w.db) refl)

    -- On a column without triggers, installing returns 0 and adds the two triggers of the column, and
    -- no trigger else is changed.
    pub install_type_trigger-adds :
        (w : World S.Db)
        → has w.db (insert_name table column) ≡ false
        → has w.db (update_name table column) ≡ false
        → (db' : S.Db) × (install_type_trigger S stale w table column
            ≡ some (record { code = 0; world = record w { db = db' } }))
          × ((n : Bytes)
              → has db' n ≡ (
                  if strcmp_eq (insert_name table column) n
                    || strcmp_eq (update_name table column) n
                  then true
                  else has w.db n))
    unfolding create_triggers
    install_type_trigger-adds w hi hu =
        let (db', e, l) =
          exec_both-succeeds w _ _ (insert_name table column) (update_name table column) true
            catalog.creates_insert catalog.creates_update (insert_name-ne-update_name table column)
            hi hu in
        (db', install_type_trigger-create w ∙ ap some e, l)

    -- Installing on a column without triggers and then uninstalling both return 0 and report nothing,
    -- and leave the set of triggers as it was.
    pub uninstall-install :
        (w : World S.Db)
        → has w.db (insert_name table column) ≡ false
        → has w.db (update_name table column) ≡ false
        → (db' : S.Db) × (install_type_trigger S stale w table column
            ≡ some (record { code = 0; world = record w { db = db' } }))
          × (db'' : S.Db) × (uninstall_type_trigger S stale (record w { db = db' }) table column
              ≡ record { code = 0; world = record w { db = db'' } })
          × ((n : Bytes) → has db'' n ≡ has w.db n)
    unfolding uninstall_type_trigger
    uninstall-install w hi hu =
        let (db', installed, l) = install_type_trigger-adds w hi hu in
        let ni = insert_name table column in
        let nu = update_name table column in
        let (db'', e, l') =
          exec_both-succeeds (record w { db = db' }) _ _ ni nu false catalog.drops_insert
            catalog.drops_update (insert_name-ne-update_name table column)
            (ground (arith, l ni, strcmp_eq_iff ni ni))
            (ground (arith, l nu, strcmp_eq_iff nu nu)) in
        (
          db',
          installed,
          db'',
          e,
          λ n. ground (arith, l n, l' n, strcmp_eq_iff ni n, strcmp_eq_iff nu n),
        )

    -- If only the update trigger is there, installing fails with code 1 and leaves the insert trigger
    -- that it has created behind.
    pub install_type_trigger_half :
        (w : World S.Db)
        → has w.db (insert_name table column) ≡ false
        → has w.db (update_name table column) ≡ true
        → (r : Returned S.Db) × (install_type_trigger S stale w table column ≡ some r)
          × (r.code ≡ 1)
          × (has r.world.db (insert_name table column) ≡ true)
    unfolding create_triggers
    install_type_trigger_half w hi hu =
        let ni = insert_name table column in
        let (code, l) =
          exec_both_half w _ _ ni (update_name table column) true catalog.creates_insert
            catalog.creates_update (insert_name-ne-update_name table column) hi hu in
        (_, install_type_trigger-create w, code, ground (arith, l ni, strcmp_eq_iff ni ni))
