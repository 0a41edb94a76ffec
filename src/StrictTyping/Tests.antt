-- ===== src/StrictTyping/Tests.antt =====
-- Runs of the strict typing code over the small SQLite of `Example`.
use sql_code.Common.{Option, ◌⊎◌, none, ◌≢◌, ◌≡◌, refl, true, false, List, [], ◌∷◌, some, arith}
use sql_code.CText.{Bytes, codes, strcmp_eq}
use sql_code.StrictTyping.{
  World, Returned, column_type, install_type_trigger, uninstall_type_trigger,
  add_strict_type_check_udf, drop_strict_type_check_udf, and_then, reported, result_int, done,
}
use sql_code.StrictTyping.Triggers.{uninstall-install, install_type_trigger_half}
use sql_code.CText.Strtol.{IntText}
use sql_code.StrictTyping.Validate.{validate_int_udf, validate_int_udf-IntText}
use sql_code.StrictTyping.Columns.{
  visit_columns, visited, add_strict_type_check_all, drop_strict_type_check_all,
}
use sql_code.StrictTyping.Example.{
  sqlite, has, catalog, cursor, t_insert, t_update, id_column, n_column,
}

abbrev empty : World (List Bytes)
empty = record { db = []; events = [] }

abbrev half : World (List Bytes)
half = record { db = t_update ∷ []; events = [] }

abbrev t : Bytes
t = codes "t"

abbrev n : Bytes
n = codes "n"

no_insert : has [] t_insert ≡ false
unfolding has
no_insert = refl

no_update : has [] t_update ≡ false
unfolding has
no_update = refl

uninstall-install_example :
    (db' : List Bytes) × (install_type_trigger sqlite [] empty t n
      ≡ some (record { code = 0; world = record empty { db = db' } }))
    × (db'' : List Bytes) × (uninstall_type_trigger sqlite [] (record empty { db = db' }) t n
        ≡ record { code = 0; world = record empty { db = db'' } })
    × ((m : Bytes) → has db'' m ≡ has [] m)
uninstall-install_example =
    uninstall-install sqlite [] has t n (codes "int") catalog empty no_insert no_update

half_insert : has (t_update ∷ []) t_insert ≡ false
unfolding has strcmp_eq
half_insert = refl

half_update : has (t_update ∷ []) t_update ≡ true
unfolding has strcmp_eq
half_update = refl

install_type_trigger_half_example :
    (r : Returned (List Bytes)) × (install_type_trigger sqlite [] half t n ≡ some r)
    × (r.code ≡ 1)
    × (has r.world.db t_insert ≡ true)
install_type_trigger_half_example =
    install_type_trigger_half sqlite [] has t n (codes "int") catalog half half_insert half_update

each_typed : (db : List Bytes) (column : Bytes) → column_type sqlite db t column ≢ none
unfolding column_type
each_typed db column e = cc

add_strict_type_check_all_example :
    (v : World (List Bytes)) × (visit_columns
        (visited sqlite (λ w c. install_type_trigger sqlite [] w t c))
        empty
        (id_column ∷ n_column ∷ [])
      ≡ done v)
    × (add_strict_type_check_udf sqlite [] 3 empty t (codes "*")
        ≡ done (reported sqlite v (result_int 0)))
add_strict_type_check_all_example =
    add_strict_type_check_all sqlite [] 3 empty t refl cursor (omega arith)
      (λ db i lt plain. each_typed db _)

drop_strict_type_check_all_example :
    drop_strict_type_check_udf sqlite [] 3 empty t (codes "*")
    ≡ and_then sqlite
        (visit_columns
          (visited sqlite (λ v c. some (uninstall_type_trigger sqlite [] v t c)))
          empty
          (id_column ∷ n_column ∷ []))
        (λ v. reported sqlite v (result_int 0))
drop_strict_type_check_all_example =
    drop_strict_type_check_all sqlite [] 3 empty t refl cursor (omega arith)

test_validate_int :
    (validate_int_udf sqlite empty (some (codes " -0x1F"))).events ≡ result_int 1 ∷ []
unfolding validate_int_udf
test_validate_int = refl

test_validate_int_octal :
    (validate_int_udf sqlite empty (some (codes "08"))).events ≡ result_int 0 ∷ []
unfolding validate_int_udf
test_validate_int_octal = refl

validate_int_udf-IntText_example :
    ((s : Bytes) × ((◌≡◌ {A = Option Bytes} (some (codes "-7")) (some s)))
      × ((s ≡ []) ⊎ IntText s)
      × (validate_int_udf sqlite empty (some (codes "-7")) ≡ reported sqlite empty (result_int 1)))
    ⊎ (((s : Bytes)
          → ◌≡◌ {A = Option Bytes} (some (codes "-7")) (some s)
          → (s ≡ []) ⊎ IntText s
          → ⊥)
        × (validate_int_udf sqlite empty (some (codes "-7"))
            ≡ reported sqlite empty (result_int 0)))
validate_int_udf-IntText_example = validate_int_udf-IntText sqlite empty (some (codes "-7"))
