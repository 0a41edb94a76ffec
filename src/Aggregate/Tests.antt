-- ===== src/Aggregate/Tests.antt =====
-- A run of the aggregate.
use sql_code.Common.{◌≡◌, ◌%◌, [], ◌∷◌}
use sql_code.Greenplum.{int32_words}
use sql_code.Aggregate.{steps, finalize, sum_values, finalize-steps}

finalize-steps_example :
    (finalize (steps 1 (4 ∷ 4294967295 ∷ []) (record { x = 77; stdout = [] }))).0
    ≡ sum_values (4 ∷ 4294967295 ∷ []) % int32_words
finalize-steps_example = finalize-steps 4 (4294967295 ∷ []) (record { x = 77; stdout = [] })
