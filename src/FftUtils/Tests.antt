-- ===== src/FftUtils/Tests.antt =====
-- Runs of `dsp_max_min_val` on numbers.
use sql_code.Common.{ℕ, suc, ◌^◌, ◌≤◌, ◌<◌, ◌≡◌, refl, List, [], ◌∷◌, ltb, arith}
use sql_code.FftUtils.Log.{floor_log2_32-pow}
use sql_code.FftUtils.{ones_32, floor_log2_32, Ordered, dsp_max_min_val}

abbrev rising : List ℕ
rising = 3 ∷ 5 ∷ 8 ∷ []

ltb-Ordered : Ordered ltb
ltb-Ordered = record {
  asymmetric = λ a b h. ground arith;
  not_less_trans = λ a b c h k. ground arith;
}

test_rising : (dsp_max_min_val ltb 0 100 rising).min ≡ 100
unfolding dsp_max_min_val
test_rising = refl

test_ones_32 : ones_32 33 4008636142 ≡ 24
unfolding ones_32
test_ones_32 = refl

test_floor_log2_32 : floor_log2_32 33 1000 ≡ 9
unfolding floor_log2_32
test_floor_log2_32 = refl

floor_log2_32-pow_example :
    (2 ^ floor_log2_32 33 1000 ≤ 1000) × (1000 < 2 ^ suc (floor_log2_32 33 1000))
floor_log2_32-pow_example = floor_log2_32-pow 33 1000 (omega arith) (omega arith) (omega arith)
