-- ===== src/Tests/Dimensions.antt =====
-- An iteration space of 4 by 3 work-items, in groups of 2 by 1 (lib/Util/DimensionInfo.cpp).
use open_crun.Prelude.{◌≡◌, ◌<◌, ◌/◌, ◌%◌, refl, [], ◌∷◌, some, List, arith}
use open_crun.Dimensions.{
  Info, Place, begin, advance, linear_work_group, global_id, work_group, local_id,
}
use open_crun.Dimensions.Digits.{value, product}
use open_crun.Dimensions.Sizes.{group_counts}
use open_crun.Dimensions.Iteration.{Advanced, advance-Advanced}
use open_crun.Dimensions.Ids.{linear_work_group-value, global_id-digits}

abbrev space : List Info
space =
    record { offset = 0; global_size = 4; local_size = 2 }
    ∷ record { offset = 7; global_size = 3; local_size = 1 }
    ∷ []

-- The second work-item of the group (1, 2), the last of all.
abbrev last : Place
last = record { locals = 1 ∷ 0 ∷ []; work_groups = 1 ∷ 2 ∷ [] }

advance-run : advance space 11 (begin space) ≡ some last
unfolding advance begin
advance-run = refl

advance-Advanced_example : Advanced space last 5 (advance space 5 last)
advance-Advanced_example = advance-Advanced space last 5 (omega arith) (omega arith) (omega arith)

linear_work_group-value_example :
    (linear_work_group space last ≡ some (value (group_counts space) last.work_groups))
    × (value (group_counts space) last.work_groups < product (group_counts space))
linear_work_group-value_example =
    linear_work_group-value space last (omega arith) (λ e. cc) (omega arith) (omega arith)

global_id-digits_example :
    (global_id space last 0 < 4)
    × (global_id space last 0 / 2 ≡ work_group space last 0)
    × (global_id space last 0 % 2 ≡ local_id space last 0)
global_id-digits_example =
    global_id-digits space last 0 (record { offset = 0; global_size = 4; local_size = 2 })
      (omega arith) (omega arith) refl refl
