-- ===== src/Tests/KernelRange.antt =====
-- A kernel over 8 by 6 work-items in groups of 4 by 3 (lib/Core/Command.cpp).
use open_crun.Prelude.{ℕ, ◌+◌, ◌==◌, ◌≡◌, refl, true, [], ◌∷◌, none, some, if◌then◌else◌}
use open_crun.Builder.{created, is_success, size_add, size_mul, set_base_wait_list}
use open_crun.Builder.KernelRange.{
  Limits, Kernel, Command, build, new, check_kernel, out_of_dimensions, globals, push_globals,
  set_global_work_offset, push_offsets, set_local_work_size, set_given_sizes, push_locals, refuses,
  group_size, set_wait_list, dimension_info, create,
}
use open_crun.Builder.KernelRange.Groups.{IsRangeOf, nd_range_kernel-IsRangeOf}

abbrev limits : Limits
limits = record {
  max_dimensions = 3;
  size_type_max = 18446744073709551615;
  max_item_sizes = 64 ∷ 64 ∷ 64 ∷ [];
  max_group_size = 64;
  partition = λ sizes. none;
}

abbrev kernel : Kernel
kernel = record { id = 5; context = 1; is_built = true; has_all_args = true; required_sizes = none }

abbrev sizes : ℕ → ℕ
sizes i = if i == 0 then 8 else 6

abbrev locals : ℕ → ℕ
locals i = if i == 0 then 4 else 3

abbrev offsets : ℕ → ℕ
offsets i = 100 + i

abbrev command : Command
command = record {
  kernel = kernel;
  dim_info =
      record { offset = 100; global_size = 8; local_size = 4 }
      ∷ record { offset = 101; global_size = 6; local_size = 3 }
      ∷ [];
  wait_list = [];
}

command_lem :
    build 1 limits (some kernel) 2 (some offsets) (some sizes) (some locals) 0 none
    ≡ some (created command)
unfolding build new check_kernel out_of_dimensions globals push_globals set_global_work_offset
    push_offsets set_local_work_size set_given_sizes push_locals refuses group_size set_wait_list
    dimension_info create is_success size_add size_mul set_base_wait_list
command_lem = refl

nd_range_kernel-IsRangeOf_example : IsRangeOf 1 limits (some kernel) 2 sizes locals 0 none command
nd_range_kernel-IsRangeOf_example =
    nd_range_kernel-IsRangeOf 1 limits (some kernel) 2 (some offsets) sizes locals 0 none command
      command_lem
