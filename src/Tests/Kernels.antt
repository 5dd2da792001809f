-- ===== src/Tests/Kernels.antt =====
-- A kernel of a buffer and an int (lib/Core/Kernel.cpp), a sampler, and an object with references.
use open_crun.Prelude.{◌≡◌, refl, subst, true, [], ◌∷◌, none, some, arith, inl, some-injective}
use open_crun.Builder.{success, new_builder, buffer}
use open_crun.Tests.Buffers.{memory, queue}
use open_crun.Kernel.{
  Descriptor, pointer_to, global_space, plain, scalar, a_mem, bytes, new, set_arg,
}
use open_crun.Kernel.Answers.{Answers, Suits}
use open_crun.Kernel.SetArg.{IsDefined, set_arg-Answers}
use open_crun.Kernel.Typed.{Call, RunsTyped, run-IsTyped}
use open_crun.Kernel.Unset.{Passes, check_kernel-run}
use open_crun.RefCount.{retain, release, Lives, run-Lives}
use open_crun.Sampler.{any_image_support, Context, create_sampler}
use open_crun.Sampler.Created.{create_sampler_modes}

abbrev descriptor : Descriptor
descriptor = record {
  context = 1;
  signature = pointer_to global_space ∷ plain ∷ [];
  params = scalar 8 ∷ scalar 4 ∷ [];
}

abbrev first : Call
first = record { index = 0; size = 8; value = some (a_mem (some (buffer (memory 1)))) }

abbrev second : Call
second = record { index = 1; size = 4; value = some (bytes (1 ∷ 2 ∷ 3 ∷ 4 ∷ [])) }

first-IsDefined : IsDefined descriptor first.index first.size first.value
first-IsDefined ty h = subst (Suits 8 first.value) (some-injective h) (some (memory 1), inl refl)

second-IsDefined : IsDefined descriptor second.index second.size second.value
second-IsDefined ty h =
    subst (Suits 4 second.value) (some-injective h) (1 ∷ 2 ∷ 3 ∷ 4 ∷ [], refl, omega arith)

set_arg-Answers_example :
    Answers (new descriptor) 0 8 first.value (set_arg (new descriptor) 0 8 first.value)
unfolding new
set_arg-Answers_example = set_arg-Answers (new descriptor) 0 8 first.value refl first-IsDefined

run-IsTyped_example : RunsTyped descriptor (first ∷ second ∷ []) (new descriptor)
run-IsTyped_example =
    run-IsTyped descriptor (first ∷ second ∷ []) refl (first-IsDefined, (second-IsDefined, tt))

-- No argument is set.
check_kernel-run_example : Passes descriptor [] (new_builder queue) 5 none
check_kernel-run_example = check_kernel-run descriptor [] (new_builder queue) 5 none refl tt

run-Lives_example : Lives (retain ∷ retain ∷ release ∷ [])
run-Lives_example = run-Lives (retain ∷ retain ∷ release ∷ []) (omega arith) (omega arith)

abbrev context : Context
context = record { id = 1; has_image_support = true ∷ [] }

-- CL_ADDRESS_CLAMP, and a filter that is none of CL/cl.h
create_sampler_modes_example : create_sampler (some context) true 0x1132 7 ≡ (
  some (record { context = 1; normalized_coords = true; addr_mode = 0x1132; fltr_mode = 0 }),
  success,
)
unfolding any_image_support
create_sampler_modes_example = create_sampler_modes context true 0x1132 7 refl
