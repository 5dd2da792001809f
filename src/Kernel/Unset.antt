-- ===== src/Kernel/Unset.antt =====
-- Whether the arguments of a kernel count as set (AreAllArgsSpecified in lib/Core/Kernel.cpp) when a
-- command for it is built (lib/Core/Command.cpp).
use open_crun.Prelude.{
  ℕ, ◌≡◌, sym, subst, ap, refl, true, List, Option, some, length, ◌==◌, All, arith,
}
use open_crun.Builder.{Builder}
use open_crun.Builder.KernelRange as KernelRange
use open_crun.Builder.KernelRange.{check_kernel}
use open_crun.Kernel.{Descriptor, Kernel, new, get_arg_count, are_all_args_specified}
use open_crun.Kernel.SetArg.{IsDefined}
use open_crun.Kernel.Typed.{Call, run, run-IsTyped}

-- A kernel that is built for the device, as the builder of a command asks it.
unfoldable pub asked : Kernel → ℕ → Option (List ℕ) → KernelRange.Kernel
unfolding are_all_args_specified
asked k id required = record {
  id = id;
  context = k.desc.context;
  is_built = true;
  has_all_args = are_all_args_specified k;
  required_sizes = required;
}

-- The kernel after the calls, for which the builder reports nothing.
abbrev pub Passes : Descriptor → List Call → Builder → ℕ → Option (List ℕ) → Type 0
Passes d cs b id required =
    (k : Kernel) × (run cs (new d) ≡ some k) × (check_kernel d.context (asked k id required) b ≡ b)

-- For a new kernel of a descriptor whose function has a parameter for each argument of the
-- signature, after any list of calls of SetArg, also none, whose pointers are of the sort that the
-- parameters ask for, the checks of EnqueueNDRangeKernelBuilder on a kernel that is built and of
-- the queue's context report nothing: an argument that was never set is not noticed.
pub check_kernel-run :
    (d : Descriptor) (cs : List Call) (b : Builder) (id : ℕ) (required : Option (List ℕ))
    → length d.params ≡ length d.signature
    → All (λ c. IsDefined d c.index c.size c.value) cs
    → Passes d cs b id required
unfolding asked are_all_args_specified get_arg_count check_kernel
check_kernel-run d cs b id required even all =
    let (k, ran, same, typed) = run-IsTyped d cs even all in
    let equal = subst (λ x. length x.params ≡ length x.signature) (sym same) even in
    let full : (length k.desc.signature == length k.desc.params) ≡ true = ground arith in
    let own : (k.desc.context == d.context) ≡ true = rw (ap (λ x. x.context) same) (ground arith) in
    (k, ran, rw (full, own) refl)
