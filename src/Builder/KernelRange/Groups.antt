-- ===== src/Builder/KernelRange/Groups.antt =====
-- The range of a kernel that clEnqueueNDRangeKernel enqueues (lib/Core/Command.cpp) is made of whole
-- groups.
use open_crun.Prelude.{
  ℕ, ◌≤◌, ◌≡◌, sym, ap, subst, ◌∙◌, true, false, List, Option, some, arith, ◌==◌, length, map,
  ◌>>=◌, >>=-eq-some, some-injective, Bool-cases, inl, inr, ◌||◌,
}
use open_crun.Builder.{Builder, set_base_wait_list, Event, Created, created, is_success}
use open_crun.Builder.Errors.{
  IsOk, requested, created-injective, set_base_wait_list-IsOk, set_base_wait_list-sticky,
}
use open_crun.Dimensions.{Info}
use open_crun.Builder.KernelRange.{
  Limits, Kernel, KernelRange, Command, out_of_dimensions, new, set_global_work_offset, group_size,
  set_local_work_size, set_wait_list, dimension_info, create, build,
}
use open_crun.Builder.KernelRange.Sizes.{
  Globals, Offsets, Locals, Dimensions, dimension_info-Dimensions, dimension_info-locals,
}
use open_crun.Builder.KernelRange.Accepted.{
  Begun, new-Begun, Shifted, set_global_work_offset-Shifted, set_global_work_offset-sticky, Divided,
  set_local_work_size-Divided,
}

create-created :
    (r : KernelRange) {c : Command}
    → create r ≡ some (created c)
    → IsOk r.base
      × (dimension_info r.global_offsets r.global_sizes r.local_sizes ≡ some c.dim_info)
      × (c.kernel ≡ r.kernel)
      × (c.wait_list ≡ r.base.wait_list)
unfolding create
create-created r {c} h = elim (Bool-cases (is_success r.base.err_code)) [
  | inr bad ↦ absurd (ground arith)
  | inl ok ↦
      let made : List Info → Option (Created Command) = λ info.
        some
          (created (record { kernel = r.kernel; dim_info = info; wait_list = r.base.wait_list })) in
      let runs : (dimension_info r.global_offsets r.global_sizes r.local_sizes >>= made)
          ≡ some (created c) =
        ground arith in
      let (info, e, is_c) =
        >>=-eq-some (dimension_info r.global_offsets r.global_sizes r.local_sizes) made runs in
      let same = created-injective (some-injective is_c) in
      (
        ok,
        e ∙ ap (λ (x : Command). some x.dim_info) same,
        sym (ap (λ (x : Command). x.kernel) same),
        sym (ap (λ (x : Command). x.wait_list) same),
      )
]

-- A range that OpenCL allows, with the sizes of the caller.
pub record IsRangeOf (ctx : ℕ) (l : Limits) (kernel : Option Kernel) (dims : ℕ)
    (sizes locals : ℕ → ℕ) (n : ℕ) (evs : Option (ℕ → Option Event)) (c : Command) : Type 0 where
  pub kernel_given : kernel ≡ some c.kernel
  pub built : c.kernel.is_built ≡ true
  pub specified : c.kernel.has_all_args ≡ true
  pub same_context : (c.kernel.context == ctx) ≡ true
  pub in_dimensions : out_of_dimensions l dims ≡ false
  pub counted : length c.dim_info ≡ dims
  pub divided : Dimensions l.size_type_max sizes locals 0 c.dim_info
  pub grouped : group_size 1 (map (λ (d : Info). d.local_size) c.dim_info) ≤ l.max_group_size
  pub waits : requested n evs ≡ some c.wait_list

module _ (ctx : ℕ) (l : Limits) (kernel : Option Kernel) (dims : ℕ) (sizes locals : ℕ → ℕ) (n : ℕ)
    (evs : Option (ℕ → Option Event)) where
  Begun-nonempty :
      (r : KernelRange)
      → Begun ctx l dims sizes kernel r
      → (r.dimensions == 0 || length r.global_sizes == 0) ≡ false
  unfolding out_of_dimensions
  Begun-nonempty r b = rw (b.dimensions, b.counted) (ground (arith, b.in_dimensions))

  assembled :
      (r r' r'' : KernelRange) (c : Command)
      → Begun ctx l dims sizes kernel r
      → Shifted l.size_type_max r r'
      → Divided l locals r' r''
      → IsOk (set_base_wait_list n evs r''.base)
      → dimension_info r''.global_offsets r''.global_sizes r''.local_sizes ≡ some c.dim_info
      → c.kernel ≡ r''.kernel
      → c.wait_list ≡ (set_base_wait_list n evs r''.base).wait_list
      → IsRangeOf ctx l kernel dims sizes locals n evs c
  assembled r r' r'' c begun shifted divided ok made is_kernel is_list =
      let is_r : r.kernel ≡ c.kernel =
        sym (is_kernel ∙ divided.same.kernel ∙ shifted.same.kernel) in
      let same_base = divided.same.base ∙ shifted.same.base ∙ begun.clean in
      let same_sizes = divided.same.global_sizes ∙ shifted.same.global_sizes in
      let (list, good, waited) =
        set_base_wait_list-IsOk n evs r''.base (ap (λ (x : Builder). x.wait_list) same_base) ok in
      let (dimensions, counted) =
        dimension_info-Dimensions l.size_type_max sizes locals 0 r''.global_offsets r''.global_sizes
          r''.local_sizes c.dim_info
          (subst (Globals l.size_type_max sizes 0) (sym same_sizes) begun.sized)
          (subst (λ x. Offsets l.size_type_max x r''.global_sizes) (sym divided.same_offsets)
            (subst (Offsets l.size_type_max r'.global_offsets) (sym same_sizes) shifted.offsets))
          (subst (λ x. Locals locals 0 x r''.local_sizes) (sym divided.same.global_sizes)
            divided.divides)
          made in
      record {
        kernel_given = begun.kernel_given ∙ ap some is_r;
        built = subst (λ (x : Kernel). x.is_built ≡ true) is_r begun.built;
        specified = subst (λ (x : Kernel). x.has_all_args ≡ true) is_r begun.specified;
        same_context = subst (λ (x : Kernel). (x.context == ctx) ≡ true) is_r begun.same_context;
        in_dimensions = begun.in_dimensions;
        counted = counted ∙ ap length same_sizes ∙ begun.counted;
        divided = dimensions;
        grouped =
            subst (λ x. group_size 1 x ≤ l.max_group_size)
              (sym (dimension_info-locals _ _ _ c.dim_info made)) divided.small;
        waits = good ∙ ap some (sym (is_list ∙ ap (λ (x : Builder). x.wait_list) waited));
      }

-- A command that the chain of calls of clEnqueueNDRangeKernel with local sizes yields is for the
-- kernel of the call, built for the device, of the context, and one for which AreAllArgsSpecified
-- answers true; its dimensions are as many as the call has, at least one and not more than the
-- device has; in each the sizes are those of the call and not 0, the global size is a multiple of
-- the local one, and neither it nor its sum with the offset as a size_t is above the maximum of the
-- device; the product of the local sizes as a size_t is not above that of groups; the wait list is
-- the caller's.
pub nd_range_kernel-IsRangeOf :
    (ctx : ℕ) (l : Limits) (kernel : Option Kernel) (dims : ℕ) (offsets : Option (ℕ → ℕ))
    (sizes locals : ℕ → ℕ) (n : ℕ) (evs : Option (ℕ → Option Event)) (c : Command)
    → build ctx l kernel dims offsets (some sizes) (some locals) n evs ≡ some (created c)
    → IsRangeOf ctx l kernel dims sizes locals n evs c
unfolding build set_wait_list
nd_range_kernel-IsRangeOf ctx l kernel dims offsets sizes locals n evs c h =
    let (r, e0, h1) = >>=-eq-some (new ctx l kernel dims (some sizes)) _ h in
    let (r', e1, h2) = >>=-eq-some (set_global_work_offset l offsets r) _ h1 in
    let (r'', e2, h3) = >>=-eq-some (set_local_work_size l (some locals) r') _ h2 in
    let (ok, dims_made, is_kernel, is_list) = create-created (set_wait_list n evs r'') h3 in
    let ok'' = set_base_wait_list-sticky n evs r''.base ok in
    let divided = set_local_work_size-Divided l locals r' r'' e2 ok'' in
    let ok' = subst IsOk divided.same.base ok'' in
    let ok0 = set_global_work_offset-sticky l offsets r r' e1 ok' in
    let begun = new-Begun ctx l dims sizes kernel r e0 ok0 in
    let shifted =
      set_global_work_offset-Shifted l sizes offsets r r' begun.sized
        (Begun-nonempty ctx l kernel dims sizes locals n evs r begun) e1 ok' in
    assembled ctx l kernel dims sizes locals n evs r r' r'' c begun shifted divided ok dims_made
      is_kernel is_list
