-- ===== src/Builder/KernelRange.antt =====
-- EnqueueNDRangeKernelBuilder and its command (lib/Core/Command.cpp), with the chain of calls in
-- clEnqueueNDRangeKernel and the arguments of clEnqueueTask (tools/libOpenCRun/EnqueueCommand.cpp).
-- A null kernel that is followed, an index out of range, a division by zero and the failed assertion
-- of DimensionInfo are none. What the kernel and the device answer is given.
pub mod Sizes
pub mod Accepted
pub mod Groups
use open_crun.Prelude.{
  ℕ, zero, suc, ◌%◌, Bool, true, false, ◌&&◌, ◌||◌, not, List, [], ◌∷◌, Option, none, some,
  if◌then◌else◌, ◌==◌, ltb, leb, length, get_elem?, ◌>>=◌,
}
use open_crun.Builder.{
  Builder, Event, Created, created, failed, notify_error, set_base_wait_list, success, ErrorCode,
  is_success, size_add, size_mul, invalid_kernel_args, invalid_program_executable, invalid_context,
  invalid_work_dimension, invalid_global_work_size, invalid_global_offset, invalid_work_group_size,
}
use open_crun.Dimensions.{Info}

-- The limits of a device (the sizes are those of a local group, by dimension) and how it partitions
-- global sizes.
pub record Limits : Type 0 where
  pub max_dimensions : ℕ
  pub size_type_max : ℕ
  pub max_item_sizes : List ℕ
  pub max_group_size : ℕ
  pub partition : List ℕ → Option (List ℕ)

pub record Kernel : Type 0 where
  pub id : ℕ
  pub context : ℕ
  pub is_built : Bool
  pub has_all_args : Bool
  pub required_sizes : Option (List ℕ)

pub record KernelRange : Type 0 where
  pub base : Builder
  pub kernel : Kernel
  pub dimensions : ℕ
  pub global_offsets : List ℕ
  pub global_sizes : List ℕ
  pub local_sizes : List ℕ

pub record Command : Type 0 where
  pub kernel : Kernel
  pub dim_info : List Info
  pub wait_list : List Event

-- What a loop has pushed, and whether it ran to its end.
abbrev pub Pushed : Type 0
Pushed = List ℕ × Bool

abbrev pub push : ℕ → Pushed → Pushed
push x r = (x ∷ r.0, r.1)

-- `n` sizes from index `i` on.
unfoldable pub push_globals : ℕ → (ℕ → ℕ) → ℕ → ℕ → Pushed
push_globals size_max sizes zero i = ([], true)
push_globals size_max sizes (suc n) i =
    let rest = push_globals size_max sizes n (suc i) in
    if sizes i == 0 || ltb size_max (sizes i) then ([], false) else push (sizes i) rest

abbrev pub notify_if : Bool → ErrorCode → Builder → Builder
notify_if c e b = if c then notify_error e b else b

unfoldable pub check_kernel : ℕ → Kernel → Builder → Builder
unfolding notify_error
check_kernel ctx k b = notify_if (not k.has_all_args) invalid_kernel_args (
    notify_if (not (k.context == ctx)) invalid_context
      (notify_if (not k.is_built) invalid_program_executable b))

unfoldable pub out_of_dimensions : Limits → ℕ → Bool
out_of_dimensions l dims = dims == 0 || ltb l.max_dimensions dims

unfoldable pub globals : Limits → ℕ → Option (ℕ → ℕ) → Pushed
unfolding push_globals
globals l dims none = ([], false)
globals l dims (some sizes) = push_globals l.size_type_max sizes dims 0

unfoldable pub new : ℕ → Limits → Option Kernel → ℕ → Option (ℕ → ℕ) → Option KernelRange
unfolding check_kernel out_of_dimensions globals notify_error
new ctx l none dims sizes = none
new ctx l (some k) dims sizes =
    let b = check_kernel ctx k (record { context = ctx; wait_list = []; err_code = success }) in
    let out = out_of_dimensions l dims in
    let (pushed, all) = globals l dims sizes in
    some (record {
      base = notify_if (not all) invalid_global_work_size (notify_if out invalid_work_dimension b);
      kernel = k;
      dimensions = if out then 0 else dims;
      global_offsets = [];
      global_sizes = pushed;
      local_sizes = [];
    })

unfoldable pub push_offsets : ℕ → (ℕ → ℕ) → ℕ → ℕ → List ℕ → Option Pushed
unfolding size_add
push_offsets size_max offsets zero i gs = some ([], true)
push_offsets size_max offsets (suc n) i [] = none
push_offsets size_max offsets (suc n) i (g ∷ gs) =
    let rest = push_offsets size_max offsets n (suc i) gs in
    if ltb size_max (size_add (offsets i) g)
    then some ([], false)
    else (rest >>= λ r. some (push (offsets i) r))

abbrev pub no_offsets : ℕ → List ℕ
no_offsets zero = []
no_offsets (suc n) = 0 ∷ no_offsets n

abbrev pub with_offsets : Pushed → KernelRange → KernelRange
with_offsets p r = record r {
  base = notify_if (not p.1) invalid_global_offset r.base;
  global_offsets = p.0;
}

unfoldable pub set_global_work_offset : Limits → Option (ℕ → ℕ) → KernelRange → Option KernelRange
unfolding push_offsets notify_error
set_global_work_offset l offsets r =
    if r.dimensions == 0 || length r.global_sizes == 0 then some r else elim offsets [
      | none ↦ some (record r { global_offsets = no_offsets r.dimensions })
      | some f ↦ push_offsets l.size_type_max f r.dimensions 0 r.global_sizes >>= λ p.
          some (with_offsets p r)
    ]

-- Whether a kernel that requires sizes refuses this one; none is an index out of range.
unfoldable pub refuses : Option (List ℕ) → ℕ → ℕ → Option Bool
refuses none i size = some false
refuses (some sizes) i size =
    if leb 3 i
    then some true
    else elim (get_elem? sizes i) [ none ↦ none | some s ↦ some (not (s == size)) ]

unfoldable pub push_locals : Option (List ℕ) → (ℕ → ℕ) → ℕ → ℕ → List ℕ → List ℕ → Option Pushed
unfolding refuses
push_locals req sizes zero i maxes gs = some ([], true)
push_locals req sizes (suc n) i [] gs = none
push_locals req sizes (suc n) i (m ∷ ms) [] = if ltb m (sizes i) then some ([], false) else none
push_locals req sizes (suc n) i (m ∷ ms) (g ∷ gs) =
    let rest = push_locals req sizes n (suc i) ms gs in
    if ltb m (sizes i)
    then some ([], false)
    else if sizes i == 0
    then none
    else if not (g % sizes i == 0)
    then some ([], false)
    else (refuses req i (sizes i) >>= λ bad.
        if bad then some ([], false) else (rest >>= λ r. some (push (sizes i) r)))

-- WorkGroupSize
unfoldable pub group_size : ℕ → List ℕ → ℕ
unfolding size_mul
group_size acc [] = acc
group_size acc (s ∷ ss) = group_size (size_mul acc s) ss

abbrev pub requires : Kernel → Bool
requires k = elim k.required_sizes [ none ↦ false | some sizes ↦ true ]

unfoldable pub set_partition : Limits → KernelRange → KernelRange
unfolding notify_error
set_partition l r =
    let b = notify_if (requires r.kernel) invalid_work_group_size r.base in
    elim (l.partition r.global_sizes) [
      | none ↦ record r { base = notify_error invalid_work_group_size b }
      | some sizes ↦ record r { base = b; local_sizes = sizes }
    ]

abbrev pub with_locals : Limits → Pushed → KernelRange → KernelRange
with_locals l p r = record r {
  base =
      notify_if (not (p.1 && leb (group_size 1 p.0) l.max_group_size)) invalid_work_group_size
        r.base;
  local_sizes = p.0;
}

unfoldable pub set_given_sizes : Limits → (ℕ → ℕ) → KernelRange → Option KernelRange
unfolding push_locals group_size notify_error
set_given_sizes l sizes r =
    push_locals r.kernel.required_sizes sizes r.dimensions 0 l.max_item_sizes r.global_sizes
    >>= λ p. some (with_locals l p r)

unfoldable pub set_wait_list : ℕ → Option (ℕ → Option Event) → KernelRange → KernelRange
unfolding set_base_wait_list
set_wait_list n evs r = record r { base = set_base_wait_list n evs r.base }

-- The sizes that the kernel requires are read from its function for the device, which a kernel that is
-- not built for the device does not have.
unfoldable pub set_local_work_size : Limits → Option (ℕ → ℕ) → KernelRange → Option KernelRange
unfolding set_partition set_given_sizes
set_local_work_size l sizes r =
    if not r.kernel.is_built
    then none
    else elim sizes [ none ↦ some (set_partition l r) | some f ↦ set_given_sizes l f r ]

-- DimensionInfo
unfoldable pub dimension_info : List ℕ → List ℕ → List ℕ → Option (List Info)
dimension_info [] [] [] = some []
dimension_info (o ∷ os) (g ∷ gs) (s ∷ ss) = dimension_info os gs ss >>= λ rest.
    some (record { offset = o; global_size = g; local_size = s } ∷ rest)
dimension_info _ _ _ = none

unfoldable pub create : KernelRange → Option (Created Command)
unfolding is_success dimension_info
create r =
    if not (is_success r.base.err_code)
    then some (failed r.base.err_code)
    else (dimension_info r.global_offsets r.global_sizes r.local_sizes >>= λ info.
        some
          (created (record { kernel = r.kernel; dim_info = info; wait_list = r.base.wait_list })))

-- The chain of calls of clEnqueueNDRangeKernel.
unfoldable pub build :
    ℕ
    → Limits
    → Option Kernel
    → ℕ
    → Option (ℕ → ℕ)
    → Option (ℕ → ℕ)
    → Option (ℕ → ℕ)
    → ℕ
    → Option (ℕ → Option Event)
    → Option (Created Command)
unfolding new set_global_work_offset set_local_work_size set_wait_list create
build ctx l kernel dims offsets sizes locals n evs = do
  r ← new ctx l kernel dims sizes
  r' ← set_global_work_offset l offsets r
  r'' ← set_local_work_size l locals r'
  create (set_wait_list n evs r'')

-- clEnqueueTask
unfoldable pub build_task :
    ℕ → Limits → Option Kernel → ℕ → Option (ℕ → Option Event) → Option (Created Command)
unfolding build
build_task ctx l kernel n evs = build ctx l kernel 1 none (some (λ i. 1)) (some (λ i. 1)) n evs
