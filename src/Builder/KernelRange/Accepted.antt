-- ===== src/Builder/KernelRange/Accepted.antt =====
-- What clEnqueueNDRangeKernel guarantees of the command that its builder creates (lib/Core/Command.cpp).
use open_crun.Prelude.{
  ℕ, ◌≤◌, ◌≡◌, refl, subst, true, false, ◌||◌, [], Option, none, some, arith, ◌==◌, leb, length,
  ◌>>=◌, Bool-cases, inl, inr, >>=-eq-some, some-injective,
}
use open_crun.Builder.{notify_error, is_success, success}
use open_crun.Builder.Errors.{IsOk}
use open_crun.Builder.KernelRange.{
  Limits, Kernel, KernelRange, check_kernel, out_of_dimensions, globals, new, push_globals,
  push_offsets, no_offsets, set_global_work_offset, with_offsets, with_locals, push_locals,
  group_size, set_given_sizes, set_local_work_size,
}
use open_crun.Builder.KernelRange.Sizes.{
  Globals, Offsets, Locals, push_globals-Globals, push_offsets-Offsets, no_offsets-Offsets,
  push_locals-Locals,
}

module _ (ctx : ℕ) (l : Limits) (dims : ℕ) (sizes : ℕ → ℕ) where
  -- A builder with the kernel and the global sizes of the caller.
  pub record Begun (kernel : Option Kernel) (r : KernelRange) : Type 0 where
    pub kernel_given : kernel ≡ some r.kernel
    pub built : r.kernel.is_built ≡ true
    pub specified : r.kernel.has_all_args ≡ true
    pub same_context : (r.kernel.context == ctx) ≡ true
    pub in_dimensions : out_of_dimensions l dims ≡ false
    pub dimensions : r.dimensions ≡ dims
    pub sized : Globals l.size_type_max sizes 0 r.global_sizes
    pub counted : length r.global_sizes ≡ dims
    pub clean : r.base ≡ record { context = ctx; wait_list = []; err_code = success }

  pub new-Begun :
      (kernel : Option Kernel) (r : KernelRange)
      → new ctx l kernel dims (some sizes) ≡ some r
      → IsOk r.base
      → Begun kernel r
  unfolding new check_kernel globals notify_error is_success
  new-Begun none r h ok = absurd (cc h)
  new-Begun (some k) r h ok =
      let is_r = some-injective h in
      let all : (push_globals l.size_type_max sizes dims 0).1 ≡ true = ground arith in
      let (sized, counted) = push_globals-Globals l.size_type_max sizes dims 0 all in
      record {
        kernel_given = ground arith;
        built = ground arith;
        specified = ground arith;
        same_context = ground arith;
        in_dimensions = ground arith;
        dimensions = ground arith;
        sized =
            subst (λ (x : KernelRange). Globals l.size_type_max sizes 0 x.global_sizes) is_r sized;
        counted = subst (λ (x : KernelRange). length x.global_sizes ≡ dims) is_r counted;
        clean = ground arith;
      }

-- The parts that a step keeps.
pub record Same (r r' : KernelRange) : Type 0 where
  pub base : r'.base ≡ r.base
  pub kernel : r'.kernel ≡ r.kernel
  pub dimensions : r'.dimensions ≡ r.dimensions
  pub global_sizes : r'.global_sizes ≡ r.global_sizes

pub record Shifted (m : ℕ) (r r' : KernelRange) : Type 0 where
  pub same : Same r r'
  pub offsets : Offsets m r'.global_offsets r.global_sizes

pub set_global_work_offset-Shifted :
    (l : Limits) (sizes : ℕ → ℕ) (offsets : Option (ℕ → ℕ)) (r r' : KernelRange)
    → Globals l.size_type_max sizes 0 r.global_sizes
    → (r.dimensions == 0 || length r.global_sizes == 0) ≡ false
    → set_global_work_offset l offsets r ≡ some r'
    → IsOk r'.base
    → Shifted l.size_type_max r r'
unfolding set_global_work_offset notify_error is_success
set_global_work_offset-Shifted l sizes none r r' sized some_sizes h ok =
    let is_r' : record r { global_offsets = no_offsets r.dimensions } ≡ r' = ground arith in
    subst (Shifted l.size_type_max r) is_r' (record {
      same = record { base = refl; kernel = refl; dimensions = refl; global_sizes = refl };
      offsets = no_offsets-Offsets l.size_type_max sizes r.dimensions 0 r.global_sizes sized;
    })
set_global_work_offset-Shifted l sizes (some f) r r' sized some_sizes h ok =
    let pushing = push_offsets l.size_type_max f r.dimensions 0 r.global_sizes in
    let runs : (pushing >>= λ p. some (with_offsets p r)) ≡ some r' = ground arith in
    let (p, e, made) = >>=-eq-some pushing (λ p. some (with_offsets p r)) runs in
    let is_r' = some-injective made in
    let all : p.1 ≡ true = ground arith in
    record {
      same = record {
        base = ground arith;
        kernel = ground arith;
        dimensions = ground arith;
        global_sizes = ground arith;
      };
      offsets =
          subst (λ (x : KernelRange). Offsets l.size_type_max x.global_offsets r.global_sizes) is_r'
            (push_offsets-Offsets l.size_type_max f r.dimensions 0 r.global_sizes p e all);
    }

pub set_global_work_offset-sticky :
    (l : Limits) (offsets : Option (ℕ → ℕ)) (r r' : KernelRange)
    → set_global_work_offset l offsets r ≡ some r'
    → IsOk r'.base
    → IsOk r.base
unfolding set_global_work_offset notify_error is_success
set_global_work_offset-sticky l none r r' h ok = ground arith
set_global_work_offset-sticky l (some f) r r' h ok =
    elim (Bool-cases (r.dimensions == 0 || length r.global_sizes == 0)) [
      | inl skip ↦ ground arith
      | inr on ↦
          let pushing = push_offsets l.size_type_max f r.dimensions 0 r.global_sizes in
          let runs : (pushing >>= λ p. some (with_offsets p r)) ≡ some r' = ground arith in
          let (p, e, made) = >>=-eq-some pushing (λ p. some (with_offsets p r)) runs in ground arith
    ]

pub record Divided (l : Limits) (locals : ℕ → ℕ) (r r' : KernelRange) : Type 0 where
  pub same : Same r r'
  pub same_offsets : r'.global_offsets ≡ r.global_offsets
  pub divides : Locals locals 0 r.global_sizes r'.local_sizes
  pub small : group_size 1 r'.local_sizes ≤ l.max_group_size

pub set_local_work_size-Divided :
    (l : Limits) (locals : ℕ → ℕ) (r r' : KernelRange)
    → set_local_work_size l (some locals) r ≡ some r'
    → IsOk r'.base
    → Divided l locals r r'
unfolding set_local_work_size set_given_sizes notify_error is_success
set_local_work_size-Divided l locals r r' h ok =
    let built : r.kernel.is_built ≡ true = ground arith in
    let pushing =
      push_locals r.kernel.required_sizes locals r.dimensions 0 l.max_item_sizes r.global_sizes in
    let runs : (pushing >>= λ p. some (with_locals l p r)) ≡ some r' = ground arith in
    let (p, e, made) = >>=-eq-some pushing (λ p. some (with_locals l p r)) runs in
    let is_r' = some-injective made in
    let all : p.1 ≡ true = ground arith in
    let fits : leb (group_size 1 p.0) l.max_group_size ≡ true = ground arith in
    record {
      same = record {
        base = ground arith;
        kernel = ground arith;
        dimensions = ground arith;
        global_sizes = ground arith;
      };
      same_offsets = ground arith;
      divides =
          subst (λ (x : KernelRange). Locals locals 0 r.global_sizes x.local_sizes) is_r'
            (push_locals-Locals r.kernel.required_sizes locals r.dimensions 0 l.max_item_sizes
              r.global_sizes p e all);
      small =
          subst (λ (x : KernelRange). group_size 1 x.local_sizes ≤ l.max_group_size) is_r'
            (ground arith);
    }
