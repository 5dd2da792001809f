-- ===== src/Kernel.antt =====
-- Kernel and KernelArg (lib/Core/Kernel.cpp, include/opencrun/Core/Kernel.h), with clSetKernelArg
-- (tools/libOpenCRun/Kernel.cpp). The signature of a kernel, and for each parameter of its function the
-- sizes that LLVM's data layout gives, are parts of its descriptor. What a call does that C++ leaves
-- undefined is none: a copy from null or from behind the bytes that the caller has, and a pointer that
-- is read as one to another sort of object.
pub mod Answers
pub mod Arguments
pub mod SetArg
pub mod Typed
pub mod Unset
use open_crun.Prelude.{
  ℕ, zero, suc, ◌*◌, Bool, true, false, not, ◌&&◌, List, [], ◌∷◌, Option, none, some, if◌then◌else◌,
  ◌==◌, ltb, length, take, get_elem?, ◌>>=◌,
}
use open_crun.Builder.{
  ErrorCode, success, invalid_kernel, invalid_arg_index, invalid_arg_size, invalid_arg_value,
  invalid_mem_object, MemObject, Buffer, Image, buffer, image,
}

-- opencl::AddressSpace, and opencl::Type as far as the arguments ask for it.
pub data AddressSpace : Type 0 where
  private_space global_space constant_space local_space invalid_space : AddressSpace

pub data ImageClass : Type 0 where
  image_1d image_1d_array image_1d_buffer image_2d image_2d_array image_3d sampler_class :
      ImageClass

pub data ArgType : Type 0 where
  pointer_to : AddressSpace → ArgType
  image_of : ImageClass → ArgType
  plain : ArgType

-- The type of a parameter: a vector has its number of elements and the store size of one; any other
-- type has its store size.
pub data ParamType : Type 0 where
  vector : ℕ → ℕ → ℕ → ParamType
  scalar : ℕ → ParamType

pub record Descriptor : Type 0 where
  pub context : ℕ
  pub signature : List ArgType
  pub params : List ParamType

pub record Sampler : Type 0 where
  pub id : ℕ
  pub context : ℕ

-- Each argument but the first has its index.
pub data KernelArg : Type 0 where
  no_arg : KernelArg
  buffer_arg : ℕ → Option Buffer → KernelArg
  image_arg : ℕ → Option Image → KernelArg
  sampler_arg : ℕ → Option Sampler → KernelArg
  by_value_arg : ℕ → List ℕ → KernelArg
  local_buffer_arg : ℕ → ℕ → KernelArg

-- What the pointer of the caller points to.
pub data Pointee : Type 0 where
  a_mem : Option MemObject → Pointee
  a_sampler : Option Sampler → Pointee
  bytes : List ℕ → Pointee

pub record Kernel : Type 0 where
  pub desc : Descriptor
  pub arguments : List KernelArg

unfoldable pub get_arg_count : Descriptor → ℕ
get_arg_count d = length d.signature

unfoldable pub no_args : ℕ → List KernelArg
no_args zero = []
no_args (suc n) = no_arg ∷ no_args n

-- Kernel::Kernel
unfoldable pub new : Descriptor → Kernel
unfolding no_args get_arg_count
new d = record { desc = d; arguments = no_args (get_arg_count d) }

-- AreAllArgsSpecified
unfoldable pub are_all_args_specified : Kernel → Bool
unfolding get_arg_count
are_all_args_specified k = get_arg_count k.desc == length k.desc.params

abbrev is_local : AddressSpace → Bool
is_local local_space = true
is_local _ = false

unfoldable pub is_buffer_arg : ArgType → Bool
is_buffer_arg (pointer_to s) = not (is_local s)
is_buffer_arg _ = false

unfoldable pub is_local_buffer_arg : ArgType → Bool
is_local_buffer_arg (pointer_to s) = is_local s
is_local_buffer_arg _ = false

unfoldable pub is_image_arg : ArgType → Bool
is_image_arg (image_of sampler_class) = false
is_image_arg (image_of _) = true
is_image_arg _ = false

unfoldable pub is_sampler_arg : ArgType → Bool
is_sampler_arg (image_of sampler_class) = true
is_sampler_arg _ = false

unfoldable pub is_by_value_arg : ArgType → Bool
is_by_value_arg plain = true
is_by_value_arg _ = false

abbrev pub context_of : MemObject → ℕ
context_of (buffer b) = b.context
context_of (image i) = i.context

-- sizeof(cl_mem) and sizeof(cl_sampler)
abbrev pub handle_size : ℕ
handle_size = 8

-- `none` for a call without a defined result.
abbrev pub Result : Type 0
Result = Option (Kernel × ErrorCode)

abbrev pub set : List KernelArg → ℕ → KernelArg → List KernelArg
set [] i a = []
set (x ∷ xs) zero a = a ∷ xs
set (x ∷ xs) (suc i) a = x ∷ set xs i a

abbrev pub store : Kernel → ℕ → KernelArg → Result
store k i a = some (record k { arguments = set k.arguments i a }, success)

-- The buffer that a pointer to a cl_mem names, if neither is null.
unfoldable pub buffer_at : Option Pointee → Option (Option Buffer)
buffer_at none = some none
buffer_at (some (a_mem none)) = some none
buffer_at (some (a_mem (some (buffer b)))) = some (some b)
buffer_at (some _) = none

-- The image that a pointer to a cl_mem names, if neither is null.
unfoldable pub image_at : Option Pointee → Option (Option Image)
image_at none = some none
image_at (some (a_mem none)) = some none
image_at (some (a_mem (some (image m)))) = some (some m)
image_at (some _) = none

unfoldable pub sampler_at : Option Pointee → Option (Option Sampler)
sampler_at none = some none
sampler_at (some (a_sampler s)) = some s
sampler_at (some _) = none

unfoldable pub bytes_at : Option Pointee → ℕ → Option (List ℕ)
bytes_at (some (bytes bs)) n = if ltb (length bs) n then none else some (take n bs)
bytes_at _ n = none

abbrev pub foreign : {A : Type 0} → (A → ℕ) → ℕ → Option A → Bool
foreign ctx k none = false
foreign ctx k (some a) = not (ctx a == k)

unfoldable pub set_buffer_arg : Kernel → ℕ → ℕ → Option Pointee → Result
unfolding buffer_at
set_buffer_arg k i size arg = if not (size == handle_size) then some (k, invalid_arg_size) else (do
  m ← buffer_at arg
  if foreign (λ b. b.context) k.desc.context m
      then some (k, invalid_mem_object)
      else store k i (buffer_arg i m))

unfoldable pub set_local_buffer_arg : Kernel → ℕ → ℕ → Option Pointee → Result
set_local_buffer_arg k i size (some p) = some (k, invalid_arg_value)
set_local_buffer_arg k i size none =
    if size == 0 then some (k, invalid_arg_size) else store k i (local_buffer_arg i size)

unfoldable pub set_image_arg : Kernel → ℕ → ℕ → Option Pointee → Result
unfolding image_at
set_image_arg k i size arg = if not (size == handle_size) then some (k, invalid_arg_size) else (do
  m ← image_at arg
  if foreign (λ x. x.context) k.desc.context m
      then some (k, invalid_mem_object)
      else store k i (image_arg i m))

unfoldable pub set_sampler_arg : Kernel → ℕ → ℕ → Option Pointee → Result
unfolding sampler_at
set_sampler_arg k i size arg = if not (size == handle_size) then some (k, invalid_arg_size) else (do
  s ← sampler_at arg
  if foreign (λ x. x.context) k.desc.context s
      then some (k, invalid_mem_object)
      else store k i (sampler_arg i s))

-- A vector of 3 elements has the size of 4.
unfoldable pub arg_size : ParamType → ℕ
arg_size (vector n element size) = if n == 3 then element * 4 else size
arg_size (scalar size) = size

unfoldable pub set_by_value_arg : Kernel → ℕ → ℕ → Option Pointee → Result
unfolding arg_size bytes_at
set_by_value_arg k i size arg = do
  p ← get_elem? k.desc.params i
  if not (size == arg_size p)
      then some (k, invalid_arg_size)
      else (do store k i (by_value_arg i (← bytes_at arg size)))

unfoldable pub set_typed_arg : ArgType → Kernel → ℕ → ℕ → Option Pointee → Result
set_typed_arg ty k i size arg =
    if is_buffer_arg ty
    then set_buffer_arg k i size arg
    else if is_local_buffer_arg ty
    then set_local_buffer_arg k i size arg
    else if is_image_arg ty
    then set_image_arg k i size arg
    else if is_sampler_arg ty
    then set_sampler_arg k i size arg
    else if is_by_value_arg ty
    then set_by_value_arg k i size arg
    else none

-- Kernel::SetArg
unfoldable pub set_arg : Kernel → ℕ → ℕ → Option Pointee → Result
unfolding set_typed_arg get_arg_count
set_arg k i size arg =
    if not (ltb i (get_arg_count k.desc))
    then some (k, invalid_arg_index)
    else (do ty ← get_elem? k.desc.signature i; set_typed_arg ty k i size arg)

-- clSetKernelArg: the kernel that the caller names, if any, and the error code.
unfoldable pub set_kernel_arg :
    Option Kernel → ℕ → ℕ → Option Pointee → Option (Option Kernel × ErrorCode)
unfolding set_arg
set_kernel_arg none i size arg = some (none, invalid_kernel)
set_kernel_arg (some k) i size arg = do (k', e) ← set_arg k i size arg; some (some k', e)
