-- ===== src/Kernel/SetArg.antt =====
-- Every call of Kernel::SetArg (lib/Core/Kernel.cpp), by the type of the parameter.
use open_crun.Prelude.{
  ℕ, zero, suc, ◌<◌, ◌≡◌, refl, List, [], ◌∷◌, Option, some, ltb, length, get_elem?, arith,
  Bool-cases, inl, inr,
}
use open_crun.Builder.{invalid_arg_index}
use open_crun.Kernel.{
  local_space, private_space, global_space, constant_space, invalid_space, image_1d, image_1d_array,
  image_1d_buffer, image_2d, image_2d_array, image_3d, sampler_class, ArgType, pointer_to, image_of,
  plain, ParamType, Descriptor, Pointee, Kernel, get_arg_count, is_buffer_arg, is_local_buffer_arg,
  is_image_arg, is_sampler_arg, is_by_value_arg, set_typed_arg, set_arg,
}
use open_crun.Kernel.Answers.{At, Answers, Suits}
use open_crun.Kernel.Arguments.{
  set_buffer_arg-Answers, set_local_buffer_arg-Answers, set_image_arg-Answers,
  set_sampler_arg-Answers, set_by_value_arg-Answers,
}

module _ (k : Kernel) (i size : ℕ) (arg : Option Pointee) where
  set_typed_arg-Answers :
      (ty : ArgType) (p : ParamType)
      → At k.desc i ty
      → get_elem? k.desc.params i ≡ some p
      → Suits size arg ty
      → Answers k i size arg (set_typed_arg ty k i size arg)
  unfolding set_typed_arg is_buffer_arg is_local_buffer_arg is_image_arg is_sampler_arg
      is_by_value_arg
  set_typed_arg-Answers (pointer_to local_space) p here has s =
      set_local_buffer_arg-Answers k i size arg here
  set_typed_arg-Answers (pointer_to private_space) p here has s =
      set_buffer_arg-Answers k i size arg private_space s.0 here (cc) s.1
  set_typed_arg-Answers (pointer_to global_space) p here has s =
      set_buffer_arg-Answers k i size arg global_space s.0 here (cc) s.1
  set_typed_arg-Answers (pointer_to constant_space) p here has s =
      set_buffer_arg-Answers k i size arg constant_space s.0 here (cc) s.1
  set_typed_arg-Answers (pointer_to invalid_space) p here has s =
      set_buffer_arg-Answers k i size arg invalid_space s.0 here (cc) s.1
  set_typed_arg-Answers (image_of sampler_class) p here has s =
      set_sampler_arg-Answers k i size arg s.0 here s.1
  set_typed_arg-Answers (image_of image_1d) p here has s =
      set_image_arg-Answers k i size arg image_1d s.0 here (cc) s.1
  set_typed_arg-Answers (image_of image_1d_array) p here has s =
      set_image_arg-Answers k i size arg image_1d_array s.0 here (cc) s.1
  set_typed_arg-Answers (image_of image_1d_buffer) p here has s =
      set_image_arg-Answers k i size arg image_1d_buffer s.0 here (cc) s.1
  set_typed_arg-Answers (image_of image_2d) p here has s =
      set_image_arg-Answers k i size arg image_2d s.0 here (cc) s.1
  set_typed_arg-Answers (image_of image_2d_array) p here has s =
      set_image_arg-Answers k i size arg image_2d_array s.0 here (cc) s.1
  set_typed_arg-Answers (image_of image_3d) p here has s =
      set_image_arg-Answers k i size arg image_3d s.0 here (cc) s.1
  set_typed_arg-Answers plain p here has s =
      set_by_value_arg-Answers k i size arg p s.0 here has s.1 s.2

get_elem?-some :
    {A : Type 0} (l : List A) (i : ℕ) → i < length l → (a : A) × (get_elem? l i ≡ some a)
get_elem?-some [] i h = absurd (omega arith)
get_elem?-some (a ∷ l) zero h = (a, refl)
get_elem?-some (a ∷ l) (suc i) h = get_elem?-some l i (omega arith)

-- What the pointer of a call has to be, by the type of the parameter, if there is one.
abbrev pub IsDefined : Descriptor → ℕ → ℕ → Option Pointee → Type 0
IsDefined d i size arg = (ty : ArgType) → At d i ty → Suits size arg ty

-- Where the function has a parameter for each argument of the signature, and the caller's pointer
-- is of the sort that the parameter asks for, SetArg returns: either it stores at the index an
-- argument that is of the parameter's type, of the kernel's context and what the caller points to,
-- and nothing else changes, or it leaves the kernel as it was and gives the error code whose reason
-- holds: an index that is not below the number of arguments, a value for a local buffer, a wrong
-- size, or an object of another context.
pub set_arg-Answers :
    (k : Kernel) (i size : ℕ) (arg : Option Pointee)
    → length k.desc.params ≡ length k.desc.signature
    → IsDefined k.desc i size arg
    → Answers k i size arg (set_arg k i size arg)
unfolding set_arg get_arg_count
set_arg-Answers k i size arg even suits = elim (Bool-cases (ltb i (length k.desc.signature))) [
  | inr e ↦ inr (invalid_arg_index, ground arith, rw e refl)
  | inl e ↦
      let inside : i < length k.desc.signature = ground arith in
      let (ty, here) = get_elem?-some k.desc.signature i inside in
      let (p, has) = get_elem?-some k.desc.params i (omega arith) in
      rw (e, here) (set_typed_arg-Answers k i size arg ty p here has (suits ty here))
]
