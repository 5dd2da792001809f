-- ===== src/Kernel/Answers.antt =====
-- What Kernel::SetArg (lib/Core/Kernel.cpp) may answer: the words of the theorems on it.
use open_crun.Prelude.{
  ℕ, ◌≤◌, ◌<◌, ◌≡◌, ◌≢◌, List, Option, none, some, length, take, get_elem?, ◌⊎◌,
}
use open_crun.Builder.{
  ErrorCode, success, invalid_arg_index, invalid_arg_size, invalid_arg_value, invalid_mem_object,
  MemObject, Buffer, Image, buffer, image,
}
use open_crun.Kernel.{
  AddressSpace, local_space, ImageClass, sampler_class, ArgType, pointer_to, image_of, plain,
  ParamType, Descriptor, Sampler, KernelArg, no_arg, buffer_arg, image_arg, sampler_arg,
  by_value_arg, local_buffer_arg, Pointee, a_mem, a_sampler, bytes, Kernel, context_of, handle_size,
  Result, set, arg_size,
}

abbrev pub IsOf : {A : Type 0} → (A → ℕ) → ℕ → Option A → Type 0
IsOf ctx k none = Unit {0}
IsOf ctx k (some a) = ctx a ≡ k

-- The pointer of the caller is null, or points to what is expected.
abbrev pub Names : {A : Type 0} → (Option A → Pointee) → Option Pointee → Option A → Type 0
Names as_pointee arg m = (arg ≡ some (as_pointee m)) ⊎ ((arg ≡ none) × (m ≡ none))

abbrev pub At : Descriptor → ℕ → ArgType → Type 0
At d i ty = get_elem? d.signature i ≡ some ty

abbrev pub some_buffer : Option Buffer → Pointee
some_buffer none = a_mem none
some_buffer (some b) = a_mem (some (buffer b))

abbrev pub some_image : Option Image → Pointee
some_image none = a_mem none
some_image (some m) = a_mem (some (image m))

-- An argument that is given and is of the type of parameter `i`.
abbrev pub Fits : Descriptor → ℕ → KernelArg → Type 0
Fits d i no_arg = ⊥
Fits d i (buffer_arg j m) =
    (j ≡ i)
    × (s : AddressSpace) × At d i (pointer_to s)
    × (s ≢ local_space)
    × IsOf (λ b. b.context) d.context m
Fits d i (local_buffer_arg j n) = (j ≡ i) × At d i (pointer_to local_space) × (0 < n)
Fits d i (image_arg j m) =
    (j ≡ i)
    × (c : ImageClass) × At d i (image_of c)
    × (c ≢ sampler_class)
    × IsOf (λ x. x.context) d.context m
Fits d i (sampler_arg j s) =
    (j ≡ i) × At d i (image_of sampler_class) × IsOf (λ x. x.context) d.context s
Fits d i (by_value_arg j bs) =
    (j ≡ i)
    × At d i plain
    × (p : ParamType) × (get_elem? d.params i ≡ some p)
    × (length bs ≡ arg_size p)

-- The argument is what the caller points to.
abbrev pub Holds : ℕ → Option Pointee → KernelArg → Type 0
Holds size arg no_arg = ⊥
Holds size arg (buffer_arg j m) = Names some_buffer arg m
Holds size arg (image_arg j m) = Names some_image arg m
Holds size arg (sampler_arg j s) = Names a_sampler arg s
Holds size arg (local_buffer_arg j n) = (arg ≡ none) × (n ≡ size)
Holds size arg (by_value_arg j bs) =
    (all : List ℕ) × (arg ≡ some (bytes all)) × (bs ≡ take size all)

abbrev pub WrongSize : Descriptor → ℕ → ℕ → ArgType → Type 0
WrongSize d i size (pointer_to local_space) = size ≡ 0
WrongSize d i size (pointer_to _) = size ≢ handle_size
WrongSize d i size (image_of _) = size ≢ handle_size
WrongSize d i size plain = (p : ParamType) × (get_elem? d.params i ≡ some p) × (size ≢ arg_size p)

-- The object that is handed over is of another context.
abbrev pub Foreign : ℕ → Option Pointee → Type 0
Foreign ctx arg =
    ((m : MemObject) × (arg ≡ some (a_mem (some m))) × (context_of m ≢ ctx))
    ⊎ ((s : Sampler) × (arg ≡ some (a_sampler (some s))) × (s.context ≢ ctx))

-- Why a call is refused with an error code.
abbrev pub Reason : Descriptor → ℕ → ℕ → Option Pointee → ErrorCode → Type 0
Reason d i size arg invalid_arg_index = length d.signature ≤ i
Reason d i size arg invalid_arg_value = At d i (pointer_to local_space) × (arg ≢ none)
Reason d i size arg invalid_arg_size = (ty : ArgType) × At d i ty × WrongSize d i size ty
Reason d i size arg invalid_mem_object = Foreign d.context arg
Reason d i size arg _ = ⊥

abbrev pub Stored : Kernel → ℕ → ℕ → Option Pointee → Kernel → Type 0
Stored k i size arg k' =
    (a : KernelArg) × Fits k.desc i a
    × Holds size arg a
    × (k' ≡ record k { arguments = set k.arguments i a })

-- The call returns: it stores the argument, or it changes nothing and says why.
abbrev pub Answers : Kernel → ℕ → ℕ → Option Pointee → Result → Type 0
Answers k i size arg r =
    ((k' : Kernel) × Stored k i size arg k' × (r ≡ some (k', success)))
    ⊎ ((e : ErrorCode) × Reason k.desc i size arg e × (r ≡ some (k, e)))

-- What the pointer of the caller has to be for the call to be defined.
abbrev pub Suits : ℕ → Option Pointee → ArgType → Type 0
Suits size arg (pointer_to local_space) = Unit {0}
Suits size arg (pointer_to _) = (m : Option Buffer) × Names some_buffer arg m
Suits size arg (image_of sampler_class) = (s : Option Sampler) × Names a_sampler arg s
Suits size arg (image_of _) = (m : Option Image) × Names some_image arg m
Suits size arg plain = (all : List ℕ) × (arg ≡ some (bytes all)) × (size ≤ length all)
