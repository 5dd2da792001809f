-- ===== src/Builder.antt =====
-- CommandBuilder (lib/Core/Command.cpp), from which the builder of each command derives, and the
-- checks that the builders share. A builder collects errors: a later one replaces an earlier one,
-- and none is cleared. A cl_mem, a pointer or an array of the caller is an option, `none` for NULL.
pub mod ReadBuffer
pub mod WriteBuffer
pub mod CopyBuffer
pub mod MapBuffer
pub mod MapImage
pub mod UnmapMemObject
pub mod FillBuffer
pub mod Markers
pub mod ImageChecks
pub mod ReadImage
pub mod WriteImage
pub mod CopyImage
pub mod ImageBuffers
pub mod CopyImageToBuffer
pub mod CopyBufferToImage
pub mod FillImage
pub mod KernelRange
pub mod RectArea
pub mod ReadBufferRect
pub mod WriteBufferRect
pub mod CopyBufferRect
pub mod Errors
use open_crun.Prelude.{
  ℕ, zero, suc, ◌+◌, ◌*◌, ◌%◌, ◌≡◌, refl, Bool, true, false, ◌&&◌, ◌||◌, not, List, [], ◌∷◌, ◌++◌,
  Option, none, some, if◌then◌else◌, ◌==◌, has, ltb,
}

-- The OpenCL error codes that the builders report.
pub data ErrorCode : Type 0 where
  success invalid_value invalid_mem_object invalid_operation invalid_context invalid_event_wait_list
        exec_status_error misaligned_sub_buffer_offset mem_copy_overlap invalid_image_size
        image_format_not_supported image_format_mismatch map_failure invalid_buffer_size
        invalid_host_ptr invalid_image_format_descriptor invalid_image_descriptor out_of_host_memory
        invalid_kernel invalid_program_executable invalid_kernel_args invalid_work_dimension
        invalid_global_work_size invalid_global_offset invalid_work_group_size invalid_device
        invalid_device_partition_count invalid_arg_index invalid_arg_value invalid_arg_size :
      ErrorCode

unfoldable pub is_success : ErrorCode → Bool
is_success success = true
is_success _ = false

-- A size_t of 64 bits.
abbrev pub size_mod : ℕ
size_mod = 18446744073709551616

unfoldable pub size_add : ℕ → ℕ → ℕ
size_add a b = (a + b) % size_mod

unfoldable pub size_mul : ℕ → ℕ → ℕ
size_mul a b = a * b % size_mod

-- The flags of an object that restrict the host (CL/cl.h).
abbrev pub host_write_only : ℕ
host_write_only = 128

abbrev pub host_read_only : ℕ
host_read_only = 256

abbrev pub host_no_access : ℕ
host_no_access = 512

-- Two objects are one if their numbers are equal. A sub-buffer has a parent.
pub record Buffer : Type 0 where
  pub id : ℕ
  pub parent : Option ℕ
  pub origin : ℕ
  pub size : ℕ
  pub flags : ℕ
  pub context : ℕ

pub data ImageType : Type 0 where
  image1d image1d_array image1d_buffer image2d image2d_array image3d : ImageType

-- An image of type image1d_buffer is made over a buffer.
pub record Image : Type 0 where
  pub id : ℕ
  pub ty : ImageType
  pub width : ℕ
  pub height : ℕ
  pub depth : ℕ
  pub array_size : ℕ
  pub row_pitch : ℕ
  pub slice_pitch : ℕ
  pub element_size : ℕ
  pub channel_order : ℕ
  pub channel_data_type : ℕ
  pub buf : Option Buffer
  pub flags : ℕ
  pub context : ℕ

pub data MemObject : Type 0 where
  buffer : Buffer → MemObject
  image : Image → MemObject

pub record Event : Type 0 where
  pub context : ℕ
  pub is_error : Bool

pub record Device : Type 0 where
  pub base_address_alignment : ℕ
  pub image_max_array_size : ℕ
  pub image2d_max_width : ℕ
  pub image2d_max_height : ℕ
  pub image_max_buffer_size : ℕ
  pub image3d_max_width : ℕ
  pub image3d_max_height : ℕ
  pub image3d_max_depth : ℕ
  pub supports_format : ℕ → ℕ → Bool

pub record Queue : Type 0 where
  pub context : ℕ
  pub device : Device

pub record Builder : Type 0 where
  pub context : ℕ
  pub wait_list : List Event
  pub err_code : ErrorCode

unfoldable pub new_builder : Queue → Builder
new_builder q = record { context = q.context; wait_list = []; err_code = success }

unfoldable pub notify_error : ErrorCode → Builder → Builder
notify_error e b = record b { err_code = e }

-- `N` events from the array from position `i` on; a null event ends the loop.
unfoldable pub push_events : (ℕ → Option Event) → ℕ → ℕ → Builder → Builder
unfolding notify_error
push_events evs zero i b = b
push_events evs (suc n) i b = elim (evs i) [
  | none ↦ notify_error invalid_event_wait_list b
  | some e ↦ push_events evs n (suc i) (record b { wait_list = b.wait_list ++ e ∷ [] })
]

-- CommandBuilder::SetWaitList
unfoldable pub set_base_wait_list : ℕ → Option (ℕ → Option Event) → Builder → Builder
unfolding notify_error push_events
set_base_wait_list n none b = if n == 0 then b else notify_error invalid_event_wait_list b
set_base_wait_list n (some evs) b =
    if n == 0 then notify_error invalid_event_wait_list b else push_events evs n 0 b

unfoldable pub has_error : List Event → Bool
has_error [] = false
has_error (e ∷ es) = e.is_error || has_error es

unfoldable pub is_wait_list_inconsistent : Builder → Bool
unfolding has_error
is_wait_list_inconsistent b = has_error b.wait_list

-- The last loop of each `SetWaitList`.
unfoldable pub has_foreign : ℕ → List Event → Bool
has_foreign ctx [] = false
has_foreign ctx (e ∷ es) = not (ctx == e.context) || has_foreign ctx es

unfoldable pub check_contexts : Builder → Builder
unfolding has_foreign notify_error
check_contexts b = if has_foreign b.context b.wait_list then notify_error invalid_context b else b

-- `SetWaitList` of the builders without a blocking mode.
unfoldable pub set_checked_wait_list : ℕ → Option (ℕ → Option Event) → Builder → Builder
unfolding set_base_wait_list check_contexts
set_checked_wait_list n evs b = check_contexts (set_base_wait_list n evs b)

-- `SetWaitList` of the builders with a blocking mode.
unfoldable pub set_blocking_wait_list : Bool → ℕ → Option (ℕ → Option Event) → Builder → Builder
unfolding set_base_wait_list check_contexts is_wait_list_inconsistent notify_error
set_blocking_wait_list blocking n evs b =
    let b' = set_base_wait_list n evs b in
    if blocking && is_wait_list_inconsistent b'
    then notify_error exec_status_error b'
    else check_contexts b'

-- The result of `Create`: a command, NULL with the error, or a null pointer that is followed.
pub data Created {ℓ} (A : Type ℓ) : Type ℓ where
  created : A → Created A
  failed : ErrorCode → Created A
  null_dereference : Created A

unfoldable pub deref {ℓ κ} : {A : Type ℓ} {B : Type κ} → Option A → (A → Created B) → Created B
deref none f = null_dereference
deref (some a) f = f a

-- The first lines of each `Create`.
unfoldable pub unless_failed {ℓ} : {A : Type ℓ} → Builder → Created A → Created A
unfolding is_success
unless_failed b c = if is_success b.err_code then c else failed b.err_code

unfoldable pub is_sub_buffer : Buffer → Bool
is_sub_buffer s = elim s.parent [ none ↦ false | some p ↦ true ]

-- The checks that the constructors share. `denied` tells whether the flags of the object forbid
-- the operation to the host.
unfoldable pub check_access : (ℕ → Bool) → Queue → Buffer → Builder → Builder
unfolding is_sub_buffer notify_error
check_access denied q s b =
    let align = q.device.base_address_alignment in
    if is_sub_buffer s
    then (if not (align == 0) && not (s.origin % align == 0)
        then notify_error misaligned_sub_buffer_offset b
        else b)
    else if denied s.flags
    then notify_error invalid_operation b
    else if not (q.context == s.context)
    then notify_error invalid_context b
    else b

unfoldable pub check_buffer :
    (ℕ → Bool) → Queue → Option MemObject → Builder → Option Buffer × Builder
unfolding check_access notify_error
check_buffer denied q none b = (none, notify_error invalid_mem_object b)
check_buffer denied q (some (image i)) b = (none, notify_error invalid_mem_object b)
check_buffer denied q (some (buffer s)) b = (some s, check_access denied q s b)

-- A pointer of the host that must not be null.
unfoldable pub check_pointer : Option ℕ → Builder → Builder
unfolding notify_error
check_pointer none b = notify_error invalid_value b
check_pointer (some p) b = b

abbrev pub no_host_read : ℕ → Bool
no_host_read flags = has flags host_write_only || has flags host_no_access

abbrev pub no_host_write : ℕ → Bool
no_host_write flags = has flags host_read_only || has flags host_no_access

abbrev pub unrestricted : ℕ → Bool
unrestricted flags = false
