-- ===== src/Queue/Sync.antt =====
-- CommandQueue::ensureMemoryCoherency (lib/Core/CommandQueue.cpp): what a command asks of the
-- coherency trackers of its objects before it is submitted.
pub mod MapWrite
use open_crun.Prelude.{
  ℕ, Bool, true, false, ◌||◌, List, [], ◌∷◌, Option, none, some, if◌then◌else◌, has,
}
use open_crun.Coherency.Transfer.{Mode}

-- The access flags of an object, and the flags of a mapping (CL/cl.h).
abbrev pub read_write_flag : ℕ
read_write_flag = 1

abbrev pub write_only_flag : ℕ
write_only_flag = 2

abbrev pub read_only_flag : ℕ
read_only_flag = 4

abbrev pub map_read : ℕ
map_read = 1

abbrev pub map_write : ℕ
map_write = 2

abbrev pub map_write_invalidate_region : ℕ
map_write_invalidate_region = 4

-- A memory object by its number, with its flags.
pub record Object : Type 0 where
  pub id : ℕ
  pub flags : ℕ

pub data KernelArg : Type 0 where
  buffer_arg image_arg : Option Object → KernelArg
  other_arg : KernelArg

-- The command types, with the objects that they name.
pub data Work : Type 0 where
  read_buffer write_buffer read_image write_image read_buffer_rect write_buffer_rect fill_buffer
        fill_image unmap_mem_object :
      Object → Work
  copy_buffer copy_image copy_image_to_buffer copy_buffer_to_image copy_buffer_rect :
      Object → Object → Work
  map_buffer map_image : Object → ℕ → Work
  nd_range_kernel : List KernelArg → Work
  native_kernel : List Object → Work
  marker barrier : Work

-- A call of `synchronizeFor`.
pub record Request : Type 0 where
  pub object : Object
  pub mode : Mode

abbrev pub mode : Bool → Bool → Bool → Mode
mode m r w = record { sync_map = m; sync_read = r; sync_write = w }

unfoldable pub mode_of_flags : ℕ → Mode
mode_of_flags flags =
    if has flags read_write_flag
    then mode false true true
    else if has flags read_only_flag
    then mode false true false
    else if has flags write_only_flag
    then mode false false true
    else mode false false false

unfoldable pub mode_of_map : ℕ → Mode
mode_of_map flags =
    mode true (has flags map_read) (has flags map_write || has flags map_write_invalidate_region)

unfoldable pub arg_object : KernelArg → Option Object
arg_object (buffer_arg o) = o
arg_object (image_arg o) = o
arg_object other_arg = none

abbrev pub by_flags : Object → Request
by_flags o = record { object = o; mode = mode_of_flags o.flags }

unfoldable pub sync_args : List KernelArg → List Request
unfolding arg_object mode_of_flags
sync_args [] = []
sync_args (a ∷ rest) = elim (arg_object a) [
  | none ↦ sync_args rest
  | some o ↦ by_flags o ∷ sync_args rest
]

unfoldable pub sync_locations : List Object → List Request
unfolding mode_of_flags
sync_locations [] = []
sync_locations (o ∷ rest) = by_flags o ∷ sync_locations rest

abbrev pub to_read : Object → Request
to_read o = record { object = o; mode = mode false true false }

abbrev pub to_write : Object → Request
to_write o = record { object = o; mode = mode false true true }

-- The source of a copy comes after its target among the arguments.
unfoldable pub ensure_memory_coherency : Work → List Request
unfolding sync_args sync_locations mode_of_map
ensure_memory_coherency (read_buffer s) = to_read s ∷ []
ensure_memory_coherency (write_buffer t) = to_write t ∷ []
ensure_memory_coherency (copy_buffer t s) = to_read s ∷ to_write t ∷ []
ensure_memory_coherency (read_image s) = to_read s ∷ []
ensure_memory_coherency (write_image t) = to_write t ∷ []
ensure_memory_coherency (copy_image t s) = to_read s ∷ to_write t ∷ []
ensure_memory_coherency (copy_image_to_buffer t s) = to_read s ∷ to_write t ∷ []
ensure_memory_coherency (copy_buffer_to_image t s) = to_read s ∷ to_write t ∷ []
ensure_memory_coherency (map_buffer s flags) = record { object = s; mode = mode_of_map flags } ∷ []
ensure_memory_coherency (map_image s flags) = record { object = s; mode = mode_of_map flags } ∷ []
ensure_memory_coherency (unmap_mem_object o) = to_read o ∷ []
ensure_memory_coherency (read_buffer_rect s) = to_read s ∷ []
ensure_memory_coherency (write_buffer_rect t) = to_write t ∷ []
ensure_memory_coherency (copy_buffer_rect t s) = to_read s ∷ to_write t ∷ []
ensure_memory_coherency (fill_buffer t) = to_write t ∷ []
ensure_memory_coherency (fill_image t) = to_write t ∷ []
ensure_memory_coherency (nd_range_kernel args) = sync_args args
ensure_memory_coherency (native_kernel locs) = sync_locations locs
ensure_memory_coherency marker = []
ensure_memory_coherency barrier = []
