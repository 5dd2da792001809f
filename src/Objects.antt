-- ===== src/Objects.antt =====
-- MemoryObjectBuilder (lib/Core/MemoryObject.cpp): its state, its errors, and the flags of buffers and
-- images. The members of the union of the builder are separate fields: what is written through one is read
-- through another only behind an assertion.
pub mod Making
pub mod Regions
pub mod Formats
pub mod Images
pub mod ValidFlags
pub mod Buffers
pub mod SubBuffers
pub mod ImageLimits
use open_crun.Prelude.{
  ℕ, zero, suc, ◌+◌, Bool, true, false, not, ◌&&◌, ◌||◌, List, [], ◌∷◌, Option, none, some,
  if◌then◌else◌, ◌==◌, ltb, has, bit_and, bit_or, ◌⊎◌, inl, inr,
}
use mathlib.Core.Option
use open_crun.Builder.{
  Buffer, Device, MemObject, buffer, image, ImageType, image1d_buffer, ErrorCode, success,
  is_success, invalid_value, invalid_mem_object, invalid_context, invalid_buffer_size,
  invalid_host_ptr, out_of_host_memory, size_add, is_sub_buffer,
}

-- `error` reports to the context, which may be null. A failed assertion ends the call.
pub data Outcome {ℓ} (A : Type ℓ) : Type ℓ where
  done : A → Outcome A
  null_context assertion_failed : Outcome A

infixl 5 ◌>>=◌ ◌>>◌
abbrev pub ◌>>=◌ {ℓ κ} : {A : Type ℓ} {B : Type κ} → Outcome A → (A → Outcome B) → Outcome B
done a >>= f = f a
null_context >>= f = null_context
assertion_failed >>= f = assertion_failed

abbrev pub ◌>>◌ {ℓ} : {B : Type ℓ} → Outcome (Unit {0}) → Outcome B → Outcome B
m >> k = m >>= λ _. k

abbrev pub assert : Bool → Outcome (Unit {0})
assert true = done tt
assert false = assertion_failed

-- The flags of memory objects (CL/cl.h).
abbrev pub read_write : ℕ
read_write = 1

abbrev pub write_only : ℕ
write_only = 2

abbrev pub read_only : ℕ
read_only = 4

abbrev pub use_host_ptr : ℕ
use_host_ptr = 8

abbrev pub alloc_host_ptr : ℕ
alloc_host_ptr = 16

abbrev pub copy_host_ptr : ℕ
copy_host_ptr = 32

abbrev pub host_write_only : ℕ
host_write_only = 128

abbrev pub host_read_only : ℕ
host_read_only = 256

abbrev pub host_no_access : ℕ
host_no_access = 512

abbrev pub access_mask : ℕ
access_mask = 7

abbrev pub host_ptr_mask : ℕ
host_ptr_mask = 56

abbrev pub host_access_mask : ℕ
host_access_mask = 896

abbrev pub all_flags : ℕ
all_flags = 959

pub record Context : Type 0 where
  pub id : ℕ
  pub devices : List Device

-- A buffer that may become a parent, with its host pointer.
pub record Parent : Type 0 where
  pub buffer : Buffer
  pub host_ptr : Option ℕ
  pub context : Context

pub data Kind : Type 0 where
  k_buffer k_sub_buffer k_image : Kind

abbrev pub is_sub_buffer_kind : Kind → Bool
is_sub_buffer_kind k_sub_buffer = true
is_sub_buffer_kind _ = false

abbrev pub is_image_kind : Kind → Bool
is_image_kind k_image = true
is_image_kind _ = false

-- The fields of an image; a type that is not set is none.
pub record ImageFields : Type 0 where
  pub ty : Option ImageType
  pub channel_order : ℕ
  pub channel_data_type : ℕ
  pub width : ℕ
  pub height : ℕ
  pub depth : ℕ
  pub array_size : ℕ
  pub row_pitch : ℕ
  pub slice_pitch : ℕ
  pub buf : Option Buffer
  pub size : ℕ

pub record ObjectBuilder : Type 0 where
  pub kind : Kind
  pub context : Option Context
  pub flags : ℕ
  pub host_ptr : Option ℕ
  pub size : ℕ
  pub parent : Option Parent
  pub origin : ℕ
  pub sub_size : ℕ
  pub img : ImageFields
  pub err : ErrorCode

abbrev pub no_image : ImageFields
no_image = record {
  ty = none;
  channel_order = 0;
  channel_data_type = 0;
  width = 0;
  height = 0;
  depth = 0;
  array_size = 0;
  row_pitch = 0;
  slice_pitch = 0;
  buf = none;
  size = 0;
}

unfoldable pub new : Kind → ObjectBuilder
new k = record {
  kind = k;
  context = none;
  flags = 0;
  host_ptr = none;
  size = 0;
  parent = none;
  origin = 0;
  sub_size = 0;
  img = no_image;
  err = success;
}

unfoldable pub error : ErrorCode → ObjectBuilder → Outcome ObjectBuilder
error e b = elim b.context [ none ↦ null_context | some c ↦ done (record b { err = e }) ]

unfoldable pub set_context : Option Context → ObjectBuilder → Outcome ObjectBuilder
unfolding error
set_context none b = error invalid_context b
set_context (some c) b = done (record b { context = some c })

unfoldable pub set_buffer_size : ℕ → ObjectBuilder → Outcome ObjectBuilder
unfolding error
set_buffer_size size b =
    if size == 0 then error invalid_buffer_size b else done (record b { size = size })

abbrev pub is_null {ℓ} : {A : Type ℓ} → Option A → Bool
is_null none = true
is_null (some p) = false

abbrev pub bit : ℕ → ℕ → ℕ
bit flags mask = if has flags mask then 1 else 0

-- The checks of flags that are not zero: of the access, of that of the host, and of the storage.
unfoldable pub check_given_flags : ℕ → Option ℕ → Option ErrorCode
check_given_flags flags ptr =
    if ltb 1 (bit flags read_only + bit flags write_only + bit flags read_write)
    then some invalid_value
    else if ltb 1 (bit flags host_read_only + bit flags host_write_only + bit flags host_no_access)
    then some invalid_value
    else if (has flags use_host_ptr || has flags copy_host_ptr) && is_null ptr
    then some invalid_host_ptr
    else if ltb 1 (bit flags use_host_ptr + bit flags alloc_host_ptr)
        || ltb 1 (bit flags use_host_ptr + bit flags copy_host_ptr)
    then some invalid_value
    else none

-- The additional checks of an image over a buffer with the flags `own`.
unfoldable pub check_buffer_flags : ℕ → ℕ → Option ErrorCode
check_buffer_flags flags own =
    if (has flags (bit_or read_only read_write) && has own write_only)
      || (has flags (bit_or write_only read_write) && has own read_only)
    then some invalid_value
    else if (has flags host_read_only && has own host_write_only)
        || (has flags host_write_only && has own host_read_only)
        || (has flags host_no_access && has own (bit_or host_write_only host_read_only))
    then some invalid_value
    else if has flags host_ptr_mask
    then some invalid_value
    else none

-- What an image over a buffer inherits.
unfoldable pub inherit : ℕ → ℕ → ℕ
inherit flags own =
    let with_storage = bit_or flags (bit_and own host_ptr_mask) in
    let with_access =
      if has with_storage access_mask
      then with_storage
      else bit_or with_storage (bit_and own access_mask) in
    if has with_access host_access_mask
    then with_access
    else bit_or with_access (bit_and own host_access_mask)

-- The last part of setGenericFlags.
unfoldable pub store_flags : ℕ → Option ℕ → ObjectBuilder → ObjectBuilder
store_flags flags ptr b = record b { flags = flags; host_ptr = ptr }

-- The buffer of an image whose type is Image1D_Buffer.
unfoldable pub buffer_below : ObjectBuilder → Option Buffer
buffer_below b =
    if is_image_kind b.kind
    then elim b.img.ty [ some image1d_buffer ↦ b.img.buf | _ ↦ none ]
    else none

unfoldable pub finish_flags : ℕ → Option ℕ → ObjectBuilder → Outcome ObjectBuilder
unfolding error
finish_flags flags ptr b = elim (buffer_below b) [
  | none ↦ done (store_flags flags ptr b)
  | some s ↦ elim (check_buffer_flags flags s.flags) [
    | some e ↦ error e b
    | none ↦ done (store_flags (inherit flags s.flags) ptr b)
  ]
]

unfoldable pub set_generic_flags : ℕ → Option ℕ → ObjectBuilder → Outcome ObjectBuilder
unfolding error
set_generic_flags flags ptr b =
    assert (not (is_sub_buffer_kind b.kind))
    >> (if not (bit_and flags all_flags == flags)
        then error invalid_value b
        else if flags == 0
        then finish_flags read_write ptr b
        else elim (check_given_flags flags ptr) [
          | some e ↦ error e b
          | none ↦ finish_flags flags ptr b
        ])
