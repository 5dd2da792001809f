-- ===== src/Objects/Regions.antt =====
-- The methods of MemoryObjectBuilder for sub-buffers (lib/Core/MemoryObject.cpp), and clCreateSubBuffer
-- (tools/libOpenCRun/MemoryObject.cpp).
use open_crun.Prelude.{
  ℕ, ◌+◌, not, List, Option, none, some, if◌then◌else◌, ◌==◌, ltb, bit_and, ◌⊎◌, inl, inr,
}
use open_crun.Builder.{
  ErrorCode, invalid_value, invalid_mem_object, invalid_buffer_size, size_add, is_sub_buffer,
}
use open_crun.Objects.{
  Outcome, ◌>>=◌, ◌>>◌, assert, read_write, write_only, read_only, use_host_ptr, alloc_host_ptr,
  copy_host_ptr, host_write_only, host_read_only, host_no_access, access_mask, host_ptr_mask,
  all_flags, Parent, is_sub_buffer_kind, ObjectBuilder, new, error, bit, done, null_context,
  k_buffer,
}
use open_crun.Objects.Making.{Object, Answer, create}

abbrev pub create_type_region : ℕ
create_type_region = 0x1220

pub record BufferRegion : Type 0 where
  pub origin : ℕ
  pub size : ℕ

-- The object that a caller names.
pub data Handle : Type 0 where
  a_buffer : Parent → Handle
  an_image : Handle

unfoldable pub check_region :
    Parent → ℕ → Option BufferRegion → ObjectBuilder → Outcome ObjectBuilder
unfolding error size_add
check_region p ty none b = error invalid_value b
check_region p ty (some r) b =
    if not (ty == create_type_region)
    then error invalid_value b
    else if r.size == 0
    then error invalid_buffer_size b
    else if ltb p.buffer.size (size_add r.origin r.size)
    then error invalid_value b
    else done b

unfoldable pub set_sub_buffer_params :
    Option Handle → ℕ → Option BufferRegion → ObjectBuilder → Outcome ObjectBuilder
unfolding error check_region is_sub_buffer
set_sub_buffer_params none ty info b = error invalid_mem_object b
set_sub_buffer_params (some an_image) ty info b = error invalid_mem_object b
set_sub_buffer_params (some (a_buffer p)) ty info b =
    if is_sub_buffer p.buffer
    then error invalid_mem_object b
    else check_region p ty info (record b { parent = some p; context = some p.context })

-- setSubBufferFlags for flags that are not zero, with the flags of the parent.
unfoldable pub sub_buffer_flags : ℕ → ℕ → ErrorCode ⊎ ℕ
sub_buffer_flags flags own =
    let access = bit flags read_only + bit flags write_only + bit flags read_write in
    let flags' = if access == 0 then bit_and own access_mask else flags in
    if ltb 1 access
    then inl invalid_value
    else if ltb 0
        (bit flags' host_read_only + bit flags' host_write_only + bit flags' host_no_access)
    then inl invalid_value
    else if not
        (bit flags' use_host_ptr + bit flags' alloc_host_ptr + bit flags' copy_host_ptr == 0)
    then inl invalid_value
    else inr (bit_and own host_ptr_mask)

-- A parent that is not set is followed as a null pointer.
unfoldable pub set_sub_buffer_flags : ℕ → ObjectBuilder → Outcome ObjectBuilder
unfolding sub_buffer_flags error
set_sub_buffer_flags flags b =
    assert (is_sub_buffer_kind b.kind)
    >> (if not (bit_and flags all_flags == flags) then error invalid_value b else elim b.parent [
      | none ↦ null_context
      | some p ↦
          if flags == 0
          then done (record b { flags = p.buffer.flags })
          else elim (sub_buffer_flags flags p.buffer.flags) [
            | inl e ↦ error e b
            | inr kept ↦ done (record b { flags = kept })
          ]
    ])

-- clCreateSubBuffer
unfoldable pub create_sub_buffer :
    Option Handle → ℕ → ℕ → Option BufferRegion → List Answer → Outcome (Option Object × ErrorCode)
unfolding new
create_sub_buffer buf flags ty info answers = do
  b ← set_sub_buffer_params buf ty info (new k_buffer)
  b' ← set_sub_buffer_flags flags b
  create answers b'
