-- ===== src/Builder/MapBuffer.antt =====
-- EnqueueMapBufferBuilder and its command (lib/Core/Command.cpp), with the chain of calls in
-- clEnqueueMapBuffer (tools/libOpenCRun/EnqueueCommand.cpp). The address of the mapping is what
-- acquireMappingAddrFor returns, and the second and third axes of the mapping hold any value, since
-- the source does not set them.
pub mod Leak
use open_crun.Prelude.{
  ℕ, Bool, true, false, ◌&&◌, ◌||◌, List, Option, none, some, if◌then◌else◌, ltb, has,
}
use open_crun.Builder.{
  Builder, Buffer, Queue, MemObject, Event, Created, created, new_builder, notify_error,
  check_buffer, unrestricted, no_host_read, no_host_write, is_wait_list_inconsistent,
  set_blocking_wait_list, exec_status_error, invalid_value, invalid_operation, map_failure,
  size_add, deref, unless_failed,
}
use open_crun.Mapping.{MemoryObject, own, sub_buffer, MemMappingInfo, Span, Tables, add_mapping}

-- The flags of a mapping (CL/cl.h).
abbrev pub map_read : ℕ
map_read = 1

abbrev pub map_write : ℕ
map_write = 2

abbrev pub map_write_invalidate_region : ℕ
map_write_invalidate_region = 4

pub record MapBuffer : Type 0 where
  pub base : Builder
  pub source : Option Buffer
  pub blocking : Bool
  pub map_flags : ℕ
  pub offset : ℕ
  pub size : ℕ
  pub map_buf : Option ℕ

pub record Command : Type 0 where
  pub source : Buffer
  pub blocking : Bool
  pub map_flags : ℕ
  pub offset : ℕ
  pub size : ℕ
  pub map_buf : Option ℕ
  pub wait_list : List Event

unfoldable pub new : Queue → Option MemObject → MapBuffer
unfolding new_builder check_buffer
new q buf =
    let (source, b) = check_buffer unrestricted q buf (new_builder q) in
    record {
      base = b;
      source = source;
      blocking = false;
      map_flags = 0;
      offset = 0;
      size = 0;
      map_buf = none;
    }

unfoldable pub set_blocking : Bool → MapBuffer → MapBuffer
unfolding is_wait_list_inconsistent notify_error
set_blocking blocking r =
    if blocking && is_wait_list_inconsistent r.base
    then record r { base = notify_error exec_status_error r.base }
    else record r { blocking = blocking }

unfoldable pub reject_value : MapBuffer → MapBuffer
unfolding notify_error
reject_value r = record r { base = notify_error invalid_value r.base }

unfoldable pub reject_operation : MapBuffer → MapBuffer
unfolding notify_error
reject_operation r = record r { base = notify_error invalid_operation r.base }

unfoldable pub check_flags : Buffer → ℕ → MapBuffer → MapBuffer
unfolding reject_value reject_operation
check_flags s flags r =
    if has flags map_read && has flags map_write_invalidate_region
    then reject_value r
    else if has flags map_read && no_host_read s.flags
    then reject_operation r
    else if has flags map_write && has flags map_write_invalidate_region
    then reject_value r
    else if has flags map_write && no_host_write s.flags
    then reject_operation r
    else if has flags map_write_invalidate_region && (has flags map_read || has flags map_write)
    then reject_value r
    else if has flags map_write_invalidate_region && no_host_write s.flags
    then reject_operation r
    else record r { map_flags = flags }

unfoldable pub set_map_flags : ℕ → MapBuffer → MapBuffer
unfolding check_flags
set_map_flags flags r = elim r.source [ none ↦ r | some s ↦ check_flags s flags r ]

unfoldable pub set_map_area : ℕ → ℕ → MapBuffer → MapBuffer
unfolding reject_value size_add
set_map_area offset size r = elim r.source [
  | none ↦ r
  | some s ↦
      if ltb s.size (size_add offset size)
      then reject_value r
      else record r { offset = offset; size = size }
]

-- The object whose table a buffer uses: a parent is no sub-buffer (setSubBufferParams).
unfoldable pub mapped_object : Buffer → MemoryObject
mapped_object s = elim s.parent [ none ↦ own s.id | some p ↦ sub_buffer s.id s.origin (own p) ]

unfoldable pub set_map_buffer : Option ℕ → Span → Span → MapBuffer → Tables → MapBuffer × Tables
unfolding mapped_object notify_error
set_map_buffer ptr y z r t = elim r.source [
  | none ↦ (r, t)
  | some s ↦
      let info : MemMappingInfo = record {
        x = record { offset = r.offset; size = r.size };
        y = y;
        z = z;
        flags = r.map_flags;
      } in
      let (t', ok) = add_mapping (mapped_object s) ptr info t in
      if ok
      then (record r { map_buf = ptr }, t')
      else (record r { base = notify_error map_failure r.base }, t')
]

unfoldable pub set_wait_list : ℕ → Option (ℕ → Option Event) → MapBuffer → MapBuffer
unfolding set_blocking_wait_list
set_wait_list n evs r = record r { base = set_blocking_wait_list r.blocking n evs r.base }

unfoldable pub create : MapBuffer → Created Command
unfolding deref unless_failed
create r = unless_failed r.base (
    deref r.source λ s. created (record {
      source = s;
      blocking = r.blocking;
      map_flags = r.map_flags;
      offset = r.offset;
      size = r.size;
      map_buf = r.map_buf;
      wait_list = r.base.wait_list;
    }))

-- The chain of calls of clEnqueueMapBuffer, with the tables of mappings that it leaves.
unfoldable pub build :
    Queue
    → Option MemObject
    → Option ℕ
    → Span
    → Span
    → Bool
    → ℕ
    → ℕ
    → ℕ
    → ℕ
    → Option (ℕ → Option Event)
    → Tables
    → Created Command × Tables
unfolding new set_blocking set_map_flags set_map_area set_map_buffer set_wait_list create
build q buf ptr y z blocking flags offset size n evs t =
    let (r, t') =
      set_map_buffer ptr y z
        (set_map_area offset size (set_map_flags flags (set_blocking blocking (new q buf)))) t in
    (create (set_wait_list n evs r), t')
