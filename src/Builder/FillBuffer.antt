-- ===== src/Builder/FillBuffer.antt =====
-- EnqueueFillBufferBuilder and its command (lib/Core/Command.cpp), with the chain of calls in
-- clEnqueueFillBuffer (tools/libOpenCRun/EnqueueCommand.cpp).
pub mod Accepted
use open_crun.Prelude.{
  ℕ, ◌-◌, ◌%◌, Bool, true, false, ◌||◌, not, List, Option, none, some, if◌then◌else◌, ◌==◌, ltb,
  has,
}
use open_crun.Builder.{
  Builder, Buffer, Queue, MemObject, Event, Created, created, new_builder, notify_error,
  check_buffer, check_pointer, unrestricted, set_checked_wait_list, invalid_value, size_add, deref,
  unless_failed,
}

pub record FillBuffer : Type 0 where
  pub base : Builder
  pub target : Option Buffer
  pub source : Option ℕ
  pub source_size : ℕ
  pub target_offset : ℕ
  pub target_size : ℕ

pub record Command : Type 0 where
  pub target : Buffer
  pub source : Option ℕ
  pub source_size : ℕ
  pub target_offset : ℕ
  pub target_size : ℕ
  pub wait_list : List Event

unfoldable pub new : Queue → Option MemObject → Option ℕ → FillBuffer
unfolding new_builder check_buffer check_pointer
new q buf pattern_ptr =
    let (target, b) = check_buffer unrestricted q buf (new_builder q) in
    record {
      base = check_pointer pattern_ptr b;
      target = target;
      source = pattern_ptr;
      source_size = 0;
      target_offset = 0;
      target_size = 0;
    }

unfoldable pub set_pattern_size : ℕ → FillBuffer → FillBuffer
unfolding notify_error
set_pattern_size pattern_size r =
    if pattern_size == 0
    then record r { base = notify_error invalid_value r.base }
    else if has pattern_size (pattern_size - 1) || ltb 128 pattern_size
    then record r { base = notify_error invalid_value r.base }
    else record r { source_size = pattern_size }

unfoldable pub set_fill_region : ℕ → ℕ → FillBuffer → FillBuffer
unfolding notify_error size_add
set_fill_region offset size r = elim r.target [
  | none ↦ r
  | some t ↦
      if r.source_size == 0
      then r
      else if not (offset % r.source_size == 0)
      then record r { base = notify_error invalid_value r.base }
      else if not (size % r.source_size == 0)
      then record r { base = notify_error invalid_value r.base }
      else if ltb t.size (size_add offset size)
      then record r { base = notify_error invalid_value r.base }
      else record r { target_offset = offset; target_size = size }
]

unfoldable pub set_wait_list : ℕ → Option (ℕ → Option Event) → FillBuffer → FillBuffer
unfolding set_checked_wait_list
set_wait_list n evs r = record r { base = set_checked_wait_list n evs r.base }

unfoldable pub create : FillBuffer → Created Command
unfolding deref unless_failed
create r = unless_failed r.base (
    deref r.target λ t. created (record {
      target = t;
      source = r.source;
      source_size = r.source_size;
      target_offset = r.target_offset;
      target_size = r.target_size;
      wait_list = r.base.wait_list;
    }))

unfoldable pub build :
    Queue
    → Option MemObject
    → Option ℕ
    → ℕ
    → ℕ
    → ℕ
    → ℕ
    → Option (ℕ → Option Event)
    → Created Command
unfolding new set_pattern_size set_fill_region set_wait_list create
build q buf pattern_ptr pattern_size offset size n evs = create (
    set_wait_list n evs
      (set_fill_region offset size (set_pattern_size pattern_size (new q buf pattern_ptr))))
