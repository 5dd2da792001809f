-- ===== src/Builder/CopyBuffer.antt =====
-- EnqueueCopyBufferBuilder and its command (lib/Core/Command.cpp), with the chain of calls in
-- clEnqueueCopyBuffer (tools/libOpenCRun/EnqueueCommand.cpp).
pub mod Accepted
use open_crun.Prelude.{
  ℕ, ◌-◌, max, min, Bool, true, false, ◌&&◌, not, List, Option, none, some, if◌then◌else◌, ◌==◌,
  ltb,
}
use open_crun.Builder.{
  Builder, Buffer, Queue, MemObject, Event, Created, created, new_builder, notify_error,
  check_buffer, unrestricted, set_checked_wait_list, invalid_value, mem_copy_overlap, size_add,
  deref, unless_failed, is_sub_buffer,
}

pub record CopyBuffer : Type 0 where
  pub base : Builder
  pub target : Option Buffer
  pub source : Option Buffer
  pub target_offset : ℕ
  pub source_offset : ℕ
  pub size : ℕ

pub record Command : Type 0 where
  pub target : Buffer
  pub source : Buffer
  pub target_offset : ℕ
  pub source_offset : ℕ
  pub size : ℕ
  pub wait_list : List Event

unfoldable pub new : Queue → Option MemObject → Option MemObject → CopyBuffer
unfolding new_builder check_buffer
new q target source =
    let (t, b) = check_buffer unrestricted q target (new_builder q) in
    let (s, b') = check_buffer unrestricted q source b in
    record { base = b'; target = t; source = s; target_offset = 0; source_offset = 0; size = 0 }

-- `Target->getParent() == Source->getParent()`
unfoldable pub same_parent : Buffer → Buffer → Bool
same_parent t s = elim t.parent [
  | none ↦ elim s.parent [ none ↦ true | some p ↦ false ]
  | some p ↦ elim s.parent [ none ↦ false | some p' ↦ p == p' ]
]

unfoldable pub are_close : ℕ → ℕ → ℕ → Bool
are_close a b size = ltb (max a b - min a b) size

-- The checks of `SetCopyArea` on two buffers.
unfoldable pub check_area : Buffer → Buffer → ℕ → ℕ → ℕ → CopyBuffer → CopyBuffer
unfolding notify_error size_add same_parent is_sub_buffer are_close
check_area t s target_offset source_offset size r =
    if ltb t.size (size_add target_offset size)
    then record r { base = notify_error invalid_value r.base }
    else if ltb s.size (size_add source_offset size)
    then record r { base = notify_error invalid_value r.base }
    else if t.id == s.id && are_close source_offset target_offset size
    then record r { base = notify_error mem_copy_overlap r.base }
    else if not (t.id == s.id)
        && (is_sub_buffer t && is_sub_buffer s)
        && same_parent t s
        && are_close source_offset target_offset size
    then record r { base = notify_error mem_copy_overlap r.base }
    else record r { target_offset = target_offset; source_offset = source_offset; size = size }

unfoldable pub set_copy_area : ℕ → ℕ → ℕ → CopyBuffer → CopyBuffer
unfolding check_area
set_copy_area target_offset source_offset size r = elim r.target [
  | none ↦ r
  | some t ↦ elim r.source [ none ↦ r | some s ↦ check_area t s target_offset source_offset size r ]
]

unfoldable pub set_wait_list : ℕ → Option (ℕ → Option Event) → CopyBuffer → CopyBuffer
unfolding set_checked_wait_list
set_wait_list n evs r = record r { base = set_checked_wait_list n evs r.base }

unfoldable pub create : CopyBuffer → Created Command
unfolding deref unless_failed
create r = unless_failed r.base (
    deref r.target λ t. deref r.source λ s. created (record {
      target = t;
      source = s;
      target_offset = r.target_offset;
      source_offset = r.source_offset;
      size = r.size;
      wait_list = r.base.wait_list;
    }))

unfoldable pub build :
    Queue
    → Option MemObject
    → Option MemObject
    → ℕ
    → ℕ
    → ℕ
    → ℕ
    → Option (ℕ → Option Event)
    → Created Command
unfolding new set_copy_area set_wait_list create
build q target source target_offset source_offset size n evs =
    create
      (set_wait_list n evs (set_copy_area target_offset source_offset size (new q target source)))
