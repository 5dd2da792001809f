-- ===== src/Builder/CopyImageToBuffer.antt =====
-- EnqueueCopyImageToBufferBuilder and its command (lib/Core/Command.cpp), with the chain of calls in
-- clEnqueueCopyImageToBuffer (tools/libOpenCRun/EnqueueCommand.cpp).
pub mod Accepted
use open_crun.Prelude.{ℕ, List, Option}
use open_crun.Builder.{
  Buffer, Image, Queue, MemObject, Event, Created, created, size_mul, deref, unless_failed,
}
use open_crun.Builder.ImageChecks.{Triple, offset_in}
use open_crun.Builder.ImageBuffers.{Copying, start, place, wait}

-- The width of the region is in bytes.
pub record Command : Type 0 where
  pub target : Buffer
  pub source : Image
  pub target_offset : ℕ
  pub source_origin : Triple
  pub region : Triple
  pub source_offset : ℕ
  pub wait_list : List Event

unfoldable pub new : Queue → Option MemObject → Option MemObject → Copying
unfolding start
new q target source = start q target source

unfoldable pub set_copy_area : ℕ → Option Triple → Option Triple → Copying → Copying
unfolding place
set_copy_area target_offset source_origin region r = place target_offset source_origin region r

unfoldable pub set_wait_list : ℕ → Option (ℕ → Option Event) → Copying → Copying
unfolding wait
set_wait_list n evs r = wait n evs r

-- EnqueueCopyImageToBuffer
unfoldable pub command : Copying → Buffer → Image → Triple → Triple → Command
unfolding size_mul offset_in
command r t s o g = record {
  target = t;
  source = s;
  target_offset = r.offset;
  source_origin = o;
  region = record { x = size_mul g.x s.element_size; y = g.y; z = g.z };
  source_offset = offset_in s o;
  wait_list = r.base.wait_list;
}

unfoldable pub create : Copying → Created Command
unfolding deref unless_failed command
create r = unless_failed r.base (
    deref r.buf
      λ t. deref r.img λ s. deref r.origin λ o. deref r.region λ g. created (command r t s o g))

unfoldable pub build :
    Queue
    → Option MemObject
    → Option MemObject
    → ℕ
    → Option Triple
    → Option Triple
    → ℕ
    → Option (ℕ → Option Event)
    → Created Command
unfolding new set_copy_area set_wait_list create
build q target source target_offset source_origin region n evs =
    create
      (set_wait_list n evs (set_copy_area target_offset source_origin region (new q target source)))
