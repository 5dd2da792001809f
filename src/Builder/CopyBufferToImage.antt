-- ===== src/Builder/CopyBufferToImage.antt =====
-- EnqueueCopyBufferToImageBuilder and its command (lib/Core/Command.cpp), with the chain of calls in
-- clEnqueueCopyBufferToImage (tools/libOpenCRun/EnqueueCommand.cpp).
pub mod Accepted
use open_crun.Prelude.{ℕ, List, Option}
use open_crun.Builder.{
  Buffer, Image, Queue, MemObject, Event, Created, created, size_mul, deref, unless_failed,
}
use open_crun.Builder.ImageChecks.{Triple, offset_in}
use open_crun.Builder.ImageBuffers.{Copying, start, place, wait}

-- The width of the region is in bytes.
pub record Command : Type 0 where
  pub target : Image
  pub source : Buffer
  pub target_origin : Triple
  pub region : Triple
  pub target_offset : ℕ
  pub source_offset : ℕ
  pub wait_list : List Event

unfoldable pub new : Queue → Option MemObject → Option MemObject → Copying
unfolding start
new q target source = start q source target

unfoldable pub set_copy_area : Option Triple → Option Triple → ℕ → Copying → Copying
unfolding place
set_copy_area target_origin region source_offset r = place source_offset target_origin region r

unfoldable pub set_wait_list : ℕ → Option (ℕ → Option Event) → Copying → Copying
unfolding wait
set_wait_list n evs r = wait n evs r

-- EnqueueCopyBufferToImage
unfoldable pub command : Copying → Image → Buffer → Triple → Triple → Command
unfolding size_mul offset_in
command r t s o g = record {
  target = t;
  source = s;
  target_origin = o;
  region = record { x = size_mul g.x t.element_size; y = g.y; z = g.z };
  target_offset = offset_in t o;
  source_offset = r.offset;
  wait_list = r.base.wait_list;
}

unfoldable pub create : Copying → Created Command
unfolding deref unless_failed command
create r = unless_failed r.base (
    deref r.img
      λ t. deref r.buf λ s. deref r.origin λ o. deref r.region λ g. created (command r t s o g))

unfoldable pub build :
    Queue
    → Option MemObject
    → Option MemObject
    → Option Triple
    → Option Triple
    → ℕ
    → ℕ
    → Option (ℕ → Option Event)
    → Created Command
unfolding new set_copy_area set_wait_list create
build q target source target_origin region source_offset n evs =
    create
      (set_wait_list n evs (set_copy_area target_origin region source_offset (new q target source)))
