-- ===== src/Builder/CopyImageToBuffer/Accepted.antt =====
-- When clEnqueueCopyImageToBuffer gets a command, and which one (lib/Core/Command.cpp).
use open_crun.Prelude.{ℕ, ◌≡◌, ◌↔◌, refl, ap, subst, sym, ◌∙◌, List, Option}
use open_crun.Builder.{
  Buffer, Image, Queue, MemObject, Event, created, new_builder, is_success, deref, unless_failed,
  size_mul,
}
use open_crun.Builder.Errors.{unless_failed-created, created-injective}
use open_crun.Builder.ImageChecks.{Triple, offset_in}
use open_crun.Builder.ImageBuffers.{start, place, wait}
use open_crun.Builder.ImageBuffers.Accepted.{Agrees, finished, chain-finished}
use open_crun.Builder.ImageBuffers.Valid.{Agrees-finished}
use open_crun.Builder.CopyImageToBuffer.{
  Command, new, set_copy_area, set_wait_list, command, create, build,
}

module _ (q : Queue) (target source : Option MemObject) (offset : ℕ) (origin region : Option Triple)
    (n : ℕ) (evs : Option (ℕ → Option Event)) where
  -- The command that a valid call asks for.
  pub record IsCopyOf (c : Command) : Type 0 where
    pub given_region : Triple
    pub agrees :
        Agrees q target source offset origin region n evs c.target c.source c.source_origin
          given_region c.wait_list
    pub same_offset : c.target_offset ≡ offset
    pub width : c.region.x ≡ size_mul given_region.x c.source.element_size
    pub height : c.region.y ≡ given_region.y
    pub depth : c.region.z ≡ given_region.z
    pub at : c.source_offset ≡ offset_in c.source c.source_origin

  create-finished :
      (s : Buffer) (i : Image) (o g : Triple) (l : List Event)
      → create (finished q s i offset o g l)
        ≡ created (command (finished q s i offset o g l) s i o g)
  unfolding create unless_failed deref new_builder is_success
  create-finished s i o g l = refl

  command-IsCopyOf :
      (s : Buffer) (i : Image) (o g : Triple) (l : List Event)
      → Agrees q target source offset origin region n evs s i o g l
      → IsCopyOf (command (finished q s i offset o g l) s i o g)
  unfolding command
  command-IsCopyOf s i o g l v = record {
    given_region = g;
    agrees = v;
    same_offset = refl;
    width = refl;
    height = refl;
    depth = refl;
    at = refl;
  }

  build-IsCopyOf :
      (c : Command) → build q target source offset origin region n evs ≡ created c → IsCopyOf c
  unfolding build new set_copy_area set_wait_list create
  build-IsCopyOf c h =
      let r = wait n evs (place offset origin region (start q target source)) in
      let (ok, _) = unless_failed-created r.base _ h in
      let (s, i, o, g, l, v, eq) = chain-finished q target source offset origin region n evs ok in
      let made = created-injective (sym (create-finished s i o g l) ∙ sym (ap create eq) ∙ h) in
      subst IsCopyOf made (command-IsCopyOf s i o g l v)

  same_command :
      (c : Command) (v : IsCopyOf c)
      → command
          (finished q c.target c.source offset c.source_origin v.given_region c.wait_list)
          c.target
          c.source
          c.source_origin
          v.given_region
        ≡ c
  unfolding command
  same_command c v = cc (v.same_offset, v.width, v.height, v.depth, v.at)

  IsCopyOf-build :
      (c : Command) → IsCopyOf c → build q target source offset origin region n evs ≡ created c
  unfolding build new set_copy_area set_wait_list
  IsCopyOf-build c v =
      ap create (
        Agrees-finished q target source offset origin region n evs c.target c.source c.source_origin
          v.given_region c.wait_list v.agrees)
      ∙ create-finished c.target c.source c.source_origin v.given_region c.wait_list
      ∙ ap created (same_command c v)

  -- The chain of calls of clEnqueueCopyImageToBuffer yields a command exactly when the call is
  -- valid and the command is the one that the call asks for: the queue may use the buffer, and the
  -- image, which its device supports and which is not made over the buffer; the region is not empty
  -- and valid for the image by IsValidImgRegion; the sum of the offset and the region's bytes, as a
  -- size_t, is at most the size of the buffer; the wait list is accepted.
  pub copy_image_to_buffer-created :
      (c : Command) → (build q target source offset origin region n evs ≡ created c) ↔ IsCopyOf c
  copy_image_to_buffer-created c = (build-IsCopyOf c, IsCopyOf-build c)
