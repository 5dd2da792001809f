-- ===== src/Builder/CopyBufferToImage/Accepted.antt =====
-- When clEnqueueCopyBufferToImage gets a command, and which one (lib/Core/Command.cpp).
use open_crun.Prelude.{ℕ, ◌≡◌, ◌↔◌, refl, ap, subst, sym, ◌∙◌, List, Option}
use open_crun.Builder.{
  Buffer, Image, Queue, MemObject, Event, created, new_builder, is_success, deref, unless_failed,
  size_mul,
}
use open_crun.Builder.Errors.{unless_failed-created, created-injective}
use open_crun.Builder.ImageChecks.{Triple, offset_in}
use open_crun.Builder.ImageBuffers.{start, place, wait}
use open_crun.Builder.ImageBuffers.Accepted.{Agrees, finished, chain-finished}
use open_crun.Builder.ImageBuffers.Valid.{Agrees-finished}
use open_crun.Builder.CopyBufferToImage.{
  Command, new, set_copy_area, set_wait_list, command, create, build,
}

module _ (q : Queue) (target source : Option MemObject) (offset : ℕ) (origin region : Option Triple)
    (n : ℕ) (evs : Option (ℕ → Option Event)) where
  -- The command that a valid call asks for.
  pub record IsCopyOf (c : Command) : Type 0 where
    pub given_region : Triple
    pub agrees :
        Agrees q source target offset origin region n evs c.source c.target c.target_origin
          given_region c.wait_list
    pub same_offset : c.source_offset ≡ offset
    pub width : c.region.x ≡ size_mul given_region.x c.target.element_size
    pub height : c.region.y ≡ given_region.y
    pub depth : c.region.z ≡ given_region.z
    pub at : c.target_offset ≡ offset_in c.target c.target_origin

  create-finished :
      (s : Buffer) (i : Image) (o g : Triple) (l : List Event)
      → create (finished q s i offset o g l)
        ≡ created (command (finished q s i offset o g l) i s o g)
  unfolding create unless_failed deref new_builder is_success
  create-finished s i o g l = refl

  command-IsCopyOf :
      (s : Buffer) (i : Image) (o g : Triple) (l : List Event)
      → Agrees q source target offset origin region n evs s i o g l
      → IsCopyOf (command (finished q s i offset o g l) i s o g)
  unfolding command
  command-IsCopyOf s i o g l v = record {
    given_region = g;
    agrees = v;
    same_offset = refl;
    width = refl;
    height = refl;
    depth = refl;
    at = refl;
  }

  build-IsCopyOf :
      (c : Command) → build q target source origin region offset n evs ≡ created c → IsCopyOf c
  unfolding build new set_copy_area set_wait_list create
  build-IsCopyOf c h =
      let r = wait n evs (place offset origin region (start q source target)) in
      let (ok, _) = unless_failed-created r.base _ h in
      let (s, i, o, g, l, v, eq) = chain-finished q source target offset origin region n evs ok in
      let made = created-injective (sym (create-finished s i o g l) ∙ sym (ap create eq) ∙ h) in
      subst IsCopyOf made (command-IsCopyOf s i o g l v)

  same_command :
      (c : Command) (v : IsCopyOf c)
      → command
          (finished q c.source c.target offset c.target_origin v.given_region c.wait_list)
          c.target
          c.source
          c.target_origin
          v.given_region
        ≡ c
  unfolding command
  same_command c v = cc (v.same_offset, v.width, v.height, v.depth, v.at)

  IsCopyOf-build :
      (c : Command) → IsCopyOf c → build q target source origin region offset n evs ≡ created c
  unfolding build new set_copy_area set_wait_list
  IsCopyOf-build c v =
      ap create (
        Agrees-finished q source target offset origin region n evs c.source c.target c.target_origin
          v.given_region c.wait_list v.agrees)
      ∙ create-finished c.source c.target c.target_origin v.given_region c.wait_list
      ∙ ap created (same_command c v)

  pub copy_buffer_to_image-created :
      (c : Command) → (build q target source origin region offset n evs ≡ created c) ↔ IsCopyOf c
  copy_buffer_to_image-created c = (build-IsCopyOf c, IsCopyOf-build c)
