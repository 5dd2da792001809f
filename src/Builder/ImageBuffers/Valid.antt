-- ===== src/Builder/ImageBuffers/Valid.antt =====
-- A valid call of a copy between an image and a buffer leaves its builder without an error
-- (lib/Core/Command.cpp).
use open_crun.Prelude.{ℕ, ◌≤◌, ◌≡◌, refl, ap, ◌∙◌, true, false, [], Option, some, arith, List}
use open_crun.Builder.{
  Builder, Buffer, Image, Queue, MemObject, image, Event, new_builder, unrestricted, size_add,
}
use open_crun.Builder.Errors.{check_buffer-usable, set_checked_wait_list-unforeign}
use open_crun.Builder.ImageChecks.{Triple, has_zero, valid_region, is_valid_img_region}
use open_crun.Builder.ImageChecks.Bounds.{check_support-supported}
use open_crun.Builder.ImageBuffers.{
  check_image_beside, start, bytes_of, check_bytes, place_in, place_given, place, wait,
}
use open_crun.Builder.ImageBuffers.Accepted.{beside, opened, finished, Agrees, start-opened}

image-beside :
    (q : Queue) (s : Buffer) (i : Image) (img : Option MemObject) (b : Builder)
    → img ≡ some (image i)
    → beside q i s ≡ true
    → check_image_beside q (some s) img b ≡ (some i, b)
unfolding check_image_beside
image-beside q s i img b e h = rw e (ground arith)

place-finished :
    (q : Queue) (s : Buffer) (i : Image) (offset : ℕ) (origin region : Option Triple) (o g : Triple)
    → origin ≡ some o
    → region ≡ some g
    → has_zero g ≡ false
    → valid_region i.ty i o g ≡ true
    → size_add offset (bytes_of i g) ≤ s.size
    → place offset origin region (opened q s i) ≡ finished q s i offset o g []
unfolding place place_given place_in check_bytes is_valid_img_region new_builder
place-finished q s i offset origin region o g eo eg hz va fits = rw (eo, eg) (ground arith)

-- The builder of a call that agrees with the rules.
pub Agrees-finished :
    (q : Queue) (buf img : Option MemObject) (offset : ℕ) (origin region : Option Triple) (n : ℕ)
    (evs : Option (ℕ → Option Event)) (s : Buffer) (i : Image) (o g : Triple) (l : List Event)
    → Agrees q buf img offset origin region n evs s i o g l
    → wait n evs (place offset origin region (start q buf img)) ≡ finished q s i offset o g l
unfolding wait new_builder
Agrees-finished q buf img offset origin region n evs s i o g l v =
    let opens =
      start-opened q buf img s i
        (check_buffer-usable unrestricted q buf (new_builder q) v.buffer_given v.buffer_usable)
        (image-beside q s i img (new_builder q) v.image_given v.image_usable)
        (check_support-supported q i (new_builder q) v.image_supported) in
    let places =
      place-finished q s i offset origin region o g v.origin_given v.region_given v.not_empty
        v.valid v.fits in
    ap (λ x. wait n evs (place offset origin region x)) opens
    ∙ ap (wait n evs) places
    ∙ ap (λ b. record (finished q s i offset o g []) { base = b })
        (set_checked_wait_list-unforeign n evs (new_builder q) refl v.waits v.same_context)
