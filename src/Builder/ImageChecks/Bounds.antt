-- ===== src/Builder/ImageChecks/Bounds.antt =====
-- What IsValidImgRegion and the pitches guarantee (lib/Core/Command.cpp).
use open_crun.Prelude.{
  ℕ, ◌+◌, ◌≤◌, ◌<◌, ◌≡◌, refl, Bool, true, not, ◌&&◌, Option, none, some, arith, ◌==◌,
}
use open_crun.Builder.{
  Builder, Image, ImageType, image1d, image1d_array, image1d_buffer, image2d, image2d_array,
  image3d, Queue, MemObject, buffer, image, size_mod, size_add, is_success, notify_error,
}
use open_crun.Builder.Errors.{IsOk}
use open_crun.Builder.ImageChecks.{
  Triple, valid_region, pick_pitch, check_image, check_support, check_dev_img_support, too_large,
}

-- The extents of an image in the second and the third dimension of an origin.
abbrev pub rows : ImageType → Image → ℕ
rows image1d i = 1
rows image1d_buffer i = 1
rows image1d_array i = i.array_size
rows image2d i = i.height
rows image2d_array i = i.height
rows image3d i = i.height

abbrev pub slices : ImageType → Image → ℕ
slices image1d i = 1
slices image1d_buffer i = 1
slices image1d_array i = 1
slices image2d i = 1
slices image2d_array i = i.array_size
slices image3d i = i.depth

-- No sum of an origin and a region wraps.
abbrev pub Small : Triple → Triple → Type 0
Small o g = (o.x + g.x < size_mod) × (o.y + g.y < size_mod) × (o.z + g.z < size_mod)

abbrev pub Inside : Image → Triple → Triple → Type 0
Inside i o g = (o.x + g.x ≤ i.width) × (o.y + g.y ≤ rows i.ty i) × (o.z + g.z ≤ slices i.ty i)

valid_region-inside :
    (ty : ImageType) (i : Image) (o g : Triple)
    → Small o g
    → valid_region ty i o g ≡ true
    → (o.x + g.x ≤ i.width) × (o.y + g.y ≤ rows ty i) × (o.z + g.z ≤ slices ty i)
unfolding valid_region size_add
valid_region-inside image1d i o g s h = (ground arith, ground arith, ground arith)
valid_region-inside image1d_buffer i o g s h = (ground arith, ground arith, ground arith)
valid_region-inside image1d_array i o g s h = (ground arith, ground arith, ground arith)
valid_region-inside image2d i o g s h = (ground arith, ground arith, ground arith)
valid_region-inside image2d_array i o g s h = (ground arith, ground arith, ground arith)
valid_region-inside image3d i o g s h = (ground arith, ground arith, ground arith)

pub valid_region-Inside :
    (i : Image) (o g : Triple) → Small o g → valid_region i.ty i o g ≡ true → Inside i o g
valid_region-Inside i o g s h = valid_region-inside i.ty i o g s h

pub pick_pitch-le : (given least : ℕ) {p : ℕ} → pick_pitch given least ≡ some p → least ≤ p
unfolding pick_pitch
pick_pitch-le given least h = ground arith

-- Whether a queue may use an image for the operation.
abbrev pub usable_image : (ℕ → Bool) → Queue → Image → Bool
usable_image denied q i = not (denied i.flags) && q.context == i.context

pub check_image-IsOk :
    (denied : ℕ → Bool) (q : Queue) (x : Option MemObject) (b : Builder)
    → IsOk (check_image denied q x b).1
    → (i : Image) × (x ≡ some (image i))
      × (usable_image denied q i ≡ true)
      × (check_image denied q x b ≡ (some i, b))
unfolding check_image notify_error is_success
check_image-IsOk denied q none b ok = absurd (ground arith)
check_image-IsOk denied q (some (buffer s)) b ok = absurd (ground arith)
check_image-IsOk denied q (some (image i)) b ok = (i, refl, ground arith, ground arith)

-- Whether the device can use the image.
abbrev pub supported : Queue → Image → Bool
supported q i =
    not (too_large i.ty q.device i) && q.device.supports_format i.channel_order i.channel_data_type

pub check_support-IsOk :
    (q : Queue) (i : Image) (b : Builder)
    → IsOk (check_support q (some i) b)
    → (check_support q (some i) b ≡ b) × (supported q i ≡ true)
unfolding check_support check_dev_img_support notify_error is_success
check_support-IsOk q i b ok = (ground arith, ground arith)

pub check_support-sticky :
    (q : Queue) (x : Option Image) (b : Builder) → IsOk (check_support q x b) → IsOk b
unfolding check_support check_dev_img_support notify_error is_success
check_support-sticky q none b ok = ok
check_support-sticky q (some i) b ok = ground arith

pub check_image-usable :
    (denied : ℕ → Bool) (q : Queue) (x : Option MemObject) (i : Image) (b : Builder)
    → x ≡ some (image i)
    → usable_image denied q i ≡ true
    → check_image denied q x b ≡ (some i, b)
unfolding check_image
check_image-usable denied q x i b e h = rw e (ground arith)

pub check_support-supported :
    (q : Queue) (i : Image) (b : Builder) → supported q i ≡ true → check_support q (some i) b ≡ b
unfolding check_support check_dev_img_support
check_support-supported q i b h = ground arith
