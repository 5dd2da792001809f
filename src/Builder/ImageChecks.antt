-- ===== src/Builder/ImageChecks.antt =====
-- The checks that the image builders share: CheckDevImgSupport and IsValidImgRegion (end of
-- lib/Core/Command.cpp), the first lines of the constructors, and the host pitches.
pub mod Bounds
use open_crun.Prelude.{
  ℕ, Bool, true, false, ◌&&◌, ◌||◌, not, List, Option, none, some, if◌then◌else◌, ◌==◌, ltb,
}
use open_crun.Builder.{
  Builder, Image, ImageType, image1d, image1d_array, image1d_buffer, image2d, image2d_array,
  image3d, Queue, Device, MemObject, buffer, image, notify_error, invalid_value, invalid_mem_object,
  invalid_operation, invalid_context, invalid_image_size, image_format_not_supported, size_add,
  size_mul,
}

-- A `const size_t[3]`: an origin or a region.
pub record Triple : Type 0 where
  pub x : ℕ
  pub y : ℕ
  pub z : ℕ

unfoldable pub has_zero : Triple → Bool
has_zero g = g.x == 0 || g.y == 0 || g.z == 0

-- The switch of CheckDevImgSupport: whether an image is too large for the device.
unfoldable pub too_large : ImageType → Device → Image → Bool
too_large image1d_array d i = ltb d.image_max_array_size i.array_size
too_large image1d d i = ltb d.image2d_max_width i.width
too_large image1d_buffer d i = ltb d.image_max_buffer_size i.width
too_large image2d_array d i = ltb d.image_max_array_size i.array_size
too_large image2d d i = ltb d.image2d_max_width i.width || ltb d.image2d_max_height i.height
too_large image3d d i =
    ltb d.image3d_max_width i.width
    || ltb d.image3d_max_height i.height
    || ltb d.image3d_max_depth i.depth

unfoldable pub check_dev_img_support : Queue → Image → Builder → Builder
unfolding too_large notify_error
check_dev_img_support q i b =
    let b' = if too_large i.ty q.device i then notify_error invalid_image_size b else b in
    if not (q.device.supports_format i.channel_order i.channel_data_type)
    then notify_error image_format_not_supported b'
    else b'

unfoldable pub valid_region : ImageType → Image → Triple → Triple → Bool
unfolding size_add
valid_region image1d i o g =
    if not (o.y == 0) || not (o.z == 0)
    then false
    else if not (g.y == 1) || not (g.z == 1)
    then false
    else not (ltb i.width (size_add o.x g.x))
valid_region image1d_buffer i o g =
    if not (o.y == 0) || not (o.z == 0)
    then false
    else if not (g.y == 1) || not (g.z == 1)
    then false
    else not (ltb i.width (size_add o.x g.x))
valid_region image1d_array i o g =
    if not (o.z == 0)
    then false
    else if not (g.z == 1)
    then false
    else not (ltb i.width (size_add o.x g.x) || ltb i.array_size (size_add o.y g.y))
valid_region image2d i o g =
    if not (o.z == 0)
    then false
    else if not (g.z == 1)
    then false
    else not (ltb i.width (size_add o.x g.x) || ltb i.height (size_add o.y g.y))
valid_region image2d_array i o g = not (
    ltb i.width (size_add o.x g.x)
    || ltb i.height (size_add o.y g.y)
    || ltb i.array_size (size_add o.z g.z))
valid_region image3d i o g = not (
    ltb i.width (size_add o.x g.x)
    || ltb i.height (size_add o.y g.y)
    || ltb i.depth (size_add o.z g.z))

-- IsValidImgRegion, whose callers have tested the three pointers.
unfoldable pub is_valid_img_region : Image → Triple → Triple → Builder → Bool × Builder
unfolding valid_region notify_error
is_valid_img_region i o g b =
    if valid_region i.ty i o g then (true, b) else (false, notify_error invalid_value b)

-- The first check of the constructors, up to the one of the contexts.
unfoldable pub check_image :
    (ℕ → Bool) → Queue → Option MemObject → Builder → Option Image × Builder
unfolding notify_error
check_image denied q none b = (none, notify_error invalid_mem_object b)
check_image denied q (some (buffer s)) b = (none, notify_error invalid_mem_object b)
check_image denied q (some (image i)) b = (
  some i,
  if denied i.flags
      then notify_error invalid_operation b
      else if not (q.context == i.context)
      then notify_error invalid_context b
      else b,
)

-- The last check of the constructors.
unfoldable pub check_support : Queue → Option Image → Builder → Builder
unfolding check_dev_img_support
check_support q none b = b
check_support q (some i) b = check_dev_img_support q i b

-- A pitch that the caller gives, where zero stands for the least; `none` if it is too small.
unfoldable pub pick_pitch : ℕ → ℕ → Option ℕ
pick_pitch given least =
    if given == 0 then some least else if ltb given least then none else some given

-- The start of an area in an image.
unfoldable pub offset_in : Image → Triple → ℕ
unfolding size_add size_mul
offset_in i o =
    size_add (size_add (size_mul o.x i.element_size) (size_mul o.y i.row_pitch))
      (size_mul o.z i.slice_pitch)
