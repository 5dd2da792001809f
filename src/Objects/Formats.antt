-- ===== src/Objects/Formats.antt =====
-- The formats of images and the limits of devices for them (lib/Core/MemoryObject.cpp). An element of a
-- valid format has at least one byte.
use open_crun.Prelude.{
  ℕ, ◌+◌, ◌*◌, Bool, true, false, ◌&&◌, ◌||◌, List, [], ◌∷◌, if◌then◌else◌, ◌==◌, leb, min,
}
use open_crun.Builder.{Device}

pub record ImageFormat : Type 0 where
  pub channel_order : ℕ
  pub channel_data_type : ℕ

abbrev pub one_of : ℕ → List ℕ → Bool
one_of n [] = false
one_of n (m ∷ ms) = n == m || one_of n ms

-- CL_R, CL_A, CL_RG, CL_RA, CL_RGB, CL_RGBA, CL_BGRA, CL_ARGB, CL_INTENSITY, CL_LUMINANCE, CL_Rx,
-- CL_RGx and CL_RGBx.
abbrev pub is_order : ℕ → Bool
is_order o = leb 0x10B0 o && leb o 0x10BC

-- CL_SNORM_INT8, CL_SNORM_INT16, CL_UNORM_INT8, CL_UNORM_INT16, CL_UNORM_SHORT_565,
-- CL_UNORM_SHORT_555, CL_UNORM_INT_101010, the signed and unsigned integers, CL_HALF_FLOAT, CL_FLOAT.
abbrev pub is_data_type : ℕ → Bool
is_data_type t = leb 0x10D0 t && leb t 0x10DE

unfoldable pub is_pair : ℕ → ℕ → Bool
is_pair o t =
    if one_of o (0x10B4 ∷ 0x10BC ∷ [])
    then one_of t (0x10D4 ∷ 0x10D5 ∷ 0x10D6 ∷ [])
    else if one_of o (0x10B7 ∷ 0x10B6 ∷ [])
    then one_of t (0x10D2 ∷ 0x10D0 ∷ 0x10D7 ∷ 0x10DA ∷ [])
    else if one_of o (0x10B8 ∷ 0x10B9 ∷ [])
    then one_of t (0x10D2 ∷ 0x10D3 ∷ 0x10D0 ∷ 0x10D1 ∷ 0x10DD ∷ 0x10DE ∷ [])
    else true

unfoldable pub is_format : ImageFormat → Bool
unfolding is_pair
is_format f =
    is_order f.channel_order
    && is_data_type f.channel_data_type
    && is_pair f.channel_order f.channel_data_type

-- computeImageNumChannels
unfoldable pub num_channels : ℕ → ℕ
num_channels o =
    if one_of o (0x10B0 ∷ 0x10B1 ∷ 0x10BA ∷ 0x10B8 ∷ 0x10B9 ∷ [])
    then 1
    else if one_of o (0x10B2 ∷ 0x10B3 ∷ 0x10BB ∷ [])
    then 2
    else if one_of o (0x10B4 ∷ 0x10BC ∷ [])
    then 3
    else 4

-- computeImageChannelSizeInBytes
unfoldable pub channel_size : ℕ → ℕ
channel_size t =
    if one_of t (0x10D7 ∷ 0x10DA ∷ 0x10D0 ∷ 0x10D2 ∷ [])
    then 1
    else if one_of t (0x10D8 ∷ 0x10DB ∷ 0x10D1 ∷ 0x10D3 ∷ 0x10D4 ∷ 0x10D5 ∷ 0x10DD ∷ [])
    then 2
    else 4

unfoldable pub is_packed : ℕ → Bool
is_packed t = one_of t (0x10D4 ∷ 0x10D5 ∷ 0x10D6 ∷ [])

unfoldable pub element_size : ImageFormat → ℕ
unfolding num_channels channel_size is_packed
element_size f =
    if is_packed f.channel_data_type
    then channel_size f.channel_data_type
    else channel_size f.channel_data_type * num_channels f.channel_order

-- The least limits of the devices that support the format, and how many there are.
pub record Limits : Type 0 where
  pub width_2d : ℕ
  pub height_2d : ℕ
  pub width_3d : ℕ
  pub height_3d : ℕ
  pub depth_3d : ℕ
  pub buffer_size : ℕ
  pub array_size : ℕ
  pub supported : ℕ

abbrev pub no_limits : Limits
no_limits = record {
  width_2d = 18446744073709551615;
  height_2d = 18446744073709551615;
  width_3d = 18446744073709551615;
  height_3d = 18446744073709551615;
  depth_3d = 18446744073709551615;
  buffer_size = 18446744073709551615;
  array_size = 18446744073709551615;
  supported = 0;
}

unfoldable pub add_limits : Device → Limits → Limits
add_limits d l = record {
  width_2d = min d.image2d_max_width l.width_2d;
  height_2d = min d.image2d_max_height l.height_2d;
  width_3d = min d.image3d_max_width l.width_3d;
  height_3d = min d.image3d_max_height l.height_3d;
  depth_3d = min d.image3d_max_height l.depth_3d;
  buffer_size = min d.image_max_buffer_size l.buffer_size;
  array_size = min d.image_max_array_size l.array_size;
  supported = l.supported + 1;
}

unfoldable pub limits : ImageFormat → List Device → Limits → Limits
unfolding add_limits
limits f [] l = l
limits f (d ∷ ds) l =
    limits f ds
      (if d.supports_format f.channel_order f.channel_data_type then add_limits d l else l)
