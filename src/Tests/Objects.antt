-- ===== src/Tests/Objects.antt =====
-- Buffers and images of a context with one device (lib/Core/MemoryObject.cpp).
use open_crun.Prelude.{◌≡◌, ◌⊎◌, refl, true, [], ◌∷◌, none, some}
use open_crun.Builder.{success, is_success, image2d, size_mul}
use open_crun.Objects.{
  Context, done, null_context, assertion_failed, k_image, set_generic_flags, finish_flags,
  store_flags, buffer_below,
}
use open_crun.Objects.Making.{Answer, Object, create_buffer, init_for_devices, create, new_object}
use open_crun.Objects.Regions.{create_sub_buffer}
use open_crun.Objects.Buffers.{create_buffer-outcome, Outcomes}
use open_crun.Objects.SubBuffers.{create_sub_buffer-faults}
use open_crun.Objects.Formats.{ImageFormat, is_format, element_size, limits}
use open_crun.Objects.Images.{
  ImageDesc, create_image, set_image, set_described, shape, set_typed, pitches, image_size,
}
use open_crun.Objects.ImageLimits.{ImageOf, create_image-ImageOf}
use open_crun.Tests.Buffers.{device}

abbrev context : Context
context = record { id = 1; devices = device ∷ [] }

abbrev able : Answer
able = record { descriptor = true; mapped = true }

-- A buffer of 64 bytes that copies from the host.
create_buffer-outcome_example :
    Outcomes context 33 64
      (some 100)
      (able ∷ [])
      (create_buffer (some context) 33 64 (some 100) (able ∷ []))
create_buffer-outcome_example = create_buffer-outcome context 33 64 (some 100) (able ∷ [])

create_sub_buffer-faults_example :
    (create_sub_buffer none 0 0x1220 none (able ∷ []) ≡ null_context)
    ⊎ (create_sub_buffer none 0 0x1220 none (able ∷ []) ≡ assertion_failed)
create_sub_buffer-faults_example = create_sub_buffer-faults none 0 0x1220 none (able ∷ [])

-- CL_RGBA and CL_UNORM_INT8
abbrev rgba : ImageFormat
rgba = record { channel_order = 0x10B5; channel_data_type = 0x10D2 }

abbrev square : ImageDesc
square = record {
  image_type = some image2d;
  image_width = 16;
  image_height = 16;
  image_depth = 0;
  image_array_size = 0;
  image_row_pitch = 0;
  image_slice_pitch = 0;
  num_mip_levels = 0;
  num_samples = 0;
  buffer = none;
}

abbrev square_object : Object
square_object = record {
  kind = k_image;
  context = 1;
  size = 1024;
  host_ptr = none;
  flags = 1;
  parent = none;
  offset = 0;
  img = record {
    ty = some image2d;
    channel_order = 0x10B5;
    channel_data_type = 0x10D2;
    width = 16;
    height = 16;
    depth = 0;
    array_size = 0;
    row_pitch = 64;
    slice_pitch = 0;
    buf = none;
    size = 1024;
  };
}

create_image-run :
    create_image (some context) 0 (some rgba) (some square) none (able ∷ [])
    ≡ done (some square_object, success)
unfolding create_image set_image set_described is_format element_size limits shape set_typed pitches
    image_size size_mul set_generic_flags finish_flags store_flags buffer_below create new_object
    is_success init_for_devices
create_image-run = refl

create_image-ImageOf_example : ImageOf context rgba square square_object
create_image-ImageOf_example =
    create_image-ImageOf context 0 rgba square none (able ∷ []) create_image-run
