-- ===== src/Tests/Images.antt =====
-- Commands on an image of 16 by 8 pixels (lib/Core/Command.cpp).
use open_crun.Prelude.{◌≡◌, refl, true, [], none, some, arith}
use open_crun.Builder.{
  Image, image2d, image, created, is_success, size_add, size_mul, deref, unless_failed,
  set_blocking_wait_list, set_base_wait_list, check_contexts, has_foreign,
  is_wait_list_inconsistent, has_error,
}
use open_crun.Builder.ImageChecks
use open_crun.Builder.ImageChecks.Bounds.{Inside}
use open_crun.Builder.ReadImage
use open_crun.Builder.ReadImage.Inside.{read_image-IsReadOf, read_image-Inside, IsReadOf}
use open_crun.Tests.Buffers.{queue}

abbrev pub picture : Image
picture = record {
  id = 3;
  ty = image2d;
  width = 16;
  height = 8;
  depth = 1;
  array_size = 1;
  row_pitch = 64;
  slice_pitch = 512;
  element_size = 4;
  channel_order = 1;
  channel_data_type = 1;
  buf = none;
  flags = 1;
  context = 1;
}

abbrev pub at : ImageChecks.Triple
at = record { x = 2; y = 3; z = 0 }

abbrev area : ImageChecks.Triple
area = record { x = 14; y = 5; z = 1 }

abbrev read_command : ReadImage.Command
read_command = record {
  target = some 100;
  source = picture;
  blocking = true;
  source_origin = at;
  region = record { x = 56; y = 5; z = 1 };
  source_offset = 200;
  row_pitch = 64;
  slice_pitch = 320;
  wait_list = [];
}

read_command_lem :
    ReadImage.build 0 0 queue
      (some (image picture))
      (some 100)
      true
      (some at)
      (some area)
      64
      0
      0
      none
    ≡ created read_command
unfolding ReadImage.build ImageChecks.check_image ImageChecks.check_support ImageChecks.has_zero
    ImageChecks.is_valid_img_region ImageChecks.valid_region ImageChecks.pick_pitch
    ImageChecks.offset_in size_add size_mul deref unless_failed is_success set_blocking_wait_list
    set_base_wait_list check_contexts has_foreign is_wait_list_inconsistent has_error
read_command_lem = refl

read_image-IsReadOf_example :
    IsReadOf queue (some (image picture)) (some 100) true at area 0 none read_command
read_image-IsReadOf_example =
    read_image-IsReadOf queue (some (image picture)) (some 100) true 0 none 0 0 64 0 at area
      read_command read_command_lem

read_image-Inside_example : Inside picture at area
read_image-Inside_example =
    read_image-Inside queue (some (image picture)) (some 100) true 0 none 0 0 64 0 at area
      read_command (omega arith) read_command_lem
