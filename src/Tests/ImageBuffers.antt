-- ===== src/Tests/ImageBuffers.antt =====
-- Copies between an image and a buffer, fills and maps of an image of 16 by 8 pixels (lib/Core/Command.cpp).
use open_crun.Prelude.{◌≡◌, ◌↔◌, [], ◌∷◌, none, some}
use open_crun.Builder.{image, buffer, created}
use open_crun.Builder.ImageChecks
use open_crun.Builder.CopyImageToBuffer
use open_crun.Builder.CopyImageToBuffer.Accepted
use open_crun.Builder.CopyImageToBuffer.Accepted.{copy_image_to_buffer-created}
use open_crun.Builder.FillImage
use open_crun.Builder.FillImage.Accepted.{IsFillOf, fill_image-created}
use open_crun.Tests.Buffers.{queue, memory}
use open_crun.Tests.Images.{picture, at}

-- Four pixels of each of two rows, 32 bytes.
abbrev small : ImageChecks.Triple
small = record { x = 4; y = 2; z = 1 }

abbrev copy_command : CopyImageToBuffer.Command
copy_command = record {
  target = memory 1;
  source = picture;
  target_offset = 16;
  source_origin = at;
  region = record { x = 16; y = 2; z = 1 };
  source_offset = 200;
  wait_list = [];
}

copy_image_to_buffer-created_example :
    (CopyImageToBuffer.build queue
        (some (buffer (memory 1)))
        (some (image picture))
        16
        (some at)
        (some small)
        0
        none
      ≡ created copy_command)
    ↔ Accepted.IsCopyOf queue
        (some (buffer (memory 1)))
        (some (image picture))
        16
        (some at)
        (some small)
        0
        none
        copy_command
copy_image_to_buffer-created_example =
    copy_image_to_buffer-created queue (some (buffer (memory 1))) (some (image picture)) 16
      (some at) (some small) 0 none copy_command

abbrev fill_command : FillImage.Command
fill_command = record {
  target = picture;
  source = 255 ∷ 0 ∷ 0 ∷ 255 ∷ [];
  target_origin = at;
  target_region = record { x = 16; y = 2; z = 1 };
  target_offset = 200;
  wait_list = [];
}

fill_image-created_example :
    (FillImage.build queue
        (some (image picture))
        (some (255 ∷ 0 ∷ 0 ∷ 255 ∷ []))
        (some at)
        (some small)
        0
        none
      ≡ created fill_command)
    ↔ IsFillOf queue
        (some (image picture))
        (some (255 ∷ 0 ∷ 0 ∷ 255 ∷ []))
        (some at)
        (some small)
        0
        none
        fill_command
fill_image-created_example =
    fill_image-created queue (some (image picture)) (some (255 ∷ 0 ∷ 0 ∷ 255 ∷ [])) (some at)
      (some small) 0 none fill_command
