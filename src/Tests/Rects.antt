-- ===== src/Tests/Rects.antt =====
-- Commands on boxes in a buffer of 64 bytes (lib/Core/Command.cpp).
use open_crun.Prelude.{refl, false, some, arith}
use open_crun.Builder.{is_success, new_builder, size_add, size_mul}
use open_crun.Builder.ReadBufferRect
use open_crun.Builder.ImageChecks
use open_crun.Builder.RectArea
use open_crun.Builder.ReadBufferRect.Accepted.{read_buffer_rect-Reads, Reads}
use open_crun.Tests.Buffers.{queue, memory}

abbrev box : ImageChecks.Triple
box = record { x = 4; y = 2; z = 2 }

abbrev at : ImageChecks.Triple
at = record { x = 1; y = 1; z = 0 }

abbrev boxing : ReadBufferRect.ReadBufferRect
boxing = record {
  base = new_builder queue;
  target = some 100;
  source = some (memory 1);
  blocking = false;
  region = some box;
  target_offset = 0;
  source_offset = 0;
  target_row = 4;
  target_slice = 8;
  source_row = 0;
  source_slice = 0;
}

read_buffer_rect-Reads_example :
    Reads (memory 1) box at (ReadBufferRect.set_source_offset (some at) 8 32 boxing)
unfolding ReadBufferRect.set_source_offset new_builder is_success size_mul size_add
    ImageChecks.pick_pitch RectArea.pick_slice RectArea.last_index
read_buffer_rect-Reads_example =
    read_buffer_rect-Reads (memory 1) box at 8 32 boxing refl refl (omega arith) refl
