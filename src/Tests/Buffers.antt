-- ===== src/Tests/Buffers.antt =====
-- Commands on buffers of 64 bytes (lib/Core/Command.cpp).
use open_crun.Prelude.{ℕ, ◌≡◌, ◌↔◌, refl, true, false, [], ◌∷◌, Option, none, some}
use open_crun.Builder.{
  Buffer, Queue, Device, buffer, Event, created, is_success, check_buffer, check_access,
  is_sub_buffer, size_add, deref, unless_failed, set_checked_wait_list, set_base_wait_list,
  check_contexts, has_foreign,
}
use open_crun.Builder.ReadBuffer
use open_crun.Builder.CopyBuffer
use open_crun.Builder.FillBuffer
use open_crun.Builder.ReadBuffer.Accepted.{read_buffer-created}
use open_crun.Builder.CopyBuffer.Accepted.{copy_buffer-IsSafe}
use open_crun.Builder.FillBuffer.Accepted.{fill_buffer-IsAllowed}

abbrev pub device : Device
device = record {
  base_address_alignment = 0;
  image_max_array_size = 2048;
  image2d_max_width = 8192;
  image2d_max_height = 8192;
  image_max_buffer_size = 65536;
  image3d_max_width = 2048;
  image3d_max_height = 2048;
  image3d_max_depth = 2048;
  supports_format = λ order ty. true;
}

abbrev pub queue : Queue
queue = record { context = 1; device = device }

abbrev pub memory : ℕ → Buffer
memory i = record { id = i; parent = none; origin = 0; size = 64; flags = 1; context = 1 }

abbrev done : Event
done = record { context = 1; is_error = false }

abbrev one_event : Option (ℕ → Option Event)
one_event = some (λ i. some done)

abbrev read_command : ReadBuffer.Command
read_command = record {
  target = some 100;
  source = memory 1;
  blocking = true;
  offset = 16;
  size = 48;
  wait_list = done ∷ [];
}

read_buffer-created_example :
    (ReadBuffer.build queue (some (buffer (memory 1))) (some 100) true 16 48 1 one_event
      ≡ created read_command)
    ↔ ReadBuffer.Accepted.IsRequested queue
        (some (buffer (memory 1)))
        (some 100)
        true
        16
        48
        1
        one_event
        read_command
read_buffer-created_example =
    read_buffer-created queue true 16 48 1 one_event (some (buffer (memory 1))) (some 100)
      read_command

-- The lower half of a buffer is copied to its upper half.
abbrev copy_command : CopyBuffer.Command
copy_command = record {
  target = memory 1;
  source = memory 1;
  target_offset = 32;
  source_offset = 0;
  size = 32;
  wait_list = [];
}

copy_command_lem :
    CopyBuffer.build queue (some (buffer (memory 1))) (some (buffer (memory 1))) 32 0 32 0 none
    ≡ created copy_command
unfolding CopyBuffer.build CopyBuffer.are_close CopyBuffer.same_parent CopyBuffer.check_area
    check_buffer check_access is_sub_buffer size_add deref unless_failed is_success
    set_checked_wait_list set_base_wait_list check_contexts has_foreign
copy_command_lem = refl

copy_buffer-IsSafe_example :
    CopyBuffer.Accepted.IsSafeCommand queue
      (some (buffer (memory 1)))
      (some (buffer (memory 1)))
      32
      0
      32
      0
      none
      copy_command
copy_buffer-IsSafe_example =
    copy_buffer-IsSafe queue (some (buffer (memory 1))) (some (buffer (memory 1))) 32 0 32 0 none
      copy_command_lem

abbrev fill_command : FillBuffer.Command
fill_command = record {
  target = memory 1;
  source = some 100;
  source_size = 4;
  target_offset = 8;
  target_size = 16;
  wait_list = [];
}

fill_command_lem :
    FillBuffer.build queue (some (buffer (memory 1))) (some 100) 4 8 16 0 none
    ≡ created fill_command
unfolding FillBuffer.build check_buffer check_access is_sub_buffer size_add deref unless_failed
    is_success set_checked_wait_list set_base_wait_list check_contexts has_foreign
fill_command_lem = refl

fill_buffer-IsAllowed_example :
    FillBuffer.Accepted.IsAllowed queue
      (some (buffer (memory 1)))
      (some 100)
      4
      8
      16
      0
      none
      fill_command
fill_buffer-IsAllowed_example =
    fill_buffer-IsAllowed queue (some (buffer (memory 1))) (some 100) 4 8 16 0 none fill_command
      fill_command_lem
