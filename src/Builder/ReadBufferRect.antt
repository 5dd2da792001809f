-- ===== src/Builder/ReadBufferRect.antt =====
-- EnqueueReadBufferRectBuilder and its command (lib/Core/Command.cpp), with the chain of calls in
-- clEnqueueReadBufferRect (tools/libOpenCRun/EnqueueCommand.cpp). The pitches hold any value until
-- they are set.
pub mod Accepted
use open_crun.Prelude.{ℕ, Bool, false, ◌&&◌, List, Option, none, some, if◌then◌else◌, ltb}
use open_crun.Builder.{
  Builder, Buffer, Queue, MemObject, Event, Created, created, new_builder, notify_error,
  check_buffer, check_pointer, no_host_read, is_wait_list_inconsistent, set_blocking_wait_list,
  exec_status_error, invalid_value, deref, unless_failed,
}
use open_crun.Builder.ImageChecks.{Triple, has_zero, pick_pitch}
use open_crun.Builder.RectArea.{pick_slice, last_index, start_index}

pub record ReadBufferRect : Type 0 where
  pub base : Builder
  pub target : Option ℕ
  pub source : Option Buffer
  pub blocking : Bool
  pub region : Option Triple
  pub target_offset : ℕ
  pub source_offset : ℕ
  pub target_row : ℕ
  pub target_slice : ℕ
  pub source_row : ℕ
  pub source_slice : ℕ

pub record Command : Type 0 where
  pub target : Option ℕ
  pub source : Buffer
  pub blocking : Bool
  pub region : Triple
  pub target_offset : ℕ
  pub source_offset : ℕ
  pub target_row : ℕ
  pub target_slice : ℕ
  pub source_row : ℕ
  pub source_slice : ℕ
  pub wait_list : List Event

unfoldable pub new : ℕ → Queue → Option MemObject → Option ℕ → ReadBufferRect
unfolding new_builder check_buffer check_pointer
new any q buf target =
    let (source, b) = check_buffer no_host_read q buf (new_builder q) in
    record {
      base = check_pointer target b;
      target = target;
      source = source;
      blocking = false;
      region = none;
      target_offset = 0;
      source_offset = 0;
      target_row = any;
      target_slice = any;
      source_row = any;
      source_slice = any;
    }

unfoldable pub set_blocking : Bool → ReadBufferRect → ReadBufferRect
unfolding is_wait_list_inconsistent notify_error
set_blocking blocking r =
    if blocking && is_wait_list_inconsistent r.base
    then record r { base = notify_error exec_status_error r.base }
    else record r { blocking = blocking }

unfoldable pub reject : ReadBufferRect → ReadBufferRect
unfolding notify_error
reject r = record r { base = notify_error invalid_value r.base }

unfoldable pub set_region : Option Triple → ReadBufferRect → ReadBufferRect
unfolding reject has_zero
set_region none r = reject r
set_region (some g) r = if has_zero g then reject r else record r { region = some g }

unfoldable pub set_target_slice : Triple → Triple → ℕ → ReadBufferRect → ReadBufferRect
unfolding reject pick_slice start_index
set_target_slice g o slice r = elim (pick_slice slice r.target_row g) [
  | none ↦ reject r
  | some p ↦ record r { target_slice = p; target_offset = start_index o r.target_row p }
]

unfoldable pub set_target_row : Triple → Triple → ℕ → ℕ → ReadBufferRect → ReadBufferRect
unfolding reject pick_pitch set_target_slice
set_target_row g o row slice r = elim (pick_pitch row g.x) [
  | none ↦ reject r
  | some p ↦ set_target_slice g o slice (record r { target_row = p })
]

unfoldable pub set_target_offset : Option Triple → ℕ → ℕ → ReadBufferRect → ReadBufferRect
unfolding reject set_target_row
set_target_offset origin row slice r = elim r.region [
  | none ↦ r
  | some g ↦ elim origin [ none ↦ reject r | some o ↦ set_target_row g o row slice r ]
]

-- The bounds check, and the offset.
unfoldable pub place_source : Buffer → Triple → Triple → ReadBufferRect → ReadBufferRect
unfolding reject last_index start_index
place_source s g o r =
    if ltb s.size (last_index o g r.source_row r.source_slice)
    then reject r
    else record r { source_offset = start_index o r.source_row r.source_slice }

unfoldable pub set_source_slice : Buffer → Triple → Triple → ℕ → ReadBufferRect → ReadBufferRect
unfolding reject pick_slice place_source
set_source_slice s g o slice r = elim (pick_slice slice r.source_row g) [
  | none ↦ reject r
  | some p ↦ place_source s g o (record r { source_slice = p })
]

unfoldable pub set_source_row : Buffer → Triple → Triple → ℕ → ℕ → ReadBufferRect → ReadBufferRect
unfolding reject pick_pitch set_source_slice
set_source_row s g o row slice r = elim (pick_pitch row g.x) [
  | none ↦ reject r
  | some p ↦ set_source_slice s g o slice (record r { source_row = p })
]

unfoldable pub set_source_offset : Option Triple → ℕ → ℕ → ReadBufferRect → ReadBufferRect
unfolding reject set_source_row
set_source_offset origin row slice r = elim r.source [
  | none ↦ r
  | some s ↦ elim r.region [
    | none ↦ r
    | some g ↦ elim origin [ none ↦ reject r | some o ↦ set_source_row s g o row slice r ]
  ]
]

unfoldable pub set_wait_list : ℕ → Option (ℕ → Option Event) → ReadBufferRect → ReadBufferRect
unfolding set_blocking_wait_list
set_wait_list n evs r = record r { base = set_blocking_wait_list r.blocking n evs r.base }

unfoldable pub command : ReadBufferRect → Buffer → Triple → Command
command r s g = record {
  target = r.target;
  source = s;
  blocking = r.blocking;
  region = g;
  target_offset = r.target_offset;
  source_offset = r.source_offset;
  target_row = r.target_row;
  target_slice = r.target_slice;
  source_row = r.source_row;
  source_slice = r.source_slice;
  wait_list = r.base.wait_list;
}

unfoldable pub create : ReadBufferRect → Created Command
unfolding deref unless_failed command
create r = unless_failed r.base (deref r.source λ s. deref r.region λ g. created (command r s g))

-- The regions and origins of clEnqueueReadBufferRect, those of the host first.
unfoldable pub build :
    ℕ
    → Queue
    → Option MemObject
    → Option ℕ
    → Bool
    → Option Triple
    → Option Triple
    → ℕ
    → ℕ
    → Option Triple
    → ℕ
    → ℕ
    → ℕ
    → Option (ℕ → Option Event)
    → Created Command
unfolding new set_blocking set_region set_target_offset set_source_offset set_wait_list create
build any q buf target blocking region host host_row host_slice origin row slice n evs = create (
    set_wait_list n evs (
      set_source_offset origin row slice (
        set_target_offset host host_row host_slice
          (set_region region (set_blocking blocking (new any q buf target))))))
