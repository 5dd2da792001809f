-- ===== src/Builder/CopyBufferRect.antt =====
-- EnqueueCopyBufferRectBuilder and its command (lib/Core/Command.cpp), with the chain of calls in
-- clEnqueueCopyBufferRect (tools/libOpenCRun/EnqueueCommand.cpp). The pitches hold any value until
-- they are set.
pub mod Accepted
use open_crun.Prelude.{
  ℕ, Bool, true, false, ◌&&◌, ◌||◌, not, List, Option, none, some, if◌then◌else◌, ◌==◌, ltb, leb,
}
use open_crun.Builder.{
  Builder, Buffer, Queue, MemObject, Event, Created, created, null_dereference, new_builder,
  notify_error, check_buffer, unrestricted, set_checked_wait_list, invalid_value, mem_copy_overlap,
  deref, unless_failed, is_sub_buffer,
}
use open_crun.Builder.CopyBuffer.{same_parent}
use open_crun.Builder.ImageChecks.{Triple, has_zero, pick_pitch}
use open_crun.Builder.RectArea.{pick_slice, last_index, start_index, overlap}

pub record CopyBufferRect : Type 0 where
  pub base : Builder
  pub target : Option Buffer
  pub source : Option Buffer
  pub region : Option Triple
  pub target_origin : Option Triple
  pub source_origin : Option Triple
  pub target_offset : ℕ
  pub source_offset : ℕ
  pub target_row : ℕ
  pub target_slice : ℕ
  pub source_row : ℕ
  pub source_slice : ℕ

pub record Command : Type 0 where
  pub target : Buffer
  pub source : Buffer
  pub region : Triple
  pub target_offset : ℕ
  pub source_offset : ℕ
  pub target_row : ℕ
  pub target_slice : ℕ
  pub source_row : ℕ
  pub source_slice : ℕ
  pub wait_list : List Event

unfoldable pub new : ℕ → Queue → Option MemObject → Option MemObject → CopyBufferRect
unfolding new_builder check_buffer
new any q target source =
    let (t, b) = check_buffer unrestricted q target (new_builder q) in
    let (s, b') = check_buffer unrestricted q source b in
    record {
      base = b';
      target = t;
      source = s;
      region = none;
      target_origin = none;
      source_origin = none;
      target_offset = 0;
      source_offset = 0;
      target_row = any;
      target_slice = any;
      source_row = any;
      source_slice = any;
    }

unfoldable pub reject : CopyBufferRect → CopyBufferRect
unfolding notify_error
reject r = record r { base = notify_error invalid_value r.base }

-- The region is read whether it is null or not.
unfoldable pub set_region : Option Triple → CopyBufferRect → Created CopyBufferRect
unfolding reject has_zero
set_region none r = null_dereference
set_region (some g) r = created (if has_zero g then reject r else record r { region = some g })

unfoldable pub place_target : Buffer → Triple → Triple → CopyBufferRect → CopyBufferRect
unfolding reject last_index start_index
place_target t g o r =
    if ltb t.size (last_index o g r.target_row r.target_slice) then reject r else record r {
      target_offset = start_index o r.target_row r.target_slice;
      target_origin = some o;
    }

unfoldable pub set_target_slice : Buffer → Triple → Triple → ℕ → CopyBufferRect → CopyBufferRect
unfolding reject pick_slice place_target
set_target_slice t g o slice r = elim (pick_slice slice r.target_row g) [
  | none ↦ reject r
  | some p ↦ place_target t g o (record r { target_slice = p })
]

unfoldable pub set_target_row : Buffer → Triple → Triple → ℕ → ℕ → CopyBufferRect → CopyBufferRect
unfolding reject pick_pitch set_target_slice
set_target_row t g o row slice r = elim (pick_pitch row g.x) [
  | none ↦ reject r
  | some p ↦ set_target_slice t g o slice (record r { target_row = p })
]

unfoldable pub set_target_offset : Option Triple → ℕ → ℕ → CopyBufferRect → CopyBufferRect
unfolding reject set_target_row
set_target_offset origin row slice r = elim r.target [
  | none ↦ r
  | some t ↦ elim r.region [
    | none ↦ r
    | some g ↦ elim origin [ none ↦ reject r | some o ↦ set_target_row t g o row slice r ]
  ]
]

unfoldable pub place_source : Buffer → Triple → Triple → CopyBufferRect → CopyBufferRect
unfolding reject last_index start_index
place_source s g o r =
    if ltb s.size (last_index o g r.source_row r.source_slice) then reject r else record r {
      source_offset = start_index o r.source_row r.source_slice;
      source_origin = some o;
    }

unfoldable pub set_source_slice : Buffer → Triple → Triple → ℕ → CopyBufferRect → CopyBufferRect
unfolding reject pick_slice place_source
set_source_slice s g o slice r = elim (pick_slice slice r.source_row g) [
  | none ↦ reject r
  | some p ↦ place_source s g o (record r { source_slice = p })
]

unfoldable pub set_source_row : Buffer → Triple → Triple → ℕ → ℕ → CopyBufferRect → CopyBufferRect
unfolding reject pick_pitch set_source_slice
set_source_row s g o row slice r = elim (pick_pitch row g.x) [
  | none ↦ reject r
  | some p ↦ set_source_slice s g o slice (record r { source_row = p })
]

unfoldable pub set_source_offset : Option Triple → ℕ → ℕ → CopyBufferRect → CopyBufferRect
unfolding reject set_source_row
set_source_offset origin row slice r = elim r.source [
  | none ↦ r
  | some s ↦ elim r.region [
    | none ↦ r
    | some g ↦ elim origin [ none ↦ reject r | some o ↦ set_source_row s g o row slice r ]
  ]
]

-- Whether the two buffers share their bytes.
unfoldable pub shares : Buffer → Buffer → Bool
unfolding is_sub_buffer same_parent
shares t s = t.id == s.id || (is_sub_buffer t && is_sub_buffer s && same_parent t s)

-- CheckCopyOverlap where no pointer is null.
unfoldable pub check_overlap :
    Buffer → Buffer → Triple → Triple → Triple → CopyBufferRect → CopyBufferRect
unfolding shares reject overlap notify_error
check_overlap t s g ot os r =
    if not (shares t s)
    then r
    else if not (r.target_row == r.source_row) && not (r.target_slice == r.source_slice)
    then reject r
    else if overlap g ot os r.target_offset r.source_offset r.target_row r.target_slice
    then record r { base = notify_error mem_copy_overlap r.base }
    else r

unfoldable pub check_copy_overlap : CopyBufferRect → CopyBufferRect
unfolding check_overlap
check_copy_overlap r = elim r.target [
  | none ↦ r
  | some t ↦ elim r.source [
    | none ↦ r
    | some s ↦ elim r.region [
      | none ↦ r
      | some g ↦ elim r.target_origin [
        | none ↦ r
        | some ot ↦ elim r.source_origin [ none ↦ r | some os ↦ check_overlap t s g ot os r ]
      ]
    ]
  ]
]

unfoldable pub set_wait_list : ℕ → Option (ℕ → Option Event) → CopyBufferRect → CopyBufferRect
unfolding set_checked_wait_list
set_wait_list n evs r = record r { base = set_checked_wait_list n evs r.base }

unfoldable pub command : CopyBufferRect → Buffer → Buffer → Triple → Command
command r t s g = record {
  target = t;
  source = s;
  region = g;
  target_offset = r.target_offset;
  source_offset = r.source_offset;
  target_row = r.target_row;
  target_slice = r.target_slice;
  source_row = r.source_row;
  source_slice = r.source_slice;
  wait_list = r.base.wait_list;
}

unfoldable pub create : CopyBufferRect → Created Command
unfolding deref unless_failed command
create r =
    unless_failed r.base
      (deref r.target λ t. deref r.source λ s. deref r.region λ g. created (command r t s g))
