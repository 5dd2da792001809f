-- ===== src/Builder/WriteImage.antt =====
-- EnqueueWriteImageBuilder and EnqueueWriteImage (lib/Core/Command.cpp), with the chain of calls in
-- clEnqueueWriteImage (tools/libOpenCRun/EnqueueCommand.cpp). The pitches hold any value until they
-- are set.
use open_crun.Prelude.{ℕ, Bool, false, ◌&&◌, not, List, Option, none, some, if◌then◌else◌}
use open_crun.Builder.{
  Builder, Image, Queue, MemObject, Event, Created, created, new_builder, notify_error,
  no_host_write, is_wait_list_inconsistent, set_blocking_wait_list, exec_status_error,
  invalid_value, size_mul, deref, unless_failed,
}
use open_crun.Builder.ImageChecks.{
  Triple, has_zero, is_valid_img_region, check_image, check_support, pick_pitch, offset_in,
}

pub record WriteImage : Type 0 where
  pub base : Builder
  pub target : Option Image
  pub source : Option ℕ
  pub blocking : Bool
  pub target_origin : Option Triple
  pub region : Option Triple
  pub row_pitch : ℕ
  pub slice_pitch : ℕ

-- The width of the region is in bytes.
pub record Command : Type 0 where
  pub source : Option ℕ
  pub target : Image
  pub blocking : Bool
  pub target_origin : Triple
  pub region : Triple
  pub target_offset : ℕ
  pub row_pitch : ℕ
  pub slice_pitch : ℕ
  pub wait_list : List Event

-- The check that reports a null source reads the target.
unfoldable pub check_target : Option Image → Builder → Builder
unfolding notify_error
check_target none b = notify_error invalid_value b
check_target (some t) b = b

unfoldable pub new : ℕ → ℕ → Queue → Option MemObject → Option ℕ → WriteImage
unfolding new_builder check_image check_target check_support
new row slice q img source =
    let (target, b) = check_image no_host_write q img (new_builder q) in
    record {
      base = check_support q target (check_target target b);
      target = target;
      source = source;
      blocking = false;
      target_origin = none;
      region = none;
      row_pitch = row;
      slice_pitch = slice;
    }

unfoldable pub set_blocking : Bool → WriteImage → WriteImage
unfolding is_wait_list_inconsistent notify_error
set_blocking blocking r =
    if blocking && is_wait_list_inconsistent r.base
    then record r { base = notify_error exec_status_error r.base }
    else record r { blocking = blocking }

unfoldable pub reject : WriteImage → WriteImage
unfolding notify_error
reject r = record r { base = notify_error invalid_value r.base }

unfoldable pub set_slice : Triple → ℕ → WriteImage → WriteImage
unfolding pick_pitch size_mul reject
set_slice g slice r = elim (pick_pitch slice (size_mul r.row_pitch g.y)) [
  | none ↦ reject r
  | some p ↦ record r { slice_pitch = p }
]

unfoldable pub set_pitches : Image → Triple → ℕ → ℕ → WriteImage → WriteImage
unfolding pick_pitch size_mul reject set_slice
set_pitches t g row slice r = elim (pick_pitch row (size_mul g.x t.element_size)) [
  | none ↦ reject r
  | some p ↦ set_slice g slice (record r { row_pitch = p })
]

unfoldable pub set_region : Image → Triple → Triple → ℕ → ℕ → WriteImage → WriteImage
unfolding has_zero reject is_valid_img_region set_pitches
set_region t o g row slice r =
    if has_zero g
    then reject r
    else (let (valid, b) = is_valid_img_region t o g r.base in
        if not valid
        then record r { base = b }
        else set_pitches t g row slice
            (record r { base = b; region = some g; target_origin = some o }))

unfoldable pub set_copy_area : Option Triple → Option Triple → ℕ → ℕ → WriteImage → WriteImage
unfolding reject set_region
set_copy_area origin region row slice r = elim r.target [
  | none ↦ r
  | some t ↦ elim origin [
    | none ↦ reject r
    | some o ↦ elim region [ none ↦ reject r | some g ↦ set_region t o g row slice r ]
  ]
]

unfoldable pub set_wait_list : ℕ → Option (ℕ → Option Event) → WriteImage → WriteImage
unfolding set_blocking_wait_list
set_wait_list n evs r = record r { base = set_blocking_wait_list r.blocking n evs r.base }

-- EnqueueWriteImage
unfoldable pub command : WriteImage → Image → Triple → Triple → Command
unfolding size_mul offset_in
command r t o g = record {
  source = r.source;
  target = t;
  blocking = r.blocking;
  target_origin = o;
  region = record { x = size_mul g.x t.element_size; y = g.y; z = g.z };
  target_offset = offset_in t o;
  row_pitch = r.row_pitch;
  slice_pitch = r.slice_pitch;
  wait_list = r.base.wait_list;
}

unfoldable pub create : WriteImage → Created Command
unfolding deref unless_failed command
create r =
    unless_failed r.base
      (deref r.target λ t. deref r.target_origin λ o. deref r.region λ g. created (command r t o g))

unfoldable pub build :
    ℕ
    → ℕ
    → Queue
    → Option MemObject
    → Option ℕ
    → Bool
    → Option Triple
    → Option Triple
    → ℕ
    → ℕ
    → ℕ
    → Option (ℕ → Option Event)
    → Created Command
unfolding new set_blocking set_copy_area set_wait_list create
build row0 slice0 q img source blocking origin region row slice n evs = create (
    set_wait_list n evs (
      set_copy_area origin region row slice (set_blocking blocking (new row0 slice0 q img source))))
