-- ===== src/Builder/MapImage.antt =====
-- EnqueueMapImageBuilder and its command (lib/Core/Command.cpp), with the chain of calls in
-- clEnqueueMapImage (tools/libOpenCRun/EnqueueCommand.cpp). The address of the mapping is what
-- acquireMappingAddrFor returns. What the source leaves uninitialised holds any value: the pitches of a
-- new builder, and the second and third axes of the mapping of an image over a buffer, which has one.
pub mod Pitches
use open_crun.Prelude.{
  ℕ, Bool, true, false, ◌&&◌, ◌||◌, not, List, Option, none, some, if◌then◌else◌, has,
}
use open_crun.Builder.{
  Builder, Image, ImageType, image1d_array, image1d_buffer, image2d_array, image3d, Queue,
  MemObject, Event, Created, created, failed, null_dereference, new_builder, notify_error,
  unrestricted, no_host_read, no_host_write, ErrorCode, is_wait_list_inconsistent,
  set_blocking_wait_list, exec_status_error, invalid_value, invalid_operation, map_failure,
  size_mul, deref, unless_failed,
}
use open_crun.Builder.ImageChecks.{
  Triple, has_zero, is_valid_img_region, check_image, check_support,
}
use open_crun.Builder.MapBuffer.{map_read, map_write, map_write_invalidate_region, mapped_object}
use open_crun.Mapping.{MemoryObject, own, MemMappingInfo, Span, Tables, add_mapping}
use open_crun.Mapping

pub record MapImage : Type 0 where
  pub base : Builder
  pub source : Option Image
  pub blocking : Bool
  pub map_flags : ℕ
  pub origin : Option Triple
  pub region : Option Triple
  pub map_buf : Option ℕ
  pub row_pitch : ℕ
  pub slice_pitch : ℕ

-- The width of the region is in bytes.
pub record Command : Type 0 where
  pub source : Image
  pub blocking : Bool
  pub map_flags : ℕ
  pub origin : Triple
  pub region : Triple
  pub map_buf : Option ℕ
  pub row_pitch : ℕ
  pub slice_pitch : ℕ
  pub wait_list : List Event

unfoldable pub new : ℕ → ℕ → Queue → Option MemObject → MapImage
unfolding new_builder check_image check_support
new row0 slice0 q img =
    let (source, b) = check_image unrestricted q img (new_builder q) in
    record {
      base = check_support q source b;
      source = source;
      blocking = false;
      map_flags = 0;
      origin = none;
      region = none;
      map_buf = none;
      row_pitch = row0;
      slice_pitch = slice0;
    }

unfoldable pub reject : ErrorCode → MapImage → MapImage
unfolding notify_error
reject e r = record r { base = notify_error e r.base }

unfoldable pub set_blocking : Bool → MapImage → MapImage
unfolding is_wait_list_inconsistent reject
set_blocking blocking r =
    if blocking && is_wait_list_inconsistent r.base
    then reject exec_status_error r
    else record r { blocking = blocking }

unfoldable pub check_flags : Image → ℕ → MapImage → MapImage
unfolding reject
check_flags s flags r =
    if has flags map_read && has flags map_write_invalidate_region
    then reject invalid_value r
    else if has flags map_read && no_host_read s.flags
    then reject invalid_operation r
    else if has flags map_write && has flags map_write_invalidate_region
    then reject invalid_value r
    else if has flags map_write && no_host_write s.flags
    then reject invalid_operation r
    else if has flags map_write_invalidate_region && (has flags map_read || has flags map_write)
    then reject invalid_value r
    else if has flags map_write_invalidate_region && no_host_write s.flags
    then reject invalid_operation r
    else record r { map_flags = flags }

unfoldable pub set_map_flags : ℕ → MapImage → MapImage
unfolding check_flags
set_map_flags flags r = elim r.source [ none ↦ r | some s ↦ check_flags s flags r ]

unfoldable pub set_region : Image → Triple → Triple → MapImage → MapImage
unfolding has_zero reject is_valid_img_region
set_region s o g r =
    if has_zero g
    then reject invalid_value r
    else (let (valid, b) = is_valid_img_region s o g r.base in
        if not valid then record r { base = b } else record r { base = b; region = some g })

unfoldable pub set_given : Image → Option Triple → Option Triple → MapImage → MapImage
unfolding reject set_region
set_given s none region r = reject invalid_value r
set_given s (some o) none r = reject invalid_value (record r { origin = some o })
set_given s (some o) (some g) r = set_region s o g (record r { origin = some o })

unfoldable pub set_map_area : Option Triple → Option Triple → MapImage → MapImage
unfolding set_given
set_map_area origin region r = elim r.source [ none ↦ r | some s ↦ set_given s origin region r ]

abbrev pub has_slices : ImageType → Bool
has_slices image1d_array = true
has_slices image2d_array = true
has_slices image3d = true
has_slices _ = false

-- What the pitch pointers of the caller point to.
abbrev pub Pitches : Type 0
Pitches = Option ℕ × Option ℕ

-- The slice pitch is written whatever the type of the image is.
unfoldable pub set_pitches : Image → Pitches → MapImage → Created (MapImage × Pitches)
unfolding reject
set_pitches s (none, slice) r = created (reject invalid_value r, (none, slice))
set_pitches s (some p, none) r =
    if has_slices s.ty then created (reject invalid_value r, (some p, none)) else null_dereference
set_pitches s (some p, some q) r = created (
  record r { row_pitch = s.row_pitch; slice_pitch = s.slice_pitch },
  (some s.row_pitch, some s.slice_pitch),
)

unfoldable pub set_map_pitches : Pitches → MapImage → Created (MapImage × Pitches)
unfolding set_pitches
set_map_pitches pitches r = elim r.source [
  | none ↦ created (r, pitches)
  | some s ↦ elim r.region [ none ↦ created (r, pitches) | some g ↦ set_pitches s pitches r ]
]

-- The object whose table an image uses.
unfoldable pub mapped_image : Image → MemoryObject
unfolding mapped_object
mapped_image s = elim s.ty [
  | image1d_buffer ↦ elim s.buf [
    | none ↦ own s.id
    | some b ↦ Mapping.image1d_buffer s.id (mapped_object b)
  ]
  | _ ↦ own s.id
]

unfoldable pub map_info : Image → Triple → Triple → Span → Span → ℕ → MemMappingInfo
unfolding size_mul
map_info s o g y z flags = elim s.ty [
  | image1d_buffer ↦ record {
    x = record { offset = size_mul o.x s.element_size; size = size_mul g.x s.element_size };
    y = y;
    z = z;
    flags = flags;
  }
  | _ ↦ record {
    x = record { offset = o.x; size = g.x };
    y = record { offset = o.y; size = g.y };
    z = record { offset = o.z; size = g.z };
    flags = flags;
  }
]

unfoldable pub map_at :
    Image → Triple → Triple → Option ℕ → Span → Span → MapImage → Tables → MapImage × Tables
unfolding mapped_image map_info reject
map_at s o g ptr y z r t =
    let (t', ok) = add_mapping (mapped_image s) ptr (map_info s o g y z r.map_flags) t in
    if ok then (record r { map_buf = ptr }, t') else (reject map_failure r, t')

unfoldable pub set_map_buffer : Option ℕ → Span → Span → MapImage → Tables → MapImage × Tables
unfolding map_at
set_map_buffer ptr y z r t = elim r.source [
  | none ↦ (r, t)
  | some s ↦ elim r.origin [
    | none ↦ (r, t)
    | some o ↦ elim r.region [ none ↦ (r, t) | some g ↦ map_at s o g ptr y z r t ]
  ]
]

unfoldable pub set_wait_list : ℕ → Option (ℕ → Option Event) → MapImage → MapImage
unfolding set_blocking_wait_list
set_wait_list n evs r = record r { base = set_blocking_wait_list r.blocking n evs r.base }

-- EnqueueMapImage
unfoldable pub command : MapImage → Image → Triple → Triple → Command
unfolding size_mul
command r s o g = record {
  source = s;
  blocking = r.blocking;
  map_flags = r.map_flags;
  origin = o;
  region = record { x = size_mul g.x s.element_size; y = g.y; z = g.z };
  map_buf = r.map_buf;
  row_pitch = r.row_pitch;
  slice_pitch = r.slice_pitch;
  wait_list = r.base.wait_list;
}

unfoldable pub create : MapImage → Created Command
unfolding deref unless_failed command
create r =
    unless_failed r.base
      (deref r.source λ s. deref r.origin λ o. deref r.region λ g. created (command r s o g))

-- The arguments of a call, with the address of the mapping and what is uninitialised.
pub record Call : Type 0 where
  pub queue : Queue
  pub img : Option MemObject
  pub blocking : Bool
  pub flags : ℕ
  pub pitches : Pitches
  pub origin : Option Triple
  pub region : Option Triple
  pub address : Option ℕ
  pub wait_size : ℕ
  pub waits : Option (ℕ → Option Event)
  pub row0 : ℕ
  pub slice0 : ℕ
  pub y0 : Span
  pub z0 : Span

-- The end of the chain of calls, after SetMapPitches.
unfoldable pub finish : Call → MapImage → Tables → Created Command × Tables
unfolding set_map_area set_map_buffer set_wait_list create
finish a r t =
    let (r', t') = set_map_buffer a.address a.y0 a.z0 (set_map_area a.origin a.region r) t in
    (create (set_wait_list a.wait_size a.waits r'), t')

-- The chain of calls of clEnqueueMapImage, with the tables of mappings and the pitches of the caller
-- that it leaves.
unfoldable pub build : Call → Tables → Created Command × Tables × Pitches
unfolding new set_blocking set_map_flags set_map_pitches finish
build a t =
    elim (set_map_pitches a.pitches
      (set_map_flags a.flags (set_blocking a.blocking (new a.row0 a.slice0 a.queue a.img)))) [
        | created (r, pitches) ↦ let (c, t') = finish a r t in (c, t', pitches)
        | failed e ↦ (failed e, t, a.pitches)
        | null_dereference ↦ (null_dereference, t, a.pitches)
      ]
