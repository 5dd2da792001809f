-- ===== src/Builder/CopyImage.antt =====
-- EnqueueCopyImageBuilder and EnqueueCopyImage (lib/Core/Command.cpp), with the chain of calls in
-- clEnqueueCopyImage (tools/libOpenCRun/EnqueueCommand.cpp).
use open_crun.Prelude.{ℕ, ◌||◌, not, List, Option, none, some, if◌then◌else◌, ◌==◌}
use open_crun.Builder.{
  Builder, Image, Queue, MemObject, buffer, image, Event, Created, created, failed,
  null_dereference, new_builder, notify_error, unrestricted, set_checked_wait_list, invalid_value,
  invalid_mem_object, invalid_context, image_format_mismatch, size_mul, deref, unless_failed,
}
use open_crun.Builder.ImageChecks.{
  Triple, has_zero, is_valid_img_region, check_image, check_support, offset_in,
}

pub record CopyImage : Type 0 where
  pub base : Builder
  pub target : Option Image
  pub source : Option Image
  pub target_origin : Option Triple
  pub source_origin : Option Triple
  pub region : Option Triple

-- The width of the region is in bytes.
pub record Command : Type 0 where
  pub target : Image
  pub source : Image
  pub target_origin : Triple
  pub source_origin : Triple
  pub region : Triple
  pub target_offset : ℕ
  pub source_offset : ℕ
  pub wait_list : List Event

-- The formats are compared through the pointer to the target, which may be null.
unfoldable pub check_formats : Queue → Option Image → Image → Builder → Created Builder
unfolding notify_error
check_formats q target s b =
    if not (q.context == s.context) then created (notify_error invalid_context b) else elim target [
      | none ↦ null_dereference
      | some t ↦
          if not (s.channel_order == t.channel_order)
            || not (s.channel_data_type == t.channel_data_type)
          then created (notify_error image_format_mismatch b)
          else created b
    ]

unfoldable pub check_source :
    Queue → Option Image → Option MemObject → Builder → Created (Option Image × Builder)
unfolding notify_error check_formats
check_source q target none b = created (none, notify_error invalid_mem_object b)
check_source q target (some (buffer s)) b = created (none, notify_error invalid_mem_object b)
check_source q target (some (image s)) b = elim (check_formats q target s b) [
  | created b' ↦ created (some s, b')
  | failed e ↦ failed e
  | null_dereference ↦ null_dereference
]

unfoldable pub with_images : Queue → Option Image → Option Image → Builder → CopyImage
unfolding check_support
with_images q t s b = record {
  base = check_support q s (check_support q t b);
  target = t;
  source = s;
  target_origin = none;
  source_origin = none;
  region = none;
}

unfoldable pub new : Queue → Option MemObject → Option MemObject → Created CopyImage
unfolding new_builder check_image check_source with_images
new q target source =
    let (t, b) = check_image unrestricted q target (new_builder q) in
    elim (check_source q t source b) [
      | created (s, b') ↦ created (with_images q t s b')
      | failed e ↦ failed e
      | null_dereference ↦ null_dereference
    ]

unfoldable pub reject : CopyImage → CopyImage
unfolding notify_error
reject r = record r { base = notify_error invalid_value r.base }

unfoldable pub set_region : Image → Image → Triple → Triple → Triple → CopyImage → CopyImage
unfolding has_zero reject is_valid_img_region
set_region t s ot os g r =
    if has_zero g
    then reject r
    else (let (valid, b) = is_valid_img_region t ot g r.base in
        if not valid
        then record r { base = b }
        else (let (valid', b') = is_valid_img_region s os g b in
            if not valid' then record r { base = b' } else record r {
              base = b';
              region = some g;
              target_origin = some ot;
              source_origin = some os;
            }))

unfoldable pub set_origins :
    Image → Image → Option Triple → Option Triple → Option Triple → CopyImage → CopyImage
unfolding reject set_region
set_origins t s none source_origin region r = reject r
set_origins t s (some ot) none region r = reject r
set_origins t s (some ot) (some os) none r = reject r
set_origins t s (some ot) (some os) (some g) r = set_region t s ot os g r

unfoldable pub set_copy_area : Option Triple → Option Triple → Option Triple → CopyImage → CopyImage
unfolding set_origins
set_copy_area target_origin source_origin region r = elim r.target [
  | none ↦ r
  | some t ↦ elim r.source [
    | none ↦ r
    | some s ↦ set_origins t s target_origin source_origin region r
  ]
]

unfoldable pub set_wait_list : ℕ → Option (ℕ → Option Event) → CopyImage → CopyImage
unfolding set_checked_wait_list
set_wait_list n evs r = record r { base = set_checked_wait_list n evs r.base }

-- EnqueueCopyImage
unfoldable pub command : CopyImage → Image → Image → Triple → Triple → Triple → Command
unfolding size_mul offset_in
command r t s ot os g = record {
  target = t;
  source = s;
  target_origin = ot;
  source_origin = os;
  region = record { x = size_mul g.x t.element_size; y = g.y; z = g.z };
  target_offset = offset_in t ot;
  source_offset = offset_in s os;
  wait_list = r.base.wait_list;
}

unfoldable pub create : CopyImage → Created Command
unfolding deref unless_failed command
create r = unless_failed r.base (
    deref r.target λ t. deref r.source λ s.
      deref r.target_origin
        λ ot. deref r.source_origin λ os. deref r.region λ g. created (command r t s ot os g))
