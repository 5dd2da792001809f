-- ===== src/Builder/FillImage.antt =====
-- EnqueueFillImageBuilder and its command (lib/Core/Command.cpp), with the chain of calls in
-- clEnqueueFillImage (tools/libOpenCRun/EnqueueCommand.cpp). A pointer to a fill color is what it points to.
pub mod Accepted
use open_crun.Prelude.{ℕ, not, List, Option, none, some, if◌then◌else◌}
use open_crun.Builder.{
  Builder, Image, Queue, MemObject, Event, Created, created, new_builder, notify_error,
  unrestricted, set_checked_wait_list, invalid_value, size_mul, deref, unless_failed,
}
use open_crun.Builder.ImageChecks.{
  Triple, has_zero, is_valid_img_region, check_image, check_support, offset_in,
}

-- The 16 bytes of four components.
abbrev pub Color : Type 0
Color = List ℕ

pub record FillImage : Type 0 where
  pub base : Builder
  pub target : Option Image
  pub source : Option Color
  pub target_origin : Option Triple
  pub target_region : Option Triple

-- The color is a copy. The width of the region is in bytes.
pub record Command : Type 0 where
  pub target : Image
  pub source : Color
  pub target_origin : Triple
  pub target_region : Triple
  pub target_offset : ℕ
  pub wait_list : List Event

unfoldable pub check_color : Option Color → Builder → Builder
unfolding notify_error
check_color none b = notify_error invalid_value b
check_color (some c) b = b

unfoldable pub new : Queue → Option MemObject → Option Color → FillImage
unfolding new_builder check_image check_color check_support
new q img color =
    let (t, b) = check_image unrestricted q img (new_builder q) in
    record {
      base = check_support q t (check_color color b);
      target = t;
      source = color;
      target_origin = none;
      target_region = none;
    }

unfoldable pub reject : FillImage → FillImage
unfolding notify_error
reject r = record r { base = notify_error invalid_value r.base }

unfoldable pub set_region : Image → Triple → Triple → FillImage → FillImage
unfolding has_zero reject is_valid_img_region
set_region t o g r =
    if has_zero g
    then reject r
    else (let (valid, b) = is_valid_img_region t o g r.base in
        if not valid then record r { base = b } else record r { base = b; target_region = some g })

unfoldable pub set_given : Image → Option Triple → Option Triple → FillImage → FillImage
unfolding reject set_region
set_given t none region r = reject r
set_given t (some o) none r = reject (record r { target_origin = some o })
set_given t (some o) (some g) r = set_region t o g (record r { target_origin = some o })

unfoldable pub set_fill_region : Option Triple → Option Triple → FillImage → FillImage
unfolding set_given
set_fill_region origin region r = elim r.target [ none ↦ r | some t ↦ set_given t origin region r ]

unfoldable pub set_wait_list : ℕ → Option (ℕ → Option Event) → FillImage → FillImage
unfolding set_checked_wait_list
set_wait_list n evs r = record r { base = set_checked_wait_list n evs r.base }

-- EnqueueFillImage
unfoldable pub command : FillImage → Image → Color → Triple → Triple → Command
unfolding size_mul offset_in
command r t color o g = record {
  target = t;
  source = color;
  target_origin = o;
  target_region = record { x = size_mul g.x t.element_size; y = g.y; z = g.z };
  target_offset = offset_in t o;
  wait_list = r.base.wait_list;
}

unfoldable pub create : FillImage → Created Command
unfolding deref unless_failed command
create r = unless_failed r.base (
    deref r.target λ t. deref r.source λ color.
      deref r.target_origin λ o. deref r.target_region λ g. created (command r t color o g))

unfoldable pub build :
    Queue
    → Option MemObject
    → Option Color
    → Option Triple
    → Option Triple
    → ℕ
    → Option (ℕ → Option Event)
    → Created Command
unfolding new set_fill_region set_wait_list create
build q img color origin region n evs =
    create (set_wait_list n evs (set_fill_region origin region (new q img color)))
