-- ===== src/Builder/ImageBuffers.antt =====
-- What EnqueueCopyImageToBufferBuilder and EnqueueCopyBufferToImageBuilder share (lib/Core/Command.cpp).
-- The two classes have the same checks in the same order and differ in which object is the target.
pub mod Accepted
pub mod Valid
use open_crun.Prelude.{
  ℕ, Bool, true, false, not, List, Option, none, some, if◌then◌else◌, ◌==◌, ltb,
}
use open_crun.Builder.{
  Builder, Buffer, Image, ImageType, image1d_buffer, Queue, MemObject, buffer, image, Event,
  new_builder, notify_error, unrestricted, check_buffer, set_checked_wait_list, invalid_value,
  invalid_mem_object, invalid_context, size_add, size_mul,
}
use open_crun.Builder.ImageChecks.{Triple, has_zero, is_valid_img_region, check_support}

-- The origin and the region are in the image, the offset is in the buffer.
pub record Copying : Type 0 where
  pub base : Builder
  pub buf : Option Buffer
  pub img : Option Image
  pub origin : Option Triple
  pub region : Option Triple
  pub offset : ℕ

unfoldable pub same_buffer : Option Buffer → Option Buffer → Bool
same_buffer none none = true
same_buffer (some a) (some b) = a.id == b.id
same_buffer _ _ = false

unfoldable pub is_over : Image → Option Buffer → Bool
unfolding same_buffer
is_over i s = elim i.ty [ image1d_buffer ↦ same_buffer i.buf s | _ ↦ false ]

unfoldable pub check_image_beside :
    Queue → Option Buffer → Option MemObject → Builder → Option Image × Builder
unfolding is_over notify_error
check_image_beside q s none b = (none, notify_error invalid_mem_object b)
check_image_beside q s (some (buffer t)) b = (none, notify_error invalid_mem_object b)
check_image_beside q s (some (image i)) b = (
  some i,
  if is_over i s
      then notify_error invalid_mem_object b
      else if not (q.context == i.context)
      then notify_error invalid_context b
      else b,
)

-- The constructors.
unfoldable pub start : Queue → Option MemObject → Option MemObject → Copying
unfolding new_builder check_buffer check_image_beside check_support
start q buf img =
    let (s, b) = check_buffer unrestricted q buf (new_builder q) in
    let (i, b') = check_image_beside q s img b in
    record {
      base = check_support q i b';
      buf = s;
      img = i;
      origin = none;
      region = none;
      offset = 0;
    }

unfoldable pub reject : Copying → Copying
unfolding notify_error
reject r = record r { base = notify_error invalid_value r.base }

-- The bytes of a region.
unfoldable pub bytes_of : Image → Triple → ℕ
unfolding size_mul
bytes_of i g = size_mul (size_mul (size_mul g.x g.y) g.z) i.element_size

unfoldable pub check_bytes : Buffer → Image → ℕ → Triple → Copying → Copying
unfolding bytes_of size_add reject
check_bytes s i offset g r =
    if ltb s.size (size_add offset (bytes_of i g)) then reject r else record r { offset = offset }

unfoldable pub place_in : Buffer → Image → ℕ → Triple → Triple → Copying → Copying
unfolding has_zero reject is_valid_img_region check_bytes
place_in s i offset o g r =
    if has_zero g
    then reject r
    else (let (valid, b) = is_valid_img_region i o g r.base in
        if not valid
        then record r { base = b }
        else check_bytes s i offset g (record r { base = b; region = some g; origin = some o }))

unfoldable pub place_given : Buffer → Image → ℕ → Option Triple → Option Triple → Copying → Copying
unfolding reject place_in
place_given s i offset none region r = reject r
place_given s i offset (some o) none r = reject r
place_given s i offset (some o) (some g) r = place_in s i offset o g r

-- The methods SetCopyArea.
unfoldable pub place : ℕ → Option Triple → Option Triple → Copying → Copying
unfolding place_given
place offset origin region r = elim r.buf [
  | none ↦ r
  | some s ↦ elim r.img [ none ↦ r | some i ↦ place_given s i offset origin region r ]
]

unfoldable pub wait : ℕ → Option (ℕ → Option Event) → Copying → Copying
unfolding set_checked_wait_list
wait n evs r = record r { base = set_checked_wait_list n evs r.base }
