-- ===== src/Objects/Images.antt =====
-- MemoryObjectBuilder::setImage (lib/Core/MemoryObject.cpp) and clCreateImage
-- (tools/libOpenCRun/MemoryObject.cpp). The element size of a valid format is not 0.
use open_crun.Prelude.{
  ℕ, ◌/◌, ◌%◌, Bool, true, false, not, ◌&&◌, ◌||◌, List, Option, none, some, ◌⊎◌, inl, inr,
  if◌then◌else◌, ◌==◌, ltb, leb,
}
use open_crun.Builder.{
  Buffer, ImageType, image1d, image1d_array, image1d_buffer, image2d, image2d_array, image3d,
  ErrorCode, size_mul, invalid_image_size, image_format_not_supported,
  invalid_image_format_descriptor, invalid_image_descriptor,
}
use open_crun.Objects.Formats.{ImageFormat, is_format, element_size, Limits, no_limits, limits}
use open_crun.Objects.{
  Outcome, done, null_context, assertion_failed, ◌>>=◌, Context, ImageFields, ObjectBuilder,
  is_null, k_image, new, error, set_context, set_generic_flags,
}
use open_crun.Objects.Making.{Answer, Object, create}
use open_crun.Objects.Regions.{Handle, a_buffer, an_image}

-- A type that is none of the six is none.
pub record ImageDesc : Type 0 where
  pub image_type : Option ImageType
  pub image_width : ℕ
  pub image_height : ℕ
  pub image_depth : ℕ
  pub image_array_size : ℕ
  pub image_row_pitch : ℕ
  pub image_slice_pitch : ℕ
  pub num_mip_levels : ℕ
  pub num_samples : ℕ
  pub buffer : Option Handle

-- The cast of the buffer of a one-dimensional image.
unfoldable pub cast_buffer : Option Handle → Outcome (Option Buffer)
cast_buffer none = done none
cast_buffer (some (a_buffer p)) = done (some p.buffer)
cast_buffer (some an_image) = assertion_failed

-- The sizes, by the type of the image; the rest of the fields is kept.
unfoldable pub shape_1d :
    Bool → Bool → Limits → ℕ → ImageDesc → ImageFields → Outcome (ErrorCode ⊎ ImageFields)
unfolding cast_buffer
shape_1d over_buffer is_array l element d img =
    if d.image_width == 0
    then done (inl invalid_image_descriptor)
    else if leb (l.buffer_size / element) d.image_width
    then done (inl invalid_image_size)
    else if over_buffer && is_null d.buffer
    then done (inl invalid_image_descriptor)
    else if not over_buffer && not (is_null d.buffer)
    then done (inl invalid_image_descriptor)
    else (cast_buffer d.buffer >>= λ buf.
        if is_array && d.image_array_size == 0
        then done (inl invalid_image_descriptor)
        else if is_array && leb l.array_size d.image_array_size
        then done (inl invalid_image_descriptor)
        else done (
            inr (record img {
              width = d.image_width;
              height = 0;
              depth = 0;
              array_size = if is_array then d.image_array_size else 0;
              buf = buf;
            })))

unfoldable pub shape_2d :
    Bool → Limits → ImageDesc → ImageFields → Outcome (ErrorCode ⊎ ImageFields)
shape_2d is_array l d img =
    if d.image_width == 0
    then done (inl invalid_image_descriptor)
    else if leb l.width_2d d.image_width
    then done (inl invalid_image_size)
    else if d.image_height == 0
    then done (inl invalid_image_descriptor)
    else if leb l.height_2d d.image_height
    then done (inl invalid_image_size)
    else if not (is_null d.buffer)
    then done (inl invalid_image_descriptor)
    else if is_array && d.image_array_size == 0
    then done (inl invalid_image_descriptor)
    else if is_array && leb l.array_size d.image_array_size
    then done (inl invalid_image_descriptor)
    else done (
        inr (record img {
          width = d.image_width;
          height = d.image_height;
          depth = 0;
          array_size = if is_array then d.image_array_size else 0;
        }))

unfoldable pub shape_3d : Limits → ImageDesc → ImageFields → Outcome (ErrorCode ⊎ ImageFields)
shape_3d l d img =
    if d.image_width == 0
    then done (inl invalid_image_descriptor)
    else if leb l.width_3d d.image_width
    then done (inl invalid_image_size)
    else if d.image_height == 0
    then done (inl invalid_image_descriptor)
    else if leb l.height_3d d.image_height
    then done (inl invalid_image_size)
    else if d.image_depth == 0
    then done (inl invalid_image_descriptor)
    else if leb l.depth_3d d.image_depth
    then done (inl invalid_image_size)
    else if not (is_null d.buffer)
    then done (inl invalid_image_descriptor)
    else done (
        inr (record img {
          width = d.image_width;
          height = d.image_height;
          depth = d.image_depth;
          array_size = 0;
        }))

unfoldable pub shape :
    ImageType → Limits → ℕ → ImageDesc → ImageFields → Outcome (ErrorCode ⊎ ImageFields)
unfolding shape_1d shape_2d shape_3d
shape image1d l element d img = shape_1d false false l element d img
shape image1d_buffer l element d img = shape_1d true false l element d img
shape image1d_array l element d img = shape_1d false true l element d img
shape image2d l element d img = shape_2d false l d img
shape image2d_array l element d img = shape_2d true l d img
shape image3d l element d img = shape_3d l d img

abbrev pub requires_slice_pitch : ImageType → Bool
requires_slice_pitch image1d_array = true
requires_slice_pitch image2d_array = true
requires_slice_pitch image3d = true
requires_slice_pitch _ = false

-- The pitches. Only the second branch is for a host pointer, and its divisors are not 0.
unfoldable pub pitches : Bool → ℕ → ImageDesc → Option ℕ → ImageFields → ErrorCode ⊎ ImageFields
unfolding size_mul
pitches with_slices element d none img =
    if not (d.image_row_pitch == 0)
    then inl invalid_image_descriptor
    else if with_slices && not (d.image_slice_pitch == 0)
    then inl invalid_image_descriptor
    else (let row = size_mul img.width element in
        inr (record img {
          row_pitch = row;
          slice_pitch = if with_slices then size_mul row img.height else img.slice_pitch;
        }))
pitches with_slices element d (some ptr) img =
    let least_row = size_mul img.width element in
    let row = if d.image_row_pitch == 0 then least_row else d.image_row_pitch in
    let least_slice = size_mul row img.height in
    let slice = if d.image_slice_pitch == 0 then least_slice else d.image_slice_pitch in
    if ltb row least_row || not (row % element == 0)
    then inl invalid_image_descriptor
    else if with_slices && (ltb slice least_slice || not (slice % row == 0))
    then inl invalid_image_descriptor
    else inr (record img {
      row_pitch = row;
      slice_pitch = if with_slices then slice else img.slice_pitch;
    })

unfoldable pub image_size : ImageType → ImageFields → ℕ
unfolding size_mul
image_size image1d img = img.row_pitch
image_size image1d_buffer img = img.row_pitch
image_size image1d_array img = size_mul img.row_pitch img.array_size
image_size image2d img = size_mul img.row_pitch img.height
image_size image2d_array img = size_mul (size_mul img.row_pitch img.slice_pitch) img.array_size
image_size image3d img = size_mul (size_mul img.row_pitch img.slice_pitch) img.depth

-- From the type of the image on.
unfoldable pub set_typed :
    ImageType → ℕ → ImageDesc → ImageFields → ObjectBuilder → Outcome ObjectBuilder
unfolding error
set_typed ty element d img b =
    let typed = record img { ty = some ty } in
    elim (pitches (requires_slice_pitch ty) element d b.host_ptr typed) [
      | inl e ↦ error e (record b { img = typed })
      | inr pitched ↦ done (record b { img = record pitched { size = image_size ty pitched } })
    ]

unfoldable pub set_by_type :
    Option ImageType → Limits → ℕ → ImageDesc → ObjectBuilder → Outcome ObjectBuilder
unfolding error
set_by_type none l element d b = error invalid_image_descriptor b
set_by_type (some ty) l element d b = shape ty l element d b.img >>= λ r. elim r [
  | inl e ↦ error e b
  | inr img ↦ set_typed ty element d img b
]

unfoldable pub set_shape : Limits → ImageFormat → ImageDesc → ObjectBuilder → Outcome ObjectBuilder
unfolding set_by_type error
set_shape l f d b =
    if l.supported == 0
    then error image_format_not_supported b
    else set_by_type d.image_type l (element_size f) d b

-- The devices of the context are asked.
unfoldable pub set_for_devices :
    Option Context → ImageFormat → ImageDesc → ObjectBuilder → Outcome ObjectBuilder
unfolding set_shape
set_for_devices none f d b = null_context
set_for_devices (some c) f d b = set_shape (limits f c.devices no_limits) f d b

unfoldable pub set_described :
    ImageFormat → Option ImageDesc → ObjectBuilder → Outcome ObjectBuilder
unfolding set_for_devices error
set_described f none b = error invalid_image_descriptor b
set_described f (some d) b =
    if not (d.num_mip_levels == 0)
    then error invalid_image_descriptor b
    else if not (d.num_samples == 0)
    then error invalid_image_descriptor b
    else set_for_devices b.context f d b

unfoldable pub set_image :
    Option ImageFormat → Option ImageDesc → ObjectBuilder → Outcome ObjectBuilder
unfolding error
set_image none desc b = error invalid_image_format_descriptor b
set_image (some f) desc b =
    if not (is_format f)
    then error invalid_image_format_descriptor b
    else set_described f desc (record b {
      img = record b.img {
        channel_order = f.channel_order;
        channel_data_type = f.channel_data_type;
      };
    })

-- clCreateImage
unfoldable pub create_image :
    Option Context
    → ℕ
    → Option ImageFormat
    → Option ImageDesc
    → Option ℕ
    → List Answer
    → Outcome (Option Object × ErrorCode)
unfolding new set_context
create_image ctx flags fmt desc ptr answers = do
  b ← set_context ctx (new k_image)
  b' ← set_image fmt desc b
  b'' ← set_generic_flags flags ptr b'
  create answers b''
