-- ===== src/Objects/ImageLimits/Devices.antt =====
-- The limits of a format are those of every device that supports it (lib/Core/MemoryObject.cpp).
use open_crun.Prelude.{
  ℕ, ◌+◌, ◌*◌, ◌/◌, ◌≤◌, ◌<◌, ◌≡◌, refl, subst, Bool, true, false, List, [], ◌∷◌, Option, All,
  arith, if◌then◌else◌, Bool-cases, inl, inr, ◌⊎◌, leb, ◌==◌, ◌&&◌,
}
use native.Mathlib.Nat.{le-div_iff_mul-le, div-zero}
use open_crun.Builder.{
  Device, ImageType, image1d, image1d_array, image1d_buffer, image2d, image2d_array, image3d,
  ErrorCode, Buffer, is_success, invalid_image_descriptor, invalid_image_size,
}
use open_crun.Objects.{ImageFields, Outcome, done, ◌>>=◌, null_context, assertion_failed}
use open_crun.Objects.Formats.{ImageFormat, Limits, add_limits, limits}
use open_crun.Objects.Images.{ImageDesc, shape, shape_1d, shape_2d, shape_3d}

abbrev pub supports : ImageFormat → Device → Bool
supports f dev = dev.supports_format f.channel_order f.channel_data_type

-- Field by field, no more than another.
record Below (k l : Limits) : Type 0 where
  pub width_2d : k.width_2d ≤ l.width_2d
  pub height_2d : k.height_2d ≤ l.height_2d
  pub width_3d : k.width_3d ≤ l.width_3d
  pub height_3d : k.height_3d ≤ l.height_3d
  pub depth_3d : k.depth_3d ≤ l.depth_3d
  pub buffer_size : k.buffer_size ≤ l.buffer_size
  pub array_size : k.array_size ≤ l.array_size

-- The limits of a format are at most those of a device; that of the depth is at most the largest
-- height.
pub record Within (k : Limits) (dev : Device) : Type 0 where
  pub width_2d : k.width_2d ≤ dev.image2d_max_width
  pub height_2d : k.height_2d ≤ dev.image2d_max_height
  pub width_3d : k.width_3d ≤ dev.image3d_max_width
  pub height_3d : k.height_3d ≤ dev.image3d_max_height
  pub depth_3d : k.depth_3d ≤ dev.image3d_max_height
  pub buffer_size : k.buffer_size ≤ dev.image_max_buffer_size
  pub array_size : k.array_size ≤ dev.image_max_array_size

limits-Below : (f : ImageFormat) (ds : List Device) (l : Limits) → Below (limits f ds l) l
unfolding limits
limits-Below f [] l = ground arith
limits-Below f (d ∷ ds) l = elim (Bool-cases (supports f d)) [
  | inl yes_it ↦ rw yes_it (ground (arith, limits-Below f ds (add_limits d l)))
  | inr not_it ↦ rw not_it (limits-Below f ds l)
]

pub limits-Within :
    (f : ImageFormat) (ds : List Device) (l : Limits)
    → All (λ dev. supports f dev ≡ true → Within (limits f ds l) dev) ds
unfolding limits
limits-Within f [] l = tt
limits-Within f (d ∷ ds) l = (
  λ yes_it. rw yes_it (ground (arith, limits-Below f ds (add_limits d l))),
  limits-Within f ds (if supports f d then add_limits d l else l),
)

-- What setImage compares of a description with the limits of a device: of a 1D image only the bytes
-- of a row, of a 3D image the depth with the largest height.
abbrev pub Fits : ImageType → ℕ → ImageDesc → Device → Type 0
Fits image1d element d dev = d.image_width * element + element ≤ dev.image_max_buffer_size
Fits image1d_buffer element d dev = d.image_width * element + element ≤ dev.image_max_buffer_size
Fits image1d_array element d dev =
    (d.image_width * element + element ≤ dev.image_max_buffer_size)
    × (d.image_array_size < dev.image_max_array_size)
Fits image2d element d dev =
    (d.image_width < dev.image2d_max_width) × (d.image_height < dev.image2d_max_height)
Fits image2d_array element d dev =
    (d.image_width < dev.image2d_max_width)
    × (d.image_height < dev.image2d_max_height)
    × (d.image_array_size < dev.image_max_array_size)
Fits image3d element d dev =
    (d.image_width < dev.image3d_max_width)
    × (d.image_height < dev.image3d_max_height)
    × (d.image_depth < dev.image3d_max_height)

row_bound : (n e w : ℕ) → leb (n / e) w ≡ false → w * e + e ≤ n
row_bound n e w h = elim (Bool-cases (e == 0)) [
  | inl zero_size ↦
      let same : e ≡ 0 = ground arith in
      let none_fit : n / e ≡ 0 = rw same (div-zero n) in absurd (ground arith)
  | inr some_size ↦
      let below : w + 1 ≤ n / e = ground arith in
      let scaled = (le-div_iff_mul-le {k = e} {x = w + 1} {y = n} (ground arith)).0 below in
      grind arith
]

-- Every shape that is yielded is as described.
Yields : (ImageFields → Type 0) → Outcome (ErrorCode ⊎ ImageFields) → Type 0
Yields P (done (inr img)) = P img
Yields P (done (inl e)) = is_success e ≡ false
Yields P null_context = Unit
Yields P assertion_failed = Unit

module _ (P : ImageFields → Type 0) where
  Yields-if :
      (t : Bool) (x y : Outcome (ErrorCode ⊎ ImageFields))
      → Yields P x
      → (t ≡ false → Yields P y)
      → Yields P (if t then x else y)
  Yields-if true x y p q = p
  Yields-if false x y p q = q refl

  Yields-bind :
      (m : Outcome (Option Buffer)) (f : Option Buffer → Outcome (ErrorCode ⊎ ImageFields))
      → ((b : Option Buffer) → Yields P (f b))
      → Yields P (m >>= f)
  unfolding Yields
  Yields-bind (done b) f h = h b
  Yields-bind null_context f h = tt
  Yields-bind assertion_failed f h = tt

  Yields-descriptor : Yields P (done (inl invalid_image_descriptor))
  unfolding Yields is_success
  Yields-descriptor = refl

  Yields-size : Yields P (done (inl invalid_image_size))
  unfolding Yields is_success
  Yields-size = refl

  Yields-inr : (img : ImageFields) → P img → Yields P (done (inr img))
  unfolding Yields
  Yields-inr img p = p

abbrev Shaped1d : Bool → Limits → ℕ → ImageDesc → ImageFields → Type 0
Shaped1d is_array l element d img =
    (img.width ≡ d.image_width)
    × ((d.image_width == 0) ≡ false)
    × (leb (l.buffer_size / element) d.image_width ≡ false)
    × ((is_array && leb l.array_size d.image_array_size) ≡ false)

shape_1d-Yields :
    (over_buffer is_array : Bool) (l : Limits) (element : ℕ) (d : ImageDesc) (img : ImageFields)
    → Yields (Shaped1d is_array l element d) (shape_1d over_buffer is_array l element d img)
unfolding shape_1d
shape_1d-Yields over_buffer is_array l element d img =
    search
      (
        Yields-if (Shaped1d is_array l element d),
        Yields-bind (Shaped1d is_array l element d),
        Yields-descriptor (Shaped1d is_array l element d),
        Yields-size (Shaped1d is_array l element d),
        Yields-inr (Shaped1d is_array l element d),
      )
      depth 20

abbrev Shaped2d : Bool → Limits → ImageDesc → ImageFields → Type 0
Shaped2d is_array l d img =
    (img.width ≡ d.image_width)
    × ((d.image_width == 0) ≡ false)
    × (leb l.width_2d d.image_width ≡ false)
    × (leb l.height_2d d.image_height ≡ false)
    × ((is_array && leb l.array_size d.image_array_size) ≡ false)

shape_2d-Yields :
    (is_array : Bool) (l : Limits) (d : ImageDesc) (img : ImageFields)
    → Yields (Shaped2d is_array l d) (shape_2d is_array l d img)
unfolding shape_2d
shape_2d-Yields is_array l d img =
    search
      (
        Yields-if (Shaped2d is_array l d),
        Yields-descriptor (Shaped2d is_array l d),
        Yields-size (Shaped2d is_array l d),
        Yields-inr (Shaped2d is_array l d),
      )
      depth 20

abbrev Shaped3d : Limits → ImageDesc → ImageFields → Type 0
Shaped3d l d img =
    (img.width ≡ d.image_width)
    × ((d.image_width == 0) ≡ false)
    × (leb l.width_3d d.image_width ≡ false)
    × (leb l.height_3d d.image_height ≡ false)
    × (leb l.depth_3d d.image_depth ≡ false)

shape_3d-Yields :
    (l : Limits) (d : ImageDesc) (img : ImageFields) → Yields (Shaped3d l d) (shape_3d l d img)
unfolding shape_3d
shape_3d-Yields l d img =
    search
      (
        Yields-if (Shaped3d l d),
        Yields-descriptor (Shaped3d l d),
        Yields-size (Shaped3d l d),
        Yields-inr (Shaped3d l d),
      )
      depth 20

Yields-done :
    (P : ImageFields → Type 0) {r : Outcome (ErrorCode ⊎ ImageFields)} (img : ImageFields)
    → Yields P r
    → r ≡ done (inr img)
    → P img
unfolding Yields
Yields-done P img y e = subst (Yields P) e y

leb-false : {a b : ℕ} → leb a b ≡ false → b < a
leb-false h = ground arith

-- A shape that is accepted is within the limits of a device that it is compared with.
pub shape-Fits :
    (ty : ImageType) (l : Limits) (element : ℕ) (d : ImageDesc) (img : ImageFields)
    {img' : ImageFields}
    → shape ty l element d img ≡ done (inr img')
    → (img'.width ≡ d.image_width)
      × ((d.image_width == 0) ≡ false)
      × ((dev : Device) → Within l dev → Fits ty element d dev)
unfolding shape
shape-Fits image1d l element d img {img'} e =
    let (width, filled, row, short) =
      Yields-done (Shaped1d false l element d) img' (shape_1d-Yields false false l element d img)
        e in
    (
      width,
      filled,
      λ dev w. omega (arith, row_bound l.buffer_size element d.image_width row, w.buffer_size),
    )
shape-Fits image1d_buffer l element d img {img'} e =
    let (width, filled, row, short) =
      Yields-done (Shaped1d false l element d) img' (shape_1d-Yields true false l element d img)
        e in
    (
      width,
      filled,
      λ dev w. omega (arith, row_bound l.buffer_size element d.image_width row, w.buffer_size),
    )
shape-Fits image1d_array l element d img {img'} e =
    let (width, filled, row, short) =
      Yields-done (Shaped1d true l element d) img' (shape_1d-Yields false true l element d img) e in
    (
      width,
      filled,
      λ dev w. omega (
        arith,
        row_bound l.buffer_size element d.image_width row,
        w.buffer_size,
        leb-false short,
        w.array_size,
      ),
    )
shape-Fits image2d l element d img {img'} e =
    let (width, filled, wide, high, short) =
      Yields-done (Shaped2d false l d) img' (shape_2d-Yields false l d img) e in
    (width, filled, λ dev w. omega (arith, leb-false wide, leb-false high, w.width_2d, w.height_2d))
shape-Fits image2d_array l element d img {img'} e =
    let (width, filled, wide, high, short) =
      Yields-done (Shaped2d true l d) img' (shape_2d-Yields true l d img) e in
    (
      width,
      filled,
      λ dev w. omega (
        arith,
        leb-false wide,
        leb-false high,
        leb-false short,
        w.width_2d,
        w.height_2d,
        w.array_size,
      ),
    )
shape-Fits image3d l element d img {img'} e =
    let (width, filled, wide, high, deep) =
      Yields-done (Shaped3d l d) img' (shape_3d-Yields l d img) e in
    (
      width,
      filled,
      λ dev w. omega (
        arith,
        leb-false wide,
        leb-false high,
        leb-false deep,
        w.width_3d,
        w.height_3d,
        w.depth_3d,
      ),
    )

Yields-refused :
    (P : ImageFields → Type 0) {r : Outcome (ErrorCode ⊎ ImageFields)} (e : ErrorCode)
    → Yields P r
    → r ≡ done (inl e)
    → is_success e ≡ false
unfolding Yields
Yields-refused P e y h = subst (Yields P) h y

pub shape-error :
    (ty : ImageType) (l : Limits) (element : ℕ) (d : ImageDesc) (img : ImageFields) (e : ErrorCode)
    → shape ty l element d img ≡ done (inl e)
    → is_success e ≡ false
unfolding shape
shape-error image1d l element d img e h =
    Yields-refused (Shaped1d false l element d) e (shape_1d-Yields false false l element d img) h
shape-error image1d_buffer l element d img e h =
    Yields-refused (Shaped1d false l element d) e (shape_1d-Yields true false l element d img) h
shape-error image1d_array l element d img e h =
    Yields-refused (Shaped1d true l element d) e (shape_1d-Yields false true l element d img) h
shape-error image2d l element d img e h =
    Yields-refused (Shaped2d false l d) e (shape_2d-Yields false l d img) h
shape-error image2d_array l element d img e h =
    Yields-refused (Shaped2d true l d) e (shape_2d-Yields true l d img) h
shape-error image3d l element d img e h =
    Yields-refused (Shaped3d l d) e (shape_3d-Yields l d img) h
