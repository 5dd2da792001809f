-- ===== src/Objects/ImageLimits.antt =====
-- The images that clCreateImage yields (tools/libOpenCRun/MemoryObject.cpp,
-- lib/Core/MemoryObject.cpp).
pub mod Devices
mod Stages
mod Descriptions
use open_crun.Prelude.{
  ℕ, ◌≡◌, refl, sym, ap, ◌∙◌, Bool, true, false, not, List, Option, none, some, All, arith, ◌==◌,
  Bool-cases, inl, inr, if◌then◌else◌, [], ◌∷◌,
}
use open_crun.Builder.{Device, ImageType, ErrorCode, is_success, size_mul}
use open_crun.Objects.{
  Outcome, done, null_context, assertion_failed, ◌>>=◌, Context, ObjectBuilder, k_image,
  is_sub_buffer_kind, new, set_context, set_generic_flags,
}
use open_crun.Objects.Making.{Answer, Object, create, create_in, new_object}
use open_crun.Objects.Formats.{ImageFormat, is_format, element_size, limits, no_limits}
use open_crun.Objects.Images.{ImageDesc, image_size, set_image, create_image}
use open_crun.Objects.ImageLimits.Devices.{supports, Fits, Within, limits-Within}
use open_crun.Objects.ImageLimits.Stages.{Ends, Ends-done, SameImage, set_generic_flags-Ends}
use open_crun.Objects.ImageLimits.Descriptions.{Imaged, Described, set_image-Ends}

-- An image as its description says, with sizes below the limits that setImage compares them with.
pub record ImageOf (c : Context) (f : ImageFormat) (d : ImageDesc) (obj : Object) : Type 0 where
  pub ty : ImageType
  pub format : is_format f ≡ true
  pub described : d.image_type ≡ some ty
  pub typed : obj.img.ty ≡ some ty
  pub filled : (d.image_width == 0) ≡ false
  pub width : obj.img.width ≡ d.image_width
  pub unpitched : (d.image_row_pitch == 0) ≡ true
  pub row_pitch : obj.img.row_pitch ≡ size_mul d.image_width (element_size f)
  pub size : obj.size ≡ image_size ty obj.img
  pub context : obj.context ≡ c.id
  pub fits : All (λ dev. supports f dev ≡ true → Fits ty (element_size f) d dev) c.devices

>>=-eq-done {ℓ κ} :
    {A : Type ℓ} {B : Type κ} (m : Outcome A) (k : A → Outcome B) {b : B}
    → (m >>= k) ≡ done b
    → (a : A) × (m ≡ done a) × (k a ≡ done b)
>>=-eq-done (done a) k h = (a, refl, h)
>>=-eq-done null_context k h = cc
>>=-eq-done assertion_failed k h = cc

create_in-some :
    (ctx : Option Context) (answers : List Answer) (b : ObjectBuilder) (c : Context) {obj : Object}
    {code : ErrorCode}
    → ctx ≡ some c
    → create_in ctx answers b ≡ done (some obj, code)
    → (is_success b.err ≡ true) × (obj ≡ new_object c b)
unfolding create_in
create_in-some none answers b c ctx e = cc
create_in-some (some c') answers b c ctx e = elim (Bool-cases (is_success b.err)) [
  | inl clean ↦ let made = rw clean at e in let same : c' ≡ c = cc in (clean, cc)
  | inr failed ↦ let refused = rw failed at e in cc
]

create_in-clean :
    (ctx : Option Context) (answers : List Answer) (b : ObjectBuilder) {obj : Object}
    {code : ErrorCode}
    → create_in ctx answers b ≡ done (some obj, code)
    → is_success b.err ≡ true
unfolding create_in
create_in-clean none answers b e = elim (Bool-cases (is_success b.err)) [
  | inl clean ↦ clean
  | inr failed ↦ let refused = rw failed at e in cc
]
create_in-clean (some c) answers b e = elim (Bool-cases (is_success b.err)) [
  | inl clean ↦ clean
  | inr failed ↦ let refused = rw failed at e in cc
]

new_object-image :
    (c : Context) (b : ObjectBuilder)
    → b.kind ≡ k_image
    → ((new_object c b).img ≡ b.img)
      × ((new_object c b).size ≡ b.img.size)
      × ((new_object c b).context ≡ c.id)
unfolding new_object
new_object-image c b k = rw k (refl, refl, refl)

All-apply :
    (P Q : Device → Type 0) (ds : List Device)
    → ((dev : Device) → P dev → Q dev)
    → All P ds
    → All Q ds
All-apply P Q [] h a = tt
All-apply P Q (d ∷ ds) h a = (h d a.0, All-apply P Q ds h a.1)

conclude :
    (c : Context) (flags : ℕ) (f : ImageFormat) (d : ImageDesc) (ptr : Option ℕ)
    (answers : List Answer) (b1 b2 : ObjectBuilder) {obj : Object} {code : ErrorCode}
    → set_image (some f) (some d) (record (new k_image) { context = some c }) ≡ done b1
    → set_generic_flags flags ptr b1 ≡ done b2
    → create answers b2 ≡ done (some obj, code)
    → ImageOf c f d obj
unfolding new create
conclude c flags f d ptr answers b1 b2 {obj} shaped flagged made =
    let b0 : ObjectBuilder = record (new k_image) { context = some c } in
    let clean = create_in-clean b2.context answers b2 made in
    let same = Ends-done (SameImage b1) b2 (set_generic_flags-Ends flags ptr b1) flagged clean in
    let (format, img) =
      Ends-done (λ b'. (is_format f ≡ true) × Described c f d b0 b') b1
        (set_image-Ends c f d b0 refl refl) shaped same.clean in
    let (_, is_new) = create_in-some b2.context answers b2 c (same.context ∙ img.context) made in
    let (same_img, same_size, ctx) = new_object-image c b2 (same.kind ∙ img.kind) in
    let fields : obj.img ≡ b1.img = ap (λ o. o.img) is_new ∙ same_img ∙ same.img in
    record {
      ty = img.ty;
      format = format;
      described = img.described;
      typed = ap (λ i. i.ty) fields ∙ img.typed;
      filled = img.filled;
      width = ap (λ i. i.width) fields ∙ img.width;
      unpitched = img.unpitched;
      row_pitch = ap (λ i. i.row_pitch) fields ∙ img.row_pitch;
      size =
          ap (λ o. o.size) is_new
          ∙ same_size
          ∙ ap (λ i. i.size) same.img
          ∙ img.size
          ∙ ap (image_size img.ty) (sym fields);
      context = ap (λ o. o.context) is_new ∙ ctx;
      fits =
          All-apply (λ dev. supports f dev ≡ true → Within (limits f c.devices no_limits) dev)
            (λ dev. supports f dev ≡ true → Fits img.ty (element_size f) d dev) c.devices
            (λ dev w s. img.fits dev (w s)) (limits-Within f c.devices no_limits);
    }

-- An image that clCreateImage gives in a context is of the type that was described, its format is
-- valid, its width is not 0 and that of the description, its row pitch is the width in bytes as a
-- size_t, whatever the host pointer, and its size follows from the pitches by its type; no row
-- pitch was asked for; and for every device of the context that supports the format, each size that
-- the code compares is below the limit that it is compared with: of 1D images the bytes of a row by
-- the largest buffer, of 2D images width and height by those of 2D images, of 3D images width and
-- height by those of 3D images and the depth by that height, of arrays also the number of elements.
pub create_image-ImageOf :
    (c : Context) (flags : ℕ) (f : ImageFormat) (d : ImageDesc) (ptr : Option ℕ)
    (answers : List Answer) {obj : Object} {code : ErrorCode}
    → create_image (some c) flags (some f) (some d) ptr answers ≡ done (some obj, code)
    → ImageOf c f d obj
unfolding create_image new set_context
create_image-ImageOf c flags f d ptr answers {obj} e =
    let b0 : ObjectBuilder = record (new k_image) { context = some c } in
    let (b1, shaped, rest) =
      >>=-eq-done (set_image (some f) (some d) b0)
        (λ b. set_generic_flags flags ptr b >>= λ b'. create answers b') e in
    let (b2, flagged, made) =
      >>=-eq-done (set_generic_flags flags ptr b1) (λ b. create answers b) rest in
    conclude c flags f d ptr answers b1 b2 shaped flagged made
