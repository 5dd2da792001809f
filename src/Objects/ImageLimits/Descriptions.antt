-- ===== src/Objects/ImageLimits/Descriptions.antt =====
-- What setImage leaves where no error is set and no host pointer is known
-- (lib/Core/MemoryObject.cpp).
use open_crun.Prelude.{
  ℕ, ◌≡◌, refl, sym, subst, ap, ◌∙◌, Bool, true, false, not, Option, none, some, arith,
  if◌then◌else◌, inl, inr, ◌⊎◌, ◌==◌,
}
use open_crun.Builder.{
  Device, ImageType, image1d, image1d_array, image1d_buffer, image2d, image2d_array, image3d,
  ErrorCode, is_success, size_mul, invalid_image_descriptor, invalid_image_format_descriptor,
  image_format_not_supported,
}
use open_crun.Objects.{
  Outcome, done, null_context, assertion_failed, ◌>>=◌, Context, ImageFields, ObjectBuilder, error,
  Kind,
}
use open_crun.Objects.Formats.{ImageFormat, is_format, element_size, Limits, no_limits, limits}
use open_crun.Objects.Images.{
  ImageDesc, shape, pitches, image_size, requires_slice_pitch, set_typed, set_by_type, set_shape,
  set_for_devices, set_described, set_image,
}
use open_crun.Objects.ImageLimits.Devices.{Within, Fits, shape-Fits, shape-error}
use open_crun.Objects.ImageLimits.Stages.{Ends, Ends-error, Ends-returns, Ends-if, Ends-map}

-- An image as it is described, for the limits of the devices.
pub record Imaged (l : Limits) (f : ImageFormat) (d : ImageDesc) (k : Kind) (ctx : Option Context)
    (b' : ObjectBuilder) : Type 0 where
  pub ty : ImageType
  pub described : d.image_type ≡ some ty
  pub typed : b'.img.ty ≡ some ty
  pub supported : (l.supported == 0) ≡ false
  pub filled : (d.image_width == 0) ≡ false
  pub width : b'.img.width ≡ d.image_width
  pub unpitched : (d.image_row_pitch == 0) ≡ true
  pub row_pitch : b'.img.row_pitch ≡ size_mul d.image_width (element_size f)
  pub size : b'.img.size ≡ image_size ty b'.img
  pub fits : (dev : Device) → Within l dev → Fits ty (element_size f) d dev
  pub kind : b'.kind ≡ k
  pub context : b'.context ≡ ctx

pitches-inr :
    (with_slices : Bool) (element : ℕ) (d : ImageDesc) (img : ImageFields) {img' : ImageFields}
    → pitches with_slices element d none img ≡ inr img'
    → ((d.image_row_pitch == 0) ≡ true)
      × (img'.row_pitch ≡ size_mul img.width element)
      × (img'.width ≡ img.width)
      × (img'.ty ≡ img.ty)
unfolding pitches
pitches-inr with_slices element d img e = ground arith

pitches-inl :
    (with_slices : Bool) (element : ℕ) (d : ImageDesc) (img : ImageFields) (e : ErrorCode)
    → pitches with_slices element d none img ≡ inl e
    → is_success e ≡ false
unfolding pitches is_success
pitches-inl with_slices element d img e h = ground arith

image_size-size :
    (ty : ImageType) (img : ImageFields) (n : ℕ)
    → image_size ty (record img { size = n }) ≡ image_size ty img
unfolding image_size
image_size-size image1d img n = refl
image_size-size image1d_buffer img n = refl
image_size-size image1d_array img n = refl
image_size-size image2d img n = refl
image_size-size image2d_array img n = refl
image_size-size image3d img n = refl

sum-cases {ℓ} : {A B : Type ℓ} (s : A ⊎ B) → ((a : A) × (s ≡ inl a)) ⊎ ((b : B) × (s ≡ inr b))
sum-cases (inl a) = inl (a, refl)
sum-cases (inr b) = inr (b, refl)

module _ (l : Limits) (f : ImageFormat) (d : ImageDesc) where
  set_typed-Ends :
      (ty : ImageType) (img : ImageFields) (b : ObjectBuilder)
      → b.host_ptr ≡ none
      → d.image_type ≡ some ty
      → (l.supported == 0) ≡ false
      → img.width ≡ d.image_width
      → (d.image_width == 0) ≡ false
      → ((dev : Device) → Within l dev → Fits ty (element_size f) d dev)
      → Ends (Imaged l f d b.kind b.context) (set_typed ty (element_size f) d img b)
  unfolding set_typed
  set_typed-Ends ty img b no_ptr described supported width filled fits =
      let typed : ImageFields = record img { ty = some ty } in
      let seen = ap (λ h. pitches (requires_slice_pitch ty) (element_size f) d h typed) no_ptr in
      elim (sum-cases (pitches (requires_slice_pitch ty) (element_size f) d none typed)) [
        | inl (e, bad) ↦
            rw (seen ∙ bad, set_typed)
              (Ends-error (Imaged l f d b.kind b.context) e (record b { img = typed })
                (pitches-inl (requires_slice_pitch ty) (element_size f) d typed e bad))
        | inr (pitched, ok) ↦
            let (unpitched, row, same_width, same_type) =
              pitches-inr (requires_slice_pitch ty) (element_size f) d typed ok in
            rw (seen ∙ ok, set_typed)
              (Ends-returns (Imaged l f d b.kind b.context)
                (record b { img = record pitched { size = image_size ty pitched } })
                λ clean. record {
                  ty = ty;
                  described = described;
                  typed = same_type;
                  supported = supported;
                  filled = filled;
                  width = same_width ∙ width;
                  unpitched = unpitched;
                  row_pitch = row ∙ ap (λ w. size_mul w (element_size f)) width;
                  size = sym (image_size-size ty pitched (image_size ty pitched));
                  fits = fits;
                  kind = refl;
                  context = refl;
                })
      ]

  shaped :
      (ty : ImageType) (b : ObjectBuilder)
      → b.host_ptr ≡ none
      → d.image_type ≡ some ty
      → (l.supported == 0) ≡ false
      → (r : Outcome (ErrorCode ⊎ ImageFields)) → shape ty l (element_size f) d b.img ≡ r
      → Ends (Imaged l f d b.kind b.context) (
          r >>= λ r. elim r [ inl e ↦ error e b | inr img ↦ set_typed ty (element_size f) d img b ])
  unfolding Ends
  shaped ty b no_ptr described supported null_context e = tt
  shaped ty b no_ptr described supported assertion_failed e = tt
  shaped ty b no_ptr described supported (done (inl x)) e =
      Ends-error (Imaged l f d b.kind b.context) x b (shape-error ty l (element_size f) d b.img x e)
  shaped ty b no_ptr described supported (done (inr img)) e =
      let (width, filled, fits) = shape-Fits ty l (element_size f) d b.img e in
      set_typed-Ends ty img b no_ptr described supported width filled fits

  set_by_type-Ends :
      (t : Option ImageType) (b : ObjectBuilder)
      → b.host_ptr ≡ none
      → d.image_type ≡ t
      → (l.supported == 0) ≡ false
      → Ends (Imaged l f d b.kind b.context) (set_by_type t l (element_size f) d b)
  unfolding set_by_type is_success
  set_by_type-Ends none b no_ptr described supported =
      Ends-error (Imaged l f d b.kind b.context) invalid_image_descriptor b refl
  set_by_type-Ends (some ty) b no_ptr described supported =
      shaped ty b no_ptr described supported (shape ty l (element_size f) d b.img) refl

  set_shape-Ends :
      (b : ObjectBuilder)
      → b.host_ptr ≡ none
      → Ends (Imaged l f d b.kind b.context) (set_shape l f d b)
  unfolding set_shape is_success
  set_shape-Ends b no_ptr =
      Ends-if (Imaged l f d b.kind b.context) (l.supported == 0)
        (error image_format_not_supported b) (set_by_type d.image_type l (element_size f) d b)
        (λ nobody. Ends-error (Imaged l f d b.kind b.context) image_format_not_supported b refl)
        (λ somebody. set_by_type-Ends d.image_type b no_ptr refl somebody)

module _ (c : Context) (f : ImageFormat) (d : ImageDesc) where
  abbrev pub Described : ObjectBuilder → ObjectBuilder → Type 0
  Described b b' = Imaged (limits f c.devices no_limits) f d b.kind b.context b'

  set_for_devices-Ends :
      (ctx : Option Context) (b : ObjectBuilder)
      → b.host_ptr ≡ none
      → ctx ≡ some c
      → Ends (Described b) (set_for_devices ctx f d b)
  unfolding set_for_devices
  set_for_devices-Ends none b no_ptr e = cc
  set_for_devices-Ends (some c') b no_ptr e =
      let same : c' ≡ c = cc in
      subst (λ x. Ends (Described b) (set_shape (limits f x.devices no_limits) f d b)) (sym same)
        (set_shape-Ends (limits f c.devices no_limits) f d b no_ptr)

  set_described-Ends :
      (b : ObjectBuilder)
      → b.host_ptr ≡ none
      → b.context ≡ some c
      → Ends (Described b) (set_described f (some d) b)
  unfolding set_described is_success
  set_described-Ends b no_ptr ctx =
      Ends-if (Described b) (not (d.num_mip_levels == 0)) (error invalid_image_descriptor b)
        (if not (d.num_samples == 0)
          then error invalid_image_descriptor b
          else set_for_devices b.context f d b)
        (λ mips. Ends-error (Described b) invalid_image_descriptor b refl)
        (λ flat.
          Ends-if (Described b) (not (d.num_samples == 0)) (error invalid_image_descriptor b)
            (set_for_devices b.context f d b)
            (λ samples. Ends-error (Described b) invalid_image_descriptor b refl)
            (λ single. set_for_devices-Ends b.context b no_ptr ctx))

  -- The builder with the format.
  abbrev formatted : ObjectBuilder → ObjectBuilder
  formatted b = record b {
    img = record b.img { channel_order = f.channel_order; channel_data_type = f.channel_data_type };
  }

  pub set_image-Ends :
      (b : ObjectBuilder)
      → b.host_ptr ≡ none
      → b.context ≡ some c
      → Ends (λ b'. (is_format f ≡ true) × Described b b') (set_image (some f) (some d) b)
  unfolding set_image is_success
  set_image-Ends b no_ptr ctx =
      Ends-if (λ b'. (is_format f ≡ true) × Described b b') (not (is_format f))
        (error invalid_image_format_descriptor b) (set_described f (some d) (formatted b))
        (λ bad.
          Ends-error (λ b'. (is_format f ≡ true) × Described b b') invalid_image_format_descriptor b
            refl)
        (λ good.
          Ends-map (Described b) (λ b'. (is_format f ≡ true) × Described b b')
            (set_described f (some d) (formatted b)) (λ b' h. (ground arith, h))
            (set_described-Ends (formatted b) no_ptr ctx))
