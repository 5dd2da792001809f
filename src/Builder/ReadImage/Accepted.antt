-- ===== src/Builder/ReadImage/Accepted.antt =====
-- What clEnqueueReadImage guarantees of the command that its builder creates (lib/Core/Command.cpp).
use open_crun.Prelude.{
  ℕ, ◌≤◌, ◌≡◌, refl, subst, sym, ap, Bool, true, false, Option, none, some, arith, Bool-cases,
  Option-cases, inl, inr,
}
use open_crun.Builder.{
  Builder, Image, Queue, MemObject, image, new_builder, notify_error, no_host_read, is_success,
  size_mul, check_pointer, invalid_value,
}
use open_crun.Builder.Errors.{IsOk}
use open_crun.Builder.ImageChecks.{
  Triple, has_zero, valid_region, is_valid_img_region, pick_pitch, check_image, check_support,
}
use open_crun.Builder.ImageChecks.Bounds.{
  pick_pitch-le, usable_image, check_image-IsOk, supported, check_support-IsOk,
  check_support-sticky,
}
use open_crun.Builder.ReadImage.{
  ReadImage, new, set_blocking, reject, set_slice, set_pitches, set_region, set_copy_area,
}

set_slice-IsOk :
    (g : Triple) (slice : ℕ) (r : ReadImage)
    → IsOk (set_slice g slice r).base
    → (p : ℕ) × (size_mul r.row_pitch g.y ≤ p)
      × (set_slice g slice r ≡ record r { slice_pitch = p })
unfolding set_slice reject notify_error is_success
set_slice-IsOk g slice r ok = elim (Option-cases (pick_pitch slice (size_mul r.row_pitch g.y))) [
  | inl e ↦ absurd (ground arith)
  | inr (p, e) ↦ (p, pick_pitch-le slice (size_mul r.row_pitch g.y) e, ground arith)
]

module _ (s : Image) (g : Triple) (row slice : ℕ) where
  -- The pitches of the result, and that they leave room for the region.
  abbrev Pitched : ReadImage → ReadImage → Type 0
  Pitched r r' =
      (rp : ℕ) × (sp : ℕ) × (size_mul g.x s.element_size ≤ rp)
      × (size_mul rp g.y ≤ sp)
      × (r' ≡ record r { row_pitch = rp; slice_pitch = sp })

  set_pitches-IsOk :
      (r : ReadImage)
      → IsOk (set_pitches s g row slice r).base
      → Pitched r (set_pitches s g row slice r)
  unfolding set_pitches reject notify_error is_success
  set_pitches-IsOk r ok = elim (Option-cases (pick_pitch row (size_mul g.x s.element_size))) [
    | inl e ↦ absurd (ground arith)
    | inr (p, e) ↦
        let (sp, le, eq) = set_slice-IsOk g slice (record r { row_pitch = p }) (ground arith) in
        (p, sp, pick_pitch-le row (size_mul g.x s.element_size) e, le, ground arith)
  ]

-- The builder with a valid area.
abbrev pub Placed : Image → Option Triple → Option Triple → ReadImage → ReadImage → Type 0
Placed s origin region r r' =
    (o : Triple) × (g : Triple) × (origin ≡ some o)
    × (region ≡ some g)
    × (has_zero g ≡ false)
    × (valid_region s.ty s o g ≡ true)
    × (rp : ℕ) × (sp : ℕ) × (size_mul g.x s.element_size ≤ rp)
    × (size_mul rp g.y ≤ sp)
    × (r' ≡ record r { source_origin = some o; region = some g; row_pitch = rp; slice_pitch = sp })

module _ (s : Image) (row slice : ℕ) where
  set_region-IsOk :
      (o g : Triple) (r : ReadImage)
      → IsOk (set_region s o g row slice r).base
      → Placed s (some o) (some g) r (set_region s o g row slice r)
  unfolding set_region reject is_valid_img_region notify_error is_success
  set_region-IsOk o g r ok = elim (Bool-cases (has_zero g)) [
    | inl zero ↦ absurd (ground arith)
    | inr pos ↦ elim (Bool-cases (valid_region s.ty s o g)) [
      | inr out ↦ absurd (ground arith)
      | inl valid ↦
          let r' = record r { region = some g; source_origin = some o } in
          let (rp, sp, le, le', eq) = set_pitches-IsOk s g row slice r' (ground arith) in
          (o, g, refl, refl, pos, valid, rp, sp, le, le', ground arith)
    ]
  ]

  pub set_copy_area-IsOk :
      (origin region : Option Triple) (r : ReadImage)
      → r.source ≡ some s
      → IsOk (set_copy_area origin region row slice r).base
      → Placed s origin region r (set_copy_area origin region row slice r)
  unfolding set_copy_area reject notify_error is_success
  set_copy_area-IsOk none region r e ok = absurd (ground arith)
  set_copy_area-IsOk (some o) none r e ok = absurd (ground arith)
  set_copy_area-IsOk (some o) (some g) r e ok =
      let same : set_copy_area (some o) (some g) row slice r ≡ set_region s o g row slice r =
        ground arith in
      subst (Placed s (some o) (some g) r) (sym same)
        (set_region-IsOk o g r (subst (λ (x : ReadImage). IsOk x.base) same ok))

pub set_copy_area-sticky :
    (origin region : Option Triple) (row slice : ℕ) (r : ReadImage)
    → IsOk (set_copy_area origin region row slice r).base
    → IsOk r.base
unfolding set_copy_area
set_copy_area-sticky origin region row slice r ok = elim (Option-cases r.source) [
  | inl e ↦ ground arith
  | inr (s, e) ↦
      let placed = set_copy_area-IsOk s row slice origin region r e ok in
      subst IsOk (ap (λ (x : ReadImage). x.base) placed.10) ok
]

abbrev pub ready : Queue → Image → Option ℕ → Bool → ℕ → ℕ → ReadImage
ready q s target blocking row slice = record {
  base = new_builder q;
  source = some s;
  target = target;
  blocking = blocking;
  source_origin = none;
  region = none;
  row_pitch = row;
  slice_pitch = slice;
}

pub set_blocking-sticky :
    (blocking : Bool) (r : ReadImage) → IsOk (set_blocking blocking r).base → IsOk r.base
unfolding set_blocking notify_error is_success
set_blocking-sticky blocking r ok = ground arith

pub new-IsOk :
    (row slice : ℕ) (q : Queue) (img : Option MemObject) (target : Option ℕ)
    → IsOk (new row slice q img target).base
    → (s : Image) × (p : ℕ) × (img ≡ some (image s))
      × (target ≡ some p)
      × (usable_image no_host_read q s ≡ true)
      × (supported q s ≡ true)
      × (new row slice q img target ≡ ready q s target false row slice)
unfolding new check_pointer notify_error is_success
new-IsOk row slice q img none ok = absurd (
    ground (
      arith,
      check_support-sticky q (check_image no_host_read q img (new_builder q)).0
          (notify_error invalid_value (check_image no_host_read q img (new_builder q)).1) ok,
    ))
new-IsOk row slice q img (some p) ok =
    let ok' =
      check_support-sticky q (check_image no_host_read q img (new_builder q)).0
        (check_image no_host_read q img (new_builder q)).1 ok in
    let (s, e, usable, eq) = check_image-IsOk no_host_read q img (new_builder q) ok' in
    let (same, supports) =
      check_support-IsOk q s (new_builder q)
        (subst (λ (x : Option Image × Builder). IsOk (check_support q x.0 x.1)) eq ok) in
    (s, p, e, refl, usable, supports, ground arith)
