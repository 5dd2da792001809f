-- ===== src/Builder/FillImage/Accepted.antt =====
-- When clEnqueueFillImage gets a command, and which one (lib/Core/Command.cpp).
use open_crun.Prelude.{
  ℕ, ◌≡◌, ◌↔◌, refl, sym, ap, subst, ◌∙◌, true, false, List, [], Option, none, some, arith,
  Option-cases, inl, inr,
}
use open_crun.Builder.{
  Builder, Image, Queue, MemObject, image, Event, created, new_builder, notify_error, is_success,
  unrestricted, size_mul, deref, unless_failed, set_checked_wait_list, has_foreign,
}
use open_crun.Builder.Errors.{
  IsOk, requested, unless_failed-created, created-injective, set_checked_wait_list-IsOk,
  set_checked_wait_list-sticky, set_checked_wait_list-unforeign,
}
use open_crun.Builder.ImageChecks.{
  Triple, has_zero, valid_region, is_valid_img_region, check_image, check_support, offset_in,
}
use open_crun.Builder.ImageChecks.Bounds.{
  usable_image, supported, check_image-IsOk, check_support-IsOk, check_support-sticky,
  check_image-usable, check_support-supported,
}
use open_crun.Builder.FillImage.{
  Color, FillImage, Command, check_color, new, reject, set_region, set_given, set_fill_region,
  set_wait_list, command, create, build,
}

-- The builder before its region is set, and at its end.
abbrev opened : Queue → Image → Color → FillImage
opened q t color = record {
  base = new_builder q;
  target = some t;
  source = some color;
  target_origin = none;
  target_region = none;
}

abbrev finished : Queue → Image → Color → Triple → Triple → List Event → FillImage
finished q t color o g l = record {
  base = record (new_builder q) { wait_list = l };
  target = some t;
  source = some color;
  target_origin = some o;
  target_region = some g;
}

new-opened :
    (q : Queue) (img : Option MemObject) (color : Option Color) (t : Image) (bytes : Color)
    → check_image unrestricted q img (new_builder q) ≡ (some t, new_builder q)
    → color ≡ some bytes
    → check_support q (some t) (new_builder q) ≡ new_builder q
    → new q img color ≡ opened q t bytes
unfolding new check_color
new-opened q img color t bytes first second third = rw (first, second, third) refl

new-IsOk :
    (q : Queue) (img : Option MemObject) (color : Option Color)
    → IsOk (new q img color).base
    → (t : Image) × (bytes : Color) × (img ≡ some (image t))
      × (color ≡ some bytes)
      × (usable_image unrestricted q t ≡ true)
      × (supported q t ≡ true)
      × (new q img color ≡ opened q t bytes)
unfolding new check_color notify_error is_success
new-IsOk q img none ok =
    absurd (
      ground
        (arith, check_support-sticky q (check_image unrestricted q img (new_builder q)).0 _ ok))
new-IsOk q img (some bytes) ok =
    let first = check_image unrestricted q img (new_builder q) in
    let (t, e, us, eq) =
      check_image-IsOk unrestricted q img (new_builder q)
        (check_support-sticky q first.0 first.1 ok) in
    let (same, su) =
      check_support-IsOk q t (new_builder q)
        (subst (λ (x : Option Image × Builder). IsOk (check_support q x.0 x.1)) eq ok) in
    (t, bytes, e, refl, us, su, new-opened q img (some bytes) t bytes eq refl same)

set_given-IsOk :
    (t : Image) (origin region : Option Triple) (r : FillImage)
    → IsOk (set_given t origin region r).base
    → (o : Triple) × (g : Triple) × (origin ≡ some o)
      × (region ≡ some g)
      × (has_zero g ≡ false)
      × (valid_region t.ty t o g ≡ true)
      × (set_given t origin region r ≡ record r { target_origin = some o; target_region = some g })
unfolding set_given set_region reject is_valid_img_region notify_error is_success
set_given-IsOk t none region r ok = absurd (ground arith)
set_given-IsOk t (some o) none r ok = absurd (ground arith)
set_given-IsOk t (some o) (some g) r ok =
    (o, g, refl, refl, ground arith, ground arith, ground arith)

set_fill_region-sticky :
    (origin region : Option Triple) (r : FillImage)
    → IsOk (set_fill_region origin region r).base
    → IsOk r.base
unfolding set_fill_region
set_fill_region-sticky origin region r ok = elim (Option-cases r.target) [
  | inl e ↦ ground arith
  | inr (t, e) ↦
      let given : set_fill_region origin region r ≡ set_given t origin region r = ground arith in
      let ok' = subst (λ (x : FillImage). IsOk x.base) given ok in
      subst IsOk (ap (λ (x : FillImage). x.base) (set_given-IsOk t origin region r ok').6) ok'
]

-- The command that a valid call asks for.
pub record IsFillOf (q : Queue) (img : Option MemObject) (color : Option Color)
    (origin region : Option Triple) (n : ℕ) (evs : Option (ℕ → Option Event)) (c : Command)
    : Type 0 where
  pub given_region : Triple
  pub image_given : img ≡ some (image c.target)
  pub color_given : color ≡ some c.source
  pub origin_given : origin ≡ some c.target_origin
  pub region_given : region ≡ some given_region
  pub usable : usable_image unrestricted q c.target ≡ true
  pub supports : supported q c.target ≡ true
  pub not_empty : has_zero given_region ≡ false
  pub valid : valid_region c.target.ty c.target c.target_origin given_region ≡ true
  pub width : c.target_region.x ≡ size_mul given_region.x c.target.element_size
  pub height : c.target_region.y ≡ given_region.y
  pub depth : c.target_region.z ≡ given_region.z
  pub at : c.target_offset ≡ offset_in c.target c.target_origin
  pub waits : requested n evs ≡ some c.wait_list
  pub same_context : has_foreign q.context c.wait_list ≡ false

module _ (q : Queue) (img : Option MemObject) (color : Option Color) (origin region : Option Triple)
    (n : ℕ) (evs : Option (ℕ → Option Event)) where
  create-finished :
      (t : Image) (bytes : Color) (o g : Triple) (l : List Event)
      → create (finished q t bytes o g l) ≡ created (command (finished q t bytes o g l) t bytes o g)
  unfolding create unless_failed deref new_builder is_success
  create-finished t bytes o g l = refl

  build-IsFillOf :
      (c : Command)
      → build q img color origin region n evs ≡ created c
      → IsFillOf q img color origin region n evs c
  unfolding build set_wait_list create new_builder set_fill_region command
  build-IsFillOf c h =
      let r = new q img color in
      let r' = set_fill_region origin region r in
      let (ok, _) = unless_failed-created (set_wait_list n evs r').base _ h in
      let ok' = set_checked_wait_list-sticky n evs r'.base ok in
      let (t, bytes, ei, ec, us, su, is_open) =
        new-IsOk q img color (set_fill_region-sticky origin region r ok') in
      let (o, g, eo, eg, hz, va, is_placed) =
        set_given-IsOk t origin region (opened q t bytes)
          (subst (λ (x : FillImage). IsOk (set_fill_region origin region x).base) is_open ok') in
      let is_r' : r' ≡ finished q t bytes o g [] =
        ap (set_fill_region origin region) is_open ∙ is_placed in
      let (l, good, waited, near) =
        set_checked_wait_list-IsOk n evs (new_builder q) refl
          (subst (λ (x : FillImage). IsOk (set_checked_wait_list n evs x.base)) is_r' ok) in
      let eq : set_wait_list n evs r' ≡ finished q t bytes o g l =
        ap (set_wait_list n evs) is_r'
        ∙ ap (λ b. record (finished q t bytes o g []) { base = b }) waited in
      let made = created-injective (sym (create-finished t bytes o g l) ∙ sym (ap create eq) ∙ h) in
      subst (IsFillOf q img color origin region n evs) made (record {
        given_region = g;
        image_given = ei;
        color_given = ec;
        origin_given = eo;
        region_given = eg;
        usable = us;
        supports = su;
        not_empty = hz;
        valid = va;
        width = refl;
        height = refl;
        depth = refl;
        at = refl;
        waits = good;
        same_context = near;
      })

  same_command :
      (c : Command) (v : IsFillOf q img color origin region n evs c)
      → command
          (finished q c.target c.source c.target_origin v.given_region c.wait_list)
          c.target
          c.source
          c.target_origin
          v.given_region
        ≡ c
  unfolding command
  same_command c v = cc (v.width, v.height, v.depth, v.at)

  set_fill_region-finished :
      (t : Image) (bytes : Color) (o g : Triple)
      → origin ≡ some o
      → region ≡ some g
      → has_zero g ≡ false
      → valid_region t.ty t o g ≡ true
      → set_fill_region origin region (opened q t bytes) ≡ finished q t bytes o g []
  unfolding set_fill_region set_given set_region is_valid_img_region new_builder
  set_fill_region-finished t bytes o g eo eg hz va = rw (eo, eg) (ground arith)

  IsFillOf-build :
      (c : Command)
      → IsFillOf q img color origin region n evs c
      → build q img color origin region n evs ≡ created c
  unfolding build set_wait_list new_builder
  IsFillOf-build c v =
      let opens =
        new-opened q img color c.target c.source
          (check_image-usable unrestricted q img c.target (new_builder q) v.image_given v.usable)
          v.color_given (check_support-supported q c.target (new_builder q) v.supports) in
      let places =
        set_fill_region-finished c.target c.source c.target_origin v.given_region v.origin_given
          v.region_given v.not_empty v.valid in
      ap (λ x. create (set_wait_list n evs (set_fill_region origin region x))) opens
      ∙ ap (λ x. create (set_wait_list n evs x)) places
      ∙ ap
          (λ b.
            create (record (finished q c.target c.source c.target_origin v.given_region []) {
              base = b;
            }))
          (set_checked_wait_list-unforeign n evs (new_builder q) refl v.waits v.same_context)
      ∙ create-finished c.target c.source c.target_origin v.given_region c.wait_list
      ∙ ap created (same_command c v)

  -- The chain of calls of clEnqueueFillImage yields a command exactly when the call is valid and
  -- the command is the one that the call asks for: the image is of the queue's context and its
  -- device supports it, the color is not null, the region is not empty and valid for the image by
  -- IsValidImgRegion, and the wait list is accepted.
  pub fill_image-created :
      (c : Command)
      → (build q img color origin region n evs ≡ created c)
        ↔ IsFillOf q img color origin region n evs c
  fill_image-created c = (build-IsFillOf c, IsFillOf-build c)
