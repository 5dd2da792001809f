-- ===== src/Builder/ReadImage/Inside.antt =====
-- clEnqueueReadImage gets a command only for an area of the image (lib/Core/Command.cpp).
use open_crun.Prelude.{
  ℕ, ◌≤◌, ◌≡◌, refl, subst, ◌∙◌, ap, Bool, true, false, Option, some, arith, Option-cases, inl, inr,
}
use open_crun.Builder.{
  Image, Queue, MemObject, image, Event, created, new_builder, no_host_read, size_mul, deref,
  is_wait_list_inconsistent, has_error, set_blocking_wait_list,
}
use open_crun.Builder.Errors.{
  IsOk, requested, Accepts, set_blocking_wait_list-IsOk, set_blocking_wait_list-sticky,
  unless_failed-created,
}
use open_crun.Builder.ImageChecks.{Triple, has_zero, valid_region, offset_in}
use open_crun.Builder.ImageChecks.Bounds.{
  usable_image, supported, Small, Inside, valid_region-Inside,
}
use open_crun.Builder.ReadImage.{
  ReadImage, Command, new, set_blocking, set_copy_area, set_wait_list, command, create, build,
}
use open_crun.Builder.ReadImage.Accepted.{
  Placed, set_copy_area-IsOk, set_copy_area-sticky, ready, set_blocking-sticky, new-IsOk,
}

create-created :
    (r : ReadImage) {c : Command}
    → create r ≡ created c
    → IsOk r.base
      × (s : Image) × (o : Triple) × (g : Triple) × (r.source ≡ some s)
      × (r.source_origin ≡ some o)
      × (r.region ≡ some g)
      × (c ≡ command r s o g)
unfolding create deref
create-created r h =
    let (ok, made) = unless_failed-created r.base _ h in
    elim (Option-cases r.source) [
      | inl e ↦ absurd (ground arith)
      | inr (s, es) ↦ elim (Option-cases r.source_origin) [
        | inl e ↦ absurd (ground arith)
        | inr (o, eo) ↦ elim (Option-cases r.region) [
          | inl e ↦ absurd (ground arith)
          | inr (g, eg) ↦ (ok, s, o, g, es, eo, eg, ground arith)
        ]
      ]
    ]

-- A read of the region `g` at `o` that OpenCL allows.
pub record IsReadOf (q : Queue) (img : Option MemObject) (target : Option ℕ) (blocking : Bool)
    (o g : Triple) (n : ℕ) (evs : Option (ℕ → Option Event)) (c : Command) : Type 0 where
  pub source : img ≡ some (image c.source)
  pub usable : usable_image no_host_read q c.source ≡ true
  pub supports : supported q c.source ≡ true
  pub pointer : (p : ℕ) × (c.target ≡ some p) × (target ≡ some p)
  pub same_blocking : c.blocking ≡ blocking
  pub not_empty : has_zero g ≡ false
  pub valid : valid_region c.source.ty c.source o g ≡ true
  pub at : (c.source_origin ≡ o) × (c.source_offset ≡ offset_in c.source o)
  pub width : c.region.x ≡ size_mul g.x c.source.element_size
  pub height : c.region.y ≡ g.y
  pub depth : c.region.z ≡ g.z
  pub row_room : c.region.x ≤ c.row_pitch
  pub slice_room : size_mul c.row_pitch g.y ≤ c.slice_pitch
  pub waits : requested n evs ≡ some c.wait_list
  pub accepts : Accepts blocking q.context c.wait_list

module _ (q : Queue) (img : Option MemObject) (target : Option ℕ) (blocking : Bool) (n : ℕ)
    (evs : Option (ℕ → Option Event)) where
  placed-IsReadOf :
      (c : Command) (s : Image) (p : ℕ) (o g : Triple) (rp sp : ℕ)
      → img ≡ some (image s)
      → target ≡ some p
      → usable_image no_host_read q s ≡ true
      → supported q s ≡ true
      → has_zero g ≡ false
      → valid_region s.ty s o g ≡ true
      → size_mul g.x s.element_size ≤ rp
      → size_mul rp g.y ≤ sp
      → create (
          set_wait_list n evs
            (record (ready q s target blocking rp sp) { source_origin = some o; region = some g }))
        ≡ created c
      → IsReadOf q img target blocking o g n evs c
  unfolding set_wait_list command new_builder
  placed-IsReadOf c s p o g rp sp ei ep us su hz va le le' h =
      let r = record (ready q s target blocking rp sp) {
        source_origin = some o;
        region = some g;
      } in
      let (ok, s', o', g', es, eo, eg, made) = create-created (set_wait_list n evs r) h in
      let (l, good, eq, accepts) =
        set_blocking_wait_list-IsOk n evs (new_builder q) refl blocking ok in
      let same : l ≡ c.wait_list = ground arith in
      let is_s : s ≡ c.source = ground arith in
      record {
        source = ei ∙ ap (λ x. some (image x)) is_s;
        usable = subst (λ x. usable_image no_host_read q x ≡ true) is_s us;
        supports = subst (λ x. supported q x ≡ true) is_s su;
        pointer = (p, ground arith, ep);
        same_blocking = ground arith;
        not_empty = hz;
        valid = subst (λ (x : Image). valid_region x.ty x o g ≡ true) is_s va;
        at = (ground arith, ground arith);
        width = ground arith;
        height = ground arith;
        depth = ground arith;
        row_room = ground arith;
        slice_room = ground arith;
        waits = good ∙ ap some same;
        accepts = subst (Accepts blocking q.context) same accepts;
      }

  new-blocking :
      (row slice : ℕ) (s : Image)
      → set_blocking blocking (ready q s target false row slice)
        ≡ ready q s target blocking row slice
  unfolding set_blocking is_wait_list_inconsistent has_error new_builder
  new-blocking row slice s = ground arith

  create-IsOk :
      (r : ReadImage) {c : Command} → create (set_wait_list n evs r) ≡ created c → IsOk r.base
  unfolding create set_wait_list
  create-IsOk r h =
      set_blocking_wait_list-sticky r.blocking n evs r.base
        (unless_failed-created (set_blocking_wait_list r.blocking n evs r.base) _ h).0

  Placed-command :
      (c : Command) (s : Image) (p : ℕ) (o g : Triple) (row0 slice0 row slice : ℕ)
      → img ≡ some (image s)
      → target ≡ some p
      → usable_image no_host_read q s ≡ true
      → supported q s ≡ true
      → Placed s
          (some o)
          (some g)
          (ready q s target blocking row0 slice0)
          (set_copy_area (some o) (some g) row slice (ready q s target blocking row0 slice0))
      → create (
          set_wait_list n evs
            (set_copy_area (some o) (some g) row slice (ready q s target blocking row0 slice0)))
        ≡ created c
      → IsReadOf q img target blocking o g n evs c
  Placed-command c s p o g row0 slice0 row slice ei ep us su
        (o', g', eo, eg, hz, va, rp, sp, le, le', eq) h =
      let is_o : o' ≡ o = cc in
      let is_g : g' ≡ g = cc in
      placed-IsReadOf c s p o g rp sp ei ep us su (subst (λ x. has_zero x ≡ false) is_g hz)
        (ground arith) (ground arith) (ground arith)
        (subst (λ (x : ReadImage). create (set_wait_list n evs x) ≡ created c) (eq ∙ ground arith)
          h)

  -- A command that the chain of calls of clEnqueueReadImage yields reads the region of the call,
  -- not empty and valid for the image by IsValidImgRegion, from an image that the queue may use and
  -- its device supports, to a pointer that is not null; the row pitch has room for a row in bytes
  -- and the slice pitch for the rows; the wait list is the caller's and accepted.
  pub read_image-IsReadOf :
      (row0 slice0 row slice : ℕ) (o g : Triple) (c : Command)
      → build row0 slice0 q img target blocking (some o) (some g) row slice n evs ≡ created c
      → IsReadOf q img target blocking o g n evs c
  unfolding build
  read_image-IsReadOf row0 slice0 row slice o g c h =
      let r = new row0 slice0 q img target in
      let r' = set_blocking blocking r in
      let r'' = set_copy_area (some o) (some g) row slice r' in
      let ok'' = create-IsOk r'' h in
      let ok' = set_copy_area-sticky (some o) (some g) row slice r' ok'' in
      let (s, p, ei, ep, us, su, is_new) =
        new-IsOk row0 slice0 q img target (set_blocking-sticky blocking r ok') in
      let is_ready = ap (set_blocking blocking) is_new ∙ new-blocking row0 slice0 s in
      let placed =
        set_copy_area-IsOk s row slice (some o) (some g) (ready q s target blocking row0 slice0)
          refl
          (subst (λ (x : ReadImage). IsOk (set_copy_area (some o) (some g) row slice x).base)
            is_ready ok'') in
      Placed-command c s p o g row0 slice0 row slice ei ep us su placed (
        subst
          (λ (x : ReadImage).
            create (set_wait_list n evs (set_copy_area (some o) (some g) row slice x)) ≡ created c)
          is_ready h)

  -- Where no sum of an origin and a region reaches 2^64, the area of a command that the chain of
  -- calls of clEnqueueReadImage yields lies inside the image: in width, in rows and in slices, by
  -- the type of the image.
  pub read_image-Inside :
      (row0 slice0 row slice : ℕ) (o g : Triple) (c : Command)
      → Small o g
      → build row0 slice0 q img target blocking (some o) (some g) row slice n evs ≡ created c
      → Inside c.source o g
  read_image-Inside row0 slice0 row slice o g c small h =
      valid_region-Inside c.source o g small
        (read_image-IsReadOf row0 slice0 row slice o g c h).valid
