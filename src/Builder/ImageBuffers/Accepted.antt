-- ===== src/Builder/ImageBuffers/Accepted.antt =====
-- What it takes for a copy between an image and a buffer to end without an error (lib/Core/Command.cpp).
use open_crun.Prelude.{
  ℕ, ◌≤◌, ◌≡◌, refl, ap, subst, ◌∙◌, Bool, true, false, not, ◌&&◌, ◌==◌, List, [], Option, none,
  some, arith, Option-cases, inl, inr,
}
use open_crun.Builder.{
  Builder, Buffer, Image, Queue, MemObject, buffer, image, Event, new_builder, notify_error,
  is_success, unrestricted, check_buffer, size_add, has_foreign, set_checked_wait_list,
}
use open_crun.Builder.Errors.{
  IsOk, requested, usable, check_buffer-IsOk, check_buffer-usable, set_checked_wait_list-IsOk,
  set_checked_wait_list-sticky,
}
use open_crun.Builder.ImageChecks.{
  Triple, has_zero, valid_region, is_valid_img_region, check_support,
}
use open_crun.Builder.ImageChecks.Bounds.{supported, check_support-IsOk, check_support-sticky}
use open_crun.Builder.ImageBuffers.{
  Copying, is_over, check_image_beside, start, reject, bytes_of, check_bytes, place_in, place_given,
  place, wait,
}

-- Whether a queue may copy between the image and a buffer.
abbrev pub beside : Queue → Image → Buffer → Bool
beside q i s = not (is_over i (some s)) && q.context == i.context

check_image_beside-IsOk :
    (q : Queue) (s : Option Buffer) (x : Option MemObject) (b : Builder)
    → IsOk (check_image_beside q s x b).1
    → (i : Image) × (x ≡ some (image i))
      × ((not (is_over i s) && q.context == i.context) ≡ true)
      × (check_image_beside q s x b ≡ (some i, b))
unfolding check_image_beside notify_error is_success
check_image_beside-IsOk q s none b ok = absurd (ground arith)
check_image_beside-IsOk q s (some (buffer t)) b ok = absurd (ground arith)
check_image_beside-IsOk q s (some (image i)) b ok = (i, refl, ground arith, ground arith)

check_image_beside-sticky :
    (q : Queue) (s : Option Buffer) (x : Option MemObject) (b : Builder)
    → IsOk (check_image_beside q s x b).1
    → IsOk b
check_image_beside-sticky q s x b ok =
    let (i, e, free, eq) = check_image_beside-IsOk q s x b ok in
    subst IsOk (ap (λ (y : Option Image × Builder). y.1) eq) ok

-- The builder before its area is set.
abbrev pub opened : Queue → Buffer → Image → Copying
opened q s i = record {
  base = new_builder q;
  buf = some s;
  img = some i;
  origin = none;
  region = none;
  offset = 0;
}

pub start-opened :
    (q : Queue) (buf img : Option MemObject) (s : Buffer) (i : Image)
    → check_buffer unrestricted q buf (new_builder q) ≡ (some s, new_builder q)
    → check_image_beside q (some s) img (new_builder q) ≡ (some i, new_builder q)
    → check_support q (some i) (new_builder q) ≡ new_builder q
    → start q buf img ≡ opened q s i
unfolding start
start-opened q buf img s i first second third = rw (first, second, third) refl

-- The checks of the image after that of a buffer that is accepted.
second_checks :
    (q : Queue) (s : Buffer) (img : Option MemObject)
    → IsOk (
        check_support q
          (check_image_beside q (some s) img (new_builder q)).0
          (check_image_beside q (some s) img (new_builder q)).1)
    → (i : Image) × (img ≡ some (image i))
      × (beside q i s ≡ true)
      × (supported q i ≡ true)
      × (check_image_beside q (some s) img (new_builder q) ≡ (some i, new_builder q))
      × (check_support q (some i) (new_builder q) ≡ new_builder q)
second_checks q s img ok =
    let second = check_image_beside q (some s) img (new_builder q) in
    let ok' = check_support-sticky q second.0 second.1 ok in
    let (i, ei, free, eq) = check_image_beside-IsOk q (some s) img (new_builder q) ok' in
    let (same, su) =
      check_support-IsOk q i (new_builder q)
        (subst (λ (x : Option Image × Builder). IsOk (check_support q x.0 x.1)) eq ok) in
    (i, ei, free, su, eq, same)

pub start-IsOk :
    (q : Queue) (buf img : Option MemObject)
    → IsOk (start q buf img).base
    → (s : Buffer) × (i : Image) × (buf ≡ some (buffer s))
      × (img ≡ some (image i))
      × (usable unrestricted q s ≡ true)
      × (beside q i s ≡ true)
      × (supported q i ≡ true)
      × (start q buf img ≡ opened q s i)
unfolding start
start-IsOk q buf img ok =
    let first = check_buffer unrestricted q buf (new_builder q) in
    let second = check_image_beside q first.0 img first.1 in
    let ok' =
      check_image_beside-sticky q first.0 img first.1
        (check_support-sticky q second.0 second.1 ok) in
    let (_, s, es, _, us) = check_buffer-IsOk unrestricted q buf (new_builder q) ok' in
    let is_first = check_buffer-usable unrestricted q buf (new_builder q) es us in
    let (i, ei, free, su, is_second, same) = second_checks q s img (
      subst
        (λ (x : Option Buffer × Builder). IsOk (
          check_support q (check_image_beside q x.0 img x.1).0
            (check_image_beside q x.0 img x.1).1))
        is_first ok) in
    (s, i, es, ei, us, free, su, start-opened q buf img s i is_first is_second same)

place_in-IsOk :
    (s : Buffer) (i : Image) (offset : ℕ) (o g : Triple) (r : Copying)
    → IsOk (place_in s i offset o g r).base
    → (has_zero g ≡ false)
      × (valid_region i.ty i o g ≡ true)
      × (size_add offset (bytes_of i g) ≤ s.size)
      × (place_in s i offset o g r ≡ record r { origin = some o; region = some g; offset = offset })
unfolding place_in check_bytes reject is_valid_img_region notify_error is_success
place_in-IsOk s i offset o g r ok = (ground arith, ground arith, ground arith, ground arith)

place_in-sticky :
    (s : Buffer) (i : Image) (offset : ℕ) (o g : Triple) (r : Copying)
    → IsOk (place_in s i offset o g r).base
    → IsOk r.base
place_in-sticky s i offset o g r ok =
    subst IsOk (ap (λ (x : Copying). x.base) (place_in-IsOk s i offset o g r ok).3) ok

place_given-IsOk :
    (s : Buffer) (i : Image) (offset : ℕ) (origin region : Option Triple) (r : Copying)
    → IsOk (place_given s i offset origin region r).base
    → (o : Triple) × (g : Triple) × (origin ≡ some o)
      × (region ≡ some g)
      × (place_given s i offset origin region r ≡ place_in s i offset o g r)
unfolding place_given reject notify_error is_success
place_given-IsOk s i offset none region r ok = absurd (ground arith)
place_given-IsOk s i offset (some o) none r ok = absurd (ground arith)
place_given-IsOk s i offset (some o) (some g) r ok = (o, g, refl, refl, refl)

-- The area of a builder that has a buffer and an image.
pub place-IsOk :
    (s : Buffer) (i : Image) (offset : ℕ) (origin region : Option Triple) (r : Copying)
    → r.buf ≡ some s
    → r.img ≡ some i
    → IsOk (place offset origin region r).base
    → (o : Triple) × (g : Triple) × (origin ≡ some o)
      × (region ≡ some g)
      × (has_zero g ≡ false)
      × (valid_region i.ty i o g ≡ true)
      × (size_add offset (bytes_of i g) ≤ s.size)
      × (place offset origin region r
          ≡ record r { origin = some o; region = some g; offset = offset })
unfolding place
place-IsOk s i offset origin region r eb ei ok =
    let given : place offset origin region r ≡ place_given s i offset origin region r =
      ground arith in
    let ok' = subst (λ (x : Copying). IsOk x.base) given ok in
    let (o, g, eo, eg, is_in) = place_given-IsOk s i offset origin region r ok' in
    let (hz, va, fits, eq) =
      place_in-IsOk s i offset o g r (subst (λ (x : Copying). IsOk x.base) is_in ok') in
    (o, g, eo, eg, hz, va, fits, given ∙ is_in ∙ eq)

pub place-sticky :
    (offset : ℕ) (origin region : Option Triple) (r : Copying)
    → IsOk (place offset origin region r).base
    → IsOk r.base
unfolding place
place-sticky offset origin region r ok = elim (Option-cases r.buf) [
  | inl e ↦ ground arith
  | inr (s, e) ↦ elim (Option-cases r.img) [
    | inl e' ↦ ground arith
    | inr (i, e') ↦
        let placed = place-IsOk s i offset origin region r e e' ok in
        subst IsOk (ap (λ (x : Copying). x.base) placed.7) ok
  ]
]

-- A builder at its end, with a list for its wait list.
abbrev pub finished : Queue → Buffer → Image → ℕ → Triple → Triple → List Event → Copying
finished q s i offset o g l = record {
  base = record (new_builder q) { wait_list = l };
  buf = some s;
  img = some i;
  origin = some o;
  region = some g;
  offset = offset;
}

-- What both kinds of copies are, between the buffer and the image of the call.
pub record Agrees (q : Queue) (buf img : Option MemObject) (offset : ℕ)
    (origin region : Option Triple) (n : ℕ) (evs : Option (ℕ → Option Event)) (s : Buffer)
    (i : Image) (o g : Triple) (l : List Event) : Type 0 where
  pub buffer_given : buf ≡ some (buffer s)
  pub image_given : img ≡ some (image i)
  pub buffer_usable : usable unrestricted q s ≡ true
  pub image_usable : beside q i s ≡ true
  pub image_supported : supported q i ≡ true
  pub origin_given : origin ≡ some o
  pub region_given : region ≡ some g
  pub not_empty : has_zero g ≡ false
  pub valid : valid_region i.ty i o g ≡ true
  pub fits : size_add offset (bytes_of i g) ≤ s.size
  pub waits : requested n evs ≡ some l
  pub same_context : has_foreign q.context l ≡ false

pub chain-finished :
    (q : Queue) (buf img : Option MemObject) (offset : ℕ) (origin region : Option Triple) (n : ℕ)
    (evs : Option (ℕ → Option Event))
    → IsOk (wait n evs (place offset origin region (start q buf img))).base
    → (s : Buffer) × (i : Image) × (o : Triple) × (g : Triple) × (l : List Event) × Agrees q buf img
        offset origin region n evs s i o g l
      × (wait n evs (place offset origin region (start q buf img)) ≡ finished q s i offset o g l)
unfolding wait new_builder
chain-finished q buf img offset origin region n evs ok =
    let r = start q buf img in
    let r' = place offset origin region r in
    let ok' = set_checked_wait_list-sticky n evs r'.base ok in
    let (s, i, es, ei, us, ui, su, is_open) =
      start-IsOk q buf img (place-sticky offset origin region r ok') in
    let (o, g, eo, eg, hz, va, fits, is_placed) =
      place-IsOk s i offset origin region (opened q s i) refl refl
        (subst (λ (x : Copying). IsOk (place offset origin region x).base) is_open ok') in
    let is_r' = ap (place offset origin region) is_open ∙ is_placed in
    let (l, good, waited, near) =
      set_checked_wait_list-IsOk n evs (new_builder q) refl
        (subst (λ (x : Copying). IsOk (set_checked_wait_list n evs x.base)) is_r' ok) in
    (
      s,
      i,
      o,
      g,
      l,
      record {
        buffer_given = es;
        image_given = ei;
        buffer_usable = us;
        image_usable = ui;
        image_supported = su;
        origin_given = eo;
        region_given = eg;
        not_empty = hz;
        valid = va;
        fits = fits;
        waits = good;
        same_context = near;
      },
      ap (wait n evs) is_r' ∙ ap (λ b. record (finished q s i offset o g []) { base = b }) waited,
    )
