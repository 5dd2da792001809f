-- ===== src/Builder/FillBuffer/Accepted.antt =====
-- What clEnqueueFillBuffer guarantees of the command that its builder creates
-- (lib/Core/Command.cpp).
use open_crun.Prelude.{
  ℕ, zero, suc, ◌-◌, ◌%◌, ◌≤◌, ◌<◌, ◌≡◌, refl, subst, ◌∙◌, ap, Bool, true, false, ◌&&◌, ◌||◌,
  Option, none, some, arith, Option-cases, inl, inr, ◌==◌, has,
}
use open_crun.Builder.{
  Buffer, Queue, MemObject, buffer, Event, created, new_builder, notify_error, check_pointer,
  unrestricted, is_success, size_add, deref, has_foreign,
}
use open_crun.Builder.Errors.{
  IsOk, requested, usable, check_buffer-IsOk, set_checked_wait_list-IsOk,
  set_checked_wait_list-sticky, check_buffer-usable, unless_failed-created,
}
use open_crun.Builder.FillBuffer.{
  FillBuffer, Command, new, set_pattern_size, set_fill_region, set_wait_list, create, build,
}

-- The sizes that OpenCL allows for a pattern.
abbrev pub is_pattern_size : ℕ → Bool
is_pattern_size p =
    p == 1 || p == 2 || p == 4 || p == 8 || p == 16 || p == 32 || p == 64 || p == 128

abbrev all_below : ℕ → (ℕ → Bool) → Bool
all_below zero f = true
all_below (suc n) f = f n && all_below n f

all_below_sound : (n : ℕ) (f : ℕ → Bool) (x : ℕ) → all_below n f ≡ true → x < n → f x ≡ true
all_below_sound zero f x h lt = absurd (omega arith)
all_below_sound (suc n) f x h lt = ground (arith, all_below_sound n f x)

pattern_table : all_below 129 (λ p. p == 0 || has p (p - 1) || is_pattern_size p) ≡ true
pattern_table = refl

pattern_size_lem :
    (p : ℕ) → (p == 0) ≡ false → has p (p - 1) ≡ false → p ≤ 128 → is_pattern_size p ≡ true
pattern_size_lem p h k le =
    let table =
      all_below_sound 129 (λ x. x == 0 || has x (x - 1) || is_pattern_size x) p pattern_table
        (omega arith) in
    or_right (p == 0) (has p (p - 1)) (is_pattern_size p) table h k
  where
    or_right : (a b c : Bool) → a || b || c ≡ true → a ≡ false → b ≡ false → c ≡ true
    or_right true b c e x y = cc
    or_right false true c e x y = cc
    or_right false false c e x y = e

set_pattern_size-IsOk :
    (p : ℕ) (r : FillBuffer)
    → IsOk (set_pattern_size p r).base
    → (set_pattern_size p r ≡ record r { source_size = p }) × (is_pattern_size p ≡ true)
unfolding set_pattern_size notify_error is_success
set_pattern_size-IsOk p r ok =
    (ground arith, pattern_size_lem p (ground arith) (ground arith) (ground arith))

set_fill_region-IsOk :
    (offset size : ℕ) (r : FillBuffer) {t : Buffer}
    → r.target ≡ some t
    → (r.source_size == 0) ≡ false
    → IsOk (set_fill_region offset size r).base
    → (set_fill_region offset size r ≡ record r { target_offset = offset; target_size = size })
      × (offset % r.source_size ≡ 0)
      × (size % r.source_size ≡ 0)
      × (size_add offset size ≤ t.size)
unfolding set_fill_region notify_error is_success
set_fill_region-IsOk offset size r e h ok = (ground arith, ground arith, ground arith, ground arith)

set_fill_region-sticky :
    (offset size : ℕ) (r : FillBuffer) → IsOk (set_fill_region offset size r).base → IsOk r.base
unfolding set_fill_region notify_error is_success
set_fill_region-sticky offset size r ok = elim (Option-cases r.target) [
  | inl e ↦ ground arith
  | inr (t, e) ↦ ground arith
]

set_pattern_size-sticky : (p : ℕ) (r : FillBuffer) → IsOk (set_pattern_size p r).base → IsOk r.base
unfolding set_pattern_size notify_error is_success
set_pattern_size-sticky p r ok = ground arith

create-created :
    (r : FillBuffer) {c : Command}
    → create r ≡ created c
    → IsOk r.base
      × (r.target ≡ some c.target)
      × (c ≡ record {
        target = c.target;
        source = r.source;
        source_size = r.source_size;
        target_offset = r.target_offset;
        target_size = r.target_size;
        wait_list = r.base.wait_list;
      })
unfolding create deref
create-created r h =
    let (ok, made) = unless_failed-created r.base _ h in
    elim (Option-cases r.target) [
      | inl e ↦ absurd (ground arith)
      | inr (t, e) ↦ (ok, ground arith, ground arith)
    ]

new-IsOk :
    (q : Queue) (x : Option MemObject) (ptr : Option ℕ)
    → IsOk (new q x ptr).base
    → (t : Buffer) × (p : ℕ) × (x ≡ some (buffer t))
      × (ptr ≡ some p)
      × (usable unrestricted q t ≡ true)
      × (new q x ptr ≡ record {
        base = new_builder q;
        target = some t;
        source = ptr;
        source_size = 0;
        target_offset = 0;
        target_size = 0;
      })
unfolding new check_pointer notify_error is_success
new-IsOk q x none ok = absurd (ground arith)
new-IsOk q x (some p) ok =
    let (ok', t, e, h, u) = check_buffer-IsOk unrestricted q x (new_builder q) ok in
    (
      t,
      p,
      e,
      refl,
      u,
      ground (arith, check_buffer-usable unrestricted q x (new_builder q) {s = t} e u),
    )

-- A fill that OpenCL allows.
pub record IsAllowed (q : Queue) (mem : Option MemObject) (ptr : Option ℕ)
    (pattern_size offset size n : ℕ) (evs : Option (ℕ → Option Event)) (c : Command) : Type 0 where
  pub target : mem ≡ some (buffer c.target)
  pub target_usable : usable unrestricted q c.target ≡ true
  pub pointer : (p : ℕ) × (c.source ≡ some p) × (ptr ≡ some p)
  pub pattern : c.source_size ≡ pattern_size
  pub pattern_allowed : is_pattern_size pattern_size ≡ true
  pub aligned : (offset % pattern_size ≡ 0) × (size % pattern_size ≡ 0)
  pub place : (c.target_offset ≡ offset) × (c.target_size ≡ size)
  pub fits : size_add offset size ≤ c.target.size
  pub waits : requested n evs ≡ some c.wait_list
  pub same_context : has_foreign q.context c.wait_list ≡ false

abbrev sized : Queue → Option ℕ → ℕ → Buffer → FillBuffer
sized q ptr pattern_size t = record {
  base = new_builder q;
  target = some t;
  source = ptr;
  source_size = pattern_size;
  target_offset = 0;
  target_size = 0;
}

abbrev ready : Queue → Option ℕ → ℕ → ℕ → ℕ → Buffer → FillBuffer
ready q ptr pattern_size offset size t = record (sized q ptr pattern_size t) {
  target_offset = offset;
  target_size = size;
}

module _ (q : Queue) (mem : Option MemObject) (ptr : Option ℕ) (pattern_size offset size n : ℕ)
    (evs : Option (ℕ → Option Event)) where
  ready-IsAllowed :
      (c : Command) (t : Buffer) (p : ℕ)
      → mem ≡ some (buffer t)
      → ptr ≡ some p
      → usable unrestricted q t ≡ true
      → is_pattern_size pattern_size ≡ true
      → (offset % pattern_size ≡ 0) × (size % pattern_size ≡ 0)
      → size_add offset size ≤ t.size
      → create (set_wait_list n evs (ready q ptr pattern_size offset size t)) ≡ created c
      → IsAllowed q mem ptr pattern_size offset size n evs c
  unfolding set_wait_list new_builder
  ready-IsAllowed c t p et ep ut allowed aligned fits h =
      let (ok, ct, made) =
        create-created (set_wait_list n evs (ready q ptr pattern_size offset size t)) h in
      let (l, good, eq, near) = set_checked_wait_list-IsOk n evs (new_builder q) refl ok in
      let same : l ≡ c.wait_list = ground arith in
      let is_t : t ≡ c.target = ground arith in
      record {
        target = ground arith;
        target_usable = subst (λ x. usable unrestricted q x ≡ true) is_t ut;
        pointer = (p, ground arith, ep);
        pattern = ground arith;
        pattern_allowed = allowed;
        aligned = aligned;
        place = (ground arith, ground arith);
        fits = subst (λ (x : Buffer). size_add offset size ≤ x.size) is_t fits;
        waits = good ∙ ap some same;
        same_context = subst (λ k. has_foreign q.context k ≡ false) same near;
      }

  -- A command that the chain of calls of clEnqueueFillBuffer yields fills a buffer that the queue
  -- may use with a pattern that is not null, of 1, 2, 4, 8, 16, 32, 64 or 128 bytes; offset and
  -- size are those of the call and multiples of the pattern's size, and their sum as a size_t is at
  -- most the size of the buffer; the wait list is the caller's, of the queue's context.
  pub fill_buffer-IsAllowed :
      (c : Command)
      → build q mem ptr pattern_size offset size n evs ≡ created c
      → IsAllowed q mem ptr pattern_size offset size n evs c
  unfolding build set_wait_list
  fill_buffer-IsAllowed c h =
      let r = new q mem ptr in
      let r' = set_pattern_size pattern_size r in
      let r'' = set_fill_region offset size r' in
      let (ok, ct, made) = create-created (set_wait_list n evs r'') h in
      let ok'' = set_checked_wait_list-sticky n evs r''.base ok in
      let ok' = set_fill_region-sticky offset size r' ok'' in
      let (t, p, et, ep, ut, is_new) =
        new-IsOk q mem ptr (set_pattern_size-sticky pattern_size r ok') in
      let (is_sized, allowed) = set_pattern_size-IsOk pattern_size r ok' in
      let s : r' ≡ sized q ptr pattern_size t =
        is_sized ∙ ap (λ (x : FillBuffer). record x { source_size = pattern_size }) is_new in
      let (filled, o, z, fits) =
        set_fill_region-IsOk offset size (sized q ptr pattern_size t) {t = t} refl (ground arith)
          (subst (λ (x : FillBuffer). IsOk (set_fill_region offset size x).base) s ok'') in
      ready-IsAllowed c t p et ep ut allowed (o, z) fits
        (subst (λ (x : FillBuffer). create (set_wait_list n evs x) ≡ created c)
          (ap (set_fill_region offset size) s ∙ filled) h)
