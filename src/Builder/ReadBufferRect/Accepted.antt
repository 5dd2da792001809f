-- ===== src/Builder/ReadBufferRect/Accepted.antt =====
-- The bounds of a box that clEnqueueReadBufferRect reads from a buffer (lib/Core/Command.cpp).
use open_crun.Prelude.{
  ℕ, ◌≤◌, ◌<◌, ◌≡◌, refl, subst, sym, ◌∙◌, ap, true, false, none, some, arith, Option-cases, inl,
  inr, ◌+◌, ◌*◌, ◌-◌, ◌%◌, ◌==◌, Bool-cases,
}
use native.Mathlib.Nat.{mul-le-mul_right, mul-le-mul_left}
use open_crun.Builder.{
  Buffer, Queue, buffer, created, new_builder, notify_error, no_host_read, is_success, size_mul,
  size_add, size_mod, deref, check_pointer, is_wait_list_inconsistent, has_error,
  set_blocking_wait_list, set_base_wait_list, check_contexts, has_foreign, unless_failed,
}
use open_crun.Builder.Errors.{IsOk, usable, check_buffer-usable}
use open_crun.Builder.ImageChecks.{Triple, has_zero, pick_pitch}
use open_crun.Builder.ImageChecks.Bounds.{pick_pitch-le}
use open_crun.Builder.RectArea.{pick_slice, last_index, start_index}
use open_crun.Builder.ReadBufferRect.{
  ReadBufferRect, Command, new, set_blocking, reject, set_region, set_target_offset, set_target_row,
  set_target_slice, set_source_offset, set_source_row, set_source_slice, place_source,
  set_wait_list, command, create, build,
}

pick_slice-room :
    (given row : ℕ) (g : Triple) {p : ℕ} → pick_slice given row g ≡ some p → size_mul g.y row ≤ p
unfolding pick_slice
pick_slice-room given row g h = ground arith

-- The builder with a box of the buffer.
abbrev pub Boxed : Buffer → Triple → Triple → ReadBufferRect → ReadBufferRect → Type 0
Boxed s g o r r' =
    (rp : ℕ) × (sp : ℕ) × (g.x ≤ rp)
    × (size_mul g.y rp ≤ sp)
    × (last_index o g rp sp ≤ s.size)
    × (r' ≡ record r { source_row = rp; source_slice = sp; source_offset = start_index o rp sp })

place_source-IsOk :
    (s : Buffer) (g o : Triple) (r : ReadBufferRect)
    → IsOk (place_source s g o r).base
    → (last_index o g r.source_row r.source_slice ≤ s.size)
      × (place_source s g o r
          ≡ record r { source_offset = start_index o r.source_row r.source_slice })
unfolding place_source reject notify_error is_success
place_source-IsOk s g o r ok = (ground arith, ground arith)

set_source_row-IsOk :
    (s : Buffer) (g o : Triple) (row slice : ℕ) (r : ReadBufferRect)
    → IsOk (set_source_row s g o row slice r).base
    → Boxed s g o r (set_source_row s g o row slice r)
unfolding set_source_row set_source_slice reject notify_error is_success
set_source_row-IsOk s g o row slice r ok = elim (Option-cases (pick_pitch row g.x)) [
  | inl e ↦ absurd (ground arith)
  | inr (p, e) ↦ elim (Option-cases (pick_slice slice p g)) [
    | inl e' ↦ absurd (ground arith)
    | inr (p', e') ↦
        let placed =
          place_source-IsOk s g o (record r { source_row = p; source_slice = p' }) (ground arith) in
        (
          p,
          p',
          pick_pitch-le row g.x e,
          pick_slice-room slice p g e',
          placed.0,
          ground (arith, placed.1),
        )
  ]
]

set_source_offset-Boxed :
    (s : Buffer) (g o : Triple) (row slice : ℕ) (r : ReadBufferRect)
    → r.source ≡ some s
    → r.region ≡ some g
    → IsOk (set_source_offset (some o) row slice r).base
    → Boxed s g o r (set_source_offset (some o) row slice r)
unfolding set_source_offset
set_source_offset-Boxed s g o row slice r es eg ok =
    let same : set_source_offset (some o) row slice r ≡ set_source_row s g o row slice r =
      ground arith in
    subst (Boxed s g o r) (sym same)
      (set_source_row-IsOk s g o row slice r (subst (λ (x : ReadBufferRect). IsOk x.base) same ok))

-- The place of the byte (i, j, k) of a box, as a number without a bound.
abbrev pub byte_at : Triple → ℕ → ℕ → ℕ → ℕ → ℕ → ℕ
byte_at o row slice i j k = o.x + i + (o.y + j) * row + (o.z + k) * slice

abbrev pub last_byte : Triple → Triple → ℕ → ℕ → ℕ
last_byte o g row slice = byte_at o row slice (g.x - 1) (g.y - 1) (g.z - 1)

byte_at-le :
    (o g : Triple) (row slice i j k : ℕ)
    → i < g.x
    → j < g.y
    → k < g.z
    → byte_at o row slice i j k ≤ last_byte o g row slice
byte_at-le o g row slice i j k hi hj hk = omega (
  arith,
  mul-le-mul_right {m = o.y + j} {n = o.y + (g.y - 1)} row (omega arith),
  mul-le-mul_right {m = o.z + k} {n = o.z + (g.z - 1)} slice (omega arith),
)

le-mul : (a p : ℕ) → 0 < p → a ≤ a * p
le-mul a p h = omega (arith, mul-le-mul_left {m = 1} {n = p} a h)

-- A product that fits in a size_t is computed exactly.
size_mul-exact : (a p : ℕ) → a * p < size_mod → size_mul (a % size_mod) p ≡ a * p
unfolding size_mul
size_mul-exact a p h = elim (Bool-cases (p == 0)) [
  | inl e ↦ let nothing : p ≡ 0 = ground arith in rw nothing (omega arith)
  | inr e ↦
      let small : a < size_mod = omega (arith, le-mul a p (ground arith)) in
      let same : a % size_mod ≡ a = omega (arith, small) in rw same (omega (arith, h))
]

last_index-exact :
    (o g : Triple) (row slice : ℕ)
    → last_byte o g row slice < size_mod
    → last_index o g row slice ≡ last_byte o g row slice
unfolding last_index size_add
last_index-exact o g row slice h = omega (
  arith,
  size_mul-exact (o.y + (g.y - 1)) row (omega arith),
  size_mul-exact (o.z + (g.z - 1)) slice (omega arith),
)

start_index-exact :
    (o : Triple) (row slice : ℕ)
    → byte_at o row slice 0 0 0 < size_mod
    → start_index o row slice ≡ byte_at o row slice 0 0 0
unfolding start_index size_add size_mul
start_index-exact o row slice h = omega arith

-- Every byte of the box is at the end of the buffer or before it, in rows and slices that have room
-- for those of the box, and the command begins with the first of them.
abbrev pub Reads : Buffer → Triple → Triple → ReadBufferRect → Type 0
Reads s g o r =
    (g.x ≤ r.source_row)
    × ((i j k : ℕ)
        → i < g.x
        → j < g.y
        → k < g.z
        → byte_at o r.source_row r.source_slice i j k ≤ s.size)
    × (r.source_offset ≡ byte_at o r.source_row r.source_slice 0 0 0)

Boxed-Reads :
    (s : Buffer) (g o : Triple) (r r' : ReadBufferRect)
    → last_byte o g r'.source_row r'.source_slice < size_mod
    → Boxed s g o r r'
    → Reads s g o r'
Boxed-Reads s g o r r' plain (rp, sp, wide, room, inside, e) =
    let row : r'.source_row ≡ rp = ap (λ x. x.source_row) e in
    let slice : r'.source_slice ≡ sp = ap (λ x. x.source_slice) e in
    let start : r'.source_offset ≡ start_index o rp sp = ap (λ x. x.source_offset) e in
    let plain' : last_byte o g rp sp < size_mod =
      subst (λ p. last_byte o g p sp < size_mod) row
        (subst (λ q. last_byte o g r'.source_row q < size_mod) slice plain) in
    let last = last_index-exact o g rp sp plain' in
    let first_le : byte_at o rp sp 0 0 0 ≤ last_byte o g rp sp = omega (
      arith,
      mul-le-mul_right {m = o.y} {n = o.y + (g.y - 1)} rp (omega arith),
      mul-le-mul_right {m = o.z} {n = o.z + (g.z - 1)} sp (omega arith),
    ) in
    rw (row, slice, start)
      (
        wide,
        λ i j k hi hj hk. omega (arith, byte_at-le o g rp sp i j k hi hj hk, last, inside),
        start_index-exact o rp sp (omega (arith, first_le, plain')),
      )

-- Let SetSourceOffset leave the rectangle builder without an error, for a buffer, a region and an
-- origin, and let the place of the last byte of the box, by the pitches of the builder, be below
-- 2^64. Then a row is at least as wide as the region, the place of every byte of the box is at most
-- the size of the buffer, which is one more than its last byte, and the builder's offset is the
-- place of the first byte.
pub read_buffer_rect-Reads :
    (s : Buffer) (g o : Triple) (row slice : ℕ) (r : ReadBufferRect)
    → r.source ≡ some s
    → r.region ≡ some g
    → (let r' = set_source_offset (some o) row slice r in
        last_byte o g r'.source_row r'.source_slice < size_mod)
    → IsOk (set_source_offset (some o) row slice r).base
    → Reads s g o (set_source_offset (some o) row slice r)
read_buffer_rect-Reads s g o row slice r es eg plain ok =
    Boxed-Reads s g o r (set_source_offset (some o) row slice r) plain
      (set_source_offset-Boxed s g o row slice r es eg ok)

abbrev pub unit_box : Triple
unit_box = record { x = 1; y = 1; z = 1 }

abbrev pub first : Triple
first = record { x = 0; y = 0; z = 0 }

-- One byte after the end of the buffer.
abbrev pub after_end : Buffer → Triple
after_end s = record { x = s.size; y = 0; z = 0 }

abbrev unset : ℕ → Queue → Buffer → ℕ → ReadBufferRect
unset any q s p = record {
  base = new_builder q;
  target = some p;
  source = some s;
  blocking = false;
  region = none;
  target_offset = 0;
  source_offset = 0;
  target_row = any;
  target_slice = any;
  source_row = any;
  source_slice = any;
}

new-usable :
    (any : ℕ) (q : Queue) (s : Buffer) (p : ℕ)
    → usable no_host_read q s ≡ true
    → new any q (some (buffer s)) (some p) ≡ unset any q s p
unfolding new check_pointer
new-usable any q s p u =
    ground
      (arith, check_buffer-usable no_host_read q (some (buffer s)) (new_builder q) {s = s} refl u)

abbrev aimed : ℕ → Queue → Buffer → ℕ → ReadBufferRect
aimed any q s p = record (unset any q s p) {
  region = some unit_box;
  target_row = 1;
  target_slice = 1;
}

unset-aimed :
    (any : ℕ) (q : Queue) (s : Buffer) (p : ℕ)
    → set_target_offset
        (some first)
        0
        0
        (set_region (some unit_box) (set_blocking false (unset any q s p)))
      ≡ aimed any q s p
unfolding set_target_offset set_target_row set_target_slice set_region set_blocking has_zero
    pick_pitch pick_slice size_mul size_add start_index
unset-aimed any q s p = refl

after_end-indices :
    (s : Buffer)
    → s.size < size_mod
    → (last_index (after_end s) unit_box 1 1 ≡ s.size) × (start_index (after_end s) 1 1 ≡ s.size)
unfolding last_index start_index size_mul size_add
after_end-indices s h = (omega arith, omega arith)

aimed-placed :
    (any : ℕ) (q : Queue) (s : Buffer) (p : ℕ)
    → s.size < size_mod
    → set_source_offset (some (after_end s)) 0 0 (aimed any q s p)
      ≡ record (aimed any q s p) { source_row = 1; source_slice = 1; source_offset = s.size }
unfolding set_source_offset set_source_row set_source_slice place_source pick_pitch pick_slice
    size_mul
aimed-placed any q s p h = let (last, start) = after_end-indices s h in ground (arith, last, start)

-- For a buffer of less than 2^64 bytes that the queue may use, clEnqueueReadBufferRect of one byte,
-- whose origin is the size of the buffer, yields a command that reads the byte after the end.
read_buffer_rect-after_end :
    (any : ℕ) (q : Queue) (s : Buffer) (p : ℕ)
    → s.size < size_mod
    → usable no_host_read q s ≡ true
    → (c : Command) × (build any q
          (some (buffer s))
          (some p)
          false
          (some unit_box)
          (some first)
          0
          0
          (some (after_end s))
          0
          0
          0
          none
        ≡ created c)
      × (c.source ≡ s)
      × (c.source_offset ≡ s.size)
      × (c.region ≡ unit_box)
unfolding build create set_wait_list command deref unless_failed is_success set_blocking_wait_list
    set_base_wait_list check_contexts is_wait_list_inconsistent has_error has_foreign new_builder
read_buffer_rect-after_end any q s p small u =
    let made = record (aimed any q s p) {
      source_row = 1;
      source_slice = 1;
      source_offset = s.size;
    } in
    let steps =
      ap
        (λ x.
          set_source_offset (some (after_end s)) 0 0 (
            set_target_offset (some first) 0 0 (set_region (some unit_box) (set_blocking false x))))
        (new-usable any q s p u)
      ∙ ap (set_source_offset (some (after_end s)) 0 0) (unset-aimed any q s p)
      ∙ aimed-placed any q s p small in
    (command made s unit_box, ap (λ x. create (set_wait_list 0 none x)) steps, refl, refl, refl)
