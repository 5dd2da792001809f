-- ===== src/Builder/ReadBuffer/Accepted.antt =====
-- When clEnqueueReadBuffer gets a command from its builder, and which (lib/Core/Command.cpp).
use open_crun.Prelude.{
  ℕ, ◌≤◌, ◌≡◌, ◌↔◌, refl, subst, ◌∙◌, ap, Bool, true, Option, none, some, arith,
}
use open_crun.Builder.{
  Buffer, Queue, MemObject, buffer, image, Event, created, new_builder, notify_error, check_buffer,
  check_pointer, no_host_read, is_success, size_add, deref, unless_failed, set_blocking_wait_list,
  is_wait_list_inconsistent, has_error,
}
use open_crun.Builder.Errors.{
  IsOk, requested, Accepts, usable, check_access-usable, check_access-IsOk, check_access-same,
  set_blocking_wait_list-IsOk, set_blocking_wait_list-Accepts, set_blocking_wait_list-sticky,
  unless_failed-created,
}
use open_crun.Builder.ReadBuffer.{
  ReadBuffer, Command, new, set_blocking, set_copy_area, set_wait_list, create, build,
}

module _ (q : Queue) (s : Buffer) (p : ℕ) (blocking : Bool) (offset size : ℕ) where
  abbrev pub prepared : ReadBuffer
  prepared = set_copy_area offset size (set_blocking blocking (new q (some (buffer s)) (some p)))

  abbrev pub ready : ReadBuffer
  ready = record {
    base = new_builder q;
    source = some s;
    target = some p;
    blocking = blocking;
    offset = offset;
    size = size;
  }

  pub prepared-IsOk :
      IsOk prepared.base
      → (usable no_host_read q s ≡ true) × (size_add offset size ≤ s.size) × (prepared ≡ ready)
  unfolding new set_blocking set_copy_area check_buffer check_pointer is_wait_list_inconsistent
      has_error notify_error is_success new_builder
  prepared-IsOk ok =
      let same = check_access-same no_host_read q s (new_builder q) in
      let access = check_access-IsOk no_host_read q s (new_builder q) in
      let eq = check_access-usable no_host_read q s (new_builder q) in
      (
        ground (arith, access, same, eq),
        ground (arith, access, same, eq),
        ground (arith, access, same, eq),
      )

  prepared-usable :
      usable no_host_read q s ≡ true → size_add offset size ≤ s.size → prepared ≡ ready
  unfolding new set_blocking set_copy_area check_buffer check_pointer is_wait_list_inconsistent
      has_error new_builder
  prepared-usable access fits =
      ground (arith, check_access-usable no_host_read q s (new_builder q) access)

-- The command that a valid call asks for.
pub record IsRequested (q : Queue) (buf : Option MemObject) (target : Option ℕ) (blocking : Bool)
    (offset size n : ℕ) (evs : Option (ℕ → Option Event)) (c : Command) : Type 0 where
  pub source : buf ≡ some (buffer c.source)
  pub pointer : (p : ℕ) × (target ≡ some p)
  pub same_target : c.target ≡ target
  pub access : usable no_host_read q c.source ≡ true
  pub waits : requested n evs ≡ some c.wait_list
  pub accepts : Accepts blocking q.context c.wait_list
  pub fits : size_add offset size ≤ c.source.size
  pub same_blocking : c.blocking ≡ blocking
  pub same_offset : c.offset ≡ offset
  pub same_size : c.size ≡ size

module _ (q : Queue) (blocking : Bool) (offset size n : ℕ) (evs : Option (ℕ → Option Event)) where
  ready-IsRequested :
      (c : Command) (s : Buffer) (p : ℕ)
      → usable no_host_read q s ≡ true
      → size_add offset size ≤ s.size
      → create (set_wait_list n evs (ready q s p blocking offset size)) ≡ created c
      → IsRequested q (some (buffer s)) (some p) blocking offset size n evs c
  unfolding create set_wait_list deref new_builder
  ready-IsRequested c s p access fits h =
      let (ok, made) =
        unless_failed-created (set_blocking_wait_list blocking n evs (new_builder q)) _ h in
      let (l, good, eq, accepts) =
        set_blocking_wait_list-IsOk n evs (new_builder q) refl blocking ok in
      let same : l ≡ c.wait_list = ground arith in
      record {
        source = ground arith;
        pointer = (p, refl);
        same_target = ground arith;
        access = ground arith;
        waits = good ∙ ap some same;
        accepts = subst (Accepts blocking q.context) same accepts;
        fits = ground arith;
        same_blocking = ground arith;
        same_offset = ground arith;
        same_size = ground arith;
      }

  create-IsOk :
      (c : Command) (r : ReadBuffer) → create (set_wait_list n evs r) ≡ created c → IsOk r.base
  unfolding create set_wait_list
  create-IsOk c r h =
      set_blocking_wait_list-sticky r.blocking n evs r.base
        (unless_failed-created (set_blocking_wait_list r.blocking n evs r.base) _ h).0

  build-some :
      (c : Command) (s : Buffer) (p : ℕ)
      → build q (some (buffer s)) (some p) blocking offset size n evs ≡ created c
      → IsRequested q (some (buffer s)) (some p) blocking offset size n evs c
  unfolding build
  build-some c s p h =
      let (access, fits, eq) =
        prepared-IsOk q s p blocking offset size
          (create-IsOk c (prepared q s p blocking offset size) h) in
      ready-IsRequested c s p access fits
        (subst (λ r. create (set_wait_list n evs r) ≡ created c) eq h)

  abbrev pub prepared_any : Option MemObject → Option ℕ → ReadBuffer
  prepared_any buf target = set_copy_area offset size (set_blocking blocking (new q buf target))

  pub not_a_buffer :
      (target : Option ℕ) (buf : Option MemObject)
      → (check_buffer no_host_read q buf (new_builder q)).0 ≡ none
      → IsOk (prepared_any buf target).base
      → ⊥
  unfolding new set_blocking set_copy_area check_buffer check_pointer is_wait_list_inconsistent
      has_error notify_error is_success new_builder
  not_a_buffer none none e ok = ground arith
  not_a_buffer (some p) none e ok = ground arith
  not_a_buffer none (some (image i)) e ok = ground arith
  not_a_buffer (some p) (some (image i)) e ok = ground arith
  not_a_buffer target (some (buffer s)) e ok = cc

  pub no_pointer : (s : Buffer) → IsOk (prepared_any (some (buffer s)) none).base → ⊥
  unfolding new set_blocking set_copy_area check_buffer check_pointer is_wait_list_inconsistent
      has_error notify_error is_success new_builder
  no_pointer s ok = ground (arith, check_access-same no_host_read q s (new_builder q))

  build-IsRequested :
      (buf : Option MemObject) (target : Option ℕ) (c : Command)
      → build q buf target blocking offset size n evs ≡ created c
      → IsRequested q buf target blocking offset size n evs c
  unfolding build check_buffer
  build-IsRequested none target c h =
      absurd (not_a_buffer target none refl (create-IsOk c (prepared_any none target) h))
  build-IsRequested (some (image i)) target c h = absurd (
      not_a_buffer target (some (image i)) refl
        (create-IsOk c (prepared_any (some (image i)) target) h))
  build-IsRequested (some (buffer s)) none c h =
      absurd (no_pointer s (create-IsOk c (prepared_any (some (buffer s)) none) h))
  build-IsRequested (some (buffer s)) (some p) c h = build-some c s p h

  ready-created :
      (c : Command) (p : ℕ)
      → IsRequested q (some (buffer c.source)) (some p) blocking offset size n evs c
      → create (set_wait_list n evs (ready q c.source p blocking offset size)) ≡ created c
  unfolding create set_wait_list deref new_builder unless_failed is_success
  ready-created c p v =
      rw
        (set_blocking_wait_list-Accepts n evs (new_builder q) refl blocking {l = c.wait_list}
          v.waits v.accepts)
        (ground arith)

  some-build :
      (c : Command) (p : ℕ)
      → IsRequested q (some (buffer c.source)) (some p) blocking offset size n evs c
      → build q (some (buffer c.source)) (some p) blocking offset size n evs ≡ created c
  unfolding build
  some-build c p v =
      rw (prepared-usable q c.source p blocking offset size v.access v.fits) (ready-created c p v)

  -- The chain of calls of clEnqueueReadBuffer yields a command exactly when the call is valid (a
  -- buffer that the queue may use, a pointer, a sum of offset and size as a size_t that is at most
  -- the buffer's size, a valid wait list of the context without an ended error where the call
  -- blocks), and the command is then the one that the call asks for.
  pub read_buffer-created :
      (buf : Option MemObject) (target : Option ℕ) (c : Command)
      → (build q buf target blocking offset size n evs ≡ created c)
        ↔ IsRequested q buf target blocking offset size n evs c
  read_buffer-created buf target c = (
    build-IsRequested buf target c,
    λ v.
        subst
          (λ (x : Option MemObject × Option ℕ).
            build q x.0 x.1 blocking offset size n evs ≡ created c)
          (ground arith)
          (some-build c v.pointer.0 (
            subst
              (λ (x : Option MemObject × Option ℕ).
                IsRequested q x.0 x.1 blocking offset size n evs c)
              (ground arith) v)),
  )
