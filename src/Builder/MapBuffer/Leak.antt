-- ===== src/Builder/MapBuffer/Leak.antt =====
-- A mapping whose command is refused (EnqueueMapBufferBuilder in lib/Core/Command.cpp).
use open_crun.Prelude.{
  ℕ, ◌≡◌, ◌∙◌, ap, refl, Bool, true, false, List, [], ◌∷◌, ◌++◌, Option, none, some, arith, ltb,
  ==_iff,
}
use open_crun.Builder.{
  Buffer, Queue, buffer, is_success, size_add, new_builder, notify_error, check_buffer,
  unrestricted, no_host_read, is_wait_list_inconsistent, has_error, set_blocking_wait_list,
  set_base_wait_list, check_contexts, has_foreign, invalid_value, failed, Created, unless_failed,
}
use open_crun.Builder.MapBuffer.{
  MapBuffer, Command, map_read, new, set_blocking, reject_value, set_map_flags, check_flags,
  set_map_area, set_map_buffer, mapped_object, set_wait_list, create, build,
}
use open_crun.Builder.Errors.{usable, check_access-usable}
use open_crun.Mapping.{
  set_table, own, MemMappingInfo, Span, Entry, Tables, insert, has_key, add_mapping,
  is_valid_mapping,
}

has_key-snoc :
    (p : ℕ) (info : MemMappingInfo) (l : List Entry) → has_key p (l ++ (p, info) ∷ []) ≡ true
unfolding has_key
has_key-snoc p info [] = ground (arith, ==_iff p p)
has_key-snoc p info ((k, i) ∷ l) = ground (arith, has_key-snoc p info l)

set_table_self : (i : ℕ) (l : List Entry) (t : Tables) → set_table i l t i ≡ l
set_table_self i l t = ground (arith, ==_iff i i)

-- The builder when the area is set.
abbrev flagged : Queue → Buffer → Bool → MapBuffer
flagged q s blocking = record {
  base = new_builder q;
  source = some s;
  blocking = blocking;
  map_flags = map_read;
  offset = 0;
  size = 0;
  map_buf = none;
}

new-usable :
    (q : Queue) (s : Buffer)
    → usable unrestricted q s ≡ true
    → new q (some (buffer s)) ≡ record (flagged q s false) { map_flags = 0 }
unfolding new check_buffer
new-usable q s u = rw (check_access-usable unrestricted q s (new_builder q) u) refl

set_map_flags-flagged :
    (q : Queue) (s : Buffer) (blocking : Bool)
    → no_host_read s.flags ≡ false
    → set_map_flags map_read (set_blocking blocking (record (flagged q s false) { map_flags = 0 }))
      ≡ flagged q s blocking
unfolding set_map_flags check_flags set_blocking new_builder is_wait_list_inconsistent has_error
set_map_flags-flagged q s true readable = rw readable refl
set_map_flags-flagged q s false readable = rw readable refl

-- The mapping that is added.
abbrev leaked : Span → Span → MemMappingInfo
leaked y z = record { x = record { offset = 0; size = 0 }; y = y; z = z; flags = map_read }

abbrev refused : Queue → Buffer → Bool → MapBuffer
refused q s blocking = reject_value (flagged q s blocking)

set_map_buffer-refused :
    (q : Queue) (s : Buffer) (p : ℕ) (y z : Span) (blocking : Bool) (t : Tables)
    → s.parent ≡ none
    → set_map_buffer (some p) y z (refused q s blocking) t ≡ (
      record (refused q s blocking) { map_buf = some p },
      set_table s.id (t s.id ++ (p, leaked y z) ∷ []) t,
    )
unfolding set_map_buffer mapped_object add_mapping insert reject_value notify_error
set_map_buffer-refused q s p y z blocking t whole = rw whole refl

create-refused :
    (q : Queue) (s : Buffer) (p : Option ℕ) (blocking : Bool)
    → create (set_wait_list 0 none (record (refused q s blocking) { map_buf = p }))
      ≡ failed invalid_value
unfolding create set_wait_list set_blocking_wait_list set_base_wait_list check_contexts has_foreign
    is_wait_list_inconsistent has_error reject_value notify_error new_builder unless_failed
    is_success
create-refused q s p true = refl
create-refused q s p false = refl

set_map_area-refused :
    (q : Queue) (s : Buffer) (blocking : Bool) (offset size : ℕ)
    → ltb s.size (size_add offset size) ≡ true
    → set_map_area offset size (flagged q s blocking) ≡ refused q s blocking
unfolding set_map_area
set_map_area-refused q s blocking offset size out = rw out refl

-- The calls after the mapping is added.
abbrev finish : MapBuffer × Tables → Created Command × Tables
finish x = (create (set_wait_list 0 none x.0), x.1)

build-refused :
    (q : Queue) (s : Buffer) (p : ℕ) (y z : Span) (blocking : Bool) (offset size : ℕ) (t : Tables)
    → s.parent ≡ none
    → usable unrestricted q s ≡ true
    → no_host_read s.flags ≡ false
    → ltb s.size (size_add offset size) ≡ true
    → build q (some (buffer s)) (some p) y z blocking map_read offset size 0 none t
      ≡ (failed invalid_value, set_table s.id (t s.id ++ (p, leaked y z) ∷ []) t)
unfolding build
build-refused q s p y z blocking offset size t whole u readable out =
    let prepared : set_map_area offset size
          (set_map_flags map_read (set_blocking blocking (new q (some (buffer s)))))
        ≡ refused q s blocking =
      ap (λ r. set_map_area offset size (set_map_flags map_read (set_blocking blocking r)))
        (new-usable q s u)
      ∙ ap (set_map_area offset size) (set_map_flags-flagged q s blocking readable)
      ∙ set_map_area-refused q s blocking offset size out in
    ap (λ r. finish (set_map_buffer (some p) y z r t)) prepared
    ∙ ap finish (set_map_buffer-refused q s p y z blocking t whole)
    ∙ ap (λ c. (c, set_table s.id (t s.id ++ (p, leaked y z) ∷ []) t))
        (create-refused q s (some p) blocking)

-- For a buffer that is no sub-buffer, that the queue may use and the host may read, a map for
-- reading with an area that ends after the buffer and no wait list is refused with an invalid
-- value, and yet the pointer counts as a valid mapping of the buffer afterwards.
refused_map-is_valid_mapping :
    (q : Queue) (s : Buffer) (p : ℕ) (y z : Span) (blocking : Bool) (offset size : ℕ) (t : Tables)
    → s.parent ≡ none
    → usable unrestricted q s ≡ true
    → no_host_read s.flags ≡ false
    → ltb s.size (size_add offset size) ≡ true
    → ((build q (some (buffer s)) (some p) y z blocking map_read offset size 0 none t).0
        ≡ failed invalid_value)
      × (is_valid_mapping
            (own s.id)
            p
            (build q (some (buffer s)) (some p) y z blocking map_read offset size 0 none t).1
          ≡ true)
unfolding is_valid_mapping
refused_map-is_valid_mapping q s p y z blocking offset size t whole u readable out =
    let same = build-refused q s p y z blocking offset size t whole u readable out in
    (
      ap (λ r. r.0) same,
      rw (same, set_table_self s.id (t s.id ++ (p, leaked y z) ∷ []) t)
          (has_key-snoc p (leaked y z) (t s.id)),
    )
