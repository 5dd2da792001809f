-- ===== src/Builder/UnmapMemObject/Refused.antt =====
-- A mapped sub-buffer (lib/Core/Command.cpp, lib/Core/MemoryObject.cpp) that cannot be unmapped.
use open_crun.Prelude.{
  ℕ, ◌≡◌, ◌∙◌, refl, sym, subst, Bool-cases, Option-cases, inl, inr, ap, Bool, false, Option, none,
  some, arith, ◌==◌,
}
use open_crun.Builder.{Buffer, Queue, Event, buffer, failed, invalid_value, check_buffer}
use open_crun.Builder.MapBuffer
use open_crun.Builder.MapBuffer.{
  MapBuffer, mapped_object, set_map_buffer, new, set_blocking, set_map_flags, set_map_area,
  check_flags, reject_value, reject_operation,
}
use open_crun.Builder.UnmapMemObject
use open_crun.Mapping.{MemMappingInfo, Span, Tables, own, sub_buffer, add_mapping, is_valid_mapping}
use open_crun.Mapping.Parents.{is_valid_mapping-add_mapping}

add_mapping-valid :
    (s : Buffer) (a : ℕ) (p : Option ℕ) (q : ℕ) (info : MemMappingInfo) (t : Tables)
    → s.parent ≡ some a
    → (s.id == a) ≡ false
    → is_valid_mapping (mapped_object s) q (add_mapping (mapped_object s) p info t).0
      ≡ is_valid_mapping (mapped_object s) q t
unfolding mapped_object add_mapping
add_mapping-valid s a p q info t part apart =
    subst (λ o. is_valid_mapping o q (add_mapping o p info t).0 ≡ is_valid_mapping o q t)
      (ap (λ x. elim x [ none ↦ own s.id | some p ↦ sub_buffer s.id s.origin (own p) ]) (sym part))
      (go p)
  where
    go :
        (p : Option ℕ)
        → is_valid_mapping
            (sub_buffer s.id s.origin (own a))
            q
            (add_mapping (sub_buffer s.id s.origin (own a)) p info t).0
          ≡ is_valid_mapping (sub_buffer s.id s.origin (own a)) q t
    go none = refl
    go (some p) = is_valid_mapping-add_mapping s.id s.origin (own a) p q info t apart

set_map_buffer-valid :
    (s : Buffer) (a : ℕ) (p : Option ℕ) (q : ℕ) (y z : Span) (r : MapBuffer) (t : Tables)
    → r.source ≡ some s
    → s.parent ≡ some a
    → (s.id == a) ≡ false
    → is_valid_mapping (mapped_object s) q (set_map_buffer p y z r t).1
      ≡ is_valid_mapping (mapped_object s) q t
unfolding set_map_buffer
set_map_buffer-valid s a p q y z r t source part apart =
    let info : MemMappingInfo = record {
      x = record { offset = r.offset; size = r.size };
      y = y;
      z = z;
      flags = r.map_flags;
    } in
    let same : (set_map_buffer p y z r t).1 ≡ (add_mapping (mapped_object s) p info t).0 =
      elim (Bool-cases (add_mapping (mapped_object s) p info t).1) [
        | inl e ↦ rw (source, e) refl
        | inr e ↦ rw (source, e) refl
      ] in
    ap (is_valid_mapping (mapped_object s) q) same ∙ add_mapping-valid s a p q info t part apart

set_blocking-source :
    (blocking : Bool) (r : MapBuffer) → (set_blocking blocking r).source ≡ r.source
unfolding set_blocking
set_blocking-source blocking r = ground arith

check_flags-source :
    (s : Buffer) (flags : ℕ) (r : MapBuffer) → (check_flags s flags r).source ≡ r.source
unfolding check_flags reject_value reject_operation
check_flags-source s flags r = ground arith

set_map_flags-source : (flags : ℕ) (r : MapBuffer) → (set_map_flags flags r).source ≡ r.source
unfolding set_map_flags
set_map_flags-source flags r =
    let pick : Option Buffer → MapBuffer =
      λ x. elim x [ none ↦ r | some s ↦ check_flags s flags r ] in
    elim (Option-cases r.source) [
      | inl e ↦ ap (λ x. (pick x).source) e
      | inr (s, e) ↦ ap (λ x. (pick x).source) e ∙ check_flags-source s flags r
    ]

set_map_area-source :
    (offset size : ℕ) (r : MapBuffer) → (set_map_area offset size r).source ≡ r.source
unfolding set_map_area reject_value
set_map_area-source offset size r = elim (Option-cases r.source) [
  | inl e ↦ rw e refl
  | inr (s, e) ↦ ground arith
]

new-source : (q : Queue) (s : Buffer) → (new q (some (buffer s))).source ≡ some s
unfolding new check_buffer
new-source q s = refl

-- After a call of clEnqueueMapBuffer for a sub-buffer whose parent is another object, whatever its
-- other arguments and its outcome, clEnqueueUnmapMemObject refuses for that sub-buffer every
-- pointer that was not valid for it before, the new mapping's included: addMapping uses the table
-- of the parent, isValidMapping that of the sub-buffer.
pub unmap_sub_buffer-refused :
    (q : Queue) (s : Buffer) (a : ℕ) (p : Option ℕ) (y z : Span) (blocking : Bool)
    (flags offset size n m : ℕ) (evs fs : Option (ℕ → Option Event)) (t : Tables) (u : ℕ)
    → s.parent ≡ some a
    → (s.id == a) ≡ false
    → is_valid_mapping (mapped_object s) u t ≡ false
    → UnmapMemObject.build q
        (some (record { object = mapped_object s; context = s.context }))
        (some u)
        m
        fs
        (MapBuffer.build q (some (buffer s)) p y z blocking flags offset size n evs t).1
      ≡ failed invalid_value
unfolding MapBuffer.build UnmapMemObject.build
unmap_sub_buffer-refused q s a p y z blocking flags offset size n m evs fs t u part apart fresh =
    let r : MapBuffer =
      set_map_area offset size
        (set_map_flags flags (set_blocking blocking (new q (some (buffer s))))) in
    let source : r.source ≡ some s =
      set_map_area-source offset size
        (set_map_flags flags (set_blocking blocking (new q (some (buffer s)))))
      ∙ set_map_flags-source flags (set_blocking blocking (new q (some (buffer s))))
      ∙ set_blocking-source blocking (new q (some (buffer s)))
      ∙ new-source q s in
    let invalid : is_valid_mapping (mapped_object s) u (set_map_buffer p y z r t).1 ≡ false =
      set_map_buffer-valid s a p u y z r t source part apart ∙ fresh in
    rw invalid refl
