-- ===== src/Builder/ReadBuffer/Faults.antt =====
-- What `Create` of EnqueueReadBufferBuilder never does (lib/Core/Command.cpp).
use open_crun.Prelude.{
  ℕ, ◌≡◌, ◌≢◌, refl, Bool, Option, none, some, arith, Bool-cases, Option-cases, inl, inr,
}
use open_crun.Builder.{
  Buffer, Queue, MemObject, buffer, image, Event, null_dereference, deref, unless_failed,
  is_success, check_buffer,
}
use open_crun.Builder.Errors.{IsOk, set_blocking_wait_list-sticky}
use open_crun.Builder.ReadBuffer.{
  ReadBuffer, new, set_blocking, set_copy_area, set_wait_list, create, build,
}
use open_crun.Builder.ReadBuffer.Accepted.{prepared_any, not_a_buffer}

create-null : (r : ReadBuffer) → create r ≡ null_dereference → IsOk r.base × (r.source ≡ none)
unfolding create deref unless_failed
create-null r h = elim (Bool-cases (is_success r.base.err_code)) [
  | inr bad ↦ absurd (ground arith)
  | inl ok ↦ elim (Option-cases r.source) [ inl e ↦ (ok, e) | inr (s, e) ↦ absurd (ground arith) ]
]

module _ (q : Queue) (blocking : Bool) (offset size n : ℕ) (evs : Option (ℕ → Option Event)) where
  prepared-source :
      (s : Buffer) (target : Option ℕ)
      → (prepared_any q blocking offset size n evs (some (buffer s)) target).source ≡ some s
  unfolding new set_blocking set_copy_area check_buffer
  prepared-source s target = ground arith

  null-source :
      (buf : Option MemObject) (target : Option ℕ)
      → (prepared_any q blocking offset size n evs buf target).source ≡ none
      → IsOk (prepared_any q blocking offset size n evs buf target).base
      → ⊥
  unfolding check_buffer
  null-source none target e ok = not_a_buffer q blocking offset size n evs target none refl ok
  null-source (some (image i)) target e ok =
      not_a_buffer q blocking offset size n evs target (some (image i)) refl ok
  null-source (some (buffer s)) target e ok = cc (prepared-source s target)

  -- The chain of calls of clEnqueueReadBuffer follows no null pointer to a buffer, whatever the
  -- arguments.
  read_buffer-ne-null :
      (buf : Option MemObject) (target : Option ℕ)
      → build q buf target blocking offset size n evs ≢ null_dereference
  unfolding build set_wait_list
  read_buffer-ne-null buf target h =
      let r = prepared_any q blocking offset size n evs buf target in
      let (ok, e) = create-null (set_wait_list n evs r) h in
      null-source buf target e (set_blocking_wait_list-sticky r.blocking n evs r.base ok)
