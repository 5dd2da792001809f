-- ===== src/Builder/CopyBuffer/Accepted.antt =====
-- What clEnqueueCopyBuffer guarantees of the command that its builder creates
-- (lib/Core/Command.cpp).
use open_crun.Prelude.{
  ℕ, ◌+◌, ◌≤◌, ◌≡◌, ◌≢◌, ◌⊎◌, subst, sym, ◌∙◌, ap, true, false, [], Option, some, arith, Bool-cases,
  Option-cases, inl, inr, ◌==◌, ==_iff, leb,
}
use open_crun.Builder.{
  Builder, Buffer, Queue, MemObject, buffer, Event, created, new_builder, notify_error,
  check_buffer, unrestricted, is_success, size_add, deref, has_foreign,
}
use open_crun.Builder.Errors.{
  IsOk, requested, usable, check_buffer-IsOk, check_buffer-same, set_checked_wait_list-IsOk,
  set_checked_wait_list-sticky, unless_failed-created,
}
use open_crun.Builder.CopyBuffer.{
  CopyBuffer, Command, new, check_area, set_copy_area, set_wait_list, create, build, are_close,
}

-- Two areas of `size` bytes do not meet.
abbrev pub Apart : ℕ → ℕ → ℕ → Type 0
Apart a b size = (a + size ≤ b) ⊎ (b + size ≤ a)

are_close-Apart : (a b size : ℕ) → are_close a b size ≡ false → Apart a b size
unfolding are_close
are_close-Apart a b size h = elim (Bool-cases (leb a b)) [
  | inl le ↦ inl (ground arith)
  | inr gt ↦ inr (ground arith)
]

pub record IsSafe (target_offset source_offset size : ℕ) (t s : Buffer) (r : CopyBuffer)
    : Type 0 where
  pub target_fits : size_add target_offset size ≤ t.size
  pub source_fits : size_add source_offset size ≤ s.size
  pub apart : (t.id ≢ s.id) ⊎ Apart source_offset target_offset size
  pub target : r.target ≡ some t
  pub source : r.source ≡ some s
  pub same_target : r.target_offset ≡ target_offset
  pub same_source : r.source_offset ≡ source_offset
  pub same_size : r.size ≡ size

module _ (target_offset source_offset size : ℕ) where
  check_area-IsSafe :
      (t s : Buffer) (r : CopyBuffer)
      → r.target ≡ some t
      → r.source ≡ some s
      → IsOk (check_area t s target_offset source_offset size r).base
      → IsSafe target_offset source_offset size t s
          (check_area t s target_offset source_offset size r)
  unfolding check_area notify_error is_success
  check_area-IsSafe t s r et es ok = record {
    target_fits = ground arith;
    source_fits = ground arith;
    apart = elim (Bool-cases (t.id == s.id)) [
      | inl same ↦ inr (are_close-Apart source_offset target_offset size (ground arith))
      | inr other ↦ inl (λ e. ground (arith, (==_iff t.id s.id).1 e))
    ];
    target = ground arith;
    source = ground arith;
    same_target = ground arith;
    same_source = ground arith;
    same_size = ground arith;
  }

  set_copy_area-some :
      (r : CopyBuffer) {t s : Buffer}
      → r.target ≡ some t
      → r.source ≡ some s
      → set_copy_area target_offset source_offset size r
        ≡ check_area t s target_offset source_offset size r
  unfolding set_copy_area
  set_copy_area-some r et es = ground arith

  check_area-base :
      (t s : Buffer) (r : CopyBuffer)
      → IsOk (check_area t s target_offset source_offset size r).base
      → (check_area t s target_offset source_offset size r).base ≡ r.base
  unfolding check_area notify_error is_success
  check_area-base t s r ok = ground arith

  set_copy_area-base :
      (r : CopyBuffer)
      → IsOk (set_copy_area target_offset source_offset size r).base
      → (set_copy_area target_offset source_offset size r).base ≡ r.base
  unfolding set_copy_area
  set_copy_area-base r ok = elim (Option-cases r.target) [
    | inl e ↦ ground arith
    | inr (t, e) ↦ elim (Option-cases r.source) [
      | inl e' ↦ ground arith
      | inr (s, e') ↦ ground (arith, check_area-base t s r)
    ]
  ]

create-created :
    (r : CopyBuffer) {c : Command}
    → create r ≡ created c
    → IsOk r.base
      × (r.target ≡ some c.target)
      × (r.source ≡ some c.source)
      × (c.target_offset ≡ r.target_offset)
      × (c.source_offset ≡ r.source_offset)
      × (c.size ≡ r.size)
      × (c.wait_list ≡ r.base.wait_list)
unfolding create deref
create-created r h =
    let (ok, made) = unless_failed-created r.base _ h in
    elim (Option-cases r.target) [
      | inl e ↦ absurd (ground arith)
      | inr (t, e) ↦ elim (Option-cases r.source) [
        | inl e' ↦ absurd (ground arith)
        | inr (s, e') ↦
            (ok, ground arith, ground arith, ground arith, ground arith, ground arith, ground arith)
      ]
    ]

-- A command that satisfies the caller and the rules for copies.
pub record IsSafeCommand (q : Queue) (target_mem source_mem : Option MemObject)
    (target_offset source_offset size n : ℕ) (evs : Option (ℕ → Option Event)) (c : Command)
    : Type 0 where
  pub target : target_mem ≡ some (buffer c.target)
  pub source : source_mem ≡ some (buffer c.source)
  pub target_usable : usable unrestricted q c.target ≡ true
  pub source_usable : usable unrestricted q c.source ≡ true
  pub same_target_offset : c.target_offset ≡ target_offset
  pub same_source_offset : c.source_offset ≡ source_offset
  pub same_size : c.size ≡ size
  pub target_fits : size_add target_offset size ≤ c.target.size
  pub source_fits : size_add source_offset size ≤ c.source.size
  pub apart : (c.target.id ≢ c.source.id) ⊎ Apart source_offset target_offset size
  pub waits : requested n evs ≡ some c.wait_list
  pub same_context : has_foreign q.context c.wait_list ≡ false

new-IsOk :
    (q : Queue) (target source : Option MemObject)
    → IsOk (new q target source).base
    → (t s : Buffer) × (target ≡ some (buffer t))
      × (source ≡ some (buffer s))
      × ((new q target source).target ≡ some t)
      × ((new q target source).source ≡ some s)
      × (usable unrestricted q t ≡ true)
      × (usable unrestricted q s ≡ true)
      × ((new q target source).base.wait_list ≡ [])
      × ((new q target source).base.context ≡ q.context)
unfolding new new_builder
new-IsOk q target source ok =
    let b = (check_buffer unrestricted q target (new_builder q)).1 in
    let (ok', s, es, hs, us) = check_buffer-IsOk unrestricted q source b ok in
    let (_, t, et, ht, ut) = check_buffer-IsOk unrestricted q target (new_builder q) ok' in
    let (l, ctx) = check_buffer-same unrestricted q source b in
    let (l', ctx') = check_buffer-same unrestricted q target (new_builder q) in
    (t, s, et, es, ht, hs, ut, us, l ∙ l', ctx ∙ ctx')

module _ (q : Queue) (target_mem source_mem : Option MemObject)
    (target_offset source_offset size n : ℕ) (evs : Option (ℕ → Option Event)) (c : Command) where
  same_command :
      (r : CopyBuffer) (t s : Buffer)
      → target_mem ≡ some (buffer t)
      → source_mem ≡ some (buffer s)
      → usable unrestricted q t ≡ true
      → usable unrestricted q s ≡ true
      → IsSafe target_offset source_offset size t s r
      → r.target ≡ some c.target
      → r.source ≡ some c.source
      → c.target_offset ≡ r.target_offset
      → c.source_offset ≡ r.source_offset
      → c.size ≡ r.size
      → requested n evs ≡ some c.wait_list
      → has_foreign q.context c.wait_list ≡ false
      → IsSafeCommand q target_mem source_mem target_offset source_offset size n evs c
  same_command r t s et es ut us v ct cs co co' cz w f =
      let is_t : t ≡ c.target = ground arith in
      let is_s : s ≡ c.source = ground arith in
      record {
        target = ground arith;
        source = ground arith;
        target_usable = subst (λ x. usable unrestricted q x ≡ true) is_t ut;
        source_usable = subst (λ x. usable unrestricted q x ≡ true) is_s us;
        same_target_offset = ground arith;
        same_source_offset = ground arith;
        same_size = ground arith;
        target_fits =
            subst (λ (x : Buffer). size_add target_offset size ≤ x.size) is_t v.target_fits;
        source_fits =
            subst (λ (x : Buffer). size_add source_offset size ≤ x.size) is_s v.source_fits;
        apart =
            subst (λ (x : Buffer). (x.id ≢ c.source.id) ⊎ Apart source_offset target_offset size)
              is_t
              (subst (λ (x : Buffer). (t.id ≢ x.id) ⊎ Apart source_offset target_offset size) is_s
                v.apart);
        waits = w;
        same_context = f;
      }

-- A command that the chain of calls of clEnqueueCopyBuffer yields names the two buffers of the
-- call, each usable by the queue, with the offsets and size of the call, whose sums as a size_t are
-- within the buffers; if the buffers are one, the two areas do not meet. Its wait list is the
-- caller's, of the queue's context.
pub copy_buffer-IsSafe :
    (q : Queue) (target_mem source_mem : Option MemObject) (target_offset source_offset size n : ℕ)
    (evs : Option (ℕ → Option Event)) {c : Command}
    → build q target_mem source_mem target_offset source_offset size n evs ≡ created c
    → IsSafeCommand q target_mem source_mem target_offset source_offset size n evs c
unfolding build set_wait_list
copy_buffer-IsSafe q target_mem source_mem target_offset source_offset size n evs {c} h =
    let r = new q target_mem source_mem in
    let r' = set_copy_area target_offset source_offset size r in
    let (ok, ct, cs, co, co', cz, cl) = create-created (set_wait_list n evs r') h in
    let ok' = set_checked_wait_list-sticky n evs r'.base ok in
    let base = set_copy_area-base target_offset source_offset size r ok' in
    let (t, s, et, es, ht, hs, ut, us, empty, ctx) =
      new-IsOk q target_mem source_mem (subst IsOk base ok') in
    let area = set_copy_area-some target_offset source_offset size r ht hs in
    let safe =
      check_area-IsSafe target_offset source_offset size t s r ht hs
        (subst (λ (x : CopyBuffer). IsOk x.base) area ok') in
    let safe' = subst (IsSafe target_offset source_offset size t s) (sym area) safe in
    let (l, good, eq, near) =
      set_checked_wait_list-IsOk n evs r'.base (ap (λ (x : Builder). x.wait_list) base ∙ empty)
        ok in
    let same : l ≡ c.wait_list = ground arith in
    same_command q target_mem source_mem target_offset source_offset size n evs c r' t s et es ut us
      safe' ct cs co co' cz (good ∙ ap some same)
      (subst (λ k. has_foreign k c.wait_list ≡ false) (ap (λ (x : Builder). x.context) base ∙ ctx)
        (subst (λ k. has_foreign r'.base.context k ≡ false) same near))
