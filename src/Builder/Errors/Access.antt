-- ===== src/Builder/Errors/Access.antt =====
-- What it takes for a queue to use a buffer, and for `Create` to yield a command
-- (lib/Core/Command.cpp).
use open_crun.Prelude.{
  ℕ, ◌%◌, ◌≡◌, refl, sym, subst, Bool, true, ◌&&◌, ◌||◌, not, Option, none, some, arith, inl, inr,
  Bool-cases, if◌then◌else◌, ◌==◌,
}
use open_crun.Builder.{
  Builder, Buffer, Queue, is_success, notify_error, MemObject, buffer, image, check_buffer, Created,
  created, unless_failed, check_access, is_sub_buffer,
}
use open_crun.Builder.Errors.WaitLists.{IsOk}

-- Whether a queue may use a buffer: a sub-buffer must be aligned for the device; any other buffer
-- must allow the operation to the host, and be of the context of the queue.
abbrev pub usable : (ℕ → Bool) → Queue → Buffer → Bool
usable denied q s =
    if is_sub_buffer s
    then q.device.base_address_alignment == 0 || s.origin % q.device.base_address_alignment == 0
    else not (denied s.flags) && q.context == s.context

pub check_access-usable :
    (denied : ℕ → Bool) (q : Queue) (s : Buffer) (b : Builder)
    → usable denied q s ≡ true
    → check_access denied q s b ≡ b
unfolding check_access
check_access-usable denied q s b h = ground arith

pub check_access-IsOk :
    (denied : ℕ → Bool) (q : Queue) (s : Buffer) (b : Builder)
    → IsOk (check_access denied q s b)
    → usable denied q s ≡ true
unfolding check_access notify_error is_success
check_access-IsOk denied q s b h = ground arith

pub check_access-same :
    (denied : ℕ → Bool) (q : Queue) (s : Buffer) (b : Builder)
    → ((check_access denied q s b).wait_list ≡ b.wait_list)
      × ((check_access denied q s b).context ≡ b.context)
unfolding check_access notify_error
check_access-same denied q s b = (ground arith, ground arith)

pub check_buffer-IsOk :
    (denied : ℕ → Bool) (q : Queue) (x : Option MemObject) (b : Builder)
    → IsOk (check_buffer denied q x b).1
    → IsOk b
      × (s : Buffer) × (x ≡ some (buffer s))
      × ((check_buffer denied q x b).0 ≡ some s)
      × (usable denied q s ≡ true)
unfolding check_buffer notify_error is_success
check_buffer-IsOk denied q none b ok = absurd (ground arith)
check_buffer-IsOk denied q (some (image i)) b ok = absurd (ground arith)
check_buffer-IsOk denied q (some (buffer s)) b ok =
    let access = check_access-IsOk denied q s b ok in
    (subst IsOk (check_access-usable denied q s b access) ok, s, refl, refl, access)

pub check_buffer-same :
    (denied : ℕ → Bool) (q : Queue) (x : Option MemObject) (b : Builder)
    → ((check_buffer denied q x b).1.wait_list ≡ b.wait_list)
      × ((check_buffer denied q x b).1.context ≡ b.context)
unfolding check_buffer notify_error
check_buffer-same denied q none b = (refl, refl)
check_buffer-same denied q (some (image i)) b = (refl, refl)
check_buffer-same denied q (some (buffer s)) b = check_access-same denied q s b

pub check_buffer-usable :
    (denied : ℕ → Bool) (q : Queue) (x : Option MemObject) (b : Builder) {s : Buffer}
    → x ≡ some (buffer s)
    → usable denied q s ≡ true
    → check_buffer denied q x b ≡ (some s, b)
unfolding check_buffer
check_buffer-usable denied q x b {s} e u =
    subst (λ y. check_buffer denied q y b ≡ (some s, b)) (sym e)
      (ground (arith, check_access-usable denied q s b u))

pub unless_failed-created {ℓ} :
    {A : Type ℓ} (b : Builder) (m : Created A) {c : A}
    → unless_failed b m ≡ created c
    → IsOk b × (m ≡ created c)
unfolding unless_failed
unless_failed-created b m h = elim (Bool-cases (is_success b.err_code)) [
  | inl ok ↦ (ok, rw ok at h)
  | inr bad ↦ absurd (ground arith)
]

pub unless_failed-IsOk {ℓ} :
    {A : Type ℓ} (b : Builder) (m : Created A) → IsOk b → unless_failed b m ≡ m
unfolding unless_failed
unless_failed-IsOk b m ok = rw ok refl

pub created-injective {ℓ} : {A : Type ℓ} {a b : A} → created a ≡ created b → a ≡ b
created-injective e = cc e
