-- ===== src/Objects/Buffers.antt =====
-- What clCreateBuffer accepts (tools/libOpenCRun/MemoryObject.cpp, lib/Core/MemoryObject.cpp).
use open_crun.Prelude.{
  ℕ, ◌≡◌, ◌≢◌, refl, ◌∙◌, true, false, List, Option, none, some, arith, if◌then◌else◌, ◌==◌,
  Bool-cases, inl, inr, ◌⊎◌,
}
use open_crun.Builder.{ErrorCode, success, is_success, out_of_host_memory, invalid_buffer_size}
use open_crun.Objects.{
  Outcome, done, ◌>>=◌, Context, ObjectBuilder, k_buffer, no_image, set_context, set_buffer_size,
  new, set_generic_flags, store_flags, error,
}
use open_crun.Objects.Making.{Answer, Object, create, new_object, init_for_devices, create_buffer}
use open_crun.Objects.ValidFlags.{
  valid_flags, default_flags, building, set_generic_flags-valid, set_generic_flags-invalid,
}

abbrev pub buffer_object : Context → ℕ → ℕ → Option ℕ → Object
buffer_object c size flags ptr = record {
  kind = k_buffer;
  context = c.id;
  size = size;
  host_ptr = ptr;
  flags = flags;
  parent = none;
  offset = 0;
  img = no_image;
}

module _ (c : Context) (size : ℕ) (answers : List Answer) where
  create-failed :
      (e : ErrorCode) → is_success e ≡ false → create answers (building c size e) ≡ done (none, e)
  unfolding create
  create-failed e h = rw h refl

  create-stored :
      (flags : ℕ) (ptr : Option ℕ)
      → create answers (store_flags flags ptr (building c size success))
        ≡ done (
          some (buffer_object c size flags ptr),
          if init_for_devices flags answers then success else out_of_host_memory,
        )
  unfolding create store_flags new_object is_success
  create-stored flags ptr = refl

  create-stored_failed :
      (flags : ℕ) (ptr : Option ℕ) (e : ErrorCode)
      → is_success e ≡ false
      → create answers (store_flags flags ptr (building c size e)) ≡ done (none, e)
  unfolding create store_flags
  create-stored_failed flags ptr e h = rw h refl

-- The builder when the flags are set.
abbrev sized : Context → ℕ → ObjectBuilder
sized c size = if size == 0 then building c 0 invalid_buffer_size else building c size success

create_buffer-steps :
    (c : Context) (flags size : ℕ) (ptr : Option ℕ) (answers : List Answer)
    → create_buffer (some c) flags size ptr answers
      ≡ (set_generic_flags flags ptr (sized c size) >>= λ b. create answers b)
unfolding create_buffer set_context set_buffer_size new error
create_buffer-steps c flags size ptr answers = elim (Bool-cases (size == 0)) [
  | inl e ↦ rw e refl
  | inr e ↦ rw e refl
]

module _ (c : Context) (flags size : ℕ) (ptr : Option ℕ) (answers : List Answer) where
  abbrev NoObject : Type 0
  NoObject =
      (e : ErrorCode) × (is_success e ≡ false)
      × (create_buffer (some c) flags size ptr answers ≡ done (none, e))

  create_buffer-empty :
      (size == 0) ≡ true
      → create_buffer (some c) flags size ptr answers
        ≡ (set_generic_flags flags ptr (building c 0 invalid_buffer_size) >>= λ b. create answers b)
  create_buffer-empty e = create_buffer-steps c flags size ptr answers ∙ rw e refl

  create_buffer-sized :
      (size == 0) ≡ false
      → create_buffer (some c) flags size ptr answers
        ≡ (set_generic_flags flags ptr (building c size success) >>= λ b. create answers b)
  create_buffer-sized e = create_buffer-steps c flags size ptr answers ∙ rw e refl

  refused_flags :
      (s : ℕ) (e : ErrorCode)
      → create_buffer (some c) flags size ptr answers
        ≡ (set_generic_flags flags ptr (building c s e) >>= λ b. create answers b)
      → valid_flags flags ptr ≡ false
      → NoObject
  refused_flags s e steps v =
      let (e', failed, r) = set_generic_flags-invalid c s flags ptr e v in
      (e', failed, steps ∙ rw r (create-failed c s answers e' failed))

  refused_size : (size == 0) ≡ true → valid_flags flags ptr ≡ true → NoObject
  unfolding is_success
  refused_size e v = (
    invalid_buffer_size,
    refl,
    create_buffer-empty e
        ∙ rw (set_generic_flags-valid c 0 flags ptr invalid_buffer_size v)
            (create-stored_failed c 0 answers (default_flags flags) ptr invalid_buffer_size refl),
  )

  refused : (size ≡ 0) ⊎ (valid_flags flags ptr ≡ false) → NoObject
  refused (inl empty) = elim (Bool-cases (valid_flags flags ptr)) [
    | inl v ↦ refused_size (ground arith) v
    | inr v ↦ refused_flags 0 invalid_buffer_size (create_buffer-empty (ground arith)) v
  ]
  refused (inr v) = elim (Bool-cases (size == 0)) [
    | inl e ↦ refused_flags 0 invalid_buffer_size (create_buffer-empty e) v
    | inr e ↦ refused_flags size success (create_buffer-sized e) v
  ]

-- What clCreateBuffer gives: the buffer, or an error.
abbrev pub Outcomes :
    Context → ℕ → ℕ → Option ℕ → List Answer → Outcome (Option Object × ErrorCode) → Type 0
Outcomes c flags size ptr answers r =
    ((size ≢ 0)
      × (valid_flags flags ptr ≡ true)
      × (r
          ≡ done (
            some (buffer_object c size (default_flags flags) ptr),
            if init_for_devices (default_flags flags) answers then success else out_of_host_memory,
          )))
    ⊎ (((size ≡ 0) ⊎ (valid_flags flags ptr ≡ false))
        × (e : ErrorCode) × (is_success e ≡ false)
        × (r ≡ done (none, e)))

-- In a context, clCreateBuffer with a size that is not 0 and valid flags gives the buffer with this
-- size, host pointer and flags, by default CL_MEM_READ_WRITE, and the error code is a success
-- exactly if the devices take it, else CL_OUT_OF_HOST_MEMORY though the buffer is given; otherwise
-- it gives no buffer and an error.
pub create_buffer-outcome :
    (c : Context) (flags size : ℕ) (ptr : Option ℕ) (answers : List Answer)
    → Outcomes c flags size ptr answers (create_buffer (some c) flags size ptr answers)
create_buffer-outcome c flags size ptr answers = elim (Bool-cases (size == 0)) [
  | inl empty ↦
      let none_asked : size ≡ 0 = ground arith in
      let (code, fails, e) = refused c flags size ptr answers (inl none_asked) in
      inr (inl none_asked, code, fails, e)
  | inr nonempty ↦ elim (Bool-cases (valid_flags flags ptr)) [
    | inr bad ↦
        let (code, fails, e) = refused c flags size ptr answers (inr bad) in
        inr (inr bad, code, fails, e)
    | inl v ↦
        let asked : size ≢ 0 = ground arith in
        inl (
          asked,
          v,
          create_buffer-sized c flags size ptr answers (ground arith)
              ∙ rw (set_generic_flags-valid c size flags ptr success v)
                  (create-stored c size answers (default_flags flags) ptr),
        )
  ]
]
