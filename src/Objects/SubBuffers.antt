-- ===== src/Objects/SubBuffers.antt =====
-- clCreateSubBuffer (tools/libOpenCRun/MemoryObject.cpp) and the builder of sub-buffers
-- (lib/Core/MemoryObject.cpp).
use open_crun.Prelude.{
  ℕ, ◌≡◌, ◌⊎◌, inl, inr, refl, ap, List, Option, none, some, ◌==◌, Option-cases, Bool-cases, ltb,
}
use open_crun.Builder.{
  ErrorCode, is_sub_buffer, invalid_value, invalid_buffer_size, invalid_mem_object, size_add,
}
use open_crun.Objects.{
  Outcome, done, null_context, assertion_failed, ◌>>=◌, Parent, ObjectBuilder, Kind, k_buffer, new,
  error,
}
use open_crun.Objects.Making.{Answer, create}
use open_crun.Objects.Regions.{
  Handle, a_buffer, an_image, BufferRegion, check_region, set_sub_buffer_params,
  set_sub_buffer_flags, create_sub_buffer, create_type_region,
}

-- A call of the builder that ends has kept the kind.
abbrev Keeps : Kind → Outcome ObjectBuilder → Type 0
Keeps k (done b) = b.kind ≡ k
Keeps k null_context = Unit
Keeps k assertion_failed = Unit

error-Keeps : (e : ErrorCode) (b : ObjectBuilder) → Keeps b.kind (error e b)
unfolding error
error-Keeps e b = elim (Option-cases b.context) [ inl o ↦ rw o tt | inr (c, o) ↦ rw o refl ]

check_region-Keeps :
    (p : Parent) (ty : ℕ) (info : Option BufferRegion) (b : ObjectBuilder)
    → Keeps b.kind (check_region p ty info b)
unfolding check_region
check_region-Keeps p ty none b = error-Keeps invalid_value b
check_region-Keeps p ty (some r) b = elim (Bool-cases (ty == create_type_region)) [
  | inr other ↦ rw other (error-Keeps invalid_value b)
  | inl region ↦ elim (Bool-cases (r.size == 0)) [
    | inl empty ↦ rw (region, empty) (error-Keeps invalid_buffer_size b)
    | inr filled ↦ elim (Bool-cases (ltb p.buffer.size (size_add r.origin r.size))) [
      | inl outside ↦ rw (region, filled, outside) (error-Keeps invalid_value b)
      | inr inside ↦ rw (region, filled, inside) refl
    ]
  ]
]

set_sub_buffer_params-Keeps :
    (buf : Option Handle) (ty : ℕ) (info : Option BufferRegion) (b : ObjectBuilder)
    → Keeps b.kind (set_sub_buffer_params buf ty info b)
unfolding set_sub_buffer_params
set_sub_buffer_params-Keeps none ty info b = error-Keeps invalid_mem_object b
set_sub_buffer_params-Keeps (some an_image) ty info b = error-Keeps invalid_mem_object b
set_sub_buffer_params-Keeps (some (a_buffer p)) ty info b =
    elim (Bool-cases (is_sub_buffer p.buffer)) [
      | inl sub ↦ rw sub (error-Keeps invalid_mem_object b)
      | inr whole ↦
          rw whole
            (check_region-Keeps p ty info (record b { parent = some p; context = some p.context }))
    ]

set_sub_buffer_flags-kind :
    (flags : ℕ) (b : ObjectBuilder)
    → b.kind ≡ k_buffer
    → set_sub_buffer_flags flags b ≡ assertion_failed
unfolding set_sub_buffer_flags
set_sub_buffer_flags-kind flags b k = rw k refl

after_params :
    (m : Outcome ObjectBuilder) (flags : ℕ) (answers : List Answer)
    → Keeps k_buffer m
    → let r = m >>= λ b. set_sub_buffer_flags flags b >>= λ b'. create answers b' in
      (r ≡ null_context) ⊎ (r ≡ assertion_failed)
after_params null_context flags answers k = inl refl
after_params assertion_failed flags answers k = inr refl
after_params (done b) flags answers k =
    inr (ap (λ m. m >>= λ b'. create answers b') (set_sub_buffer_flags-kind flags b k))

-- Whatever its arguments, clCreateSubBuffer either reports an error to a null context or fails an
-- assertion: it builds with K_Buffer, while setSubBufferFlags asserts K_SubBuffer.
pub create_sub_buffer-faults :
    (buf : Option Handle) (flags ty : ℕ) (info : Option BufferRegion) (answers : List Answer)
    → (create_sub_buffer buf flags ty info answers ≡ null_context)
      ⊎ (create_sub_buffer buf flags ty info answers ≡ assertion_failed)
unfolding create_sub_buffer new
create_sub_buffer-faults buf flags ty info answers =
    after_params (set_sub_buffer_params buf ty info (new k_buffer)) flags answers
      (set_sub_buffer_params-Keeps buf ty info (new k_buffer))
