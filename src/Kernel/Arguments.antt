-- ===== src/Kernel/Arguments.antt =====
-- The five setters of Kernel::SetArg (lib/Core/Kernel.cpp), one by one.
use open_crun.Prelude.{
  ℕ, zero, suc, ◌≤◌, ◌≡◌, ◌≢◌, refl, true, false, List, [], ◌∷◌, Option, none, some, ◌==◌, ltb,
  length, take, get_elem?, arith, Bool-cases, Option-cases, ==_iff, ◌⊎◌, inl, inr,
}
use open_crun.Builder.{
  invalid_arg_size, invalid_arg_value, invalid_mem_object, Buffer, Image, buffer, image,
}
use open_crun.Kernel.{
  AddressSpace, local_space, private_space, global_space, constant_space, invalid_space, ImageClass,
  sampler_class, pointer_to, image_of, plain, ParamType, Descriptor, Sampler, buffer_arg, image_arg,
  sampler_arg, by_value_arg, local_buffer_arg, Pointee, a_sampler, bytes, Kernel, handle_size,
  buffer_at, image_at, sampler_at, bytes_at, foreign, set_buffer_arg, set_local_buffer_arg,
  set_image_arg, set_sampler_arg, arg_size, set_by_value_arg,
}
use open_crun.Kernel.Answers.{IsOf, Names, some_buffer, some_image, At, WrongSize, Answers}

buffer_at-Names :
    (arg : Option Pointee) (m : Option Buffer) → Names some_buffer arg m → buffer_at arg ≡ some m
unfolding buffer_at
buffer_at-Names arg none (inl e) = rw e refl
buffer_at-Names arg (some b) (inl e) = rw e refl
buffer_at-Names arg m (inr (e, e')) = rw (e, e') refl

image_at-Names :
    (arg : Option Pointee) (m : Option Image) → Names some_image arg m → image_at arg ≡ some m
unfolding image_at
image_at-Names arg none (inl e) = rw e refl
image_at-Names arg (some b) (inl e) = rw e refl
image_at-Names arg m (inr (e, e')) = rw (e, e') refl

sampler_at-Names :
    (arg : Option Pointee) (s : Option Sampler) → Names a_sampler arg s → sampler_at arg ≡ some s
unfolding sampler_at
sampler_at-Names arg s (inl e) = rw e refl
sampler_at-Names arg s (inr (e, e')) = rw (e, e') refl

-- A test of the context, with what it shows of the object.
Contexts : {A : Type 0} → (A → ℕ) → (Option A → Pointee) → ℕ → Option Pointee → Option A → Type 0
Contexts {A} ctx as_pointee k arg m =
    ((foreign ctx k m ≡ false) × IsOf ctx k m)
    ⊎ ((foreign ctx k m ≡ true) × (a : A) × (arg ≡ some (as_pointee (some a))) × (ctx a ≢ k))

contexts :
    {A : Type 0} (ctx : A → ℕ) (as_pointee : Option A → Pointee) (k : ℕ) (arg : Option Pointee)
    (m : Option A)
    → Names as_pointee arg m
    → Contexts ctx as_pointee k arg m
unfolding Contexts
contexts ctx as_pointee k arg none n = inl (refl, tt)
contexts ctx as_pointee k arg (some a) (inr (e, e')) = absurd (cc)
contexts ctx as_pointee k arg (some a) (inl e) = elim (Bool-cases (ctx a == k)) [
  | inl same ↦ inl (rw same refl, ground arith)
  | inr other ↦ inr (rw other refl, a, e, ground arith)
]

pointer-WrongSize :
    (d : Descriptor) (i size : ℕ) (s : AddressSpace)
    → s ≢ local_space
    → size ≢ handle_size
    → WrongSize d i size (pointer_to s)
pointer-WrongSize d i size local_space h w = absurd (h refl)
pointer-WrongSize d i size private_space h w = w
pointer-WrongSize d i size global_space h w = w
pointer-WrongSize d i size constant_space h w = w
pointer-WrongSize d i size invalid_space h w = w

length-take_lem : (n : ℕ) (l : List ℕ) → n ≤ length l → length (take n l) ≡ n
length-take_lem zero l h = refl
length-take_lem (suc n) [] h = absurd (omega arith)
length-take_lem (suc n) (x ∷ l) h = omega (arith, length-take_lem n l (omega arith))

module _ (k : Kernel) (i size : ℕ) (arg : Option Pointee) where
  pub set_buffer_arg-Answers :
      (s : AddressSpace) (m : Option Buffer)
      → At k.desc i (pointer_to s)
      → s ≢ local_space
      → Names some_buffer arg m
      → Answers k i size arg (set_buffer_arg k i size arg)
  unfolding set_buffer_arg Contexts
  set_buffer_arg-Answers s m here global n = elim (Bool-cases (size == handle_size)) [
    | inr e ↦
        let wrong = pointer-WrongSize k.desc i size s global (ground arith) in
        inr (invalid_arg_size, (pointer_to s, here, wrong), rw e refl)
    | inl e ↦ elim (contexts (λ x. x.context) some_buffer k.desc.context arg m n) [
      | inl (own, of) ↦ inl (
        _,
        (buffer_arg i m, (refl, s, here, global, of), n, refl),
        rw (e, buffer_at-Names arg m n, own) refl,
      )
      | inr (other, x, given, not_of) ↦ inr (
        invalid_mem_object,
        inl (buffer x, given, not_of),
        rw (e, buffer_at-Names arg m n, other) refl,
      )
    ]
  ]

  pub set_image_arg-Answers :
      (c : ImageClass) (m : Option Image)
      → At k.desc i (image_of c)
      → c ≢ sampler_class
      → Names some_image arg m
      → Answers k i size arg (set_image_arg k i size arg)
  unfolding set_image_arg Contexts
  set_image_arg-Answers c m here an_image n = elim (Bool-cases (size == handle_size)) [
    | inr e ↦ inr (invalid_arg_size, (image_of c, here, ground arith), rw e refl)
    | inl e ↦ elim (contexts (λ x. x.context) some_image k.desc.context arg m n) [
      | inl (own, of) ↦ inl (
        _,
        (image_arg i m, (refl, c, here, an_image, of), n, refl),
        rw (e, image_at-Names arg m n, own) refl,
      )
      | inr (other, x, given, not_of) ↦ inr (
        invalid_mem_object,
        inl (image x, given, not_of),
        rw (e, image_at-Names arg m n, other) refl,
      )
    ]
  ]

  pub set_sampler_arg-Answers :
      (s : Option Sampler)
      → At k.desc i (image_of sampler_class)
      → Names a_sampler arg s
      → Answers k i size arg (set_sampler_arg k i size arg)
  unfolding set_sampler_arg Contexts
  set_sampler_arg-Answers s here n = elim (Bool-cases (size == handle_size)) [
    | inr e ↦ inr (invalid_arg_size, (image_of sampler_class, here, ground arith), rw e refl)
    | inl e ↦ elim (contexts (λ x. x.context) a_sampler k.desc.context arg s n) [
      | inl (own, of) ↦ inl (
        _,
        (sampler_arg i s, (refl, here, of), n, refl),
        rw (e, sampler_at-Names arg s n, own) refl,
      )
      | inr (other, x, given, not_of) ↦
          inr (
            invalid_mem_object,
            inr (x, given, not_of),
            rw (e, sampler_at-Names arg s n, other) refl,
          )
    ]
  ]

  pub set_local_buffer_arg-Answers :
      At k.desc i (pointer_to local_space)
      → Answers k i size arg (set_local_buffer_arg k i size arg)
  unfolding set_local_buffer_arg
  set_local_buffer_arg-Answers here = elim (Option-cases arg) [
    | inr (x, e) ↦ inr (invalid_arg_value, (here, cc), rw e refl)
    | inl e ↦ elim (Bool-cases (size == 0)) [
      | inl nil ↦
          inr (invalid_arg_size, (pointer_to local_space, here, ground arith), rw (e, nil) refl)
      | inr given ↦ inl (
        _,
        (local_buffer_arg i size, (refl, here, ground arith), (e, refl), refl),
        rw (e, given) refl,
      )
    ]
  ]

  pub set_by_value_arg-Answers :
      (p : ParamType) (all : List ℕ)
      → At k.desc i plain
      → get_elem? k.desc.params i ≡ some p
      → arg ≡ some (bytes all)
      → size ≤ length all
      → Answers k i size arg (set_by_value_arg k i size arg)
  unfolding set_by_value_arg bytes_at
  set_by_value_arg-Answers p all here has_param e enough = elim (Bool-cases (size == arg_size p)) [
    | inr other ↦
        inr (
          invalid_arg_size,
          (plain, here, (p, has_param, ground arith)),
          rw (has_param, other) refl,
        )
    | inl same ↦
        let long : ltb (length all) size ≡ false = ground arith in
        let taken : length (take size all) ≡ arg_size p =
          omega (arith, length-take_lem size all enough, (==_iff size (arg_size p)).0 same) in
        inl (
          _,
          (by_value_arg i (take size all), (refl, here, p, has_param, taken), (all, e, refl), refl),
          rw (has_param, same, e, long) refl,
        )
  ]
