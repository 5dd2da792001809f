-- ===== src/Objects/ImageLimits/Stages.antt =====
-- What the calls of an image's builder leave where no error is set (lib/Core/MemoryObject.cpp).
use open_crun.Prelude.{
  ℕ, ◌≡◌, refl, subst, Bool, true, false, Option, none, some, arith, if◌then◌else◌, Bool-cases,
  Option-cases, inl, inr, ◌==◌, bit_and,
}
use open_crun.Builder.{ErrorCode, is_success, invalid_value}
use open_crun.Objects.{
  Outcome, done, null_context, assertion_failed, ObjectBuilder, error, buffer_below,
  check_buffer_flags, inherit, store_flags, finish_flags, check_given_flags, set_generic_flags,
  read_write, all_flags, is_sub_buffer_kind,
}

-- A call that ends without an error set has the property.
unfoldable pub Ends : (ObjectBuilder → Type 0) → Outcome ObjectBuilder → Type 0
Ends P (done b) = is_success b.err ≡ true → P b
Ends P null_context = Unit
Ends P assertion_failed = Unit

pub Ends-done :
    (P : ObjectBuilder → Type 0) {r : Outcome ObjectBuilder} (b : ObjectBuilder)
    → Ends P r
    → r ≡ done b
    → is_success b.err ≡ true
    → P b
unfolding Ends
Ends-done P b y e = subst (Ends P) e y

pub Ends-map :
    (P Q : ObjectBuilder → Type 0) (r : Outcome ObjectBuilder)
    → ((b : ObjectBuilder) → P b → Q b)
    → Ends P r
    → Ends Q r
unfolding Ends
Ends-map P Q (done b) h y = λ e. h b (y e)
Ends-map P Q null_context h y = tt
Ends-map P Q assertion_failed h y = tt

module _ (P : ObjectBuilder → Type 0) where
  pub Ends-if :
      (t : Bool) (x y : Outcome ObjectBuilder)
      → (t ≡ true → Ends P x)
      → (t ≡ false → Ends P y)
      → Ends P (if t then x else y)
  Ends-if true x y p q = p refl
  Ends-if false x y p q = q refl

  pub Ends-error : (e : ErrorCode) (b : ObjectBuilder) → is_success e ≡ false → Ends P (error e b)
  unfolding Ends error
  Ends-error e b h = elim (Option-cases b.context) [ inl o ↦ rw o tt | inr (c, o) ↦ rw o (λ s. cc) ]

  pub Ends-returns : (b : ObjectBuilder) → (is_success b.err ≡ true → P b) → Ends P (done b)
  unfolding Ends
  Ends-returns b h = h

  Ends-option :
      {A : Type 0} (o : Option A) (x : Outcome ObjectBuilder) (f : A → Outcome ObjectBuilder)
      → (o ≡ none → Ends P x)
      → ((a : A) → o ≡ some a → Ends P (f a))
      → Ends P (elim o [ none ↦ x | some a ↦ f a ])
  Ends-option none x f p q = p refl
  Ends-option (some a) x f p q = q a refl

-- The flags leave everything else.
pub record SameImage (b b' : ObjectBuilder) : Type 0 where
  pub clean : is_success b.err ≡ true
  pub img : b'.img ≡ b.img
  pub kind : b'.kind ≡ b.kind
  pub context : b'.context ≡ b.context

check_buffer_flags-error :
    (flags own : ℕ) (e : ErrorCode) → check_buffer_flags flags own ≡ some e → is_success e ≡ false
unfolding check_buffer_flags is_success
check_buffer_flags-error flags own e h = ground arith

check_given_flags-error :
    (flags : ℕ) (ptr : Option ℕ) (e : ErrorCode)
    → check_given_flags flags ptr ≡ some e
    → is_success e ≡ false
unfolding check_given_flags is_success
check_given_flags-error flags ptr e h = ground arith

store_flags-Ends :
    (flags : ℕ) (ptr : Option ℕ) (b : ObjectBuilder)
    → Ends (SameImage b) (done (store_flags flags ptr b))
unfolding store_flags
store_flags-Ends flags ptr b =
    Ends-returns (SameImage b) (store_flags flags ptr b)
      (λ h. record { clean = h; img = refl; kind = refl; context = refl })

finish_flags-Ends :
    (flags : ℕ) (ptr : Option ℕ) (b : ObjectBuilder) → Ends (SameImage b) (finish_flags flags ptr b)
unfolding finish_flags
finish_flags-Ends flags ptr b = elim (Option-cases (buffer_below b)) [
  | inl no_buffer ↦ rw (no_buffer, finish_flags) (store_flags-Ends flags ptr b)
  | inr (s, over) ↦ elim (Option-cases (check_buffer_flags flags s.flags)) [
    | inl ok ↦ rw (over, ok, finish_flags) (store_flags-Ends (inherit flags s.flags) ptr b)
    | inr (e, bad) ↦
        rw (over, bad, finish_flags)
          (Ends-error (SameImage b) e b (check_buffer_flags-error flags s.flags e bad))
  ]
]

pub set_generic_flags-Ends :
    (flags : ℕ) (ptr : Option ℕ) (b : ObjectBuilder)
    → Ends (SameImage b) (set_generic_flags flags ptr b)
unfolding set_generic_flags is_success Ends
set_generic_flags-Ends flags ptr b = elim (Bool-cases (is_sub_buffer_kind b.kind)) [
  | inl part ↦ rw (part, set_generic_flags) tt
  | inr whole ↦
      rw (whole, set_generic_flags)
        (elim (Bool-cases (bit_and flags all_flags == flags)) [
          | inr unknown ↦ rw unknown (Ends-error (SameImage b) invalid_value b refl)
          | inl known ↦ elim (Bool-cases (flags == 0)) [
            | inl nil ↦ rw (known, nil) (finish_flags-Ends read_write ptr b)
            | inr nonzero ↦ elim (Option-cases (check_given_flags flags ptr)) [
              | inl ok ↦ rw (known, nonzero, ok) (finish_flags-Ends flags ptr b)
              | inr (e, bad) ↦
                  rw (known, nonzero, bad)
                    (Ends-error (SameImage b) e b (check_given_flags-error flags ptr e bad))
            ]
          ]
        ])
]
