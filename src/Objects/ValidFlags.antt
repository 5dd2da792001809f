-- ===== src/Objects/ValidFlags.antt =====
-- The flags that MemoryObjectBuilder::setGenericFlags accepts for a buffer (lib/Core/MemoryObject.cpp).
use open_crun.Prelude.{
  ℕ, ◌+◌, ◌≡◌, ◌≢◌, refl, sym, subst, ◌∙◌, Bool, true, false, not, ◌&&◌, ◌||◌, Option, none, some,
  arith, if◌then◌else◌, ◌==◌, has, bit_and, Bool-cases, inl, inr, ltb,
}
use open_crun.Builder.{ErrorCode, is_success, invalid_value, invalid_host_ptr}
use open_crun.Objects.{
  Outcome, done, Context, ObjectBuilder, k_buffer, no_image, read_write, read_only, write_only,
  use_host_ptr, alloc_host_ptr, copy_host_ptr, host_read_only, host_write_only, host_no_access,
  all_flags, is_null, check_given_flags, set_generic_flags, finish_flags, buffer_below, store_flags,
  error,
}

abbrev pub apart : Bool → Bool → Bool
apart a b = not (a && b)

abbrev pub at_most_one : Bool → Bool → Bool → Bool
at_most_one a b c = apart a b && apart a c && apart b c

abbrev pub one_access : ℕ → Bool
one_access flags = at_most_one (has flags read_only) (has flags write_only) (has flags read_write)

abbrev pub one_host_access : ℕ → Bool
one_host_access flags =
    at_most_one (has flags host_read_only) (has flags host_write_only) (has flags host_no_access)

abbrev pub no_alloc : ℕ → Bool
no_alloc flags = apart (has flags use_host_ptr) (has flags alloc_host_ptr)

abbrev pub no_copy : ℕ → Bool
no_copy flags = apart (has flags use_host_ptr) (has flags copy_host_ptr)

abbrev pub has_pointer : ℕ → Option ℕ → Bool
has_pointer flags ptr = apart (has flags use_host_ptr || has flags copy_host_ptr) (is_null ptr)

-- The rules of clCreateBuffer for the flags: only known ones, at most one for the access and one for
-- the access of the host, no host pointer in use with storage of another kind, and a host pointer
-- where one is used or copied.
abbrev pub valid_flags : ℕ → Option ℕ → Bool
valid_flags flags ptr =
    bit_and flags all_flags == flags
    && (one_access flags
        && one_host_access flags
        && no_alloc flags
        && no_copy flags
        && has_pointer flags ptr)

abbrev pub default_flags : ℕ → ℕ
default_flags flags = if flags == 0 then read_write else flags

count-at_most_one :
    (a b c : Bool)
    → ltb 1 ((if a then 1 else 0) + (if b then 1 else 0) + (if c then 1 else 0))
      ≡ not (at_most_one a b c)
count-at_most_one true true true = refl
count-at_most_one true true false = refl
count-at_most_one true false true = refl
count-at_most_one true false false = refl
count-at_most_one false true true = refl
count-at_most_one false true false = refl
count-at_most_one false false true = refl
count-at_most_one false false false = refl

count-apart : (a b : Bool) → ltb 1 ((if a then 1 else 0) + (if b then 1 else 0)) ≡ not (apart a b)
count-apart true true = refl
count-apart true false = refl
count-apart false true = refl
count-apart false false = refl

-- The first error, if any, from the tests that the flags pass.
abbrev first_error : Bool → Bool → Bool → Bool → Bool → Option ErrorCode
first_error access host alloc copy ptr =
    if not access
    then some invalid_value
    else if not host
    then some invalid_value
    else if not ptr
    then some invalid_host_ptr
    else if not alloc || not copy
    then some invalid_value
    else none

abbrev Refuses : Option ErrorCode → Type 0
Refuses none = ⊥
Refuses (some e) = is_success e ≡ false

first_error-Refuses :
    (access host alloc copy ptr : Bool)
    → ((access && host && alloc && copy && ptr) ≡ false)
    → Refuses (first_error access host alloc copy ptr)
unfolding is_success
first_error-Refuses false host alloc copy ptr h = refl
first_error-Refuses true false alloc copy ptr h = refl
first_error-Refuses true true alloc copy false h = refl
first_error-Refuses true true false copy true h = refl
first_error-Refuses true true true false true h = refl
first_error-Refuses true true true true true h = cc

first_error-none :
    (access host alloc copy ptr : Bool)
    → ((access && host && alloc && copy && ptr) ≡ true)
    → first_error access host alloc copy ptr ≡ none
first_error-none access host alloc copy ptr h = ground arith

module _ (flags : ℕ) (ptr : Option ℕ) where
  check_given_flags-first_error :
      check_given_flags flags ptr
      ≡ first_error
          (one_access flags)
          (one_host_access flags)
          (no_alloc flags)
          (no_copy flags)
          (has_pointer flags ptr)
  unfolding check_given_flags
  check_given_flags-first_error =
      rw
        (
          count-at_most_one (has flags read_only) (has flags write_only) (has flags read_write),
          count-at_most_one (has flags host_read_only) (has flags host_write_only)
              (has flags host_no_access),
          count-apart (has flags use_host_ptr) (has flags alloc_host_ptr),
          count-apart (has flags use_host_ptr) (has flags copy_host_ptr),
        )
        (ground arith)

-- The builder of a buffer once it has a context.
abbrev pub building : Context → ℕ → ErrorCode → ObjectBuilder
building c size e = record {
  kind = k_buffer;
  context = some c;
  flags = 0;
  host_ptr = none;
  size = size;
  parent = none;
  origin = 0;
  sub_size = 0;
  img = no_image;
  err = e;
}

&&-split : (a : Bool) {b : Bool} → (a && b) ≡ true → (a ≡ true) × (b ≡ true)
&&-split true h = (refl, h)
&&-split false h = cc

&&-rest : (a : Bool) {b : Bool} → a ≡ true → (a && b) ≡ false → b ≡ false
&&-rest true e h = h
&&-rest false e h = cc

-- No flags at all are valid.
zero-valid : (flags : ℕ) (ptr : Option ℕ) → (flags == 0) ≡ true → valid_flags flags ptr ≢ false
zero-valid flags ptr nil h =
    let same : flags ≡ 0 = ground arith in
    let z : valid_flags 0 ptr ≡ false = subst (λ f. valid_flags f ptr ≡ false) same h in cc

module _ (c : Context) (size flags : ℕ) (ptr : Option ℕ) (e : ErrorCode) where
  finish_flags-buffer :
      (given : ℕ)
      → finish_flags given ptr (building c size e)
        ≡ done (store_flags given ptr (building c size e))
  unfolding finish_flags buffer_below
  finish_flags-buffer given = refl

  -- What is left after the checks of flags that are not zero.
  abbrev decided : Option ErrorCode → Outcome ObjectBuilder
  decided none = done (store_flags flags ptr (building c size e))
  decided (some e') = done (building c size e')

  set_generic_flags-given :
      (o : Option ErrorCode)
      → (bit_and flags all_flags == flags) ≡ true
      → (flags == 0) ≡ false
      → check_given_flags flags ptr ≡ o
      → set_generic_flags flags ptr (building c size e) ≡ decided o
  unfolding set_generic_flags error
  set_generic_flags-given none known nonzero checked =
      rw (known, nonzero, checked) (finish_flags-buffer flags)
  set_generic_flags-given (some e') known nonzero checked = rw (known, nonzero, checked) refl

  set_generic_flags-zero :
      (bit_and flags all_flags == flags) ≡ true
      → (flags == 0) ≡ true
      → set_generic_flags flags ptr (building c size e)
        ≡ done (store_flags read_write ptr (building c size e))
  unfolding set_generic_flags
  set_generic_flags-zero known nil = rw (known, nil) (finish_flags-buffer read_write)

  set_generic_flags-unknown :
      (bit_and flags all_flags == flags) ≡ false
      → set_generic_flags flags ptr (building c size e) ≡ done (building c size invalid_value)
  unfolding set_generic_flags error
  set_generic_flags-unknown unknown = rw unknown refl

  pub set_generic_flags-valid :
      valid_flags flags ptr ≡ true
      → set_generic_flags flags ptr (building c size e)
        ≡ done (store_flags (default_flags flags) ptr (building c size e))
  set_generic_flags-valid v =
      let parts = &&-split (bit_and flags all_flags == flags) v in
      elim (Bool-cases (flags == 0)) [
        | inl nil ↦ rw nil (set_generic_flags-zero parts.0 nil)
        | inr nonzero ↦ rw nonzero (
            set_generic_flags-given none parts.0 nonzero (
              check_given_flags-first_error flags ptr
              ∙ first_error-none (one_access flags) (one_host_access flags) (no_alloc flags)
                  (no_copy flags) (has_pointer flags ptr) parts.1))
      ]

  abbrev Refused : Outcome ObjectBuilder → Type 0
  Refused r = (e' : ErrorCode) × (is_success e' ≡ false) × (r ≡ done (building c size e'))

  Refused-decided : (o : Option ErrorCode) → Refuses o → Refused (decided o)
  Refused-decided none r = absurd r
  Refused-decided (some e') r = (e', r, refl)

  pub set_generic_flags-invalid :
      valid_flags flags ptr ≡ false → Refused (set_generic_flags flags ptr (building c size e))
  unfolding is_success
  set_generic_flags-invalid v = elim (Bool-cases (bit_and flags all_flags == flags)) [
    | inr unknown ↦ (invalid_value, refl, set_generic_flags-unknown unknown)
    | inl known ↦ elim (Bool-cases (flags == 0)) [
      | inl nil ↦ absurd (zero-valid flags ptr nil v)
      | inr nonzero ↦
          subst Refused
            (sym
              (set_generic_flags-given _ known nonzero (check_given_flags-first_error flags ptr)))
            (Refused-decided _ (
              first_error-Refuses (one_access flags) (one_host_access flags) (no_alloc flags)
                (no_copy flags) (has_pointer flags ptr)
                (&&-rest (bit_and flags all_flags == flags) known v)))
    ]
  ]
