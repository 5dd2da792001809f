-- ===== src/Kernel/Typed.antt =====
-- The arguments of a kernel after a series of calls of clSetKernelArg (tools/libOpenCRun/Kernel.cpp).
use open_crun.Prelude.{
  ℕ, zero, suc, ◌≡◌, refl, sym, subst, ap, ◌∙◌, List, [], ◌∷◌, Option, some, length, get_elem?,
  ◌>>=◌, arith, All, ◌⊎◌, inl, inr,
}
use open_crun.Kernel.{
  Descriptor, KernelArg, no_arg, no_args, Pointee, Kernel, new, set, set_arg, get_arg_count,
}
use open_crun.Kernel.Answers.{Fits, Stored}
use open_crun.Kernel.SetArg.{IsDefined, set_arg-Answers}

pub record Call : Type 0 where
  pub index : ℕ
  pub size : ℕ
  pub value : Option Pointee

unfoldable pub run : List Call → Kernel → Option Kernel
run [] k = some k
run (c ∷ cs) k = do (k', e) ← set_arg k c.index c.size c.value; run cs k'

-- Each parameter has no argument yet, or one of its type.
pub record IsTyped (k : Kernel) : Type 0 where
  pub whole : length k.arguments ≡ length k.desc.signature
  pub fits :
      (i : ℕ) (a : KernelArg) → get_elem? k.arguments i ≡ some a → (a ≡ no_arg) ⊎ Fits k.desc i a

length-set : (l : List KernelArg) (i : ℕ) (a : KernelArg) → length (set l i a) ≡ length l
length-set [] i a = refl
length-set (x ∷ l) zero a = refl
length-set (x ∷ l) (suc i) a = omega (arith, length-set l i a)

get_elem?-set :
    (l : List KernelArg) (i j : ℕ) (a b : KernelArg)
    → get_elem? (set l i a) j ≡ some b
    → ((j ≡ i) × (b ≡ a)) ⊎ (get_elem? l j ≡ some b)
get_elem?-set [] i j a b h = inr h
get_elem?-set (x ∷ l) zero zero a b h = inl (refl, cc)
get_elem?-set (x ∷ l) zero (suc j) a b h = inr h
get_elem?-set (x ∷ l) (suc i) zero a b h = inr h
get_elem?-set (x ∷ l) (suc i) (suc j) a b h = elim (get_elem?-set l i j a b h) [
  | inl (e, e') ↦ inl (ap suc e, e')
  | inr e ↦ inr e
]

length-no_args : (n : ℕ) → length (no_args n) ≡ n
unfolding no_args
length-no_args zero = refl
length-no_args (suc n) = omega (arith, length-no_args n)

get_elem?-no_args : (n i : ℕ) (a : KernelArg) → get_elem? (no_args n) i ≡ some a → a ≡ no_arg
unfolding no_args
get_elem?-no_args zero i a h = cc
get_elem?-no_args (suc n) zero a h = cc
get_elem?-no_args (suc n) (suc i) a h = get_elem?-no_args n i a h

new-IsTyped : (d : Descriptor) → IsTyped (new d)
unfolding new get_arg_count
new-IsTyped d = record {
  whole = length-no_args (length d.signature);
  fits = λ i a h. inl (get_elem?-no_args (length d.signature) i a h);
}

Stored-IsTyped :
    (k : Kernel) (i size : ℕ) (arg : Option Pointee) (k' : Kernel)
    → Stored k i size arg k'
    → IsTyped k
    → (k'.desc ≡ k.desc) × IsTyped k'
Stored-IsTyped k i size arg k' (a, fit, holds, e) t =
    let stored : Kernel = record k { arguments = set k.arguments i a } in
    let typed : IsTyped stored = record {
      whole = length-set k.arguments i a ∙ t.whole;
      fits = λ j b h. elim (get_elem?-set k.arguments i j a b h) [
        | inl (e1, e2) ↦
            inr (subst (λ x. Fits k.desc x b) (sym e1) (subst (λ x. Fits k.desc i x) (sym e2) fit))
        | inr old ↦ t.fits j b old
      ];
    } in
    (ap (λ x. x.desc) e, subst IsTyped (sym e) typed)

-- The calls return, and leave a kernel of the same descriptor whose arguments are typed.
abbrev pub RunsTyped : Descriptor → List Call → Kernel → Type 0
RunsTyped d cs k = (k' : Kernel) × (run cs k ≡ some k') × (k'.desc ≡ d) × IsTyped k'

run-IsTyped_from :
    (d : Descriptor) (cs : List Call) (k : Kernel)
    → length d.params ≡ length d.signature
    → All (λ c. IsDefined d c.index c.size c.value) cs
    → k.desc ≡ d
    → IsTyped k
    → RunsTyped d cs k
unfolding run
run-IsTyped_from d [] k even all same t = (k, refl, same, t)
run-IsTyped_from d (c ∷ cs) k even all same t =
    let here = subst (λ x. IsDefined x c.index c.size c.value) (sym same) all.0 in
    let even' = subst (λ x. length x.params ≡ length x.signature) (sym same) even in
    elim (set_arg-Answers k c.index c.size c.value even' here) [
      | inl (k1, stored, e) ↦
          let (same1, t1) = Stored-IsTyped k c.index c.size c.value k1 stored t in
          let (k', ran, last, typed) = run-IsTyped_from d cs k1 even all.1 (same1 ∙ same) t1 in
          (k', rw e ran, last, typed)
      | inr (code, reason, e) ↦
          let (k', ran, last, typed) = run-IsTyped_from d cs k even all.1 same t in
          (k', rw e ran, last, typed)
    ]

-- After any list of calls of SetArg on a new kernel, whose function has a parameter for each
-- argument of the signature, where each caller's pointer is of the sort that the parameter asks for
-- (a buffer for a pointer, an image for an image type), all calls have returned, the descriptor is
-- the same, and each argument is unset or of the type of its parameter.
pub run-IsTyped :
    (d : Descriptor) (cs : List Call)
    → length d.params ≡ length d.signature
    → All (λ c. IsDefined d c.index c.size c.value) cs
    → RunsTyped d cs (new d)
unfolding new
run-IsTyped d cs even all = run-IsTyped_from d cs (new d) even all refl (new-IsTyped d)
