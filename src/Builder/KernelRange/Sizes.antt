-- ===== src/Builder/KernelRange/Sizes.antt =====
-- What the loops over the dimensions of a kernel's range guarantee when they run to their end
-- (lib/Core/Command.cpp).
use open_crun.Prelude.{
  ℕ, zero, suc, ◌%◌, ◌≤◌, ◌<◌, ◌≡◌, refl, sym, ap, subst, ◌∙◌, if◌then◌else◌, ◌>>=◌, true, false,
  not, ◌||◌, List, [], ◌∷◌, Option, some, arith, ◌==◌, ltb, length, map, Bool-cases, inl, inr,
  >>=-eq-some, some-injective,
}
use open_crun.Builder.{size_add}
use open_crun.Dimensions.{Info}
use open_crun.Builder.KernelRange.{
  Pushed, push, push_globals, push_offsets, no_offsets, refuses, push_locals, dimension_info,
}

-- The sizes are those of the caller from index `i` on, not 0 and not above the maximum.
abbrev pub Globals : ℕ → (ℕ → ℕ) → ℕ → List ℕ → Type 0
Globals m f i [] = Unit
Globals m f i (g ∷ gs) = (g ≡ f i) × (0 < g) × (g ≤ m) × Globals m f (suc i) gs

-- No shifted size is above the maximum.
abbrev pub Offsets : ℕ → List ℕ → List ℕ → Type 0
Offsets m (o ∷ os) (g ∷ gs) = (size_add o g ≤ m) × Offsets m os gs
Offsets m _ _ = Unit

-- The local sizes are those of the caller, not 0, and divide the global ones.
abbrev pub Locals : (ℕ → ℕ) → ℕ → List ℕ → List ℕ → Type 0
Locals f i (g ∷ gs) (s ∷ ss) = (s ≡ f i) × (0 < s) × (g % s ≡ 0) × Locals f (suc i) gs ss
Locals f i _ _ = Unit

pub push_globals-Globals :
    (m : ℕ) (f : ℕ → ℕ) (n i : ℕ)
    → (push_globals m f n i).1 ≡ true
    → Globals m f i (push_globals m f n i).0 × (length (push_globals m f n i).0 ≡ n)
unfolding push_globals
push_globals-Globals m f zero i h = (tt, refl)
push_globals-Globals m f (suc n) i h = elim (Bool-cases (f i == 0 || ltb m (f i))) [
  | inl bad ↦ absurd (ground arith)
  | inr good ↦
      let (rest, len) = push_globals-Globals m f n (suc i) (ground arith) in
      rw good ((refl, ground arith, ground arith, rest), ap suc len)
]

pub push_offsets-Offsets :
    (m : ℕ) (f : ℕ → ℕ) (n i : ℕ) (gs : List ℕ) (p : Pushed)
    → push_offsets m f n i gs ≡ some p
    → p.1 ≡ true
    → Offsets m p.0 gs
unfolding push_offsets
push_offsets-Offsets m f zero i gs p h all =
    let is_p : p ≡ ([], true) = ground arith in
    subst (λ (x : Pushed). Offsets m x.0 gs) (sym is_p) tt
push_offsets-Offsets m f (suc n) i [] p h all = absurd (ground arith)
push_offsets-Offsets m f (suc n) i (g ∷ gs) p h all = elim (Bool-cases (ltb m (size_add (f i) g))) [
  | inl bad ↦ absurd (ground arith)
  | inr good ↦
      let runs : (push_offsets m f n (suc i) gs >>= λ r. some (push (f i) r)) ≡ some p =
        ground arith in
      let (r, e, made) = >>=-eq-some (push_offsets m f n (suc i) gs) _ runs in
      let is_p : push (f i) r ≡ p = cc made in
      subst (λ (x : Pushed). Offsets m x.0 (g ∷ gs)) is_p
        (ground arith, push_offsets-Offsets m f n (suc i) gs r e (ground arith))
]

pub no_offsets-Offsets :
    (m : ℕ) (f : ℕ → ℕ) (n i : ℕ) (gs : List ℕ) → Globals m f i gs → Offsets m (no_offsets n) gs
unfolding size_add
no_offsets-Offsets m f zero i gs h = tt
no_offsets-Offsets m f (suc n) i [] h = tt
no_offsets-Offsets m f (suc n) i (g ∷ gs) h =
    (omega (arith, h.2), no_offsets-Offsets m f n (suc i) gs h.3)

Locals-nil : (f : ℕ → ℕ) (i : ℕ) (gs : List ℕ) → Locals f i gs []
Locals-nil f i [] = tt
Locals-nil f i (g ∷ gs) = tt

pub push_locals-Locals :
    (req : Option (List ℕ)) (f : ℕ → ℕ) (n i : ℕ) (ms gs : List ℕ) (p : Pushed)
    → push_locals req f n i ms gs ≡ some p
    → p.1 ≡ true
    → Locals f i gs p.0
unfolding push_locals
push_locals-Locals req f zero i ms gs p h all =
    let is_p : p ≡ ([], true) = ground arith in
    subst (λ (x : Pushed). Locals f i gs x.0) (sym is_p) (Locals-nil f i gs)
push_locals-Locals req f (suc n) i [] gs p h all = absurd (ground arith)
push_locals-Locals req f (suc n) i (m ∷ ms) [] p h all = absurd (ground arith)
push_locals-Locals req f (suc n) i (m ∷ ms) (g ∷ gs) p h all =
    elim (Bool-cases (ltb m (f i) || f i == 0 || not (g % f i == 0))) [
      | inl bad ↦ absurd (ground arith)
      | inr good ↦
          let runs : (refuses req i (f i) >>= λ bad.
          if bad
          then some ([], false)
          else (push_locals req f n (suc i) ms gs >>= λ r. some (push (f i) r)))
              ≡ some p =
            ground arith in
          let (bad, _, rest) = >>=-eq-some (refuses req i (f i)) _ runs in
          let runs' : (push_locals req f n (suc i) ms gs >>= λ r. some (push (f i) r)) ≡ some p =
            ground arith in
          let (r, e, made) = >>=-eq-some (push_locals req f n (suc i) ms gs) _ runs' in
          let is_p : push (f i) r ≡ p = cc made in
          subst (λ (x : Pushed). Locals f i (g ∷ gs) x.0) is_p
            (
              refl,
              ground arith,
              ground arith,
              push_locals-Locals req f n (suc i) ms gs r e (ground arith),
            )
    ]

-- A dimension of a range with the sizes of the caller, which whole groups fill.
pub record IsDimension (m : ℕ) (sizes locals : ℕ → ℕ) (i : ℕ) (d : Info) : Type 0 where
  pub same_global : d.global_size ≡ sizes i
  pub same_local : d.local_size ≡ locals i
  pub nonempty : 0 < d.global_size
  pub bounded : d.global_size ≤ m
  pub positive : 0 < d.local_size
  pub whole : d.global_size % d.local_size ≡ 0
  pub placed : size_add d.offset d.global_size ≤ m

abbrev pub Dimensions : ℕ → (ℕ → ℕ) → (ℕ → ℕ) → ℕ → List Info → Type 0
Dimensions m sizes locals i [] = Unit
Dimensions m sizes locals i (d ∷ ds) =
    IsDimension m sizes locals i d × Dimensions m sizes locals (suc i) ds

pub dimension_info-Dimensions :
    (m : ℕ) (sizes locals : ℕ → ℕ) (i : ℕ) (os gs ss : List ℕ) (info : List Info)
    → Globals m sizes i gs
    → Offsets m os gs
    → Locals locals i gs ss
    → dimension_info os gs ss ≡ some info
    → Dimensions m sizes locals i info × (length info ≡ length gs)
unfolding dimension_info
dimension_info-Dimensions m sizes locals i [] [] [] info g o s h =
    subst (λ x. Dimensions m sizes locals i x × (length x ≡ 0)) (some-injective h) (tt, refl)
dimension_info-Dimensions m sizes locals i (o ∷ os) (g ∷ gs) (s ∷ ss) info hg ho hs h =
    let (rest, e, made) = >>=-eq-some (dimension_info os gs ss) _ h in
    let (dims, len) =
      dimension_info-Dimensions m sizes locals (suc i) os gs ss rest hg.3 ho.1 hs.3 e in
    let is_info = some-injective made in
    subst (λ (x : List Info). Dimensions m sizes locals i x × (length x ≡ suc (length gs))) is_info
      (
        (
          record {
            same_global = hg.0;
            same_local = hs.0;
            nonempty = hg.1;
            bounded = hg.2;
            positive = hs.1;
            whole = hs.2;
            placed = ho.0;
          },
          dims,
        ),
        ap suc len,
      )
dimension_info-Dimensions m sizes locals i [] [] (s ∷ ss) info hg ho hs h = absurd (cc h)
dimension_info-Dimensions m sizes locals i [] (g ∷ gs) ss info hg ho hs h = absurd (cc h)
dimension_info-Dimensions m sizes locals i (o ∷ os) [] ss info hg ho hs h = absurd (cc h)
dimension_info-Dimensions m sizes locals i (o ∷ os) (g ∷ gs) [] info hg ho hs h = absurd (cc h)

pub dimension_info-locals :
    (os gs ss : List ℕ) (info : List Info)
    → dimension_info os gs ss ≡ some info
    → map (λ (d : Info). d.local_size) info ≡ ss
unfolding dimension_info
dimension_info-locals [] [] [] info h =
    ap (map (λ (d : Info). d.local_size)) (sym (some-injective h))
dimension_info-locals (o ∷ os) (g ∷ gs) (s ∷ ss) info h =
    let (rest, e, made) = >>=-eq-some (dimension_info os gs ss) _ h in
    ap (map (λ (d : Info). d.local_size)) (sym (some-injective made))
    ∙ ap (λ x. s ∷ x) (dimension_info-locals os gs ss rest e)
dimension_info-locals [] [] (s ∷ ss) info h = absurd (cc h)
dimension_info-locals [] (g ∷ gs) ss info h = absurd (cc h)
dimension_info-locals (o ∷ os) [] ss info h = absurd (cc h)
dimension_info-locals (o ∷ os) (g ∷ gs) [] info h = absurd (cc h)
