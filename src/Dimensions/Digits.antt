-- ===== src/Dimensions/Digits.antt =====
-- Numbers in mixed radix, and the loops of Advance (lib/Util/DimensionInfo.cpp) as an addition.
use open_crun.Prelude.{
  ℕ, suc, ◌+◌, ◌*◌, ◌/◌, ◌%◌, ◌≤◌, ◌<◌, ◌≡◌, refl, ap, false, List, [], ◌∷◌, Option, some, arith,
  Bool-cases, inl, inr, ◌==◌,
}
use native.Mathlib.Nat.{
  div-add-mod, div-le_self, mod-lt, mod-eq_of_lt, add-mul-div_left, div-eq_of_lt,
}
use open_crun.Dimensions.{unsigned_mod, move}

-- The lowest digit stands first.
abbrev pub value : List ℕ → List ℕ → ℕ
value (s ∷ ss) (d ∷ ds) = d + s * value ss ds
value _ _ = 0

abbrev pub product : List ℕ → ℕ
product [] = 1
product (s ∷ ss) = s * product ss

-- As many digits as radices, each below its own.
abbrev pub Digits : List ℕ → List ℕ → Type 0
Digits [] [] = Unit
Digits (s ∷ ss) (d ∷ ds) = (d < s) × Digits ss ds
Digits _ _ = ⊥

-- The radices from index `i` on are those of the list.
abbrev pub Sizes : (ℕ → Option ℕ) → ℕ → List ℕ → Type 0
Sizes size i [] = Unit
Sizes size i (s ∷ ss) = (size i ≡ some s) × Sizes size (suc i) ss

pub value-lt-product : (ss ds : List ℕ) → Digits ss ds → value ss ds < product ss
value-lt-product [] [] d = omega arith
value-lt-product [] (x ∷ ds) d = absurd d
value-lt-product (s ∷ ss) [] d = absurd d
value-lt-product (s ∷ ss) (x ∷ ds) d =
    let below = value-lt-product ss ds d.1 in
    let step : s * value ss ds + s ≤ s * product ss = grind arith in omega arith

-- A digit and the rest are determined by their sum.
pub digit_eq : (s x y v w : ℕ) → x < s → y < s → x + s * v ≡ y + s * w → (x ≡ y) × (v ≡ w)
digit_eq s x y v w p q e =
    let rest : v ≡ w = omega (
      arith,
      add-mul-div_left x v {y = s} (omega arith),
      add-mul-div_left y w {y = s} (omega arith),
      div-eq_of_lt p,
      div-eq_of_lt q,
      ap (λ (n : ℕ). n / s) e,
    ) in
    (omega (arith, ap (λ (n : ℕ). s * n) rest), rest)

pub value_injective :
    (ss ds es : List ℕ) → Digits ss ds → Digits ss es → value ss ds ≡ value ss es → ds ≡ es
value_injective [] [] [] d e h = refl
value_injective [] [] (y ∷ es) d e h = absurd e
value_injective [] (x ∷ ds) es d e h = absurd d
value_injective (s ∷ ss) [] es d e h = absurd d
value_injective (s ∷ ss) (x ∷ ds) [] d e h = absurd e
value_injective (s ∷ ss) (x ∷ ds) (y ∷ es) d e h =
    let eq = digit_eq s x y (value ss ds) (value ss es) d.0 e.0 h in
    cc (eq.0, value_injective ss ds es d.1 e.1 eq.1)

le-mul : (s v : ℕ) → 0 < s → v ≤ s * v
le-mul s v p = grind arith

carry_bound : (s x c v : ℕ) → 0 < s → x + s * v + c < unsigned_mod → v + (x + c) / s < unsigned_mod
carry_bound s x c v p h = omega (arith, le-mul s v p, div-le_self (x + c) s)

carry_sum :
    (s x c v w p k : ℕ)
    → w + p * k ≡ v + (x + c) / s
    → (x + c) % s + s * w + s * p * k ≡ x + s * v + c
carry_sum s x c v w p k e =
    let scaled : s * w + s * p * k ≡ s * v + s * ((x + c) / s) =
      grind (arith, ap (λ (n : ℕ). s * n) e) in
    omega (arith, scaled, div-add-mod (x + c) s)

-- What the loop has moved: the new digits and the carry that is left.
pub record Moved (ss ds : List ℕ) (c : ℕ) (r : Option (List ℕ × ℕ)) : Type 0 where
  pub digits : List ℕ
  pub carry : ℕ
  pub result : r ≡ some (digits, carry)
  pub in_range : Digits ss digits
  pub sum : value ss digits + product ss * carry ≡ value ss ds + c

move-step :
    (size : ℕ → Option ℕ) (i s x c : ℕ) (ds : List ℕ) {r : List ℕ × ℕ}
    → (c == 0) ≡ false
    → size i ≡ some s
    → 0 < s
    → x + c < unsigned_mod
    → move size (suc i) ds ((x + c) / s) ≡ some r
    → move size i (x ∷ ds) c ≡ some (((x + c) % s) ∷ r.0, r.1)
unfolding move
move-step size i s x c ds {r} go read pos small rest =
    let nonzero : (s == 0) ≡ false = ground arith in
    rw (go, read, nonzero, mod-eq_of_lt small, rest) refl

pub move-Moved :
    (size : ℕ → Option ℕ) (i : ℕ) (ss ds : List ℕ) (c : ℕ)
    → Sizes size i ss
    → Digits ss ds
    → value ss ds + c < unsigned_mod
    → Moved ss ds c (move size i ds c)
unfolding move
move-Moved size i [] [] c sizes d h = record {
  digits = [];
  carry = c;
  result = refl;
  in_range = tt;
  sum = omega arith;
}
move-Moved size i [] (x ∷ ds) c sizes d h = absurd d
move-Moved size i (s ∷ ss) [] c sizes d h = absurd d
move-Moved size i (s ∷ ss) (x ∷ ds) c sizes d h = elim (Bool-cases (c == 0)) [
  | inl stop ↦ record {
    digits = x ∷ ds;
    carry = 0;
    result = rw stop refl;
    in_range = d;
    sum = ground arith;
  }
  | inr go ↦
      let rest =
        move-Moved size (suc i) ss ds ((x + c) / s) sizes.1 d.1
          (carry_bound s x c (value ss ds) (omega arith) h) in
      record {
        digits = ((x + c) % s) ∷ rest.digits;
        carry = rest.carry;
        result = move-step size i s x c ds go sizes.0 (omega arith) (omega arith) rest.result;
        in_range = (mod-lt (x + c) (omega arith), rest.in_range);
        sum = carry_sum s x c (value ss ds) (value ss rest.digits) (product ss) rest.carry rest.sum;
      }
]
