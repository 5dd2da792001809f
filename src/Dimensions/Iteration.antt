-- ===== src/Dimensions/Iteration.antt =====
-- Advance moves through the work-items in order (lib/Util/DimensionInfo.cpp).
use open_crun.Prelude.{
  ℕ, zero, suc, ◌+◌, ◌*◌, ◌≤◌, ◌<◌, ◌≡◌, ◌⊎◌, inl, inr, refl, ap, ◌∙◌, false, List, [], ◌∷◌, Option,
  some, arith, if◌then◌else◌, ◌==◌, All,
}
use open_crun.Dimensions.{
  Info, Place, unsigned_mod, work_groups_count, local_work_items, begin, end, zeros, move, advance,
}
use open_crun.Dimensions.Digits.{
  value, product, Digits, move-Moved, value-lt-product, value_injective, digit_eq,
}
use open_crun.Dimensions.Sizes.{
  IsSized, local_sizes, group_counts, work_groups_count-Sizes, local_work_items-Sizes,
  zeros-local-Digits, value-zeros,
}

-- A work-item: every index is below the size of its dimension.
abbrev pub IsPlace : List Info → Place → Type 0
IsPlace info p = Digits (local_sizes info) p.locals × Digits (group_counts info) p.work_groups

-- The number of work-items before a place: those of the groups before, and those of its group.
abbrev pub index : List Info → Place → ℕ
index info p =
    value (local_sizes info) p.locals
    + product (local_sizes info) * value (group_counts info) p.work_groups

abbrev pub total : List Info → ℕ
total info = product (local_sizes info) * product (group_counts info)

-- What Advance promises by `n` steps.
abbrev pub Advanced : List Info → Place → ℕ → Option Place → Type 0
Advanced info p n r =
    ((index info p + n < total info)
      × (p' : Place) × (r ≡ some p')
      × IsPlace info p'
      × (index info p' ≡ index info p + n))
    ⊎ ((total info ≤ index info p + n) × (r ≡ end info))

product-pos : (info : List Info) → All IsSized info → 0 < product (local_sizes info)
product-pos [] z = omega arith
product-pos (d ∷ info) z = let rest = product-pos info z.1 in let own = z.0.0 in grind arith

sum_of_moves :
    (l l' a c g g' b o n : ℕ)
    → l' + a * c ≡ l + n
    → g' + b * o ≡ g + c
    → l' + a * g' + a * b * o ≡ l + a * g + n
sum_of_moves l l' a c g g' b o n p q =
    let scaled : a * g' + a * b * o ≡ a * g + a * c = grind (arith, ap (λ (x : ℕ). a * x) q) in
    omega arith

second_bound :
    (l l' a c g n : ℕ)
    → 0 < a
    → l' + a * c ≡ l + n
    → l + a * g + n < unsigned_mod
    → g + c < unsigned_mod
second_bound l l' a c g n pos p h =
    let one : g ≤ a * g = grind arith in let two : c ≤ a * c = grind arith in omega arith

below_total : (l a g b : ℕ) → l < a → g < b → l + a * g < a * b
below_total l a g b p q = let step : a * g + a ≤ a * b = grind arith in omega arith

advance-moves :
    (info : List Info) (p : Place) (n c o : ℕ) (ls gs : List ℕ)
    → move (λ i. some (local_work_items info i)) 0 p.locals n ≡ some (ls, c)
    → move (work_groups_count info) 0 p.work_groups c ≡ some (gs, o)
    → advance info n p
      ≡ (if o == 0 then some (record { locals = ls; work_groups = gs }) else end info)
unfolding advance
advance-moves info p n c o ls gs inner outer = rw (inner, outer) refl

conclude :
    (info : List Info) (p : Place) (n : ℕ) (ls gs : List ℕ) (c o : ℕ) {r : Option Place}
    → Digits (local_sizes info) ls
    → Digits (group_counts info) gs
    → value (local_sizes info) ls + product (local_sizes info) * c
      ≡ value (local_sizes info) p.locals + n
    → value (group_counts info) gs + product (group_counts info) * o
      ≡ value (group_counts info) p.work_groups + c
    → r ≡ (if o == 0 then some (record { locals = ls; work_groups = gs }) else end info)
    → Advanced info p n r
conclude info p n ls gs c zero inner outer e f result =
    let moved =
      sum_of_moves (value (local_sizes info) p.locals) (value (local_sizes info) ls)
        (product (local_sizes info)) c (value (group_counts info) p.work_groups)
        (value (group_counts info) gs) (product (group_counts info)) 0 n e f in
    let below =
      below_total (value (local_sizes info) ls) (product (local_sizes info))
        (value (group_counts info) gs) (product (group_counts info))
        (value-lt-product (local_sizes info) ls inner)
        (value-lt-product (group_counts info) gs outer) in
    inl (omega arith, record { locals = ls; work_groups = gs }, result, (inner, outer), omega arith)
conclude info p n ls gs c (suc o) inner outer e f result =
    let moved =
      sum_of_moves (value (local_sizes info) p.locals) (value (local_sizes info) ls)
        (product (local_sizes info)) c (value (group_counts info) p.work_groups)
        (value (group_counts info) gs) (product (group_counts info)) (suc o) n e f in
    let whole : total info ≤ total info * suc o = grind arith in
    let over : (suc o == 0) ≡ false = ground arith in
    inr (
      omega arith,
      result
          ∙ ap (λ b. if b then some (record { locals = ls; work_groups = gs }) else end info) over,
    )

-- Advance by n steps, from a place of an iteration space with local sizes that are not 0 and sizes
-- below 2^32, where the index of the place plus n stays below 2^32, ends at the place whose index
-- is larger by n if that is below the number of places, else at end(). The index counts the
-- work-items of the groups before and those before in the group.
pub advance-Advanced :
    (info : List Info) (p : Place) (n : ℕ)
    → All IsSized info
    → IsPlace info p
    → index info p + n < unsigned_mod
    → Advanced info p n (advance info n p)
advance-Advanced info p n z at small =
    let inner =
      move-Moved (λ i. some (local_work_items info i)) 0 (local_sizes info) p.locals n
        (local_work_items-Sizes info z) at.0 (omega arith) in
    let l = value (local_sizes info) p.locals in
    let a = product (local_sizes info) in
    let g = value (group_counts info) p.work_groups in
    let outer =
      move-Moved (work_groups_count info) 0 (group_counts info) p.work_groups inner.carry
        (work_groups_count-Sizes info z) at.1
        (second_bound l (value (local_sizes info) inner.digits) a inner.carry g n
          (product-pos info z) inner.sum small) in
    conclude info p n inner.digits outer.digits inner.carry outer.carry inner.in_range
      outer.in_range inner.sum outer.sum
      (advance-moves info p n inner.carry outer.carry inner.digits outer.digits inner.result
        outer.result)

zeros-Digits :
    (info : List Info) (gs : List ℕ)
    → Digits (group_counts info) gs
    → Digits (group_counts info) (zeros info)
zeros-Digits [] gs d = tt
zeros-Digits (x ∷ info) [] d = absurd d
zeros-Digits (x ∷ info) (g ∷ gs) d = (omega arith, zeros-Digits info gs d.1)

-- If there is any work-item, the first is at the beginning.
begin-IsPlace :
    (info : List Info) (p : Place) → All IsSized info → IsPlace info p → IsPlace info (begin info)
unfolding begin
begin-IsPlace info p z at = (zeros-local-Digits info z, zeros-Digits info p.work_groups at.1)

index-begin : (info : List Info) → index info (begin info) ≡ 0
unfolding begin
index-begin info =
    grind (arith, value-zeros (local_sizes info) info, value-zeros (group_counts info) info)

index-lt-total : (info : List Info) (p : Place) → IsPlace info p → index info p < total info
index-lt-total info p at =
    below_total (value (local_sizes info) p.locals) (product (local_sizes info))
      (value (group_counts info) p.work_groups) (product (group_counts info))
      (value-lt-product (local_sizes info) p.locals at.0)
      (value-lt-product (group_counts info) p.work_groups at.1)

-- Places are determined by their index.
pub index_injective :
    (info : List Info) (p q : Place)
    → IsPlace info p
    → IsPlace info q
    → index info p ≡ index info q
    → p ≡ q
index_injective info p q at at' e =
    let parts =
      digit_eq (product (local_sizes info)) (value (local_sizes info) p.locals)
        (value (local_sizes info) q.locals) (value (group_counts info) p.work_groups)
        (value (group_counts info) q.work_groups)
        (value-lt-product (local_sizes info) p.locals at.0)
        (value-lt-product (local_sizes info) q.locals at'.0) e in
    let locals = value_injective (local_sizes info) p.locals q.locals at.0 at'.0 parts.0 in
    let groups =
      value_injective (group_counts info) p.work_groups q.work_groups at.1 at'.1 parts.1 in
    cc (locals, groups)

-- In an iteration space with at most 2^32 places, local sizes that are not 0 and sizes below 2^32,
-- Advance from begin() by the index of a place ends at this place: the iteration visits every
-- place.
advance_visits :
    (info : List Info) (p : Place)
    → All IsSized info
    → total info ≤ unsigned_mod
    → IsPlace info p
    → advance info (index info p) (begin info) ≡ some p
advance_visits info p z small at =
    let inside = index-lt-total info p at in
    elim (advance-Advanced info (begin info) (index info p) z (begin-IsPlace info p z at)
      (omega (arith, index-begin info))) [
        | inl (below, p', result, at', e) ↦
            result ∙ ap some (index_injective info p' p at' at (omega (arith, index-begin info)))
        | inr (past, result) ↦ absurd (omega (arith, index-begin info))
      ]
