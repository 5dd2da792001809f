-- ===== src/Dimensions/Sizes.antt =====
-- The sizes of the dimensions (include/opencrun/Util/DimensionInfo.h).
use open_crun.Prelude.{
  ℕ, suc, ◌+◌, ◌*◌, ◌/◌, ◌%◌, ◌≤◌, ◌<◌, ◌≡◌, refl, ap, ◌∙◌, false, List, [], ◌∷◌, map, Option, some,
  arith, if◌then◌else◌, ◌==◌, get_elem?, All, Bool-cases, inl, inr,
}
use native.Mathlib.Nat.{div-add-mod, mod-eq_of_lt, div-le_self}
use open_crun.Dimensions.{
  Info, unsigned_mod, info_groups_count, work_groups_count, local_work_items, zeros,
}
use open_crun.Dimensions.Digits.{Sizes, Digits, value}

-- A dimension that clEnqueueNDRangeKernel may be given: sizes of 32 bits, and a group is not empty.
abbrev pub IsSized : Info → Type 0
IsSized d = (0 < d.local_size) × (d.local_size < unsigned_mod) × (d.global_size < unsigned_mod)

-- The number of groups of a dimension, the last of which may be short.
abbrev pub groups : Info → ℕ
groups d =
    if d.global_size % d.local_size == 0
    then d.global_size / d.local_size
    else d.global_size / d.local_size + 1

abbrev pub local_sizes : List Info → List ℕ
local_sizes info = map (λ (d : Info). d.local_size) info

abbrev pub group_counts : List Info → List ℕ
group_counts info = map groups info

short_group : (g l : ℕ) → 0 < l → (g % l == 0) ≡ false → g / l + 1 ≤ g
short_group g l p h =
    let below : g / l ≤ l * (g / l) = grind arith in
    let left : 0 < g % l = ground arith in omega (arith, div-add-mod g l, below, left)

info_groups_count-groups : (d : Info) → IsSized d → info_groups_count d ≡ some (groups d)
unfolding info_groups_count
info_groups_count-groups d z =
    let nonzero : (d.local_size == 0) ≡ false = ground arith in
    let whole : (d.global_size / d.local_size) % unsigned_mod ≡ d.global_size / d.local_size =
      mod-eq_of_lt (omega (arith, div-le_self d.global_size d.local_size)) in
    elim (Bool-cases (d.global_size % d.local_size == 0)) [
      | inl even ↦ rw (nonzero, even, whole) refl
      | inr odd ↦
          let short = short_group d.global_size d.local_size z.0 odd in
          let counted : (d.global_size / d.local_size + 1) % unsigned_mod
              ≡ d.global_size / d.local_size + 1 =
            mod-eq_of_lt (omega arith) in
          rw (nonzero, odd, whole, counted) refl
    ]

-- A table that is read by position agrees with the list.
module _ (size : ℕ → Option ℕ) (f : Info → ℕ) (info : List Info) where
  Sizes-from :
      ((i : ℕ) (d : Info) → get_elem? info i ≡ some d → IsSized d → size i ≡ some (f d))
      → (k : ℕ) (rest : List Info) → ((i : ℕ) → get_elem? info (k + i) ≡ get_elem? rest i)
      → All IsSized rest
      → Sizes size k (map f rest)
  Sizes-from reads k [] suffix z = tt
  Sizes-from reads k (d ∷ rest) suffix z =
      let here : get_elem? info k ≡ some d =
        ap (get_elem? info) {x = k} {y = k + 0} (omega arith) ∙ suffix 0 in
      let later : (i : ℕ) → get_elem? info (suc k + i) ≡ get_elem? rest i =
        λ i. ap (get_elem? info) {x = suc k + i} {y = k + suc i} (omega arith) ∙ suffix (suc i) in
      (reads k d here z.0, Sizes-from reads (suc k) rest later z.1)

zero_suffix : (info : List Info) (i : ℕ) → get_elem? info (0 + i) ≡ get_elem? info i
zero_suffix info i = ap (get_elem? info) {x = 0 + i} {y = i} (omega arith)

pub work_groups_count-Sizes :
    (info : List Info) → All IsSized info → Sizes (work_groups_count info) 0 (group_counts info)
unfolding work_groups_count
work_groups_count-Sizes info z =
    Sizes-from (work_groups_count info) groups info
      (λ i d e s. rw (e, work_groups_count) (info_groups_count-groups d s)) 0 info
      (zero_suffix info) z

pub local_work_items-Sizes :
    (info : List Info)
    → All IsSized info
    → Sizes (λ i. some (local_work_items info i)) 0 (local_sizes info)
unfolding local_work_items
local_work_items-Sizes info z =
    Sizes-from (λ i. some (local_work_items info i)) (λ d. d.local_size) info
      (λ i d e s. rw (e, local_work_items) (ap some (mod-eq_of_lt s.1))) 0 info (zero_suffix info) z

pub zeros-local-Digits :
    (info : List Info) → All IsSized info → Digits (local_sizes info) (zeros info)
zeros-local-Digits [] z = tt
zeros-local-Digits (d ∷ info) z = (z.0.0, zeros-local-Digits info z.1)

pub value-zeros {ℓ} : {A : Type ℓ} (ss : List ℕ) (xs : List A) → value ss (zeros xs) ≡ 0
value-zeros [] xs = refl
value-zeros (s ∷ ss) [] = refl
value-zeros (s ∷ ss) (x ∷ xs) = grind (arith, value-zeros ss xs)
