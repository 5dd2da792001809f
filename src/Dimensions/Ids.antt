-- ===== src/Dimensions/Ids.antt =====
-- The ids of a work-item and the number of its work-group (lib/Util/DimensionInfo.cpp).
use open_crun.Prelude.{
  ℕ, zero, suc, ◌+◌, ◌*◌, ◌/◌, ◌%◌, ◌≤◌, ◌<◌, ◌≡◌, ◌≢◌, refl, subst, ap, ◌∙◌, true, false, List, [],
  ◌∷◌, map, Option, none, some, arith, ◌==◌, All, get_elem?, length, leb,
}
use native.Mathlib.Nat.{div-add-mod, mod-eq_of_lt, add-mul-div_left, div-eq_of_lt}
use open_crun.Builder.{size_mod, size_add, size_mul}
use open_crun.Dimensions.{
  Info, Place, unsigned_mod, work_groups_count, local_work_items, work_group, local_id, global_id,
  get_or_zero, group_weight, add_groups, linear_work_group,
}
use open_crun.Dimensions.Digits.{value, product, Digits, Sizes, value-lt-product}
use open_crun.Dimensions.Sizes.{IsSized, groups, group_counts, work_groups_count-Sizes}
use open_crun.Dimensions.Iteration.{IsPlace}

-- What the loop relies on at one index.
record Fits (w s p acc g : ℕ) : Type 0 where
  pub next : acc + g * w < w * s
  pub weight : w * s < size_mod
  pub later : w * s * p < size_mod

le-mul_right : (a p : ℕ) → 0 < p → a ≤ a * p
le-mul_right a p h = grind arith

fits : (w s p acc g : ℕ) → acc < w → g < s → 0 < p → w * (s * p) < size_mod → Fits w s p acc g
fits w s p acc g small digit pos bound =
    let next : acc + g * w < w * s = grind arith in
    let same : w * s * p ≡ w * (s * p) = grind arith in
    let below = le-mul_right (w * s) p pos in
    record { next = next; weight = omega arith; later = omega arith }

size_add-small : (a b : ℕ) → a + b < size_mod → size_add a b ≡ a + b
unfolding size_add
size_add-small a b h = mod-eq_of_lt h

size_mul-small : (a b : ℕ) → a * b < size_mod → size_mul a b ≡ a * b
unfolding size_mul
size_mul-small a b h = mod-eq_of_lt h

reassociate : (acc w g s v : ℕ) → acc + g * w + w * s * v ≡ acc + w * (g + s * v)
reassociate acc w g s v = grind arith

group_weight-suc :
    (info : List Info) (i w s : ℕ)
    → group_weight info i ≡ some w
    → work_groups_count info i ≡ some s
    → w * s < size_mod
    → group_weight info (suc i) ≡ some (w * s)
unfolding group_weight
group_weight-suc info i w s e f small = rw (e, f) (ap some (size_mul-small w s small))

add_groups-suc :
    (info : List Info) (i w g acc : ℕ) (gs : List ℕ)
    → group_weight info i ≡ some w
    → acc + g * w < size_mod
    → add_groups info i (g ∷ gs) acc ≡ add_groups info (suc i) gs (acc + g * w)
unfolding add_groups
add_groups-suc info i w g acc gs e small =
    rw (e, size_mul-small g w (omega arith), size_add-small acc (g * w) small) refl

-- The loop adds the value of the digits from index `i` on, by the weight of the first of them.
add_groups-value :
    (info : List Info) (i w acc : ℕ) (ss gs : List ℕ)
    → Sizes (work_groups_count info) i ss
    → Digits ss gs
    → group_weight info i ≡ some w
    → w * product ss < size_mod
    → acc < w
    → add_groups info i gs acc ≡ some (acc + w * value ss gs)
unfolding add_groups
add_groups-value info i w acc [] [] sizes d e small lt = ap some (omega arith)
add_groups-value info i w acc [] (x ∷ gs) sizes d e small lt = absurd d
add_groups-value info i w acc (s ∷ ss) [] sizes d e small lt = absurd d
add_groups-value info i w acc (s ∷ ss) (g ∷ gs) sizes d e small lt =
    let f = fits w s (product ss) acc g lt d.0 (omega (arith, value-lt-product ss gs d.1)) small in
    add_groups-suc info i w g acc gs e (omega (arith, f.next, f.weight))
    ∙ add_groups-value info (suc i) (w * s) (acc + g * w) ss gs sizes.1 d.1
        (group_weight-suc info i w s e sizes.0 f.weight) f.later f.next
    ∙ ap some (reassociate acc w g s (value ss gs))

first_group :
    (d : Info) (info : List Info) (gs : List ℕ)
    → All IsSized (d ∷ info)
    → product (group_counts (d ∷ info)) < size_mod
    → Digits (group_counts (d ∷ info)) gs
    → ◌≡◌ {A = Option ℕ}
        (elim gs [ [] ↦ none | g ∷ gs ↦ add_groups (d ∷ info) 1 gs g ])
        (some (value (group_counts (d ∷ info)) gs))
unfolding group_weight
first_group d info [] z small at = absurd at
first_group d info (g ∷ gs) z small at =
    let sizes = work_groups_count-Sizes (d ∷ info) z in
    let rest_pos : 0 < product (group_counts info) =
      omega (arith, value-lt-product (group_counts info) gs at.1) in
    let count_small = le-mul_right (groups d) (product (group_counts info)) rest_pos in
    let weighed : group_weight (d ∷ info) 1 ≡ some (groups d) =
      group_weight-suc (d ∷ info) 0 1 (groups d) refl sizes.0 (omega arith)
      ∙ ap some (omega arith) in
    add_groups-value (d ∷ info) 1 (groups d) g (group_counts info) gs sizes.1 at.1 weighed small
      at.0

-- In an iteration space with at least one dimension, local sizes that are not 0 and sizes below
-- 2^32, whose number of groups is below 2^64, GetWorkGroup of a place is the number that its group
-- indexes write in the mixed base of the counts of groups, and is below the number of groups.
pub linear_work_group-value :
    (info : List Info) (p : Place)
    → All IsSized info
    → info ≢ []
    → product (group_counts info) < size_mod
    → IsPlace info p
    → (linear_work_group info p ≡ some (value (group_counts info) p.work_groups))
      × (value (group_counts info) p.work_groups < product (group_counts info))
unfolding linear_work_group
linear_work_group-value [] p z nonempty small at = absurd (nonempty refl)
linear_work_group-value (d ∷ info) p z nonempty small at = (
  first_group d info p.work_groups z small at.1,
  value-lt-product (group_counts (d ∷ info)) p.work_groups at.1,
)

digit-lt :
    (f : Info → ℕ) (info : List Info) (ds : List ℕ) (i : ℕ) {d : Info}
    → Digits (map f info) ds
    → get_elem? info i ≡ some d
    → get_or_zero ds i < f d
digit-lt f [] ds i at e = cc
digit-lt f (x ∷ info) [] i at e = absurd at
digit-lt f (x ∷ info) (y ∷ ds) zero {d} at e =
    let same : x ≡ d = cc in subst (λ x. y < f x) same at.0
digit-lt f (x ∷ info) (y ∷ ds) (suc i) at e = digit-lt f info ds i at.1 e

inside :
    (info : List Info) (i : ℕ) {d : Info} → get_elem? info i ≡ some d → leb (length info) i ≡ false
inside [] i e = cc
inside (x ∷ info) zero e = ground arith
inside (x ∷ info) (suc i) e = ground (arith, inside info i e)

-- An id of two digits, with no wrap-around.
two_digits :
    (n s g l : ℕ)
    → l < s
    → n % s ≡ 0
    → g < n / s
    → n < unsigned_mod
    → (size_add (size_mul g s) l < n)
      × (size_add (size_mul g s) l / s ≡ g)
      × (size_add (size_mul g s) l % s ≡ l)
two_digits n s g l below whole group small =
    let times : s * g + s ≤ s * (n / s) = grind arith in
    let swap : g * s ≡ s * g = grind arith in
    let flat : size_add (size_mul g s) l ≡ l + s * g =
      ap (λ x. size_add x l) (size_mul-small g s (omega (arith, div-add-mod n s)))
      ∙ size_add-small (g * s) l (omega (arith, div-add-mod n s))
      ∙ omega arith in
    let quotient : (l + s * g) / s ≡ g =
      omega (arith, add-mul-div_left l g {y = s} (omega arith), div-eq_of_lt below) in
    let remainder : (l + s * g) % s ≡ l =
      omega (arith, div-add-mod (l + s * g) s, ap (λ (x : ℕ). s * x) quotient) in
    rw flat (omega (arith, div-add-mod n s), quotient, remainder)

All-get :
    (info : List Info) (i : ℕ) {d : Info} → All IsSized info → get_elem? info i ≡ some d → IsSized d
All-get [] i z e = cc
All-get (x ∷ info) zero {d} z e = let same : x ≡ d = cc in subst IsSized same z.0
All-get (x ∷ info) (suc i) z e = All-get info i z.1 e

local_work_items-get :
    (info : List Info) (i : ℕ) {d : Info}
    → get_elem? info i ≡ some d
    → IsSized d
    → local_work_items info i ≡ d.local_size
unfolding local_work_items
local_work_items-get info i e z = rw (e, local_work_items) (mod-eq_of_lt z.1)

-- In an iteration space with local sizes that are not 0 and sizes below 2^32, in a dimension whose
-- size is a multiple of the local size, the global id of a place is below the global size, and its
-- quotient and remainder by the local size are the group's index and the local id.
pub global_id-digits :
    (info : List Info) (p : Place) (i : ℕ) (d : Info)
    → All IsSized info
    → IsPlace info p
    → get_elem? info i ≡ some d
    → d.global_size % d.local_size ≡ 0
    → (global_id info p i < d.global_size)
      × (global_id info p i / d.local_size ≡ work_group info p i)
      × (global_id info p i % d.local_size ≡ local_id info p i)
unfolding global_id work_group local_id
global_id-digits info p i d z at e whole =
    let size = All-get info i z e in
    let g = digit-lt groups info p.work_groups i at.1 e in
    let l = digit-lt (λ d. d.local_size) info p.locals i at.0 e in
    let even : (d.global_size % d.local_size == 0) ≡ true = ground arith in
    let count : get_or_zero p.work_groups i < d.global_size / d.local_size = rw even at g in
    let items : local_work_items info i ≡ d.local_size = local_work_items-get info i e size in
    rw (inside info i e, items)
      (two_digits d.global_size d.local_size (get_or_zero p.work_groups i) (get_or_zero p.locals i)
        l whole count size.2)
