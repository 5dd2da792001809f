-- ===== src/Dimensions.antt =====
-- DimensionInfo and its iterator (include/opencrun/Util/DimensionInfo.h, lib/Util/DimensionInfo.cpp):
-- the iteration space of a kernel. An `unsigned` has 32 bits. A division by zero, and a write into an
-- empty container, are none.
pub mod Digits
pub mod Sizes
pub mod Iteration
pub mod Ids
use open_crun.Prelude.{
  ℕ, zero, suc, ◌+◌, ◌*◌, ◌/◌, ◌%◌, Bool, true, false, not, ◌&&◌, ◌||◌, List, [], ◌∷◌, map, Option,
  none, some, if◌then◌else◌, ◌==◌, leb, length, get_elem?, ◌>>=◌, ◌>>◌, assert,
}
use open_crun.Builder.{size_add, size_mul}

-- InfoWrapper
pub record Info : Type 0 where
  pub offset : ℕ
  pub global_size : ℕ
  pub local_size : ℕ

-- DimensionInfoIterator: the local indexes, and those of the work-group.
pub record Place : Type 0 where
  pub locals : List ℕ
  pub work_groups : List ℕ

abbrev pub unsigned_mod : ℕ
unsigned_mod = 4294967296

unfoldable pub info_groups_count : Info → Option ℕ
info_groups_count d =
    if d.local_size == 0
    then none
    else (let count = (d.global_size / d.local_size) % unsigned_mod in
        some (if d.global_size % d.local_size == 0 then count else (count + 1) % unsigned_mod))

-- GetWorkGroupsCount(I)
unfoldable pub work_groups_count : List Info → ℕ → Option ℕ
unfolding info_groups_count
work_groups_count info i = elim (get_elem? info i) [ none ↦ some 1 | some d ↦ info_groups_count d ]

-- GetLocalWorkItems(I)
unfoldable pub local_work_items : List Info → ℕ → ℕ
local_work_items info i = elim (get_elem? info i) [
  | none ↦ 1
  | some d ↦ d.local_size % unsigned_mod
]

-- GetGlobalWorkItems and GetLocalWorkItems of all dimensions.
unfoldable pub multiply : (Info → ℕ) → ℕ → List Info → ℕ
multiply f acc [] = acc
multiply f acc (d ∷ ds) = multiply f (acc * f d % unsigned_mod) ds

unfoldable pub total_global_work_items : List Info → ℕ
unfolding multiply
total_global_work_items info = multiply (λ d. d.global_size) 1 info

unfoldable pub total_local_work_items : List Info → ℕ
unfolding multiply
total_local_work_items info = multiply (λ d. d.local_size) 1 info

unfoldable pub total_work_groups_count : List Info → Option ℕ
unfolding total_global_work_items total_local_work_items
total_work_groups_count info =
    if total_local_work_items info == 0
    then none
    else some (total_global_work_items info / total_local_work_items info)

-- The loops of SetLocalWorkItems, which check all sizes and then set them.
unfoldable pub check_sizes : List Info → List ℕ → Option Bool
check_sizes (d ∷ ds) (s ∷ ss) =
    if s == 0
    then none
    else (if not (d.global_size % s == 0) then some false else check_sizes ds ss)
check_sizes _ _ = some true

unfoldable pub set_sizes : List Info → List ℕ → List Info
set_sizes (d ∷ ds) (s ∷ ss) = record d { local_size = s } ∷ set_sizes ds ss
set_sizes ds _ = ds

unfoldable pub set_local_work_items : List ℕ → List Info → Option (List Info × Bool)
unfolding check_sizes set_sizes
set_local_work_items sizes info =
    if not (length sizes == length info)
    then some (info, false)
    else (check_sizes info sizes >>= λ ok.
        some (if ok then (set_sizes info sizes, true) else (info, false)))

abbrev pub zeros {ℓ} : {A : Type ℓ} → List A → List ℕ
zeros xs = map (λ x. 0) xs

unfoldable pub begin : List Info → Place
begin info = record { locals = zeros info; work_groups = zeros info }

unfoldable pub set_first : ℕ → List ℕ → Option (List ℕ)
set_first c [] = none
set_first c (x ∷ xs) = some (c ∷ xs)

-- One work-item beyond the last.
unfoldable pub end : List Info → Option Place
unfolding set_first work_groups_count
end info = do
  count ← work_groups_count info 0
  groups ← set_first count (zeros info)
  some (record { locals = zeros info; work_groups = groups })

-- The two loops of Advance: the digits from index `i` on are moved by the carry.
unfoldable pub move : (ℕ → Option ℕ) → ℕ → List ℕ → ℕ → Option (List ℕ × ℕ)
move size i [] carry = some ([], carry)
move size i (d ∷ ds) carry =
    if carry == 0
    then some (d ∷ ds, 0)
    else (size i >>= λ dim_size.
        assert (not (dim_size == 0))
        >> (let new_id = (d + carry) % unsigned_mod in
            move size (suc i) ds (new_id / dim_size) >>= λ r.
            some ((new_id % dim_size) ∷ r.0, r.1)))

unfoldable pub advance : List Info → ℕ → Place → Option Place
unfolding move end local_work_items work_groups_count
advance info n p = do
  (locals, carry) ← move (λ i. some (local_work_items info i)) 0 p.locals n
  (groups, over) ← move (work_groups_count info) 0 p.work_groups carry
  if over == 0 then some (record { locals = locals; work_groups = groups }) else end info

abbrev pub get_or_zero : List ℕ → ℕ → ℕ
get_or_zero xs i = elim (get_elem? xs i) [ none ↦ 0 | some x ↦ x ]

-- GetWorkGroup(I), GetLocalId(I), GetGlobalId(I) and GetGlobalOffset(I)
unfoldable pub work_group : List Info → Place → ℕ → ℕ
work_group info p i = if leb (length info) i then 0 else get_or_zero p.work_groups i

unfoldable pub local_id : List Info → Place → ℕ → ℕ
local_id info p i = if leb (length info) i then 0 else get_or_zero p.locals i

unfoldable pub global_id : List Info → Place → ℕ → ℕ
unfolding work_group local_work_items size_add size_mul
global_id info p i =
    if leb (length info) i
    then 0
    else size_add (size_mul (work_group info p i) (local_work_items info i))
        (get_or_zero p.locals i)

unfoldable pub global_offset : List Info → ℕ → ℕ
global_offset info i = elim (get_elem? info i) [ none ↦ 0 | some d ↦ d.offset % unsigned_mod ]

-- WG_Count: the product of the counts of the dimensions below `k`.
unfoldable pub group_weight : List Info → ℕ → Option ℕ
unfolding work_groups_count size_mul
group_weight info zero = some 1
group_weight info (suc k) = do
  weight ← group_weight info k
  count ← work_groups_count info k
  some (size_mul weight count)

-- GetWorkGroup(): the loop adds the indexes from `i` on by their weights.
unfoldable pub add_groups : List Info → ℕ → List ℕ → ℕ → Option ℕ
unfolding group_weight size_add size_mul
add_groups info i [] acc = some acc
add_groups info i (g ∷ gs) acc = do
  weight ← group_weight info i
  add_groups info (suc i) gs (size_add acc (size_mul g weight))

unfoldable pub linear_work_group : List Info → Place → Option ℕ
unfolding add_groups
linear_work_group info p = elim p.work_groups [ [] ↦ none | g ∷ gs ↦ add_groups info 1 gs g ]
