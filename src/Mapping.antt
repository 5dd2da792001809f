-- ===== src/Mapping.antt =====
-- The mappings of a memory object: addMapping, removeMapping, isValidMapping and getNumMappings
-- (lib/Core/MemoryObject.cpp). Each object has a table, by its number; a sub-buffer, and an image
-- over a buffer, add to the table of the object below them. A multimap is a list in the order of
-- insertion.
pub mod Writes
pub mod Parents
use open_crun.Prelude.{
  ℕ, zero, suc, ◌+◌, ◌-◌, Bool, true, false, ◌&&◌, ◌||◌, not, List, [], ◌∷◌, ◌++◌, Option, none,
  some, if◌then◌else◌, ◌==◌, ltb, has, length,
}
use open_crun.Builder.{size_add}

-- The three offsets and sizes, axis by axis.
pub record Span : Type 0 where
  pub offset : ℕ
  pub size : ℕ

pub record MemMappingInfo : Type 0 where
  pub x : Span
  pub y : Span
  pub z : Span
  pub flags : ℕ

abbrev pub writing : ℕ
writing = 6

unfoldable pub check_intersection : Span → Span → Bool
unfolding size_add
check_intersection a b =
    ltb b.offset (size_add a.offset a.size) && ltb a.offset (size_add b.offset b.size)

unfoldable pub is_overlapped_with : MemMappingInfo → MemMappingInfo → Bool
unfolding check_intersection
is_overlapped_with m n =
    check_intersection m.x n.x && check_intersection m.y n.y && check_intersection m.z n.z

abbrev pub Entry : Type 0
Entry = ℕ × MemMappingInfo

unfoldable pub has_key : ℕ → List Entry → Bool
has_key p [] = false
has_key p ((k, i) ∷ rest) = k == p || has_key p rest

unfoldable pub any_overlap : MemMappingInfo → List Entry → Bool
unfolding is_overlapped_with
any_overlap new [] = false
any_overlap new ((k, i) ∷ rest) = is_overlapped_with i new || any_overlap new rest

-- An object by its number: a buffer or an image of its own, a sub-buffer with its origin in its
-- parent, or an image over a buffer.
pub data MemoryObject : Type 0 where
  own : ℕ → MemoryObject
  sub_buffer : ℕ → ℕ → MemoryObject → MemoryObject
  image1d_buffer : ℕ → MemoryObject → MemoryObject

abbrev pub id : MemoryObject → ℕ
id (own i) = i
id (sub_buffer i origin parent) = i
id (image1d_buffer i buf) = i

abbrev pub Tables : Type 0
Tables = ℕ → List Entry

abbrev pub set_table : ℕ → List Entry → Tables → Tables
set_table i l t j = if j == i then l else t j

-- The locked part of addMapping.
unfoldable pub insert : ℕ → MemMappingInfo → List Entry → Option (List Entry)
unfolding has_key any_overlap
insert p new l =
    if has new.flags writing && (has_key p l || any_overlap new l)
    then none
    else some (l ++ (p, new) ∷ [])

unfoldable pub add_mapping : MemoryObject → Option ℕ → MemMappingInfo → Tables → Tables × Bool
unfolding insert size_add
add_mapping o none new t = (t, false)
add_mapping (own i) (some p) new t =
    if new.flags == 0
    then (t, false)
    else elim (insert p new (t i)) [ none ↦ (t, false) | some l ↦ (set_table i l t, true) ]
add_mapping (sub_buffer i origin parent) (some p) new t =
    let rest =
      add_mapping parent (some p)
        (record new { x = record { offset = size_add new.x.offset origin; size = new.x.size } })
        t in
    if new.flags == 0 then (t, false) else rest
add_mapping (image1d_buffer i buf) (some p) new t =
    let rest = add_mapping buf (some p) new t in if new.flags == 0 then (t, false) else rest

-- Of the entries with the key, `find` may give any: nth says how many it passes over, the last one
-- apart.
unfoldable pub erase : ℕ → ℕ → List Entry → List Entry
unfolding has_key
erase nth p [] = []
erase nth p ((k, i) ∷ rest) =
    if k == p && (nth == 0 || not (has_key p rest))
    then rest
    else (k, i) ∷ erase (if k == p then nth - 1 else nth) p rest

unfoldable pub remove_mapping : ℕ → MemoryObject → ℕ → Tables → Tables × Bool
unfolding has_key erase
remove_mapping nth (own i) p t =
    if has_key p (t i) then (set_table i (erase nth p (t i)) t, true) else (t, false)
remove_mapping nth (sub_buffer i origin parent) p t = remove_mapping nth parent p t
remove_mapping nth (image1d_buffer i buf) p t = remove_mapping nth buf p t

unfoldable pub is_valid_mapping : MemoryObject → ℕ → Tables → Bool
unfolding has_key
is_valid_mapping o p t = has_key p (t (id o))

unfoldable pub get_num_mappings : MemoryObject → Tables → ℕ
get_num_mappings o t = length (t (id o))
