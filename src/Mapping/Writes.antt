-- ===== src/Mapping/Writes.antt =====
-- The areas of mappings for writing (addMapping and removeMapping, lib/Core/MemoryObject.cpp).
use open_crun.Prelude.{
  ℕ, ◌≡◌, ◌≤◌, ◌<◌, ◌+◌, ◌%◌, refl, subst, true, false, ◌&&◌, ◌||◌, not, ◌-◌, if◌then◌else◌, List,
  [], ◌∷◌, ◌++◌, Option, none, some, arith, All, ◌==◌, has, Bool-cases, Option-cases, inl, inr,
}
use open_crun.Builder.{size_add, size_mod}
use open_crun.Mapping.{
  Span, MemMappingInfo, check_intersection, Entry, writing, has_key, any_overlap,
  is_overlapped_with, MemoryObject, own, sub_buffer, image1d_buffer, Tables, set_table, insert,
  add_mapping, erase, remove_mapping,
}

abbrev pub Within : Span → ℕ → Type 0
Within s p = (s.offset ≤ p) × (p < s.offset + s.size)

-- A position in the area of a mapping.
abbrev pub Touches : MemMappingInfo → ℕ → ℕ → ℕ → Type 0
Touches m x y z = Within m.x x × Within m.y y × Within m.z z

-- If both write, they have no position in common.
abbrev pub Apart : Entry → Entry → Type 0
Apart a b =
    has a.1.flags writing ≡ true
    → has b.1.flags writing ≡ true
    → (x y z : ℕ) → Touches a.1 x y z
    → Touches b.1 x y z
    → ⊥

-- The ends of an area are numbers of a size_t.
abbrev pub IsPlain : MemMappingInfo → Type 0
IsPlain m =
    (m.x.offset + m.x.size < size_mod)
    × (m.y.offset + m.y.size < size_mod)
    × (m.z.offset + m.z.size < size_mod)

abbrev pub WritesApart : List Entry → Type 0
WritesApart [] = Unit
WritesApart (e ∷ l) = IsPlain e.1 × All (Apart e) l × WritesApart l

check_intersection-Within :
    (a b : Span) (p : ℕ)
    → a.offset + a.size < size_mod
    → b.offset + b.size < size_mod
    → Within a p
    → Within b p
    → check_intersection a b ≡ true
unfolding check_intersection size_add
check_intersection-Within a b p ha hb wa wb =
    let ea : (a.offset + a.size) % size_mod ≡ a.offset + a.size = omega arith in
    let eb : (b.offset + b.size) % size_mod ≡ b.offset + b.size = omega arith in
    rw (ea, eb) (ground (arith, wa.0, wa.1, wb.0, wb.1))

is_overlapped_with-Touches :
    (m n : MemMappingInfo) (x y z : ℕ)
    → IsPlain m
    → IsPlain n
    → Touches m x y z
    → Touches n x y z
    → is_overlapped_with m n ≡ true
unfolding is_overlapped_with
is_overlapped_with-Touches m n x y z pm pn tm tn =
    rw
      (
        check_intersection-Within m.x n.x x pm.0 pn.0 tm.0 tn.0,
        check_intersection-Within m.y n.y y pm.1 pn.1 tm.1 tn.1,
        check_intersection-Within m.z n.z z pm.2 pn.2 tm.2 tn.2,
      )
      refl

All-snoc {ℓ κ} :
    {A : Type ℓ} (P : A → Type κ) (l : List A) (x : A) → All P l → P x → All P (l ++ x ∷ [])
All-snoc P [] x a p = (p, tt)
All-snoc P (y ∷ l) x a p = (a.0, All-snoc P l x a.1 p)

WritesApart-snoc :
    (l : List Entry) (p : ℕ) (new : MemMappingInfo)
    → IsPlain new
    → (has new.flags writing && any_overlap new l) ≡ false
    → WritesApart l
    → WritesApart (l ++ (p, new) ∷ [])
unfolding any_overlap
WritesApart-snoc [] p new plain h w = (plain, tt, tt)
WritesApart-snoc ((k, i) ∷ l) p new plain h w = (
  w.0,
  All-snoc (Apart (k, i)) l (p, new) w.1
      (λ a b x y z ti tn.
        let both = is_overlapped_with-Touches i new x y z w.0 plain ti tn in absurd (ground arith)),
  WritesApart-snoc l p new plain (ground arith) w.2,
)

insert-WritesApart :
    (p : ℕ) (new : MemMappingInfo) (l : List Entry) {l' : List Entry}
    → IsPlain new
    → insert p new l ≡ some l'
    → WritesApart l
    → WritesApart l'
unfolding insert
insert-WritesApart p new l {l'} plain e w =
    let same : l ++ (p, new) ∷ [] ≡ l' = ground arith in
    subst WritesApart same (WritesApart-snoc l p new plain (ground arith) w)

erase-All : (P : Entry → Type 0) (nth p : ℕ) (l : List Entry) → All P l → All P (erase nth p l)
unfolding erase
erase-All P nth p [] a = tt
erase-All P nth p ((k, i) ∷ l) a = elim (Bool-cases (k == p && (nth == 0 || not (has_key p l)))) [
  | inl e ↦ rw e a.1
  | inr e ↦ rw e (a.0, erase-All P (if k == p then nth - 1 else nth) p l a.1)
]

erase-WritesApart : (nth p : ℕ) (l : List Entry) → WritesApart l → WritesApart (erase nth p l)
unfolding erase
erase-WritesApart nth p [] w = tt
erase-WritesApart nth p ((k, i) ∷ l) w =
    let next = if k == p then nth - 1 else nth in
    elim (Bool-cases (k == p && (nth == 0 || not (has_key p l)))) [
      | inl e ↦ rw e w.2
      | inr e ↦ rw e (w.0, erase-All (Apart (k, i)) next p l w.1, erase-WritesApart next p l w.2)
    ]

-- Every table keeps its mappings for writing apart.
abbrev pub AllApart : Tables → Type 0
AllApart t = (j : ℕ) → WritesApart (t j)

set_table-AllApart :
    (i : ℕ) (l : List Entry) (t : Tables) → WritesApart l → AllApart t → AllApart (set_table i l t)
set_table-AllApart i l t w a j = elim (Bool-cases (j == i)) [ inl e ↦ rw e w | inr e ↦ rw e (a j) ]

-- Where an object begins in the object that has its table.
abbrev pub origin_in : MemoryObject → ℕ
origin_in (own i) = 0
origin_in (sub_buffer i origin parent) = origin + origin_in parent
origin_in (image1d_buffer i buf) = origin_in buf

-- An area whose ends are numbers of a size_t, also from the begin of that object.
abbrev pub IsPlainIn : MemoryObject → MemMappingInfo → Type 0
IsPlainIn o m =
    (origin_in o + m.x.offset + m.x.size < size_mod)
    × (m.y.offset + m.y.size < size_mod)
    × (m.z.offset + m.z.size < size_mod)

add_mapping-AllApart :
    (o : MemoryObject) (p : Option ℕ) (new : MemMappingInfo) (t : Tables)
    → IsPlainIn o new
    → AllApart t
    → AllApart (add_mapping o p new t).0
unfolding add_mapping size_add
add_mapping-AllApart (own i) none new t plain a = a
add_mapping-AllApart (sub_buffer i origin parent) none new t plain a = a
add_mapping-AllApart (image1d_buffer i buf) none new t plain a = a
add_mapping-AllApart (own i) (some p) new t plain a = elim (Bool-cases (new.flags == 0)) [
  | inl e ↦ rw e a
  | inr e ↦ elim (Option-cases (insert p new (t i))) [
    | inl k ↦ rw (e, k) a
    | inr (l, k) ↦
        let inside : IsPlain new = (omega arith, plain.1, plain.2) in
        rw (e, k)
          (set_table-AllApart i l t (insert-WritesApart p new (t i) {l' = l} inside k (a i)) a)
  ]
]
add_mapping-AllApart (sub_buffer i origin parent) (some p) new t plain a =
    let moved : MemMappingInfo = record new {
      x = record { offset = size_add new.x.offset origin; size = new.x.size };
    } in
    elim (Bool-cases (new.flags == 0)) [
      | inl e ↦ rw e a
      | inr e ↦
          rw e (add_mapping-AllApart parent (some p) moved t (omega arith, plain.1, plain.2) a)
    ]
add_mapping-AllApart (image1d_buffer i buf) (some p) new t plain a =
    elim (Bool-cases (new.flags == 0)) [
      | inl e ↦ rw e a
      | inr e ↦ rw e (add_mapping-AllApart buf (some p) new t plain a)
    ]

remove_mapping-AllApart :
    (nth : ℕ) (o : MemoryObject) (p : ℕ) (t : Tables)
    → AllApart t
    → AllApart (remove_mapping nth o p t).0
unfolding remove_mapping
remove_mapping-AllApart nth (own i) p t a = elim (Bool-cases (has_key p (t i))) [
  | inl e ↦
      rw e (set_table-AllApart i (erase nth p (t i)) t (erase-WritesApart nth p (t i) (a i)) a)
  | inr e ↦ rw e a
]
remove_mapping-AllApart nth (sub_buffer i origin parent) p t a =
    remove_mapping-AllApart nth parent p t a
remove_mapping-AllApart nth (image1d_buffer i buf) p t a = remove_mapping-AllApart nth buf p t a

-- The calls that change mappings.
pub data Step : Type 0 where
  adds : MemoryObject → Option ℕ → MemMappingInfo → Step
  removes : ℕ → MemoryObject → ℕ → Step

abbrev pub step : Step → Tables → Tables
step (adds o p new) t = (add_mapping o p new t).0
step (removes nth o p) t = (remove_mapping nth o p t).0

unfoldable pub run : List Step → Tables → Tables
run [] t = t
run (x ∷ xs) t = run xs (step x t)

abbrev pub IsPlainStep : Step → Type 0
IsPlainStep (adds o p new) = IsPlainIn o new
IsPlainStep (removes nth o p) = Unit

-- Let in every table all areas end below 2^64, and let no two mappings for writing have a position
-- (x, y, z) in common. This still holds after any list of calls of addMapping and removeMapping on
-- any objects, whether they succeed or not, if the areas to be added end below 2^64 on each axis,
-- also with the origins of sub-buffers added, and whichever of several mappings of one pointer is
-- removed.
pub run-AllApart :
    (xs : List Step) (t : Tables) → All IsPlainStep xs → AllApart t → AllApart (run xs t)
unfolding run
run-AllApart [] t plain a = a
run-AllApart (adds o p new ∷ xs) t plain a =
    run-AllApart xs _ plain.1 (add_mapping-AllApart o p new t plain.0 a)
run-AllApart (removes nth o p ∷ xs) t plain a =
    run-AllApart xs _ plain.1 (remove_mapping-AllApart nth o p t a)
