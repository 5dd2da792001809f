-- ===== src/Mapping/Parents.antt =====
-- The table that an object uses: what an addition changes, and what a removal restores.
use open_crun.Prelude.{
  ℕ, ◌≡◌, refl, sym, ap, ◌∙◌, true, false, ◌||◌, List, [], ◌∷◌, ◌++◌, Option, none, some, arith,
  ◌==◌, Bool-cases, Option-cases, inl, inr, has, ◌&&◌, ==_iff,
}
use mathlib.Core.Path.{fun_ext}
use open_crun.Builder.{size_add}
use open_crun.Mapping.{
  MemMappingInfo, Entry, writing, has_key, any_overlap, MemoryObject, own, sub_buffer,
  image1d_buffer, Tables, set_table, insert, add_mapping, erase, remove_mapping, is_valid_mapping,
}

-- The object at the bottom, whose table is used.
abbrev pub home : MemoryObject → ℕ
home (own i) = i
home (sub_buffer i origin parent) = home parent
home (image1d_buffer i buf) = home buf

abbrev moved : ℕ → MemMappingInfo → MemMappingInfo
moved origin new = record new {
  x = record { offset = size_add new.x.offset origin; size = new.x.size };
}

add_mapping-frame :
    (o : MemoryObject) (p : Option ℕ) (new : MemMappingInfo) (t : Tables) (j : ℕ)
    → (j == home o) ≡ false
    → (add_mapping o p new t).0 j ≡ t j
unfolding add_mapping
add_mapping-frame (own i) none new t j h = refl
add_mapping-frame (sub_buffer i origin parent) none new t j h = refl
add_mapping-frame (image1d_buffer i buf) none new t j h = refl
add_mapping-frame (own i) (some p) new t j h = elim (Option-cases (insert p new (t i))) [
  | inl e ↦ ground arith
  | inr (l, e) ↦ ground arith
]
add_mapping-frame (sub_buffer i origin parent) (some p) new t j h =
    ground (arith, add_mapping-frame parent (some p) (moved origin new) t j h)
add_mapping-frame (image1d_buffer i buf) (some p) new t j h =
    ground (arith, add_mapping-frame buf (some p) new t j h)

-- addMapping on a sub-buffer, whose bottommost parent is another object, never changes what
-- isValidMapping tells of that sub-buffer, since the one uses the table of the parent and the other
-- that of the sub-buffer.
pub is_valid_mapping-add_mapping :
    (i origin : ℕ) (parent : MemoryObject) (p q : ℕ) (new : MemMappingInfo) (t : Tables)
    → (i == home parent) ≡ false
    → is_valid_mapping
        (sub_buffer i origin parent)
        q
        (add_mapping (sub_buffer i origin parent) (some p) new t).0
      ≡ is_valid_mapping (sub_buffer i origin parent) q t
unfolding is_valid_mapping
is_valid_mapping-add_mapping i origin parent p q new t h =
    ap (has_key q) (add_mapping-frame (sub_buffer i origin parent) (some p) new t i h)

has_key-snoc :
    (p : ℕ) (new : MemMappingInfo) (l : List Entry) → has_key p (l ++ (p, new) ∷ []) ≡ true
unfolding has_key
has_key-snoc p new [] = ground (arith, ==_iff p p)
has_key-snoc p new ((k, i) ∷ l) = ground (arith, has_key-snoc p new l)

erase-snoc :
    (nth p : ℕ) (new : MemMappingInfo) (l : List Entry)
    → has_key p l ≡ false
    → erase nth p (l ++ (p, new) ∷ []) ≡ l
unfolding erase has_key
erase-snoc nth p new [] h = ground (arith, ==_iff p p)
erase-snoc nth p new ((k, i) ∷ l) h = ground (arith, erase-snoc nth p new l)

set_table_self : (i : ℕ) (l : List Entry) (t : Tables) → set_table i l t i ≡ l
set_table_self i l t = ground (arith, ==_iff i i)

set_table-restores :
    (i : ℕ) (l : List Entry) (t : Tables) (j : ℕ) → set_table i (t i) (set_table i l t) j ≡ t j
set_table-restores i l t j = elim (Bool-cases (j == i)) [
  | inl e ↦ rw e (ap t (sym ((==_iff j i).0 e)))
  | inr e ↦ rw e refl
]

added :
    (i p : ℕ) (new : MemMappingInfo) (t : Tables)
    → (add_mapping (own i) (some p) new t).1 ≡ true
    → (add_mapping (own i) (some p) new t).0 ≡ set_table i (t i ++ (p, new) ∷ []) t
unfolding add_mapping insert
added i p new t ok = elim (Bool-cases (new.flags == 0)) [
  | inl e ↦ absurd (ground arith)
  | inr e ↦
      elim (Bool-cases (has new.flags writing && (has_key p (t i) || any_overlap new (t i)))) [
        | inl k ↦ absurd (ground arith)
        | inr k ↦ rw (e, k) refl
      ]
]

restored :
    (nth i p : ℕ) (new : MemMappingInfo) (t : Tables)
    → has_key p (t i) ≡ false
    → remove_mapping nth (own i) p (set_table i (t i ++ (p, new) ∷ []) t) ≡ (t, true)
unfolding remove_mapping
restored nth i p new t h =
    rw
      (
        set_table_self i (t i ++ (p, new) ∷ []) t,
        has_key-snoc p new (t i),
        erase-snoc nth p new (t i) h,
      )
      (ap (λ (x : Tables). (x, true)) (fun_ext (set_table-restores i (t i ++ (p, new) ∷ []) t)))

sub_buffer-added :
    (i origin : ℕ) (parent : MemoryObject) (p : ℕ) (new : MemMappingInfo) (t : Tables)
    → (add_mapping (sub_buffer i origin parent) (some p) new t).1 ≡ true
    → ((new.flags == 0) ≡ false)
      × ((add_mapping parent (some p) (moved origin new) t).1 ≡ true)
      × ((add_mapping (sub_buffer i origin parent) (some p) new t).0
          ≡ (add_mapping parent (some p) (moved origin new) t).0)
unfolding add_mapping
sub_buffer-added i origin parent p new t ok = (ground arith, ground arith, ground arith)

image-added :
    (i : ℕ) (buf : MemoryObject) (p : ℕ) (new : MemMappingInfo) (t : Tables)
    → (add_mapping (image1d_buffer i buf) (some p) new t).1 ≡ true
    → ((add_mapping buf (some p) new t).1 ≡ true)
      × ((add_mapping (image1d_buffer i buf) (some p) new t).0 ≡ (add_mapping buf (some p) new t).0)
unfolding add_mapping
image-added i buf p new t ok = (ground arith, ground arith)

through_parent :
    (nth i origin : ℕ) (parent : MemoryObject) (p : ℕ) (t : Tables)
    → remove_mapping nth (sub_buffer i origin parent) p t ≡ remove_mapping nth parent p t
unfolding remove_mapping
through_parent nth i origin parent p t = refl

through_buffer :
    (nth i : ℕ) (buf : MemoryObject) (p : ℕ) (t : Tables)
    → remove_mapping nth (image1d_buffer i buf) p t ≡ remove_mapping nth buf p t
unfolding remove_mapping
through_buffer nth i buf p t = refl

-- Where a pointer has no mapping in the table that an object uses, and addMapping of it succeeds,
-- removeMapping of it succeeds and restores all tables.
pub remove_mapping-add_mapping :
    (nth : ℕ) (o : MemoryObject) (p : ℕ) (new : MemMappingInfo) (t : Tables)
    → has_key p (t (home o)) ≡ false
    → (add_mapping o (some p) new t).1 ≡ true
    → remove_mapping nth o p (add_mapping o (some p) new t).0 ≡ (t, true)
remove_mapping-add_mapping nth (own i) p new t h ok =
    ap (remove_mapping nth (own i) p) (added i p new t ok) ∙ restored nth i p new t h
remove_mapping-add_mapping nth (sub_buffer i origin parent) p new t h ok =
    let (flags, ok', same) = sub_buffer-added i origin parent p new t ok in
    ap (remove_mapping nth (sub_buffer i origin parent) p) same
    ∙ through_parent nth i origin parent p _
    ∙ remove_mapping-add_mapping nth parent p (moved origin new) t h ok'
remove_mapping-add_mapping nth (image1d_buffer i buf) p new t h ok =
    let (ok', same) = image-added i buf p new t ok in
    ap (remove_mapping nth (image1d_buffer i buf) p) same
    ∙ through_buffer nth i buf p _
    ∙ remove_mapping-add_mapping nth buf p new t h ok'
