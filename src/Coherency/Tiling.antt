-- ===== src/Coherency/Tiling.antt =====
-- The partition as a tiling of the object, and the searches of `findChunk` and `findRangeFor` as
-- recursions over it.
use open_crun.Prelude.{
  ℕ, suc, ◌+◌, ◌≤◌, ◌<◌, ◌≡◌, refl, Bool, false, List, [], ◌∷◌, take, drop, ltb, arith,
  if◌then◌else◌, get_elem?, ap, inl, inr, Bool-cases,
}
use open_crun.Coherency.Partition.{
  MemoryChunk, chunk_end, lower_bound, starts_at, find_chunk, find_range_for,
}
use open_crun.Coherency.Transfer.{get_range, map_range}

-- Non-empty chunks, one behind the other, from lo to hi.
abbrev pub Tiles : ℕ → List MemoryChunk → ℕ → Type 0
Tiles lo [] hi = lo ≡ hi
Tiles lo (c ∷ cs) hi = (c.offset ≡ lo) × (0 < c.size) × Tiles (lo + c.size) cs hi

pub Tiles-le : (lo hi : ℕ) (cs : List MemoryChunk) → Tiles lo cs hi → lo ≤ hi
Tiles-le lo hi [] t = omega arith
Tiles-le lo hi (c ∷ cs) t = omega (arith, Tiles-le (lo + c.size) hi cs t.2)

-- The validity bits of the chunk that holds a byte.
abbrev pub valid_at : List MemoryChunk → ℕ → ℕ → Bool
valid_at [] b = λ i. false
valid_at (c ∷ cs) b = if ltb b (chunk_end c) then c.validity else valid_at cs b

-- The index of the chunk that holds x, the last chunk for what lies behind.
unfoldable pub spot : List MemoryChunk → ℕ → ℕ
spot [] x = 0
spot (c ∷ []) x = 0
spot (c ∷ d ∷ ds) x = if ltb x (chunk_end c) then 0 else suc (spot (d ∷ ds) x)

find_chunk_pos :
    (lo hi x : ℕ) (c : MemoryChunk) (cs : List MemoryChunk)
    → Tiles lo (c ∷ cs) hi
    → lo ≤ x
    → starts_at (get_elem? (c ∷ cs) (lower_bound (c ∷ cs) x)) x ≡ false
    → 0 < lower_bound (c ∷ cs) x
unfolding lower_bound
find_chunk_pos lo hi x c cs t h e = ground arith

pub find_chunk-eq-spot :
    (lo hi x : ℕ) (cs : List MemoryChunk) → Tiles lo cs hi → lo ≤ x → find_chunk cs x ≡ spot cs x
unfolding find_chunk spot
find_chunk-eq-spot lo hi x [] t h = refl
find_chunk-eq-spot lo hi x (c ∷ []) t h = ground arith
find_chunk-eq-spot lo hi x (c ∷ d ∷ ds) t h = ground (
  arith,
  find_chunk-eq-spot (lo + c.size) hi x (d ∷ ds) t.2,
  find_chunk_pos (lo + c.size) hi x d ds t.2,
)

-- `findRangeFor` and the update of its chunks, for a region from x to y.
unfoldable pub front : List MemoryChunk → ℕ → List MemoryChunk
front [] y = []
front (c ∷ []) y = c ∷ []
front (c ∷ d ∷ ds) y = c ∷ (if ltb y (chunk_end c) then [] else front (d ∷ ds) y)

unfoldable pub between : List MemoryChunk → ℕ → ℕ → List MemoryChunk
unfolding front
between [] x y = []
between (c ∷ []) x y = c ∷ []
between (c ∷ d ∷ ds) x y =
    if ltb x (chunk_end c) then front (c ∷ d ∷ ds) y else between (d ∷ ds) x y

module _ (f : MemoryChunk → MemoryChunk) where
  unfoldable pub mark_front : List MemoryChunk → ℕ → List MemoryChunk
  mark_front [] y = []
  mark_front (c ∷ []) y = f c ∷ []
  mark_front (c ∷ d ∷ ds) y = f c ∷ (if ltb y (chunk_end c) then d ∷ ds else mark_front (d ∷ ds) y)

  unfoldable pub mark : List MemoryChunk → ℕ → ℕ → List MemoryChunk
  unfolding mark_front
  mark [] x y = []
  mark (c ∷ []) x y = f c ∷ []
  mark (c ∷ d ∷ ds) x y =
      if ltb x (chunk_end c) then mark_front (c ∷ d ∷ ds) y else c ∷ mark (d ∷ ds) x y

take-spot : (y : ℕ) (cs : List MemoryChunk) → take (suc (spot cs y)) cs ≡ front cs y
unfolding spot front
take-spot y [] = refl
take-spot y (c ∷ []) = refl
take-spot y (c ∷ d ∷ ds) = ground (arith, take-spot y (d ∷ ds))

map_range-spot :
    (f : MemoryChunk → MemoryChunk) (y : ℕ) (cs : List MemoryChunk)
    → map_range f 0 (suc (spot cs y)) cs ≡ mark_front f cs y
unfolding spot mark_front map_range
map_range-spot f y [] = refl
map_range-spot f y (c ∷ []) = refl
map_range-spot f y (c ∷ d ∷ ds) = ground (arith, map_range-spot f y (d ∷ ds))

pub drop-spot :
    (lo hi x : ℕ) (cs : List MemoryChunk)
    → Tiles lo cs hi
    → lo ≤ x
    → (lo' : ℕ) × Tiles lo' (drop (spot cs x) cs) hi × (lo' ≤ x)
unfolding spot
drop-spot lo hi x [] t h = (lo, t, h)
drop-spot lo hi x (c ∷ []) t h = (lo, t, h)
drop-spot lo hi x (c ∷ d ∷ ds) t h = elim (Bool-cases (ltb x (chunk_end c))) [
  | inl here ↦ rw here (lo, t, h)
  | inr on ↦ rw on (drop-spot (lo + c.size) hi x (d ∷ ds) t.2 (ground arith))
]

module _ (lo hi : ℕ) (cs : List MemoryChunk) (t : Tiles lo cs hi) (x size : ℕ) (h : lo ≤ x) where
  find_range_for-eq :
      find_range_for cs x size ≡ (spot cs x, suc (spot (drop (spot cs x) cs) (x + size)))
  unfolding find_range_for
  find_range_for-eq =
      let (lo', t', h') = drop-spot lo hi x cs t h in
      rw (find_chunk-eq-spot lo hi x cs t h)
        (rw (find_chunk-eq-spot lo' hi (x + size) (drop (spot cs x) cs) t' (omega arith)))

take-drop-spot :
    (x y : ℕ) (cs : List MemoryChunk)
    → take (suc (spot (drop (spot cs x) cs) y)) (drop (spot cs x) cs) ≡ between cs x y
unfolding spot between
take-drop-spot x y [] = refl
take-drop-spot x y (c ∷ []) = refl
take-drop-spot x y (c ∷ d ∷ ds) = elim (Bool-cases (ltb x (chunk_end c))) [
  | inl here ↦ rw here (take-spot y (c ∷ d ∷ ds))
  | inr on ↦ rw on (take-drop-spot x y (d ∷ ds))
]

map_range-drop-spot :
    (f : MemoryChunk → MemoryChunk) (x y : ℕ) (cs : List MemoryChunk)
    → map_range f (spot cs x) (suc (spot (drop (spot cs x) cs) y)) cs ≡ mark f cs x y
unfolding spot mark map_range
map_range-drop-spot f x y [] = refl
map_range-drop-spot f x y (c ∷ []) = refl
map_range-drop-spot f x y (c ∷ d ∷ ds) = elim (Bool-cases (ltb x (chunk_end c))) [
  | inl here ↦ rw here (map_range-spot f y (c ∷ d ∷ ds))
  | inr on ↦ rw on (ap (λ r. c ∷ r) (map_range-drop-spot f x y (d ∷ ds)))
]

module _ (lo hi : ℕ) (cs : List MemoryChunk) (t : Tiles lo cs hi) (x size : ℕ) (h : lo ≤ x) where
  pub get_range-eq-between : get_range cs x size ≡ between cs x (x + size)
  unfolding get_range
  get_range-eq-between = rw (find_range_for-eq lo hi cs t x size h) (take-drop-spot x (x + size) cs)

  pub map_range-eq-mark :
      (f : MemoryChunk → MemoryChunk)
      → map_range f (find_range_for cs x size).0 (find_range_for cs x size).1 cs
        ≡ mark f cs x (x + size)
  map_range-eq-mark f =
      rw (find_range_for-eq lo hi cs t x size h) (map_range-drop-spot f x (x + size) cs)
