-- ===== src/Coherency/Points.antt =====
-- The places of the two searches of `addRegion`.
use open_crun.Prelude.{
  ℕ, suc, ◌+◌, ◌-◌, ◌≤◌, ◌<◌, ◌≡◌, refl, List, [], ◌∷◌, ◌++◌, some, ltb, ◌==◌, arith, if◌then◌else◌,
  inl, inr, Bool-cases, Option-cases, get_elem?, drop,
}
use open_crun.Coherency.Partition.{MemoryChunk, chunk_end, split_one, split_chunk, starts_at}
use open_crun.Coherency.Tiling.{Tiles, Tiles-le, spot}
use open_crun.Coherency.Splits.{split_one-cases, split_chunk-Recuts}

spot-here :
    (x : ℕ) (c : MemoryChunk) (cs : List MemoryChunk) → x < chunk_end c → spot (c ∷ cs) x ≡ 0
unfolding spot
spot-here x c [] h = refl
spot-here x c (d ∷ ds) h = ground arith

spot-on :
    (lo hi x : ℕ) (c : MemoryChunk) (cs : List MemoryChunk)
    → Tiles lo cs hi
    → lo < hi
    → chunk_end c ≤ x
    → spot (c ∷ cs) x ≡ suc (spot cs x)
unfolding spot
spot-on lo hi x c [] t p h = absurd (omega arith)
spot-on lo hi x c (d ∷ ds) t p h = ground arith

abbrev next_point : MemoryChunk → ℕ → ℕ
next_point c x = if c.offset == x then 0 else 1

split_one-spot :
    (lo hi x : ℕ) (c : MemoryChunk) (cs parts : List MemoryChunk)
    → Tiles lo (c ∷ cs) hi
    → split_one c x ≡ some parts
    → next_point c x ≡ spot (parts ++ cs) x
unfolding spot
split_one-spot lo hi x c cs parts t e = elim (split_one-cases x c parts e) [
  | inl (at, eq) ↦ rw eq (ground (arith, spot-here x c cs))
  | inr (p, q, eq) ↦
      rw eq (ground (arith, spot-here x (record c { offset = x; size = chunk_end c - x }) cs))
]

-- The split at x leaves a chunk that starts there, at the index that `addRegion` goes on from.
abbrev pub spot_after : List MemoryChunk → ℕ → ℕ
spot_after cs x = if starts_at (get_elem? cs (spot cs x)) x then spot cs x else suc (spot cs x)

split_chunk-spot_last :
    (lo hi x : ℕ) (c : MemoryChunk) (cs new : List MemoryChunk)
    → Tiles lo (c ∷ cs) hi
    → split_chunk (c ∷ cs) 0 x ≡ some new
    → next_point c x ≡ spot new x
unfolding split_chunk
split_chunk-spot_last lo hi x c cs new t e = elim (Option-cases (split_one c x)) [
  | inl failed ↦ ground arith
  | inr (parts, eq) ↦
      let whole : new ≡ parts ++ cs = ground arith in
      rw whole (split_one-spot lo hi x c cs parts t eq)
]

split_chunk-suc :
    (x i : ℕ) (c : MemoryChunk) (cs new : List MemoryChunk)
    → split_chunk (c ∷ cs) (suc i) x ≡ some new
    → (rest : List MemoryChunk) × (split_chunk cs i x ≡ some rest) × (new ≡ c ∷ rest)
unfolding split_chunk
split_chunk-suc x i c cs new e = elim (Option-cases (split_chunk cs i x)) [
  | inl failed ↦ ground arith
  | inr (rest, eq) ↦ (rest, eq, ground arith)
]

pub spot_after-eq-spot :
    (lo hi x : ℕ) (cs new : List MemoryChunk)
    → Tiles lo cs hi
    → lo ≤ x
    → split_chunk cs (spot cs x) x ≡ some new
    → spot_after cs x ≡ spot new x
unfolding spot
spot_after-eq-spot lo hi x [] new t h e = unfold split_chunk in cc
spot_after-eq-spot lo hi x (c ∷ []) new t h e = split_chunk-spot_last lo hi x c [] new t e
spot_after-eq-spot lo hi x (c ∷ d ∷ ds) new t h e = elim (Bool-cases (ltb x (chunk_end c))) [
  | inl here ↦ rw here (split_chunk-spot_last lo hi x c (d ∷ ds) new t (rw here at e))
  | inr on ↦
      let (rest, eq, whole) = split_chunk-suc x (spot (d ∷ ds) x) c (d ∷ ds) new (rw on at e) in
      let ih = spot_after-eq-spot (lo + c.size) hi x (d ∷ ds) rest t.2 (ground arith) eq in
      let r = split_chunk-Recuts (lo + c.size) hi x (spot (d ∷ ds) x) (d ∷ ds) rest t.2 eq in
      let room : lo + c.size < hi = omega (arith, Tiles-le _ hi ds t.2.2) in
      rw (on, whole, spot-on (lo + c.size) hi x c rest r.tiled room (ground arith))
        (ground (arith, ih))
]

-- A search that starts at the chunk found for x finds what a search of the whole finds behind x.
pub spot-drop :
    (x y : ℕ) (cs : List MemoryChunk) → x ≤ y → spot cs x + spot (drop (spot cs x) cs) y ≡ spot cs y
unfolding spot
spot-drop x y [] h = refl
spot-drop x y (c ∷ []) h = refl
spot-drop x y (c ∷ d ∷ ds) h = ground (arith, spot-drop x y (d ∷ ds))
