-- ===== src/Coherency/Marks.antt =====
-- Which bytes an update of a region covers, and what it leaves.
use open_crun.Prelude.{
  ℕ, ◌+◌, ◌≤◌, ◌<◌, ◌≡◌, refl, List, [], ◌∷◌, ltb, arith, All, ◌⊎◌, inl, inr, Bool-cases, Bool,
}
use open_crun.Coherency.Partition.{MemoryChunk, chunk_end}
use open_crun.Coherency.Tiling.{Tiles, valid_at, front, between, mark_front, mark}

abbrev pub In : MemoryChunk → ℕ → Type 0
In c b = (c.offset ≤ b) × (b < chunk_end c)

-- Some chunk of the list has the byte.
abbrev pub Covers : List MemoryChunk → ℕ → Type 0
Covers [] b = ⊥
Covers (c ∷ cs) b = In c b ⊎ Covers cs b

abbrev pub revalidate : ((ℕ → Bool) → ℕ → Bool) → MemoryChunk → MemoryChunk
revalidate g c = record c { validity = g c.validity }

-- Either the byte is in a chunk of the range, whose bits change by g, or it is outside the region
-- and its bits stay.
abbrev pub Marked :
    ((ℕ → Bool) → ℕ → Bool) → List MemoryChunk → (ℕ → Bool) → (ℕ → Bool) → ℕ → ℕ → ℕ → Type 0
Marked g range old new x y b =
    (Covers range b × (new ≡ g old)) ⊎ (((b < x) ⊎ (y ≤ b)) × (new ≡ old))

module _ (g : (ℕ → Bool) → ℕ → Bool) where
  mark_front-Marked :
      (lo hi x y b : ℕ) (cs : List MemoryChunk)
      → Tiles lo cs hi
      → lo ≤ b
      → b < hi
      → Marked g (front cs y) (valid_at cs b) (valid_at (mark_front (revalidate g) cs y) b) x y b
  unfolding front mark_front
  mark_front-Marked lo hi x y b [] t p q = absurd (omega arith)
  mark_front-Marked lo hi x y b (c ∷ []) t p q = ground arith
  mark_front-Marked lo hi x y b (c ∷ d ∷ ds) t p q =
      ground (arith, mark_front-Marked (lo + c.size) hi x y b (d ∷ ds) t.2)

  pub mark-Marked :
      (lo hi x y b : ℕ) (cs : List MemoryChunk)
      → Tiles lo cs hi
      → x ≤ y
      → lo ≤ b
      → b < hi
      → Marked g (between cs x y) (valid_at cs b) (valid_at (mark (revalidate g) cs x y) b) x y b
  unfolding between mark
  mark-Marked lo hi x y b [] t r p q = absurd (omega arith)
  mark-Marked lo hi x y b (c ∷ []) t r p q = ground arith
  mark-Marked lo hi x y b (c ∷ d ∷ ds) t r p q = elim (Bool-cases (ltb x (chunk_end c))) [
    | inl here ↦ rw here (mark_front-Marked lo hi x y b (c ∷ d ∷ ds) t p q)
    | inr on ↦ rw on (elim (Bool-cases (ltb b (chunk_end c))) [
      | inl before ↦ rw before (inr (inl (ground arith), refl))
      | inr behind ↦ rw behind (mark-Marked (lo + c.size) hi x y b (d ∷ ds) t.2 r (ground arith) q)
    ])
  ]

  mark_front-Tiles :
      (lo hi y : ℕ) (cs : List MemoryChunk)
      → Tiles lo cs hi
      → Tiles lo (mark_front (revalidate g) cs y) hi
  unfolding mark_front
  mark_front-Tiles lo hi y [] t = t
  mark_front-Tiles lo hi y (c ∷ []) t = t
  mark_front-Tiles lo hi y (c ∷ d ∷ ds) t =
      ground (arith, mark_front-Tiles (lo + c.size) hi y (d ∷ ds) t.2)

  pub mark-Tiles :
      (lo hi x y : ℕ) (cs : List MemoryChunk)
      → Tiles lo cs hi
      → Tiles lo (mark (revalidate g) cs x y) hi
  unfolding mark
  mark-Tiles lo hi x y [] t = t
  mark-Tiles lo hi x y (c ∷ []) t = t
  mark-Tiles lo hi x y (c ∷ d ∷ ds) t = elim (Bool-cases (ltb x (chunk_end c))) [
    | inl here ↦ rw here (mark_front-Tiles lo hi y (c ∷ d ∷ ds) t)
    | inr on ↦ rw on (t.0, t.1, mark-Tiles (lo + c.size) hi x y (d ∷ ds) t.2)
  ]

-- A chunk whose bits are those of each of its bytes.
abbrev pub Matches : (ℕ → ℕ → Bool) → MemoryChunk → Type 0
Matches v c = (b : ℕ) → In c b → v b ≡ c.validity

pub Tiles-Matches :
    (v : ℕ → ℕ → Bool) (lo hi : ℕ) (cs : List MemoryChunk)
    → Tiles lo cs hi
    → ((b : ℕ) → lo ≤ b → v b ≡ valid_at cs b)
    → All (Matches v) cs
Tiles-Matches v lo hi [] t e = tt
Tiles-Matches v lo hi (c ∷ cs) t e =
    (λ b p. ground (arith, e b), Tiles-Matches v (lo + c.size) hi cs t.2 λ b p. ground (arith, e b))

module _ (P : MemoryChunk → Type 0) where
  pub front-All : (y : ℕ) (cs : List MemoryChunk) → All P cs → All P (front cs y)
  unfolding front
  front-All y [] a = tt
  front-All y (c ∷ []) a = a
  front-All y (c ∷ d ∷ ds) a = ground (arith, front-All y (d ∷ ds) a.1)

  pub between-All : (x y : ℕ) (cs : List MemoryChunk) → All P cs → All P (between cs x y)
  unfolding between
  between-All x y [] a = tt
  between-All x y (c ∷ []) a = a
  between-All x y (c ∷ d ∷ ds) a = elim (Bool-cases (ltb x (chunk_end c))) [
    | inl here ↦ rw here (front-All y (c ∷ d ∷ ds) a)
    | inr on ↦ rw on (between-All x y (d ∷ ds) a.1)
  ]
