-- ===== src/Coherency/Edges.antt =====
-- The two partial chunks of a write-only update: they hold the bytes of the range outside the region
-- and nothing else.
use open_crun.Prelude.{
  ℕ, ◌+◌, ◌≤◌, ◌<◌, ◌≡◌, refl, Bool, List, [], ◌∷◌, ltb, arith, All, inl, inr, Bool-cases, ltb→lt,
}
use open_crun.Coherency.Partition.{MemoryChunk, chunk_end}
use open_crun.Coherency.Transfer.{head_part, tail_part}
use open_crun.Coherency.Tiling.{Tiles, front, between}
use open_crun.Coherency.Marks.{Covers, Matches}

Covers-lo : (lo hi b : ℕ) (cs : List MemoryChunk) → Tiles lo cs hi → Covers cs b → lo ≤ b
Covers-lo lo hi b [] t p = absurd p
Covers-lo lo hi b (c ∷ cs) t (inl p) = omega arith
Covers-lo lo hi b (c ∷ cs) t (inr p) = omega (arith, Covers-lo (lo + c.size) hi b cs t.2 p)

front-Covers : (y b : ℕ) (cs : List MemoryChunk) → Covers (front cs y) b → Covers cs b
unfolding front
front-Covers y b [] p = p
front-Covers y b (c ∷ []) p = p
front-Covers y b (c ∷ d ∷ ds) (inl p) = inl p
front-Covers y b (c ∷ d ∷ ds) (inr p) = elim (Bool-cases (ltb y (chunk_end c))) [
  | inl stop ↦ absurd (rw stop at p)
  | inr on ↦ inr (front-Covers y b (d ∷ ds) (rw on at p))
]

head_one-Covers :
    (x b : ℕ) (c : MemoryChunk) (cs : List MemoryChunk)
    → c.offset ≤ b
    → b < x
    → Covers (head_part (c ∷ cs) x) b
unfolding head_part
head_one-Covers x b c cs p q = ground arith

tail_one-Covers :
    (y b : ℕ) (c : MemoryChunk) → Covers (c ∷ []) b → y ≤ b → Covers (tail_part (c ∷ []) y) b
unfolding tail_part
tail_one-Covers y b c (inl p) q = ground arith
tail_one-Covers y b c (inr p) q = absurd p

pub head_part-Covers :
    (lo hi x y b : ℕ) (cs : List MemoryChunk)
    → Tiles lo cs hi
    → Covers (between cs x y) b
    → b < x
    → Covers (head_part (between cs x y) x) b
unfolding between front
head_part-Covers lo hi x y b [] t p q = absurd p
head_part-Covers lo hi x y b (c ∷ []) t (inl p) q = head_one-Covers x b c [] p.0 q
head_part-Covers lo hi x y b (c ∷ []) t (inr p) q = absurd p
head_part-Covers lo hi x y b (c ∷ d ∷ ds) t p q = elim (Bool-cases (ltb x (chunk_end c))) [
  | inl here ↦
      let covered = front-Covers y b (c ∷ d ∷ ds) (rw here at p) in
      let low = Covers-lo lo hi b (c ∷ d ∷ ds) t covered in
      rw here (head_one-Covers x b c _ (omega arith) q)
  | inr on ↦ rw on (head_part-Covers (lo + c.size) hi x y b (d ∷ ds) t.2 (rw on at p) q)
]

tail_part-more :
    (y : ℕ) (c d : MemoryChunk) (ds : List MemoryChunk)
    → tail_part (c ∷ front (d ∷ ds) y) y ≡ tail_part (front (d ∷ ds) y) y
unfolding tail_part front
tail_part-more y c d [] = refl
tail_part-more y c d (e ∷ es) = refl

tail_front-Covers :
    (y b : ℕ) (cs : List MemoryChunk)
    → Covers (front cs y) b
    → y ≤ b
    → Covers (tail_part (front cs y) y) b
unfolding front
tail_front-Covers y b [] p q = absurd p
tail_front-Covers y b (c ∷ []) p q = tail_one-Covers y b c p q
tail_front-Covers y b (c ∷ d ∷ ds) p q = elim (Bool-cases (ltb y (chunk_end c))) [
  | inl stop ↦ rw stop (tail_one-Covers y b c (rw stop at p) q)
  | inr on ↦
      let more : Covers (c ∷ front (d ∷ ds) y) b = rw on at p in
      rw on (
        rw (tail_part-more y c d ds) (elim more [
          | inl here ↦ absurd (ground arith)
          | inr later ↦ tail_front-Covers y b (d ∷ ds) later q
        ]))
]

pub tail_part-Covers :
    (x y b : ℕ) (cs : List MemoryChunk)
    → Covers (between cs x y) b
    → y ≤ b
    → Covers (tail_part (between cs x y) y) b
unfolding between
tail_part-Covers x y b [] p q = absurd p
tail_part-Covers x y b (c ∷ []) p q = tail_one-Covers y b c p q
tail_part-Covers x y b (c ∷ d ∷ ds) p q = elim (Bool-cases (ltb x (chunk_end c))) [
  | inl here ↦ rw here (tail_front-Covers y b (c ∷ d ∷ ds) (rw here at p) q)
  | inr on ↦ rw on (tail_part-Covers x y b (d ∷ ds) (rw on at p) q)
]

module _ (v : ℕ → ℕ → Bool) where
  head_one-Matches :
      (x : ℕ) (c : MemoryChunk) (cs : List MemoryChunk)
      → Matches v c
      → x ≤ chunk_end c
      → All (Matches v) (head_part (c ∷ cs) x)
  unfolding head_part
  head_one-Matches x c cs m h = elim (Bool-cases (ltb c.offset x)) [
    | inl in_front ↦ rw in_front ((λ b p. m b (omega (arith, ltb→lt _ _ in_front))), tt)
    | inr aligned ↦ rw aligned tt
  ]

  pub head_part-Matches :
      (lo hi x y : ℕ) (cs : List MemoryChunk)
      → Tiles lo cs hi
      → x ≤ hi
      → All (Matches v) cs
      → All (Matches v) (head_part (between cs x y) x)
  unfolding between front head_part
  head_part-Matches lo hi x y [] t h m = tt
  head_part-Matches lo hi x y (c ∷ []) t h m = head_one-Matches x c [] m.0 (omega arith)
  head_part-Matches lo hi x y (c ∷ d ∷ ds) t h m = elim (Bool-cases (ltb x (chunk_end c))) [
    | inl here ↦ rw here (head_one-Matches x c [] m.0 (ground arith))
    | inr on ↦ rw on (head_part-Matches (lo + c.size) hi x y (d ∷ ds) t.2 h m.1)
  ]

  tail_one-Matches :
      (y : ℕ) (c : MemoryChunk)
      → Matches v c
      → c.offset ≤ y
      → All (Matches v) (tail_part (c ∷ []) y)
  unfolding tail_part
  tail_one-Matches y c m h = elim (Bool-cases (ltb y (chunk_end c))) [
    | inl behind ↦ rw behind ((λ b p. m b (omega (arith, ltb→lt _ _ behind))), tt)
    | inr aligned ↦ rw aligned tt
  ]

  tail_front-Matches :
      (lo hi y : ℕ) (cs : List MemoryChunk)
      → Tiles lo cs hi
      → lo ≤ y
      → All (Matches v) cs
      → All (Matches v) (tail_part (front cs y) y)
  unfolding front
  tail_front-Matches lo hi y [] t h m = unfold tail_part in tt
  tail_front-Matches lo hi y (c ∷ []) t h m = tail_one-Matches y c m.0 (omega arith)
  tail_front-Matches lo hi y (c ∷ d ∷ ds) t h m = elim (Bool-cases (ltb y (chunk_end c))) [
    | inl stop ↦ rw stop (tail_one-Matches y c m.0 (omega arith))
    | inr on ↦ rw on (
        rw (tail_part-more y c d ds)
          (tail_front-Matches (lo + c.size) hi y (d ∷ ds) t.2 (ground arith) m.1))
  ]

  pub tail_part-Matches :
      (lo hi x y : ℕ) (cs : List MemoryChunk)
      → Tiles lo cs hi
      → lo ≤ x
      → x ≤ y
      → All (Matches v) cs
      → All (Matches v) (tail_part (between cs x y) y)
  unfolding between
  tail_part-Matches lo hi x y [] t h r m = unfold tail_part in tt
  tail_part-Matches lo hi x y (c ∷ []) t h r m = tail_one-Matches y c m.0 (omega arith)
  tail_part-Matches lo hi x y (c ∷ d ∷ ds) t h r m = elim (Bool-cases (ltb x (chunk_end c))) [
    | inl here ↦ rw here (tail_front-Matches lo hi y (c ∷ d ∷ ds) t (omega arith) m)
    | inr on ↦ rw on (tail_part-Matches (lo + c.size) hi x y (d ∷ ds) t.2 (ground arith) r m.1)
  ]
