-- ===== src/Coherency/Chunks.antt =====
-- What `computeChunksToTransfer` selects: the range of a read, or the parts of it outside the region.
use open_crun.Prelude.{
  ℕ, ◌+◌, ◌≤◌, ◌≡◌, refl, Bool, true, false, not, ◌&&◌, List, [], ◌∷◌, ◌++◌, some, ltb, leb, arith,
  All, All-append, ◌⊎◌, inl, inr, Bool-cases, ltb→lt,
}
use open_crun.Coherency.Partition.{MemoryChunk}
use open_crun.Coherency.Transfer.{Object, Mode, head_part, tail_part, compute_chunks_to_transfer}
use open_crun.Coherency.Tiling.{Tiles, valid_at, between, get_range-eq-between}
use open_crun.Coherency.Marks.{Covers, Matches, Tiles-Matches, between-All}
use open_crun.Coherency.Edges.{
  head_part-Covers, tail_part-Covers, head_part-Matches, tail_part-Matches,
}

Covers-append_left : (xs ys : List MemoryChunk) (b : ℕ) → Covers xs b → Covers (xs ++ ys) b
Covers-append_left [] ys b p = absurd p
Covers-append_left (x ∷ xs) ys b (inl p) = inl p
Covers-append_left (x ∷ xs) ys b (inr p) = inr (Covers-append_left xs ys b p)

Covers-append_right : (xs ys : List MemoryChunk) (b : ℕ) → Covers ys b → Covers (xs ++ ys) b
Covers-append_right [] ys b p = p
Covers-append_right (x ∷ xs) ys b p = inr (Covers-append_right xs ys b p)

-- The update overwrites byte b without reading it first.
abbrev pub overwrites : Mode → ℕ → ℕ → ℕ → Bool
overwrites m offset size b =
    not m.sync_read && (m.sync_write && (leb offset b && ltb b (offset + size)))

-- A partition that tiles the object, and a region inside it.
module _ (o : Object) (cs : List MemoryChunk) (t : Tiles 0 cs o.size) (offset size : ℕ)
    (inside : offset + size ≤ o.size) (m : Mode) where
  abbrev pub range : List MemoryChunk
  range = between cs offset (offset + size)

  -- A read transfers the range, a write-only update the parts of it outside the region.
  pub chunks-cases :
      (chunks : List MemoryChunk)
      → compute_chunks_to_transfer cs offset size m ≡ some chunks
      → ((m.sync_read ≡ true) × (chunks ≡ range))
        ⊎ ((m.sync_read ≡ false)
            × (m.sync_write ≡ true)
            × (chunks ≡ head_part range offset ++ tail_part range (offset + size)))
  unfolding compute_chunks_to_transfer
  chunks-cases chunks e =
      ground (arith, get_range-eq-between 0 o.size cs t offset size (omega arith))

  pub chunks-Matches :
      (chunks : List MemoryChunk)
      → compute_chunks_to_transfer cs offset size m ≡ some chunks
      → All (Matches (valid_at cs)) chunks
  chunks-Matches chunks e =
      let all = Tiles-Matches (valid_at cs) 0 o.size cs t (λ b p. refl) in
      elim (chunks-cases chunks e) [
        | inl (read, eq) ↦ rw eq (between-All _ offset (offset + size) cs all)
        | inr (only, write, eq) ↦ rw eq (
            All-append _ _ _
              (head_part-Matches _ 0 o.size offset (offset + size) cs t (omega arith) all)
              (tail_part-Matches _ 0 o.size offset (offset + size) cs t (omega arith) (omega arith)
                all))
      ]

  pub chunks-Covers :
      (chunks : List MemoryChunk) (b : ℕ)
      → compute_chunks_to_transfer cs offset size m ≡ some chunks
      → Covers range b
      → overwrites m offset size b ≡ false
      → Covers chunks b
  chunks-Covers chunks b e p q = elim (chunks-cases chunks e) [
    | inl (read, eq) ↦ rw eq p
    | inr (only, write, eq) ↦ rw eq (elim (Bool-cases (ltb b offset)) [
      | inl before ↦
          Covers-append_left _ _ b
            (head_part-Covers 0 o.size offset (offset + size) b cs t p (ltb→lt _ _ before))
      | inr inside ↦
          Covers-append_right _ _ b (tail_part-Covers offset (offset + size) b cs p (ground arith))
    ])
  ]
