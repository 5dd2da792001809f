-- ===== src/Coherency/AddRegion.antt =====
-- `addRegion` cuts the partition at the two ends of a region and changes nothing else. It fails its
-- assertion exactly for a region that reaches the end of the object.
use open_crun.Prelude.{
  ℕ, ◌+◌, ◌≤◌, ◌<◌, ◌≡◌, ◌∙◌, List, none, some, arith, inl, inr, Option-cases, drop,
}
use open_crun.Coherency.Partition.{
  MemoryChunk, find_chunk, split_chunk, split_from, split_point, add_region,
}
use open_crun.Builder.{size_add, size_mod}
use open_crun.Coherency.Tiling.{Tiles, spot, find_chunk-eq-spot, drop-spot}
use open_crun.Coherency.Splits.{Recuts, split_chunk-Recuts, split_chunk-total, split_chunk-behind}
use open_crun.Coherency.Points.{spot_after, spot_after-eq-spot, spot-drop}

Recuts-trans :
    {lo hi : ℕ} {xs ys zs : List MemoryChunk}
    → Recuts lo hi xs ys
    → Recuts lo hi ys zs
    → Recuts lo hi xs zs
Recuts-trans p q = record { tiled = q.tiled; same = λ b h. q.same b h ∙ p.same b h }

add_region-steps :
    (cs : List MemoryChunk) (offset size : ℕ) (new : List MemoryChunk)
    → add_region cs offset size ≡ some new
    → (mid : List MemoryChunk) × (split_chunk cs (find_chunk cs offset) offset ≡ some mid)
      × (split_from (split_point cs offset) (size_add offset size) mid ≡ some new)
unfolding add_region
add_region-steps cs offset size new e =
    elim (Option-cases (split_chunk cs (find_chunk cs offset) offset)) [
      | inl failed ↦ ground arith
      | inr (mid, eq) ↦ (mid, eq, ground arith)
    ]

module _ (cs : List MemoryChunk) (hi : ℕ) (t : Tiles 0 cs hi) (offset size : ℕ) where
  -- A successful addRegion on chunks that tile the object leaves chunks that tile it, and keeps the
  -- validity of every byte.
  pub add_region-Recuts :
      (new : List MemoryChunk) → add_region cs offset size ≡ some new → Recuts 0 hi cs new
  unfolding split_from
  add_region-Recuts new e =
      let (mid, e', e'') = add_region-steps cs offset size new e in
      let r = split_chunk-Recuts 0 hi offset _ cs mid t e' in
      Recuts-trans r (split_chunk-Recuts 0 hi (size_add offset size) _ mid new r.tiled e'')

  -- The second split is at the place of a search from the start.
  split_from-eq :
      (mid : List MemoryChunk)
      → split_chunk cs (spot cs offset) offset ≡ some mid
      → split_from (spot_after cs offset) (offset + size) mid
        ≡ split_chunk mid (spot mid (offset + size)) (offset + size)
  unfolding split_from
  split_from-eq mid e =
      let r = split_chunk-Recuts 0 hi offset _ cs mid t e in
      let (lo', t', h') = drop-spot 0 hi offset mid r.tiled (omega arith) in
      let place =
        find_chunk-eq-spot lo' hi (offset + size) (drop (spot mid offset) mid) t' (omega arith) in
      rw (
        spot_after-eq-spot 0 hi offset cs mid t (omega arith) e,
        place,
        spot-drop offset (offset + size) mid (omega arith),
      )

  add_region-eq :
      (mid : List MemoryChunk)
      → split_chunk cs (spot cs offset) offset ≡ some mid
      → offset + size < size_mod
      → add_region cs offset size ≡ split_chunk mid (spot mid (offset + size)) (offset + size)
  unfolding add_region size_add
  add_region-eq mid e small =
      let ends : size_add offset size ≡ offset + size = omega arith in
      let place = find_chunk-eq-spot 0 hi offset cs t (omega arith) in
      let e' : split_chunk cs (find_chunk cs offset) offset ≡ some mid = rw place e in
      rw (e', add_region) (rw (place, ends) (split_from-eq mid e))

  -- addRegion succeeds on chunks that tile the object, of fewer than 2^64 bytes, for every region that
  -- ends before the end of the object.
  add_region-total :
      hi ≤ size_mod
      → offset + size < hi
      → (new : List MemoryChunk) × (add_region cs offset size ≡ some new)
  add_region-total small h =
      let (mid, e) = split_chunk-total 0 hi offset cs t (omega arith) (omega arith) in
      let r = split_chunk-Recuts 0 hi offset _ cs mid t e in
      rw (add_region-eq mid e (omega arith))
        (split_chunk-total 0 hi (offset + size) mid r.tiled (omega arith) h)

  -- On chunks that tile the object, addRegion of a region that starts inside it and reaches its end
  -- fails the assertion of splitChunk, if its end is below 2^64.
  add_region-end :
      offset < hi → hi ≤ offset + size → offset + size < size_mod → add_region cs offset size ≡ none
  add_region-end p h small =
      let (mid, e) = split_chunk-total 0 hi offset cs t (omega arith) p in
      let r = split_chunk-Recuts 0 hi offset _ cs mid t e in
      add_region-eq mid e small ∙ split_chunk-behind 0 hi (offset + size) mid r.tiled h
