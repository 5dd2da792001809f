-- ===== src/Coherency/Progress.antt =====
-- When an update of a region meets none of the assertions of the source.
use open_crun.Prelude.{
  ℕ, zero, suc, ◌<◌, ◌≡◌, refl, true, ◌||◌, List, [], ◌∷◌, length, some, ltb, arith, All,
  >>=-eq-some, assert, subst, All-take, All-drop, All-append, inl, inr, Bool-cases,
}
use open_crun.Coherency.Partition.{MemoryChunk, chunk_end, find_range_for}
use open_crun.Coherency.Tiling.{Tiles}
use open_crun.Coherency.Transfer.{
  Object, Store, Tracker, Mode, no_bit, get_range, head_part, tail_part, compute_chunks_to_transfer,
  transfer_to_device, transfer, transfer_all, map_range, is_device_update, update_validity,
  update_host_validity, update_region,
}

-- The host is valid only where the object has a host pointer.
abbrev pub Backed : Object → MemoryChunk → Type 0
Backed o c = c.validity o.devices ≡ true → o.use_host_ptr ≡ true

module _ (o : Object) where
  head_part-Backed :
      (x : ℕ) (cs : List MemoryChunk) → All (Backed o) cs → All (Backed o) (head_part cs x)
  unfolding head_part
  head_part-Backed x [] a = tt
  head_part-Backed x (c ∷ cs) a = elim (Bool-cases (ltb c.offset x)) [
    | inl p ↦ rw p (a.0, tt)
    | inr p ↦ rw p tt
  ]

  tail_part-Backed :
      (x : ℕ) (cs : List MemoryChunk) → All (Backed o) cs → All (Backed o) (tail_part cs x)
  unfolding tail_part
  tail_part-Backed x [] a = tt
  tail_part-Backed x (c ∷ []) a = elim (Bool-cases (ltb x (chunk_end c))) [
    | inl p ↦ rw p (a.0, tt)
    | inr p ↦ rw p tt
  ]
  tail_part-Backed x (c ∷ d ∷ ds) a = tail_part-Backed x (d ∷ ds) a.1

  chunks-total :
      (offset size : ℕ) (m : Mode) (cs : List MemoryChunk)
      → All (Backed o) cs
      → (m.sync_read || m.sync_write) ≡ true
      → (chunks : List MemoryChunk) × (compute_chunks_to_transfer cs offset size m ≡ some chunks)
        × All (Backed o) chunks
  unfolding compute_chunks_to_transfer get_range
  chunks-total offset size m cs a h =
      let (i, n) = find_range_for cs offset size in
      let ranged : All (Backed o) (get_range cs offset size) = All-take _ n _ (All-drop _ i cs a) in
      elim (Bool-cases m.sync_read) [
        | inl read ↦ rw read (get_range cs offset size, refl, ranged)
        | inr only ↦
            let write : m.sync_write ≡ true = ground arith in
            rw (only, write)
              (
                _,
                refl,
                All-append _ _ _ (head_part-Backed _ _ ranged) (tail_part-Backed _ _ ranged),
              )
      ]

  transfer_to_device-total :
      (d : ℕ) (c : MemoryChunk) (s : Store)
      → Backed o c
      → (s' : Store) × (transfer_to_device o d c s ≡ some s')
  unfolding transfer_to_device
  transfer_to_device-total d c s h = elim (Bool-cases (no_bit c.validity (suc o.devices))) [
    | inl p ↦ rw p (s, refl)
    | inr p ↦ elim (Bool-cases (c.validity d)) [
      | inl q ↦ rw (p, q) (s, refl)
      | inr q ↦ elim (Bool-cases (c.validity o.devices)) [
        | inl r ↦ rw (p, q, r, h r) (_, refl)
        | inr r ↦ rw (p, q, r) (_, refl)
      ]
    ]
  ]

  transfer_all-total :
      (d : ℕ) (cs : List MemoryChunk) (s : Store)
      → All (Backed o) cs
      → (s' : Store) × (transfer_all o true d cs s ≡ some s')
  unfolding transfer_all transfer
  transfer_all-total d [] s a = (s, refl)
  transfer_all-total d (c ∷ cs) s a =
      let (t, e) = transfer_to_device-total d c s a.0 in rw e (transfer_all-total d cs t a.1)

  range-some :
      (cs : List MemoryChunk) (offset size : ℕ) → ltb 0 (find_range_for cs offset size).1 ≡ true
  unfolding find_range_for
  range-some cs offset size = ground arith

  Tiles-length : (n : ℕ) (cs : List MemoryChunk) → Tiles 0 cs n → 0 < n → ltb 0 (length cs) ≡ true
  Tiles-length n [] e p = absurd (omega arith)
  Tiles-length n (c ∷ cs) e p = ground arith

  pub update_region-total :
      (offset size : ℕ) (m : Mode) (d : ℕ) (t : Tracker)
      → Tiles 0 t.partition o.size
      → 0 < o.size
      → d < o.devices
      → All (Backed o) t.partition
      → (m.sync_read || m.sync_write) ≡ true
      → is_device_update o m ≡ true
      → (t' : Tracker) × (update_region o offset size m d t ≡ some t')
  unfolding update_region
  update_region-total offset size m d t tiled filled dev a h u =
      let some_chunk = Tiles-length o.size t.partition tiled filled in
      let known : ltb d o.devices ≡ true = ground arith in
      let (chunks, e, b) = chunks-total offset size m t.partition a h in
      let (s, e') = transfer_all-total d chunks t.store b in
      let moded : (m.sync_map || (m.sync_read || m.sync_write)) ≡ true = ground arith in
      rw (some_chunk, moded, e, u, e', range-some t.partition offset size, known) (_, refl)

  update_validity-Backed :
      (m : Mode) (d : ℕ) (s : Store) (c : MemoryChunk)
      → ((i : ℕ) → o.shares i ≡ true → o.use_host_ptr ≡ true)
      → d < o.devices
      → Backed o c
      → Backed o (record c { validity = update_validity o m d s c.validity })
  unfolding update_validity update_host_validity
  update_validity-Backed m d s c h p b e = ground (arith, h d)

  map_range-Backed :
      (f : MemoryChunk → MemoryChunk)
      → ((c : MemoryChunk) → Backed o c → Backed o (f c))
      → (i n : ℕ) (cs : List MemoryChunk) → All (Backed o) cs
      → All (Backed o) (map_range f i n cs)
  unfolding map_range
  map_range-Backed f h i n [] a = tt
  map_range-Backed f h zero zero (c ∷ cs) a = a
  map_range-Backed f h zero (suc n) (c ∷ cs) a = (h c a.0, map_range-Backed f h 0 n cs a.1)
  map_range-Backed f h (suc i) n (c ∷ cs) a = (a.0, map_range-Backed f h i n cs a.1)

  -- If the devices that share storage with the host do so only for an object with a host pointer, a
  -- successful update by a device keeps that the host counts as valid only for such an object.
  pub update_region-Backed :
      (offset size : ℕ) (m : Mode) (d : ℕ) (t t' : Tracker)
      → ((i : ℕ) → o.shares i ≡ true → o.use_host_ptr ≡ true)
      → d < o.devices
      → All (Backed o) t.partition
      → update_region o offset size m d t ≡ some t'
      → All (Backed o) t'.partition
  unfolding update_region
  update_region-Backed offset size m d t t' h p a e =
      let (_, _, r0) = >>=-eq-some (assert (ltb 0 (length t.partition))) _ e in
      let (_, _, r) = >>=-eq-some (assert (m.sync_map || (m.sync_read || m.sync_write))) _ r0 in
      let (chunks, _, r') =
        >>=-eq-some (compute_chunks_to_transfer t.partition offset size m) _ r in
      let (s, _, r'') = >>=-eq-some (transfer_all o (is_device_update o m) d chunks t.store) _ r' in
      let (_, _, r3) =
        >>=-eq-some (assert (ltb 0 (find_range_for t.partition offset size).1)) _ r'' in
      let (_, _, r4) = >>=-eq-some (assert (ltb d o.devices)) _ r3 in
      let (i, n) = find_range_for t.partition offset size in
      let f : MemoryChunk → MemoryChunk =
        λ c. record c { validity = update_validity o m d s c.validity } in
      let marked : map_range f i n t.partition ≡ t'.partition = cc in
      subst (All (Backed o)) marked
        (map_range-Backed f (λ c b. update_validity-Backed m d s c h p b) i n t.partition a)
