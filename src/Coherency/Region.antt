-- ===== src/Coherency/Region.antt =====
-- `updateRegion` keeps the partition and the content of the object, and makes the region valid where
-- it is going to be used.
use open_crun.Prelude.{
  length, ℕ, suc, ◌+◌, ◌≤◌, ◌<◌, ◌≡◌, refl, sym, ap, subst, ◌∙◌, Bool, true, false, ◌||◌, List, [],
  ◌∷◌, some, ltb, arith, if◌then◌else◌, ◌⊎◌, inl, inr, Bool-cases, ltb→lt, >>=-eq-some, assert,
}
use open_crun.Coherency.Partition.{find_range_for, MemoryChunk, chunk_end}
use open_crun.Coherency.Transfer.{
  Object, Store, Tracker, Mode, area, no_bit, compute_chunks_to_transfer, transfer_all,
  is_device_update, update_validity, update_host_validity, update_region,
}
use open_crun.Coherency.Tiling.{Tiles, Tiles-le, valid_at, between, mark, map_range-eq-mark}
use open_crun.Coherency.Marks.{Covers, Marked, revalidate, mark-Marked, mark-Tiles}
use open_crun.Coherency.Chunks.{overwrites, chunks-Matches, chunks-Covers}
use open_crun.Coherency.Content.{Current, no_bit-false, no_bit-find}
use open_crun.Coherency.Moving.{target_slot, target_area, Brings, transfer_all-Brings}

-- A valid slot after the update is the target's storage, or was valid before and not overwritten.
update_validity-cases :
    (o : Object) (m : Mode) (d : ℕ) (s : Store) (old : ℕ → Bool) (i : ℕ)
    → update_validity o m d s old i ≡ true
    → (area o i ≡ target_area o (is_device_update o m) d)
      ⊎ ((old i ≡ true) × (m.sync_write ≡ false))
unfolding update_validity update_host_validity
update_validity-cases o m d s old i e = ground arith

update_validity-target :
    (o : Object) (m : Mode) (d : ℕ) (s : Store) (old : ℕ → Bool)
    → update_validity o m d s old (target_slot o (is_device_update o m) d) ≡ true
unfolding update_validity update_host_validity
update_validity-target o m d s old = ground arith

pub target_slot-lt :
    (o : Object) (u : Bool) (d : ℕ) → d < o.devices → target_slot o u d < suc o.devices
target_slot-lt o true d dev = omega arith
target_slot-lt o false d dev = omega arith

valid_at-behind :
    (lo hi b : ℕ) (cs : List MemoryChunk) → Tiles lo cs hi → hi ≤ b → valid_at cs b ≡ (λ i. false)
valid_at-behind lo hi b [] t p = refl
valid_at-behind lo hi b (c ∷ cs) t p = elim (Bool-cases (ltb b (chunk_end c))) [
  | inl here ↦ absurd (omega (arith, ltb→lt _ _ here, Tiles-le (lo + c.size) hi cs t.2))
  | inr on ↦ rw on (valid_at-behind (lo + c.size) hi b cs t.2 p)
]

-- The content of the object after the update: what it was, but where no slot was valid or the update
-- overwrites, what stands in the target's storage.
abbrev pub content_after : Object → ℕ → ℕ → Mode → ℕ → Tracker → (ℕ → ℕ) → Tracker → ℕ → ℕ
content_after o offset size m d t w t' b =
    if no_bit (valid_at t.partition b) (suc o.devices) || overwrites m offset size b
    then t'.store.bytes (target_area o (is_device_update o m) d) b
    else w b

-- The tracker describes an object with content w.
pub record IsCoherent (o : Object) (t : Tracker) (w : ℕ → ℕ) : Type 0 where
  pub tiled : Tiles 0 t.partition o.size
  pub current : Current o (valid_at t.partition) w t.store

module _ (o : Object) (t t' : Tracker) (w : ℕ → ℕ) (offset size : ℕ) (m : Mode) (d : ℕ)
    (inv : IsCoherent o t w) (inside : offset + size ≤ o.size) (dev : d < o.devices)
    (done : update_region o offset size m d t ≡ some t') where
  abbrev mark_with : Store → MemoryChunk → MemoryChunk
  mark_with s = revalidate (update_validity o m d s)

  -- The steps of a successful update.
  update_region-steps :
      (chunks : List MemoryChunk) × (compute_chunks_to_transfer t.partition offset size m
        ≡ some chunks)
      × (transfer_all o (is_device_update o m) d chunks t.store ≡ some t'.store)
      × (t'.partition ≡ mark (mark_with t'.store) t.partition offset (offset + size))
  unfolding update_region
  update_region-steps =
      let (_, _, r0) = >>=-eq-some (assert (ltb 0 (length t.partition))) _ done in
      let (_, _, r) = >>=-eq-some (assert (m.sync_map || (m.sync_read || m.sync_write))) _ r0 in
      let (chunks, e, r') =
        >>=-eq-some (compute_chunks_to_transfer t.partition offset size m) _ r in
      let (s, e', r'') =
        >>=-eq-some (transfer_all o (is_device_update o m) d chunks t.store) _ r' in
      let (_, _, r3) =
        >>=-eq-some (assert (ltb 0 (find_range_for t.partition offset size).1)) _ r'' in
      let (_, _, r4) = >>=-eq-some (assert (ltb d o.devices)) _ r3 in
      let stored : s ≡ t'.store = cc in
      (
        chunks,
        e,
        e' ∙ ap some stored,
        subst (λ u. t'.partition ≡ mark (mark_with u) t.partition offset (offset + size)) stored
            (cc (
              map_range-eq-mark 0 o.size t.partition inv.tiled offset size (omega arith)
                  (mark_with s),
              r4,
            )),
      )

  update_region-Brings :
      Brings o
        (valid_at t.partition)
        w
        d
        dev
        (target_area o (is_device_update o m) d)
        (update_region-steps.0)
        t.store
        t'.store
  update_region-Brings =
      let (chunks, e, e', _) = update_region-steps in
      transfer_all-Brings o (valid_at t.partition) w d dev (is_device_update o m) chunks t.store
        t'.store (chunks-Matches o t.partition inv.tiled offset size inside m chunks e) inv.current
        e'

  marked :
      (b : ℕ)
      → b < o.size
      → Marked
          (update_validity o m d t'.store)
          (between t.partition offset (offset + size))
          (valid_at t.partition b)
          (valid_at (mark (mark_with t'.store) t.partition offset (offset + size)) b)
          offset
          (offset + size)
          b
  marked b p =
      mark-Marked (update_validity o m d t'.store) 0 o.size offset (offset + size) b t.partition
        inv.tiled (omega arith) (omega arith) p

  -- After a successful update by a device of a region inside the object of a coherent tracker,
  -- every byte of the region is valid in the slot that the update is for: the host's for a map of
  -- an object with a host pointer, else the device's.
  pub update_region-valid :
      (b : ℕ)
      → offset ≤ b
      → b < offset + size
      → valid_at t'.partition b (target_slot o (is_device_update o m) d) ≡ true
  update_region-valid b p q =
      let (_, _, _, eq) = update_region-steps in
      rw eq (elim (marked b (omega arith)) [
        | inl (_, new) ↦
            ap (λ f. f (target_slot o (is_device_update o m) d)) new
            ∙ update_validity-target o m d t'.store (valid_at t.partition b)
        | inr (out, _) ↦ absurd (omega arith)
      ])

  -- A byte that was valid somewhere still is.
  pub update_region-keeps_known :
      (b : ℕ)
      → b < o.size
      → no_bit (valid_at t.partition b) (suc o.devices) ≡ false
      → no_bit (valid_at t'.partition b) (suc o.devices) ≡ false
  update_region-keeps_known b p known =
      let (_, _, _, eq) = update_region-steps in
      rw eq (elim (marked b p) [
        | inl (_, new) ↦ rw new (
            no_bit-false _ (suc o.devices) (target_slot o (is_device_update o m) d)
              (target_slot-lt o (is_device_update o m) d dev)
              (update_validity-target o m d t'.store (valid_at t.partition b)))
        | inr (_, new) ↦ rw new known
      ])

  -- After an update for writing, the valid slots of the region have the target's storage.
  pub update_region-sole :
      (b i : ℕ)
      → m.sync_write ≡ true
      → offset ≤ b
      → b < offset + size
      → valid_at t'.partition b i ≡ true
      → area o i ≡ target_area o (is_device_update o m) d
  update_region-sole b i write p q v =
      let (_, _, _, eq) = update_region-steps in
      let v' = subst (λ cs. valid_at cs b i ≡ true) eq v in
      elim (marked b (omega arith)) [
        | inl (_, new) ↦
            elim (update_validity-cases o m d t'.store (valid_at t.partition b) i
              (sym (ap (λ f. f i) new) ∙ v')) [
                | inl at ↦ at
                | inr (_, read_only) ↦ absurd (cc (write, read_only))
              ]
        | inr (out, _) ↦ absurd (omega arith)
      ]

  -- A slot that was valid there before still has its content, unless the update overwrites it.
  valid-content :
      (b i : ℕ)
      → i ≤ o.devices
      → valid_at t.partition b i ≡ true
      → overwrites m offset size b ≡ false
      → t'.store.bytes (area o i) b ≡ content_after o offset size m d t w t' b
  valid-content b i h v k =
      rw (no_bit-false (valid_at t.partition b) (suc o.devices) i (omega arith) v, k)
        (update_region-Brings.current b i h v)

  target-content :
      (b : ℕ)
      → Covers (between t.partition offset (offset + size)) b
      → t'.store.bytes (target_area o (is_device_update o m) d) b
        ≡ content_after o offset size m d t w t' b
  target-content b p = elim (Bool-cases (no_bit (valid_at t.partition b) (suc o.devices))) [
    | inl empty ↦ rw empty refl
    | inr bits ↦ elim (Bool-cases (overwrites m offset size b)) [
      | inl k ↦ rw (bits, k) refl
      | inr k ↦
          let (chunks, e, _, _) = update_region-steps in
          let (i, h, v) = no_bit-find (valid_at t.partition b) (suc o.devices) bits in
          rw (bits, k)
            (update_region-Brings.fresh b
              (chunks-Covers o t.partition inv.tiled offset size inside m chunks b e p k) i
              (omega arith) v)
    ]
  ]

  current-at :
      (b i : ℕ)
      → b < o.size
      → i ≤ o.devices
      → valid_at t'.partition b i ≡ true
      → t'.store.bytes (area o i) b ≡ content_after o offset size m d t w t' b
  current-at b i p h v =
      let (_, _, _, eq) = update_region-steps in
      let v' = subst (λ cs. valid_at cs b i ≡ true) eq v in
      elim (marked b p) [
        | inl (cov, new) ↦
            elim (update_validity-cases o m d t'.store (valid_at t.partition b) i
              (sym (ap (λ f. f i) new) ∙ v')) [
                | inl at ↦ ap (λ a. t'.store.bytes a b) at ∙ target-content b cov
                | inr (old, read_only) ↦ valid-content b i h old (ground arith)
              ]
        | inr (out, new) ↦ valid-content b i h (sym (ap (λ f. f i) new) ∙ v') (ground arith)
      ]

  -- Let a tracker be coherent: its chunks tile the object and every valid slot holds the content. A
  -- successful update by a device of a region inside the object keeps it coherent. The content
  -- stays, except that a byte which was valid nowhere, or which a write-only update overwrites, is
  -- now what the target's storage holds.
  pub update_region-IsCoherent : IsCoherent o t' (content_after o offset size m d t w t')
  update_region-IsCoherent =
      let (_, _, _, eq) = update_region-steps in
      let tiled : Tiles 0 t'.partition o.size = rw eq (
        mark-Tiles (update_validity o m d t'.store) 0 o.size offset (offset + size) t.partition
          inv.tiled) in
      record {
        tiled = tiled;
        current = λ b i h v. elim (Bool-cases (ltb b o.size)) [
          | inl p ↦ current-at b i (ltb→lt _ _ p) h v
          | inr p ↦
              cc (v, ap (λ f. f i) (valid_at-behind 0 o.size b t'.partition tiled (ground arith)))
        ];
      }
