-- ===== src/Coherency/StaleHost.antt =====
-- A device that keeps its data at the host pointer, and has not allocated it yet, writes the whole
-- object: the tracker then takes the host for stale, and a map of the object fails the assertion of
-- `transferToHost`.
use open_crun.Prelude.{
  ℕ, suc, ◌<◌, ◌≡◌, Bool, true, false, [], ◌∷◌, some, none, ltb, arith, if◌then◌else◌,
}
use open_crun.Coherency.Partition.{MemoryChunk, find_range_for, find_chunk, lower_bound}
use open_crun.Coherency.Transfer.{
  Object, Store, Tracker, Mode, initialize, update_host_validity, update_validity, update_region,
  get_range, head_part, tail_part, compute_chunks_to_transfer, transfer_all, transfer,
  transfer_to_host, map_range, is_device_update,
}
use open_crun.Coherency.Content.{no_bit-false, find_first-valid}

abbrev pub write_only : Mode
write_only = record { sync_map = false; sync_read = false; sync_write = true }

abbrev pub map_read : Mode
map_read = record { sync_map = true; sync_read = true; sync_write = false }

module _ (o : Object) where
  abbrev whole : (ℕ → Bool) → MemoryChunk
  whole v = record { offset = 0; size = o.size; validity = v }

  module _ (size : 0 < o.size) where
    find_range_for-whole : (v : ℕ → Bool) → find_range_for (whole v ∷ []) 0 o.size ≡ (0, 1)
    unfolding find_range_for find_chunk lower_bound
    find_range_for-whole v = ground arith

    get_range-whole : (v : ℕ → Bool) → get_range (whole v ∷ []) 0 o.size ≡ whole v ∷ []
    unfolding get_range
    get_range-whole v = rw (find_range_for-whole v)

    chunks-write_only :
        (v : ℕ → Bool) → compute_chunks_to_transfer (whole v ∷ []) 0 o.size write_only ≡ some []
    unfolding compute_chunks_to_transfer head_part tail_part
    chunks-write_only v = rw (get_range-whole v) (ground arith)

    update-write_only :
        (v : ℕ → Bool) (s : Store) (d : ℕ)
        → d < o.devices
        → update_region o 0 o.size write_only d (record { partition = whole v ∷ []; store = s })
          ≡ some (record { partition = whole (update_validity o write_only d s v) ∷ []; store = s })
    unfolding update_region transfer_all map_range
    update-write_only v s d dev =
        let known : ltb d o.devices ≡ true = ground arith in
        rw (chunks-write_only v) (rw (find_range_for-whole v, known))

    update-map_read :
        (v : ℕ → Bool) (s : Store) (e : ℕ)
        → o.use_host_ptr ≡ true
        → transfer_to_host o (whole v) s ≡ none
        → update_region o 0 o.size map_read e (record { partition = whole v ∷ []; store = s })
          ≡ none
    unfolding update_region compute_chunks_to_transfer transfer_all transfer
    update-map_read v s e h p =
        let u : is_device_update o map_read ≡ false = ground arith in rw (get_range-whole v, u, p)

  -- A chunk that only device d has, and whose data stands at the host pointer.
  transfer_to_host-shared :
      (d : ℕ) (v : ℕ → Bool) (s : Store)
      → d < o.devices
      → o.shares d ≡ true
      → v d ≡ true
      → ((i : ℕ) → v i ≡ true → i ≡ d)
      → transfer_to_host o (whole v) s ≡ none
  unfolding transfer_to_host
  transfer_to_host-shared d v s dev shared set only =
      let bits = no_bit-false v (suc o.devices) d (omega arith) set in
      let (_, found) = find_first-valid v (suc o.devices) bits in
      let at = only _ found in ground (arith, bits, at, only o.devices)

  module _ (size : 0 < o.size) (s : Store) (d e : ℕ) (hosted : o.use_host_ptr ≡ true)
      (copied : o.copy_host_ptr ≡ false) (shared : o.shares d ≡ true) (dev : d < o.devices)
      (unmapped : s.allocated d ≡ false) where
    initial_bits : ℕ → Bool
    initial_bits = if o.use_host_ptr then update_host_validity o s (λ i. false) else (λ i. false)

    initialize-whole : initialize o s ≡ record { partition = whole initial_bits ∷ []; store = s }
    unfolding initialize initial_bits
    initialize-whole = ground arith

    -- Let an object use a host pointer that a device keeps its data at, without an allocation yet
    -- and without a copied host pointer. After a write-only update of the whole object for that
    -- device, a map of it for reading fails an assertion.
    pub map_after_write :
        (t : Tracker) × (update_region o 0 o.size write_only d (initialize o s) ≡ some t)
        × (update_region o 0 o.size map_read e t ≡ none)
    unfolding update_validity
    map_after_write = rw initialize-whole (
      _,
      update-write_only size initial_bits s d dev,
      update-map_read size _ s e hosted
          (transfer_to_host-shared d _ s dev shared (ground arith) (λ i p. ground arith)),
    )
