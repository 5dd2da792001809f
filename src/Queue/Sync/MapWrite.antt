-- ===== src/Queue/Sync/MapWrite.antt =====
-- A map for writing alone (lib/Core/CommandQueue.cpp, with lib/Core/MemoryObject.cpp for what its
-- request does).
use open_crun.Prelude.{ℕ, ◌<◌, ◌≡◌, refl, Bool, true, false, [], ◌∷◌, some, ltb, ◌==◌, arith}
use open_crun.Coherency.Partition.{find_range_for, find_chunk, lower_bound}
use open_crun.Coherency.Transfer.{
  Store, Tracker, Mode, update_validity, update_region, get_range, head_part, tail_part,
  compute_chunks_to_transfer, transfer_all, map_range, is_device_update,
}
use open_crun.Coherency.Transfer as Transfer
use open_crun.Coherency.Tiling.{valid_at}
use open_crun.Queue.Sync.{
  Object, map_buffer, Request, map_write, mode_of_map, ensure_memory_coherency,
}

-- A tracker of one chunk.
abbrev pub uncut : Transfer.Object → (ℕ → Bool) → Store → Tracker
uncut o v s = record {
  partition = record { offset = 0; size = o.size; validity = v } ∷ [];
  store = s;
}

-- The request of the map is an update that keeps all storage, and then only device d is valid.
abbrev pub Forgets : Object → Transfer.Object → ℕ → Tracker → Type 0
Forgets obj o d t =
    (r : Request) × (ensure_memory_coherency (map_buffer obj map_write) ≡ r ∷ [])
    × (r.object ≡ obj)
    × (t' : Tracker) × (update_region o 0 o.size r.mode d t ≡ some t')
    × (t'.store ≡ t.store)
    × ((b i : ℕ) → b < o.size → valid_at t'.partition b i ≡ (i == d))

module _ (o : Transfer.Object) (size : 0 < o.size) (v : ℕ → Bool) (s : Store) (d : ℕ) where
  abbrev write_map : Mode
  write_map = record { sync_map = true; sync_read = false; sync_write = true }

  range : find_range_for (uncut o v s).partition 0 o.size ≡ (0, 1)
  unfolding find_range_for find_chunk lower_bound
  range = ground arith

  chunks : compute_chunks_to_transfer (uncut o v s).partition 0 o.size write_map ≡ some []
  unfolding compute_chunks_to_transfer get_range head_part tail_part
  chunks = rw range (ground arith)

  update :
      d < o.devices
      → update_region o 0 o.size write_map d (uncut o v s)
        ≡ some (uncut o (update_validity o write_map d s v) s)
  unfolding update_region transfer_all map_range
  update dev = let known : ltb d o.devices ≡ true = ground arith in rw chunks (rw (range, known))

  only_device :
      o.use_host_ptr ≡ false
      → o.shares d ≡ false
      → (i : ℕ) → update_validity o write_map d s v i ≡ (i == d)
  unfolding update_validity
  only_device unhosted own i = ground arith

-- Let an object without a host pointer have one chunk, whatever its valid slots, and let a device
-- keep its data apart from the host's. The one request that a map of a buffer for CL_MAP_WRITE
-- alone makes is for this buffer; as an update of the whole object for the device, it succeeds,
-- leaves all storage as it was, and then the device alone is valid: what the other slots hold is
-- never brought to it.
pub map_buffer-Forgets :
    (obj : Object) (o : Transfer.Object) (v : ℕ → Bool) (s : Store) (d : ℕ)
    → 0 < o.size
    → d < o.devices
    → o.use_host_ptr ≡ false
    → o.shares d ≡ false
    → Forgets obj o d (uncut o v s)
unfolding ensure_memory_coherency mode_of_map
map_buffer-Forgets obj o v s d size dev unhosted own = (
  _,
  refl,
  refl,
  _,
  update o size v s d dev,
  refl,
  λ b i h. ground (arith, only_device o size v s d unhosted own i),
)
