-- ===== src/Coherency/Transfer.antt =====
-- `transferToDevice`, `transferToHost`, `updateHostValidity`, `computeChunksToTransfer`,
-- `updateRegion` and `initialize`, with the storage that `map` hands out
-- (lib/Device/CPU/CPUDevice.cpp). The update runs as one step: the source leaves concurrent writers
-- of one region undefined.
use open_crun.Prelude.{
  ℕ, zero, suc, ◌+◌, ◌-◌, Bool, true, false, not, ◌&&◌, ◌||◌, List, [], ◌∷◌, ◌++◌, Option, none,
  some, ltb, leb, ◌==◌, if◌then◌else◌, take, drop, length, ◌>>=◌, ◌>>◌, assert,
}
use open_crun.Coherency.Partition.{MemoryChunk, chunk_end, find_range_for}

-- What the tracker reads of its memory object and context. `shares d` says that the descriptor of
-- device d keeps its data at the host pointer: for a CPU, that the flags have UseHostPtr.
pub record Object : Type 0 where
  pub devices : ℕ
  pub size : ℕ
  pub use_host_ptr : Bool
  pub copy_host_ptr : Bool
  pub shares : ℕ → Bool

-- The bytes of each storage area, by its owner's slot, and which descriptors have allocated theirs.
pub record Store : Type 0 where
  pub bytes : ℕ → ℕ → ℕ
  pub allocated : ℕ → Bool

pub record Tracker : Type 0 where
  pub partition : List MemoryChunk
  pub store : Store

pub record Mode : Type 0 where
  pub sync_map : Bool
  pub sync_read : Bool
  pub sync_write : Bool

unfoldable pub find_first_from : (ℕ → Bool) → ℕ → ℕ → ℕ
find_first_from v i zero = i
find_first_from v i (suc n) = if v i then i else find_first_from v (suc i) n

-- BitVector::none over the slots below n.
unfoldable pub no_bit : (ℕ → Bool) → ℕ → Bool
no_bit v zero = true
no_bit v (suc n) = not (v n) && no_bit v n

-- memcpy of the chunk's bytes from one storage area to another.
unfoldable pub copy_chunk : ℕ → ℕ → MemoryChunk → Store → Store
copy_chunk dst src c s = record s {
  bytes = λ a b.
      if a == dst && (leb c.offset b && ltb b (chunk_end c)) then s.bytes src b else s.bytes a b;
}

-- MemoryDescriptor::map allocates the storage at the first call.
unfoldable pub map_storage : ℕ → Store → Store
map_storage d s = record s { allocated = λ i. (i == d) || s.allocated i }

unfoldable pub get_range : List MemoryChunk → ℕ → ℕ → List MemoryChunk
get_range cs offset size = let (i, n) = find_range_for cs offset size in take n (drop i cs)

-- The part of the first chunk before the region.
unfoldable pub head_part : List MemoryChunk → ℕ → List MemoryChunk
head_part [] offset = []
head_part (c ∷ cs) offset =
    if ltb c.offset offset then record c { size = offset - c.offset } ∷ [] else []

-- The part of the last chunk behind the region, which ends at x.
unfoldable pub tail_part : List MemoryChunk → ℕ → List MemoryChunk
tail_part [] x = []
tail_part (c ∷ []) x =
    if ltb x (chunk_end c) then record c { offset = x; size = chunk_end c - x } ∷ [] else []
tail_part (c ∷ d ∷ cs) x = tail_part (d ∷ cs) x

-- `none` is a failed assertion.
unfoldable pub compute_chunks_to_transfer :
    List MemoryChunk → ℕ → ℕ → Mode → Option (List MemoryChunk)
compute_chunks_to_transfer cs offset size m =
    let range = get_range cs offset size in
    if m.sync_read
    then some range
    else if m.sync_write
    then some (head_part range offset ++ tail_part range (offset + size))
    else none

-- Applies a function to the n elements from index i.
unfoldable pub map_range : (MemoryChunk → MemoryChunk) → ℕ → ℕ → List MemoryChunk → List MemoryChunk
map_range f i n [] = []
map_range f zero zero (c ∷ cs) = c ∷ cs
map_range f zero (suc n) (c ∷ cs) = f c ∷ map_range f zero n cs
map_range f (suc i) n (c ∷ cs) = c ∷ map_range f i n cs

module _ (o : Object) where
  -- The slot of the host is the last one.
  abbrev pub host_index : ℕ
  host_index = o.devices

  -- The storage area that the data of a slot stands in.
  abbrev pub area : ℕ → ℕ
  area i = if o.shares i then o.devices else i

  -- MemoryDescriptor::aliasWithHostPtr
  abbrev pub alias_with_host_ptr : Store → ℕ → Bool
  alias_with_host_ptr s d = s.allocated d && o.shares d

  -- That the device is in the context is asserted once, by update_region.
  unfoldable pub transfer_to_device : ℕ → MemoryChunk → Store → Option Store
  transfer_to_device d c s =
      if no_bit c.validity (suc o.devices)
      then some s
      else if c.validity d
      then some s
      else if c.validity host_index
      then (do
        assert o.use_host_ptr
        let s' = map_storage d s
        some (if alias_with_host_ptr s' d then s' else copy_chunk (area d) host_index c s'))
      else let src = find_first_from c.validity 0 (suc o.devices) in
        some (copy_chunk (area d) (area src) c (map_storage src (map_storage d s)))

  unfoldable pub transfer_to_host : MemoryChunk → Store → Option Store
  transfer_to_host c s =
      if no_bit c.validity (suc o.devices)
      then some s
      else if c.validity host_index
      then some s
      else let src = find_first_from c.validity 0 (suc o.devices) in
        (do
          assert (not (area src == host_index))
          some (copy_chunk host_index (area src) c (map_storage src s)))

  unfoldable pub transfer : Bool → ℕ → MemoryChunk → Store → Option Store
  transfer true d c s = transfer_to_device d c s
  transfer false d c s = transfer_to_host c s

  unfoldable pub transfer_all : Bool → ℕ → List MemoryChunk → Store → Option Store
  transfer_all device_update d [] s = some s
  transfer_all device_update d (c ∷ cs) s =
      transfer device_update d c s >>= transfer_all device_update d cs

  unfoldable pub update_host_validity : Store → (ℕ → Bool) → ℕ → Bool
  update_host_validity s v i =
      ((i == host_index) || (ltb i o.devices && alias_with_host_ptr s i)) || v i

  abbrev pub set_bit : ℕ → (ℕ → Bool) → ℕ → Bool
  set_bit d v i = (i == d) || v i

  abbrev pub is_device_update : Mode → Bool
  is_device_update m = not (m.sync_map && o.use_host_ptr)

  -- The validity bits of a chunk in the range after the update.
  unfoldable pub update_validity : Mode → ℕ → Store → (ℕ → Bool) → ℕ → Bool
  unfolding update_host_validity
  update_validity m d s v =
      let kept = if m.sync_write then (λ i. false) else v in
      if is_device_update m
      then (if alias_with_host_ptr s d
          then update_host_validity s (set_bit d kept)
          else set_bit d kept)
      else update_host_validity s kept

  -- `d` is the index that `getDeviceIndex` finds; one that is not below the number of devices stands
  -- for a device that is not in the context. The search of an empty vector is none. The end of the
  -- region is a size_t, so offset + size is below 2^64 in every call that is modelled.
  unfoldable pub update_region : ℕ → ℕ → Mode → ℕ → Tracker → Option Tracker
  update_region offset size m d t = do
    assert (ltb 0 (length t.partition))
    assert (m.sync_map || (m.sync_read || m.sync_write))
    chunks ← compute_chunks_to_transfer t.partition offset size m
    s ← transfer_all (is_device_update m) d chunks t.store
    let (i, n) = find_range_for t.partition offset size
    assert (ltb 0 n)
    assert (ltb d o.devices)
    some (record {
      partition =
          map_range (λ c. record c { validity = update_validity m d s c.validity }) i n t.partition;
      store = s;
    })

  -- The storage at the host pointer is filled by the application before the object is made.
  unfoldable pub initialize : Store → Tracker
  unfolding update_host_validity copy_chunk map_storage
  initialize s =
      let c : MemoryChunk = record { offset = 0; size = o.size; validity = λ i. false } in
      let hosted : ℕ → Bool =
        if o.use_host_ptr then update_host_validity s c.validity else c.validity in
      if o.copy_host_ptr
      then record {
        partition = record c { validity = set_bit 0 hosted } ∷ [];
        store = copy_chunk (area 0) host_index c (map_storage 0 s);
      }
      else record { partition = record c { validity = hosted } ∷ []; store = s }
