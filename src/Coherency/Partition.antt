-- ===== src/Coherency/Partition.antt =====
-- The chunk vector: `findChunk`, `findRangeFor`, `splitChunk` and `addRegion`. The bit vector of a
-- chunk is a function from slots: the devices of the context by index, then the host.
use open_crun.Prelude.{
  ℕ, zero, suc, ◌+◌, ◌-◌, Bool, false, ◌&&◌, List, [], ◌∷◌, ◌++◌, Option, none, some, ltb, ◌==◌,
  if◌then◌else◌, get_elem?, drop,
}
use open_crun.Builder.{size_add}

pub record MemoryChunk : Type 0 where
  pub offset : ℕ
  pub size : ℕ
  pub validity : ℕ → Bool

abbrev pub chunk_end : MemoryChunk → ℕ
chunk_end c = c.offset + c.size

-- std::lower_bound over the sorted chunks: how many lie before the first whose offset is not below.
unfoldable pub lower_bound : List MemoryChunk → ℕ → ℕ
lower_bound [] x = 0
lower_bound (c ∷ cs) x = if ltb c.offset x then suc (lower_bound cs x) else 0

abbrev pub starts_at : Option MemoryChunk → ℕ → Bool
starts_at none x = false
starts_at (some c) x = c.offset == x

-- The index of the chunk found, counted from the iterator that the search starts at. An empty
-- vector, where the source steps off its beginning, is refused by update_region and split_chunk.
unfoldable pub find_chunk : List MemoryChunk → ℕ → ℕ
unfolding lower_bound
find_chunk cs x = let i = lower_bound cs x in if starts_at (get_elem? cs i) x then i else i - 1

-- The first index of the range and its length.
unfoldable pub find_range_for : List MemoryChunk → ℕ → ℕ → ℕ × ℕ
unfolding find_chunk
find_range_for cs offset size =
    let i = find_chunk cs offset in (i, suc (find_chunk (drop i cs) (offset + size)))

-- `none` is a failed assertion.
unfoldable pub split_one : MemoryChunk → ℕ → Option (List MemoryChunk)
split_one c x =
    if c.offset == x
    then some (c ∷ [])
    else if ltb c.offset x && ltb x (chunk_end c)
    then some (
        record c { size = c.size - (chunk_end c - x) }
        ∷ record c { offset = x; size = chunk_end c - x }
        ∷ [])
    else none

unfoldable pub split_chunk : List MemoryChunk → ℕ → ℕ → Option (List MemoryChunk)
split_chunk [] i x = none
split_chunk (c ∷ cs) zero x = elim (split_one c x) [ none ↦ none | some new ↦ some (new ++ cs) ]
split_chunk (c ∷ cs) (suc i) x = elim (split_chunk cs i x) [
  | none ↦ none
  | some new ↦ some (c ∷ new)
]

-- A search of the vector from the iterator of index `first`, and the split of what it finds. The
-- second search starts at the chunk that the first split returned.
unfoldable pub split_from : ℕ → ℕ → List MemoryChunk → Option (List MemoryChunk)
split_from first x cs = split_chunk cs (first + find_chunk (drop first cs) x) x

abbrev pub split_point : List MemoryChunk → ℕ → ℕ
split_point cs x =
    if starts_at (get_elem? cs (find_chunk cs x)) x then find_chunk cs x else suc (find_chunk cs x)

-- `Offset + Size` is a size_t.
unfoldable pub add_region : List MemoryChunk → ℕ → ℕ → Option (List MemoryChunk)
unfolding size_add
add_region cs offset size = elim (split_chunk cs (find_chunk cs offset) offset) [
  | none ↦ none
  | some new ↦ split_from (split_point cs offset) (size_add offset size) new
]
