-- ===== src/Tests/Coherency.antt =====
-- A memory object of eight bytes on two devices (lib/Core/MemoryObject.cpp).
use open_crun.Prelude.{
  ℕ, ◌+◌, ◌≡◌, ◌==◌, refl, true, false, List, [], ◌∷◌, Option, none, some, arith,
}
use open_crun.Coherency.Partition.{
  MemoryChunk, find_chunk, find_range_for, lower_bound, split_one, split_chunk, split_from,
  add_region,
}
use open_crun.Coherency.Transfer.{
  Object, Store, Tracker, Mode, initialize, update_region, transfer, transfer_all,
  transfer_to_device, get_range, compute_chunks_to_transfer, no_bit,
}
use open_crun.Coherency.Region.{IsCoherent, content_after, update_region-IsCoherent}
use open_crun.Coherency.History.{Access, run, run_abstract, AllSee, Represents, run-Represents}
use open_crun.Coherency.Begin.{initialize-Represents}
use open_crun.Coherency.Splits.{Recuts}
use open_crun.Coherency.AddRegion.{add_region-Recuts}
use open_crun.Coherency.Initial.{initialize-IsCoherent}
use open_crun.Coherency.StaleHost.{map_after_write, write_only, map_read}

abbrev copied : Object
copied = record {
  devices = 2;
  size = 8;
  use_host_ptr = false;
  copy_host_ptr = true;
  shares = λ i. false;
}

abbrev empty_store : Store
empty_store = record { bytes = λ a b. b; allocated = λ i. false }

abbrev read_write : Mode
read_write = record { sync_map = false; sync_read = true; sync_write = true }

abbrev begun : Tracker
begun = initialize copied empty_store

abbrev result : Option Tracker → Tracker
result none = begun
result (some t) = t

-- The second device reads and writes bytes 2 to 5.
abbrev updated : Tracker
updated = result (update_region copied 2 4 read_write 1 begun)

updated_lem : update_region copied 2 4 read_write 1 begun ≡ some updated
unfolding update_region initialize compute_chunks_to_transfer get_range find_range_for find_chunk
    lower_bound transfer_all transfer transfer_to_device no_bit
updated_lem = refl

begun-IsCoherent : IsCoherent copied begun (λ b. b)
begun-IsCoherent =
    initialize-IsCoherent copied empty_store (λ b. b) (λ b. refl) (omega arith) (omega arith)

update_region-IsCoherent_example :
    IsCoherent copied updated (content_after copied 2 4 read_write 1 begun (λ b. b) updated)
update_region-IsCoherent_example =
    update_region-IsCoherent copied begun updated (λ b. b) 2 4 read_write 1 begun-IsCoherent
      (omega arith) (omega arith) updated_lem

-- The first device writes bytes 2 to 5 without reading them; then the second one reads the object.
abbrev accesses : List Access
accesses =
    record {
      offset = 2;
      size = 4;
      mode = record { sync_map = false; sync_read = false; sync_write = true };
      device = 0;
      written = λ b. 100 + b;
    }
    ∷ record {
      offset = 0;
      size = 8;
      mode = record { sync_map = false; sync_read = true; sync_write = false };
      device = 1;
      written = λ b. 0;
    }
    ∷ []

run-Represents_example :
    (seen : List (ℕ → ℕ)) × (t : Tracker) × (run copied accesses (initialize copied empty_store)
      ≡ some (seen, t))
    × AllSee accesses seen (run_abstract accesses (λ b. some b)).0
    × Represents copied t (run_abstract accesses (λ b. some b)).1
run-Represents_example =
    run-Represents copied accesses (initialize copied empty_store) (λ b. some b) (λ i h. cc)
      (
        record { inside = omega arith; device = omega arith; used = refl; on_device = refl },
        (record { inside = omega arith; device = omega arith; used = refl; on_device = refl }, tt),
      )
      (initialize-Represents copied empty_store (omega arith) (omega arith) refl)

abbrev two_chunks : List MemoryChunk
two_chunks =
    record { offset = 0; size = 6; validity = λ i. i == 0 }
    ∷ record { offset = 6; size = 10; validity = λ i. i == 1 }
    ∷ []

abbrev recut : List MemoryChunk
recut =
    record { offset = 0; size = 4; validity = λ i. i == 0 }
    ∷ record { offset = 4; size = 2; validity = λ i. i == 0 }
    ∷ record { offset = 6; size = 3; validity = λ i. i == 1 }
    ∷ record { offset = 9; size = 7; validity = λ i. i == 1 }
    ∷ []

recut_lem : add_region two_chunks 4 5 ≡ some recut
unfolding add_region find_chunk lower_bound split_one split_chunk split_from
recut_lem = refl

add_region-Recuts_example : Recuts 0 16 two_chunks recut
add_region-Recuts_example = add_region-Recuts two_chunks 16 (omega arith) 4 5 recut recut_lem

abbrev hosted : Object
hosted = record {
  devices = 1;
  size = 8;
  use_host_ptr = true;
  copy_host_ptr = false;
  shares = λ i. i == 0;
}

map_after_write_example :
    (t : Tracker) × (update_region hosted 0 8 write_only 0 (initialize hosted empty_store) ≡ some t)
    × (update_region hosted 0 8 map_read 0 t ≡ none)
map_after_write_example =
    map_after_write hosted (omega arith) empty_store 0 0 refl refl refl (omega arith) refl
