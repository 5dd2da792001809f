-- ===== src/Tests/Mapping.antt =====
-- Mappings of a sub-buffer (lib/Core/MemoryObject.cpp), one whose command is refused, and
-- one that cannot be unmapped (lib/Core/Command.cpp).
use open_crun.Prelude.{
  arith, ◌≡◌, refl, Bool, true, false, [], ◌∷◌, none, some, if◌then◌else◌, ◌==◌,
}
use open_crun.Builder.{Buffer, buffer, size_add, failed, invalid_value}
use open_crun.Builder.MapBuffer.{build, map_read, mapped_object}
use open_crun.Builder.UnmapMemObject
use open_crun.Builder.UnmapMemObject.Refused.{unmap_sub_buffer-refused}
use open_crun.Tests.Buffers.{queue}
use open_crun.Mapping.{
  Span, MemMappingInfo, MemoryObject, own, sub_buffer, Tables, add_mapping, remove_mapping,
  is_valid_mapping, insert, has_key, any_overlap, is_overlapped_with, check_intersection,
}
use open_crun.Mapping.Writes
use open_crun.Mapping.Writes.{AllApart, adds, removes, run, run-AllApart}
use open_crun.Mapping.Parents.{remove_mapping-add_mapping}

abbrev unit : Span
unit = record { offset = 0; size = 1 }

abbrev upper : MemMappingInfo
upper = record { x = record { offset = 32; size = 8 }; y = unit; z = unit; flags = 2 }

-- Buffer 1 has a mapping for writing at address 500, in its first bytes.
abbrev tables : Tables
tables i =
    if i == 1
    then (500, record { x = record { offset = 0; size = 16 }; y = unit; z = unit; flags = 2 }) ∷ []
    else []

abbrev part : MemoryObject
part = sub_buffer 2 8 (own 1)

tables-AllApart : AllApart tables
tables-AllApart j = go (j == 1)
  where
    go :
        (b : Bool)
        → Writes.WritesApart (
            if b
            then (
              500,
              record { x = record { offset = 0; size = 16 }; y = unit; z = unit; flags = 2 },
            )
              ∷ []
            else [])
    go true = ((omega arith, omega arith, omega arith), tt, tt)
    go false = tt

run-AllApart_example : AllApart (run (adds part (some 600) upper ∷ removes 0 part 500 ∷ []) tables)
run-AllApart_example =
    run-AllApart (adds part (some 600) upper ∷ removes 0 part 500 ∷ []) tables
      ((omega arith, omega arith, omega arith), (tt, tt)) tables-AllApart

remove_mapping-add_mapping_example :
    remove_mapping 0 part 600 (add_mapping part (some 600) upper tables).0 ≡ (tables, true)
unfolding add_mapping insert has_key any_overlap is_overlapped_with check_intersection size_add
remove_mapping-add_mapping_example = remove_mapping-add_mapping 0 part 600 upper tables refl refl

abbrev lower : Buffer
lower = record { id = 2; parent = some 1; origin = 8; size = 16; flags = 1; context = 1 }

unmap_sub_buffer-refused_example :
    UnmapMemObject.build queue
      (some (record { object = mapped_object lower; context = lower.context }))
      (some 700)
      0
      none
      (build queue (some (buffer lower)) (some 700) unit unit true map_read 0 8 0 none tables).1
    ≡ failed invalid_value
unfolding is_valid_mapping mapped_object
unmap_sub_buffer-refused_example =
    unmap_sub_buffer-refused queue lower 1 (some 700) unit unit true map_read 0 8 0 0 none none
      tables 700 refl refl refl
