-- ===== src/Builder/RectArea.antt =====
-- The pitches and the place of a box in a buffer or in memory of the host, as the rectangle builders
-- compute them (SetTargetOffset and SetSourceOffset, lib/Core/Command.cpp).
use open_crun.Prelude.{
  ℕ, ◌-◌, ◌%◌, Bool, true, false, ◌&&◌, ◌||◌, not, List, [], ◌∷◌, leb, ◌/◌, Option, none, some,
  if◌then◌else◌, ◌==◌, ltb,
}
use open_crun.Builder.{size_add, size_mul}
use open_crun.Builder.ImageChecks.{Triple}

unfoldable pub pick_slice : ℕ → ℕ → Triple → Option ℕ
unfolding size_mul
pick_slice given row g =
    let least = size_mul g.y row in
    if given == 0
    then some least
    else if ltb given least || not (given % row == 0)
    then none
    else some given

-- The index of the last byte of the box.
unfoldable pub last_index : Triple → Triple → ℕ → ℕ → ℕ
unfolding size_add size_mul
last_index o g row slice =
    size_add (size_add (size_add o.x (g.x - 1)) (size_mul (size_add o.y (g.y - 1)) row))
      (size_mul (size_add o.z (g.z - 1)) slice)

-- The index of its first byte.
unfoldable pub start_index : Triple → ℕ → ℕ → ℕ
unfolding size_add size_mul
start_index o row slice = size_add (size_add o.x (size_mul o.y row)) (size_mul o.z slice)

-- One axis of the two boxes.
pub record Axis : Type 0 where
  pub source_min : ℕ
  pub source_max : ℕ
  pub target_min : ℕ
  pub target_max : ℕ

-- `for(I = 0; I < 3 && !Overlap; ++I) Overlap = Overlap && …`
unfoldable pub overlap_loop : Bool → List Axis → Bool
overlap_loop overlap [] = overlap
overlap_loop true (a ∷ rest) = true
overlap_loop false (a ∷ rest) =
    overlap_loop (false && ltb a.source_min a.target_max && ltb a.target_min a.source_max) rest

unfoldable pub axes : Triple → Triple → Triple → List Axis
unfolding size_add
axes g ot os =
    record {
      source_min = os.x;
      source_max = size_add os.x g.x;
      target_min = ot.x;
      target_max = size_add ot.x g.x;
    }
    ∷ record {
      source_min = os.y;
      source_max = size_add os.y g.y;
      target_min = ot.y;
      target_max = size_add ot.y g.y;
    }
    ∷ record {
      source_min = os.z;
      source_max = size_add os.z g.z;
      target_min = ot.z;
      target_max = size_add ot.z g.z;
    }
    ∷ []

-- By how much an area runs over its row, or its slice.
unfoldable pub delta : ℕ → ℕ → ℕ → ℕ
unfolding size_add
delta origin extent limit =
    if ltb limit (size_add origin extent) then size_add origin extent - limit else 0

unfoldable pub runs_into : ℕ → ℕ → ℕ → ℕ → Bool
runs_into delta_source delta_target source target =
    (ltb 0 delta_source && ltb target delta_source)
    || (ltb 0 delta_target && ltb source delta_target)

unfoldable pub intervals_meet : ℕ → ℕ → ℕ → ℕ → Bool
intervals_meet source_start source_end target_start target_end =
    (leb source_start target_start && ltb target_start source_end)
    || (leb target_start source_start && ltb source_start target_end)

-- The lines under `if(!Overlap)`.
unfoldable pub overlap_linear : Triple → Triple → Triple → ℕ → ℕ → ℕ → ℕ → Bool
unfolding size_add size_mul delta runs_into intervals_meet
overlap_linear g ot os target_offset source_offset row slice =
    let extent = size_add (size_add (size_mul g.z slice) (size_mul g.y row)) g.x in
    let meet =
      intervals_meet source_offset (size_add source_offset extent) target_offset
        (size_add target_offset extent) in
    let by_rows = runs_into (delta os.x g.x row) (delta ot.x g.x row) os.x ot.x && meet in
    let height = slice / row in
    let by_slices = runs_into (delta os.y g.y height) (delta ot.y g.y height) os.y ot.y && meet in
    by_rows || (ltb 1 g.z && by_slices)

-- The value of `Overlap` at the end of CheckCopyOverlap.
unfoldable pub overlap : Triple → Triple → Triple → ℕ → ℕ → ℕ → ℕ → Bool
unfolding overlap_loop axes overlap_linear
overlap g ot os target_offset source_offset row slice =
    let boxes = overlap_loop true (axes g ot os) in
    if not boxes then overlap_linear g ot os target_offset source_offset row slice else boxes
