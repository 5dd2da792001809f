-- ===== src/Builder/MapImage/Pitches.antt =====
-- SetMapPitches runs before SetMapArea and finds no region (lib/Core/Command.cpp and
-- tools/libOpenCRun/EnqueueCommand.cpp).
use open_crun.Prelude.{ℕ, ◌≡◌, sym, ap, ◌∙◌, Bool, Option, none, arith}
use open_crun.Builder.{Created, created, failed, null_dereference, deref, notify_error}
use open_crun.Builder.Errors.{unless_failed-created}
use open_crun.Builder.ImageChecks.{Triple, is_valid_img_region}
use open_crun.Mapping.{Span, Tables}
use open_crun.Builder.MapImage.{
  MapImage, Command, Call, new, reject, set_blocking, check_flags, set_map_flags, set_region,
  set_given, set_map_area, set_map_pitches, map_at, set_map_buffer, set_wait_list, command, create,
  finish, build,
}

-- No pitch is set.
abbrev Keeps : MapImage → MapImage → Type 0
Keeps r r' = (r'.row_pitch ≡ r.row_pitch) × (r'.slice_pitch ≡ r.slice_pitch)

abbrev prepared : Call → MapImage
prepared a = set_map_flags a.flags (set_blocking a.blocking (new a.row0 a.slice0 a.queue a.img))

set_map_flags-region :
    (flags : ℕ) (r : MapImage)
    → ((set_map_flags flags r).region ≡ r.region) × Keeps r (set_map_flags flags r)
unfolding set_map_flags check_flags reject
set_map_flags-region flags r = (ground arith, (ground arith, ground arith))

set_blocking-region :
    (blocking : Bool) (r : MapImage)
    → ((set_blocking blocking r).region ≡ r.region) × Keeps r (set_blocking blocking r)
unfolding set_blocking reject
set_blocking-region blocking r = (ground arith, (ground arith, ground arith))

set_map_area-Keeps :
    (origin region : Option Triple) (r : MapImage) → Keeps r (set_map_area origin region r)
unfolding set_map_area set_given set_region reject is_valid_img_region notify_error
set_map_area-Keeps origin region r = (ground arith, ground arith)

set_map_buffer-Keeps :
    (ptr : Option ℕ) (y z : Span) (r : MapImage) (t : Tables)
    → Keeps r (set_map_buffer ptr y z r t).0
unfolding set_map_buffer map_at reject
set_map_buffer-Keeps ptr y z r t = (ground arith, ground arith)

create-pitches :
    (r : MapImage) {c : Command}
    → create r ≡ created c
    → (c.row_pitch ≡ r.row_pitch) × (c.slice_pitch ≡ r.slice_pitch)
unfolding create deref command
create-pitches r h =
    let (ok, made) = unless_failed-created r.base _ h in (ground arith, ground arith)

prepared-unplaced :
    (a : Call)
    → ((prepared a).region ≡ none)
      × ((prepared a).row_pitch ≡ a.row0)
      × ((prepared a).slice_pitch ≡ a.slice0)
unfolding new
prepared-unplaced a =
    let r = new a.row0 a.slice0 a.queue a.img in
    let blocking = set_blocking-region a.blocking r in
    let flags = set_map_flags-region a.flags (set_blocking a.blocking r) in
    (flags.0 ∙ blocking.0, flags.1.0 ∙ blocking.1.0, flags.1.1 ∙ blocking.1.1)

build-finish :
    (a : Call) (t : Tables)
    → build a t ≡ ((finish a (prepared a) t).0, (finish a (prepared a) t).1, a.pitches)
unfolding build set_map_pitches
build-finish a t = ground (arith, (prepared-unplaced a).0)

finish-pitches :
    (a : Call) (r : MapImage) (t : Tables) {c : Command}
    → (finish a r t).0 ≡ created c
    → (c.row_pitch ≡ r.row_pitch) × (c.slice_pitch ≡ r.slice_pitch)
unfolding finish set_wait_list
finish-pitches a r t h =
    let r' = set_map_area a.origin a.region r in
    let area = set_map_area-Keeps a.origin a.region r in
    let buf = set_map_buffer-Keeps a.address a.y0 a.z0 r' t in
    let ended = set_wait_list a.wait_size a.waits (set_map_buffer a.address a.y0 a.z0 r' t).0 in
    let made = create-pitches ended h in (made.0 ∙ buf.0 ∙ area.0, made.1 ∙ buf.1 ∙ area.1)

-- A command has the pitches that the constructor left.
abbrev pub Unpitched : Call → Created Command → Type 0
Unpitched a (created c) = (c.row_pitch ≡ a.row0) × (c.slice_pitch ≡ a.slice0)
Unpitched a _ = Unit

finish-Unpitched :
    (a : Call) (t : Tables) (m : Created Command) → (finish a (prepared a) t).0 ≡ m → Unpitched a m
finish-Unpitched a t (created c) h =
    let (_, row, slice) = prepared-unplaced a in
    let made = finish-pitches a (prepared a) t h in (made.0 ∙ row, made.1 ∙ slice)
finish-Unpitched a t (failed e) h = tt
finish-Unpitched a t null_dereference h = tt

-- Whatever the arguments of clEnqueueMapImage, its chain of calls never writes the pitches of the
-- caller, and a command that it yields has the pitches that the constructor left uninitialised.
map_image-pitches :
    (a : Call) (t : Tables) → ((build a t).2 ≡ a.pitches) × Unpitched a (build a t).0
map_image-pitches a t =
    let runs = build-finish a t in
    (ap (λ x. x.2) runs, finish-Unpitched a t (build a t).0 (sym (ap (λ x. x.0) runs)))
