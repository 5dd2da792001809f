-- ===== src/Builder/CopyBufferRect/Accepted.antt =====
-- Copies of boxes within one buffer: CheckCopyOverlap (lib/Core/Command.cpp).
use open_crun.Prelude.{ℕ, ◌≡◌, refl, true, false, some, arith, if◌then◌else◌}
use open_crun.Builder.{Buffer, is_success, notify_error}
use open_crun.Builder.ImageChecks.{Triple}
use open_crun.Builder.RectArea.{overlap, overlap_loop, axes}
use open_crun.Builder.CopyBufferRect.{
  CopyBufferRect, check_copy_overlap, check_overlap, shares, reject,
}

overlap_lem : (g ot os : Triple) (to so row slice : ℕ) → overlap g ot os to so row slice ≡ true
unfolding overlap overlap_loop axes
overlap_lem g ot os to so row slice = refl

-- Where target, source, region and both origins are set, CheckCopyOverlap ends with an error for
-- every pair of buffers that share their bytes, also if the boxes do not meet; otherwise it leaves
-- the error as it was.
check_copy_overlap-shares :
    (r : CopyBufferRect) {t s : Buffer} {g ot os : Triple}
    → r.target ≡ some t
    → r.source ≡ some s
    → r.region ≡ some g
    → r.target_origin ≡ some ot
    → r.source_origin ≡ some os
    → is_success (check_copy_overlap r).base.err_code
      ≡ (if shares t s then false else is_success r.base.err_code)
unfolding check_copy_overlap check_overlap reject notify_error is_success
check_copy_overlap-shares r {t} {s} {g} {ot} {os} et es eg eot eos =
    ground (arith, overlap_lem g ot os r.target_offset r.source_offset r.target_row r.target_slice)
