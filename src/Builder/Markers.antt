-- ===== src/Builder/Markers.antt =====
-- EnqueueMarkerBuilder and EnqueueBarrierBuilder, with their commands (lib/Core/Command.cpp).
use open_crun.Prelude.{ℕ, List, Option}
use open_crun.Builder.{
  Builder, Queue, Event, Created, created, new_builder, set_checked_wait_list, unless_failed,
}

pub record Marker : Type 0 where
  pub wait_list : List Event

pub record Barrier : Type 0 where
  pub wait_list : List Event

unfoldable pub create_marker : Builder → Created Marker
unfolding unless_failed
create_marker b = unless_failed b (created (record { wait_list = b.wait_list }))

unfoldable pub create_barrier : Builder → Created Barrier
unfolding unless_failed
create_barrier b = unless_failed b (created (record { wait_list = b.wait_list }))

unfoldable pub build_marker : Queue → ℕ → Option (ℕ → Option Event) → Created Marker
unfolding new_builder set_checked_wait_list create_marker
build_marker q n evs = create_marker (set_checked_wait_list n evs (new_builder q))

unfoldable pub build_barrier : Queue → ℕ → Option (ℕ → Option Event) → Created Barrier
unfolding new_builder set_checked_wait_list create_barrier
build_barrier q n evs = create_barrier (set_checked_wait_list n evs (new_builder q))
