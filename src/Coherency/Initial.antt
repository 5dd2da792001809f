-- ===== src/Coherency/Initial.antt =====
-- `initialize`: a tracker begins with one chunk, coherent with what the application put at the host
-- pointer.
use open_crun.Prelude.{ℕ, ◌≤◌, ◌<◌, ◌≡◌, true, arith, All}
use open_crun.Coherency.Transfer.{
  Object, Store, area, initialize, update_host_validity, copy_chunk, map_storage,
}
use open_crun.Coherency.Tiling.{valid_at}
use open_crun.Coherency.Region.{IsCoherent}
use open_crun.Coherency.Progress.{Backed}

module _ (o : Object) (s : Store) (w : ℕ → ℕ) (host : (b : ℕ) → s.bytes o.devices b ≡ w b) where
  initial-current :
      0 < o.devices
      → (b i : ℕ) → b < o.size
      → i ≤ o.devices
      → valid_at (initialize o s).partition b i ≡ true
      → (initialize o s).store.bytes (area o i) b ≡ w b
  unfolding initialize update_host_validity copy_chunk map_storage
  initial-current p b i q h v = ground (arith, host b)

  -- A new tracker of an object with at least one byte, in a context with at least one device, is
  -- coherent with what stands at the host pointer.
  pub initialize-IsCoherent : 0 < o.size → 0 < o.devices → IsCoherent o (initialize o s) w
  unfolding initialize copy_chunk map_storage
  initialize-IsCoherent p q = record {
    tiled = ground arith;
    current = λ b i h v. initial-current q b i (ground arith) h v;
  }

pub initialize-Backed :
    (o : Object) (s : Store) → 0 < o.devices → All (Backed o) (initialize o s).partition
unfolding initialize update_host_validity
initialize-Backed o s p = ground arith
