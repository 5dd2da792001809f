-- ===== src/Coherency/Begin.antt =====
-- A new tracker (`initialize` of lib/Core/MemoryObject.cpp) as an abstract memory: the bytes at the
-- host pointer, where the object uses or copies it.
use open_crun.Prelude.{ℕ, suc, ◌<◌, ◌≡◌, refl, true, false, ◌||◌, some, arith, inl, inr, Bool-cases}
use open_crun.Coherency.Transfer.{Object, Store, no_bit, initialize, update_host_validity}
use open_crun.Coherency.Tiling.{valid_at}
use open_crun.Coherency.Content.{no_bit-false}
use open_crun.Coherency.Initial.{initialize-IsCoherent, initialize-Backed}
use open_crun.Coherency.History.{Represents}

initialize-valid :
    (o : Object) (s : Store) (b : ℕ)
    → 0 < o.devices
    → (o.use_host_ptr || o.copy_host_ptr) ≡ true
    → b < o.size
    → no_bit (valid_at (initialize o s).partition b) (suc o.devices) ≡ false
unfolding initialize update_host_validity
initialize-valid o s b p h q = elim (Bool-cases o.copy_host_ptr) [
  | inl copies ↦ no_bit-false _ (suc o.devices) 0 (omega arith) (ground arith)
  | inr uses ↦ no_bit-false _ (suc o.devices) o.devices (omega arith) (ground arith)
]

pub initialize-Represents :
    (o : Object) (s : Store)
    → 0 < o.size
    → 0 < o.devices
    → (o.use_host_ptr || o.copy_host_ptr) ≡ true
    → Represents o (initialize o s) (λ b. some (s.bytes o.devices b))
initialize-Represents o s p q h = record {
  content = s.bytes o.devices;
  filled = p;
  coherent = initialize-IsCoherent o s (s.bytes o.devices) (λ b. refl) p q;
  backed = initialize-Backed o s q;
  known = λ b v r k. (initialize-valid o s b q h r, ground arith);
}
