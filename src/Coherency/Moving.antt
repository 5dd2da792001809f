-- ===== src/Coherency/Moving.antt =====
-- Every transfer to a device or to the host keeps the content of the valid slots and brings it to
-- its target.
use open_crun.Prelude.{
  ℕ, suc, ◌≤◌, ◌<◌, ◌≡◌, sym, ap, subst, Bool, true, false, List, [], ◌∷◌, some, arith, All, ◌⊎◌,
  inl, inr, >>=-eq-some,
}
use open_crun.Coherency.Partition.{MemoryChunk}
use open_crun.Coherency.Transfer.{
  Object, Store, area, no_bit, find_first_from, copy_chunk, map_storage, transfer_to_device,
  transfer_to_host, transfer, transfer_all,
}
use open_crun.Coherency.Marks.{Covers, Matches}
use open_crun.Coherency.Content.{find_first-valid, Holds, Current, Moves, still-Moves, map-Moves}

-- The three ways in which a transfer ends well.
module _ (o : Object) (c : MemoryChunk) (s s' : Store) where
  abbrev Idle : ℕ → Type 0
  Idle k =
      (s'.bytes ≡ s.bytes) × ((c.validity k ≡ true) ⊎ (no_bit c.validity (suc o.devices) ≡ true))

  to_host-cases :
      transfer_to_host o c s ≡ some s'
      → Idle o.devices
        ⊎ ((no_bit c.validity (suc o.devices) ≡ false)
            × (s'
                ≡ copy_chunk o.devices
                    (area o (find_first_from c.validity 0 (suc o.devices)))
                    c
                    (map_storage (find_first_from c.validity 0 (suc o.devices)) s)))
  unfolding transfer_to_host
  to_host-cases e = ground arith

  to_device-cases :
      (d : ℕ)
      → transfer_to_device o d c s ≡ some s'
      → Idle d
        ⊎ ((area o d ≡ o.devices) × Idle o.devices)
        ⊎ ((c.validity o.devices ≡ true)
            × (s' ≡ copy_chunk (area o d) o.devices c (map_storage d s)))
        ⊎ ((no_bit c.validity (suc o.devices) ≡ false)
            × (s'
                ≡ copy_chunk
                    (area o d)
                    (area o (find_first_from c.validity 0 (suc o.devices)))
                    c
                    (map_storage (find_first_from c.validity 0 (suc o.devices)) (map_storage d s))))
  unfolding transfer_to_device map_storage
  to_device-cases d e = ground arith

pub area-host : (o : Object) → area o o.devices ≡ o.devices
area-host o = ground arith

module _ (o : Object) (v : ℕ → ℕ → Bool) (w : ℕ → ℕ) (c : MemoryChunk) (s s' : Store) where
  module _ (m : Matches v c) (cur : Current o v w s) where
    Idle-Moves : (k : ℕ) → k ≤ o.devices → Idle o c s s' k → Moves o v w (area o k) c s s'
    Idle-Moves k h (eq, why) = still-Moves o v w k c s s' (λ a b. ap (λ f. f a b) eq) m cur h why

    Idle-host-Moves : Idle o c s s' o.devices → Moves o v w o.devices c s s'
    Idle-host-Moves idle =
        subst (λ a. Moves o v w a c s s') (area-host o) (Idle-Moves o.devices (omega arith) idle)

    first-Moves :
        (a d : ℕ)
        → no_bit c.validity (suc o.devices) ≡ false
        → s'
          ≡ copy_chunk a (area o (find_first_from c.validity 0 (suc o.devices))) c (map_storage d s)
        → Moves o v w a c s s'
    first-Moves a d bits eq =
        let (h, valid) = find_first-valid c.validity (suc o.devices) bits in
        rw eq (map-Moves o v w d a _ c s m cur (omega arith) valid)

    second-Moves :
        (a d : ℕ)
        → no_bit c.validity (suc o.devices) ≡ false
        → s'
          ≡ copy_chunk a
              (area o (find_first_from c.validity 0 (suc o.devices)))
              c
              (map_storage (find_first_from c.validity 0 (suc o.devices)) (map_storage d s))
        → Moves o v w a c s s'
    unfolding map_storage
    second-Moves a d bits eq =
        let (h, valid) = find_first-valid c.validity (suc o.devices) bits in
        let r = map-Moves o v w _ a _ c (map_storage d s) m cur (omega arith) valid in
        rw eq (record { current = r.current; fresh = r.fresh; stays = r.stays })

    to_host-Moves : transfer_to_host o c s ≡ some s' → Moves o v w o.devices c s s'
    to_host-Moves e = elim (to_host-cases o c s s' e) [
      | inl idle ↦ Idle-host-Moves idle
      | inr (bits, eq) ↦ first-Moves o.devices _ bits eq
    ]

    from_host-Moves :
        (a d : ℕ)
        → c.validity o.devices ≡ true
        → s' ≡ copy_chunk a o.devices c (map_storage d s)
        → Moves o v w a c s s'
    from_host-Moves a d valid eq = rw eq (
        subst (λ x. Moves o v w a c s (copy_chunk a x c (map_storage d s))) (area-host o)
          (map-Moves o v w d a o.devices c s m cur (omega arith) valid))

    to_device-Moves :
        (d : ℕ)
        → d < o.devices
        → transfer_to_device o d c s ≡ some s'
        → Moves o v w (area o d) c s s'
    to_device-Moves d h e = elim (to_device-cases o c s s' d e) [
      | inl idle ↦ Idle-Moves d (omega arith) idle
      | inr (inl (at, idle)) ↦ subst (λ a. Moves o v w a c s s') (sym at) (Idle-host-Moves idle)
      | inr (inr (inl (valid, eq))) ↦ from_host-Moves (area o d) d valid eq
      | inr (inr (inr (bits, eq))) ↦ second-Moves (area o d) d bits eq
    ]

-- The area that an update writes to, and its slot.
abbrev pub target_slot : Object → Bool → ℕ → ℕ
target_slot o true d = d
target_slot o false d = o.devices

abbrev pub target_area : Object → Bool → ℕ → ℕ
target_area o true d = area o d
target_area o false d = o.devices

module _ (o : Object) (v : ℕ → ℕ → Bool) (w : ℕ → ℕ) (d : ℕ) (dev : d < o.devices) where
  transfer-Moves :
      (u : Bool) (c : MemoryChunk) (s s' : Store)
      → Matches v c
      → Current o v w s
      → transfer o u d c s ≡ some s'
      → Moves o v w (target_area o u d) c s s'
  unfolding transfer
  transfer-Moves true c s s' m cur e = to_device-Moves o v w c s s' m cur d dev e
  transfer-Moves false c s s' m cur e = to_host-Moves o v w c s s' m cur e

  -- Transfers keep the content of every valid slot, and bring it to the target for each byte of
  -- the chunks.
  pub record Brings (a : ℕ) (cs : List MemoryChunk) (s s' : Store) : Type 0 where
    pub current : Current o v w s'
    pub fresh : (b : ℕ) → Covers cs b → Holds o v w s' a b
    pub stays : (b : ℕ) → Holds o v w s a b → Holds o v w s' a b

  pub transfer_all-Brings :
      (u : Bool) (cs : List MemoryChunk) (s s' : Store)
      → All (Matches v) cs
      → Current o v w s
      → transfer_all o u d cs s ≡ some s'
      → Brings (target_area o u d) cs s s'
  unfolding transfer_all
  transfer_all-Brings u [] s s' m cur e =
      let eq : s ≡ s' = cc in
      subst (Brings (target_area o u d) [] s) eq
        (record { current = cur; fresh = λ b p. absurd p; stays = λ b p. p })
  transfer_all-Brings u (c ∷ cs) s s' m cur e =
      let (t, first, rest) = >>=-eq-some (transfer o u d c s) (transfer_all o u d cs) e in
      let r = transfer-Moves u c s t m.0 cur first in
      let q = transfer_all-Brings u cs t s' m.1 r.current rest in
      record {
        current = q.current;
        fresh =
            λ b p. elim p [ inl here ↦ q.stays b (r.fresh b here) | inr later ↦ q.fresh b later ];
        stays = λ b p. q.stays b (r.stays b p);
      }
