-- ===== src/Coherency/History.antt =====
-- Histories of accesses to a memory object: what updateRegion of lib/Core/MemoryObject.cpp is for. The
-- abstract memory is one array of bytes, each undefined until it is known.
use open_crun.Prelude.{
  ℕ, suc, ◌+◌, ◌≤◌, ◌<◌, ◌≡◌, refl, sym, ap, ◌∙◌, Bool, true, false, ◌&&◌, ◌||◌, List, [], ◌∷◌,
  ◌==◌, Option, some, ltb, leb, arith, if◌then◌else◌, inl, inr, Bool-cases, ◌>>=◌, All,
}
use open_crun.Coherency.Transfer.{
  Object, Tracker, Mode, area, no_bit, is_device_update, update_region,
}
use open_crun.Coherency.Tiling.{valid_at}
use open_crun.Coherency.Content.{no_bit-false}
use open_crun.Coherency.Chunks.{overwrites}
use open_crun.Coherency.Moving.{target_slot, target_area}
use open_crun.Coherency.Progress.{Backed, update_region-total, update_region-Backed}
use open_crun.Coherency.Region.{
  IsCoherent, content_after, update_region-IsCoherent, update_region-valid, update_region-sole,
  update_region-keeps_known, target_slot-lt,
}

-- A device asks for a region, and writes it if the mode says so.
pub record Access : Type 0 where
  pub offset : ℕ
  pub size : ℕ
  pub mode : Mode
  pub device : ℕ
  pub written : ℕ → ℕ

abbrev pub touches : Access → ℕ → Bool
touches x b = leb x.offset b && ltb b (x.offset + x.size)

abbrev pub writes : Access → ℕ → Bool
writes x b = x.mode.sync_write && touches x b

-- The storage that the access works on.
abbrev pub target : Object → Access → ℕ
target o x = target_area o (is_device_update o x.mode) x.device

abbrev pub write : Object → Access → Tracker → Tracker
write o x t = record t {
  store = record t.store {
    bytes = λ a b. if (a == target o x) && writes x b then x.written b else t.store.bytes a b;
  };
}

-- The bytes that each access sees when it begins, and the tracker at the end.
unfoldable pub run : Object → List Access → Tracker → Option (List (ℕ → ℕ) × Tracker)
run o [] t = some ([], t)
run o (x ∷ xs) t = do
  t' ← update_region o x.offset x.size x.mode x.device t
  (seen, end) ← run o xs (write o x t')
  some (t'.store.bytes (target o x) ∷ seen, end)

-- The same on the abstract memory.
abbrev pub Memory : Type 0
Memory = ℕ → Option ℕ

abbrev pub overwrite : Access → Memory → Memory
overwrite x a b = if writes x b then some (x.written b) else a b

unfoldable pub run_abstract : List Access → Memory → List Memory × Memory
run_abstract [] a = ([], a)
run_abstract (x ∷ xs) a = let r = run_abstract xs (overwrite x a) in (a ∷ r.0, r.1)

-- The object has a byte; a byte that the memory knows is valid somewhere, with this value.
pub record Represents (o : Object) (t : Tracker) (a : Memory) : Type 0 where
  pub content : ℕ → ℕ
  pub filled : 0 < o.size
  pub coherent : IsCoherent o t content
  pub backed : All (Backed o) t.partition
  pub known :
      (b v : ℕ)
      → b < o.size
      → a b ≡ some v
      → (no_bit (valid_at t.partition b) (suc o.devices) ≡ false) × (content b ≡ v)

-- An access that asks to read sees what the memory knows of its region.
abbrev pub Sees : Access → (ℕ → ℕ) → Memory → Type 0
Sees x seen a = (b v : ℕ) → x.mode.sync_read ≡ true → touches x b ≡ true → a b ≡ some v → seen b ≡ v

abbrev pub AllSee : List Access → List (ℕ → ℕ) → List Memory → Type 0
AllSee [] [] [] = Unit
AllSee (x ∷ xs) (seen ∷ later) (a ∷ next) = Sees x seen a × AllSee xs later next
AllSee _ _ _ = ⊥

-- The access reads or writes, for a device of the context, a region inside the object.
pub record IsDeviceAccess (o : Object) (x : Access) : Type 0 where
  pub inside : x.offset + x.size ≤ o.size
  pub device : x.device < o.devices
  pub used : (x.mode.sync_read || x.mode.sync_write) ≡ true
  pub on_device : is_device_update o x.mode ≡ true

&&-false : (c : Bool) → (c && false) ≡ false
&&-false true = refl
&&-false false = refl

if-false : (c : Bool) (w r v : ℕ) → c ≡ false → r ≡ v → (if c then w else r) ≡ v
if-false c w r v e k = ground arith

area-target : (o : Object) (u : Bool) (d : ℕ) → area o (target_slot o u d) ≡ target_area o u d
area-target o true d = refl
area-target o false d = ground arith

touches-lt : (x : Access) (b n : ℕ) → x.offset + x.size ≤ n → touches x b ≡ true → b < n
touches-lt x b n p at = ground arith

module _ (o : Object) (x : Access) (t t' : Tracker) (a : Memory) (rep : Represents o t a)
    (shared : (i : ℕ) → o.shares i ≡ true → o.use_host_ptr ≡ true) (asks : IsDeviceAccess o x)
    (done : update_region o x.offset x.size x.mode x.device t ≡ some t') where
  abbrev after : ℕ → ℕ
  after = content_after o x.offset x.size x.mode x.device t rep.content t'

  updated : IsCoherent o t' after
  updated =
      update_region-IsCoherent o t t' rep.content x.offset x.size x.mode x.device rep.coherent
        asks.inside asks.device done

  -- What the memory knows is kept, but for what the access overwrites without reading it.
  after-known :
      (b v : ℕ)
      → b < o.size
      → a b ≡ some v
      → overwrites x.mode x.offset x.size b ≡ false
      → after b ≡ v
  after-known b v p k free = let (valid, is) = rep.known b v p k in rw (valid, free) is

  update_region-Sees : Sees x (t'.store.bytes (target o x)) a
  update_region-Sees b v reads at k =
      let valid =
        update_region-valid o t t' rep.content x.offset x.size x.mode x.device rep.coherent
          asks.inside asks.device done b (ground arith) (ground arith) in
      let slot = target_slot o (is_device_update o x.mode) x.device in
      let holds : t'.store.bytes (area o slot) b ≡ after b =
        updated.current b slot
          (omega (arith, target_slot-lt o (is_device_update o x.mode) x.device asks.device))
          valid in
      sym (ap (λ c. t'.store.bytes c b) (area-target o (is_device_update o x.mode) x.device))
      ∙ holds
      ∙ after-known b v (touches-lt x b o.size asks.inside at) k (ground arith)

  -- The slots that are valid after a write have the storage that was written.
  written-current :
      (b i : ℕ)
      → i ≤ o.devices
      → valid_at t'.partition b i ≡ true
      → (write o x t').store.bytes (area o i) b ≡ (if writes x b then x.written b else after b)
  written-current b i p v = elim (Bool-cases (writes x b)) [
    | inl w ↦
        let sole =
          update_region-sole o t t' rep.content x.offset x.size x.mode x.device rep.coherent
            asks.inside asks.device done b i (ground arith) (ground arith) (ground arith) v in
        rw (w, sole) (ground arith)
    | inr w ↦ rw w (cc (updated.current b i p v, &&-false ((area o i) == target o x)))
  ]

  written-known :
      (b v : ℕ)
      → b < o.size
      → overwrite x a b ≡ some v
      → (no_bit (valid_at t'.partition b) (suc o.devices) ≡ false)
        × ((if writes x b then x.written b else after b) ≡ v)
  written-known b v p k = elim (Bool-cases (writes x b)) [
    | inl w ↦
        let valid =
          update_region-valid o t t' rep.content x.offset x.size x.mode x.device rep.coherent
            asks.inside asks.device done b (ground arith) (ground arith) in
        rw w (
          no_bit-false _ (suc o.devices) _ (target_slot-lt o _ x.device asks.device) valid,
          ground arith,
        )
    | inr w ↦
        let keeps =
          update_region-keeps_known o t t' rep.content x.offset x.size x.mode x.device rep.coherent
            asks.inside asks.device done b p in
        let k' : a b ≡ some v = ground arith in
        (
          keeps (rep.known b v p k').0,
          if-false (writes x b) (x.written b) (after b) v w (after-known b v p k' (ground arith)),
        )
  ]

  write-Represents : Represents o (write o x t') (overwrite x a)
  write-Represents = record {
    content = λ b. if writes x b then x.written b else after b;
    filled = rep.filled;
    coherent = record { tiled = updated.tiled; current = written-current };
    backed =
        update_region-Backed o x.offset x.size x.mode x.device t t' shared asks.device rep.backed
          done;
    known = written-known;
  }

-- For every list of accesses, each by a device of the context to a region inside the object for
-- reading or writing, on a tracker that represents an abstract memory of an object with at least
-- one byte, where devices share storage with the host only for an object with a host pointer: all
-- updates succeed; each access that reads sees in its storage what the abstract memory knows of its
-- region, the writes of the earlier accesses included, whichever devices made them; and the tracker
-- at the end represents the abstract memory at the end.
pub run-Represents :
    (o : Object) (xs : List Access) (t : Tracker) (a : Memory)
    → ((i : ℕ) → o.shares i ≡ true → o.use_host_ptr ≡ true)
    → All (IsDeviceAccess o) xs
    → Represents o t a
    → (seen : List (ℕ → ℕ)) × (t' : Tracker) × (run o xs t ≡ some (seen, t'))
      × AllSee xs seen (run_abstract xs a).0
      × Represents o t' (run_abstract xs a).1
unfolding run run_abstract
run-Represents o [] t a shared all rep = ([], t, refl, tt, rep)
run-Represents o (x ∷ xs) t a shared (asks, all) rep =
    let (t', done) =
      update_region-total o x.offset x.size x.mode x.device t rep.coherent.tiled rep.filled
        asks.device rep.backed asks.used asks.on_device in
    let (seen, end, e, sees, r) =
      run-Represents o xs (write o x t') (overwrite x a) shared all
        (write-Represents o x t t' a rep shared asks done) in
    rw (done, e) (_, end, refl, (update_region-Sees o x t t' a rep shared asks done, sees), r)
