-- ===== src/Coherency/Content.antt =====
-- What the copies of `transferToDevice` and `transferToHost` leave in the storage areas.
use open_crun.Prelude.{
  ℕ, zero, suc, ◌+◌, ◌≤◌, ◌<◌, ◌≡◌, ap, ◌∙◌, Bool, true, false, arith, ◌⊎◌, inl, inr, Bool-cases,
}
use open_crun.Coherency.Partition.{MemoryChunk}
use open_crun.Coherency.Transfer.{
  Object, Store, area, no_bit, find_first_from, copy_chunk, map_storage,
}
use open_crun.Coherency.Marks.{In, Matches}

pub no_bit-false : (v : ℕ → Bool) (n i : ℕ) → i < n → v i ≡ true → no_bit v n ≡ false
unfolding no_bit
no_bit-false v zero i h e = absurd (omega arith)
no_bit-false v (suc n) i h e = elim (Bool-cases (no_bit v n)) [
  | inl r ↦ ground (arith, no_bit-false v n i)
  | inr r ↦ ground (arith)
]

pub no_bit-true : (v : ℕ → Bool) (n i : ℕ) → i < n → no_bit v n ≡ true → v i ≡ false
no_bit-true v n i h e = elim (Bool-cases (v i)) [
  | inl r ↦ ground (arith, no_bit-false v n i h r)
  | inr r ↦ r
]

-- The search finds a set slot, if there is one among the n from i.
pub find_first-set :
    (v : ℕ → Bool) (n i k : ℕ)
    → i ≤ k
    → k < i + n
    → v k ≡ true
    → (find_first_from v i n < i + n) × (v (find_first_from v i n) ≡ true)
unfolding find_first_from
find_first-set v zero i k h l e = absurd (omega arith)
find_first-set v (suc n) i k h l e = elim (Bool-cases (v i)) [
  | inl r ↦ rw r (omega arith, r)
  | inr r ↦
      rw r (
        let (p, q) = find_first-set v n (suc i) k (ground arith) (omega arith) e in
        (omega arith, q))
]

pub no_bit-find : (v : ℕ → Bool) (n : ℕ) → no_bit v n ≡ false → (i : ℕ) × (i < n) × (v i ≡ true)
unfolding no_bit
no_bit-find v zero e = cc
no_bit-find v (suc n) e = elim (Bool-cases (v n)) [
  | inl r ↦ (n, omega arith, r)
  | inr r ↦ let (i, p, q) = no_bit-find v n (ground arith) in (i, omega arith, q)
]

pub find_first-valid :
    (v : ℕ → Bool) (n : ℕ)
    → no_bit v n ≡ false
    → (find_first_from v 0 n < n) × (v (find_first_from v 0 n) ≡ true)
find_first-valid v n e =
    let (i, p, q) = no_bit-find v n e in
    let (r, t) = find_first-set v n 0 i (omega arith) (omega arith) q in (omega arith, t)

-- `v` gives the valid slots of each byte, `w` the content that the object has for the program.
module _ (o : Object) (v : ℕ → ℕ → Bool) (w : ℕ → ℕ) where
  -- Storage area a has the content of byte b, if any slot is valid there.
  abbrev pub Holds : Store → ℕ → ℕ → Type 0
  Holds s a b = (i : ℕ) → i ≤ o.devices → v b i ≡ true → s.bytes a b ≡ w b

  -- Each valid slot has the content.
  abbrev pub Current : Store → Type 0
  Current s = (b i : ℕ) → i ≤ o.devices → v b i ≡ true → s.bytes (area o i) b ≡ w b

  -- What moving the bytes of a chunk to area a does.
  pub record Moves (a : ℕ) (c : MemoryChunk) (s s' : Store) : Type 0 where
    pub current : Current s'
    pub fresh : (b : ℕ) → In c b → Holds s' a b
    pub stays : (b : ℕ) → Holds s a b → Holds s' a b

  copy-Moves :
      (a src : ℕ) (c : MemoryChunk) (s : Store)
      → Matches v c
      → Current s
      → src ≤ o.devices
      → c.validity src ≡ true
      → Moves a c s (copy_chunk a (area o src) c s)
  unfolding copy_chunk
  copy-Moves a src c s m cur h e = record {
    current = λ b i p q. ground (arith, cur b i p q, cur b src h, m b);
    fresh = λ b p i q r. ground (arith, cur b src h, m b);
    stays = λ b p i q r. ground (arith, cur b src h, m b, p i q r);
  }

  -- A transfer that copies nothing, where a slot of the target area is valid or none is.
  pub still-Moves :
      (k : ℕ) (c : MemoryChunk) (s s' : Store)
      → ((a b : ℕ) → s'.bytes a b ≡ s.bytes a b)
      → Matches v c
      → Current s
      → k ≤ o.devices
      → (c.validity k ≡ true) ⊎ (no_bit c.validity (suc o.devices) ≡ true)
      → Moves (area o k) c s s'
  still-Moves k c s s' same m cur h e = record {
    current = λ b i p q. same (area o i) b ∙ cur b i p q;
    fresh = λ b p i q r. same (area o k) b ∙ at b p i q r e;
    stays = λ b p i q r. same (area o k) b ∙ p i q r;
  }
    where
      at :
          (b : ℕ)
          → In c b
          → (i : ℕ) → i ≤ o.devices
          → v b i ≡ true
          → (c.validity k ≡ true) ⊎ (no_bit c.validity (suc o.devices) ≡ true)
          → s.bytes (area o k) b ≡ w b
      at b p i q r (inl x) = cur b k h (ap (λ f. f k) (m b p) ∙ x)
      at b p i q r (inr x) =
          cc (r, ap (λ f. f i) (m b p), no_bit-true c.validity (suc o.devices) i (omega arith) x)

  pub map-Moves :
      (d a src : ℕ) (c : MemoryChunk) (s : Store)
      → Matches v c
      → Current s
      → src ≤ o.devices
      → c.validity src ≡ true
      → Moves a c s (copy_chunk a (area o src) c (map_storage d s))
  unfolding map_storage
  map-Moves d a src c s m cur h e =
      let r = copy-Moves a src c (map_storage d s) m cur h e in
      record { current = r.current; fresh = r.fresh; stays = r.stays }
