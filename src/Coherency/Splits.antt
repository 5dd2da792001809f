-- ===== src/Coherency/Splits.antt =====
-- `splitChunk` cuts a chunk in two with the same bits, and its assertion fails only behind the object.
use open_crun.Prelude.{
  ℕ, zero, suc, ◌+◌, ◌-◌, ◌≤◌, ◌<◌, ◌≡◌, refl, false, List, [], ◌∷◌, ◌++◌, none, some, ltb, ◌==◌,
  arith, ◌⊎◌, inl, inr, Bool-cases, ltb→lt, subst, Option-cases,
}
use open_crun.Coherency.Partition.{MemoryChunk, chunk_end, split_one, split_chunk}
use open_crun.Coherency.Tiling.{Tiles, Tiles-le, valid_at, spot}

-- One partition refines another: it tiles the same bytes with the same bits.
pub record Recuts (lo hi : ℕ) (cs new : List MemoryChunk) : Type 0 where
  pub tiled : Tiles lo new hi
  pub same : (b : ℕ) → lo ≤ b → valid_at new b ≡ valid_at cs b

pub split_one-cases :
    (x : ℕ) (c : MemoryChunk) (new : List MemoryChunk)
    → split_one c x ≡ some new
    → ((c.offset ≡ x) × (new ≡ c ∷ []))
      ⊎ ((c.offset < x)
          × (x < chunk_end c)
          × (new
              ≡ record c { size = c.size - (chunk_end c - x) }
                ∷ record c { offset = x; size = chunk_end c - x }
                ∷ []))
unfolding split_one
split_one-cases x c new e = ground arith

cut-Recuts :
    (lo hi x : ℕ) (c : MemoryChunk) (cs : List MemoryChunk)
    → Tiles lo (c ∷ cs) hi
    → c.offset < x
    → x < chunk_end c
    → Recuts lo hi (c ∷ cs) (
        record c { size = c.size - (chunk_end c - x) }
        ∷ record c { offset = x; size = chunk_end c - x }
        ∷ cs)
cut-Recuts lo hi x c cs t p q = record {
  tiled =
      (t.0, omega arith, (omega arith, omega arith, subst (λ k. Tiles k cs hi) (omega arith) t.2));
  same = λ b h. ground arith;
}

split_one-Recuts :
    (lo hi x : ℕ) (c : MemoryChunk) (cs new : List MemoryChunk)
    → Tiles lo (c ∷ cs) hi
    → split_one c x ≡ some new
    → Recuts lo hi (c ∷ cs) (new ++ cs)
split_one-Recuts lo hi x c cs new t e = elim (split_one-cases x c new e) [
  | inl (at, eq) ↦ rw eq (record { tiled = t; same = λ b h. refl })
  | inr (p, q, eq) ↦ rw eq (cut-Recuts lo hi x c cs t p q)
]

cons-Recuts :
    (lo hi : ℕ) (c : MemoryChunk) (cs new : List MemoryChunk)
    → Tiles lo (c ∷ cs) hi
    → Recuts (lo + c.size) hi cs new
    → Recuts lo hi (c ∷ cs) (c ∷ new)
cons-Recuts lo hi c cs new t r = record {
  tiled = (t.0, t.1, r.tiled);
  same = λ b h. elim (Bool-cases (ltb b (chunk_end c))) [
    | inl here ↦ rw here refl
    | inr on ↦ rw on (r.same b (ground arith))
  ];
}

pub split_chunk-Recuts :
    (lo hi x i : ℕ) (cs new : List MemoryChunk)
    → Tiles lo cs hi
    → split_chunk cs i x ≡ some new
    → Recuts lo hi cs new
unfolding split_chunk
split_chunk-Recuts lo hi x i [] new t e = cc
split_chunk-Recuts lo hi x zero (c ∷ cs) new t e = elim (Option-cases (split_one c x)) [
  | inl failed ↦ ground arith
  | inr (parts, eq) ↦
      let whole : new ≡ parts ++ cs = ground arith in
      rw whole (split_one-Recuts lo hi x c cs parts t eq)
]
split_chunk-Recuts lo hi x (suc i) (c ∷ cs) new t e = elim (Option-cases (split_chunk cs i x)) [
  | inl failed ↦ ground arith
  | inr (rest, eq) ↦
      let whole : new ≡ c ∷ rest = ground arith in
      rw whole
        (cons-Recuts lo hi c cs rest t (split_chunk-Recuts (lo + c.size) hi x i cs rest t.2 eq))
]

split_one-total :
    (x : ℕ) (c : MemoryChunk)
    → c.offset ≤ x
    → x < chunk_end c
    → (parts : List MemoryChunk) × (split_one c x ≡ some parts)
unfolding split_one
split_one-total x c p q = elim (Bool-cases (c.offset == x)) [
  | inl at ↦ (c ∷ [], rw at)
  | inr past ↦ (
    record c { size = c.size - (chunk_end c - x) }
        ∷ record c { offset = x; size = chunk_end c - x }
        ∷ [],
    ground arith,
  )
]

-- Where the chunk found starts, the split succeeds inside the object, and fails behind it.
pub split_chunk-total :
    (lo hi x : ℕ) (cs : List MemoryChunk)
    → Tiles lo cs hi
    → lo ≤ x
    → x < hi
    → (new : List MemoryChunk) × (split_chunk cs (spot cs x) x ≡ some new)
unfolding split_chunk spot
split_chunk-total lo hi x [] t h l = absurd (omega arith)
split_chunk-total lo hi x (c ∷ []) t h l =
    let (parts, e) = split_one-total x c (omega arith) (omega arith) in
    (parts ++ [], rw (split_chunk, e))
split_chunk-total lo hi x (c ∷ d ∷ ds) t h l = elim (Bool-cases (ltb x (chunk_end c))) [
  | inl here ↦
      let (parts, e) = split_one-total x c (omega arith) (ltb→lt _ _ here) in
      (parts ++ d ∷ ds, rw here (rw (split_chunk, e)))
  | inr on ↦
      let (rest, e) = split_chunk-total (lo + c.size) hi x (d ∷ ds) t.2 (ground arith) l in
      (c ∷ rest, rw on (rw (split_chunk, e)))
]

pub split_chunk-behind :
    (lo hi x : ℕ) (cs : List MemoryChunk)
    → Tiles lo cs hi
    → hi ≤ x
    → split_chunk cs (spot cs x) x ≡ none
unfolding split_chunk split_one spot
split_chunk-behind lo hi x [] t h = refl
split_chunk-behind lo hi x (c ∷ []) t h = ground arith
split_chunk-behind lo hi x (c ∷ d ∷ ds) t h =
    let past : ltb x (chunk_end c) ≡ false =
      ground (arith, Tiles-le (lo + c.size) hi (d ∷ ds) t.2) in
    rw past (rw (split_chunk-behind (lo + c.size) hi x (d ∷ ds) t.2 h))
