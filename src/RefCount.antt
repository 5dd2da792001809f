-- ===== src/RefCount.antt =====
-- MTRefCountedBase and MTRefCountedBaseVPTR (include/opencrun/Util/MTRefCounted.h). The calls of all
-- threads are one list, since each changes the count by one atomic operation.
use open_crun.Prelude.{
  ℕ, suc, ◌+◌, ◌-◌, ◌%◌, ◌≤◌, ◌<◌, ◌≡◌, ◌↔◌, refl, Bool, true, false, not, List, [], ◌∷◌, Option,
  none, some, if◌then◌else◌, ◌==◌, ◌>>=◌, arith,
}

-- llvm::sys::cas_flag has 32 bits.
abbrev pub flag_mod : ℕ
flag_mod = 4294967296

pub record RefCounted : Type 0 where
  pub refs : ℕ
  pub alive : Bool

pub data Operation : Type 0 where
  retain release : Operation

unfoldable pub new : RefCounted
new = record { refs = 0; alive = true }

-- A call on an object that is deleted is none.
unfoldable pub apply : Operation → RefCounted → Option RefCounted
apply op o =
    if not o.alive
    then none
    else some (elim op [
      | retain ↦ record o { refs = (o.refs + 1) % flag_mod }
      | release ↦ record { refs = (o.refs + flag_mod - 1) % flag_mod; alive = not (o.refs == 0) }
    ])

unfoldable pub run : List Operation → RefCounted → Option RefCounted
unfolding apply
run [] o = some o
run (op ∷ ops) o = do run ops (← apply op o)

abbrev pub retains : List Operation → ℕ
retains [] = 0
retains (retain ∷ ops) = suc (retains ops)
retains (release ∷ ops) = retains ops

abbrev pub releases : List Operation → ℕ
releases [] = 0
releases (retain ∷ ops) = releases ops
releases (release ∷ ops) = suc (releases ops)

-- With `n` references at first, there is one for each release.
abbrev pub Matched : ℕ → List Operation → Type 0
Matched n [] = Unit {0}
Matched n (retain ∷ ops) = Matched (suc n) ops
Matched n (release ∷ ops) = (0 < n) × Matched (n - 1) ops

abbrev at : ℕ → RefCounted
at n = record { refs = n; alive = true }

run-Matched :
    (ops : List Operation) (n : ℕ)
    → Matched n ops
    → n + retains ops < flag_mod
    → (run ops (at n) ≡ some (at (n + retains ops - releases ops)))
      × (releases ops ≤ n + retains ops)
unfolding run apply
run-Matched [] n m small = let same : n + 0 - 0 ≡ n = omega arith in (rw same refl, omega arith)
run-Matched (retain ∷ ops) n m small =
    let (ran, le) = run-Matched ops (suc n) m (omega arith) in
    let up : (n + 1) % flag_mod ≡ suc n = omega arith in
    let sum : n + suc (retains ops) - releases ops ≡ suc n + retains ops - releases ops =
      omega arith in
    (rw (up, sum) ran, omega arith)
run-Matched (release ∷ ops) n m small =
    let (ran, le) = run-Matched ops (n - 1) m.1 (omega (arith, m.0)) in
    let down : (n + flag_mod - 1) % flag_mod ≡ n - 1 = omega (arith, m.0) in
    let counted : (n == 0) ≡ false = ground arith in
    let sum : n + retains ops - suc (releases ops) ≡ n - 1 + retains ops - releases ops =
      omega (arith, m.0) in
    (rw (down, counted, sum) ran, omega (arith, m.0))

-- An object lives through the calls, and the next release deletes it exactly if each retain has had
-- its release.
abbrev pub Lives : List Operation → Type 0
Lives ops =
    (o : RefCounted) × (run ops new ≡ some o)
    × (o.alive ≡ true)
    × (o.refs + releases ops ≡ retains ops)
    × (o' : RefCounted) × (apply release o ≡ some o')
    × ((o'.alive ≡ false) ↔ (retains ops ≡ releases ops))

-- In a list of fewer than 2^32 retains and of releases, each of a reference that a retain before it
-- took, the object is never deleted, its count is that of the retains without a release, and one
-- more release deletes it exactly if there is no such retain: the release of the last reference
-- does not delete the object.
pub run-Lives : (ops : List Operation) → Matched 0 ops → retains ops < flag_mod → Lives ops
unfolding apply new
run-Lives ops m small =
    let (ran, le) = run-Matched ops 0 m (omega arith) in
    let left = 0 + retains ops - releases ops in
    let o' : RefCounted = record {
      refs = (left + flag_mod - 1) % flag_mod;
      alive = not (left == 0);
    } in
    let last : (not (left == 0) ≡ false) ↔ (retains ops ≡ releases ops) =
      (λ h. ground arith, λ h. ground arith) in
    (at left, ran, refl, omega arith, o', refl, last)
