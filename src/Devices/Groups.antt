-- ===== src/Devices/Groups.antt =====
-- The map of partitions by NUMA node or cache (CPUDevice::createSubDevices in
-- lib/Device/CPU/CPUDevice.cpp) and the CPUs that it has for each.
use open_crun.Prelude.{
  ℕ, suc, ◌≤◌, ◌<◌, ◌≡◌, refl, ap, sym, ◌∙◌, Bool, false, List, [], ◌∷◌, ◌++◌, map, Option, none,
  some, length, ℤ, arith, ◌==◌, All, if◌then◌else◌, Bool-cases, inl, inr,
}
use mathlib.Core.List.{append-nil, append_assoc}
use open_crun.Devices.{Cpu, CpuDevice}
use open_crun.Devices.Creating.{push_back, push_at, partitions, make_partitions}
use open_crun.Devices.Cuts.{cpus_of, sub_device-total}

abbrev is_at : Option ℕ → ℕ → Bool
is_at none k = false
is_at (some j) k = j == k

-- The CPUs with this node or cache, in their order.
abbrev pub select : (Cpu → Option ℕ) → ℕ → List Cpu → List Cpu
select key k [] = []
select key k (c ∷ cs) = if is_at (key c) k then c ∷ select key k cs else select key k cs

abbrev pub Groups : Type 0
Groups = List (ℕ × List Cpu)

abbrev pub at : ℕ → Groups → List Cpu
at k [] = []
at k ((j, cs) ∷ m) = if j == k then cs else at k m

-- Keys from `b` on, in strictly rising order.
abbrev pub From : ℕ → Groups → Type 0
From b [] = Unit
From b ((j, cs) ∷ m) = (b ≤ j) × From (suc j) m

abbrev pub AllFilled : Groups → Type 0
AllFilled = All (λ g. 0 < length g.1)

at-From : (b k : ℕ) (m : Groups) → From b m → k < b → at k m ≡ []
at-From b k [] f h = refl
at-From b k ((j, cs) ∷ m) f h = ground (arith, at-From (suc j) k m)

push_back-From : (b k : ℕ) (c : Cpu) (m : Groups) → From b m → b ≤ k → From b (push_back k c m)
unfolding push_back
push_back-From b k c [] f h = (h, tt)
push_back-From b k c ((j, cs) ∷ m) f h = ground (arith, push_back-From (suc j) k c m)

push_back-at :
    (b k i : ℕ) (c : Cpu) (m : Groups)
    → From b m
    → at i (push_back k c m) ≡ (if k == i then at i m ++ c ∷ [] else at i m)
unfolding push_back
push_back-at b k i c [] f = refl
push_back-at b k i c ((j, cs) ∷ m) f =
    ground (arith, push_back-at (suc j) k i c m, at-From (suc j) i m)

length-snoc : (cs : List Cpu) (c : Cpu) → 0 < length (cs ++ c ∷ [])
length-snoc [] c = omega arith
length-snoc (x ∷ cs) c = omega arith

push_back-AllFilled : (k : ℕ) (c : Cpu) (m : Groups) → AllFilled m → AllFilled (push_back k c m)
unfolding push_back
push_back-AllFilled k c [] a = (omega arith, tt)
push_back-AllFilled k c ((j, cs) ∷ m) a =
    ground (arith, push_back-AllFilled k c m, length-snoc cs c)

-- What holds of the map after some CPUs, against that before them.
abbrev Grown : (Cpu → Option ℕ) → List Cpu → Groups → Groups → Type 0
Grown key cs m m' = From 0 m' × AllFilled m' × ((k : ℕ) → at k m' ≡ at k m ++ select key k cs)

push_at-Grown :
    (o : Option ℕ) (c : Cpu) (m : Groups)
    → From 0 m
    → AllFilled m
    → From 0 (push_at o c m)
      × AllFilled (push_at o c m)
      × ((k : ℕ) → at k (push_at o c m) ≡ at k m ++ (if is_at o k then c ∷ [] else []))
unfolding push_at
push_at-Grown none c m f a = (f, a, λ k. sym (append-nil (at k m)))
push_at-Grown (some j) c m f a = (
  push_back-From 0 j c m f (omega arith),
  push_back-AllFilled j c m a,
  λ k. ground (arith, push_back-at 0 j k c m f, append-nil (at k m)),
)

select-cons :
    (key : Cpu → Option ℕ) (k : ℕ) (c : Cpu) (cs l : List Cpu)
    → (l ++ select key k (c ∷ [])) ++ select key k cs ≡ l ++ select key k (c ∷ cs)
select-cons key k c cs l = elim (Bool-cases (is_at (key c) k)) [
  | inl e ↦ rw e (append_assoc l (c ∷ []) (select key k cs))
  | inr e ↦ rw e (ap (λ x. x ++ select key k cs) (append-nil l))
]

partitions-Grown :
    (key : Cpu → Option ℕ) (cs : List Cpu) (m : Groups)
    → From 0 m
    → AllFilled m
    → Grown key cs m (partitions key cs m)
unfolding partitions
partitions-Grown key [] m f a = (f, a, λ k. sym (append-nil (at k m)))
partitions-Grown key (c ∷ cs) m f a =
    let (f', a', one) = push_at-Grown (key c) c m f a in
    let (f'', a'', rest) = partitions-Grown key cs (push_at (key c) c m) f' a' in
    (
      f'',
      a'',
      λ k. rest k ∙ ap (λ l. l ++ select key k cs) (one k) ∙ select-cons key k c cs (at k m),
    )

-- The map has each CPU that has a key, under this key and no other, in the order of the CPUs.
abbrev pub IsSplit : (Cpu → Option ℕ) → List Cpu → Groups → Type 0
IsSplit key cs m = From 0 m × AllFilled m × ((k : ℕ) → at k m ≡ select key k cs)

pub partitions-IsSplit :
    (key : Cpu → Option ℕ) (cs : List Cpu) → IsSplit key cs (partitions key cs [])
partitions-IsSplit key cs = partitions-Grown key cs [] tt tt

pub make_partitions-total :
    (d : CpuDevice) (props : List ℤ) (m : Groups)
    → AllFilled m
    → (ss : List CpuDevice) × (make_partitions d props m ≡ some ss)
      × (cpus_of ss ≡ map (λ g. g.1) m)
unfolding make_partitions
make_partitions-total d props [] a = ([], refl, refl)
make_partitions-total d props ((k, cs) ∷ m) a =
    let (s, made, has) = sub_device-total d props cs a.0 in
    let (ss, rest, have) = make_partitions-total d props m a.1 in (s ∷ ss, rw (made, rest) refl, cc)
