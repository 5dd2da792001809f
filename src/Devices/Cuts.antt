-- ===== src/Devices/Cuts.antt =====
-- The loops that cut the CPUs of a device into sub-devices by counts (lib/Device/CPU/CPUDevice.cpp).
use open_crun.Prelude.{
  ℕ, zero, suc, ◌+◌, ◌-◌, ◌≤◌, ◌<◌, ◌≡◌, refl, List, [], ◌∷◌, map, none, some, length, take, drop,
  ℤ, arith, ◌==◌, All, Bool-cases, Option-cases, ltb, inl, inr, false,
}
use open_crun.Devices.{Cpu, CpuDevice, sub_device, init_sub_device_info, initialized}
use open_crun.Devices.Creating.{next_cpus, make_devices}

abbrev pub sum : List ℕ → ℕ
sum [] = 0
sum (n ∷ ns) = n + sum ns

-- Consecutive parts of a list, of these lengths.
abbrev pub cuts : List ℕ → List Cpu → List (List Cpu)
cuts [] cs = []
cuts (n ∷ ns) cs = take n cs ∷ cuts ns (drop n cs)

abbrev pub cpus_of : List CpuDevice → List (List Cpu)
cpus_of = map (λ d. d.cpus)

length-drop : (n : ℕ) (cs : List Cpu) → length (drop n cs) ≡ length cs - n
length-drop zero cs = omega arith
length-drop (suc n) [] = omega arith
length-drop (suc n) (c ∷ cs) = omega (arith, length-drop n cs)

length-take : (n : ℕ) (cs : List Cpu) → n ≤ length cs → length (take n cs) ≡ n
length-take zero cs h = refl
length-take (suc n) [] h = absurd (omega arith)
length-take (suc n) (c ∷ cs) h = omega (arith, length-take n cs (omega arith))

next_cpus-some :
    (n : ℕ) (cs : List Cpu) → n ≤ length cs → next_cpus n cs ≡ some (take n cs, drop n cs)
unfolding next_cpus
next_cpus-some zero cs h = refl
next_cpus-some (suc n) [] h = absurd (omega arith)
next_cpus-some (suc n) (c ∷ cs) h = rw (next_cpus-some n cs (omega arith)) refl

next_cpus-none : (n : ℕ) (cs : List Cpu) → length cs < n → next_cpus n cs ≡ none
unfolding next_cpus
next_cpus-none zero cs h = absurd (omega arith)
next_cpus-none (suc n) [] h = refl
next_cpus-none (suc n) (c ∷ cs) h = rw (next_cpus-none n cs (omega arith)) refl

initialized-cpus : (d : CpuDevice) → (initialized d).cpus ≡ d.cpus
unfolding initialized
initialized-cpus d = refl

-- A sub-device of at least one CPU is made.
pub sub_device-total :
    (d : CpuDevice) (props : List ℤ) (cs : List Cpu)
    → 0 < length cs
    → (s : CpuDevice) × (sub_device d props cs ≡ some s) × (s.cpus ≡ cs)
unfolding sub_device init_sub_device_info
sub_device-total d props cs h =
    let s : CpuDevice = record d { cpus = cs; partition = some props } in
    let some_cpus : (length cs == 0) ≡ false = ground arith in
    (initialized s, rw some_cpus refl, initialized-cpus s)

pub make_devices-total :
    (d : CpuDevice) (props : List ℤ) (ns : List ℕ) (cs : List Cpu)
    → All (λ n. 0 < n) ns
    → sum ns ≤ length cs
    → (ss : List CpuDevice) × (make_devices d props ns cs ≡ some ss) × (cpus_of ss ≡ cuts ns cs)
unfolding make_devices
make_devices-total d props [] cs pos h = ([], refl, refl)
make_devices-total d props (n ∷ ns) cs pos h =
    let (s, made, has) = sub_device-total d props (take n cs) (omega (arith, length-take n cs)) in
    let (ss, rest, have) =
      make_devices-total d props ns (drop n cs) pos.1 (omega (arith, length-drop n cs)) in
    (s ∷ ss, rw (next_cpus-some n cs (omega arith), made, rest) refl, cc)

-- Too few CPUs: the loop reads behind their end.
pub make_devices-none :
    (d : CpuDevice) (props : List ℤ) (ns : List ℕ) (cs : List Cpu)
    → length cs < sum ns
    → make_devices d props ns cs ≡ none
unfolding make_devices
make_devices-none d props [] cs h = absurd (omega arith)
make_devices-none d props (n ∷ ns) cs h = elim (Bool-cases (ltb (length cs) n)) [
  | inl short ↦ rw (next_cpus-none n cs (ground arith)) refl
  | inr enough ↦
      let more : n ≤ length cs = ground arith in
      let rest = make_devices-none d props ns (drop n cs) (omega (arith, length-drop n cs)) in
      elim (Option-cases (sub_device d props (take n cs))) [
        | inl e ↦ rw (next_cpus-some n cs more, e) refl
        | inr (s, e) ↦ rw (next_cpus-some n cs more, e, rest) refl
      ]
]
