-- ===== src/Devices/StaleDomains.antt =====
-- The affinity domains of a sub-device: InitSubDeviceInfo (lib/Device/CPU/CPUDevice.cpp) adds to what
-- the constructor copied from the parent (lib/Core/Device.cpp).
use open_crun.Prelude.{
  ℕ, zero, suc, has, ◌&&◌, ◌%◌, ◌≤◌, ◌<◌, ◌≡◌, refl, ◌∙◌, Bool, true, false, List, [], ◌∷◌, Option,
  none, some, length, ℤ, arith, ◌==◌, ltb, All, if◌then◌else◌,
}
use open_crun.Devices.{
  Cpu, CpuDevice, unsigned_mod, insert_once, collect, add_domain, add_next, is_power_of_2,
  find_domains, initialized, init_sub_device_info, sub_device,
}

abbrev AllAt : (Cpu → Option ℕ) → Option ℕ → List Cpu → Type 0
AllAt key o cs = All (λ c. key c ≡ o) cs

collect-none :
    (key : Cpu → Option ℕ) (cs : List Cpu) (l : List ℕ) → AllAt key none cs → collect key cs l ≡ l
unfolding collect
collect-none key [] l a = refl
collect-none key (c ∷ cs) l a = rw a.0 (collect-none key cs l a.1)

collect-some :
    (key : Cpu → Option ℕ) (k : ℕ) (cs : List Cpu)
    → AllAt key (some k) cs
    → collect key cs (k ∷ []) ≡ k ∷ []
unfolding collect insert_once
collect-some key k [] a = refl
collect-some key k (c ∷ cs) a =
    let same : (k == k) ≡ true = ground arith in rw (a.0, same) (collect-some key k cs a.1)

length-collect-le :
    (key : Cpu → Option ℕ) (o : Option ℕ) (cs : List Cpu)
    → AllAt key o cs
    → length (collect key cs []) ≤ 1
unfolding collect insert_once
length-collect-le key none cs a = rw (collect-none key cs [] a) (omega arith)
length-collect-le key (some k) [] a = omega arith
length-collect-le key (some k) (c ∷ cs) a = rw (a.0, collect-some key k cs a.1) (omega arith)

add_domain-same :
    (key : Cpu → Option ℕ) (o : Option ℕ) (domain : ℕ) (cs : List Cpu) (domains : ℕ)
    → AllAt key o cs
    → add_domain key domain cs domains ≡ domains
unfolding add_domain
add_domain-same key o domain cs domains a =
    let few = length-collect-le key o cs a in
    let one : ltb 1 (length (collect key cs [])) ≡ false = ground arith in rw one refl

-- CPUs that share their node and their caches, if they have any.
pub record Alike (cs : List Cpu) : Type 0 where
  pub node : Option ℕ
  pub caches : ℕ → Option ℕ
  pub same_node : All (λ c. c.numa_node ≡ node) cs
  pub same_caches : (level : ℕ) → All (λ c. c.cache level ≡ caches level) cs

find_domains-Alike :
    (cs : List Cpu) (domains : ℕ) → Alike cs → find_domains cs domains ≡ add_next domains
unfolding find_domains
find_domains-Alike cs domains a =
    rw
      (
        add_domain-same (λ c. c.numa_node) a.node 1 cs domains a.same_node,
        add_domain-same (λ c. c.cache 1) (a.caches 1) 16 cs domains (a.same_caches 1),
        add_domain-same (λ c. c.cache 2) (a.caches 2) 8 cs domains (a.same_caches 2),
        add_domain-same (λ c. c.cache 3) (a.caches 3) 4 cs domains (a.same_caches 3),
        add_domain-same (λ c. c.cache 4) (a.caches 4) 2 cs domains (a.same_caches 4),
      )
      refl

each_below : ℕ → (ℕ → Bool) → Bool
each_below zero p = true
each_below (suc n) p = p n && each_below n p

each_below_sound : (n : ℕ) (p : ℕ → Bool) (x : ℕ) → each_below n p ≡ true → x < n → p x ≡ true
unfolding each_below
each_below_sound zero p x h lt = absurd (omega arith)
each_below_sound (suc n) p x h lt = ground (arith, each_below_sound n p x)

-- The masks of domains have six bits. add_next drops none.
abbrev keeps : ℕ → ℕ → Bool
keeps domains a = if has domains a then has (add_next domains) a else true

keeps_table : each_below 64 (λ domains. each_below 64 (keeps domains)) ≡ true
unfolding each_below add_next is_power_of_2
keeps_table = refl

add_next-keeps :
    (domains a : ℕ) → domains < 64 → a < 64 → has domains a ≡ true → has (add_next domains) a ≡ true
add_next-keeps domains a small low is =
    let row = each_below_sound 64 (λ x. each_below 64 (keeps x)) domains keeps_table small in
    let entry = each_below_sound 64 (keeps domains) a row low in ground arith

initialized-domains :
    (d : CpuDevice)
    → 1 < length d.cpus
    → length d.cpus < unsigned_mod
    → (initialized d).affinity_domains ≡ find_domains d.cpus d.affinity_domains
unfolding initialized
initialized-domains d many small =
    let units : (length d.cpus % unsigned_mod == 1) ≡ false = ground arith in rw units refl

-- Where the masks of affinity domains have the six bits of OpenCL, a sub-device of two CPUs or
-- more, and fewer than 2^32, that share their NUMA node and each of their caches, is made and still
-- supports every domain that its parent supports.
pub sub_device-stale :
    (d : CpuDevice) (props : List ℤ) (cs : List Cpu) (a : ℕ)
    → 1 < length cs
    → length cs < unsigned_mod
    → Alike cs
    → d.affinity_domains < 64
    → a < 64
    → has d.affinity_domains a ≡ true
    → (s : CpuDevice) × (sub_device d props cs ≡ some s) × (has s.affinity_domains a ≡ true)
unfolding sub_device init_sub_device_info
sub_device-stale d props cs a many small alike few low is =
    let s : CpuDevice = record d { cpus = cs; partition = some props } in
    let some_cpus : (length cs == 0) ≡ false = ground arith in
    let domains =
      initialized-domains s many small ∙ find_domains-Alike cs d.affinity_domains alike in
    (initialized s, rw some_cpus refl, rw domains (add_next-keeps d.affinity_domains a few low is))
