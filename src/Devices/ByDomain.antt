-- ===== src/Devices/ByDomain.antt =====
-- What clCreateSubDevices (tools/libOpenCRun/Device.cpp) gives for a partition by an affinity domain.
use open_crun.Prelude.{
  ℕ, ◌%◌, ◌<◌, ◌≡◌, refl, subst, ◌∙◌, Bool, true, false, ◌&&◌, List, [], ◌∷◌, map, Option, none,
  some, ℤ, pos, leb_ℤ, arith, ◌>>=◌, ◌==◌, ltb, has, All, if◌then◌else◌, Bool-cases, Option-cases,
  ◌⊎◌, inl, inr,
}
use open_crun.Builder.{success, invalid_value}
use open_crun.Devices.{
  Cpu, CpuDevice, by_affinity_domain, unsigned_mod, partition_by_affinity_domain, to_unsigned,
  push_by_type, type_of, device_partition, is_domain, domain_numa, domain_next, get_affinity_domain,
  is_supported, get_type, is_partition_supported, supports_type,
}
use open_crun.Devices.Creating.{
  check_two, check_domain, check_by, check_properties, first_of, compute_affinity_domain,
  get_cache_level, key_of, partitions, create_by, create_for, create_sub_devices, Reply, refused,
  hand_out, sub_devices,
}
use open_crun.Devices.Cuts.{cpus_of}
use open_crun.Devices.Groups.{Groups, IsSplit, partitions-IsSplit, make_partitions-total}

-- The properties of a partition by the domain `a`.
abbrev pub domain_request : ℕ → List ℤ
domain_request a = partition_by_affinity_domain ∷ pos a ∷ pos 0 ∷ []

abbrev HasKey : ℕ → Type 0
HasKey a = (key : Cpu → Option ℕ) × (key_of a ≡ some key)

first_of-HasKey :
    (supported a : ℕ) (l : List ℕ) → All HasKey l → first_of supported l ≡ some a → HasKey a
unfolding first_of
first_of-HasKey supported a [] h e = cc
first_of-HasKey supported a (b ∷ l) h e = elim (Bool-cases (has b supported)) [
  | inl is ↦ let same : b ≡ a = ground arith in subst HasKey same h.0
  | inr not_it ↦
      let rest : first_of supported l ≡ some a = ground arith in
      first_of-HasKey supported a l h.1 rest
]

domain_lt : (a : ℕ) → is_domain (pos a) ≡ true → (a < 33) × (0 < a)
unfolding is_domain
domain_lt a h = ground arith

domain-HasKey : (a : ℕ) → is_domain (pos a) ≡ true → (a == domain_next) ≡ false → HasKey a
unfolding is_domain key_of get_cache_level
domain-HasKey a h other = elim (Bool-cases (a == domain_numa)) [
  | inl one ↦ (λ c. c.numa_node, rw one refl)
  | inr e ↦ elim (Option-cases (get_cache_level a)) [
    | inl none_such ↦ absurd (ground arith)
    | inr (level, is) ↦ (λ c. c.cache level, rw (e, is) refl)
  ]
]

compute-HasKey :
    (supported a domain : ℕ)
    → is_domain (pos a) ≡ true
    → compute_affinity_domain supported a ≡ some domain
    → HasKey domain
unfolding compute_affinity_domain key_of get_cache_level
compute-HasKey supported a domain h e = elim (Bool-cases (a == domain_next)) [
  | inl next ↦
      let first : first_of supported (1 ∷ 2 ∷ 4 ∷ 8 ∷ 16 ∷ []) ≡ some domain = ground arith in
      first_of-HasKey supported domain (1 ∷ 2 ∷ 4 ∷ 8 ∷ 16 ∷ [])
        ((_, refl), ((_, refl), ((_, refl), ((_, refl), ((_, refl), tt))))) first
  | inr other ↦ let same : a ≡ domain = ground arith in subst HasKey same (domain-HasKey a h other)
]

module _ (d : CpuDevice) (a : ℕ) (h : is_domain (pos a) ≡ true) where
  get_affinity_domain-request : get_affinity_domain (domain_request a) ≡ some a
  unfolding get_affinity_domain to_unsigned
  get_affinity_domain-request =
      let small : a % unsigned_mod ≡ a = ground (arith, domain_lt a h) in rw (h, small) refl

  is_partition_supported-domain :
      supports_type by_affinity_domain d.partition_types ≡ true
      → is_partition_supported d (domain_request a) ≡ some (has d.affinity_domains a)
  unfolding is_partition_supported get_type type_of is_supported
  is_partition_supported-domain able = rw (able, get_affinity_domain-request) refl

  create_sub_devices-domain :
      supports_type by_affinity_domain d.partition_types ≡ true
      → create_sub_devices d (domain_request a) ≡ (
          if has d.affinity_domains a
          then create_by d (domain_request a) by_affinity_domain
          else some none)
  unfolding create_sub_devices get_type type_of
  create_sub_devices-domain able = rw (is_partition_supported-domain able) refl

  check_properties-domain : check_properties (domain_request a) ≡ some success
  unfolding check_properties check_by check_two check_domain type_of
  check_properties-domain =
      let positive : leb_ℤ (pos a) (pos 0) ≡ false = ground (arith, domain_lt a h) in
      rw (positive, h) refl

  device_partition-domain : device_partition (domain_request a) ≡ some (domain_request a)
  unfolding device_partition push_by_type type_of
  device_partition-domain = refl

  sub_devices-domain :
      (n : ℕ) (has_out : Bool)
      → (has_out && ltb n 1) ≡ false
      → sub_devices (some d) (some (domain_request a)) n has_out
        ≡ (do ss ← create_sub_devices d (domain_request a); some (hand_out n has_out ss))
  unfolding sub_devices
  sub_devices-domain n has_out room =
      rw (room, check_properties-domain, device_partition-domain) refl

  create_by-domain :
      create_by d (domain_request a) by_affinity_domain
      ≡ create_for d (domain_request a) (compute_affinity_domain d.affinity_domains a)
  unfolding create_by
  create_by-domain = rw get_affinity_domain-request refl

-- A list of groups of CPUs is that of a node or cache: each CPU that has one is in its group, and the
-- groups are in the order of their addresses.
abbrev pub IsDomainSplit : CpuDevice → ℕ → List CpuDevice → Type 0
IsDomainSplit d domain ss =
    (key : Cpu → Option ℕ) × (key_of domain ≡ some key)
    × (m : Groups) × IsSplit key d.cpus m
    × (cpus_of ss ≡ map (λ g. g.1) m)

create_for-IsDomainSplit :
    (d : CpuDevice) (props : List ℤ) (domain : ℕ)
    → HasKey domain
    → (ss : List CpuDevice) × (create_for d props (some domain) ≡ some (some ss))
      × IsDomainSplit d domain ss
unfolding create_for
create_for-IsDomainSplit d props domain (key, has_key) =
    let split = partitions-IsSplit key d.cpus in
    let (ss, made, have) = make_partitions-total d props (partitions key d.cpus []) split.1 in
    (ss, rw (has_key, made) refl, (key, has_key, partitions key d.cpus [], split, have))

-- What clCreateSubDevices does with a domain: sub-devices for the nodes or caches of the domain that
-- is chosen, or a refusal.
abbrev pub Split : CpuDevice → ℕ → ℕ → Bool → Option Reply → Type 0
Split d a n has_out r =
    ((domain : ℕ) × (has d.affinity_domains a ≡ true)
      × (compute_affinity_domain d.affinity_domains a ≡ some domain)
      × (ss : List CpuDevice) × IsDomainSplit d domain ss
      × (r ≡ some (hand_out n has_out (some ss))))
    ⊎ (((has d.affinity_domains a ≡ false) ⊎ (compute_affinity_domain d.affinity_domains a ≡ none))
        × (r ≡ some (refused invalid_value)))

-- On a device that can be partitioned by affinity domains, clCreateSubDevices with a domain, and
-- room for a device if it is to hand them out, makes one sub-device for each NUMA node or cache of
-- the domain that is chosen: the CPUs of the device with this node or cache, in their order, and
-- the sub-devices in the order of the addresses. It refuses with CL_INVALID_VALUE exactly if the
-- device does not support the domain or has none to choose.
pub sub_devices-Split :
    (d : CpuDevice) (a n : ℕ) (has_out : Bool)
    → is_domain (pos a) ≡ true
    → supports_type by_affinity_domain d.partition_types ≡ true
    → (has_out && ltb n 1) ≡ false
    → Split d a n has_out (sub_devices (some d) (some (domain_request a)) n has_out)
unfolding hand_out create_for
sub_devices-Split d a n has_out h able room =
    let called = sub_devices-domain d a h n has_out room in
    let made = create_sub_devices-domain d a h able in
    let by = create_by-domain d a h in
    elim (Bool-cases (has d.affinity_domains a)) [
      | inr lacks ↦ inr (inl lacks, called ∙ rw (made, lacks) refl)
      | inl is ↦ elim (Option-cases (compute_affinity_domain d.affinity_domains a)) [
        | inl e ↦ inr (inr e, called ∙ rw (made, is, by, e) refl)
        | inr (domain, e) ↦
            let (ss, made_all, split) =
              create_for-IsDomainSplit d (domain_request a) domain
                (compute-HasKey d.affinity_domains a domain h e) in
            inl (domain, is, e, ss, split, called ∙ rw (made, is, by, e, made_all) refl)
      ]
    ]
