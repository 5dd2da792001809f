-- ===== src/Devices/ByCounts.antt =====
-- What clCreateSubDevices (tools/libOpenCRun/Device.cpp) gives for a partition by counts.
use open_crun.Prelude.{
  ℕ, suc, ◌+◌, ◌-◌, ◌%◌, ◌≤◌, ◌<◌, ◌≡◌, refl, ◌∙◌, Bool, true, false, not, ◌&&◌, ◌||◌, List, [],
  ◌∷◌, map, Option, none, some, length, take, ℤ, pos, arith, ◌>>=◌, ltb, All, if◌then◌else◌,
  Bool-cases, ◌⊎◌, inl, inr,
}
use open_crun.Builder.{success, invalid_value}
use open_crun.Devices.{
  CpuDevice, by_counts, unsigned_mod, partition_by_counts, to_unsigned, push_counts, push_by_type,
  type_of, device_partition, get_num_counts, get_counts, add_counts, get_total_compute_units,
  is_supported, get_type, is_partition_supported, supports_type,
}
use open_crun.Devices.Creating.{
  check_counts, check_by, check_properties, create_by, create_sub_devices, make_devices, Reply,
  refused, hand_out, sub_devices,
}
use open_crun.Devices.Cuts.{sum, cuts, cpus_of, make_devices-total, make_devices-none}

abbrev counted : List ℕ → List ℤ
counted [] = pos 0 ∷ pos 0 ∷ []
counted (c ∷ cs) = pos c ∷ counted cs

-- The properties of a partition by these counts.
abbrev pub counts_request : List ℕ → List ℤ
counts_request cs = partition_by_counts ∷ counted cs

-- A count that is not 0 and fits in an unsigned.
abbrev pub IsCount : ℕ → Type 0
IsCount c = (0 < c) × (c < unsigned_mod)

check_counts-counted : (cs : List ℕ) → All IsCount cs → check_counts (counted cs) ≡ some success
unfolding check_counts
check_counts-counted [] h = refl
check_counts-counted (c ∷ cs) h = ground (arith, check_counts-counted cs)

push_counts-counted : (cs : List ℕ) → All IsCount cs → push_counts (counted cs) ≡ some (counted cs)
unfolding push_counts
push_counts-counted [] h = refl
push_counts-counted (c ∷ cs) h = ground (arith, push_counts-counted cs)

length-counted : (cs : List ℕ) → length (counted cs) ≡ length cs + 2
length-counted [] = omega arith
length-counted (c ∷ cs) = omega (arith, length-counted cs)

take-counted : (cs : List ℕ) → All IsCount cs → map to_unsigned (take (length cs) (counted cs)) ≡ cs
unfolding to_unsigned
take-counted [] h = refl
take-counted (c ∷ cs) h = ground (arith, take-counted cs)

get_counts-request : (cs : List ℕ) → All IsCount cs → get_counts (counts_request cs) ≡ cs
unfolding get_counts
get_counts-request cs h =
    let n : suc (length (counted cs)) - 3 ≡ length cs = omega (arith, length-counted cs) in
    rw n (take-counted cs h)

add_counts-sum :
    (cs : List ℕ) (s : ℕ) → s < unsigned_mod → add_counts cs s ≡ (s + sum cs) % unsigned_mod
unfolding add_counts
add_counts-sum [] s h = omega arith
add_counts-sum (c ∷ cs) s h = omega (arith, add_counts-sum cs ((s + c) % unsigned_mod))

device_partition-request :
    (cs : List ℕ) → All IsCount cs → device_partition (counts_request cs) ≡ some (counts_request cs)
unfolding device_partition push_by_type type_of
device_partition-request cs h = rw (push_counts-counted cs h) refl

-- The number of counts and their sum, as an unsigned, are within the device's limits.
abbrev pub within : CpuDevice → List ℕ → Bool
within d cs =
    not (ltb d.max_sub_devices (length cs) || ltb d.max_compute_units (sum cs % unsigned_mod))

module _ (d : CpuDevice) (c : ℕ) (cs : List ℕ) (h : All IsCount (c ∷ cs)) where
  get_num_counts-request : get_num_counts (counts_request (c ∷ cs)) ≡ some (length (c ∷ cs))
  unfolding get_num_counts
  get_num_counts-request = let n = length-counted cs in ground arith

  get_total-request :
      get_total_compute_units (counts_request (c ∷ cs)) ≡ sum (c ∷ cs) % unsigned_mod
  unfolding get_total_compute_units
  get_total-request = rw (get_counts-request (c ∷ cs) h) (omega (arith, add_counts-sum (c ∷ cs) 0))

  is_partition_supported-request :
      supports_type by_counts d.partition_types ≡ true
      → is_partition_supported d (counts_request (c ∷ cs)) ≡ some (within d (c ∷ cs))
  unfolding is_partition_supported get_type type_of is_supported
  is_partition_supported-request able = rw (able, get_num_counts-request, get_total-request) refl

  create_sub_devices-request :
      supports_type by_counts d.partition_types ≡ true
      → create_sub_devices d (counts_request (c ∷ cs)) ≡ (
          if within d (c ∷ cs)
          then (do ss ← make_devices d (counts_request (c ∷ cs)) (c ∷ cs) d.cpus; some (some ss))
          else some none)
  unfolding create_sub_devices create_by get_type type_of
  create_sub_devices-request able =
      rw (is_partition_supported-request able, get_counts-request (c ∷ cs) h) refl

  check_properties-request : check_properties (counts_request (c ∷ cs)) ≡ some success
  unfolding check_properties check_by type_of
  check_properties-request = check_counts-counted (c ∷ cs) h

  -- The call, when the checks are passed and the partition is read.
  sub_devices-request :
      (n : ℕ) (has_out : Bool)
      → (has_out && ltb n 1) ≡ false
      → sub_devices (some d) (some (counts_request (c ∷ cs))) n has_out
        ≡ (do ss ← create_sub_devices d (counts_request (c ∷ cs)); some (hand_out n has_out ss))
  unfolding sub_devices
  sub_devices-request n has_out room =
      rw (room, check_properties-request, device_partition-request (c ∷ cs) h) refl

All-positive : (cs : List ℕ) → All IsCount cs → All (λ n. 0 < n) cs
All-positive [] h = tt
All-positive (c ∷ cs) h = (h.0.0, All-positive cs h.1)

-- What clCreateSubDevices does with counts: sub-devices with these CPUs, a refusal, or a read behind
-- the end of the CPUs.
abbrev pub Counted : CpuDevice → List ℕ → ℕ → Bool → Option Reply → Type 0
Counted d cs n has_out r =
    ((within d cs ≡ true)
      × (sum cs ≤ length d.cpus)
      × (ss : List CpuDevice) × (cpus_of ss ≡ cuts cs d.cpus)
      × (r ≡ some (hand_out n has_out (some ss))))
    ⊎ ((within d cs ≡ false) × (r ≡ some (refused invalid_value)))
    ⊎ ((within d cs ≡ true) × (length d.cpus < sum cs) × (r ≡ none))

-- On a device that can be partitioned by counts, clCreateSubDevices with one count or more, each
-- between 1 and 2^32 - 1, and room for a device if it is to hand them out, refuses with
-- CL_INVALID_VALUE if the counts are more than the device allows or their sum as an unsigned
-- exceeds its compute units; otherwise it makes sub-devices with consecutive CPUs of the device, as
-- many as the counts say, and reports them, if the sum is at most the number of CPUs, and reads
-- behind the end of the CPUs if it is larger.
pub sub_devices-Counted :
    (d : CpuDevice) (c : ℕ) (cs : List ℕ) (n : ℕ) (has_out : Bool)
    → All IsCount (c ∷ cs)
    → supports_type by_counts d.partition_types ≡ true
    → (has_out && ltb n 1) ≡ false
    → Counted d (c ∷ cs) n has_out (sub_devices (some d) (some (counts_request (c ∷ cs))) n has_out)
unfolding hand_out
sub_devices-Counted d c cs n has_out h able room =
    let all = c ∷ cs in
    let asked = counts_request all in
    let called = sub_devices-request d c cs h n has_out room in
    let made = create_sub_devices-request d c cs h able in
    elim (Bool-cases (within d all)) [
      | inr e ↦ inr (inl (e, called ∙ rw (made, e) refl))
      | inl e ↦ elim (Bool-cases (ltb (length d.cpus) (sum all))) [
        | inl short ↦
            let behind = make_devices-none d asked all d.cpus (ground arith) in
            inr (inr (e, ground arith, called ∙ rw (made, e, behind) refl))
        | inr enough ↦
            let (ss, cut, have) =
              make_devices-total d asked all d.cpus (All-positive all h) (ground arith) in
            inl (e, ground arith, ss, have, called ∙ rw (made, e, cut) refl)
      ]
    ]
