-- ===== src/Devices/Equally.antt =====
-- What clCreateSubDevices (tools/libOpenCRun/Device.cpp) gives for a partition into equal parts.
use open_crun.Prelude.{
  ℕ, zero, suc, ◌*◌, ◌/◌, ◌%◌, ◌≤◌, ◌<◌, ◌≡◌, refl, ◌∙◌, Bool, true, false, not, ◌&&◌, List, [],
  ◌∷◌, Option, none, some, length, ℤ, pos, arith, ◌>>=◌, ◌>>◌, assert, ◌==◌, ltb, All,
  if◌then◌else◌, Bool-cases, ◌⊎◌, inl, inr,
}
use open_crun.Builder.{success, invalid_value}
use open_crun.Devices.{
  CpuDevice, equally, unsigned_mod, partition_equally, to_unsigned, push_by_type, type_of,
  device_partition, get_num_compute_units, is_supported, get_type, is_partition_supported,
  supports_type,
}
use open_crun.Devices.Creating.{
  check_two, check_by, check_properties, create_by, create_sub_devices, make_devices, replicate,
  Reply, refused, hand_out, sub_devices,
}
use open_crun.Devices.Cuts.{sum, cuts, cpus_of, make_devices-total}

-- The properties of a partition into parts of `p` CPUs.
abbrev pub equal_request : ℕ → List ℤ
equal_request p = partition_equally ∷ pos p ∷ pos 0 ∷ []

sum-replicate : (k n : ℕ) → sum (replicate k n) ≡ k * n
unfolding replicate
sum-replicate zero n = grind arith
sum-replicate (suc k) n = grind (arith, sum-replicate k n)

replicate-All : (k n : ℕ) → 0 < n → All (λ m. 0 < m) (replicate k n)
unfolding replicate
replicate-All zero n h = tt
replicate-All (suc k) n h = (h, replicate-All k n h)

module _ (d : CpuDevice) (p : ℕ) where
  abbrev pub units : ℕ
  units = p % unsigned_mod

  is_partition_supported-equal :
      supports_type equally d.partition_types ≡ true
      → is_partition_supported d (equal_request p) ≡ some (not (ltb d.max_compute_units units))
  unfolding is_partition_supported get_type type_of is_supported get_num_compute_units to_unsigned
  is_partition_supported-equal able = rw able refl

  create_sub_devices-equal :
      supports_type equally d.partition_types ≡ true
      → create_sub_devices d (equal_request p) ≡ (
          if not (ltb d.max_compute_units units)
          then create_by d (equal_request p) equally
          else some none)
  unfolding create_sub_devices get_type type_of
  create_sub_devices-equal able = rw (is_partition_supported-equal able) refl

  create_by-equal :
      (groups : ℕ)
      → groups ≡ length d.cpus / units % unsigned_mod
      → create_by d (equal_request p) equally ≡ (do
        assert (not (units == 0))
        assert (ltb 0 groups)
        ss ← make_devices d (equal_request p) (replicate groups units) d.cpus
        some (some ss))
  unfolding create_by get_num_compute_units to_unsigned
  create_by-equal groups e = rw e refl

  check_properties-equal : 0 < p → check_properties (equal_request p) ≡ some success
  unfolding check_properties check_by check_two type_of
  check_properties-equal h = ground arith

  device_partition-equal : device_partition (equal_request p) ≡ some (equal_request p)
  unfolding device_partition push_by_type type_of
  device_partition-equal = refl

  sub_devices-equal :
      (n : ℕ) (has_out : Bool)
      → 0 < p
      → (has_out && ltb n 1) ≡ false
      → sub_devices (some d) (some (equal_request p)) n has_out
        ≡ (do ss ← create_sub_devices d (equal_request p); some (hand_out n has_out ss))
  unfolding sub_devices
  sub_devices-equal n has_out h room =
      rw (room, check_properties-equal h, device_partition-equal) refl

div_bounds : (l n : ℕ) → 0 < n → n ≤ l → (0 < l / n) × (l / n * n ≤ l) × (l / n ≤ l)
div_bounds l n h le = grind arith

-- What clCreateSubDevices does with a number of CPUs: as many sub-devices of so many CPUs as there is
-- room for, a refusal, or, where the number is 0 as an unsigned, a division by zero.
abbrev pub Equal : CpuDevice → ℕ → ℕ → Bool → Option Reply → Type 0
Equal d p n has_out r =
    ((0 < units d p)
      × (units d p ≤ length d.cpus)
      × (ss : List CpuDevice) × (cpus_of ss
          ≡ cuts (replicate (length d.cpus / units d p) (units d p)) d.cpus)
      × (r ≡ some (hand_out n has_out (some ss))))
    ⊎ ((length d.cpus < units d p) × (r ≡ some (refused invalid_value)))
    ⊎ ((units d p ≡ 0) × (r ≡ none))

-- On a device with fewer than 2^32 CPUs, one compute unit for each, that can be partitioned
-- equally, clCreateSubDevices with a positive number of CPUs, and room for a device if it is to
-- hand them out, makes as many sub-devices with this number as an unsigned of consecutive CPUs as
-- there is room for; it refuses with CL_INVALID_VALUE if the number exceeds the CPUs, and divides
-- by zero if it is 0 as an unsigned.
pub sub_devices-Equal :
    (d : CpuDevice) (p n : ℕ) (has_out : Bool)
    → 0 < p
    → length d.cpus < unsigned_mod
    → d.max_compute_units ≡ length d.cpus
    → supports_type equally d.partition_types ≡ true
    → (has_out && ltb n 1) ≡ false
    → Equal d p n has_out (sub_devices (some d) (some (equal_request p)) n has_out)
unfolding hand_out
sub_devices-Equal d p n has_out h small whole able room =
    let called = sub_devices-equal d p n has_out h room in
    let made = create_sub_devices-equal d p able in
    elim (Bool-cases (ltb d.max_compute_units (units d p))) [
      | inl many ↦
          let over : length d.cpus < units d p = ground arith in
          inr (inl (over, called ∙ rw (made, many) refl))
      | inr few ↦ elim (Bool-cases (units d p == 0)) [
        | inl nil ↦
            let by = create_by-equal d p _ refl in
            inr (inr (ground arith, called ∙ rw (made, few, by, nil) refl))
        | inr given ↦
            let fits : units d p ≤ length d.cpus = ground arith in
            let positive : 0 < units d p = ground arith in
            let (some_group, inside, fewer) =
              div_bounds (length d.cpus) (units d p) positive fits in
            let groups = length d.cpus / units d p in
            let by = create_by-equal d p groups (omega arith) in
            let (ss, cut, have) =
              make_devices-total d (equal_request p) (replicate groups (units d p)) d.cpus
                (replicate-All groups (units d p) positive)
                (omega (arith, sum-replicate groups (units d p))) in
            let one : ltb 0 groups ≡ true = ground arith in
            inl (positive, fits, ss, have, called ∙ rw (made, few, by, given, one, cut) refl)
      ]
    ]
