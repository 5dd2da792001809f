-- ===== src/Devices/Creating.antt =====
-- CPUDevice::createSubDevices (lib/Device/CPU/CPUDevice.cpp) and clCreateSubDevices
-- (tools/libOpenCRun/Device.cpp).
use open_crun.Prelude.{
  ℕ, zero, suc, ◌/◌, ◌%◌, Bool, not, ◌&&◌, List, [], ◌∷◌, ◌++◌, Option, none, some, if◌then◌else◌,
  ◌==◌, ltb, has, length, get_elem?, ℤ, pos, ltb_ℤ, leb_ℤ, eq_ℤ, ◌>>=◌, ◌>>◌, assert,
}
use mathlib.Core.Option
use open_crun.Builder.{
  ErrorCode, success, invalid_value, invalid_device, invalid_device_partition_count,
}
use open_crun.Devices.{
  Cpu, PartitionType, equally, by_counts, by_affinity_domain, unsigned_mod, domain_numa,
  domain_next, type_of, get_type, device_partition, get_num_compute_units, get_counts, is_domain,
  get_affinity_domain, CpuDevice, sub_device, is_partition_supported,
}

-- The next `n` CPUs, and those behind them.
unfoldable pub next_cpus : ℕ → List Cpu → Option (List Cpu × List Cpu)
next_cpus zero cs = some ([], cs)
next_cpus (suc n) [] = none
next_cpus (suc n) (c ∷ cs) = do (taken, rest) ← next_cpus n cs; some (c ∷ taken, rest)

-- A sub-device for each count, in the order of the CPUs.
unfoldable pub make_devices : CpuDevice → List ℤ → List ℕ → List Cpu → Option (List CpuDevice)
unfolding next_cpus
make_devices d props [] cs = some []
make_devices d props (n ∷ ns) cs = do
  (taken, rest) ← next_cpus n cs
  s ← sub_device d props taken
  ss ← make_devices d props ns rest
  some (s ∷ ss)

unfoldable pub replicate : ℕ → ℕ → List ℕ
replicate zero n = []
replicate (suc k) n = n ∷ replicate k n

-- The static computeAffinityDomain, with the domain that it may replace.
unfoldable pub first_of : ℕ → List ℕ → Option ℕ
first_of supported [] = none
first_of supported (a ∷ rest) = if has a supported then some a else first_of supported rest

unfoldable pub compute_affinity_domain : ℕ → ℕ → Option ℕ
unfolding first_of
compute_affinity_domain supported a =
    if not (a == domain_next)
    then (if has a supported then some a else none)
    else first_of supported (1 ∷ 2 ∷ 4 ∷ 8 ∷ 16 ∷ [])

unfoldable pub get_cache_level : ℕ → Option ℕ
get_cache_level a =
    if a == 16
    then some 1
    else if a == 8
    then some 2
    else if a == 4
    then some 3
    else if a == 2
    then some 4
    else none

-- Partitions[Key].push_back(C), in a map that is sorted by its keys.
unfoldable pub push_back : ℕ → Cpu → List (ℕ × List Cpu) → List (ℕ × List Cpu)
push_back k c [] = (k, c ∷ []) ∷ []
push_back k c ((j, cs) ∷ m) =
    if ltb k j
    then (k, c ∷ []) ∷ (j, cs) ∷ m
    else if k == j
    then (j, cs ++ c ∷ []) ∷ m
    else (j, cs) ∷ push_back k c m

-- A CPU with no such node or cache is in no partition.
unfoldable pub push_at : Option ℕ → Cpu → List (ℕ × List Cpu) → List (ℕ × List Cpu)
push_at none c m = m
push_at (some k) c m = push_back k c m

unfoldable pub partitions : (Cpu → Option ℕ) → List Cpu → List (ℕ × List Cpu) → List (ℕ × List Cpu)
unfolding push_at push_back
partitions key [] m = m
partitions key (c ∷ cs) m = partitions key cs (push_at (key c) c m)

unfoldable pub key_of : ℕ → Option (Cpu → Option ℕ)
unfolding get_cache_level
key_of a =
    if a == domain_numa
    then some (λ c. c.numa_node)
    else (do level ← get_cache_level a; some (λ c. c.cache level))

unfoldable pub make_partitions : CpuDevice → List ℤ → List (ℕ × List Cpu) → Option (List CpuDevice)
make_partitions d props [] = some []
make_partitions d props ((k, cs) ∷ m) = do
  s ← sub_device d props cs
  ss ← make_partitions d props m
  some (s ∷ ss)

-- A sub-device for each partition by a domain; `some none` is the result false.
unfoldable pub create_for : CpuDevice → List ℤ → Option ℕ → Option (Option (List CpuDevice))
unfolding make_partitions partitions key_of
create_for d props none = some none
create_for d props (some domain) = do
  key ← key_of domain
  ss ← make_partitions d props (partitions key d.cpus [])
  some (some ss)

unfoldable pub create_by : CpuDevice → List ℤ → PartitionType → Option (Option (List CpuDevice))
unfolding create_for compute_affinity_domain make_devices replicate
create_by d props by_affinity_domain = do
  a ← get_affinity_domain props
  create_for d props (compute_affinity_domain d.affinity_domains a)
create_by d props equally = do
  n ← get_num_compute_units props
  assert (not (n == 0))
  let groups = length d.cpus / n % unsigned_mod
  assert (ltb 0 groups)
  ss ← make_devices d props (replicate groups n) d.cpus
  some (some ss)
create_by d props by_counts = do ss ← make_devices d props (get_counts props) d.cpus; some (some ss)

unfoldable pub create_sub_devices : CpuDevice → List ℤ → Option (Option (List CpuDevice))
unfolding create_by
create_sub_devices d props = do
  ok ← is_partition_supported d props
  t ← get_type props
  if ok then create_by d props t else some none

-- The checks of clCreateSubDevices on the properties behind the first.
unfoldable pub check_counts : List ℤ → Option ErrorCode
check_counts [] = none
check_counts (p ∷ ps) =
    let rest = check_counts ps in
    let last =
      Option.map (λ q. if eq_ℤ q (pos 0) then success else invalid_value) (get_elem? ps 0) in
    if eq_ℤ p (pos 0)
    then last
    else if ltb_ℤ p (pos 0)
    then some invalid_device_partition_count
    else rest

unfoldable pub check_two : List ℤ → Option ErrorCode
check_two ps = do
  p ← get_elem? ps 0
  if leb_ℤ p (pos 0)
      then some invalid_value
      else Option.map (λ q. if eq_ℤ q (pos 0) then success else invalid_value) (get_elem? ps 1)

unfoldable pub check_domain : List ℤ → ErrorCode → Option ErrorCode
check_domain ps success = do
  p ← get_elem? ps 0
  some (if is_domain p then success else invalid_value)
check_domain ps e = some e

unfoldable pub check_by : Option PartitionType → List ℤ → Option ErrorCode
unfolding check_counts check_two check_domain
check_by none ps = some invalid_value
check_by (some equally) ps = check_two ps
check_by (some by_counts) ps = check_counts ps
check_by (some by_affinity_domain) ps = do check_domain ps (← check_two ps)

unfoldable pub check_properties : List ℤ → Option ErrorCode
unfolding check_by
check_properties [] = none
check_properties (p ∷ ps) = check_by (type_of p) ps

-- The error code, what is written to num_devices_ret, and the devices that are handed out.
pub record Reply : Type 0 where
  pub code : ErrorCode
  pub count : Option ℕ
  pub devices : List CpuDevice

abbrev pub refused : ErrorCode → Reply
refused e = record { code = e; count = none; devices = [] }

unfoldable pub hand_out : ℕ → Bool → Option (List CpuDevice) → Reply
hand_out num_devices has_out none = refused invalid_value
hand_out num_devices has_out (some ss) = record {
  code = if has_out && ltb num_devices (length ss) then invalid_value else success;
  count = some (length ss);
  devices = if has_out && not (ltb num_devices (length ss)) then ss else [];
}

abbrev checked : CpuDevice → List ℤ → ℕ → Bool → ErrorCode → Option Reply
checked d ps num_devices has_out success = do
  part ← device_partition ps
  ss ← create_sub_devices d part
  some (hand_out num_devices has_out ss)
checked d ps num_devices has_out e = some (refused e)

-- `has_out` tells whether out_devices is not null.
unfoldable pub sub_devices : Option CpuDevice → Option (List ℤ) → ℕ → Bool → Option Reply
unfolding check_properties create_sub_devices hand_out
sub_devices none properties num_devices has_out = some (refused invalid_device)
sub_devices (some d) none num_devices has_out = some (refused invalid_value)
sub_devices (some d) (some ps) num_devices has_out =
    if has_out && ltb num_devices 1
    then some (refused invalid_value)
    else (do checked d ps num_devices has_out (← check_properties ps))
