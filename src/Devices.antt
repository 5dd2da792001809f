-- ===== src/Devices.antt =====
-- Partitions of a CPU device into sub-devices: DeviceInfo::DevicePartition (lib/Core/Device.cpp), the
-- methods of CPUDevice (lib/Device/CPU/CPUDevice.cpp) and clCreateSubDevices
-- (tools/libOpenCRun/Device.cpp). A read behind the end of the properties or of the CPUs, a failed
-- assertion, llvm_unreachable and a division by zero are none. What a CPU answers on its NUMA node and
-- its caches is given; a node or a cache is named by its address.
pub mod Creating
pub mod Cuts
pub mod ByCounts
pub mod Equally
pub mod Groups
pub mod ByDomain
pub mod StaleDomains
use open_crun.Prelude.{
  ℕ, zero, suc, ◌+◌, ◌-◌, ◌/◌, ◌%◌, ◌≡◌, Bool, true, false, not, ◌&&◌, ◌||◌, List, [], ◌∷◌, ◌++◌,
  map, Option, none, some, if◌then◌else◌, ◌==◌, ltb, has, bit_and, bit_or, length, take, drop,
  get_elem?, ℤ, pos, negsuc, ltb_ℤ, leb_ℤ, eq_ℤ, ◌>>=◌, ◌>>◌, assert,
}
use mathlib.Core.Option
use open_crun.Builder.{
  ErrorCode, success, invalid_value, invalid_device, invalid_device_partition_count,
}

-- sys::HardwareCPU, of which only GetNUMANode and GetCache are asked.
pub record Cpu : Type 0 where
  pub id : ℕ
  pub numa_node : Option ℕ
  pub cache : ℕ → Option ℕ

pub data PartitionType : Type 0 where
  equally by_counts by_affinity_domain : PartitionType

abbrev pub unsigned_mod : ℕ
unsigned_mod = 4294967296

-- static_cast<unsigned> of an intptr_t
unfoldable pub to_unsigned : ℤ → ℕ
to_unsigned (pos n) = n % unsigned_mod
to_unsigned (negsuc n) = unsigned_mod - 1 - n % unsigned_mod

abbrev pub same_type : PartitionType → PartitionType → Bool
same_type equally equally = true
same_type by_counts by_counts = true
same_type by_affinity_domain by_affinity_domain = true
same_type _ _ = false

-- The values of CL/cl.h
abbrev pub partition_equally : ℤ
partition_equally = pos 0x1086

abbrev pub partition_by_counts : ℤ
partition_by_counts = pos 0x1087

abbrev pub partition_by_affinity_domain : ℤ
partition_by_affinity_domain = pos 0x1088

abbrev pub domain_numa : ℕ
domain_numa = 1

abbrev pub domain_next : ℕ
domain_next = 32

unfoldable pub type_of : ℤ → Option PartitionType
type_of p =
    if eq_ℤ p partition_by_affinity_domain
    then some by_affinity_domain
    else if eq_ℤ p partition_by_counts
    then some by_counts
    else if eq_ℤ p partition_equally
    then some equally
    else none

-- DevicePartition::getType
unfoldable pub get_type : List ℤ → Option PartitionType
unfolding type_of
get_type props = do type_of (← get_elem? props 0)

-- The counts, the end of their list and the property behind it.
unfoldable pub push_counts : List ℤ → Option (List ℤ)
push_counts [] = none
push_counts (p ∷ ps) =
    let rest = Option.map (λ qs. p ∷ qs) (push_counts ps) in
    if eq_ℤ p (pos 0) then Option.map (λ q. p ∷ q ∷ []) (get_elem? ps 0) else rest

unfoldable pub push_by_type : PartitionType → ℤ → List ℤ → Option (List ℤ)
unfolding push_counts
push_by_type by_counts p ps = do some (p ∷ (← push_counts ps))
push_by_type _ p ps = do a ← get_elem? ps 0; b ← get_elem? ps 1; some (p ∷ a ∷ b ∷ [])

-- DevicePartition::DevicePartition of properties that are not null
unfoldable pub device_partition : List ℤ → Option (List ℤ)
unfolding push_by_type type_of
device_partition [] = none
device_partition (p ∷ ps) = do push_by_type (← type_of p) p ps

unfoldable pub get_num_compute_units : List ℤ → Option ℕ
unfolding to_unsigned
get_num_compute_units props = Option.map to_unsigned (get_elem? props 1)

unfoldable pub get_num_counts : List ℤ → Option ℕ
get_num_counts props = if ltb 3 (length props) then some (length props - 3) else none

-- getCount of each index below getNumCounts
unfoldable pub get_counts : List ℤ → List ℕ
unfolding to_unsigned
get_counts props = map to_unsigned (take (length props - 3) (drop 1 props))

unfoldable pub add_counts : List ℕ → ℕ → ℕ
add_counts [] sum = sum
add_counts (c ∷ cs) sum = add_counts cs ((sum + c) % unsigned_mod)

unfoldable pub get_total_compute_units : List ℤ → ℕ
unfolding add_counts get_counts
get_total_compute_units props = add_counts (get_counts props) 0

-- The enumerators of DeviceInfo::PartitionAffinity are the bits from 1 to 32.
unfoldable pub is_domain : ℤ → Bool
is_domain p =
    eq_ℤ p (pos 1)
    || eq_ℤ p (pos 16)
    || eq_ℤ p (pos 8)
    || eq_ℤ p (pos 4)
    || eq_ℤ p (pos 2)
    || eq_ℤ p (pos domain_next)

unfoldable pub get_affinity_domain : List ℤ → Option ℕ
unfolding is_domain to_unsigned
get_affinity_domain props = do p ← get_elem? props 1; assert (is_domain p); some (to_unsigned p)

-- A device has its partition if it is a sub-device.
pub record CpuDevice : Type 0 where
  pub cpus : List Cpu
  pub max_compute_units : ℕ
  pub max_sub_devices : ℕ
  pub partition_types : List PartitionType
  pub affinity_domains : ℕ
  pub partition : Option (List ℤ)

-- InitSubDeviceInfo: the nodes and caches of the CPUs, each once.
unfoldable pub insert_once : ℕ → List ℕ → List ℕ
insert_once k [] = k ∷ []
insert_once k (j ∷ js) = if j == k then j ∷ js else j ∷ insert_once k js

unfoldable pub collect : (Cpu → Option ℕ) → List Cpu → List ℕ → List ℕ
unfolding insert_once
collect key [] seen = seen
collect key (c ∷ cs) seen =
    collect key cs (elim (key c) [ none ↦ seen | some k ↦ insert_once k seen ])

unfoldable pub add_domain : (Cpu → Option ℕ) → ℕ → List Cpu → ℕ → ℕ
unfolding collect
add_domain key domain cpus domains =
    if ltb 1 (length (collect key cpus [])) then bit_or domains domain else domains

-- llvm::isPowerOf2_32
unfoldable pub is_power_of_2 : ℕ → Bool
is_power_of_2 n = not (n == 0) && bit_and n (n - 1) == 0

unfoldable pub add_next : ℕ → ℕ
unfolding is_power_of_2
add_next domains =
    if not (is_power_of_2 domains) && not (domains == 0)
    then bit_or domains domain_next
    else domains

unfoldable pub find_domains : List Cpu → ℕ → ℕ
unfolding add_domain add_next
find_domains cpus domains = add_next (
    add_domain (λ c. c.cache 4) 2 cpus
      (add_domain (λ c. c.cache 3) 4 cpus
        (add_domain (λ c. c.cache 2) 8 cpus
          (add_domain (λ c. c.cache 1) 16 cpus
            (add_domain (λ c. c.numa_node) domain_numa cpus domains)))))

unfoldable pub types_for : ℕ → List PartitionType
types_for domains = equally ∷ by_counts ∷ (if domains == 0 then [] else by_affinity_domain ∷ [])

unfoldable pub initialized : CpuDevice → CpuDevice
unfolding find_domains types_for
initialized d =
    let units = length d.cpus % unsigned_mod in
    let domains = if units == 1 then 0 else find_domains d.cpus d.affinity_domains in
    record d {
      max_compute_units = units;
      max_sub_devices = units;
      partition_types = if units == 1 then [] else types_for domains;
      affinity_domains = domains;
    }

unfoldable pub init_sub_device_info : CpuDevice → Option CpuDevice
init_sub_device_info d = do assert (not (length d.cpus == 0)); some (initialized d)

-- The constructor of a sub-device: DeviceInfo is copied from its parent.
unfoldable pub sub_device : CpuDevice → List ℤ → List Cpu → Option CpuDevice
unfolding init_sub_device_info
sub_device parent props cpus =
    init_sub_device_info (record parent { cpus = cpus; partition = some props })

unfoldable pub supports_type : PartitionType → List PartitionType → Bool
supports_type t [] = false
supports_type t (s ∷ ss) = same_type t s || supports_type t ss

unfoldable pub is_supported : CpuDevice → List ℤ → PartitionType → Option Bool
unfolding get_affinity_domain get_num_counts get_total_compute_units get_num_compute_units
is_supported d props by_affinity_domain = do
  a ← get_affinity_domain props
  some (has d.affinity_domains a)
is_supported d props by_counts = do
  n ← get_num_counts props
  some (not (ltb d.max_sub_devices n || ltb d.max_compute_units (get_total_compute_units props)))
is_supported d props equally = do
  n ← get_num_compute_units props
  some (not (ltb d.max_compute_units n))

-- CPUDevice::isPartitionSupported
unfoldable pub is_partition_supported : CpuDevice → List ℤ → Option Bool
unfolding supports_type is_supported get_type
is_partition_supported d props = do
  t ← get_type props
  if supports_type t d.partition_types then is_supported d props t else some false
