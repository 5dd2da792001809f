-- ===== src/Tests/Devices.antt =====
-- Devices of four CPUs on two nodes, and of two CPUs that share everything (lib/Device/CPU/CPUDevice.cpp).
use open_crun.Prelude.{
  ℕ, ◌/◌, ◌≡◌, refl, true, [], ◌∷◌, none, some, arith, has, ◌==◌, if◌then◌else◌,
}
use open_crun.Devices.{
  is_domain, Cpu, CpuDevice, equally, by_counts, by_affinity_domain, sub_device, type_of,
  push_counts, push_by_type, device_partition, to_unsigned, get_type, get_num_counts, get_counts,
  add_counts, get_total_compute_units, is_supported, supports_type, is_partition_supported,
}
use open_crun.Devices.Creating.{
  check_properties, check_by, check_counts, create_sub_devices, create_by, make_devices, next_cpus,
  sub_devices,
}
use open_crun.Devices.ByCounts.{Counted, counts_request, sub_devices-Counted}
use open_crun.Devices.Equally.{Equal, equal_request, sub_devices-Equal}
use open_crun.Devices.ByDomain.{Split, domain_request, sub_devices-Split}
use open_crun.Devices.StaleDomains.{Alike, sub_device-stale}

abbrev cpu : ℕ → Cpu
cpu n = record {
  id = n;
  numa_node = some (n / 2);
  cache = λ level. if level == 1 then some n else none;
}

-- NUMA nodes, first-level caches, and the next domain that can be partitioned.
abbrev quad : CpuDevice
quad = record {
  cpus = cpu 0 ∷ cpu 1 ∷ cpu 2 ∷ cpu 3 ∷ [];
  max_compute_units = 4;
  max_sub_devices = 4;
  partition_types = equally ∷ by_counts ∷ by_affinity_domain ∷ [];
  affinity_domains = 49;
  partition = none;
}

sub_devices-Counted_example :
    Counted quad
      (1 ∷ 3 ∷ [])
      4
      true
      (sub_devices (some quad) (some (counts_request (1 ∷ 3 ∷ []))) 4 true)
unfolding supports_type
sub_devices-Counted_example = sub_devices-Counted quad 1 (3 ∷ []) 4 true (omega arith) refl refl

-- The sum of these counts is 0 as an unsigned.
wrapped_counts :
    sub_devices (some quad) (some (counts_request (0x8000_0000 ∷ 0x8000_0000 ∷ []))) 4 true ≡ none
unfolding sub_devices check_properties check_by check_counts type_of device_partition push_by_type
    push_counts create_sub_devices is_partition_supported get_type supports_type is_supported
    get_num_counts get_total_compute_units add_counts get_counts to_unsigned create_by make_devices
    next_cpus
wrapped_counts = refl

sub_devices-Equal_example :
    Equal quad 2 4 true (sub_devices (some quad) (some (equal_request 2)) 4 true)
unfolding supports_type
sub_devices-Equal_example =
    sub_devices-Equal quad 2 4 true (omega arith) (omega arith) refl refl refl

sub_devices-Split_example :
    Split quad 32 4 true (sub_devices (some quad) (some (domain_request 32)) 4 true)
unfolding is_domain supports_type
sub_devices-Split_example = sub_devices-Split quad 32 4 true refl refl refl

abbrev twin : ℕ → Cpu
twin n = record { id = n; numa_node = some 0; cache = λ level. some 7 }

abbrev alike : Alike (twin 0 ∷ twin 1 ∷ [])
alike = record {
  node = some 0;
  caches = λ level. some 7;
  same_node = (refl, (refl, tt));
  same_caches = λ level. (refl, (refl, tt));
}

sub_device-stale_example :
    (s : CpuDevice) × (sub_device quad (domain_request 1) (twin 0 ∷ twin 1 ∷ []) ≡ some s)
    × (has s.affinity_domains 1 ≡ true)
sub_device-stale_example =
    sub_device-stale quad (domain_request 1) (twin 0 ∷ twin 1 ∷ []) 1 (omega arith) (omega arith)
      alike (omega arith) (omega arith) refl
