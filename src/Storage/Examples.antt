-- ===== src/Storage/Examples.antt =====
-- Tests of the storage types at concrete resources.
use resource_extend.Base.{ℕ, String, ◌≡◌, refl, [], ◌∷◌, none, some, true, false, arith, ◌↔◌}
use resource_extend.Base.Int.{pos, negsuc, ◌≤ℤ◌}
use resource_extend.Errors.{ok}
use resource_extend.Base.Dict.{lookup, count_of, IsMap, or_zero}
use resource_extend.Storage.Volumes
use resource_extend.Storage.Volumes.{total}
use resource_extend.Storage.Disk
use resource_extend.Storage.Disk.{Rates, Disks, zero_rates, add_rates, get_disk_by_device}
use resource_extend.Storage.Disk.Quota.{IsDistinct, rates_of, rates_of-sub-add}
use resource_extend.Storage.Node.{
  NodeResource, NodeResourceInfo, NodeResourceRequest, calculate_node_resource, validate,
}
use resource_extend.Storage.Node.Update.{FitsAt, calculate_node_resource-incr_decr}
use resource_extend.Storage.Node.Valid.{IsWithin, validate-IsWithin}
use resource_extend.Storage.Binding.{VolumeBinding, VolumeBindings}
use resource_extend.Storage.Schedule.{quota_headroom, classify_volume_bindings}
use resource_extend.Storage.Schedule.Quota.{passes, quota_headroom-passes}
use resource_extend.Storage.Schedule.Classes.{
  count_all, count_if, AreSplit, IsSortedBySize, classify_volume_bindings-count,
  classify_volume_bindings-AreSplit,
}

abbrev old_volumes : Volumes.Volumes
old_volumes = ("/data0", pos 100) ∷ ("/data1", pos 50) ∷ []

abbrev more_volumes : Volumes.Volumes
more_volumes = ("/data1", pos 25) ∷ ("/data2", pos 5) ∷ []

more_volumes-IsMap : IsMap more_volumes
more_volumes-IsMap = unfold lookup in (refl, (refl, tt))

abbrev rates_at : ℕ → Rates
rates_at n = record { read_iops = pos n; write_iops = pos n; read_bps = pos n; write_bps = pos n }

abbrev disk_at : String → ℕ → Disk.Disk
disk_at device n = record { device = device; mounts = "/mnt" ∷ []; rates = rates_at n }

abbrev old_disks : Disks
old_disks = disk_at "/dev/sda" 100 ∷ disk_at "/dev/sdb" 200 ∷ []

abbrev more_disks : Disks
more_disks = disk_at "/dev/sdb" 7 ∷ disk_at "/dev/sdc" 9 ∷ []

more_disks-IsDistinct : IsDistinct more_disks
more_disks-IsDistinct = unfold get_disk_by_device in (refl, (refl, tt))

rates_of-sub-add_example :
    rates_of "/dev/sdb" (Disk.sub (Disk.add old_disks more_disks) more_disks)
    ≡ rates_of "/dev/sdb" old_disks
unfolding rates_of get_disk_by_device
rates_of-sub-add_example =
    rates_of-sub-add "/dev/sdb" old_disks more_disks more_disks-IsDistinct
      (omega arith, omega arith, omega arith, omega arith)
      (omega arith, omega arith, omega arith, omega arith)

abbrev old_resource : NodeResource
old_resource = record { volumes = old_volumes; disks = old_disks; storage = pos 1000 }

abbrev more_request : NodeResourceRequest
more_request = record {
  volumes = more_volumes;
  storage = pos 30;
  disks = more_disks;
  rm_disks = [];
  is_set = λ name. true;
}

old_resource-FitsAt : FitsAt "/data1" old_resource
unfolding rates_of get_disk_by_device count_of lookup or_zero
old_resource-FitsAt = record {
  size = omega arith;
  storage = omega arith;
  rates = (omega arith, omega arith, omega arith, omega arith);
}

calculate_node_resource-incr_decr_example :
    let more = calculate_node_resource (some more_request) none (some old_resource) [] true true in
    let back = calculate_node_resource (some more_request) none (some more) [] true false in
    (count_of "/data1" back.volumes ≡ count_of "/data1" old_resource.volumes)
    × (back.storage ≡ old_resource.storage)
    × (rates_of "/data1" back.disks ≡ rates_of "/data1" old_resource.disks)
calculate_node_resource-incr_decr_example =
    calculate_node_resource-incr_decr "/data1" more_request none old_resource []
      (record { volumes_map = more_volumes-IsMap; disks_distinct = more_disks-IsDistinct })
      old_resource-FitsAt
      (unfold rates_of get_disk_by_device in (omega arith, omega arith, omega arith, omega arith))

abbrev given_info : NodeResourceInfo
given_info = record {
  capacity = some (record {
    volumes = ("/data0", pos 100) ∷ [];
    disks = disk_at "/dev/sda" 50 ∷ [];
    storage = pos 1000;
  });
  usage = some (record {
    volumes = ("/data0", pos 40) ∷ [];
    disks = disk_at "/dev/sda" 20 ∷ [];
    storage = pos 0;
  });
}

validate-IsWithin_example :
    (capacity usage : NodeResource) × (given_info.capacity ≡ some capacity)
    × (given_info.usage ≡ some usage)
    × IsWithin capacity usage
unfolding lookup
validate-IsWithin_example =
    validate-IsWithin given_info given_info (unfold validate get_disk_by_device in refl)

abbrev two_quota : VolumeBinding
two_quota = record {
  source = "/mnt/a";
  destination = "/a";
  flags = "rw";
  size_in_bytes = pos 0;
  rates = record { read_iops = pos 30; write_iops = pos 0; read_bps = pos 7; write_bps = pos 0 };
}

quota_headroom-passes_example :
    (pos 3 ≤ℤ quota_headroom (disk_at "/dev/sda" 100) two_quota)
    ↔ (passes 3 (disk_at "/dev/sda" 100) two_quota ≡ true)
quota_headroom-passes_example =
    quota_headroom-passes 3 (disk_at "/dev/sda" 100) two_quota (omega arith) (omega arith)
      (omega arith, omega arith, omega arith, omega arith)
      (omega arith, omega arith, omega arith, omega arith)
      (omega arith, omega arith, omega arith, omega arith)

abbrev binding_of : String → String → ℕ → VolumeBinding
binding_of source flags n = record {
  source = source;
  destination = "/d";
  flags = flags;
  size_in_bytes = pos n;
  rates = zero_rates;
}

abbrev four_bindings : VolumeBindings
four_bindings =
    binding_of "AUTO" "rw" 9
    ∷ binding_of "AUTO" "rwm" 4
    ∷ binding_of "/a" "rw" 1
    ∷ binding_of "AUTO" "rw" 2
    ∷ []

classify_volume_bindings-count_example :
    count_all (λ b. true) (classify_volume_bindings four_bindings)
    ≡ count_if (λ b. true) four_bindings
classify_volume_bindings-count_example = classify_volume_bindings-count (λ b. true) four_bindings

classify_volume_bindings-AreSplit_example :
    let c = classify_volume_bindings four_bindings in
    AreSplit c × IsSortedBySize c.normal × IsSortedBySize c.mono
classify_volume_bindings-AreSplit_example = classify_volume_bindings-AreSplit four_bindings

-- A volume that the capacity lacks, and a storage above the capacity, pass `Validate`.
abbrev loose_info : NodeResourceInfo
loose_info = record {
  capacity = some (record { volumes = []; disks = []; storage = pos 0 });
  usage = some (record { volumes = ("/x", negsuc 4) ∷ []; disks = []; storage = pos 1000 });
}

loose_lem : validate loose_info ≡ ok loose_info
unfolding validate
loose_lem = refl
