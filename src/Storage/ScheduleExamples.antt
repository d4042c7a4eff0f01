-- ===== src/Storage/ScheduleExamples.antt =====
-- Tests of the scheduler and of doAlloc at a node with two disks.
use resource_extend.Base.{
  refl, ℕ, String, ◌≡◌, ◌≤◌, ◌⊎◌, [], ◌∷◌, some, none, List, false, arith, length, All,
}
use resource_extend.Base.Int.{ℤ, pos, ltb_ℤ, quo, ◌*ℤ◌}
use resource_extend.Storage.Disk.{Rates, Disk, Disks, get_disk_by_device}
use resource_extend.Storage.Disk.Paths.{depth_of, get_disk_by_path}
use resource_extend.Storage.Disk.Paths.Deepest.{Covers, IsHeld, get_disk_by_path-deepest}
use resource_extend.Storage.Binding.{VolumeBinding, VolumeBindings}
use resource_extend.Storage.Node.{NodeResource}
use resource_extend.Storage.Workload.{WorkloadResource, WorkloadResourceRequest, validate}
use resource_extend.Storage.Workload.Matches.{HasLimits, Passes, validate-HasLimits}
use resource_extend.Storage.Schedule.Host.{Volume, Host, new_host}
use resource_extend.Storage.Schedule.Plans.{Share, get_mono_plan, get_normal_plan}
use resource_extend.Storage.Schedule.Plans.Sizes.{IsWhole, get_mono_plan-IsWhole}
use resource_extend.Storage.Schedule.Plans.Balance.{IsPaid, get_normal_plan-IsPaid}
use resource_extend.Storage.Schedule.Plans.Heap.{volumes_size}
use resource_extend.Storage.Schedule.Capacity.{
  get_volume_capacity, counts_of, Evaluated, evaluate_plans,
}
use resource_extend.Storage.Schedule.Capacity.Promote.{promote_one, promote}
use resource_extend.Storage.Schedule.Capacity.Enough.{IsDone, IsLeastSize, promote-IsDone}
use resource_extend.Storage.Schedule.Capacity.Allocate.{get_volume_plans}
use resource_extend.Storage.Schedule.Capacity.Agree.{get_volume_plans-length}
use resource_extend.Storage.Schedule.{classify_volume_bindings}
use resource_extend.Base.Dict.{lookup}
use resource_extend.Storage.Disk.Quota.{rates_of}
use resource_extend.Storage.Calculate.Realloc.{get_delta_workload_resource_args}
use resource_extend.Storage.Calculate.Delta.{LeadsTo, get_delta-LeadsTo}
use resource_extend.Storage.Calculate.Deploy.{node_capacity, do_alloc-node_deploy_capacity}
use resource_extend.Storage.Schedule.Capacity.Smallest.{Promotes, promote_one-Promotes}
use resource_extend.Storage.Schedule.Capacity.Sorted.{new_host-IsSortedBySize}
use resource_extend.Errors.{ok}
use resource_extend.Storage.Disk.Paths
use resource_extend.Storage.Schedule.Host
use resource_extend.Storage.Schedule.Host.{clone}
use resource_extend.Storage.Schedule.Capacity.{normal_plans_loop}
use resource_extend.Storage.Schedule.Plans.Lookups.{normal_plans_loop-get_disk_by_path}
use resource_extend.Storage.Calculate.{do_alloc}
use resource_extend.Storage.Calculate.{EngineParams}
use resource_extend.Storage.Workload.{WorkloadResource}
use resource_extend.Errors.{ok, err, insufficient_resource}
use resource_extend.Storage.Calculate.Exact.{AllocatesFor}
use resource_extend.Storage.Calculate.Granted.{
  HasStorage, AreGranted, plans_given, do_alloc-AreGranted,
}

abbrev rates_at : ℕ → Rates
rates_at n = record { read_iops = pos n; write_iops = pos n; read_bps = pos n; write_bps = pos n }

abbrev two_disks : Disks
two_disks =
    record { device = "/dev/sda"; mounts = "/data0" ∷ "/" ∷ []; rates = rates_at 100 }
    ∷ record { device = "/dev/sdb"; mounts = "/data0/deep" ∷ []; rates = rates_at 50 }
    ∷ []

abbrev node_total : NodeResource
node_total = record {
  volumes = ("/data0", pos 100) ∷ ("/data1", pos 60) ∷ ("/data2", pos 40) ∷ [];
  disks = two_disks;
  storage = pos 1000;
}

abbrev node_usage : NodeResource
node_usage = record { volumes = ("/data0", pos 30) ∷ []; disks = []; storage = pos 100 }

-- An exact share, in place of one in floats.
abbrev exact_share : Share
exact_share a b c = quo (a *ℤ c) b

abbrev asks : String → String → ℕ → ℕ → VolumeBinding
asks destination flags size n = record {
  source = "AUTO";
  destination = destination;
  flags = flags;
  size_in_bytes = pos size;
  rates = rates_at n;
}

abbrev mixed_requests : VolumeBindings
mixed_requests = asks "/a" "rw" 20 5 ∷ asks "/b" "rwm" 10 0 ∷ asks "/c" "rwm" 10 0 ∷ []

get_disk_by_path-deepest_example :
    ((i depth : ℕ) × (get_disk_by_path "/data0/deep/x" two_disks ≡ some i)
      × IsHeld "/data0/deep/x" two_disks i depth
      × All
          (λ (disk : Disk).
            All (λ mount. Covers "/data0/deep/x" mount → depth_of mount ≤ depth) disk.mounts)
          two_disks)
    ⊎ ((get_disk_by_path "/data0/deep/x" two_disks ≡ none)
        × All
            (λ (disk : Disk). All (λ mount. ¬ Covers "/data0/deep/x" mount) disk.mounts)
            two_disks)
get_disk_by_path-deepest_example = get_disk_by_path-deepest "/data0/deep/x" two_disks

abbrev two_host : Host
two_host = new_host node_total node_usage 2

two_host_limit : two_host.max_deploy_count ≤ 9223372036854775807
unfolding new_host
two_host_limit = omega arith

get_volume_plans-length_example :
    (length (get_volume_plans exact_share mixed_requests two_host).volume_plans
      ≡ get_volume_capacity exact_share mixed_requests two_host)
    × (length (get_volume_plans exact_share mixed_requests two_host).disk_plans
        ≡ get_volume_capacity exact_share mixed_requests two_host)
get_volume_plans-length_example =
    get_volume_plans-length exact_share mixed_requests two_host two_host_limit

abbrev evaluate_mixed : Host → Evaluated
evaluate_mixed = evaluate_plans exact_share (classify_volume_bindings mixed_requests) 3

abbrev one_normal : VolumeBindings
one_normal = asks "/a" "rw" 20 5 ∷ []

promote-IsDone_example :
    (size : ℤ) × IsLeastSize one_normal size
    × IsDone counts_of evaluate_mixed size two_host
        (promote counts_of evaluate_mixed one_normal two_host)
promote-IsDone_example =
    promote-IsDone counts_of evaluate_mixed one_normal two_host (tt, tt)
      (new_host-IsSortedBySize node_total node_usage 2)

abbrev free_volume : Volume
free_volume = record { device = "/data1"; size = pos 61 }

get_mono_plan-IsWhole_example :
    IsWhole (asks "/b" "rwm" 10 1 ∷ asks "/c" "rwm" 20 0 ∷ []) free_volume (
      (get_mono_plan exact_share
        (asks "/b" "rwm" 10 1 ∷ asks "/c" "rwm" 20 0 ∷ [])
        free_volume
        two_host).0)
get_mono_plan-IsWhole_example =
    get_mono_plan-IsWhole exact_share (asks "/b" "rwm" 10 1) (asks "/c" "rwm" 20 0 ∷ []) free_volume
      two_host (omega arith)

abbrev used_host : Host
used_host = record two_host {
  used_volumes = free_volume ∷ record { device = "/data2"; size = pos 15 } ∷ [];
}

get_normal_plan-IsPaid_example :
    IsPaid
      (volumes_size used_host.used_volumes)
      (get_normal_plan (asks "/a" "rw" 10 1 ∷ asks "/d" "rw" 20 0 ∷ []) used_host)
get_normal_plan-IsPaid_example =
    get_normal_plan-IsPaid (asks "/a" "rw" 10 1 ∷ asks "/d" "rw" 20 0 ∷ []) used_host (omega arith)
      (omega arith)

abbrev two_workloads : WorkloadResourceRequest
two_workloads = record {
  volumes_request = mixed_requests;
  volumes_limit = mixed_requests;
  storage_request = pos 200;
  storage_limit = pos 300;
  storage_folded = false;
}

do_alloc-AreGranted_example :
    (HasStorage node_total node_usage 2 (pos 200)
      → 2 ≤ get_volume_capacity exact_share mixed_requests (new_host node_total node_usage 2)
      → (given : List (EngineParams × WorkloadResource)) × (do_alloc exact_share node_total
            node_usage 2 two_workloads
          ≡ ok given)
        × (length given ≡ 2)
        × AreGranted node_total.disks two_workloads
            (plans_given exact_share node_total node_usage 2 two_workloads)
            given)
    × (¬ (
          HasStorage node_total node_usage 2 (pos 200)
          × (2 ≤ get_volume_capacity exact_share mixed_requests (new_host node_total node_usage 2)))
        → do_alloc exact_share node_total node_usage 2 two_workloads ≡ err insufficient_resource)
do_alloc-AreGranted_example =
    do_alloc-AreGranted exact_share node_total node_usage 2 two_workloads (omega arith)
      (omega arith) (omega arith)

validate-HasLimits_example : Passes HasLimits (validate two_workloads)
validate-HasLimits_example = validate-HasLimits two_workloads

do_alloc-node_deploy_capacity_example :
    AllocatesFor 2
      (ltb_ℤ (node_capacity exact_share node_total node_usage 2 two_workloads) (pos 2))
      (do_alloc exact_share node_total node_usage 2 two_workloads)
do_alloc-node_deploy_capacity_example =
    do_alloc-node_deploy_capacity exact_share node_total node_usage 2 two_workloads (omega arith)
      (omega arith)

abbrev workload_on : String → ℕ → ℕ → WorkloadResource
workload_on device size n = record {
  volumes_request = mixed_requests;
  volumes_limit = mixed_requests;
  volume_plan_request = (asks "/a" "rw" 20 5, (device, pos size) ∷ []) ∷ [];
  volume_plan_limit = [];
  storage_request = pos n;
  storage_limit = pos n;
  disks_request = record { device = "/dev/sda"; mounts = []; rates = rates_at n } ∷ [];
  disks_limit = [];
}

-- A workload moves from a volume to another, with more of it.
get_delta-LeadsTo_example :
    LeadsTo "/data1"
      (workload_on "/data0" 20 5)
      (get_delta_workload_resource_args (workload_on "/data0" 20 5) (workload_on "/data1" 30 7))
      (workload_on "/data1" 30 7)
get_delta-LeadsTo_example =
    unfold lookup get_disk_by_device rates_of in
    get_delta-LeadsTo "/data1" (workload_on "/data0" 20 5) (workload_on "/data1" 30 7)
      ((refl, tt), tt) ((refl, tt), tt) (refl, tt) (omega arith) (omega arith)

promote_one-Promotes_example : Promotes (pos 50) two_host (promote_one (pos 50) two_host)
promote_one-Promotes_example =
    promote_one-Promotes (pos 50) two_host (new_host-IsSortedBySize node_total node_usage 2)

abbrev mounted_request : VolumeBinding
mounted_request = record (asks "/m" "rw" 0 3) { source = "/data0/deep/x" }

normal_plans_loop-get_disk_by_path_example :
    ((Host.get_disk_by_path "/data0/deep/x"
        (normal_plans_loop
          (asks "/a" "rw" 10 1 ∷ [])
          (mounted_request ∷ [])
          3
          (clone used_host)).1).0
      ≡ ok (Paths.get_disk_by_path "/data0/deep/x" used_host.disks))
    × (Paths.get_disk_by_path "/data0/deep/x"
          (normal_plans_loop
            (asks "/a" "rw" 10 1 ∷ [])
            (mounted_request ∷ [])
            3
            (clone used_host)).1.disks
        ≡ Paths.get_disk_by_path "/data0/deep/x" used_host.disks)
normal_plans_loop-get_disk_by_path_example =
    normal_plans_loop-get_disk_by_path (asks "/a" "rw" 10 1 ∷ []) (mounted_request ∷ []) 3 used_host
      "/data0/deep/x"
