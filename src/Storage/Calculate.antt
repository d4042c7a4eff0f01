-- ===== src/Storage/Calculate.antt =====
-- doAlloc of storage/calculate.go with storage/utils.go: what a number of workloads get of a node.
-- The node's record is its capacity and usage, which a valid record has both.
pub mod Exact
pub mod Limits
pub mod Granted
pub mod Realloc
pub mod Delta
pub mod Deploy
use Prim.Native.String.{String, ◌++◌}
use resource_extend.Base.{
  ℕ, zero, suc, Bool, true, false, not, ◌&&◌, ltb, List, [], ◌∷◌, Option, none, some, if◌then◌else◌,
  length, get_elem?, replicate,
}
use resource_extend.Base.Int.{ℤ, pos, ltb_ℤ, quo}
use resource_extend.Base.Word.{add64, sub64, wrap}
use resource_extend.Base.Dict.{Dict, insert, ◌=s◌}
use resource_extend.Errors.{Error, other, insufficient_resource, Result, ok, err, ◌>>=◌}
use resource_extend.Storage.Volumes
use resource_extend.Storage.Volumes.{Volumes, get_device, get_size}
use resource_extend.Storage.Disk
use resource_extend.Storage.Disk.{Disk, Disks, zero_rates}
use resource_extend.Storage.Disk.Paths.{get_disk_by_path}
use resource_extend.Storage.Binding.{
  VolumeBinding, VolumeBindings, VolumePlan, require_schedule, require_iops, disk_quota,
  need_schedule, apply_plan, find_by_key,
}
use resource_extend.Storage.Binding.Text.{decimal, to_string}
use resource_extend.Storage.Node.{NodeResource}
use resource_extend.Storage.Workload.{WorkloadResource, WorkloadResourceRequest}
use resource_extend.Storage.Schedule.Plans.{Share}
use resource_extend.Storage.Schedule.Capacity.{Plans}
use resource_extend.Storage.Schedule.Entry

pub record EngineParams : Type 0 where
  pub volumes : List String
  pub volume_changed : Bool
  pub storage : ℤ
  pub iops_options : Dict String

unfoldable pub to_iops_options : Disks → Dict String → Dict String
unfolding decimal
to_iops_options [] options = options
to_iops_options (disk ∷ disks) options =
    let text =
      decimal disk.read_iops
      ++ ":"
      ++ decimal disk.write_iops
      ++ ":"
      ++ decimal disk.read_bps
      ++ ":"
      ++ decimal disk.write_bps in
    to_iops_options disks (insert disk.device text options)

unfoldable pub limit_entry :
    VolumeBinding → Volumes → Option VolumeBinding → VolumePlan → Result VolumePlan
limit_entry binding vm none rest = err (other "index out of range")
limit_entry binding vm (some request) rest = ok (
    (
      binding,
      (get_device vm, sub64 (add64 (get_size vm) binding.size_in_bytes) request.size_in_bytes) ∷ [],
    )
    ∷ rest)

unfoldable pub limit_loop : VolumeBindings → ℕ → VolumeBindings → VolumePlan → Result VolumePlan
unfolding find_by_key limit_entry
limit_loop requests index [] plan = ok []
limit_loop requests index (binding ∷ limits) plan =
    limit_loop requests (suc index) limits plan >>= λ rest.
    if not (require_schedule binding) then ok rest else elim (find_by_key binding none plan) [
      | none ↦ ok rest
      | some vm ↦ limit_entry binding vm (get_elem? requests index) rest
    ]

unfoldable pub get_volume_plan_limit :
    VolumeBindings → VolumeBindings → VolumePlan → Result VolumePlan
unfolding limit_loop
get_volume_plan_limit volume_request volume_limit volume_plan =
    limit_loop volume_request 0 volume_limit volume_plan

-- `if disk := disks.GetDiskByPath(path); disk != nil` and the quota that is added.
unfoldable pub add_quota_at : String → VolumeBinding → Disks → Disks → Disks
add_quota_at path binding disks disks_limit = elim (get_disk_by_path path disks) [
  | none ↦ disks_limit
  | some i ↦ elim (get_elem? disks i) [
    | none ↦ disks_limit
    | some disk ↦ Disk.add disks_limit (disk_quota binding disk ∷ [])
  ]
]

unfoldable pub limit_of_mounts : Disks → VolumeBindings → Disks → Disks
unfolding add_quota_at
limit_of_mounts disks [] disks_limit = disks_limit
limit_of_mounts disks (binding ∷ bindings) disks_limit = limit_of_mounts disks bindings (
    if require_iops binding && not (require_schedule binding)
    then add_quota_at binding.source binding disks disks_limit
    else disks_limit)

unfoldable pub limit_of_plan : Disks → VolumePlan → Disks → Disks
unfolding add_quota_at
limit_of_plan disks [] disks_limit = disks_limit
limit_of_plan disks ((binding, vm) ∷ plan) disks_limit = limit_of_plan disks plan (
    if require_iops binding
    then add_quota_at (get_device vm) binding disks disks_limit
    else disks_limit)

unfoldable pub get_disks_limit : VolumeBindings → VolumePlan → Disks → Disks
unfolding limit_of_mounts limit_of_plan
get_disks_limit volume_limit volume_plan_limit disks =
    limit_of_plan disks volume_plan_limit (limit_of_mounts disks volume_limit [])

unfoldable pub texts : VolumeBindings → List String
unfolding to_string
texts [] = []
texts (binding ∷ bindings) = to_string true binding ∷ texts bindings

-- One round of the loop over the plans.
unfoldable pub alloc_one :
    Disks → WorkloadResourceRequest → VolumePlan → Disks → Result (EngineParams × WorkloadResource)
unfolding get_volume_plan_limit get_disks_limit to_iops_options apply_plan texts
alloc_one disks req plan disk_plan =
    get_volume_plan_limit req.volumes_request req.volumes_limit plan >>= λ plan_limit.
    let disks_limit = get_disks_limit req.volumes_limit plan_limit disks in
    ok (
      record {
        volumes = texts (apply_plan plan req.volumes_limit);
        volume_changed = false;
        storage = req.storage_limit;
        iops_options = to_iops_options disks_limit [];
      },
      record {
        volumes_request = req.volumes_request;
        volumes_limit = req.volumes_limit;
        volume_plan_request = plan;
        volume_plan_limit = plan_limit;
        storage_request = req.storage_request;
        storage_limit = req.storage_limit;
        disks_request = disk_plan;
        disks_limit = disks_limit;
      },
    )

unfoldable pub alloc_loop :
    Disks
    → WorkloadResourceRequest
    → List VolumePlan
    → List Disks
    → Result (List (EngineParams × WorkloadResource))
unfolding alloc_one
alloc_loop disks req [] disk_plans = ok []
alloc_loop disks req (plan ∷ plans) [] = err (other "index out of range")
alloc_loop disks req (plan ∷ plans) (disk_plan ∷ disk_plans) =
    alloc_one disks req plan disk_plan >>= λ first.
    alloc_loop disks req plans disk_plans >>= λ rest. ok (first ∷ rest)

-- `storageCapacity < deployCount`, where storage is asked for.
unfoldable pub lacks_storage : NodeResource → NodeResource → ℕ → WorkloadResourceRequest → Bool
lacks_storage capacity usage deploy_count req =
    ltb_ℤ (pos 0) req.storage_request
    && ltb_ℤ (quo (sub64 capacity.storage usage.storage) req.storage_request) (pos deploy_count)

-- `if len(volumePlans) < deployCount`
unfoldable pub if_enough : ℕ → Plans → Result Plans
if_enough deploy_count plans =
    if ltb (length plans.volume_plans) deploy_count then err insufficient_resource else ok plans

-- By whether the requests need a schedule.
unfoldable pub choose_plans : Bool → ℕ → Plans → Result Plans
unfolding if_enough
choose_plans false deploy_count plans =
    ok (record { volume_plans = replicate deploy_count []; disk_plans = replicate deploy_count [] })
choose_plans true deploy_count plans = if_enough deploy_count plans

unfoldable pub plans_for : Share → NodeResource → NodeResource → ℕ → VolumeBindings → Result Plans
unfolding choose_plans
plans_for share capacity usage deploy_count requests =
    choose_plans (need_schedule requests) deploy_count
      (Entry.get_volume_plans share capacity usage requests deploy_count)

unfoldable pub do_alloc :
    Share
    → NodeResource
    → NodeResource
    → ℕ
    → WorkloadResourceRequest
    → Result (List (EngineParams × WorkloadResource))
unfolding lacks_storage plans_for alloc_loop
do_alloc share capacity usage deploy_count req =
    if lacks_storage capacity usage deploy_count req
    then err insufficient_resource
    else (plans_for share capacity usage deploy_count req.volumes_request >>= λ plans.
        alloc_loop capacity.disks req plans.volume_plans plans.disk_plans)
