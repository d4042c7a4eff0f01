-- ===== src/Storage/Calculate/Realloc.antt =====
-- CalculateRealloc of storage/calculate.go for a decoded request, and the delta of storage/utils.go.
use resource_extend.Base.{Bool, true, false, not, ◌||◌, ◌==◌, [], ◌∷◌, if◌then◌else◌, length}
use resource_extend.Base.Int.{pos, ltb_ℤ}
use resource_extend.Base.Word.{add64, sub64}
use resource_extend.Errors.{Result, ok, err, insufficient_resource, ◌>>=◌}
use resource_extend.Storage.Volumes
use resource_extend.Storage.Volumes.{Volumes}
use resource_extend.Storage.Disk
use resource_extend.Storage.Disk.{Disks, zero_rates}
use resource_extend.Storage.Binding.{
  VolumeBinding, VolumeBindings, VolumePlan, apply_plan, merge_volume_bindings, need_schedule,
  same_key, total_size,
}
use resource_extend.Storage.Node.{NodeResource}
use resource_extend.Storage.Workload.{WorkloadResource, WorkloadResourceRequest, validate}
use resource_extend.Storage.Schedule.Plans.{Share}
use resource_extend.Storage.Schedule.Entry
use resource_extend.Storage.Calculate.{
  EngineParams, get_disks_limit, get_volume_plan_limit, texts, to_iops_options,
}

unfoldable pub add_volumes : Volumes → VolumePlan → Volumes
add_volumes volumes [] = volumes
add_volumes volumes ((req, vm) ∷ plan) = add_volumes (Volumes.add volumes vm) plan

unfoldable pub sub_volumes : Volumes → VolumePlan → Volumes
sub_volumes volumes [] = volumes
sub_volumes volumes ((req, vm) ∷ plan) = sub_volumes (Volumes.sub volumes vm) plan

abbrev fake_binding : VolumeBinding
fake_binding = record {
  source = "fake-source";
  destination = "fake-destination";
  flags = "fake-flags";
  size_in_bytes = pos 0;
  rates = zero_rates;
}

unfoldable pub get_delta_workload_resource_args :
    WorkloadResource → WorkloadResource → WorkloadResource
unfolding add_volumes sub_volumes
get_delta_workload_resource_args origin target = record {
  volumes_request = [];
  volumes_limit = [];
  volume_plan_request =
      (
        fake_binding,
        sub_volumes (add_volumes [] target.volume_plan_request) origin.volume_plan_request,
      )
      ∷ [];
  volume_plan_limit = [];
  storage_request = sub64 target.storage_request origin.storage_request;
  storage_limit = pos 0;
  disks_request = Disk.sub target.disks_request origin.disks_request;
  disks_limit = [];
}

-- `new_req` is the request as it was decoded; the result is validated.
unfoldable pub merged_request :
    WorkloadResourceRequest → WorkloadResource → Result WorkloadResourceRequest
unfolding merge_volume_bindings total_size validate
merged_request new_req origin = validate (record {
  volumes_request = merge_volume_bindings new_req.volumes_request origin.volumes_request;
  volumes_limit = merge_volume_bindings new_req.volumes_limit origin.volumes_limit;
  storage_request =
      add64 (add64 new_req.storage_request origin.storage_request)
        (total_size new_req.volumes_request);
  storage_limit =
      add64 (add64 new_req.storage_limit origin.storage_limit) (total_size new_req.volumes_limit);
  storage_folded = true;
})

-- Any error of the plan is reported as the want of resource.
abbrev as_insufficient : {A : Type 0} → Result A → Result A
as_insufficient (ok a) = ok a
as_insufficient (err e) = err insufficient_resource

unfoldable pub plan_again :
    Share
    → NodeResource
    → NodeResource
    → Bool
    → WorkloadResourceRequest
    → WorkloadResource
    → Result (VolumePlan × Disks)
plan_again share capacity usage false req origin =
    ok (origin.volume_plan_request, origin.disks_request)
plan_again share capacity usage true req origin = as_insufficient (
    Entry.get_affinity_plan share capacity usage req.volumes_request origin.volume_plan_request
      origin.volumes_request)

-- The set of the keys of some bindings, as a list of bindings with each key once.
unfoldable pub has_key : VolumeBinding → VolumeBindings → Bool
has_key vb [] = false
has_key vb (binding ∷ set) = same_key binding vb || has_key vb set

unfoldable pub key_set : VolumeBindings → VolumeBindings
unfolding has_key
key_set [] = []
key_set (vb ∷ vbs) = let rest = key_set vbs in if has_key vb rest then rest else vb ∷ rest

unfoldable pub any_new : VolumeBindings → VolumeBindings → Bool
unfolding has_key
any_new [] set = false
any_new (vb ∷ vbs) set = not (has_key vb set) || any_new vbs set

unfoldable pub is_volume_changed : VolumeBindings → VolumeBindings → Bool
unfolding key_set any_new
is_volume_changed new_bindings origin_bindings =
    let origin_set = key_set origin_bindings in
    not (length new_bindings == length origin_set) || any_new new_bindings origin_set

unfoldable pub target_resource :
    NodeResource → WorkloadResourceRequest → VolumePlan → Disks → Result WorkloadResource
unfolding get_volume_plan_limit get_disks_limit
target_resource capacity req volume_plan disk_plan =
    get_volume_plan_limit req.volumes_request req.volumes_limit volume_plan >>= λ plan_limit.
    ok (record {
      volumes_request = req.volumes_request;
      volumes_limit = req.volumes_limit;
      volume_plan_request = volume_plan;
      volume_plan_limit = plan_limit;
      storage_request = req.storage_request;
      storage_limit = req.storage_limit;
      disks_request = disk_plan;
      disks_limit = get_disks_limit req.volumes_limit plan_limit capacity.disks;
    })

pub record Reallocated : Type 0 where
  pub engine_params : EngineParams
  pub delta_resource : WorkloadResource
  pub workload_resource : WorkloadResource

unfoldable pub reallocated : WorkloadResource → WorkloadResource → Reallocated
unfolding is_volume_changed apply_plan texts to_iops_options get_delta_workload_resource_args
reallocated origin target =
    let new_bindings = apply_plan target.volume_plan_request target.volumes_limit in
    record {
      engine_params = record {
        volumes = texts new_bindings;
        volume_changed =
            is_volume_changed new_bindings
              (apply_plan origin.volume_plan_limit origin.volumes_limit);
        storage = target.storage_limit;
        iops_options = to_iops_options target.disks_limit [];
      };
      delta_resource = get_delta_workload_resource_args origin target;
      workload_resource = target;
    }

unfoldable pub calculate_realloc :
    Share
    → NodeResource
    → NodeResource
    → WorkloadResource
    → WorkloadResourceRequest
    → Result Reallocated
unfolding merged_request plan_again target_resource reallocated need_schedule
calculate_realloc share capacity usage origin new_req = merged_request new_req origin >>= λ req.
    if ltb_ℤ (sub64 capacity.storage usage.storage)
      (sub64 req.storage_request origin.storage_request)
    then err insufficient_resource
    else (plan_again share capacity usage (need_schedule new_req.volumes_request) req origin
        >>= λ plans. target_resource capacity req (plans.0) (plans.1) >>= λ target.
            ok (reallocated origin target))
