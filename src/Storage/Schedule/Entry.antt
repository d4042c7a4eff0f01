-- ===== src/Storage/Schedule/Entry.antt =====
-- GetAffinityPlan, GetVolumePlans and GetVolumeCapacity of storage/schedule/schedule.go: each works on
-- a new host for the capacity and the usage of a node.
use resource_extend.Base.{ℕ}
use resource_extend.Errors.{Result}
use resource_extend.Storage.Disk.{Disks}
use resource_extend.Storage.Binding.{VolumeBindings, VolumePlan}
use resource_extend.Storage.Node.{NodeResource}
use resource_extend.Storage.Schedule.Host.{new_host}
use resource_extend.Storage.Schedule.Plans.{Share}
use resource_extend.Storage.Schedule.Capacity
use resource_extend.Storage.Schedule.Capacity.{Plans}
use resource_extend.Storage.Schedule.Capacity.Allocate
use resource_extend.Storage.Schedule.Affinity

module _ (share : Share) (capacity usage : NodeResource) where
  abbrev pub get_affinity_plan :
      VolumeBindings → VolumePlan → VolumeBindings → Result (VolumePlan × Disks)
  get_affinity_plan volume_request origin_volume_plan origin_volume_request =
      (Affinity.get_affinity_plan share volume_request origin_volume_plan origin_volume_request
        (new_host capacity usage 1)).0

  abbrev pub get_volume_plans : VolumeBindings → ℕ → Plans
  get_volume_plans volume_request max_deploy_count =
      Allocate.get_volume_plans share volume_request (new_host capacity usage max_deploy_count)

  abbrev pub get_volume_capacity : VolumeBindings → ℕ → ℕ
  get_volume_capacity volume_request max_deploy_count =
      Capacity.get_volume_capacity share volume_request (new_host capacity usage max_deploy_count)
