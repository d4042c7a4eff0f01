-- ===== src/Storage/Schedule/Affinity.antt =====
-- Plans that keep a workload on the volumes that it has (getAffinityPlan of
-- storage/schedule/schedule.go). A volume is found by its device, which stands for its pointer.
use resource_extend.Base.{String, not, List, [], ◌∷◌, ◌++◌, Option, none, some, if◌then◌else◌}
use resource_extend.Base.Int.{ℤ, pos, ltb_ℤ}
use resource_extend.Base.Word.{add64, sub64}
use resource_extend.Base.Dict.{◌=s◌}
use resource_extend.Errors.{Result, ok, err, other, invalid_volume, insufficient_resource}
use resource_extend.Action.{Action, pure, lift, reads, ◌>>=◌, ◌>>◌}
use resource_extend.Storage.Volumes.{Volumes, get_device, get_size}
use resource_extend.Storage.Disk
use resource_extend.Storage.Disk.{Disks}
use resource_extend.Storage.Binding.{
  VolumeBinding, VolumeBindings, VolumePlan, merge, find_by_key, need_schedule, require_iops,
  require_schedule_monopoly, total_size,
}
use resource_extend.Storage.Schedule.{classify_volume_bindings, increase_iops_quota}
use resource_extend.Storage.Schedule.Host.{Volume, Host, get_disk_by_path, disk_at, set_disk}
use resource_extend.Storage.Schedule.Plans.{
  Share, grant, is_qualified, get_mount_disk_plan, get_mono_plan,
}
use resource_extend.Storage.Schedule.Capacity.{mono_disks}
use resource_extend.Storage.Schedule.Capacity.Allocate.{get_volume_plans}

unfoldable pub find_device : String → List Volume → Option Volume
find_device device [] = none
find_device device (v ∷ vs) = if v.device =s device then some v else find_device device vs

unfoldable pub get_volume_by_device : String → Host → Option Volume
unfolding find_device
get_volume_by_device device h = elim (find_device device h.used_volumes) [
  | some v ↦ some v
  | none ↦ find_device device h.unused_volumes
]

-- A write to the size of the volume that `find_device` finds.
unfoldable pub resize : String → ℤ → List Volume → List Volume
resize device size [] = []
resize device size (v ∷ vs) =
    if v.device =s device then record v { size = size } ∷ vs else v ∷ resize device size vs

-- A write to the size of the volume that `get_volume_by_device` finds.
unfoldable pub set_size : String → ℤ → Action Host (Unit {0})
unfolding find_device resize
set_size device size h = elim (find_device device h.used_volumes) [
  | some v ↦ (ok tt, record h { used_volumes = resize device size h.used_volumes })
  | none ↦ (ok tt, record h { unused_volumes = resize device size h.unused_volumes })
]

-- `h.getVolumeByDevice(device)`, with an error for nil.
unfoldable pub volume_or : Result Volume → String → Action Host Volume
unfolding get_volume_by_device
volume_or missing device =
    reads (λ h. elim (get_volume_by_device device h) [ none ↦ missing | some v ↦ ok v ])

-- `increaseIOPSQuota(disk, req)` for the disk at a path; ErrInvalidVolume where there is none.
unfoldable pub give_back : String → VolumeBinding → Action Host (Unit {0})
unfolding disk_at set_disk
give_back path req = do
  place ← get_disk_by_path path
  λ h. elim (disk_at place h) [
    | none ↦ (err invalid_volume, h)
    | some disk ↦ (ok tt, set_disk place (increase_iops_quota disk req) h)
  ]

unfoldable pub give_back_mounts : VolumeBindings → Action Host (Unit {0})
unfolding give_back
give_back_mounts [] = pure tt
give_back_mounts (req ∷ reqs) =
    if require_iops req
    then (do give_back req.source req; give_back_mounts reqs)
    else give_back_mounts reqs

-- The loop over the plan that the workload has.
unfoldable pub give_back_plan : VolumePlan → Action Host (Unit {0})
unfolding volume_or set_size give_back
give_back_plan [] = pure tt
give_back_plan ((req, vm) ∷ plan) = do
  volume ← volume_or (err invalid_volume) (get_device vm)
  set_size volume.device (add64 volume.size (get_size vm))
  if require_iops req then give_back volume.device req else pure tt
  give_back_plan plan

-- The requests that have volumes already, with them, and the others.
pub record Classified : Type 0 where
  pub affinity : VolumePlan
  pub non_affinity : VolumeBindings

unfoldable pub classify_affinity_requests : VolumeBindings → VolumePlan → Classified
classify_affinity_requests [] existing = record { affinity = []; non_affinity = [] }
classify_affinity_requests (req ∷ requests) existing =
    let rest = classify_affinity_requests requests existing in
    elim (find_by_key req none existing) [
      | some vm ↦ record rest { affinity = (req, vm) ∷ rest.affinity }
      | none ↦ record rest { non_affinity = req ∷ rest.non_affinity }
    ]

-- The plans so far, and the requests that are left for getVolumePlans.
pub record Progress : Type 0 where
  pub volume_plan : VolumePlan
  pub disk_plan : Disks
  pub left : VolumeBindings

unfoldable pub keep_one : VolumeBinding → String → Progress → Action Host Progress
unfolding volume_or set_size is_qualified grant
keep_one req device p = do
  volume ← volume_or (err (other "nil pointer dereference")) device
  if ltb_ℤ volume.size req.size_in_bytes then lift (err insufficient_resource) else pure tt
  set_size device (sub64 volume.size req.size_in_bytes)
  let volume_plan = merge p.volume_plan ((req, (volume.device, req.size_in_bytes) ∷ []) ∷ [])
  if not (require_iops req) then pure (record p { volume_plan = volume_plan }) else (do
    place ← get_disk_by_path device
    qualified ← reads (λ h. ok (is_qualified place req h))
    if not qualified then lift (err insufficient_resource) else (do
      quota ← grant req place
      pure (record p { volume_plan = volume_plan; disk_plan = Disk.add p.disk_plan quota })))

unfoldable pub keep_all : VolumePlan → Progress → Action Host Progress
unfolding keep_one
keep_all [] p = pure p
keep_all ((req, vm) ∷ affinity) p = do p1 ← keep_one req (get_device vm) p; keep_all affinity p1

unfoldable pub common_process : VolumeBindings → VolumePlan → Progress → Action Host Progress
unfolding classify_affinity_requests keep_all
common_process requests origin p = do
  let classified = classify_affinity_requests requests origin
  p1 ← keep_all classified.affinity p
  pure (record p1 { left = p1.left ++ classified.non_affinity })

unfoldable pub monopoly_size : ℤ → VolumePlan → ℤ
monopoly_size total [] = total
monopoly_size total ((req, vm) ∷ plan) =
    monopoly_size (if require_schedule_monopoly req then add64 total (get_size vm) else total) plan

unfoldable pub get_mono_affinity_plan :
    Share → VolumeBindings → Volumes → VolumePlan → Action Host (VolumePlan × Option Disk.Disk)
unfolding monopoly_size volume_or set_size
get_mono_affinity_plan share mono vm origin =
    if ltb_ℤ (monopoly_size (pos 0) origin) (total_size mono)
    then lift (err insufficient_resource)
    else (do
      volume ← volume_or (err invalid_volume) (get_device vm)
      plan ← get_mono_plan share mono volume
      set_size volume.device (pos 0)
      pure plan)

-- The monopoly requests stay together: those that have no volume go with one that has.
unfoldable pub mono_process : Share → VolumeBindings → VolumePlan → Progress → Action Host Progress
unfolding classify_affinity_requests get_mono_affinity_plan
mono_process share mono origin p =
    let classified = classify_affinity_requests mono origin in
    elim classified.affinity [
      | [] ↦ pure (record p { left = p.left ++ classified.non_affinity })
      | (req, vm) ∷ affinity ↦ (do
        (volume_plan, quota) ← get_mono_affinity_plan share mono vm origin
        pure (record p {
          volume_plan = merge p.volume_plan volume_plan;
          disk_plan = Disk.add p.disk_plan (mono_disks quota);
        }))
    ]

-- What is left is planned anew, for one workload.
unfoldable pub reschedule : List VolumePlan → List Disks → Progress → Result (VolumePlan × Disks)
reschedule (volume_plan ∷ _) (disk_plan ∷ _) p =
    ok (merge p.volume_plan volume_plan, Disk.add p.disk_plan disk_plan)
reschedule (volume_plan ∷ _) [] p = err (other "index out of range")
reschedule [] disk_plans p = err insufficient_resource

unfoldable pub finish : Share → Progress → Action Host (VolumePlan × Disks)
unfolding reschedule
finish share p = elim p.left [
  | [] ↦ pure (p.volume_plan, p.disk_plan)
  | req ∷ reqs ↦ reads (λ h.
      let plans = get_volume_plans share (req ∷ reqs) h in
      reschedule plans.volume_plans plans.disk_plans p)
]

unfoldable pub get_affinity_plan :
    Share → VolumeBindings → VolumePlan → VolumeBindings → Action Host (VolumePlan × Disks)
unfolding give_back_mounts give_back_plan common_process mono_process finish
get_affinity_plan share requests origin_plan origin_requests =
    let classes = classify_volume_bindings requests in
    if not (need_schedule requests) then pure ([], []) else (do
      give_back_mounts (classify_volume_bindings origin_requests).mount
      give_back_plan origin_plan
      mount_disk_plan ← get_mount_disk_plan classes.mount
      p ←
          common_process classes.normal origin_plan
            (record { volume_plan = []; disk_plan = Disk.add [] mount_disk_plan; left = [] })
      p1 ← mono_process share classes.mono origin_plan p
      p2 ← common_process classes.unlimited origin_plan p1
      finish share p2)
