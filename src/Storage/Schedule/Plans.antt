-- ===== src/Storage/Schedule/Plans.antt =====
-- The plans that a host makes for the classes of requests (storage/schedule/schedule.go).
-- The heap of volumes is kept sorted: its first volume is the one that container/heap pops.
pub mod Sizes
pub mod Heap
pub mod Found
pub mod Balance
pub mod Lookups
use resource_extend.Base.{
  ℕ, zero, suc, String, Bool, true, false, not, ◌&&◌, ◌||◌, List, [], ◌∷◌, ◌++◌, Option, none, some,
  if◌then◌else◌, get_elem?, set, length, replicate, leb,
}
use resource_extend.Base.Int.{ℤ, pos, pos_part, ltb_ℤ, leb_ℤ, eqb_ℤ}
use resource_extend.Base.Word.{add64, sub64, mul64}
use resource_extend.Base.Dict.{◌=s◌}
use resource_extend.Errors.{Result, ok, err, other, insufficient_resource}
use resource_extend.Action.{Action, pure, lift, reads, ◌>>=◌, ◌>>◌}
use resource_extend.Storage.Volumes.{Volumes, get_device, get_size}
use resource_extend.Storage.Disk
use resource_extend.Storage.Disk.{Rates, Disks, zero_rates, zip_rates, sub_rates}
use resource_extend.Storage.Binding.{
  VolumeBinding, VolumeBindings, VolumePlan, require_iops, add_quota, disk_quota,
}
use resource_extend.Storage.Schedule.{
  is_disk_iops_quota_qualified, decrease_iops_quota, quota_headroom, any_require_iops,
}
use resource_extend.Storage.Schedule.Host.{
  Volume, Host, get_disk_by_path, disk_at, set_disk, sort_volumes, insert_volume,
}

-- `decreaseIOPSQuota(disk, req)` and the quota that goes into the plan, for a request of rates.
unfoldable pub grant : VolumeBinding → Option ℕ → Action Host Disks
unfolding disk_at set_disk
grant req place h = elim (disk_at place h) [
  | none ↦ (ok [], h)
  | some disk ↦
      if require_iops req
      then (ok (disk_quota req disk ∷ []), set_disk place (decrease_iops_quota disk req) h)
      else (ok [], h)
]

unfoldable pub is_qualified : Option ℕ → VolumeBinding → Host → Bool
unfolding disk_at
is_qualified place req h = is_disk_iops_quota_qualified (disk_at place h) req

unfoldable pub mount_loop : Disks → VolumeBindings → Action Host Disks
unfolding grant is_qualified
mount_loop disk_plan [] = pure disk_plan
mount_loop disk_plan (req ∷ reqs) =
    if not (require_iops req) then mount_loop disk_plan reqs else (do
      place ← get_disk_by_path req.source
      qualified ← reads (λ h. ok (is_qualified place req h))
      if not qualified
          then lift (err insufficient_resource)
          else (do quota ← grant req place; mount_loop (Disk.add disk_plan quota) reqs))

unfoldable pub get_mount_disk_plan : VolumeBindings → Action Host Disks
unfolding mount_loop
get_mount_disk_plan reqs = mount_loop [] reqs

-- The search for a volume: the device and the disk quota that were found, the volumes that were
-- popped, changed or not, and those that are left in the heap.
pub record Search : Type 0 where
  pub allocated : Option (String × Disks)
  pub to_push : List Volume
  pub left : List Volume

unfoldable pub find_volume : VolumeBinding → List Volume → Action Host Search
unfolding grant is_qualified
find_volume req [] = pure (record { allocated = none; to_push = []; left = [] })
find_volume req (volume ∷ vh) = do
  place ← get_disk_by_path volume.device
  qualified ← reads (λ h. ok (is_qualified place req h))
  if ltb_ℤ volume.size req.size_in_bytes || not qualified
      then (do found ← find_volume req vh; pure (record found { to_push = volume ∷ found.to_push }))
      else (do
        quota ← grant req place
        pure (record {
          allocated = some (volume.device, quota);
          to_push = record volume { size = sub64 volume.size req.size_in_bytes } ∷ [];
          left = vh;
        }))

unfoldable pub push_all : List Volume → List Volume → List Volume
push_all [] vh = vh
push_all (v ∷ vs) vh = push_all vs (insert_volume v vh)

abbrev pub set_used : List Volume → Action Host (Unit {0})
set_used vh h = (ok tt, record h { used_volumes = vh })

unfoldable pub normal_requests_loop :
    VolumePlan → Disks → VolumeBindings → Action Host (VolumePlan × Disks)
unfolding find_volume push_all
normal_requests_loop volume_plan disk_plan [] = pure (volume_plan, disk_plan)
normal_requests_loop volume_plan disk_plan (req ∷ reqs) = do
  vh ← reads (λ h. ok h.used_volumes)
  found ← find_volume req vh
  set_used (push_all found.to_push found.left)
  elim found.allocated [
    | none ↦ lift (err insufficient_resource)
    | some (device, quota) ↦
        normal_requests_loop (volume_plan ++ (req, (device, req.size_in_bytes) ∷ []) ∷ [])
          (Disk.add disk_plan quota) reqs
  ]

unfoldable pub get_normal_plan : VolumeBindings → Action Host (VolumePlan × Disks)
unfolding normal_requests_loop
get_normal_plan reqs = do
  vh ← reads (λ h. ok h.used_volumes)
  set_used (sort_volumes vh)
  normal_requests_loop [] [] reqs

-- `*total` of a loop that adds the quota of each request
unfoldable pub sum_quota : VolumeBinding → VolumeBindings → VolumeBinding
sum_quota total [] = total
sum_quota total (req ∷ reqs) = sum_quota (add_quota total req) reqs

abbrev pub no_binding : VolumeBinding
no_binding = record {
  source = "";
  destination = "";
  flags = "";
  size_in_bytes = pos 0;
  rates = zero_rates;
}

-- `int64(float64(a) / float64(b) * float64(c))` is a parameter, as there are no floats.
abbrev pub Share : Type 0
Share = ℤ → ℤ → ℤ → ℤ

-- The share of each request, and what is left of the volume.
unfoldable pub share_out : Share → ℤ → ℤ → String → ℤ → VolumeBindings → VolumePlan × ℤ
share_out share total volume_size device left [] = ([], left)
share_out share total volume_size device left (req ∷ reqs) =
    let size = share req.size_in_bytes total volume_size in
    let (plan, rest) = share_out share total volume_size device (sub64 left size) reqs in
    ((req, (device, size) ∷ []) ∷ plan, rest)

-- `volumePlan[monoRequests[0]][volume.device] += volume.size`
unfoldable pub add_to_first : ℤ → VolumePlan → Result VolumePlan
add_to_first size [] = err (other "index out of range")
add_to_first size ((req, volume_map) ∷ plan) =
    ok ((req, (get_device volume_map, add64 (get_size volume_map) size) ∷ []) ∷ plan)

unfoldable pub share_volume : Share → VolumeBindings → ℤ → Volume → Result VolumePlan
unfolding share_out add_to_first
share_volume share reqs total volume =
    let (plan, left) = share_out share total volume.size volume.device volume.size reqs in
    if eqb_ℤ left (pos 0) then ok plan else add_to_first left plan

-- `h.disks.Sub(types.Disks{diskPlan})` where the requests need rates
unfoldable pub take_quota : VolumeBinding → Option ℕ → Action Host (Option Disk.Disk)
unfolding disk_at
take_quota total place h = elim (disk_at place h) [
  | none ↦ (ok none, h)
  | some disk ↦
      if require_iops total
      then (
        ok (some (disk_quota total disk)),
        record h { disks = Disk.sub h.disks (disk_quota total disk ∷ []) },
      )
      else (ok none, h)
]

-- The plan and the disk quota; the volume is left with size 0.
unfoldable pub get_mono_plan :
    Share → VolumeBindings → Volume → Action Host (VolumePlan × Option Disk.Disk)
unfolding sum_quota share_volume take_quota is_qualified
get_mono_plan share reqs volume =
    let total = sum_quota no_binding reqs in
    if ltb_ℤ volume.size total.size_in_bytes then lift (err insufficient_resource) else (do
      place ← get_disk_by_path volume.device
      qualified ← reads (λ h. ok (is_qualified place total h))
      if not qualified then lift (err insufficient_resource) else (do
        plan ← lift (share_volume share reqs total.size_in_bytes volume)
        quota ← take_quota total place
        pure (plan, quota)))
