-- ===== src/Storage/Usage.antt =====
-- What the workloads of a node use, and how the stored usage differs from it: the comparison of
-- getNodeResourceInfo of storage/node.go.
pub mod Exact
pub mod Settled
use resource_extend.Base.{
  String, Bool, true, false, List, [], ◌∷◌, ◌++◌, Option, none, some, if◌then◌else◌,
}
use resource_extend.Base.Int.{ℤ, pos, eqb_ℤ}
use resource_extend.Base.Word.{add64}
use resource_extend.Base.Dict.{◌=s◌, insert, count_of}
use resource_extend.Storage.Volumes.{Volumes}
use resource_extend.Storage.Disk
use resource_extend.Storage.Disk.{Disk, Disks, zero_rates, get_disk_by_device, remove_mounts}
use resource_extend.Storage.Disk.Text.{to_string}
use resource_extend.Storage.Node.{NodeResource, WorkloadUsage, sum_volumes, set_mounts}

pub record WorkloadsUsage : Type 0 where
  pub volumes : Volumes
  pub disks : Disks
  pub storage : ℤ

abbrev pub no_usage : WorkloadsUsage
no_usage = record { volumes = []; disks = []; storage = pos 0 }

unfoldable pub add_workload : WorkloadsUsage → WorkloadUsage → WorkloadsUsage
unfolding sum_volumes
add_workload usage w = record {
  volumes = sum_volumes usage.volumes w.volume_plan_request;
  disks = Disk.add usage.disks (remove_mounts w.disks_request);
  storage = add64 usage.storage w.storage_request;
}

-- The loop over the workloads.
unfoldable pub add_workloads : WorkloadsUsage → List WorkloadUsage → WorkloadsUsage
unfolding add_workload
add_workloads usage [] = usage
add_workloads usage (w ∷ ws) = add_workloads (add_workload usage w) ws

-- One line of the report, with the values that it prints.
pub data Diff : Type 0 where
  storage_differs : ℤ → ℤ → Diff
  volume_differs : String → ℤ → ℤ → Diff
  disk_differs : String → String → String → Diff

-- `maps.Copy(m, m1)`
unfoldable pub copy : Volumes → Volumes → Volumes
copy m [] = m
copy m ((key, size) ∷ m1) = copy (insert key size m) m1

-- `volumes` is the map whose keys are looked at.
unfoldable pub volume_diffs : Volumes → Volumes → Volumes → List Diff
volume_diffs stored computed [] = []
volume_diffs stored computed ((volume, size) ∷ volumes) =
    let rest = volume_diffs stored computed volumes in
    let old = count_of volume stored in
    let new = count_of volume computed in
    if eqb_ℤ old new then rest else volume_differs volume old new ∷ rest

-- `cmp.Or(disks.GetDiskByDevice(device), &Disk{Device: device})`
abbrev pub or_unused : String → Option Disk → Disk
or_unused device none = record { device = device; mounts = []; rates = zero_rates }
or_unused device (some disk) = disk

-- The disk in use that is compared to a stored one, whose mounts it takes.
unfoldable pub computed_disk : Disk → Disks → Disk
computed_disk disk disks = record (or_unused disk.device (get_disk_by_device disk.device disks)) {
  mounts = disk.mounts;
}

-- The loop over the stored disks; it sets the mounts of the disks in use.
unfoldable pub disk_diffs : Disks → Disks → Disks × List Diff
unfolding computed_disk to_string set_mounts
disk_diffs disks [] = (disks, [])
disk_diffs disks (disk ∷ stored) =
    let (left, rest) = disk_diffs (set_mounts disk disks) stored in
    let computed_text = to_string (computed_disk disk disks) in
    let stored_text = to_string disk in
    (
      left,
      if computed_text =s stored_text
          then rest
          else disk_differs disk.device stored_text computed_text ∷ rest,
    )

unfoldable pub diffs_of : NodeResource → WorkloadsUsage → List Diff
unfolding volume_diffs copy disk_diffs
diffs_of stored usage =
    (if eqb_ℤ stored.storage usage.storage
      then []
      else storage_differs stored.storage usage.storage ∷ [])
    ++ (volume_diffs stored.volumes usage.volumes (copy usage.volumes stored.volumes)
        ++ (disk_diffs usage.disks stored.disks).1)

-- What the workloads use, after the comparison.
unfoldable pub compared_usage : NodeResource → WorkloadsUsage → NodeResource
unfolding disk_diffs
compared_usage stored usage = record {
  volumes = usage.volumes;
  disks = (disk_diffs usage.disks stored.disks).0;
  storage = usage.storage;
}
