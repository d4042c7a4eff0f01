-- ===== src/Storage/Usage/Settled.antt =====
-- What the fix writes, once it has been validated, no longer differs from what the workloads use
-- (getNodeResourceInfo and FixNodeResource of storage/node.go).
use resource_extend.Base.{true, ◌≡◌, ap, List, [], ◌∷◌, some, All, arith}
use resource_extend.Base.Int.{eqb_ℤ}
use resource_extend.Base.Dict.{count_of}
use resource_extend.Errors.{ok}
use resource_extend.Storage.Disk.{Disks, remove_mounts}
use resource_extend.Storage.Disk.Quota.{IsDistinct, rates_of}
use resource_extend.Storage.Disk.Distinct.{
  add-IsDistinct, remove_mounts-IsDistinct, IsDistinct-rates,
}
use resource_extend.Storage.Node.{
  NodeResource, NodeResourceInfo, WorkloadUsage, set_mounts, validate,
}
use resource_extend.Storage.Node.Keeps.{set_mounts-All, validate-All}
use resource_extend.Storage.Usage.{
  WorkloadsUsage, disk_diffs, diffs_of, compared_usage, add_workload, add_workloads, no_usage, copy,
  volume_diffs,
}
use resource_extend.Storage.Usage.Exact.{HasRates, disk_diffs-of_HasRates, volume_diffs_exact}

-- Each workload has a device once among its disks.
abbrev pub AllDistinct : List WorkloadUsage → Type 0
AllDistinct = All (λ (w : WorkloadUsage). IsDistinct w.disks_request)

add_workloads-IsDistinct :
    (usage : WorkloadsUsage) (ws : List WorkloadUsage)
    → AllDistinct ws
    → IsDistinct usage.disks
    → IsDistinct (add_workloads usage ws).disks
unfolding add_workloads add_workload
add_workloads-IsDistinct usage [] h d = d
add_workloads-IsDistinct usage (w ∷ ws) h d =
    add_workloads-IsDistinct (add_workload usage w) ws h.1 (
      add-IsDistinct usage.disks (remove_mounts w.disks_request) d
        (remove_mounts-IsDistinct w.disks_request h.0))

-- The mounts that the comparison sets change no rates.
disk_diffs-HasRates_after :
    (known disks stored : Disks) → HasRates known disks → HasRates known (disk_diffs disks stored).0
unfolding disk_diffs
disk_diffs-HasRates_after known disks [] h = h
disk_diffs-HasRates_after known disks (disk ∷ stored) h =
    disk_diffs-HasRates_after known (set_mounts disk disks) stored
      (set_mounts-All (λ x. rates_of x.device known ≡ x.rates) (λ x ms p. p) disk disks h)

diffs_of-settled :
    (stored : NodeResource) (usage : WorkloadsUsage)
    → stored.storage ≡ usage.storage
    → stored.volumes ≡ usage.volumes
    → HasRates usage.disks stored.disks
    → diffs_of stored usage ≡ []
unfolding diffs_of
diffs_of-settled stored usage s v d =
    let volumes : volume_diffs stored.volumes usage.volumes (copy usage.volumes stored.volumes)
        ≡ [] =
      (volume_diffs_exact stored.volumes usage.volumes).1 (λ k. ap (count_of k) v) in
    let storage : eqb_ℤ stored.storage usage.storage ≡ true = ground arith in
    rw (storage, volumes) (disk_diffs-of_HasRates usage.disks stored.disks d)

-- The record that validation makes of a fixed one has a usage without differences.
pub validate-settled :
    (capacity stored : NodeResource) (ws : List WorkloadUsage) (m : NodeResourceInfo)
    → AllDistinct ws
    → let usage = add_workloads no_usage ws in
      validate (record { capacity = some capacity; usage = some (compared_usage stored usage) })
        ≡ ok m
      → (used : NodeResource) × (m.usage ≡ some used) × (diffs_of used usage ≡ [])
unfolding compared_usage
validate-settled capacity stored ws m h e =
    let usage = add_workloads no_usage ws in
    let (used, at, volumes, storage, disks) =
      validate-All (λ x. rates_of x.device usage.disks ≡ x.rates) (λ x ms p. p) capacity
        (compared_usage stored usage) m e in
    let distinct = add_workloads-IsDistinct no_usage ws h tt in
    (
      used,
      at,
      diffs_of-settled used usage storage volumes (
          disks (
            disk_diffs-HasRates_after usage.disks usage.disks stored.disks
              (IsDistinct-rates usage.disks distinct))),
    )
