-- ===== src/Storage/Schedule/Capacity/Passes.antt =====
-- `applyMountPasses` of storage/schedule/schedule.go: the passes of mount requests, in closed form.
use resource_extend.Base.{
  ℕ, Bool, true, false, ◌==◌, List, [], ◌∷◌, Option, none, some, if◌then◌else◌, ltb,
}
use resource_extend.Base.Int.{ℤ, pos, ltb_ℤ}
use resource_extend.Base.Word.{add64, sub64, mul64}
use resource_extend.Errors.{ok, err}
use resource_extend.Storage.Disk.{Rates, Disks, sub_rates}
use resource_extend.Storage.Binding.{VolumeBinding, VolumeBindings, require_iops, add_quota}
use resource_extend.Storage.Schedule.{quota_headroom}
use resource_extend.Storage.Schedule.Host.{Host, get_disk_by_path, disk_at, set_disk}
use resource_extend.Storage.Schedule.Plans.{no_binding, get_mount_disk_plan}

-- The map from disks, by their pointers, to what the requests take of each.
abbrev pub Quotas : Type 0
Quotas = List (Option ℕ × VolumeBinding)

abbrev pub same_place : Option ℕ → Option ℕ → Bool
same_place none none = true
same_place (some i) (some j) = i == j
same_place _ _ = false

unfoldable pub add_to_quotas : Option ℕ → VolumeBinding → Quotas → Quotas
unfolding add_quota
add_to_quotas place req [] = (place, add_quota no_binding req) ∷ []
add_to_quotas place req ((p, sum) ∷ quotas) =
    if same_place p place
    then (p, add_quota sum req) ∷ quotas
    else (p, sum) ∷ add_to_quotas place req quotas

-- The places are looked up as in a pass, which has kept them.
unfoldable pub sum_quotas : VolumeBindings → Quotas → Host → Quotas × Host
unfolding add_to_quotas get_disk_by_path
sum_quotas [] quotas h = (quotas, h)
sum_quotas (req ∷ reqs) quotas h =
    let (place, h1) = get_disk_by_path req.source h in
    let found : Option ℕ = elim place [ ok p ↦ p | err e ↦ none ] in
    let needs = require_iops req in
    sum_quotas reqs (if needs then add_to_quotas found req quotas else quotas)
      (if needs then h1 else h)

-- `1 + quotaHeadroom(disk, sum)`, for a disk that is there.
unfoldable pub capacity_at : Option ℕ → VolumeBinding → Host → ℤ
unfolding disk_at
capacity_at place sum h = elim (disk_at place h) [
  | none ↦ pos 0
  | some disk ↦ add64 (pos 1) (quota_headroom disk sum)
]

unfoldable pub least_capacity : ℤ → Quotas → Host → ℤ
unfolding capacity_at
least_capacity capacity [] h = capacity
least_capacity capacity ((place, sum) ∷ quotas) h =
    let c = capacity_at place sum h in
    least_capacity (if ltb_ℤ c capacity then c else capacity) quotas h

abbrev pub times_rates : ℤ → Rates → Rates
times_rates n r = record {
  read_iops = mul64 n r.read_iops;
  write_iops = mul64 n r.write_iops;
  read_bps = mul64 n r.read_bps;
  write_bps = mul64 n r.write_bps;
}

unfoldable pub take_times : ℤ → Quotas → Host → Host
unfolding disk_at set_disk
take_times n [] h = h
take_times n ((place, sum) ∷ quotas) h = take_times n quotas (elim (disk_at place h) [
  | none ↦ h
  | some disk ↦
      set_disk place (record disk { rates = sub_rates disk.rates (times_rates n sum.rates) }) h
])

unfoldable pub passes_from : VolumeBindings → ℕ → Disks → Host → (ℤ × Disks) × Host
unfolding sum_quotas least_capacity take_times
passes_from mount bound prototype h =
    let (quotas, h1) = sum_quotas mount [] h in
    let capacity = least_capacity (pos bound) quotas h1 in
    let h2 = take_times (sub64 capacity (pos 1)) quotas h1 in
    let h3 = if ltb_ℤ capacity (pos bound) then (get_mount_disk_plan mount h2).1 else h2 in
    ((capacity, prototype), h3)

unfoldable pub apply_mount_passes : VolumeBindings → ℕ → Host → (ℤ × Disks) × Host
unfolding passes_from
apply_mount_passes mount bound h =
    let (r, h1) = get_mount_disk_plan mount h in
    elim r [
      | err e ↦ ((pos 0, []), h1)
      | ok prototype ↦
          if ltb 0 bound then passes_from mount bound prototype h1 else ((pos 0, []), h1)
    ]
