-- ===== src/Storage/Schedule.antt =====
-- The classes of volume bindings and the disk quota of storage/schedule/schedule.go.
pub mod Quota
pub mod Classes
pub mod Host
pub mod Plans
pub mod Capacity
pub mod Affinity
pub mod Entry
use resource_extend.Base.{
  Bool, true, false, not, ◌&&◌, ◌||◌, List, [], ◌∷◌, ◌++◌, Option, none, some, if◌then◌else◌,
}
use resource_extend.Base.Int.{ℤ, pos, ltb_ℤ, leb_ℤ, quo}
use resource_extend.Base.Word.{half_range}
use resource_extend.Storage.Disk.{Rates, Disk, add_rates, sub_rates}
use resource_extend.Storage.Binding.{
  VolumeBinding, VolumeBindings, require_schedule, require_schedule_monopoly,
  require_schedule_unlimited_quota, require_iops,
}

unfoldable pub is_disk_iops_quota_qualified : Option Disk → VolumeBinding → Bool
unfolding require_iops
is_disk_iops_quota_qualified none req = not (require_iops req)
is_disk_iops_quota_qualified (some disk) req =
    leb_ℤ req.read_bps disk.read_bps
    && leb_ℤ req.write_bps disk.write_bps
    && leb_ℤ req.read_iops disk.read_iops
    && leb_ℤ req.write_iops disk.write_iops

unfoldable pub decrease_iops_quota : Disk → VolumeBinding → Disk
decrease_iops_quota disk req = record disk { rates = sub_rates disk.rates req.rates }

unfoldable pub increase_iops_quota : Disk → VolumeBinding → Disk
increase_iops_quota disk req = record disk { rates = add_rates disk.rates req.rates }

-- One of the four tests: `if sum > 0 { head = min(head, rate/sum) }`
abbrev pub bound_by : ℤ → ℤ → ℤ → ℤ
bound_by rate sum head =
    if ltb_ℤ (pos 0) sum then (if ltb_ℤ (quo rate sum) head then quo rate sum else head) else head

abbrev pub max_int : ℤ
max_int = pos 9223372036854775807

unfoldable pub quota_headroom : Disk → VolumeBinding → ℤ
quota_headroom disk sum = bound_by disk.write_bps sum.write_bps (
    bound_by disk.read_bps sum.read_bps
      (bound_by disk.write_iops sum.write_iops (bound_by disk.read_iops sum.read_iops max_int)))

unfoldable pub any_require_iops : VolumeBindings → Bool
unfolding require_iops
any_require_iops [] = false
any_require_iops (vb ∷ vbs) = require_iops vb || any_require_iops vbs

pub record RequestClasses : Type 0 where
  pub normal : VolumeBindings
  pub mono : VolumeBindings
  pub unlimited : VolumeBindings
  pub mount : VolumeBindings

abbrev pub no_requests : RequestClasses
no_requests = record { normal = []; mono = []; unlimited = []; mount = [] }

unfoldable pub classify_one : VolumeBinding → RequestClasses → RequestClasses
unfolding require_schedule require_schedule_monopoly require_schedule_unlimited_quota
classify_one binding classes =
    if require_schedule_monopoly binding
    then record classes { mono = classes.mono ++ binding ∷ [] }
    else if require_schedule_unlimited_quota binding
    then record classes { unlimited = classes.unlimited ++ binding ∷ [] }
    else if require_schedule binding
    then record classes { normal = classes.normal ++ binding ∷ [] }
    else record classes { mount = classes.mount ++ binding ∷ [] }

unfoldable pub classify_loop : RequestClasses → VolumeBindings → RequestClasses
unfolding classify_one
classify_loop classes [] = classes
classify_loop classes (binding ∷ bindings) = classify_loop (classify_one binding classes) bindings

-- `slices.SortStableFunc(vbs, compareBindingSize)`
unfoldable pub insert_by_size : VolumeBinding → VolumeBindings → VolumeBindings
insert_by_size b [] = b ∷ []
insert_by_size b (b1 ∷ bs) =
    if leb_ℤ b.size_in_bytes b1.size_in_bytes then b ∷ b1 ∷ bs else b1 ∷ insert_by_size b bs

unfoldable pub sort_by_size : VolumeBindings → VolumeBindings
unfolding insert_by_size
sort_by_size [] = []
sort_by_size (b ∷ bs) = insert_by_size b (sort_by_size bs)

abbrev sorted_classes : RequestClasses → RequestClasses
sorted_classes classes = record classes {
  mono = sort_by_size classes.mono;
  normal = sort_by_size classes.normal;
}

unfoldable pub classify_volume_bindings : VolumeBindings → RequestClasses
unfolding classify_loop sort_by_size
classify_volume_bindings bindings = sorted_classes (classify_loop no_requests bindings)
