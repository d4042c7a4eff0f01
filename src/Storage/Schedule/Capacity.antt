-- ===== src/Storage/Schedule/Capacity.antt =====
-- How many plans a host has for a request, and the plans (storage/schedule/schedule.go). Each loop
-- that runs up to a bound recurs on the rounds that are left of it.
pub mod Passes
pub mod Promote
pub mod Alike
pub mod Enough
pub mod Smallest
pub mod Sorted
pub mod Allocate
pub mod Counts
pub mod Agree
use resource_extend.Base.{
  ℕ, zero, suc, ◌+◌, ◌/◌, min, max, ltb, String, Bool, true, false, not, ◌&&◌, ◌||◌, List, [], ◌∷◌,
  ◌++◌, Option, none, some, if◌then◌else◌, get_elem?, length, replicate,
}
use resource_extend.Base.Int.{ℤ, pos, pos_part, ltb_ℤ}
use resource_extend.Base.Word.{add64, sub64}
use resource_extend.Base.Dict.{◌=s◌}
use resource_extend.Errors.{Result, ok, err}
use resource_extend.Action.{Action, pure, ◌>>=◌, ◌>>◌}
use resource_extend.Storage.Volumes.{Volumes, get_device, get_size}
use resource_extend.Storage.Disk
use resource_extend.Storage.Disk.{Disks}
use resource_extend.Storage.Binding.{
  VolumeBinding, VolumeBindings, VolumePlan, merge, need_schedule,
}
use resource_extend.Storage.Node.{NodeResource}
use resource_extend.Storage.Schedule.{
  RequestClasses, any_require_iops, classify_volume_bindings, max_int,
}
use resource_extend.Storage.Schedule.Host.{Volume, Host, new_host, clone}
use resource_extend.Storage.Schedule.Plans.{
  Share, get_normal_plan, get_mount_disk_plan, get_mono_plan,
}
use resource_extend.Storage.Schedule.Capacity.Passes.{apply_mount_passes}
use resource_extend.Storage.Schedule.Capacity.Promote.{promote}

pub record Plans : Type 0 where
  pub volume_plans : List VolumePlan
  pub disk_plans : List Disks

abbrev pub no_plans : Plans
no_plans = record { volume_plans = []; disk_plans = [] }

abbrev pub cons_plan : VolumePlan → Disks → Plans → Plans
cons_plan vp dp p = record { volume_plans = vp ∷ p.volume_plans; disk_plans = dp ∷ p.disk_plans }

unfoldable pub empty_plans : Host → Plans
empty_plans h = record {
  volume_plans = replicate h.max_deploy_count [];
  disk_plans = replicate h.max_deploy_count [];
}

-- `if diskPlan != nil`
abbrev pub mono_disks : Option Disk.Disk → Disks
mono_disks none = []
mono_disks (some disk) = disk ∷ []

-- The rounds that the bound leaves, the volumes that are not looked at yet, and the volumes after.
unfoldable pub mono_plans_loop :
    Share → VolumeBindings → ℕ → List Volume → Host → (Plans × List Volume) × Host
mono_plans_loop share reqs room [] h = ((no_plans, []), h)
mono_plans_loop share reqs zero (v ∷ vs) h = ((no_plans, v ∷ vs), h)
mono_plans_loop share reqs (suc room) (v ∷ vs) h =
    let (r, h1) = get_mono_plan share reqs v h in
    elim r [
      | err e ↦ let ((p, ws), h2) = mono_plans_loop share reqs (suc room) vs h1 in ((p, v ∷ ws), h2)
      | ok (plan, quota) ↦
          let ((p, ws), h2) = mono_plans_loop share reqs room vs h1 in
          ((cons_plan plan (mono_disks quota) p, record v { size = pos 0 } ∷ ws), h2)
    ]

unfoldable pub get_mono_plans : Share → VolumeBindings → ℕ → Host → Plans × Host
unfolding mono_plans_loop empty_plans
get_mono_plans share [] bound h = (empty_plans h, h)
get_mono_plans share (req ∷ reqs) bound h =
    let ((p, ws), h1) = mono_plans_loop share (req ∷ reqs) bound h.unused_volumes h in
    (p, record h1 { unused_volumes = ws })

unfoldable pub normal_plan_round :
    VolumeBindings → VolumeBindings → Action Host (VolumePlan × Disks)
normal_plan_round normal mount = do
  (volume_plan, disk_plan) ← get_normal_plan normal
  mount_disk_plan ← get_mount_disk_plan mount
  pure (volume_plan, Disk.add disk_plan mount_disk_plan)

unfoldable pub normal_plans_loop : VolumeBindings → VolumeBindings → ℕ → Host → Plans × Host
normal_plans_loop normal mount zero h = (no_plans, h)
normal_plans_loop normal mount (suc room) h =
    let (r, h1) = normal_plan_round normal mount h in
    elim r [
      | err e ↦ (no_plans, h1)
      | ok (volume_plan, disk_plan) ↦
          let (p, h2) = normal_plans_loop normal mount room h1 in
          (cons_plan volume_plan disk_plan p, h2)
    ]

unfoldable pub get_mount_only_plans : VolumeBindings → ℕ → Host → Plans × Host
get_mount_only_plans mount bound h =
    let ((capacity, prototype), h1) = apply_mount_passes mount bound h in
    (
      record {
        volume_plans = replicate (pos_part capacity) [];
        disk_plans = replicate (pos_part capacity) prototype;
      },
      h1,
    )

unfoldable pub get_normal_plans : VolumeBindings → VolumeBindings → ℕ → Host → Plans × Host
unfolding normal_plans_loop get_mount_only_plans empty_plans
get_normal_plans [] mount bound h =
    if not (any_require_iops mount) then (empty_plans h, h) else get_mount_only_plans mount bound h
get_normal_plans (req ∷ reqs) mount bound h = normal_plans_loop (req ∷ reqs) mount bound h

-- The same loops, which only count.
unfoldable pub normal_count_round : VolumeBindings → VolumeBindings → Action Host (Unit {0})
normal_count_round normal mount = do
  plan ← get_normal_plan normal
  mount_disk_plan ← get_mount_disk_plan mount
  pure tt

unfoldable pub normal_count_loop : VolumeBindings → VolumeBindings → ℕ → Host → ℕ × Host
normal_count_loop normal mount zero h = (0, h)
normal_count_loop normal mount (suc room) h =
    let (r, h1) = normal_count_round normal mount h in
    elim r [
      | err e ↦ (0, h1)
      | ok done ↦ let (n, h2) = normal_count_loop normal mount room h1 in (suc n, h2)
    ]

unfoldable pub count_mount_only : VolumeBindings → ℕ → Host → ℕ × Host
count_mount_only mount bound h =
    let ((capacity, prototype), h1) = apply_mount_passes mount bound h in (pos_part capacity, h1)

unfoldable pub count_normal_plans : VolumeBindings → VolumeBindings → ℕ → Host → ℕ × Host
unfolding normal_count_loop count_mount_only
count_normal_plans [] mount bound h =
    if not (any_require_iops mount) then (h.max_deploy_count, h) else count_mount_only mount bound h
count_normal_plans (req ∷ reqs) mount bound h = normal_count_loop (req ∷ reqs) mount bound h

unfoldable pub mono_count_loop : Share → VolumeBindings → ℕ → List Volume → Host → ℕ
mono_count_loop share reqs room [] h = 0
mono_count_loop share reqs zero (v ∷ vs) h = 0
mono_count_loop share reqs (suc room) (v ∷ vs) h =
    let (r, h1) = get_mono_plan share reqs v h in
    elim r [
      | err e ↦ mono_count_loop share reqs (suc room) vs h1
      | ok plan ↦ suc (mono_count_loop share reqs room vs h1)
    ]

unfoldable pub count_mono_plans : Share → VolumeBindings → ℕ → Host → ℕ
unfolding mono_count_loop
count_mono_plans share [] bound h = h.max_deploy_count
count_mono_plans share (req ∷ reqs) bound h =
    mono_count_loop share (req ∷ reqs) bound h.unused_volumes h

abbrev pub max_count : ℕ
max_count = 9223372036854775807

unfoldable pub normal_bound : RequestClasses → Host → ℕ
normal_bound classes h = elim classes.mono [
  | [] ↦ h.max_deploy_count
  | req ∷ reqs ↦
      if not (any_require_iops (req ∷ reqs))
        || (not (any_require_iops classes.normal) && not (any_require_iops classes.mount))
      then max h.max_deploy_count (suc (length h.unused_volumes))
      else max_count
]

-- What the closure in getVolumePlans finds on a clone of the host.
pub record Evaluated : Type 0 where
  pub normal : Plans
  pub mono : Plans

unfoldable pub mono_bound : RequestClasses → Host → ℕ → ℕ
mono_bound classes h n = elim classes.unlimited [
  | [] ↦ max h.max_deploy_count (suc n)
  | req ∷ reqs ↦ max_count
]

unfoldable pub evaluate_plans : Share → RequestClasses → ℕ → Host → Evaluated
unfolding get_normal_plans get_mono_plans mono_bound
evaluate_plans share classes bound h =
    let (normal, h1) = get_normal_plans classes.normal classes.mount bound (clone h) in
    let (mono, h2) =
      get_mono_plans share classes.mono (mono_bound classes h (length normal.volume_plans)) h1 in
    record { normal = normal; mono = mono }

unfoldable pub evaluate_counts : Share → RequestClasses → ℕ → Host → ℕ × ℕ
unfolding count_normal_plans count_mono_plans
evaluate_counts share classes bound h =
    let (n, h1) = count_normal_plans classes.normal classes.mount bound (clone h) in
    (n, count_mono_plans share classes.mono (max h.max_deploy_count (suc n)) h1)

abbrev pub counts_of : Evaluated → ℕ × ℕ
counts_of e = (length e.normal.volume_plans, length e.mono.volume_plans)

abbrev pub is_scheduled : RequestClasses → Bool
is_scheduled c = ltb 0 (length c.normal + length c.mono + length c.unlimited)

abbrev pub has_no_volumes : Host → Bool
has_no_volumes h = not (ltb 0 (length h.unused_volumes + length h.used_volumes))

unfoldable pub get_volume_capacity : Share → VolumeBindings → Host → ℕ
unfolding evaluate_counts normal_bound classify_volume_bindings
get_volume_capacity share requests h =
    let classes = classify_volume_bindings requests in
    let bound = normal_bound classes h in
    let (counts, h1) = promote (λ c. c) (evaluate_counts share classes bound) classes.normal h in
    if not (need_schedule requests)
    then h.max_deploy_count
    else if is_scheduled classes && has_no_volumes h
    then 0
    else min (min (counts.0) (counts.1)) h.max_deploy_count
