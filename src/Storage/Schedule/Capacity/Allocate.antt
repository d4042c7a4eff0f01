-- ===== src/Storage/Schedule/Capacity/Allocate.antt =====
-- The plans that `getVolumePlans` of storage/schedule/schedule.go returns, and the two entry points.
use resource_extend.Base.{
  ℕ, zero, suc, min, String, not, ◌&&◌, List, [], ◌∷◌, ◌++◌, if◌then◌else◌, length, replicate,
}
use resource_extend.Base.Int.{ℤ, ltb_ℤ}
use resource_extend.Base.Word.{sub64}
use resource_extend.Base.Dict.{◌=s◌}
use resource_extend.Errors.{Result, ok, err, insufficient_resource}
use resource_extend.Storage.Volumes.{get_device, get_size}
use resource_extend.Storage.Disk
use resource_extend.Storage.Disk.{Disks}
use resource_extend.Storage.Binding.{VolumeBindings, VolumePlan, merge, need_schedule}
use resource_extend.Storage.Schedule.{RequestClasses, classify_volume_bindings}
use resource_extend.Storage.Schedule.Host.{Volume, Host}
use resource_extend.Storage.Schedule.Plans.{Share}
use resource_extend.Storage.Schedule.Capacity.{
  Plans, no_plans, empty_plans, Evaluated, evaluate_plans, counts_of, normal_bound, is_scheduled,
  has_no_volumes,
}
use resource_extend.Storage.Schedule.Capacity.Promote.{promote}

-- `volumeMap[device].size -= size`; a device that is not there changes nothing here.
unfoldable pub shrink : String → ℤ → List Volume → List Volume
shrink device size [] = []
shrink device size (v ∷ vs) =
    if v.device =s device
    then record v { size = sub64 v.size size } ∷ vs
    else v ∷ shrink device size vs

unfoldable pub shrink_by_plan : VolumePlan → List Volume → List Volume
unfolding shrink
shrink_by_plan [] vs = vs
shrink_by_plan ((req, vm) ∷ plan) vs = shrink_by_plan plan (shrink (get_device vm) (get_size vm) vs)

unfoldable pub shrink_by_plans : List VolumePlan → List Volume → List Volume
unfolding shrink_by_plan
shrink_by_plans [] vs = vs
shrink_by_plans (plan ∷ plans) vs = shrink_by_plans plans (shrink_by_plan plan vs)

-- `slices.MaxFunc`: the first of the largest.
unfoldable pub largest : Volume → List Volume → Volume
largest best [] = best
largest best (v ∷ vs) = largest (if ltb_ℤ best.size v.size then v else best) vs

unfoldable pub unlimited_plan : String → VolumeBindings → VolumePlan
unlimited_plan device [] = []
unlimited_plan device (req ∷ reqs) =
    (req, (device, req.size_in_bytes) ∷ []) ∷ unlimited_plan device reqs

unfoldable pub plans_on_largest : List Volume → VolumeBindings → ℕ → Result (List VolumePlan)
unfolding largest unlimited_plan
plans_on_largest [] reqs capacity = err insufficient_resource
plans_on_largest (v ∷ vs) reqs capacity =
    ok (replicate capacity (unlimited_plan (largest v vs).device reqs))

unfoldable pub get_unlimited_plans :
    List VolumePlan → List VolumePlan → VolumeBindings → ℕ → Host → Result (List VolumePlan)
unfolding shrink_by_plans plans_on_largest
get_unlimited_plans normal_plans mono_plans [] capacity h = ok (replicate capacity [])
get_unlimited_plans normal_plans mono_plans (req ∷ reqs) capacity h =
    plans_on_largest
      (shrink_by_plans mono_plans
        (shrink_by_plans normal_plans (h.used_volumes ++ h.unused_volumes)))
      (req ∷ reqs) capacity

-- The first plans of two lists, taken together one by one; no more than each list has.
unfoldable pub join {ℓ} : {A : Type ℓ} → (A → A → A) → ℕ → List A → List A → List A
join op zero xs ys = []
join op (suc n) [] ys = []
join op (suc n) (x ∷ xs) [] = []
join op (suc n) (x ∷ xs) (y ∷ ys) = op x y ∷ join op n xs ys

-- The loop over the best capacity.
unfoldable pub combine : ℕ → Evaluated → List VolumePlan → Plans
unfolding join
combine n best unlimited = record {
  volume_plans =
      join merge n (join merge n best.normal.volume_plans best.mono.volume_plans) unlimited;
  disk_plans = join Disk.add n best.normal.disk_plans best.mono.disk_plans;
}

abbrev pub best_capacity : Evaluated → ℕ → ℕ
best_capacity best n = min (min (length best.normal.volume_plans) (length best.mono.volume_plans)) n

-- `h` is the host after its volumes were promoted.
unfoldable pub allocate : RequestClasses → Evaluated → Host → Plans
unfolding get_unlimited_plans combine
allocate classes best h =
    let n = best_capacity best h.max_deploy_count in
    elim (get_unlimited_plans best.normal.volume_plans best.mono.volume_plans classes.unlimited n
      h) [ err e ↦ no_plans | ok unlimited ↦ combine n best unlimited ]

unfoldable pub get_volume_plans : Share → VolumeBindings → Host → Plans
unfolding evaluate_plans normal_bound classify_volume_bindings allocate
get_volume_plans share requests h =
    let classes = classify_volume_bindings requests in
    let (best, h1) =
      promote counts_of (evaluate_plans share classes (normal_bound classes h)) classes.normal h in
    if not (need_schedule requests)
    then empty_plans h
    else if is_scheduled classes && has_no_volumes h
    then no_plans
    else allocate classes best h1
