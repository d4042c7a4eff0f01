-- ===== src/Storage/Calculate/Delta.antt =====
-- The delta that CalculateRealloc reports (storage/utils.go) leads from what a workload had to what it gets.
use resource_extend.Base.{String, ◌≡◌, sym, ◌∙◌, ap, [], ◌∷◌, All, arith}
use resource_extend.Base.Int.{ℤ, pos}
use resource_extend.Base.Word.{
  add64, sub64, InRange, add64-InRange, sub64-InRange, add64-zero, add64-zero_left, sub64-zero,
  add64_assoc, sub64-sub64, add64-sub64,
}
use resource_extend.Base.Dict.{count_of, IsMap, count_of_absent, lookup_nil}
use resource_extend.Storage.Volumes
use resource_extend.Storage.Volumes.{Volumes}
use resource_extend.Storage.Volumes.Sizes.{size_of-add, size_of-sub}
use resource_extend.Storage.Disk.{Rates, add_rates, sub_rates}
use resource_extend.Storage.Disk.Quota.{IsDistinct, RatesInRange, rates_of, rates_of-sub}
use resource_extend.Storage.Binding.{VolumeBinding, VolumePlan}
use resource_extend.Storage.Workload.{WorkloadResource}
use resource_extend.Storage.Calculate.Realloc.{
  add_volumes, sub_volumes, get_delta_workload_resource_args,
}

-- What a plan takes of a device in all.
abbrev pub planned_size : String → VolumePlan → ℤ
planned_size k [] = pos 0
planned_size k ((req, vm) ∷ plan) = add64 (count_of k vm) (planned_size k plan)

-- Each entry of the plan has each device once.
abbrev pub HasMaps : VolumePlan → Type 0
HasMaps = All (λ (e : VolumeBinding × Volumes). IsMap (e.1))

planned_size-InRange : (k : String) (plan : VolumePlan) → InRange (planned_size k plan)
planned_size-InRange k [] = omega arith
planned_size-InRange k ((req, vm) ∷ plan) = add64-InRange _ _

add_volumes-size :
    (k : String) (v : Volumes) (plan : VolumePlan)
    → HasMaps plan
    → InRange (count_of k v)
    → count_of k (add_volumes v plan) ≡ add64 (count_of k v) (planned_size k plan)
unfolding add_volumes
add_volumes-size k v [] h r = sym (add64-zero _ r)
add_volumes-size k v ((req, vm) ∷ plan) h r =
    let step = size_of-add k v vm (h.0) r in
    let next : InRange (count_of k (Volumes.add v vm)) = rw step (add64-InRange _ _) in
    rw (add_volumes-size k (Volumes.add v vm) plan (h.1) next, step) (add64_assoc _ _ _)

sub_volumes-size :
    (k : String) (v : Volumes) (plan : VolumePlan)
    → HasMaps plan
    → InRange (count_of k v)
    → count_of k (sub_volumes v plan) ≡ sub64 (count_of k v) (planned_size k plan)
unfolding sub_volumes
sub_volumes-size k v [] h r = sym (sub64-zero _ r)
sub_volumes-size k v ((req, vm) ∷ plan) h r =
    let step = size_of-sub k v vm (h.0) r in
    let next : InRange (count_of k (Volumes.sub v vm)) = rw step (sub64-InRange _ _) in
    rw (sub_volumes-size k (Volumes.sub v vm) plan (h.1) next, step) (sub64-sub64 _ _ _)

add_rates-sub_rates : (r q : Rates) → RatesInRange r → add_rates (sub_rates r q) q ≡ r
add_rates-sub_rates r q h = λ i. record {
  read_iops = add64-sub64 r.read_iops q.read_iops (h.0) i;
  write_iops = add64-sub64 r.write_iops q.write_iops (h.1) i;
  read_bps = add64-sub64 r.read_bps q.read_bps (h.2) i;
  write_bps = add64-sub64 r.write_bps q.write_bps (h.3) i;
}

-- A workload that had `origin` and is given `delta` has `target`.
pub record LeadsTo (k : String) (origin delta target : WorkloadResource) : Type 0 where
  pub volumes :
      add64 (planned_size k delta.volume_plan_request) (planned_size k origin.volume_plan_request)
      ≡ planned_size k target.volume_plan_request
  pub disks :
      add_rates (rates_of k delta.disks_request) (rates_of k origin.disks_request)
      ≡ rates_of k target.disks_request
  pub storage : add64 delta.storage_request origin.storage_request ≡ target.storage_request

-- For every device: where the entries of both plans name each device once, no device stands twice
-- among the disks that the workload had, and the target's storage and rates fit `int64`, the delta
-- added to what the workload had is what it gets, in the sizes that the plans take of the device, in
-- its rates, and in storage.
pub get_delta-LeadsTo :
    (k : String) (origin target : WorkloadResource)
    → HasMaps origin.volume_plan_request
    → HasMaps target.volume_plan_request
    → IsDistinct origin.disks_request
    → RatesInRange (rates_of k target.disks_request)
    → InRange target.storage_request
    → LeadsTo k origin (get_delta_workload_resource_args origin target) target
unfolding get_delta_workload_resource_args
get_delta-LeadsTo k origin target h h1 d r s =
    let nothing : count_of k [] ≡ pos 0 = count_of_absent k [] (lookup_nil k) in
    let had = planned_size k origin.volume_plan_request in
    let gets = planned_size k target.volume_plan_request in
    let gets_range : InRange gets = planned_size-InRange k target.volume_plan_request in
    let sum = add_volumes [] target.volume_plan_request in
    let got : count_of k sum ≡ gets =
      add_volumes-size k [] target.volume_plan_request h1 (rw nothing (omega arith))
      ∙ rw nothing (add64-zero_left gets gets_range) in
    let lost : count_of k (sub_volumes sum origin.volume_plan_request) ≡ sub64 gets had =
      sub_volumes-size k sum origin.volume_plan_request h (rw got gets_range)
      ∙ ap (λ (a : ℤ). sub64 a had) got in
    record {
      volumes =
          rw (lost, add64-zero (sub64 gets had) (sub64-InRange gets had))
            (add64-sub64 gets had gets_range);
      disks =
          ap (λ (q : Rates). add_rates q (rates_of k origin.disks_request))
            (rates_of-sub k target.disks_request origin.disks_request d r)
          ∙ add_rates-sub_rates (rates_of k target.disks_request) (rates_of k origin.disks_request)
              r;
      storage = add64-sub64 target.storage_request origin.storage_request s;
    }
