-- ===== src/Storage/Schedule/Capacity/Agree.antt =====
-- GetVolumeCapacity counts what GetVolumePlans returns (storage/schedule/schedule.go).
use resource_extend.Base.{
  ℕ, zero, suc, String, ◌+◌, ◌≤◌, min, max, ltb, false, ◌&&◌, ◌≡◌, refl, sym, ◌∙◌, ap, ◌⊎◌, inl,
  inr, List, [], ◌∷◌, ◌++◌, length, arith, Bool-cases,
}
use resource_extend.Errors.{Result, ok, err}
use resource_extend.Base.Int.{ℤ}
use resource_extend.Storage.Volumes.{get_device, get_size}
use resource_extend.Storage.Disk
use resource_extend.Storage.Binding.{VolumeBindings, VolumePlan, merge, need_schedule}
use resource_extend.Storage.Schedule.{RequestClasses, classify_volume_bindings}
use resource_extend.Storage.Schedule.Host.{Volume, Host, clone}
use resource_extend.Storage.Schedule.Plans.{Share}
use resource_extend.Storage.Schedule.Capacity.{
  no_plans, empty_plans, get_normal_plans, count_normal_plans, count_mono_plans, max_count,
  normal_bound, Evaluated, mono_bound, evaluate_plans, evaluate_counts, counts_of, is_scheduled,
  has_no_volumes, get_volume_capacity,
}
use resource_extend.Storage.Schedule.Capacity.Promote.{promote, wants_more}
use resource_extend.Storage.Schedule.Capacity.Alike.{IsKept, promote-AreAlike}
use resource_extend.Storage.Schedule.Capacity.Counts.{
  HasCount, normal_plans-Counted, mono_plans_count, count_mono_plans_bounds, length-replicate,
}
use resource_extend.Storage.Schedule.Capacity.Allocate.{
  join, combine, best_capacity, get_unlimited_plans, plans_on_largest, shrink, shrink_by_plan,
  shrink_by_plans, allocate, get_volume_plans,
}

-- What the loop of `promote` and the result see of two evaluations is the same.
record SeesSame (h : Host) (best : Evaluated) (counts : ℕ × ℕ) : Type 0 where
  normal_count : HasCount best.normal (counts.0)
  mono_disks : length best.mono.disk_plans ≡ length best.mono.volume_plans
  wants : wants_more (counts_of best) h ≡ wants_more counts h
  least : best_capacity best h.max_deploy_count ≡ min (min (counts.0) (counts.1)) h.max_deploy_count

-- Two numbers that are cut no lower than a limit are alike below it.
abbrev IsCut : ℕ → ℕ → ℕ → ℕ → Type 0
IsCut b b1 m m1 = (m ≡ m1) ⊎ ((x : ℕ) × (m ≡ min b x) × (m1 ≡ min b1 x))

IsCut-test :
    (n b b1 m m1 limit : ℕ)
    → limit ≤ b
    → limit ≤ b1
    → IsCut b b1 m m1
    → (ltb n m && ltb n limit) ≡ (ltb n m1 && ltb n limit)
IsCut-test n b b1 m m1 limit h h1 (inl e) = rw e refl
IsCut-test n b b1 m m1 limit h h1 (inr (x, e, e1)) = ground arith

IsCut-min :
    (n b b1 m m1 limit : ℕ)
    → limit ≤ b
    → limit ≤ b1
    → IsCut b b1 m m1
    → min (min n m) limit ≡ min (min n m1) limit
IsCut-min n b b1 m m1 limit h h1 (inl e) = rw e refl
IsCut-min n b b1 m m1 limit h h1 (inr (x, e, e1)) = omega arith

limit≤mono_bound :
    (classes : RequestClasses) (h : Host) (n : ℕ)
    → h.max_deploy_count ≤ max_count
    → h.max_deploy_count ≤ mono_bound classes h n
unfolding mono_bound
limit≤mono_bound classes h n k = ground arith

evaluate-SeesSame :
    (share : Share) (classes : RequestClasses) (bound : ℕ) (h : Host)
    → h.max_deploy_count ≤ max_count
    → SeesSame h (evaluate_plans share classes bound h) (evaluate_counts share classes bound h)
unfolding evaluate_plans evaluate_counts
evaluate-SeesSame share classes bound h k =
    let p = get_normal_plans classes.normal classes.mount bound (clone h) in
    let c = count_normal_plans classes.normal classes.mount bound (clone h) in
    let normal = normal_plans-Counted classes.normal classes.mount bound (clone h) in
    let b = mono_bound classes h (length (p.0).volume_plans) in
    let n = length (p.0).volume_plans in
    let b1 = max h.max_deploy_count (suc n) in
    let mono = mono_plans_count share classes.mono b (p.1) in
    let m = count_mono_plans share classes.mono b (p.1) in
    let m1 = count_mono_plans share classes.mono b1 (p.1) in
    let cut : IsCut b b1 m m1 = count_mono_plans_bounds share classes.mono b b1 (p.1) in
    let low : h.max_deploy_count ≤ b = limit≤mono_bound classes h n k in
    let low1 : h.max_deploy_count ≤ b1 = omega arith in
    record {
      normal_count = normal.0;
      mono_disks = mono.1 ∙ sym (mono.0);
      wants =
          rw (mono.0, ← normal.0.0, ← normal.1)
            (IsCut-test n b b1 m m1 h.max_deploy_count low low1 cut);
      least =
          rw (mono.0, ← normal.0.0, ← normal.1)
            (IsCut-min n b b1 m m1 h.max_deploy_count low low1 cut);
    }

length-join {ℓ} :
    {A : Type ℓ} (op : A → A → A) (n : ℕ) (xs ys : List A)
    → length (join op n xs ys) ≡ min n (min (length xs) (length ys))
unfolding join
length-join op zero xs ys = omega arith
length-join op (suc n) [] ys = omega arith
length-join op (suc n) (x ∷ xs) [] = omega arith
length-join op (suc n) (x ∷ xs) (y ∷ ys) = omega (arith, length-join op n xs ys)

combine-HasCount :
    (n : ℕ) (best : Evaluated) (unlimited : List VolumePlan)
    → length best.normal.volume_plans ≡ length best.normal.disk_plans
    → length best.mono.disk_plans ≡ length best.mono.volume_plans
    → n ≤ min (length best.normal.volume_plans) (length best.mono.volume_plans)
    → length unlimited ≡ n
    → HasCount (combine n best unlimited) n
unfolding combine
combine-HasCount n best unlimited e e1 h e2 = (
  omega (
    arith,
    length-join merge n (join merge n best.normal.volume_plans best.mono.volume_plans) unlimited,
    length-join merge n best.normal.volume_plans best.mono.volume_plans,
  ),
  omega (arith, length-join Disk.add n best.normal.disk_plans best.mono.disk_plans),
)

length-shrink :
    (device : String) (size : ℤ) (vs : List Volume) → length (shrink device size vs) ≡ length vs
unfolding shrink
length-shrink device size [] = refl
length-shrink device size (v ∷ vs) = ground (arith, length-shrink device size vs)

length-shrink_by_plan :
    (plan : VolumePlan) (vs : List Volume) → length (shrink_by_plan plan vs) ≡ length vs
unfolding shrink_by_plan
length-shrink_by_plan [] vs = refl
length-shrink_by_plan ((req, vm) ∷ plan) vs =
    length-shrink_by_plan plan (shrink (get_device vm) (get_size vm) vs)
    ∙ length-shrink (get_device vm) (get_size vm) vs

length-shrink_by_plans :
    (plans : List VolumePlan) (vs : List Volume) → length (shrink_by_plans plans vs) ≡ length vs
unfolding shrink_by_plans
length-shrink_by_plans [] vs = refl
length-shrink_by_plans (plan ∷ plans) vs =
    length-shrink_by_plans plans (shrink_by_plan plan vs) ∙ length-shrink_by_plan plan vs

length-++ {ℓ} : {A : Type ℓ} (xs ys : List A) → length (xs ++ ys) ≡ length xs + length ys
length-++ [] ys = omega arith
length-++ (x ∷ xs) ys = omega (arith, length-++ xs ys)

abbrev Makes : ℕ → Result (List VolumePlan) → Type 0
Makes n (ok l) = length l ≡ n
Makes n (err e) = ⊥

plans_on_largest-Makes :
    (vs : List Volume) (reqs : VolumeBindings) (n : ℕ)
    → 1 ≤ length vs
    → Makes n (plans_on_largest vs reqs n)
unfolding plans_on_largest
plans_on_largest-Makes [] reqs n h = absurd (omega arith)
plans_on_largest-Makes (v ∷ vs) reqs n h = length-replicate n _

get_unlimited_plans-Makes :
    (ps qs : List VolumePlan) (reqs : VolumeBindings) (n : ℕ) (h : Host)
    → (1 ≤ length reqs → 1 ≤ length h.unused_volumes + length h.used_volumes)
    → Makes n (get_unlimited_plans ps qs reqs n h)
unfolding get_unlimited_plans
get_unlimited_plans-Makes ps qs [] n h k = length-replicate n _
get_unlimited_plans-Makes ps qs (req ∷ reqs) n h k = plans_on_largest-Makes _ (req ∷ reqs) n (
    let some_volumes : 1 ≤ length h.unused_volumes + length h.used_volumes = k (omega arith) in
    omega (
      arith,
      length-shrink_by_plans qs (shrink_by_plans ps (h.used_volumes ++ h.unused_volumes)),
      length-shrink_by_plans ps (h.used_volumes ++ h.unused_volumes),
      length-++ h.used_volumes h.unused_volumes,
    ))

allocate-HasCount :
    (classes : RequestClasses) (best : Evaluated) (counts : ℕ × ℕ) (h : Host)
    → SeesSame h best counts
    → (1 ≤ length classes.unlimited → 1 ≤ length h.unused_volumes + length h.used_volumes)
    → HasCount (allocate classes best h) (min (min (counts.0) (counts.1)) h.max_deploy_count)
unfolding allocate
allocate-HasCount classes best counts h same k =
    let n = best_capacity best h.max_deploy_count in
    rw (← same.least) (
      go (get_unlimited_plans best.normal.volume_plans best.mono.volume_plans classes.unlimited n h)
        (get_unlimited_plans-Makes best.normal.volume_plans best.mono.volume_plans classes.unlimited
          n h k))
  where
    go :
        (r : Result (List VolumePlan))
        → Makes (best_capacity best h.max_deploy_count) r
        → HasCount
            (elim r [
              | err e ↦ no_plans
              | ok unlimited ↦ combine (best_capacity best h.max_deploy_count) best unlimited
            ])
            (best_capacity best h.max_deploy_count)
    go (ok unlimited) m =
        combine-HasCount _ best unlimited (same.normal_count.0 ∙ sym (same.normal_count.1))
          same.mono_disks (omega arith) m
    go (err e) m = absurd m

-- A host that passes the guard has volumes for unlimited requests, also after volumes were promoted.
volumes_remain :
    (classes : RequestClasses) (h h1 : Host)
    → IsKept h h1
    → (is_scheduled classes && has_no_volumes h) ≡ false
    → 1 ≤ length classes.unlimited
    → 1 ≤ length h1.unused_volumes + length h1.used_volumes
volumes_remain classes h h1 kept passes some_unlimited =
    let before : 1 ≤ length h.unused_volumes + length h.used_volumes = ground arith in
    omega (arith, kept.volumes_eq)

-- Whatever the shares of monopoly volumes are: where the number of plans that is asked for is at most
-- the largest `int`, GetVolumePlans returns as many plans of volumes, and of disks, as
-- GetVolumeCapacity counts.
pub get_volume_plans-length :
    (share : Share) (requests : VolumeBindings) (h : Host)
    → h.max_deploy_count ≤ max_count
    → (length (get_volume_plans share requests h).volume_plans
        ≡ get_volume_capacity share requests h)
      × (length (get_volume_plans share requests h).disk_plans
          ≡ get_volume_capacity share requests h)
unfolding get_volume_plans get_volume_capacity empty_plans
get_volume_plans-length share requests h k =
    let classes = classify_volume_bindings requests in
    let bound = normal_bound classes h in
    let alike =
      promote-AreAlike counts_of (λ (c : ℕ × ℕ). c) (evaluate_plans share classes bound)
        (evaluate_counts share classes bound) h SeesSame
        (λ h1 kept. evaluate-SeesSame share classes bound h1 (omega (arith, kept.count_eq)))
        (λ h1 r s same. same.wants) classes.normal in
    elim (Bool-cases (need_schedule requests)) [
      | inr e ↦ rw e (length-replicate h.max_deploy_count _, length-replicate h.max_deploy_count _)
      | inl e ↦ elim (Bool-cases (is_scheduled classes && has_no_volumes h)) [
        | inl e1 ↦ rw (e, e1) (refl, refl)
        | inr e1 ↦
            let (best, h1) =
              promote counts_of (evaluate_plans share classes bound) classes.normal h in
            let (counts, h2) =
              promote (λ c. c) (evaluate_counts share classes bound) classes.normal h in
            let found =
              allocate-HasCount classes best counts h1 (alike.2)
                (λ some_unlimited. volumes_remain classes h h1 (alike.0) e1 some_unlimited) in
            let same_limit = ap (min (min (counts.0) (counts.1))) (alike.0.count_eq) in
            rw (e, e1) (found.0 ∙ same_limit, found.1 ∙ same_limit)
      ]
    ]
