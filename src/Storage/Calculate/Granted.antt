-- ===== src/Storage/Calculate/Granted.antt =====
-- What doAlloc gives to each of the workloads, where the node has enough for all of them.
use resource_extend.Base.{
  ℕ, suc, ◌*◌, ◌≤◌, ◌<◌, Bool, true, false, ltb, ◌≡◌, ◌↔◌, refl, sym, ◌∙◌, ap, inl, inr, List, [],
  ◌∷◌, All, map, length, replicate, if◌then◌else◌, arith, Bool-cases,
}
use resource_extend.Base.Int.{ℤ, pos, pos_part, ltb_ℤ, ◌<ℤ◌}
use resource_extend.Base.Quotient.{le-quo}
use resource_extend.Base.Word.{sub64}
use resource_extend.Errors.{ok, err, insufficient_resource}
use resource_extend.Storage.Disk.{Disks}
use resource_extend.Storage.Binding.{VolumePlan, need_schedule, apply_plan}
use resource_extend.Storage.Node.{NodeResource}
use resource_extend.Storage.Workload.{WorkloadResource, WorkloadResourceRequest}
use resource_extend.Storage.Schedule.Host.{new_host}
use resource_extend.Storage.Schedule.Entry
use resource_extend.Storage.Schedule.Plans.{Share}
use resource_extend.Storage.Schedule.Capacity.{Plans, get_volume_capacity, max_count}
use resource_extend.Storage.Calculate.{
  EngineParams, get_disks_limit, to_iops_options, texts, get_volume_plan_limit, alloc_one,
  alloc_loop, lacks_storage, if_enough, choose_plans, plans_for, do_alloc,
}
use resource_extend.Storage.Calculate.Limits.{AreLimits, limit_loop-AreLimits}
use resource_extend.Storage.Calculate.Exact.{PlansFor, plans_for-PlansFor}

-- What a workload and its engine get of a request: the request's bindings and storage, an entry of
-- the plan limit for each limit that its plan has, the quota of the disks of these, and the engine the
-- texts of the bindings with the plan applied to them.
pub record IsGranted (disks : Disks) (req : WorkloadResourceRequest)
    (given : EngineParams × WorkloadResource) : Type 0 where
  pub volumes_request : given.1.volumes_request ≡ req.volumes_request
  pub volumes_limit : given.1.volumes_limit ≡ req.volumes_limit
  pub storage_request : given.1.storage_request ≡ req.storage_request
  pub storage_limit : given.1.storage_limit ≡ req.storage_limit
  pub limits :
      AreLimits req.volumes_request given.1.volume_plan_request 0 req.volumes_limit
        given.1.volume_plan_limit
  pub disks_limit :
      given.1.disks_limit ≡ get_disks_limit req.volumes_limit given.1.volume_plan_limit disks
  pub engine_volumes :
      given.0.volumes ≡ texts (apply_plan given.1.volume_plan_request req.volumes_limit)
  pub engine_storage : given.0.storage ≡ req.storage_limit
  pub engine_iops : given.0.iops_options ≡ to_iops_options given.1.disks_limit []

-- The plan and the quota of a disk that a workload gets.
abbrev plan_of : EngineParams × WorkloadResource → VolumePlan
plan_of given = given.1.volume_plan_request

abbrev disks_of : EngineParams × WorkloadResource → Disks
disks_of given = given.1.disks_request

-- What one round makes once the limits of its plan are known.
abbrev made_with :
    Disks
    → WorkloadResourceRequest
    → VolumePlan
    → Disks
    → VolumePlan
    → EngineParams × WorkloadResource
made_with disks req plan disk_plan limit =
    let disks_limit = get_disks_limit req.volumes_limit limit disks in
    (
      record {
        volumes = texts (apply_plan plan req.volumes_limit);
        volume_changed = false;
        storage = req.storage_limit;
        iops_options = to_iops_options disks_limit [];
      },
      record {
        volumes_request = req.volumes_request;
        volumes_limit = req.volumes_limit;
        volume_plan_request = plan;
        volume_plan_limit = limit;
        storage_request = req.storage_request;
        storage_limit = req.storage_limit;
        disks_request = disk_plan;
        disks_limit = disks_limit;
      },
    )

alloc_one-IsGranted :
    (disks : Disks) (req : WorkloadResourceRequest) (plan : VolumePlan) (disk_plan : Disks)
    → length req.volumes_limit ≤ length req.volumes_request
    → (given : EngineParams × WorkloadResource) × (alloc_one disks req plan disk_plan ≡ ok given)
      × IsGranted disks req given
      × (plan_of given ≡ plan)
      × (disks_of given ≡ disk_plan)
unfolding alloc_one get_volume_plan_limit
alloc_one-IsGranted disks req plan disk_plan h =
    let (limit, e, limits) =
      limit_loop-AreLimits req.volumes_request 0 req.volumes_limit plan (omega arith) in
    (
      made_with disks req plan disk_plan limit,
      rw e refl,
      record {
        volumes_request = refl;
        volumes_limit = refl;
        storage_request = refl;
        storage_limit = refl;
        limits = limits;
        disks_limit = refl;
        engine_volumes = refl;
        engine_storage = refl;
        engine_iops = refl;
      },
      refl,
      refl,
    )

-- Each of the workloads gets its plan, its disks, and what IsGranted says.
pub record AreGranted (disks : Disks) (req : WorkloadResourceRequest) (plans : Plans)
    (given : List (EngineParams × WorkloadResource)) : Type 0 where
  pub each : All (IsGranted disks req) given
  pub plans_eq : map plan_of given ≡ plans.volume_plans
  pub disks_eq : map disks_of given ≡ plans.disk_plans

alloc_loop-AreGranted :
    (disks : Disks) (req : WorkloadResourceRequest) (plans : List VolumePlan)
    (disk_plans : List Disks)
    → length req.volumes_limit ≤ length req.volumes_request
    → length disk_plans ≡ length plans
    → (given : List (EngineParams × WorkloadResource)) × (alloc_loop disks req plans disk_plans
        ≡ ok given)
      × AreGranted disks req (record { volume_plans = plans; disk_plans = disk_plans }) given
unfolding alloc_loop
alloc_loop-AreGranted disks req [] [] h e =
    ([], refl, record { each = tt; plans_eq = refl; disks_eq = refl })
alloc_loop-AreGranted disks req [] (d ∷ disk_plans) h e = absurd (omega arith)
alloc_loop-AreGranted disks req (plan ∷ plans) [] h e = absurd (omega arith)
alloc_loop-AreGranted disks req (plan ∷ plans) (disk_plan ∷ disk_plans) h e =
    let (first, made, granted, p, d) = alloc_one-IsGranted disks req plan disk_plan h in
    let (rest, all, ih) = alloc_loop-AreGranted disks req plans disk_plans h (omega arith) in
    (
      first ∷ rest,
      rw (made, all) refl,
      record {
        each = (granted, ih.each);
        plans_eq = rw (p, ih.plans_eq) refl;
        disks_eq = rw (d, ih.disks_eq) refl;
      },
    )

length-map : {A B : Type 0} (f : A → B) (xs : List A) → length xs ≡ length (map f xs)
length-map f [] = refl
length-map f (x ∷ xs) = ap suc (length-map f xs)

-- Storage for a number of workloads, where they ask for any.
abbrev pub HasStorage : NodeResource → NodeResource → ℕ → ℤ → Type 0
HasStorage capacity usage n request =
    pos 0 <ℤ request → n * pos_part request ≤ pos_part (sub64 capacity.storage usage.storage)

lacks_storage-HasStorage :
    (capacity usage : NodeResource) (n : ℕ) (req : WorkloadResourceRequest)
    → 0 < n
    → (lacks_storage capacity usage n req ≡ false) ↔ HasStorage capacity usage n req.storage_request
unfolding lacks_storage
lacks_storage-HasStorage capacity usage n req h =
    let exact = le-quo n (sub64 capacity.storage usage.storage) req.storage_request h in
    (
      λ e positive. (exact positive).0 (ground arith),
      λ enough. elim (Bool-cases (ltb_ℤ (pos 0) req.storage_request)) [
        | inl asks ↦ let least = (exact (ground arith)).1 (enough (ground arith)) in ground arith
        | inr free ↦ rw free refl
      ],
    )

-- The plans of the workloads: those of GetVolumePlans, or empty ones where no volume needs a schedule.
abbrev pub plans_given : Share → NodeResource → NodeResource → ℕ → WorkloadResourceRequest → Plans
plans_given share capacity usage n req =
    if need_schedule req.volumes_request
    then Entry.get_volume_plans share capacity usage req.volumes_request n
    else record { volume_plans = replicate n []; disk_plans = replicate n [] }

-- One sort of plans for all, as the code chooses them.
choose_plans-given :
    (need : Bool) (n : ℕ) (plans p : Plans)
    → choose_plans need n plans ≡ ok p
    → p ≡ (
        if need
        then plans
        else record { volume_plans = replicate n []; disk_plans = replicate n [] })
unfolding choose_plans if_enough
choose_plans-given false n plans p h = cc
choose_plans-given true n plans p h = ground arith

-- Whatever the shares of monopoly volumes are: where each limit stands beside a request, and for a
-- number of workloads from 1 to the largest `int`, doAlloc grants all of them if what the node has left
-- of storage is enough for that many times the request (where it asks for any) and GetVolumeCapacity
-- counts no fewer. Then the workloads have the plans and disks of GetVolumePlans in their order, or
-- empty ones where no volume needs a schedule; each has the storage and the bindings of the request, and
-- a plan limit with these entries and no others: for each limit that needs a schedule and whose key the
-- plan has, the device of the plan with its size and what the limit has over the request at its index;
-- and its engine has the storage limit and the bindings with the plan applied to them. In all other
-- cases doAlloc fails with ErrInsufficientResource.
pub do_alloc-AreGranted :
    (share : Share) (capacity usage : NodeResource) (n : ℕ) (req : WorkloadResourceRequest)
    → length req.volumes_limit ≤ length req.volumes_request
    → 0 < n
    → n ≤ max_count
    → (HasStorage capacity usage n req.storage_request
        → n ≤ get_volume_capacity share req.volumes_request (new_host capacity usage n)
        → (given : List (EngineParams × WorkloadResource)) × (do_alloc share capacity usage n req
            ≡ ok given)
          × (length given ≡ n)
          × AreGranted capacity.disks req (plans_given share capacity usage n req) given)
      × (¬ (
            HasStorage capacity usage n req.storage_request
            × (n ≤ get_volume_capacity share req.volumes_request (new_host capacity usage n)))
          → do_alloc share capacity usage n req ≡ err insufficient_resource)
unfolding do_alloc plans_for
do_alloc-AreGranted share capacity usage n req h h0 k =
    let storage = lacks_storage-HasStorage capacity usage n req h0 in
    let found = plans_for-PlansFor share capacity usage n req.volumes_request k in
    let count = get_volume_capacity share req.volumes_request (new_host capacity usage n) in
    (
      λ enough fits.
          let (p, made, counts) : PlansFor n false
              (plans_for share capacity usage n req.volumes_request) =
            let e : ltb count n ≡ false = ground arith in rw e at found in
          let (given, all, are) =
            alloc_loop-AreGranted capacity.disks req p.volume_plans p.disk_plans h
              (counts.1 ∙ sym counts.0) in
          let same = choose_plans-given (need_schedule req.volumes_request) n _ p made in
          (
            given,
            rw (storage.1 enough, made, all) refl,
            length-map plan_of given ∙ ap length are.plans_eq ∙ counts.0,
            rw (← same) are,
          ),
      λ lacking. elim (Bool-cases (lacks_storage capacity usage n req)) [
        | inl e ↦ rw e refl
        | inr e ↦
            let none_found : PlansFor n true
                (plans_for share capacity usage n req.volumes_request) =
              let few : ltb count n ≡ true = elim (Bool-cases (ltb count n)) [
                | inl t ↦ t
                | inr f ↦ absurd (lacking (storage.0 e, ground arith))
              ] in
              rw few at found in
            rw (e, none_found) refl
      ],
    )
