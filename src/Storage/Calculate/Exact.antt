-- ===== src/Storage/Calculate/Exact.antt =====
-- doAlloc gives each of the workloads its resources exactly where the node has enough for all.
use resource_extend.Base.{
  get_elem?-some, ℕ, suc, ◌+◌, ◌≤◌, Bool, true, false, not, ◌||◌, ltb, ◌≡◌, refl, sym, ◌∙◌, ap,
  subst, inl, inr, List, [], ◌∷◌, none, length, arith, Bool-cases, Option-cases,
}
use resource_extend.Errors.{Result, ok, err, insufficient_resource, ◌>>=◌}
use resource_extend.Storage.Disk.{Disks}
use resource_extend.Storage.Binding.{
  VolumeBindings, VolumePlan, need_schedule, require_schedule, find_by_key,
}
use resource_extend.Storage.Node.{NodeResource}
use resource_extend.Storage.Workload.{WorkloadResource, WorkloadResourceRequest}
use resource_extend.Storage.Schedule.Host.{Host, new_host}
use resource_extend.Storage.Schedule.Plans.{Share}
use resource_extend.Storage.Schedule.Capacity.{Plans, get_volume_capacity, max_count}
use resource_extend.Storage.Schedule.Capacity.Allocate.{get_volume_plans}
use resource_extend.Storage.Schedule.Capacity.Agree.{get_volume_plans-length}
use resource_extend.Storage.Schedule.Capacity.Counts.{length-replicate, HasCount}
use resource_extend.Storage.Calculate.{
  EngineParams, limit_entry, limit_loop, get_volume_plan_limit, alloc_one, alloc_loop,
  lacks_storage, if_enough, choose_plans, plans_for, do_alloc,
}

-- A result with a value, and one with a list of some length.
abbrev pub IsOk : {A : Type 0} → Result A → Type 0
IsOk (ok a) = Unit {0}
IsOk (err e) = ⊥

abbrev GivesCount : {A : Type 0} → ℕ → Result (List A) → Type 0
GivesCount n (ok l) = length l ≡ n
GivesCount n (err e) = ⊥

pub IsOk-value : {A : Type 0} (r : Result A) → IsOk r → (a : A) × (r ≡ ok a)
IsOk-value (ok a) h = (a, refl)
IsOk-value (err e) h = absurd h

pub limit_loop-IsOk :
    (requests : VolumeBindings) (index : ℕ) (limits : VolumeBindings) (plan : VolumePlan)
    → index + length limits ≤ length requests
    → IsOk (limit_loop requests index limits plan)
unfolding limit_loop limit_entry
limit_loop-IsOk requests index [] plan h = tt
limit_loop-IsOk requests index (binding ∷ limits) plan h =
    let (rest, e) = IsOk-value _ (limit_loop-IsOk requests (suc index) limits plan (omega arith)) in
    let (request, at) = get_elem?-some requests index (omega arith) in
    elim (Bool-cases (not (require_schedule binding))) [
      | inl s ↦ rw (e, s, limit_loop) tt
      | inr s ↦ elim (Option-cases (find_by_key binding none plan)) [
        | inl f ↦ rw (e, s, f, limit_loop) tt
        | inr (vm, f) ↦ rw (e, s, f, at, limit_loop) tt
      ]
    ]

alloc_one-IsOk :
    (disks : Disks) (req : WorkloadResourceRequest) (plan : VolumePlan) (disk_plan : Disks)
    → length req.volumes_limit ≤ length req.volumes_request
    → IsOk (alloc_one disks req plan disk_plan)
unfolding alloc_one get_volume_plan_limit
alloc_one-IsOk disks req plan disk_plan h =
    let (limit, e) =
      IsOk-value _ (limit_loop-IsOk req.volumes_request 0 req.volumes_limit plan (omega arith)) in
    rw (e, alloc_one) tt

alloc_loop-GivesCount :
    (disks : Disks) (req : WorkloadResourceRequest) (plans : List VolumePlan)
    (disk_plans : List Disks)
    → length req.volumes_limit ≤ length req.volumes_request
    → length disk_plans ≡ length plans
    → GivesCount (length plans) (alloc_loop disks req plans disk_plans)
unfolding alloc_loop
alloc_loop-GivesCount disks req [] disk_plans h e = refl
alloc_loop-GivesCount disks req (plan ∷ plans) [] h e = absurd (omega arith)
alloc_loop-GivesCount disks req (plan ∷ plans) (disk_plan ∷ disk_plans) h e =
    let (first, e1) = IsOk-value _ (alloc_one-IsOk disks req plan disk_plan h) in
    rw (e1, alloc_loop)
      (cons_count first (alloc_loop disks req plans disk_plans)
        (alloc_loop-GivesCount disks req plans disk_plans h (omega arith)))
  where
    cons_count :
        (first : EngineParams × WorkloadResource)
        (r : Result (List (EngineParams × WorkloadResource)))
        → GivesCount (length plans) r
        → GivesCount (suc (length plans)) (r >>= λ rest. ok (first ∷ rest))
    cons_count first (ok l) c = ap suc c
    cons_count first (err x) c = absurd c

pub get_volume_capacity_bound :
    (share : Share) (requests : VolumeBindings) (h : Host)
    → get_volume_capacity share requests h ≤ h.max_deploy_count
unfolding get_volume_capacity
get_volume_capacity_bound share requests h = ground arith

pub capacity_unscheduled :
    (share : Share) (requests : VolumeBindings) (h : Host)
    → need_schedule requests ≡ false
    → get_volume_capacity share requests h ≡ h.max_deploy_count
unfolding get_volume_capacity
capacity_unscheduled share requests h e = rw e refl

-- Plans for a number of workloads, or the error where they are lacking.
abbrev pub PlansFor : ℕ → Bool → Result Plans → Type 0
PlansFor n true r = r ≡ err insufficient_resource
PlansFor n false r = (p : Plans) × (r ≡ ok p) × HasCount p n

if_enough-PlansFor :
    (n count : ℕ) (plans : Plans)
    → HasCount plans count
    → count ≤ n
    → PlansFor n (ltb count n) (if_enough n plans)
unfolding if_enough
if_enough-PlansFor n count plans lengths bound = elim (Bool-cases (ltb count n)) [
  | inl lacks ↦ rw (lengths.0, lacks) refl
  | inr fits ↦
      let same : count ≡ n = ground arith in
      rw (lengths.0, fits) (plans, refl, (lengths.0 ∙ same, lengths.1 ∙ same))
]

choose_plans-PlansFor :
    (need : Bool) (n count : ℕ) (plans : Plans)
    → HasCount plans count
    → count ≤ n
    → (need ≡ false → count ≡ n)
    → PlansFor n (ltb count n) (choose_plans need n plans)
unfolding choose_plans
choose_plans-PlansFor false n count plans lengths bound h =
    let fits : ltb count n ≡ false = ground (arith, h refl) in
    rw fits (_, refl, (length-replicate n _, length-replicate n _))
choose_plans-PlansFor true n count plans lengths bound h =
    if_enough-PlansFor n count plans lengths bound

pub plans_for-PlansFor :
    (share : Share) (capacity usage : NodeResource) (n : ℕ) (requests : VolumeBindings)
    → n ≤ max_count
    → PlansFor n
        (ltb (get_volume_capacity share requests (new_host capacity usage n)) n)
        (plans_for share capacity usage n requests)
unfolding plans_for
plans_for-PlansFor share capacity usage n requests h =
    let host = new_host capacity usage n in
    let limit : host.max_deploy_count ≡ n = unfold new_host in refl in
    choose_plans-PlansFor (need_schedule requests) n (get_volume_capacity share requests host)
      (get_volume_plans share requests host)
      (get_volume_plans-length share requests host (omega arith))
      (subst (λ (m : ℕ). get_volume_capacity share requests host ≤ m) limit
        (get_volume_capacity_bound share requests host))
      (λ e. capacity_unscheduled share requests host e ∙ limit)

-- Resources for a number of workloads, or the error where they are lacking.
abbrev pub AllocatesFor : ℕ → Bool → Result (List (EngineParams × WorkloadResource)) → Type 0
AllocatesFor n true r = r ≡ err insufficient_resource
AllocatesFor n false r = GivesCount n r

-- Whatever the shares of monopoly volumes are: where each limit stands beside a request and the number
-- of workloads is at most the largest `int`, doAlloc gives each workload its resources exactly where
-- the storage is enough for all and GetVolumeCapacity counts no fewer, and fails with
-- ErrInsufficientResource in all other cases.
pub do_alloc-AllocatesFor :
    (share : Share) (capacity usage : NodeResource) (n : ℕ) (req : WorkloadResourceRequest)
    → length req.volumes_limit ≤ length req.volumes_request
    → n ≤ max_count
    → AllocatesFor n
        (lacks_storage capacity usage n req
          || ltb (get_volume_capacity share req.volumes_request (new_host capacity usage n)) n)
        (do_alloc share capacity usage n req)
unfolding do_alloc
do_alloc-AllocatesFor share capacity usage n req h k =
    let found = plans_for-PlansFor share capacity usage n req.volumes_request k in
    elim (Bool-cases (lacks_storage capacity usage n req)) [
      | inl e ↦ rw (e, do_alloc) refl
      | inr e ↦
          let lacks =
            ltb (get_volume_capacity share req.volumes_request (new_host capacity usage n)) n in
          elim (Bool-cases lacks) [
            | inl e1 ↦
                let none_found : PlansFor n true
                    (plans_for share capacity usage n req.volumes_request) =
                  rw e1 at found in
                rw (e, e1, none_found, do_alloc) refl
            | inr e1 ↦
                let (p, made, counts) : PlansFor n false
                    (plans_for share capacity usage n req.volumes_request) =
                  rw e1 at found in
                rw (e, e1, made, do_alloc, ← counts.0)
                  (alloc_loop-GivesCount capacity.disks req p.volume_plans p.disk_plans h
                    (counts.1 ∙ sym (counts.0)))
          ]
    ]
