-- ===== src/Storage/Calculate/Deploy.antt =====
-- doGetNodeDeployCapacity of storage/node.go, and what it says of doAlloc. The division of floats is
-- a parameter.
use resource_extend.Base.{
  ℕ, ◌≤◌, Bool, ◌&&◌, ◌||◌, ltb, ◌≡◌, refl, sym, ◌∙◌, subst, ◌⊎◌, inl, inr, false, if◌then◌else◌,
  length, arith, Bool-cases,
}
use resource_extend.Base.Int.{ℤ, pos, ltb_ℤ, eqb_ℤ, quo}
use resource_extend.Base.Word.{sub64}
use resource_extend.Storage.Volumes
use resource_extend.Storage.Binding.{VolumeBindings, need_schedule, total_size}
use resource_extend.Storage.Node.{NodeResource}
use resource_extend.Storage.Workload.{WorkloadResourceRequest}
use resource_extend.Storage.Schedule.Host.{Host, new_host}
use resource_extend.Storage.Schedule.Entry
use resource_extend.Storage.Schedule.Plans.{Share}
use resource_extend.Storage.Schedule.Capacity.{get_volume_capacity, max_count}
use resource_extend.Storage.Calculate.{lacks_storage, do_alloc}
use resource_extend.Storage.Calculate.Exact.{
  AllocatesFor, do_alloc-AllocatesFor, capacity_unscheduled,
}

-- `min(capacity, storageCapacity)`
abbrev pub least : ℤ → ℤ → ℤ
least a b = if ltb_ℤ b a then b else a

-- The field Capacity.
unfoldable pub node_capacity : Share → NodeResource → NodeResource → ℕ → WorkloadResourceRequest → ℤ
node_capacity share capacity usage max_deploy_count req =
    let of_volumes =
      if need_schedule req.volumes_request
      then Entry.get_volume_capacity share capacity usage req.volumes_request max_deploy_count
      else max_deploy_count in
    if ltb_ℤ (pos 0) req.storage_request
    then least (pos of_volumes) (quo (sub64 capacity.storage usage.storage) req.storage_request)
    else pos of_volumes

pub record NodeDeployCapacity (Float : Type 0) : Type 0 where
  pub capacity : ℤ
  pub usage : Float
  pub rate : Float
  pub weight : ℤ

unfoldable pub do_get_node_deploy_capacity :
    {Float : Type 0}
    → (ℤ → ℤ → Float)
    → Share
    → NodeResource
    → NodeResource
    → ℕ
    → WorkloadResourceRequest
    → NodeDeployCapacity Float
unfolding node_capacity total_size Volumes.total
do_get_node_deploy_capacity divide share capacity usage max_deploy_count req =
    let volumes_total = Volumes.total capacity.volumes in
    let by_volumes = ltb 0 (length req.volumes_request) || eqb_ℤ req.storage_request (pos 0) in
    record {
      capacity = node_capacity share capacity usage max_deploy_count req;
      usage =
          if by_volumes
          then divide (Volumes.total usage.volumes) volumes_total
          else divide usage.storage capacity.storage;
      rate =
          if by_volumes
          then divide (total_size req.volumes_request) volumes_total
          else divide req.storage_request capacity.storage;
      weight = pos 1;
    }

limit_test :
    (sr q : ℤ) (v n : ℕ)
    → ((ltb_ℤ (pos 0) sr && ltb_ℤ q (pos n)) || ltb v n)
      ≡ ltb_ℤ (if ltb_ℤ (pos 0) sr then least (pos v) q else pos v) (pos n)
limit_test sr q v n = ground arith

of_volumes_eq :
    (share : Share) (requests : VolumeBindings) (h : Host) (n : ℕ)
    → h.max_deploy_count ≡ n
    → (if need_schedule requests then get_volume_capacity share requests h else n)
      ≡ get_volume_capacity share requests h
of_volumes_eq share requests h n limit = elim (Bool-cases (need_schedule requests)) [
  | inl e ↦ rw e refl
  | inr e ↦ rw e (sym (capacity_unscheduled share requests h e ∙ limit))
]

-- Whether the capacity of a node is less than the limit, as doAlloc tests it.
capacity_test :
    (share : Share) (capacity usage : NodeResource) (n : ℕ) (req : WorkloadResourceRequest)
    → (lacks_storage capacity usage n req
        || ltb (get_volume_capacity share req.volumes_request (new_host capacity usage n)) n)
      ≡ ltb_ℤ (node_capacity share capacity usage n req) (pos n)
unfolding lacks_storage node_capacity
capacity_test share capacity usage n req =
    let h = new_host capacity usage n in
    let limit : h.max_deploy_count ≡ n = unfold new_host in refl in
    rw (of_volumes_eq share req.volumes_request h n limit) (
      limit_test req.storage_request
        (quo (sub64 capacity.storage usage.storage) req.storage_request)
        (get_volume_capacity share req.volumes_request h) n)

-- Whatever the shares of monopoly volumes are: where each limit stands beside a request and the
-- largest number of deployments is an `int`, doAlloc gives that many workloads their resources exactly
-- where doGetNodeDeployCapacity reports no less, and else fails with ErrInsufficientResource.
pub do_alloc-node_deploy_capacity :
    (share : Share) (capacity usage : NodeResource) (n : ℕ) (req : WorkloadResourceRequest)
    → length req.volumes_limit ≤ length req.volumes_request
    → n ≤ max_count
    → AllocatesFor n
        (ltb_ℤ (node_capacity share capacity usage n req) (pos n))
        (do_alloc share capacity usage n req)
do_alloc-node_deploy_capacity share capacity usage n req h k =
    subst (λ (lacks : Bool). AllocatesFor n lacks (do_alloc share capacity usage n req))
      (capacity_test share capacity usage n req)
      (do_alloc-AllocatesFor share capacity usage n req h k)

-- The same for fewer deployments than the largest number, where no volume needs a schedule.
fewer_test :
    (sr q : ℤ) (n max : ℕ)
    → n ≤ max
    → ((ltb_ℤ (pos 0) sr && ltb_ℤ q (pos n)) || ltb n n)
      ≡ ltb_ℤ (if ltb_ℤ (pos 0) sr then least (pos max) q else pos max) (pos n)
fewer_test sr q n max h = ground arith

unscheduled_test :
    (share : Share) (capacity usage : NodeResource) (n max : ℕ) (req : WorkloadResourceRequest)
    → n ≤ max
    → need_schedule req.volumes_request ≡ false
    → (lacks_storage capacity usage n req
        || ltb (get_volume_capacity share req.volumes_request (new_host capacity usage n)) n)
      ≡ ltb_ℤ (node_capacity share capacity usage max req) (pos n)
unfolding lacks_storage node_capacity
unscheduled_test share capacity usage n max req h e =
    let host = new_host capacity usage n in
    let limit : host.max_deploy_count ≡ n = unfold new_host in refl in
    rw (e, capacity_unscheduled share req.volumes_request host e, limit)
      (fewer_test req.storage_request
        (quo (sub64 capacity.storage usage.storage) req.storage_request) n max h)

-- Whatever the shares of monopoly volumes are: what doGetNodeDeployCapacity reports for a largest
-- number of deployments decides doAlloc of that number, and of every smaller one where no volume
-- needs a schedule.
pub do_alloc-reported :
    (share : Share) (capacity usage : NodeResource) (n max : ℕ) (req : WorkloadResourceRequest)
    → length req.volumes_limit ≤ length req.volumes_request
    → n ≤ max
    → max ≤ max_count
    → (n ≡ max) ⊎ (need_schedule req.volumes_request ≡ false)
    → AllocatesFor n
        (ltb_ℤ (node_capacity share capacity usage max req) (pos n))
        (do_alloc share capacity usage n req)
do_alloc-reported share capacity usage n max req h le k (inl same) =
    subst
      (λ (m : ℕ).
        AllocatesFor n (ltb_ℤ (node_capacity share capacity usage m req) (pos n))
          (do_alloc share capacity usage n req))
      same (do_alloc-node_deploy_capacity share capacity usage n req h (omega arith))
do_alloc-reported share capacity usage n max req h le k (inr free) =
    subst (λ (lacks : Bool). AllocatesFor n lacks (do_alloc share capacity usage n req))
      (unscheduled_test share capacity usage n max req le free)
      (do_alloc-AllocatesFor share capacity usage n req h (omega arith))
