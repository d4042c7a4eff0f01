-- ===== src/Storage/Queries.antt =====
-- The verbs of storage/calculate.go, and GetNodesDeployCapacity of storage/node.go: they read requests
-- and records and write nothing. The capacities of the nodes, which the source computes at the same
-- time, are independent of each other and are computed in turn.
pub mod Capacity
use resource_extend.Base.{String, ℕ, Bool, List, [], ◌∷◌, Option, none, some, if◌then◌else◌}
use resource_extend.Base.Int.{ℤ, pos, ltb_ℤ}
use resource_extend.Base.Word.{add64}
use resource_extend.Base.Dict.{Dict, lookup, insert}
use resource_extend.Errors.{Result, ok, err, other, and_then}
use resource_extend.Action.{Action, pure, lift, reads, ◌>>=◌}
use resource_extend.Nodestore.{Store, get_or_empty, get_multi}
use resource_extend.Storage.Node.{NodeResource, NodeResourceInfo}
use resource_extend.Storage.Workload.{WorkloadResource, WorkloadResourceRequest, validate}
use resource_extend.Storage.Schedule.Plans.{Share}
use resource_extend.Storage.Calculate.{EngineParams, do_alloc}
use resource_extend.Storage.Calculate.Deploy.{NodeDeployCapacity, do_get_node_deploy_capacity}
use resource_extend.Storage.Calculate.Realloc.{Reallocated}
use resource_extend.Storage.Calculate.Realloc
use resource_extend.Storage.Plugin.{deref}
use resource_extend.Storage.Parse.{Reader, parse_workload_request}

module _ (share : Share) {Float : Type 0} (divide : ℤ → ℤ → Float) (max_deploy_count : ℕ) where
  -- Of one node; a record without a capacity or a usage is a nil pointer.
  unfoldable pub capacity_of :
      WorkloadResourceRequest → Option NodeResourceInfo → Result (NodeDeployCapacity Float)
  unfolding do_get_node_deploy_capacity
  capacity_of req none = err (other "nil pointer dereference")
  capacity_of req (some info) = and_then (deref info.capacity) (λ capacity.
      and_then (deref info.usage) (λ usage.
        ok (do_get_node_deploy_capacity divide share capacity usage max_deploy_count req)))

  unfoldable pub capacity_infos :
      WorkloadResourceRequest
      → Dict NodeResourceInfo
      → List String
      → Result (Dict (NodeDeployCapacity Float))
  unfolding capacity_of
  capacity_infos req infos [] = ok []
  capacity_infos req infos (nodename ∷ nodenames) =
      let rest = capacity_infos req infos nodenames in
      and_then (capacity_of req (lookup nodename infos))
        (λ c. and_then rest (λ cs. ok ((nodename, c) ∷ cs)))

-- The loop that keeps the nodes with room, and adds up their capacities.
unfoldable pub gather :
    {Float : Type 0}
    → Dict (NodeDeployCapacity Float)
    → Dict (NodeDeployCapacity Float) × ℤ
    → Dict (NodeDeployCapacity Float) × ℤ
gather [] found = found
gather ((nodename, c) ∷ cs) (capacities, total) = gather cs (
    if ltb_ℤ (pos 0) c.capacity
    then (insert nodename c capacities, add64 total c.capacity)
    else (capacities, total))

module _ (r : Reader) (s : Store NodeResourceInfo) (share : Share) where
  open r use {Raw}
  open s use {kv}

  unfoldable pub calculate_deploy :
      String → ℕ → Raw → Action kv.State (List (EngineParams × WorkloadResource))
  unfolding parse_workload_request validate do_alloc
  calculate_deploy nodename deploy_count resource_request = do
    parsed ← lift (parse_workload_request r resource_request)
    req ← lift (validate parsed)
    info ← reads (get_or_empty s nodename)
    capacity ← lift (deref info.capacity)
    usage ← lift (deref info.usage)
    lift (do_alloc share capacity usage deploy_count req)

  unfoldable pub calculate_realloc : String → Raw → Raw → Action kv.State Reallocated
  unfolding parse_workload_request Realloc.calculate_realloc
  calculate_realloc nodename resource resource_request = do
    req ← lift (parse_workload_request r resource_request)
    origin ← lift (r.decode_workload resource)
    info ← reads (get_or_empty s nodename)
    capacity ← lift (deref info.capacity)
    usage ← lift (deref info.usage)
    lift (Realloc.calculate_realloc share capacity usage origin req)

  -- An empty response.
  unfoldable pub calculate_remap : String → Dict Raw → Action kv.State (Unit {0})
  calculate_remap nodename workloads = pure tt

  unfoldable pub get_nodes_deploy_capacity :
      {Float : Type 0}
      → (ℤ → ℤ → Float)
      → ℕ
      → List String
      → Raw
      → Action kv.State (Dict (NodeDeployCapacity Float) × ℤ)
  unfolding parse_workload_request validate capacity_infos gather
  get_nodes_deploy_capacity divide max_deploy_count nodenames resource = do
    parsed ← lift (parse_workload_request r resource)
    req ← lift (validate parsed)
    infos ← reads (get_multi s nodenames)
    cs ← lift (capacity_infos share divide max_deploy_count req infos nodenames)
    pure (gather cs ([], pos 0))
