-- ===== src/Gpu/Queries.antt =====
-- The plugin verbs of gpu/node.go over several nodes, and those of gpu/calculate.go. None of them
-- writes.
use Prim.Native.String.{compare}
use Prim.Native.Nat.{Ordering}
use resource_extend.Base.{String, Bool, List, [], ◌∷◌, if◌then◌else◌}
use resource_extend.Base.Int.{ℤ, pos, ltb_ℤ}
use resource_extend.Base.Word.{add64}
use resource_extend.Base.Dict.{Dict, insert}
use resource_extend.Action.{Action, pure, lift, reads, ◌>>=◌, ◌>>◌}
use resource_extend.Nodestore.{Store, get_or_empty, get_multi}
use resource_extend.Gpu.Types.{
  ProdCountMap, NodeResourceInfo, validate, validate_prod, count, cap_count, usage_count,
}
use resource_extend.Gpu.Alloc.{do_alloc, node_capacity}
use resource_extend.Gpu.Realloc.{Reallocation, realloc}
use resource_extend.Gpu.Plugin.{Core}

module _ (core : Core) (s : Store NodeResourceInfo) where
  open core use {Raw, Float}
  open s use {kv}

  pub record NodeDeployCapacity : Type 0 where
    pub capacity : ℤ
    pub usage : Float
    pub rate : Float
    pub weight : ℤ

  unfoldable pub do_get_node_deploy_capacity : NodeResourceInfo → ProdCountMap → NodeDeployCapacity
  do_get_node_deploy_capacity info req = record {
    capacity = node_capacity info req;
    usage = core.advanced_divide (usage_count info) (cap_count info);
    rate = core.advanced_divide (count req) (cap_count info);
    weight = pos 1;
  }

  -- The loop over the nodes' infos keeps those with room, and adds up their capacities.
  unfoldable pub gather_capacities :
      ProdCountMap
      → Dict NodeResourceInfo
      → Dict NodeDeployCapacity × ℤ
      → Dict NodeDeployCapacity × ℤ
  unfolding do_get_node_deploy_capacity
  gather_capacities req [] found = found
  gather_capacities req ((nodename, info) ∷ infos) (capacities, total) =
      let c = do_get_node_deploy_capacity info req in
      gather_capacities req infos (
        if ltb_ℤ (pos 0) c.capacity
        then (insert nodename c capacities, add64 total c.capacity)
        else (capacities, total))

  unfoldable pub get_nodes_deploy_capacity :
      List String → Raw → Action kv.State (Dict NodeDeployCapacity × ℤ)
  unfolding gather_capacities
  get_nodes_deploy_capacity nodenames resource = do
    req ← lift (core.decode resource)
    lift (validate req)
    infos ← reads (get_multi s nodenames)
    pure (gather_capacities req infos ([], pos 0))

  unfoldable pub get_nodes_resource_info : List String → Action kv.State (Dict NodeResourceInfo)
  get_nodes_resource_info nodenames = reads (get_multi s nodenames)

  before : String → String → Bool
  before a b = elim (compare a b) [ Ordering.lt ↦ Bool.true | _ ↦ Bool.false ]

  insert_sorted : String × NodeResourceInfo → Dict NodeResourceInfo → Dict NodeResourceInfo
  unfolding before
  insert_sorted e [] = e ∷ []
  insert_sorted e (f ∷ m) = if before f.0 e.0 then f ∷ insert_sorted e m else e ∷ f ∷ m

  -- `slices.Sorted(maps.Keys(m))`, with the values at hand.
  unfoldable pub by_key : Dict NodeResourceInfo → Dict NodeResourceInfo
  unfolding insert_sorted
  by_key [] = []
  by_key (e ∷ m) = insert_sorted e (by_key m)

  unfoldable pub idle_of : NodeResourceInfo → Float
  idle_of info = core.advanced_divide (usage_count info) (cap_count info)

  unfoldable pub most_idle : String → Float → Dict NodeResourceInfo → String
  unfolding idle_of
  most_idle node min_idle [] = node
  most_idle node min_idle ((nodename, info) ∷ infos) =
      let idle = idle_of info in
      let closer = core.less idle min_idle in
      most_idle (if closer then nodename else node) (if closer then idle else min_idle) infos

  unfoldable pub get_most_idle_node : List String → Action kv.State (String × ℤ)
  unfolding most_idle by_key
  get_most_idle_node nodenames = do
    infos ← reads (get_multi s nodenames)
    pure (most_idle "" core.max_float (by_key infos), pos 100)

  unfoldable pub calculate_deploy :
      String → ℤ → Raw → Action kv.State (List ProdCountMap × List ProdCountMap)
  calculate_deploy nodename deploy_count resource_request = do
    req ← lift (core.decode resource_request)
    lift (validate req)
    info ← reads (get_or_empty s nodename)
    lift (do_alloc info deploy_count req)

  unfoldable pub calculate_realloc : String → Raw → Raw → Action kv.State Reallocation
  calculate_realloc nodename resource resource_request = do
    req ← lift (core.decode resource_request)
    lift (validate_prod req)
    origin ← lift (core.decode resource)
    lift (validate origin)
    info ← reads (get_or_empty s nodename)
    lift (realloc info origin req)
