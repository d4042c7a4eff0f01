-- ===== src/PluginCmd/Gpu.antt =====
-- The program of cmd/resource-gpu/main.go: the gpu plugin behind the interface that the commands call.
pub mod Served
pub mod Removed
use resource_extend.Base.{String, Bool, List, Option, none, some, if◌then◌else◌}
use resource_extend.Base.Int.{ℤ}
use resource_extend.Base.Dict.{Dict}
use resource_extend.Errors.{Result, ok, and_then}
use resource_extend.Action.{Action, pure, lift, ◌>>=◌}
use resource_extend.Metrics.{Description, Metric}
use resource_extend.Nodestore.{Kv, Store}
use resource_extend.Gpu.Types.{ProdCountMap, NodeResourceInfo}
use resource_extend.Gpu.Store.{Encoding, new_store}
use resource_extend.Gpu.Plugin as Verbs
use resource_extend.Gpu.Plugin.{Core, Changed, InfoResponse}
use resource_extend.Gpu.Queries
use resource_extend.Gpu.Queries.{NodeDeployCapacity}
use resource_extend.Gpu.Realloc.{Reallocation}
use resource_extend.Gpu.Metrics
use resource_extend.PluginCmd.{Params, Plugin, respond}
use resource_extend.PluginCmd.Commands.{Host, Runner}

-- What the gpu plugin uses of core besides the accessors.
pub record GpuCore (p : Params) : Type 1 where
  pub decode : p.Raw → Result ProdCountMap
  -- whether the map that is decoded is nil
  pub decodes_to_nil : p.Raw → Bool
  pub is_set : p.Raw → String → Bool
  -- `raw == nil`
  pub is_nil : p.Raw → Bool
  pub Float : Type 0
  pub advanced_divide : ℤ → ℤ → Float
  pub less : Float → Float → Bool
  pub max_float : Float

abbrev pub core_of : {p : Params} → GpuCore p → Core
core_of {p} g = record {
  Raw = p.Raw;
  decode = g.decode;
  decodes_to_nil = g.decodes_to_nil;
  is_set = g.is_set;
  Float = g.Float;
  advanced_divide = g.advanced_divide;
  less = g.less;
  max_float = g.max_float;
}

-- The responses of the verbs; `empty` is a response without fields, `null` a nil pointer.
pub data Response (core : Core) (s : Store NodeResourceInfo) : Type 0 where
  null empty : Response core s
  counts : ProdCountMap → Response core s
  changed : Changed → Response core s
  one_info : InfoResponse → Response core s
  infos : Dict NodeResourceInfo → Response core s
  capacities : Dict (NodeDeployCapacity core s) × ℤ → Response core s
  idle : String × ℤ → Response core s
  plans : List ProdCountMap × List ProdCountMap → Response core s
  reallocated : Reallocation → Response core s
  descriptions : List Description → Response core s
  metrics : List Metric → Response core s

module _ {p : Params} (g : GpuCore p) (kv : Kv) (e : Encoding) where
  abbrev pub gpu_store : Store NodeResourceInfo
  gpu_store = new_store kv e

  abbrev pub Answer : Type 0
  Answer = Response (core_of g) gpu_store

  abbrev as_option : p.Raw → Option p.Raw
  as_option raw = if g.is_nil raw then none else some raw

  abbrev pub gpu_plugin : Plugin p kv.State Answer
  gpu_plugin = record {
    add_node = λ n r i. respond counts (Verbs.add_node (core_of g) gpu_store n r);
    remove_node = λ n. respond (λ _. empty) (Verbs.remove_node (core_of g) gpu_store n);
    get_nodes_deploy_capacity =
        λ ns r. respond capacities (Queries.get_nodes_deploy_capacity (core_of g) gpu_store ns r);
    set_node_resource_capacity = λ n r q delta incr. respond changed (
        Verbs.set_node_resource_capacity (core_of g) gpu_store n (as_option r) (as_option q) delta
          incr);
    get_node_resource_info =
        λ n ws. respond one_info (Verbs.get_node_resource_info (core_of g) gpu_store n ws);
    no_response = null;
    get_nodes_resource_info =
        λ ns. respond infos (Queries.get_nodes_resource_info (core_of g) gpu_store ns);
    set_node_resource_info =
        λ n c u. respond (λ _. empty) (Verbs.set_node_resource_info (core_of g) gpu_store n c u);
    set_node_resource_usage = λ n r q ws delta incr. respond changed (
        Verbs.set_node_resource_usage (core_of g) gpu_store n (as_option r) (as_option q) ws delta
          incr);
    get_most_idle_node = λ ns. respond idle (Queries.get_most_idle_node (core_of g) gpu_store ns);
    fix_node_resource =
        λ n ws. respond one_info (Verbs.fix_node_resource (core_of g) gpu_store n ws);
    calculate_deploy =
        λ n count r. respond plans (Queries.calculate_deploy (core_of g) gpu_store n count r);
    calculate_realloc =
        λ n r q. respond reallocated (Queries.calculate_realloc (core_of g) gpu_store n r q);
    get_metrics_description = respond descriptions (lift Metrics.get_metrics_description);
    get_metrics = λ nodes. respond metrics (Metrics.get_metrics gpu_store nodes);
  }

  -- main: `connect` is what NewPlugin does with the config, which is to dial etcd.
  unfoldable pub gpu_runner :
      (host : Host p Answer) → String → (host.Config → Result (Unit {0})) → Runner host kv.State
  gpu_runner host path connect = record {
    config_path = path;
    plugin_name = "gpu";
    new_plugin = λ config. and_then (connect config) (λ _. ok gpu_plugin);
  }
