-- ===== src/PluginCmd/Storage.antt =====
-- The program of cmd/resource-storage/main.go: the storage plugin behind the interface that the commands
-- call.
pub mod Served
use resource_extend.Base.{ℕ, String, Bool, List, Option, none, some, if◌then◌else◌}
use resource_extend.Base.Int.{ℤ, pos, negsuc}
use resource_extend.Base.Dict.{Dict}
use resource_extend.Errors.{Result, ok, and_then}
use resource_extend.Action.{Action, lift}
use resource_extend.Metrics.{Description, Metric}
use resource_extend.Nodestore.{Kv, Store}
use resource_extend.Storage.Node.{NodeResource, NodeResourceInfo}
use resource_extend.Storage.Workload.{WorkloadResource}
use resource_extend.Storage.Schedule.Plans.{Share}
use resource_extend.Storage.Calculate.{EngineParams}
use resource_extend.Storage.Calculate.Deploy.{NodeDeployCapacity}
use resource_extend.Storage.Calculate.Realloc.{Reallocated}
use resource_extend.Storage.Plugin as Verbs
use resource_extend.Storage.Plugin.{Core, Encoding, Changed, new_store}
use resource_extend.Storage.Plugin.Compare
use resource_extend.Storage.Plugin.Compare.{InfoResponse}
use resource_extend.Storage.Parse.{Reader, core_of}
use resource_extend.Storage.Queries
use resource_extend.Storage.Metrics
use resource_extend.PluginCmd.{Params, Plugin, respond}
use resource_extend.PluginCmd.Commands.{Host, Runner}

abbrev pub Plans : Type 0
Plans = List (EngineParams × WorkloadResource)

-- What the storage plugin uses of core besides the accessors.
pub record StorageCore (p : Params) : Type 1 where
  pub size_in_bytes : p.Raw → String → Result ℤ
  pub is_set : p.Raw → String → Bool
  -- `raw == nil`
  pub is_nil : p.Raw → Bool
  pub parse_ram_in_human : String → Result ℤ
  pub decode_resource : p.Raw → Result NodeResource
  pub decode_workload : p.Raw → Result WorkloadResource
  -- the field StorageTotal of the engine's info, where there is one
  pub storage_total : p.Info → Option ℤ
  pub Float : Type 0
  pub divide : ℤ → ℤ → Float
  pub share : Share
  pub max_deploy_count : ℕ
  -- The answer to a negative number of deployments, which the plugin has no branch for.
  pub negative_count : String → ℕ → p.Raw → Result Plans

abbrev pub reader_of : {p : Params} → StorageCore p → Reader
reader_of {p} g = record {
  Raw = p.Raw;
  string_slice = p.string_slice;
  text = p.text;
  size_in_bytes = g.size_in_bytes;
  is_set = g.is_set;
  parse_ram_in_human = g.parse_ram_in_human;
  decode_resource = g.decode_resource;
  decode_workload = g.decode_workload;
}

-- The responses of the verbs; `empty` is a response without fields, `null` a nil pointer.
pub data Response (Float : Type 0) : Type 0 where
  null empty : Response Float
  added : NodeResource → Response Float
  changed : Changed → Response Float
  one_info : InfoResponse → Response Float
  infos : Dict NodeResourceInfo → Response Float
  capacities : Dict (NodeDeployCapacity Float) × ℤ → Response Float
  idle : String × ℤ → Response Float
  plans : Plans → Response Float
  reallocated : Reallocated → Response Float
  descriptions : List Description → Response Float
  metrics : List Metric → Response Float

module _ {p : Params} (g : StorageCore p) (kv : Kv) (e : Encoding) where
  abbrev pub storage_store : Store NodeResourceInfo
  storage_store = new_store kv e

  abbrev pub core : Core
  core = core_of (reader_of g)

  abbrev as_option : p.Raw → Option p.Raw
  as_option raw = if g.is_nil raw then none else some raw

  abbrev pub deploy : String → ℤ → p.Raw → Action kv.State Plans
  deploy n (pos count) r = Queries.calculate_deploy (reader_of g) storage_store g.share n count r
  deploy n (negsuc count) r = lift (g.negative_count n count r)

  abbrev pub storage_plugin : Plugin p kv.State (Response g.Float)
  storage_plugin = record {
    add_node = λ n r i. respond added (Verbs.add_node core storage_store n r (g.storage_total i));
    remove_node = λ n. respond (λ _. empty) (Verbs.remove_node core storage_store n);
    get_nodes_deploy_capacity = λ ns r. respond capacities (
        Queries.get_nodes_deploy_capacity (reader_of g) storage_store g.share g.divide
          g.max_deploy_count ns r);
    set_node_resource_capacity = λ n r q delta incr. respond changed (
        Verbs.set_node_resource_capacity core storage_store n (as_option r) (as_option q) delta
          incr);
    get_node_resource_info =
        λ n ws. respond one_info (Compare.get_node_resource_info core storage_store n ws);
    no_response = null;
    get_nodes_resource_info =
        λ ns. respond infos (Verbs.get_nodes_resource_info core storage_store ns);
    set_node_resource_info =
        λ n c u. respond (λ _. empty) (Verbs.set_node_resource_info core storage_store n c u);
    set_node_resource_usage = λ n r q ws delta incr. respond changed (
        Verbs.set_node_resource_usage core storage_store n (as_option r) (as_option q) ws delta
          incr);
    get_most_idle_node = λ ns. respond idle (lift (Verbs.get_most_idle_node core storage_store ns));
    fix_node_resource =
        λ n ws. respond one_info (Compare.fix_node_resource core storage_store n ws);
    calculate_deploy = λ n count r. respond plans (deploy n count r);
    calculate_realloc = λ n r q.
        respond reallocated (Queries.calculate_realloc (reader_of g) storage_store g.share n r q);
    get_metrics_description = respond descriptions (lift Metrics.get_metrics_description);
    get_metrics = λ nodes. respond metrics (Metrics.get_metrics storage_store nodes);
  }

  -- main: `connect` is what NewPlugin does with the config, which is to dial etcd.
  unfoldable pub storage_runner :
      (host : Host p (Response g.Float))
      → String
      → (host.Config → Result (Unit {0}))
      → Runner host kv.State
  storage_runner host path connect = record {
    config_path = path;
    plugin_name = "storage";
    new_plugin = λ config. and_then (connect config) (λ _. ok storage_plugin);
  }
