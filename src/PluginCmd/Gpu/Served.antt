-- ===== src/PluginCmd/Gpu/Served.antt =====
-- Runs of the program of the gpu plugin: every verb leaves every stored info valid.
use resource_extend.Base.{String, Bool, List, [], ◌∷◌, ◌≡◌, refl, inl, inr, Bool-cases}
use resource_extend.Errors.{Result}
use resource_extend.Action.{Action}
use resource_extend.Metrics.{NodeRef}
use resource_extend.Nodestore.{Kv, Store}
use resource_extend.Nodestore.Laws.{IsKv, RoundTrips}
use resource_extend.Action.Keeps.{Keeps, Keeps-lift, call_parts, Keeps-bind, Keeps-pure}
use resource_extend.Gpu.Types.{NodeResourceInfo}
use resource_extend.Gpu.Store.{Encoding}
use resource_extend.Gpu.Plugin as Verbs
use resource_extend.Gpu.Queries
use resource_extend.Gpu.Metrics
use resource_extend.Gpu.Histories.{
  AllValid, add_safe, remove_safe, set_capacity_safe, set_usage_safe, set_info_safe, fix_safe,
  compare_safe,
}
use resource_extend.PluginCmd.{respond, Params, Handler}
use resource_extend.PluginCmd.Commands.{Host, VerbNames, commands}
use resource_extend.PluginCmd.Invariant.{Guards, Reached, Reached-Guards}
use resource_extend.PluginCmd.Gpu.{GpuCore, core_of, gpu_store, gpu_plugin, Answer, gpu_runner}

module _ {p : Params} (g : GpuCore p) (kv : Kv) (e : Encoding) (laws : IsKv kv)
    (trip : RoundTrips (gpu_store g kv e).info) where
  abbrev Safe : {A : Type 0} → Action kv.State A → Type 0
  Safe {A} m = Keeps (AllValid (core_of g) kv e) A m

  respond-Safe : {A B : Type 0} (f : A → B) (m : Action kv.State A) → Safe m → Safe (respond f m)
  unfolding respond
  respond-Safe f m h = Keeps-bind m _ h (λ a. Keeps-pure (f a))

  abbrev core : resource_extend.Gpu.Plugin.Core
  core = core_of g

  abbrev s : Store NodeResourceInfo
  s = gpu_store g kv e

  -- The verbs that only read.
  info-Safe : (n : String) (ws : List p.Raw) → Safe (Verbs.get_node_resource_info core s n ws)
  unfolding Verbs.get_node_resource_info
  info-Safe n ws = Keeps-bind _ _ (compare_safe core kv e laws trip n ws) (λ found. Keeps-pure _)

  capacities-Safe :
      (ns : List String) (r : p.Raw) → Safe (Queries.get_nodes_deploy_capacity core s ns r)
  unfolding Queries.get_nodes_deploy_capacity
  capacities-Safe ns r = search call_parts depth 9

  infos-Safe : (ns : List String) → Safe (Queries.get_nodes_resource_info core s ns)
  unfolding Queries.get_nodes_resource_info
  infos-Safe ns = search call_parts

  idle-Safe : (ns : List String) → Safe (Queries.get_most_idle_node core s ns)
  unfolding Queries.get_most_idle_node
  idle-Safe ns = search call_parts

  deploy-Safe :
      (n : String) (count : resource_extend.Base.Int.ℤ) (r : p.Raw)
      → Safe (Queries.calculate_deploy core s n count r)
  unfolding Queries.calculate_deploy
  deploy-Safe n count r = search call_parts depth 9

  realloc-Safe : (n : String) (r q : p.Raw) → Safe (Queries.calculate_realloc core s n r q)
  unfolding Queries.calculate_realloc
  realloc-Safe n r q = search call_parts depth 12

  metrics-Safe : (nodes : List NodeRef) → Safe (Metrics.get_metrics s nodes)
  unfolding Metrics.get_metrics
  metrics-Safe nodes = search call_parts

  abbrev pub HandlerSafe : Handler p kv.State (Answer g kv e) → Type 0
  HandlerSafe h = (input : p.Raw) → Safe (h (gpu_plugin g kv e) input)

  gpu_plugin-Guards : Guards (AllValid (core_of g) kv e) (gpu_plugin g kv e)
  gpu_plugin-Guards = record {
    add_node = λ n r i. respond-Safe _ _ (add_safe core kv e laws trip n r);
    remove_node = λ n. respond-Safe _ _ (remove_safe core kv e laws trip n);
    get_nodes_deploy_capacity = λ ns r. respond-Safe _ _ (capacities-Safe ns r);
    set_node_resource_capacity = λ n r q delta incr.
        respond-Safe _ _ (set_capacity_safe core kv e laws trip n _ _ delta incr);
    get_node_resource_info = λ n ws. respond-Safe _ _ (info-Safe n ws);
    get_nodes_resource_info = λ ns. respond-Safe _ _ (infos-Safe ns);
    set_node_resource_info = λ n c u. respond-Safe _ _ (set_info_safe core kv e laws trip n c u);
    set_node_resource_usage = λ n r q ws delta incr.
        respond-Safe _ _ (set_usage_safe core kv e laws trip n _ _ ws delta incr);
    get_most_idle_node = λ ns. respond-Safe _ _ (idle-Safe ns);
    fix_node_resource = λ n ws. respond-Safe _ _ (fix_safe core kv e laws trip n ws);
    calculate_deploy = λ n count r. respond-Safe _ _ (deploy-Safe n count r);
    calculate_realloc = λ n r q. respond-Safe _ _ (realloc-Safe n r q);
    get_metrics_description = respond-Safe _ _ (Keeps-lift _);
    get_metrics = λ nodes. respond-Safe _ _ (metrics-Safe nodes);
  }

  -- Whatever runs of the program's commands come one after the other, each with any standard input
  -- and whether it succeeds or not, the info of every node validates after them where it did before; for
  -- an etcd client that keeps its promises and an encoding that decodes what it has encoded.
  pub Reached-AllValid :
      (host : Host p (Answer g kv e)) (names : VerbNames) (path : String)
      (connect : host.Config → Result (Unit {0})) {st t : kv.State}
      → AllValid (core_of g) kv e st
      → Reached (commands host names (gpu_runner g kv e host path connect)) st t
      → AllValid (core_of g) kv e t
  unfolding gpu_runner
  Reached-AllValid host names path connect all runs =
      Reached-Guards (gpu_plugin g kv e) gpu_plugin-Guards host names path "gpu" connect all runs
