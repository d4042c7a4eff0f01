-- ===== src/PluginCmd/Storage/Served.antt =====
-- Runs of the program of the storage plugin: every verb leaves the stored records valid.
use resource_extend.Base.{String, List}
use resource_extend.Base.Int.{ℤ, pos, negsuc}
use resource_extend.Errors.{Result}
use resource_extend.Action.{Action}
use resource_extend.Action.Keeps.{Keeps, Keeps-bind, Keeps-lift, Keeps-pure, call_parts}
use resource_extend.Metrics.{NodeRef}
use resource_extend.Nodestore.{Kv, Store}
use resource_extend.Nodestore.Laws.{IsKv, RoundTrips}
use resource_extend.Storage.Node.{NodeResourceInfo}
use resource_extend.Storage.Plugin as Verbs
use resource_extend.Storage.Plugin.{Encoding}
use resource_extend.Storage.Plugin.Compare
use resource_extend.Storage.Queries
use resource_extend.Storage.Metrics
use resource_extend.Storage.Plugin.Histories.{
  AllWithin, add_safe, remove_safe, set_capacity_safe, set_usage_safe, set_info_safe, fix_safe,
  compare_safe,
}
use resource_extend.PluginCmd.{Params, respond}
use resource_extend.PluginCmd.Commands.{Host, VerbNames, commands}
use resource_extend.PluginCmd.Invariant.{Guards, Reached, Reached-Guards}
use resource_extend.PluginCmd.Storage.{
  StorageCore, core, reader_of, storage_store, storage_plugin, storage_runner, deploy, Response,
}

module _ {p : Params} (g : StorageCore p) (kv : Kv) (e : Encoding) (laws : IsKv kv)
    (trip : RoundTrips (storage_store g kv e).info) where
  abbrev c : Verbs.Core
  c = core g kv e

  abbrev s : Store NodeResourceInfo
  s = storage_store g kv e

  abbrev Safe : {A : Type 0} → Action kv.State A → Type 0
  Safe {A} m = Keeps (AllWithin c kv e) A m

  respond-Safe : {A B : Type 0} (f : A → B) (m : Action kv.State A) → Safe m → Safe (respond f m)
  unfolding respond
  respond-Safe f m h = Keeps-bind m _ h (λ a. Keeps-pure (f a))

  -- The verbs that only read.
  info-Safe : (n : String) (ws : List p.Raw) → Safe (Compare.get_node_resource_info c s n ws)
  unfolding Compare.get_node_resource_info
  info-Safe n ws =
      Keeps-bind _ _ (compare_safe c kv e laws trip n ws)
        (λ found. Keeps-bind _ _ (Keeps-lift _) (λ capacity. Keeps-pure _))

  capacities-Safe :
      (ns : List String) (r : p.Raw)
      → Safe (
          Queries.get_nodes_deploy_capacity
            (reader_of g)
            s
            g.share
            g.divide
            g.max_deploy_count
            ns
            r)
  unfolding Queries.get_nodes_deploy_capacity
  capacities-Safe ns r = search call_parts depth 12

  infos-Safe : (ns : List String) → Safe (Verbs.get_nodes_resource_info c s ns)
  unfolding Verbs.get_nodes_resource_info
  infos-Safe ns = search call_parts

  deploy-Safe : (n : String) (count : ℤ) (r : p.Raw) → Safe (deploy g kv e n count r)
  unfolding Queries.calculate_deploy
  deploy-Safe n (pos count) r = search call_parts depth 15
  deploy-Safe n (negsuc count) r = search call_parts

  realloc-Safe :
      (n : String) (r q : p.Raw) → Safe (Queries.calculate_realloc (reader_of g) s g.share n r q)
  unfolding Queries.calculate_realloc
  realloc-Safe n r q = search call_parts depth 15

  metrics-Safe : (nodes : List NodeRef) → Safe (Metrics.get_metrics s nodes)
  unfolding Metrics.get_metrics
  metrics-Safe nodes = search call_parts

  storage_plugin-Guards : Guards (AllWithin c kv e) (storage_plugin g kv e)
  storage_plugin-Guards = record {
    add_node = λ n r i. respond-Safe _ _ (add_safe c kv e laws trip n r _);
    remove_node = λ n. respond-Safe _ _ (remove_safe c kv e laws trip n);
    get_nodes_deploy_capacity = λ ns r. respond-Safe _ _ (capacities-Safe ns r);
    set_node_resource_capacity =
        λ n r q delta incr. respond-Safe _ _ (set_capacity_safe c kv e laws trip n _ _ delta incr);
    get_node_resource_info = λ n ws. respond-Safe _ _ (info-Safe n ws);
    get_nodes_resource_info = λ ns. respond-Safe _ _ (infos-Safe ns);
    set_node_resource_info = λ n new u. respond-Safe _ _ (set_info_safe c kv e laws trip n new u);
    set_node_resource_usage = λ n r q ws delta incr.
        respond-Safe _ _ (set_usage_safe c kv e laws trip n _ _ ws delta incr);
    get_most_idle_node = λ ns. respond-Safe _ _ (Keeps-lift _);
    fix_node_resource = λ n ws. respond-Safe _ _ (fix_safe c kv e laws trip n ws);
    calculate_deploy = λ n count r. respond-Safe _ _ (deploy-Safe n count r);
    calculate_realloc = λ n r q. respond-Safe _ _ (realloc-Safe n r q);
    get_metrics_description = respond-Safe _ _ (Keeps-lift _);
    get_metrics = λ nodes. respond-Safe _ _ (metrics-Safe nodes);
  }

  -- Whatever runs of the program's commands come one after the other, each with any standard input
  -- and whether it succeeds or not, the stored record of every node has after them a capacity and a
  -- usage, where this held before: on each volume and disk that the capacity has, the usage is not
  -- negative and within the capacity, both storages are not negative, and each disk of the usage is one
  -- of the capacity. This is for an etcd client that keeps its promises and an encoding that decodes what
  -- it has encoded.
  pub Reached-AllWithin :
      (host : Host p (Response g.Float)) (names : VerbNames) (path : String)
      (connect : host.Config → Result (Unit {0})) {st t : kv.State}
      → AllWithin (core g kv e) kv e st
      → Reached (commands host names (storage_runner g kv e host path connect)) st t
      → AllWithin (core g kv e) kv e t
  unfolding storage_runner
  Reached-AllWithin host names path connect all runs =
      Reached-Guards (storage_plugin g kv e) storage_plugin-Guards host names path "storage" connect
        all runs
