-- ===== src/Storage/Metrics.antt =====
-- storage/metrics.go: the storage of each node, as metrics.
use Prim.Native.String.{◌++◌}
use resource_extend.Base.{String, List, [], ◌∷◌, Option, none, some, map}
use resource_extend.Base.Dict.{Dict, lookup}
use resource_extend.Errors.{Result, ok, err, other, and_then}
use resource_extend.Action.{Action, lift, reads, ◌>>=◌}
use resource_extend.Metrics.{NodeRef, Description, Metric, safe}
use resource_extend.Nodestore.{Store, get_multi}
use resource_extend.Storage.Binding.Text.{decimal}
use resource_extend.Storage.Node.{NodeResource, NodeResourceInfo}
use resource_extend.Storage.Plugin.{deref}

unfoldable pub get_metrics_description : Result (List Description)
get_metrics_description = ok (
    record {
      name = "storage_used";
      help = "node used storage.";
      kind = "gauge";
      labels = "podname" ∷ "nodename" ∷ [];
    }
    ∷ record {
      name = "storage_capacity";
      help = "node available storage.";
      kind = "gauge";
      labels = "podname" ∷ "nodename" ∷ [];
    }
    ∷ [])

abbrev key_of : NodeRef → String → String
key_of node suffix = "core.node." ++ (safe node.nodename ++ suffix)

unfoldable pub node_metrics : NodeRef → NodeResource → NodeResource → List Metric
unfolding safe decimal
node_metrics node usage capacity =
    record {
      name = "storage_used";
      labels = node.podname ∷ node.nodename ∷ [];
      value = decimal usage.storage;
      key = key_of node ".storage.used";
    }
    ∷ record {
      name = "storage_capacity";
      labels = node.podname ∷ node.nodename ∷ [];
      value = decimal capacity.storage;
      key = key_of node ".storage.capacity";
    }
    ∷ []

-- The info of a node, with the pointers in it.
abbrev info_metrics : NodeRef → Option NodeResourceInfo → Result (List Metric)
info_metrics node none = err (other "nil pointer dereference")
info_metrics node (some info) =
    and_then (deref info.usage)
      λ usage. and_then (deref info.capacity) λ capacity. ok (node_metrics node usage capacity)

abbrev append : List Metric → List Metric → List Metric
append ms more = resource_extend.Base.◌++◌ ms more

unfoldable pub metrics_of : Dict NodeResourceInfo → List NodeRef → Result (List Metric)
unfolding node_metrics lookup
metrics_of infos [] = ok []
metrics_of infos (node ∷ nodes) =
    let rest = metrics_of infos nodes in
    and_then (info_metrics node (lookup node.nodename infos))
      λ first. and_then rest λ more. ok (append first more)

module _ (s : Store NodeResourceInfo) where
  open s use {kv}

  unfoldable pub get_metrics : List NodeRef → Action kv.State (List Metric)
  unfolding metrics_of
  get_metrics nodes = do
    infos ← reads (get_multi s (map (λ node. node.nodename) nodes))
    lift (metrics_of infos nodes)
